-- ===== src/Config/Examples.antt =====
-- The theorems on configurations at files in memory.
use vosfs.Common.{
  ℕ, ◌≡◌, ◌∷◌, [], Bool, true, false, Option, none, some, Str, arith, str_discrete, ℕ_discrete,
}
use vosfs.Common.Map.{Map, find, put, find-put}
use vosfs.Common.Result.{ok}
use vosfs.Json.Samples.{json, json_laws}
use vosfs.StateMachine.Defs.{NodeInfo}
use vosfs.Config.Files.{Files, Keeps}
use vosfs.Config.Raft
use vosfs.Config.RaftBuilder
use vosfs.Config.RaftLoading.{from_json-to_json}

abbrev Fs : Type 0
Fs = Map Str Str

abbrev is_there : Option Str → Bool
is_there none = false
is_there (some text) = true

abbrev files : Files Fs
files = record {
  exists = λ fs path. is_there (find str_discrete path fs);
  read_file = λ fs path. find str_discrete path fs;
  save = λ fs path text. put str_discrete path text fs;
}

keeps : Keeps files
keeps fs path text = ground (arith, find-put str_discrete path path text fs)

abbrev path : Str
path = b'c' ∷ []

abbrev host : Str
host = b'h' ∷ []

abbrev node_config : Raft.Config
node_config =
    RaftBuilder.add_data_node 7 host host 7070
      (RaftBuilder.add_raft_node 1 host host 8080 Raft.default_config)

from_json-to_json_example :
    (m : Map ℕ NodeInfo) × (Raft.from_json json files
        (Raft.to_json json files node_config [] path)
        path
      ≡ some (ok (record node_config { raft_nodes = m })))
    × ((k : ℕ) → find ℕ_discrete k m ≡ find ℕ_discrete k node_config.raft_nodes)
from_json-to_json_example =
    from_json-to_json json json_laws files node_config [] path
      (RaftBuilder.Builds.data_node 7 host host 7070 _ (omega arith)
        (RaftBuilder.Builds.raft_node 1 host host 8080 _ (omega arith) RaftBuilder.Builds.options))
      keeps
