-- ===== src/Node/Boot.antt =====
-- `RaftNode::create` from the file of its configuration on. No result is an exception or an abort.
use vosfs.Common.{
  ℕ, ◌≡◌, ap, ◌∷◌, [], List, Option, some, Str, utf8, if◌then◌else◌, ◌==◌, ◌>>=◌, ℕ_discrete,
}
use vosfs.Common.Map.{Map, find, emplace, values}
use vosfs.Common.Result.{Result, ok, err}
use vosfs.Json.{Json, JsonLaws}
use vosfs.StateMachine.Defs.{NodeInfo}
use vosfs.Config.Files.{Files, Keeps}
use vosfs.Config.Raft.{Config, from_json, to_json}
use vosfs.Config.RaftBuilder.{Builds}
use vosfs.Config.RaftLoading.{from_json-to_json}
use vosfs.Node.Defs.{World, Node}
use vosfs.Node.Start.{Settings, create}

-- `std::filesystem::path(dir) / name`, for a name that is relative
abbrev pub join : Str → Str → Str
join [] name = name
join (c ∷ []) name = if c == b'/' then c ∷ name else c ∷ b'/' ∷ name
join (c ∷ d ∷ dir) name = c ∷ join (d ∷ dir) name

abbrev pub snapshot_dir : Str
snapshot_dir = utf8 "raft/snapshot"

abbrev pub db_dir : Str
db_dir = utf8 "raft/db"

abbrev pub snapshot_file_name : Str
snapshot_file_name = utf8 "snapshot.bin"

abbrev pub snapshot_temp_file_name : Str
snapshot_temp_file_name = utf8 "snapshot.tmp"

-- `Transport::Transport`: one peer for each number
unfoldable pub peers_of : List NodeInfo → Map ℕ NodeInfo → Map ℕ NodeInfo
unfolding emplace
peers_of [] peers = peers
peers_of (node ∷ nodes) peers = peers_of nodes (emplace ℕ_discrete node.id node peers)

abbrev pub peer_ids : Map ℕ NodeInfo → List ℕ
peer_ids [] = []
peer_ids ((id, node) ∷ peers) = id ∷ peer_ids peers

unfoldable pub settings_of : Config → Settings
unfolding peers_of
settings_of config = record {
  member_id = config.member_id;
  raft_nodes = peer_ids (peers_of (values config.raft_nodes) []);
  data_nodes = config.data_nodes;
  snapshot_path = join (join config.data_dir snapshot_dir) snapshot_file_name;
  tmp_path = join (join config.data_dir snapshot_dir) snapshot_temp_file_name;
}

-- `database` is what `Persister::create` makes of a directory.
module _ {DB FS J : Type 0} (w : World DB FS) (statx : FS → Str → Option ℕ)
    (database : Str → Result DB) (json : Json J) (files : Files FS) where
  abbrev pub started : ℕ → FS → Result Config → Option (Result (Node DB FS))
  unfolding settings_of create
  started fuel fs (err e) = some (err e)
  started fuel fs (ok config) =
      create w statx fuel (settings_of config) (database (join config.data_dir db_dir)) fs

  -- `RaftNode::create`
  unfoldable pub boot : ℕ → Str → FS → Option (Result (Node DB FS))
  unfolding from_json started
  boot fuel config_path fs =
      from_json json files fs config_path >>= λ has_config. started fuel fs has_config

  -- A node that starts from a configuration that the builder built and that was written to its file
  -- starts with the member's number, the storage nodes and the directories of the configuration, and
  -- with a map of the nodes of the cluster that finds what the configuration's finds.
  pub boot-to_json :
      (laws : JsonLaws json) (fuel : ℕ) (c : Config) (fs : FS) (path : Str)
      → Builds c
      → Keeps files
      → (m : Map ℕ NodeInfo) × (boot fuel path (to_json json files c fs path)
          ≡ create w statx fuel
              (settings_of (record c { raft_nodes = m }))
              (database (join c.data_dir db_dir))
              (to_json json files c fs path))
        × ((k : ℕ) → find ℕ_discrete k m ≡ find ℕ_discrete k c.raft_nodes)
  unfolding boot
  boot-to_json laws fuel c fs path built keeps =
      let (m, read, same) = from_json-to_json json laws files c fs path built keeps in
      (
        m,
        ap (λ has_config. has_config >>= λ r. started fuel (to_json json files c fs path) r) read,
        same,
      )
