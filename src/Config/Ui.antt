-- ===== src/Config/Ui.antt =====
-- `Config` and `ConfigBuilder` of include/vosfs/ui/config.hpp. No result is an exception.
use vosfs.Common.{ℕ, ◌∷◌, [], List, Option, none, some, Str, utf8, ◌>>=◌, ℕ_discrete, if◌then◌else◌}
use vosfs.Common.Map.{Map, emplace, values}
use vosfs.Common.Result.{Result, ok, err, file_open_failed}
use vosfs.Json.{Json, Key, get_number, get_port, get_text, get_array}
use vosfs.Config.Files.{Files, pushed}

pub record NodeInfo : Type 0 where
  pub id : ℕ
  pub host : Str
  pub port : ℕ

pub record Config : Type 0 where
  pub auth_host : Str
  pub auth_port : ℕ
  pub raft_nodes : Map ℕ NodeInfo
  pub data_nodes : Map ℕ NodeInfo

abbrev pub default_config : Config
default_config = record {
  auth_host = utf8 "127.0.0.1";
  auth_port = 9000;
  raft_nodes = [];
  data_nodes = [];
}

-- The builder is the configuration that it holds.
unfoldable pub set_auth_host : Str → Config → Config
set_auth_host auth_host c = record c { auth_host = auth_host }

unfoldable pub set_auth_port : ℕ → Config → Config
set_auth_port auth_port c = record c { auth_port = auth_port }

unfoldable pub add_raft_node : ℕ → Str → ℕ → Config → Config
unfolding emplace
add_raft_node id host port c = record c {
  raft_nodes = emplace ℕ_discrete id (record { id = id; host = host; port = port }) c.raft_nodes;
}

unfoldable pub add_data_node : ℕ → Str → ℕ → Config → Config
unfolding emplace
add_data_node id host port c = record c {
  data_nodes = emplace ℕ_discrete id (record { id = id; host = host; port = port }) c.data_nodes;
}

module _ {J : Type 0} (json : Json J) where
  unfoldable pub node_json : NodeInfo → J
  node_json node = json.object (
      (Key.id, json.number node.id)
      ∷ (Key.host, json.text node.host)
      ∷ (Key.port, json.number node.port)
      ∷ [])

  unfoldable pub nodes_json : List NodeInfo → List J
  unfolding node_json
  nodes_json [] = []
  nodes_json (node ∷ nodes) = node_json node ∷ nodes_json nodes

  unfoldable pub config_json : Config → J
  unfolding nodes_json
  config_json c = json.object (
      (Key.auth_host, json.text c.auth_host)
      ∷ (Key.auth_port, json.number c.auth_port)
      ∷ (Key.raft_nodes, pushed json (nodes_json (values c.raft_nodes)))
      ∷ (Key.data_nodes, pushed json (nodes_json (values c.data_nodes)))
      ∷ [])

  unfoldable pub read_node : J → Option NodeInfo
  read_node j = do
    id ← get_number json Key.id j
    host ← get_text json Key.host j
    port ← get_port json Key.port j
    some (record { id = id; host = host; port = port })

  unfoldable pub read_nodes : List J → Map ℕ NodeInfo → Option (Map ℕ NodeInfo)
  unfolding read_node emplace
  read_nodes [] m = some m
  read_nodes (j ∷ js) m = read_node j >>= λ node. read_nodes js (emplace ℕ_discrete node.id node m)

  unfoldable pub read_config : J → Option Config
  unfolding read_nodes
  read_config j = do
    auth_host ← get_text json Key.auth_host j
    auth_port ← get_port json Key.auth_port j
    rs ← get_array json Key.raft_nodes j
    raft_nodes ← read_nodes rs []
    ds ← get_array json Key.data_nodes j
    data_nodes ← read_nodes ds []
    some (record {
      auth_host = auth_host;
      auth_port = auth_port;
      raft_nodes = raft_nodes;
      data_nodes = data_nodes;
    })

  module _ {FS : Type 0} (files : Files FS) where
    -- `Config::from_json`
    unfoldable pub from_json : FS → Str → Option (Result Config)
    unfolding read_config
    from_json fs path = elim (files.read_file fs path) [
      | none ↦ some (err file_open_failed)
      | some text ↦ (json.parse text >>= λ j. read_config j >>= λ c. some (ok c))
    ]

    -- `Config::to_json`, which leaves a file that is there as it is
    unfoldable pub to_json : Config → FS → Str → FS
    unfolding config_json
    to_json c fs path =
        if files.exists fs path then fs else files.save fs path (json.dump (config_json c))
