-- ===== src/Config/Raft.antt =====
-- `Config` of include/vosfs/raft/config.hpp. No result is an exception.
use vosfs.Common.{ℕ, ◌∷◌, [], ◌++◌, List, Option, none, some, Str, utf8, ◌>>=◌, ℕ_discrete}
use vosfs.Common.Map.{Map, emplace, values}
use vosfs.Common.Result.{Result, ok, err, file_open_failed}
use vosfs.Json.{Json, Key, get_number, get_port, get_text, get_array}
use vosfs.Config.Files.{Files, pushed}
use vosfs.StateMachine.Defs.{NodeInfo}

pub record Config : Type 0 where
  pub data_dir : Str
  pub cluster_id : ℕ
  pub member_id : ℕ
  pub name : Str
  pub host : Str
  pub port : ℕ
  pub raft_nodes : Map ℕ NodeInfo
  pub data_nodes : List NodeInfo

abbrev pub default_config : Config
default_config = record {
  data_dir = utf8 "/var/lib/vosfs";
  cluster_id = 0;
  member_id = 0;
  name = utf8 "node";
  host = utf8 "0.0.0.0";
  port = 8080;
  raft_nodes = [];
  data_nodes = [];
}

module _ {J : Type 0} (json : Json J) where
  unfoldable pub node_json : NodeInfo → J
  node_json node = json.object (
      (Key.id, json.number node.id)
      ∷ (Key.name, json.text node.name)
      ∷ (Key.host, json.text node.host)
      ∷ (Key.port, json.number node.port)
      ∷ [])

  unfoldable pub nodes_json : List NodeInfo → List J
  unfolding node_json
  nodes_json [] = []
  nodes_json (node ∷ nodes) = node_json node ∷ nodes_json nodes

  unfoldable pub config_json : Config → J
  unfolding nodes_json
  config_json c = json.object (
      (Key.data_dir, json.text c.data_dir)
      ∷ (Key.cluster_id, json.number c.cluster_id)
      ∷ (Key.member_id, json.number c.member_id)
      ∷ (Key.name, json.text c.name)
      ∷ (Key.host, json.text c.host)
      ∷ (Key.port, json.number c.port)
      ∷ (Key.raft_nodes, pushed json (nodes_json (values c.raft_nodes)))
      ∷ (Key.data_nodes, pushed json (nodes_json c.data_nodes))
      ∷ [])

  unfoldable pub read_node : J → Option NodeInfo
  read_node j = do
    id ← get_number json Key.id j
    name ← get_text json Key.name j
    host ← get_text json Key.host j
    port ← get_port json Key.port j
    some (record { id = id; name = name; host = host; port = port })

  unfoldable pub read_raft_nodes : List J → Map ℕ NodeInfo → Option (Map ℕ NodeInfo)
  unfolding read_node emplace
  read_raft_nodes [] m = some m
  read_raft_nodes (j ∷ js) m =
      read_node j >>= λ node. read_raft_nodes js (emplace ℕ_discrete node.id node m)

  unfoldable pub read_data_nodes : List J → List NodeInfo → Option (List NodeInfo)
  unfolding read_node
  read_data_nodes [] nodes = some nodes
  read_data_nodes (j ∷ js) nodes = read_node j >>= λ node. read_data_nodes js (nodes ++ node ∷ [])

  unfoldable pub read_config : J → Option Config
  unfolding read_raft_nodes read_data_nodes
  read_config j = do
    data_dir ← get_text json Key.data_dir j
    cluster_id ← get_number json Key.cluster_id j
    member_id ← get_number json Key.member_id j
    name ← get_text json Key.name j
    host ← get_text json Key.host j
    port ← get_port json Key.port j
    rs ← get_array json Key.raft_nodes j
    raft_nodes ← read_raft_nodes rs []
    ds ← get_array json Key.data_nodes j
    data_nodes ← read_data_nodes ds []
    some (record {
      data_dir = data_dir;
      cluster_id = cluster_id;
      member_id = member_id;
      name = name;
      host = host;
      port = port;
      raft_nodes = raft_nodes;
      data_nodes = data_nodes;
    })

  module _ {FS : Type 0} (files : Files FS) where
    -- `Config::from_json`
    unfoldable pub from_json : FS → Str → Option (Result Config)
    unfolding read_config
    from_json fs path = elim (files.read_file fs path) [
      | none ↦ some (err file_open_failed)
      | some text ↦ (json.parse text >>= λ j. read_config j >>= λ c. some (ok c))
    ]

    -- `Config::to_json`
    unfoldable pub to_json : Config → FS → Str → FS
    unfolding config_json
    to_json c fs path = files.save fs path (json.dump (config_json c))
