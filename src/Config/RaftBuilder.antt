-- ===== src/Config/RaftBuilder.antt =====
-- `ConfigBuilder` of include/vosfs/raft/config.hpp: a builder is the configuration that it holds.
use vosfs.Common.{ℕ, ◌≡◌, refl, ◌<◌, ◌^◌, ◌∷◌, [], ◌++◌, Str, arith, All, All-append, ℕ_discrete}
use vosfs.Common.Map.{Map, emplace, All-emplace}
use vosfs.StateMachine.Defs.{NodeInfo}
use vosfs.Config.Raft.{Config, default_config}

unfoldable pub set_data_dir : Str → Config → Config
set_data_dir data_dir c = record c { data_dir = data_dir }

unfoldable pub set_cluster_id : ℕ → Config → Config
set_cluster_id cluster_id c = record c { cluster_id = cluster_id }

unfoldable pub set_member_id : ℕ → Config → Config
set_member_id member_id c = record c { member_id = member_id }

unfoldable pub set_name : Str → Config → Config
set_name name c = record c { name = name }

unfoldable pub set_host : Str → Config → Config
set_host host c = record c { host = host }

unfoldable pub set_port : ℕ → Config → Config
set_port port c = record c { port = port }

abbrev pub to_node : ℕ → Str → Str → ℕ → NodeInfo
to_node id name host port = record { id = id; name = name; host = host; port = port }

unfoldable pub add_raft_node : ℕ → Str → Str → ℕ → Config → Config
unfolding emplace
add_raft_node id name host port c = record c {
  raft_nodes = emplace ℕ_discrete id (to_node id name host port) c.raft_nodes;
}

unfoldable pub add_data_node : ℕ → Str → Str → ℕ → Config → Config
add_data_node id name host port c = record c {
  data_nodes = c.data_nodes ++ to_node id name host port ∷ [];
}

abbrev pub HasPort : NodeInfo → Type 0
HasPort node = node.port < 2 ^ 16

-- The configurations that a builder can hold; a port is a `uint16_t`.
pub data Builds : Config → Type 0 where
  options : Builds default_config
  data_dir_set : (s : Str) (c : Config) → Builds c → Builds (set_data_dir s c)
  cluster_id_set : (n : ℕ) (c : Config) → Builds c → Builds (set_cluster_id n c)
  member_id_set : (n : ℕ) (c : Config) → Builds c → Builds (set_member_id n c)
  name_set : (s : Str) (c : Config) → Builds c → Builds (set_name s c)
  host_set : (s : Str) (c : Config) → Builds c → Builds (set_host s c)
  port_set : (n : ℕ) (c : Config) → n < 2 ^ 16 → Builds c → Builds (set_port n c)
  raft_node :
      (id : ℕ) (name host : Str) (n : ℕ) (c : Config)
      → n < 2 ^ 16
      → Builds c
      → Builds (add_raft_node id name host n c)
  data_node :
      (id : ℕ) (name host : Str) (n : ℕ) (c : Config)
      → n < 2 ^ 16
      → Builds c
      → Builds (add_data_node id name host n c)

-- A node of the cluster is kept under its own number.
abbrev pub IsKept : ℕ × NodeInfo → Type 0
IsKept e = (e.0 ≡ e.1.id) × HasPort e.1

abbrev pub AreKept : Map ℕ NodeInfo → Type 0
AreKept = All IsKept

abbrev pub IsValid : Config → Type 0
IsValid c = (c.port < 2 ^ 16) × AreKept c.raft_nodes × All HasPort c.data_nodes

-- Every configuration that is built is valid.
pub Builds-IsValid : (c : Config) → Builds c → IsValid c
unfolding set_data_dir set_cluster_id set_member_id set_name set_host set_port add_raft_node
    add_data_node
Builds-IsValid c Builds.options = (omega arith, tt, tt)
Builds-IsValid c (Builds.data_dir_set s d b) = Builds-IsValid d b
Builds-IsValid c (Builds.cluster_id_set n d b) = Builds-IsValid d b
Builds-IsValid c (Builds.member_id_set n d b) = Builds-IsValid d b
Builds-IsValid c (Builds.name_set s d b) = Builds-IsValid d b
Builds-IsValid c (Builds.host_set s d b) = Builds-IsValid d b
Builds-IsValid c (Builds.port_set n d small b) =
    let (port, raft, data_nodes) = Builds-IsValid d b in (small, raft, data_nodes)
Builds-IsValid c (Builds.raft_node id name host n d small b) =
    let (port, raft, data_nodes) = Builds-IsValid d b in
    (
      port,
      All-emplace ℕ_discrete IsKept id (to_node id name host n) d.raft_nodes (refl, small) raft,
      data_nodes,
    )
Builds-IsValid c (Builds.data_node id name host n d small b) =
    let (port, raft, data_nodes) = Builds-IsValid d b in
    (
      port,
      raft,
      All-append HasPort d.data_nodes (to_node id name host n ∷ []) data_nodes (small, tt),
    )
