-- ===== src/Config/UiLoading.antt =====
-- A configuration of the client that is built and written is read again.
use vosfs.Common.{ℕ, ◌≡◌, refl, ◌<◌, ◌^◌, ◌∷◌, [], List, false, some, Str, arith, All, ℕ_discrete}
use vosfs.Common.Map.{Map, find, emplace, values, All-emplace}
use vosfs.Common.Result.{ok}
use vosfs.Common.Reading.{Agrees-equal, Loaded, Loaded-nil, Loaded-cons}
use vosfs.Json.{Json, JsonLaws, Key}
use vosfs.Config.Files.{
  Files, Keeps, pushed, get_number_lem, get_port_lem, get_text_lem, get_array_lem,
}
use vosfs.Config.Ui.{
  NodeInfo, Config, default_config, set_auth_host, set_auth_port, add_raft_node, add_data_node,
  node_json, nodes_json, config_json, read_node, read_nodes, read_config, from_json, to_json,
}

-- The configurations that a builder can hold; a port is a `uint16_t`.
pub data Builds : Config → Type 0 where
  options : Builds default_config
  auth_host_set : (s : Str) (c : Config) → Builds c → Builds (set_auth_host s c)
  auth_port_set : (n : ℕ) (c : Config) → n < 2 ^ 16 → Builds c → Builds (set_auth_port n c)
  raft_node :
      (id : ℕ) (host : Str) (n : ℕ) (c : Config)
      → n < 2 ^ 16
      → Builds c
      → Builds (add_raft_node id host n c)
  data_node :
      (id : ℕ) (host : Str) (n : ℕ) (c : Config)
      → n < 2 ^ 16
      → Builds c
      → Builds (add_data_node id host n c)

-- A node is kept under its own number, with a port of 16 bits.
abbrev pub IsKept : ℕ × NodeInfo → Type 0
IsKept e = (e.0 ≡ e.1.id) × (e.1.port < 2 ^ 16)

abbrev pub AreKept : Map ℕ NodeInfo → Type 0
AreKept = All IsKept

abbrev pub IsValid : Config → Type 0
IsValid c = (c.auth_port < 2 ^ 16) × AreKept c.raft_nodes × AreKept c.data_nodes

-- Every configuration that is built is valid.
pub Builds-IsValid : (c : Config) → Builds c → IsValid c
unfolding set_auth_host set_auth_port add_raft_node add_data_node
Builds-IsValid c Builds.options = (omega arith, tt, tt)
Builds-IsValid c (Builds.auth_host_set s d b) = Builds-IsValid d b
Builds-IsValid c (Builds.auth_port_set n d small b) =
    let (port, raft, data_nodes) = Builds-IsValid d b in (small, raft, data_nodes)
Builds-IsValid c (Builds.raft_node id host n d small b) =
    let (port, raft, data_nodes) = Builds-IsValid d b in
    (port, All-emplace ℕ_discrete IsKept id _ d.raft_nodes (refl, small) raft, data_nodes)
Builds-IsValid c (Builds.data_node id host n d small b) =
    let (port, raft, data_nodes) = Builds-IsValid d b in
    (port, raft, All-emplace ℕ_discrete IsKept id _ d.data_nodes (refl, small) data_nodes)

module _ {J : Type 0} (json : Json J) (laws : JsonLaws json) where
  read_node-node_json :
      (node : NodeInfo) → node.port < 2 ^ 16 → read_node json (node_json json node) ≡ some node
  unfolding read_node node_json
  read_node-node_json node small =
      let fields : List (Key × J) =
        (Key.id, json.number node.id)
        ∷ (Key.host, json.text node.host)
        ∷ (Key.port, json.number node.port)
        ∷ [] in
      ground (
        arith,
        get_number_lem json laws Key.id fields node.id refl,
        get_text_lem json laws Key.host fields node.host refl,
        get_port_lem json laws Key.port fields node.port refl small,
      )

  read_nodes-nodes_json :
      (saved had : Map ℕ NodeInfo)
      → AreKept saved
      → (m : Map ℕ NodeInfo) × (read_nodes json (nodes_json json (values saved)) had ≡ some m)
        × Loaded ◌≡◌ had saved m
  unfolding read_nodes nodes_json
  read_nodes-nodes_json [] had h = (had, refl, Loaded-nil ◌≡◌ had)
  read_nodes-nodes_json ((id, node) ∷ saved) had ((key, small), h) =
      let read = read_node-node_json node small in
      let (m, rest, loaded) = read_nodes-nodes_json saved (emplace ℕ_discrete id node had) h in
      (m, ground (arith, read, key, rest), Loaded-cons ◌≡◌ id node node had saved m refl loaded)

  read_config-config_json :
      (c : Config)
      → IsValid c
      → (rs ds : Map ℕ NodeInfo) × (read_config json (config_json json c)
          ≡ some (record c { raft_nodes = rs; data_nodes = ds }))
        × Loaded ◌≡◌ [] c.raft_nodes rs
        × Loaded ◌≡◌ [] c.data_nodes ds
  unfolding read_config config_json
  read_config-config_json c (small, raft, data_nodes) =
      let (rs, read_rs, loaded_rs) = read_nodes-nodes_json c.raft_nodes [] raft in
      let (ds, read_ds, loaded_ds) = read_nodes-nodes_json c.data_nodes [] data_nodes in
      let raft_json = nodes_json json (values c.raft_nodes) in
      let data_json = nodes_json json (values c.data_nodes) in
      let fields : List (Key × J) =
        (Key.auth_host, json.text c.auth_host)
        ∷ (Key.auth_port, json.number c.auth_port)
        ∷ (Key.raft_nodes, pushed json raft_json)
        ∷ (Key.data_nodes, pushed json data_json)
        ∷ [] in
      (
        rs,
        ds,
        ground (
          arith,
          get_text_lem json laws Key.auth_host fields c.auth_host refl,
          get_port_lem json laws Key.auth_port fields c.auth_port refl small,
          get_array_lem json laws Key.raft_nodes fields raft_json refl,
          get_array_lem json laws Key.data_nodes fields data_json refl,
          read_rs,
          read_ds,
        ),
        loaded_rs,
        loaded_ds,
      )

  -- A configuration of the client that the builder built and that is written to a path where no file
  -- was, which then opens with what was written, is read again with every value the same: the nodes of
  -- both kinds are found under the same numbers, and no others.
  pub from_json-to_json_client :
      {FS : Type 0} (files : Files FS) (c : Config) (fs : FS) (path : Str)
      → Builds c
      → files.exists fs path ≡ false
      → Keeps files
      → (rs ds : Map ℕ NodeInfo) × (from_json json files (to_json json files c fs path) path
          ≡ some (ok (record c { raft_nodes = rs; data_nodes = ds })))
        × ((k : ℕ) → find ℕ_discrete k rs ≡ find ℕ_discrete k c.raft_nodes)
        × ((k : ℕ) → find ℕ_discrete k ds ≡ find ℕ_discrete k c.data_nodes)
  unfolding from_json to_json find
  from_json-to_json_client files c fs path built missing keeps =
      let (rs, ds, read, loaded_rs, loaded_ds) =
        read_config-config_json c (Builds-IsValid c built) in
      (
        rs,
        ds,
        ground (
          arith,
          keeps fs path (json.dump (config_json json c)),
          read,
          laws.parse_lem (config_json json c),
        ),
        λ k. Agrees-equal (find ℕ_discrete k c.raft_nodes) (find ℕ_discrete k rs) (loaded_rs k),
        λ k. Agrees-equal (find ℕ_discrete k c.data_nodes) (find ℕ_discrete k ds) (loaded_ds k),
      )
