-- ===== src/Config/RaftLoading.antt =====
-- A configuration of a node that is built and written is read again.
use mathlib.Core.List.{append_assoc, append-nil}
use vosfs.Common.{ℕ, ◌≡◌, refl, sym, ap, ◌∷◌, [], ◌++◌, List, some, Str, arith, All, ℕ_discrete}
use vosfs.Common.Map.{Map, find, emplace, values}
use vosfs.Common.Result.{ok}
use vosfs.Common.Reading.{Agrees-equal, Loaded, Loaded-nil, Loaded-cons}
use vosfs.Json.{Json, JsonLaws, Key}
use vosfs.StateMachine.Defs.{NodeInfo}
use vosfs.Config.Files.{
  Files, Keeps, pushed, get_number_lem, get_port_lem, get_text_lem, get_array_lem,
}
use vosfs.Config.Raft.{
  Config, node_json, nodes_json, config_json, read_node, read_raft_nodes, read_data_nodes,
  read_config, from_json, to_json,
}
use vosfs.Config.RaftBuilder.{Builds, Builds-IsValid, IsValid, AreKept, HasPort}

module _ {J : Type 0} (json : Json J) (laws : JsonLaws json) where
  read_node-node_json :
      (node : NodeInfo) → HasPort node → read_node json (node_json json node) ≡ some node
  unfolding read_node node_json
  read_node-node_json node small =
      let fields : List (Key × J) =
        (Key.id, json.number node.id)
        ∷ (Key.name, json.text node.name)
        ∷ (Key.host, json.text node.host)
        ∷ (Key.port, json.number node.port)
        ∷ [] in
      ground (
        arith,
        get_number_lem json laws Key.id fields node.id refl,
        get_text_lem json laws Key.name fields node.name refl,
        get_text_lem json laws Key.host fields node.host refl,
        get_port_lem json laws Key.port fields node.port refl small,
      )

  read_raft_nodes-nodes_json :
      (saved had : Map ℕ NodeInfo)
      → AreKept saved
      → (m : Map ℕ NodeInfo) × (read_raft_nodes json (nodes_json json (values saved)) had ≡ some m)
        × Loaded ◌≡◌ had saved m
  unfolding read_raft_nodes nodes_json
  read_raft_nodes-nodes_json [] had h = (had, refl, Loaded-nil ◌≡◌ had)
  read_raft_nodes-nodes_json ((id, node) ∷ saved) had ((key, small), h) =
      let read = read_node-node_json node small in
      let (m, rest, loaded) = read_raft_nodes-nodes_json saved (emplace ℕ_discrete id node had) h in
      (m, ground (arith, read, key, rest), Loaded-cons ◌≡◌ id node node had saved m refl loaded)

  read_data_nodes-nodes_json :
      (saved had : List NodeInfo)
      → All HasPort saved
      → read_data_nodes json (nodes_json json saved) had ≡ some (had ++ saved)
  unfolding read_data_nodes nodes_json
  read_data_nodes-nodes_json [] had h = ap some (sym (append-nil had))
  read_data_nodes-nodes_json (node ∷ saved) had (small, h) = ground (
    arith,
    read_node-node_json node small,
    read_data_nodes-nodes_json saved (had ++ node ∷ []) h,
    append_assoc had (node ∷ []) saved,
  )

  read_config-config_json :
      (c : Config)
      → IsValid c
      → (m : Map ℕ NodeInfo) × (read_config json (config_json json c)
          ≡ some (record c { raft_nodes = m }))
        × Loaded ◌≡◌ [] c.raft_nodes m
  unfolding read_config config_json
  read_config-config_json c (small, raft, ports) =
      let (m, read, loaded) = read_raft_nodes-nodes_json c.raft_nodes [] raft in
      let rs = nodes_json json (values c.raft_nodes) in
      let ds = nodes_json json c.data_nodes in
      let fields : List (Key × J) =
        (Key.data_dir, json.text c.data_dir)
        ∷ (Key.cluster_id, json.number c.cluster_id)
        ∷ (Key.member_id, json.number c.member_id)
        ∷ (Key.name, json.text c.name)
        ∷ (Key.host, json.text c.host)
        ∷ (Key.port, json.number c.port)
        ∷ (Key.raft_nodes, pushed json rs)
        ∷ (Key.data_nodes, pushed json ds)
        ∷ [] in
      (
        m,
        ground (
          arith,
          get_text_lem json laws Key.data_dir fields c.data_dir refl,
          get_number_lem json laws Key.cluster_id fields c.cluster_id refl,
          get_number_lem json laws Key.member_id fields c.member_id refl,
          get_text_lem json laws Key.name fields c.name refl,
          get_text_lem json laws Key.host fields c.host refl,
          get_port_lem json laws Key.port fields c.port refl small,
          get_array_lem json laws Key.raft_nodes fields rs refl,
          get_array_lem json laws Key.data_nodes fields ds refl,
          read,
          read_data_nodes-nodes_json c.data_nodes [] ports,
        ),
        loaded,
      )

  -- A configuration of a node that the builder built and that is written to a file, which then opens
  -- with what was written, is read again with every value the same: the nodes of the cluster are found
  -- under the same numbers, and no others.
  pub from_json-to_json :
      {FS : Type 0} (files : Files FS) (c : Config) (fs : FS) (path : Str)
      → Builds c
      → Keeps files
      → (m : Map ℕ NodeInfo) × (from_json json files (to_json json files c fs path) path
          ≡ some (ok (record c { raft_nodes = m })))
        × ((k : ℕ) → find ℕ_discrete k m ≡ find ℕ_discrete k c.raft_nodes)
  unfolding from_json to_json find
  from_json-to_json files c fs path built keeps =
      let (m, read, loaded) = read_config-config_json c (Builds-IsValid c built) in
      (
        m,
        ground (
          arith,
          keeps fs path (json.dump (config_json json c)),
          read,
          laws.parse_lem (config_json json c),
        ),
        λ k. Agrees-equal (find ℕ_discrete k c.raft_nodes) (find ℕ_discrete k m) (loaded k),
      )
