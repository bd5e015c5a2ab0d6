-- ===== src/Json.antt =====
-- nlohmann::json as a parameter: what the client and the configurations use of it.
pub mod Samples
use vosfs.Common.{
  ℕ, ◌≡◌, [], ◌∷◌, List, Bool, Option, none, some, Str, if◌then◌else◌, ◌==◌, ℕ_discrete, ◌>>=◌, ◌%◌,
  ◌^◌,
}
use vosfs.Common.Map.{Map, find}

-- The names of the fields that are written and read.
pub data Key : Type 0 where
  upload_tasks download_tasks : Key
  ino total_blocks done_blocks local_path remote_path blocks : Key
  remaing_times id offset size data_node_ids : Key
  auth_host auth_port raft_nodes data_nodes : Key
  data_dir cluster_id member_id name host port block_dir : Key

abbrev pub code : Key → ℕ
code Key.upload_tasks = 0
code Key.download_tasks = 1
code Key.ino = 2
code Key.total_blocks = 3
code Key.done_blocks = 4
code Key.local_path = 5
code Key.remote_path = 6
code Key.blocks = 7
code Key.remaing_times = 8
code Key.id = 9
code Key.offset = 10
code Key.size = 11
code Key.data_node_ids = 12
code Key.auth_host = 13
code Key.auth_port = 14
code Key.raft_nodes = 15
code Key.data_nodes = 16
code Key.data_dir = 17
code Key.cluster_id = 18
code Key.member_id = 19
code Key.name = 20
code Key.host = 21
code Key.port = 22
code Key.block_dir = 23

-- The field of a name.
abbrev pub lookup : {J : Type 0} → Key → List (Key × J) → Option J
lookup k [] = none
lookup k ((j, v) ∷ fields) = if code j == code k then some v else lookup k fields

-- Values are built by assignment, and read by `operator[]`, `get` and iteration, where a field that is
-- missing is null; no result is the exception.
pub record Json (J : Type 0) : Type 0 where
  -- the value of a `nlohmann::json` that nothing was assigned to
  pub null : J
  pub number : ℕ → J
  pub text : Str → J
  pub array : List J → J
  pub object : List (Key × J) → J
  -- from and to `std::unordered_map<uint64_t, bool>`
  pub flags : Map ℕ Bool → J
  pub field : Key → J → Option J
  pub as_number : J → Option ℕ
  pub as_text : J → Option Str
  pub as_array : J → Option (List J)
  pub as_flags : J → Option (Map ℕ Bool)
  pub dump : J → Str
  pub parse : Str → Option J

-- What is documented of them: a value is read as what it was built from, a map up to its order.
pub record JsonLaws {J : Type 0} (json : Json J) : Type 0 where
  pub null_lem : json.as_array json.null ≡ some []
  pub number_lem : (n : ℕ) → json.as_number (json.number n) ≡ some n
  pub text_lem : (s : Str) → json.as_text (json.text s) ≡ some s
  pub array_lem : (js : List J) → json.as_array (json.array js) ≡ some js
  pub field_lem :
      (k : Key) (fields : List (Key × J)) (v : J)
      → lookup k fields ≡ some v
      → json.field k (json.object fields) ≡ some v
  pub flags_lem :
      (m : Map ℕ Bool)
      → (m' : Map ℕ Bool) × (json.as_flags (json.flags m) ≡ some m')
        × ((k : ℕ) → find ℕ_discrete k m' ≡ find ℕ_discrete k m)
  pub parse_lem : (j : J) → json.parse (json.dump j) ≡ some j

module _ {J : Type 0} (json : Json J) where
  -- `json[key].get<uint64_t>()` and its relatives
  abbrev pub get_number : Key → J → Option ℕ
  get_number key j = json.field key j >>= json.as_number

  -- `get<uint16_t>()` keeps the low bits.
  abbrev pub get_port : Key → J → Option ℕ
  get_port key j = get_number key j >>= λ n. some (n % 2 ^ 16)

  abbrev pub get_text : Key → J → Option Str
  get_text key j = json.field key j >>= json.as_text

  abbrev pub get_array : Key → J → Option (List J)
  get_array key j = json.field key j >>= json.as_array
