-- ===== src/Config/Files.antt =====
-- The files of a configuration as a parameter.
use vosfs.Common.{ℕ, ◌≡◌, ◌<◌, ◌^◌, Bool, Option, some, Str, arith, List, [], ◌∷◌}
use vosfs.Json.{Json, JsonLaws, Key, lookup, get_number, get_port, get_text, get_array}

pub record Files (FS : Type 0) : Type 0 where
  -- `std::filesystem::exists(path)`
  pub exists : FS → Str → Bool
  -- the text that `std::ifstream f(path)` reads, or no result if `f.is_open()` is false
  pub read_file : FS → Str → Option Str
  -- `std::ofstream f(path); f << text`
  pub save : FS → Str → Str → FS

-- A file that was saved opens, with the text.
abbrev pub Keeps : {FS : Type 0} → Files FS → Type 0
Keeps {FS = FS} files =
    (fs : FS) (path text : Str) → files.read_file (files.save fs path text) path ≡ some text

-- A `nlohmann::json` that values were pushed to: it becomes an array with the first.
abbrev pub pushed : {J : Type 0} → Json J → List J → J
pushed json [] = json.null
pushed json (j ∷ js) = json.array (j ∷ js)

-- A field that was assigned is read back.
module _ {J : Type 0} (json : Json J) (laws : JsonLaws json) (k : Key)
    (fields : List (Key × J)) where
  pub get_number_lem :
      (n : ℕ)
      → lookup k fields ≡ some (json.number n)
      → get_number json k (json.object fields) ≡ some n
  get_number_lem n e = ground (arith, laws.field_lem k fields (json.number n) e, laws.number_lem n)

  pub get_port_lem :
      (n : ℕ)
      → lookup k fields ≡ some (json.number n)
      → n < 2 ^ 16
      → get_port json k (json.object fields) ≡ some n
  get_port_lem n e small = ground (arith, get_number_lem n e)

  pub get_text_lem :
      (s : Str)
      → lookup k fields ≡ some (json.text s)
      → get_text json k (json.object fields) ≡ some s
  get_text_lem s e = ground (arith, laws.field_lem k fields (json.text s) e, laws.text_lem s)

  pub get_array_lem :
      (js : List J)
      → lookup k fields ≡ some (pushed json js)
      → get_array json k (json.object fields) ≡ some js
  get_array_lem [] e = ground (arith, laws.field_lem k fields json.null e, laws.null_lem)
  get_array_lem (j ∷ js) e =
      ground (arith, laws.field_lem k fields (json.array (j ∷ js)) e, laws.array_lem (j ∷ js))
