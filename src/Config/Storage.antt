-- ===== src/Config/Storage.antt =====
-- `Config` and `ConfigBuilder` of include/vosfs/storage/config.hpp. No result is an exception.
use vosfs.Common.{
  ℕ, ◌≡◌, refl, ◌<◌, ◌^◌, ◌∷◌, [], List, Option, none, some, Str, utf8, arith, ◌>>=◌,
}
use vosfs.Common.Result.{Result, ok, err, file_open_failed}
use vosfs.Json.{Json, JsonLaws, Key, get_port, get_text}
use vosfs.Config.Files.{Files, Keeps, get_port_lem, get_text_lem}

pub record Config : Type 0 where
  pub host : Str
  pub port : ℕ
  pub block_dir : Str

abbrev pub default_config : Config
default_config = record { host = utf8 "0.0.0.0"; port = 7070; block_dir = utf8 "vosfs_blocks" }

-- The builder is the configuration that it holds.
unfoldable pub set_host : Str → Config → Config
set_host host c = record c { host = host }

unfoldable pub set_port : ℕ → Config → Config
set_port port c = record c { port = port }

unfoldable pub set_block_dir : Str → Config → Config
set_block_dir block_dir c = record c { block_dir = block_dir }

module _ {J : Type 0} (json : Json J) where
  unfoldable pub config_json : Config → J
  config_json c = json.object (
      (Key.host, json.text c.host)
      ∷ (Key.port, json.number c.port)
      ∷ (Key.block_dir, json.text c.block_dir)
      ∷ [])

  unfoldable pub read_config : J → Option Config
  read_config j = do
    host ← get_text json Key.host j
    port ← get_port json Key.port j
    block_dir ← get_text json Key.block_dir j
    some (record { host = host; port = port; block_dir = block_dir })

  module _ {FS : Type 0} (files : Files FS) where
    -- `Config::from_json`
    unfoldable pub from_json : FS → Str → Option (Result Config)
    unfolding read_config
    from_json fs path = elim (files.read_file fs path) [
      | none ↦ some (err file_open_failed)
      | some text ↦ (json.parse text >>= λ j. read_config j >>= λ c. some (ok c))
    ]

    -- `Config::to_json`
    unfoldable pub to_json : Config → FS → Str → FS
    unfolding config_json
    to_json c fs path = files.save fs path (json.dump (config_json c))

-- A configuration of a storage node with a 16-bit port that is written to a file, which then opens with
-- what was written, is read again as it was.
pub from_json-to_json_storage :
    {J FS : Type 0} (json : Json J) (laws : JsonLaws json) (files : Files FS) (c : Config) (fs : FS)
    (path : Str)
    → c.port < 2 ^ 16
    → Keeps files
    → from_json json files (to_json json files c fs path) path ≡ some (ok c)
unfolding from_json to_json read_config config_json
from_json-to_json_storage {J = J} json laws files c fs path small keeps =
    let fields : List (Key × J) =
      (Key.host, json.text c.host)
      ∷ (Key.port, json.number c.port)
      ∷ (Key.block_dir, json.text c.block_dir)
      ∷ [] in
    ground (
      arith,
      keeps fs path (json.dump (json.object fields)),
      laws.parse_lem (json.object fields),
      get_text_lem json laws Key.host fields c.host refl,
      get_port_lem json laws Key.port fields c.port refl small,
      get_text_lem json laws Key.block_dir fields c.block_dir refl,
    )
