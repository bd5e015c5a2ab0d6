-- ===== src/Json/Samples.antt =====
-- JSON values as sequences of marked numbers: a value that the client can build and read.
use vosfs.Common.{
  ℕ, zero, suc, ◌≡◌, refl, ap, ◌∙◌, ◌∷◌, [], List, Bool, true, false, Option, none, some, Str,
  if◌then◌else◌, ◌==◌,
}
use vosfs.Common.Map.{Map}
use vosfs.Json.{Json, JsonLaws, Key, code, lookup}

-- A text ends with 0, and every character of it stands behind 1.
abbrev mark : Str → Str → Str
mark [] rest = 0 ∷ rest
mark (c ∷ s) rest = 1 ∷ c ∷ mark s rest

abbrev pack : List Str → Str
pack [] = []
pack (s ∷ ss) = mark s (pack ss)

abbrev push : ℕ → List Str → List Str
push c [] = []
push c (s ∷ ss) = (c ∷ s) ∷ ss

abbrev unpack : Str → List Str
unpack [] = []
unpack (zero ∷ rest) = [] ∷ unpack rest
unpack (suc n ∷ []) = []
unpack (suc n ∷ c ∷ rest) = push c (unpack rest)

unpack-mark : (s rest : Str) → unpack (mark s rest) ≡ s ∷ unpack rest
unpack-mark [] rest = refl
unpack-mark (c ∷ s) rest = ap (push c) (unpack-mark s rest)

unpack-pack : (ss : List Str) → unpack (pack ss) ≡ ss
unpack-pack [] = refl
unpack-pack (s ∷ ss) = unpack-mark s (pack ss) ∙ ap (λ r. s ∷ r) (unpack-pack ss)

abbrev numbers : List (Key × Str) → List Str
numbers [] = []
numbers ((k, v) ∷ fields) = (code k ∷ v) ∷ numbers fields

abbrev look : ℕ → List Str → Option Str
look k [] = none
look k ([] ∷ fields) = look k fields
look k ((j ∷ v) ∷ fields) = if j == k then some v else look k fields

look-numbers :
    (k : Key) (fields : List (Key × Str)) → look (code k) (numbers fields) ≡ lookup k fields
look-numbers k [] = refl
look-numbers k ((j, v) ∷ fields) =
    ap (λ r. if code j == code k then some v else r) (look-numbers k fields)

abbrev bit : Bool → ℕ
bit true = 1
bit false = 0

abbrev pairs : Map ℕ Bool → Str
pairs [] = []
pairs ((k, b) ∷ m) = k ∷ bit b ∷ pairs m

abbrev unpairs : Str → Map ℕ Bool
unpairs [] = []
unpairs (k ∷ []) = []
unpairs (k ∷ b ∷ s) = (k, b == 1) ∷ unpairs s

bit_lem : (b : Bool) → (bit b == 1) ≡ b
bit_lem true = refl
bit_lem false = refl

unpairs-pairs : (m : Map ℕ Bool) → unpairs (pairs m) ≡ m
unpairs-pairs [] = refl
unpairs-pairs ((k, b) ∷ m) =
    ap (λ x. (k, x) ∷ unpairs (pairs m)) (bit_lem b) ∙ ap (λ r. (k, b) ∷ r) (unpairs-pairs m)

abbrev head : Str → Option ℕ
head [] = none
head (n ∷ s) = some n

abbrev pub json : Json Str
json = record {
  null = [];
  number = λ n. n ∷ [];
  text = λ s. s;
  array = pack;
  object = λ fields. pack (numbers fields);
  flags = pairs;
  field = λ k j. look (code k) (unpack j);
  as_number = head;
  as_text = some;
  as_array = λ j. some (unpack j);
  as_flags = λ j. some (unpairs j);
  dump = λ j. j;
  parse = some;
}

pub json_laws : JsonLaws json
json_laws = record {
  null_lem = refl;
  number_lem = λ n. refl;
  text_lem = λ s. refl;
  array_lem = λ js. ap some (unpack-pack js);
  field_lem =
      λ k fields v e. ap (look (code k)) (unpack-pack (numbers fields)) ∙ look-numbers k fields ∙ e;
  flags_lem = λ m. (m, ap some (unpairs-pairs m), λ k. refl);
  parse_lem = λ j. refl;
}
