-- ===== src/Common/Text.antt =====
-- `std::string` as its bytes, and the operations on it that the program calls.
use Prim.Native.Nat.{ℕ, zero, suc, ◌+◌, ◌/◌, ◌%◌}
use Prim.Native.Char.{code}
use Prim.Native.String.{String}
use mathlib.Core.Path.{◌≡◌, refl, ap₂}
use mathlib.Core.Bool.{Bool, true, false, ◌||◌}
use mathlib.Core.Option.{Option, none, some}
use native.Mathlib.Omega.{arith}
use vosfs.Common.Lists.{take, drop}
use mathlib.Core.List.{List, [], ◌∷◌, ◌++◌}
unfoldable use native.Mathlib.Decide.{ℕ_discrete}
use vosfs.Common.Tests.{ltb, ◌==◌, if◌then◌else◌}

abbrev pub Str : Type 0
Str = List ℕ

-- The bytes of a code point in UTF-8.
abbrev pub utf8_char : ℕ → Str
utf8_char c =
    if ltb c 0x80
    then c ∷ []
    else if ltb c 0x800
    then (0xc0 + c / 64) ∷ (0x80 + c % 64) ∷ []
    else if ltb c 0x10000
    then (0xe0 + c / 4096) ∷ (0x80 + c / 64 % 64) ∷ (0x80 + c % 64) ∷ []
    else (0xf0 + c / 262144) ∷ (0x80 + c / 4096 % 64) ∷ (0x80 + c / 64 % 64) ∷ (0x80 + c % 64) ∷ []

-- The bytes of a text literal.
unfoldable pub utf8 : String → Str
utf8 String.[] = []
utf8 (String.◌∷◌ c s) = utf8_char (code c) ++ utf8 s

-- `s.empty()`
abbrev pub empty : Str → Bool
empty [] = true
empty (c ∷ s) = false

-- `s.contains(c)`
unfoldable pub contains_char : ℕ → Str → Bool
contains_char c [] = false
contains_char c (b ∷ s) = b == c || contains_char c s

nil-ne-cons : (c : ℕ) (s : Str) → ¬ ([] ≡ c ∷ s)
nil-ne-cons c s e = cc

cons-ne-nil : (c : ℕ) (s : Str) → ¬ (c ∷ s ≡ [])
cons-ne-nil c s e = cc

head_ne : (b c : ℕ) (s t : Str) → ¬ (b ≡ c) → ¬ (b ∷ s ≡ c ∷ t)
head_ne b c s t h e = h (cc)

tail_ne : (b c : ℕ) (s t : Str) → ¬ (s ≡ t) → ¬ (b ∷ s ≡ c ∷ t)
tail_ne b c s t h e = h (cc)

-- `s == t`
unfoldable pub str_discrete : Discrete Str
unfolding ℕ_discrete nil-ne-cons cons-ne-nil head_ne tail_ne
str_discrete [] [] = yes refl
str_discrete [] (c ∷ t) = no (nil-ne-cons c t)
str_discrete (b ∷ s) [] = no (cons-ne-nil b s)
str_discrete (b ∷ s) (c ∷ t) =
    let rest = str_discrete s t in
    elim (ℕ_discrete b c) [
      | no h ↦ no (head_ne b c s t h)
      | yes p ↦ elim rest [ yes q ↦ yes (ap₂ ◌∷◌ p q) | no h ↦ no (tail_ne b c s t h) ]
    ]

-- `s.find_last_of(c)`, and `npos` as `none`
unfoldable pub find_last_of : ℕ → Str → Option ℕ
find_last_of c [] = none
find_last_of c (b ∷ s) = elim (find_last_of c s) [
  | some i ↦ some (suc i)
  | none ↦ if b == c then some 0 else none
]

find_last_of-none : (c : ℕ) (s : Str) → find_last_of c s ≡ none → contains_char c s ≡ false
unfolding find_last_of contains_char
find_last_of-none c [] h = refl
find_last_of-none c (b ∷ s) h = ground (arith, find_last_of-none c s)

-- What stands behind the last `c` holds no `c`, and the text is put together again from the parts.
pub find_last_of-split :
    (c : ℕ) (s : Str) (i : ℕ)
    → find_last_of c s ≡ some i
    → (take i s ++ (c ∷ drop (suc i) s) ≡ s) × (contains_char c (drop (suc i) s) ≡ false)
unfolding find_last_of contains_char
find_last_of-split c [] i h = absurd (cc)
find_last_of-split c (b ∷ s) zero h = ground (arith, find_last_of-none c s)
find_last_of-split c (b ∷ s) (suc i) h = ground (arith, find_last_of-split c s i)

pub find_last_of-absent : (c : ℕ) (s : Str) → contains_char c s ≡ false → find_last_of c s ≡ none
unfolding find_last_of contains_char
find_last_of-absent c [] h = refl
find_last_of-absent c (b ∷ s) h = ground (arith, find_last_of-absent c s)

pub contains_char-append :
    (c : ℕ) (s t : Str) → contains_char c (s ++ t) ≡ (contains_char c s || contains_char c t)
unfolding contains_char
contains_char-append c [] t = refl
contains_char-append c (b ∷ s) t = ground (arith, contains_char-append c s t)

-- A text is cut at the first `c` in one way.
pub cut-injective :
    (c : ℕ) (s s' t t' : Str)
    → contains_char c s ≡ false
    → contains_char c s' ≡ false
    → s ++ c ∷ t ≡ s' ++ c ∷ t'
    → (s ≡ s') × (t ≡ t')
unfolding contains_char
cut-injective c [] [] t t' h h' e = ground arith
cut-injective c [] (b ∷ s') t t' h h' e = ground arith
cut-injective c (a ∷ s) [] t t' h h' e = ground arith
cut-injective c (a ∷ s) (b ∷ s') t t' h h' e = ground (arith, cut-injective c s s' t t')

-- What stands behind a text is determined by the whole.
pub append_cancel : (s t t' : Str) → s ++ t ≡ s ++ t' → t ≡ t'
append_cancel [] t t' e = e
append_cancel (b ∷ s) t t' e = append_cancel s t t' (cc)
