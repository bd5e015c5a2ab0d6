-- ===== src/Common/Decimal.antt =====
-- `std::to_string` of an unsigned number: its decimal digits.
use Prim.Native.Nat.{ℕ, zero, suc, ◌+◌, ◌-◌, ◌*◌, ◌/◌, ◌%◌, ◌<◌}
use mathlib.Core.Path.{◌≡◌, refl, sym, ap, ◌∙◌}
use mathlib.Core.Logic.{inl, inr}
use mathlib.Core.List.{[], ◌∷◌, ◌++◌}
use native.Mathlib.Omega.{arith}
use vosfs.Common.Tests.{ltb, if◌then◌else◌, Bool-cases}
use mathlib.Core.Bool.{false}
use vosfs.Common.Text.{Str, contains_char, contains_char-append}

abbrev pub digit : ℕ → ℕ
digit d = b'0' + d

-- The fuel `n + 1` is enough, since each step divides by ten.
unfoldable pub digits : ℕ → ℕ → Str
digits zero n = []
digits (suc f) n =
    let rest = digits f (n / 10) in if ltb n 10 then digit n ∷ [] else rest ++ digit (n % 10) ∷ []

unfoldable pub to_string : ℕ → Str
unfolding digits
to_string n = digits (suc n) n

-- The number that digits stand for.
unfoldable pub value : ℕ → Str → ℕ
value acc [] = acc
value acc (c ∷ s) = value (acc * 10 + (c - b'0')) s

value-append : (acc c : ℕ) (s : Str) → value acc (s ++ c ∷ []) ≡ value acc s * 10 + (c - b'0')
unfolding value
value-append acc c [] = refl
value-append acc c (b ∷ s) = value-append (acc * 10 + (b - b'0')) c s

value-digits : (f n : ℕ) → n < f → value 0 (digits f n) ≡ n
unfolding digits value
value-digits zero n h = absurd (omega arith)
value-digits (suc f) n h = elim (Bool-cases (ltb n 10)) [
  | inl small ↦ rw small (omega arith)
  | inr large ↦ rw large (
      value-append 0 (digit (n % 10)) (digits f (n / 10)) ∙ ground (arith, value-digits f (n / 10)))
]

pub to_string-value : (n : ℕ) → value 0 (to_string n) ≡ n
unfolding to_string
to_string-value n = value-digits (suc n) n (omega arith)

-- Different numbers have different digits.
pub to_string-injective : (m n : ℕ) → to_string m ≡ to_string n → m ≡ n
unfolding to_string
to_string-injective m n e =
    sym (value-digits (suc m) m (omega arith))
    ∙ ap (value 0) e
    ∙ value-digits (suc n) n (omega arith)

-- `-` is no digit.
digits-dash : (f n : ℕ) → contains_char b'-' (digits f n) ≡ false
unfolding digits contains_char
digits-dash zero n = refl
digits-dash (suc f) n = elim (Bool-cases (ltb n 10)) [
  | inl small ↦ rw small (ground arith)
  | inr large ↦ rw large (
      contains_char-append b'-' (digits f (n / 10)) (digit (n % 10) ∷ [])
      ∙ ground (arith, digits-dash f (n / 10)))
]

pub to_string-dash : (n : ℕ) → contains_char b'-' (to_string n) ≡ false
unfolding to_string
to_string-dash n = digits-dash (suc n) n
