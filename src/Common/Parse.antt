-- ===== src/Common/Parse.antt =====
-- `std::stoull`, `std::stoll` and `std::stoi` in base ten. No result is the exception.
use Prim.Native.Nat.{ℕ, zero, suc, ◌+◌, ◌-◌, ◌*◌, ◌/◌, ◌%◌, ◌^◌, ◌<◌}
use mathlib.Core.Path.{◌≡◌, refl}
use mathlib.Core.Bool.{Bool, true, false, ◌&&◌, ◌||◌}
use mathlib.Core.Logic.{inl, inr}
use mathlib.Core.Option.{Option, none, some}
use mathlib.Core.List.{[], ◌∷◌, ◌++◌}
use native.Mathlib.Omega.{arith}
use vosfs.Common.Tests.{ltb, leb, ◌==◌, if◌then◌else◌, Bool-cases, ◌>>=◌}
use vosfs.Common.Words.{u64_mod}
use vosfs.Common.Lists.{All, All-append}
use vosfs.Common.Text.{Str}
use vosfs.Common.Int.{ℤ, pos, negsuc}
use vosfs.Common.Decimal.{to_string, digits, digit, value, to_string-value}

-- `std::isspace` and `std::isdigit` in the C locale
abbrev is_space : ℕ → Bool
is_space c = c == 32 || leb 9 c && leb c 13

abbrev is_digit : ℕ → Bool
is_digit c = leb b'0' c && leb c b'9'

-- The text behind its leading spaces.
strip : Str → Str
strip [] = []
strip (c ∷ s) = if is_space c then strip s else c ∷ s

-- The number that the leading digits stand for.
number : ℕ → Str → ℕ
number acc [] = acc
number acc (c ∷ s) = if is_digit c then number (acc * 10 + (c - b'0')) s else acc

-- The number of a text that starts with a digit.
magnitude : Str → Option ℕ
unfolding number
magnitude [] = none
magnitude (c ∷ s) = if is_digit c then some (number 0 (c ∷ s)) else none

-- The sign, true for minus, and the number behind it.
signed : Str → Option (Bool × ℕ)
unfolding magnitude
signed [] = none
signed (c ∷ s) =
    if c == b'-'
    then (magnitude s >>= λ n. some (true, n))
    else if c == b'+'
    then (magnitude s >>= λ n. some (false, n))
    else (magnitude (c ∷ s) >>= λ n. some (false, n))

-- `std::stoull(s)`
unfoldable pub stoull : Str → Option ℕ
unfolding signed strip
stoull s = do
  (minus, n) ← signed (strip s)
  (if leb u64_mod n then none else if minus then some ((u64_mod - n) % u64_mod) else some n)

abbrev to_int : ℕ → Bool → ℕ → Option ℤ
to_int limit false n = if leb limit n then none else some (pos n)
to_int limit true zero = some (pos 0)
to_int limit true (suc n) = if leb limit n then none else some (negsuc n)

-- `std::stoll(s)`
unfoldable pub stoll : Str → Option ℤ
unfolding signed strip
stoll s = do (minus, n) ← signed (strip s); to_int (2 ^ 63) minus n

-- `std::stoi(s)`
unfoldable pub stoi : Str → Option ℤ
unfolding signed strip
stoi s = do (minus, n) ← signed (strip s); to_int (2 ^ 31) minus n

abbrev IsDigit : ℕ → Type 0
IsDigit c = is_digit c ≡ true

digits-IsDigit : (f n : ℕ) → All IsDigit (digits f n)
unfolding digits
digits-IsDigit zero n = tt
digits-IsDigit (suc f) n = elim (Bool-cases (ltb n 10)) [
  | inl small ↦ rw small (ground arith)
  | inr large ↦ rw large (
      All-append IsDigit (digits f (n / 10)) (digit (n % 10) ∷ []) (digits-IsDigit f (n / 10))
        (ground arith))
]

number-value : (acc : ℕ) (s : Str) → All IsDigit s → number acc s ≡ value acc s
unfolding number value
number-value acc [] h = refl
number-value acc (c ∷ s) h = ground (arith, number-value (acc * 10 + (c - b'0')) s h.1)

-- Digits are read back as the number that they stand for.
signed-digits : (s : Str) → ¬ (s ≡ []) → All IsDigit s → signed (strip s) ≡ some (false, value 0 s)
unfolding signed strip magnitude
signed-digits [] ne h = absurd (ne refl)
signed-digits (c ∷ s) ne h = ground (arith, number-value 0 (c ∷ s) h)

append-ne-nil : (s : Str) (c : ℕ) → ¬ (s ++ c ∷ [] ≡ [])
append-ne-nil [] c e = cc
append-ne-nil (b ∷ s) c e = cc

to_string-ne-nil : (n : ℕ) → ¬ (to_string n ≡ [])
unfolding to_string digits
to_string-ne-nil n e = elim (Bool-cases (ltb n 10)) [
  | inl small ↦ ground arith
  | inr large ↦ append-ne-nil (digits n (n / 10)) (digit (n % 10)) (ground arith)
]

to_string-IsDigit : (n : ℕ) → All IsDigit (to_string n)
unfolding to_string
to_string-IsDigit n = digits-IsDigit (suc n) n

-- What `std::to_string` prints of a `uint64_t` is read back by `std::stoull`.
pub stoull-to_string : (n : ℕ) → n < u64_mod → stoull (to_string n) ≡ some n
unfolding stoull
stoull-to_string n h = ground (
  arith,
  signed-digits (to_string n) (to_string-ne-nil n) (to_string-IsDigit n),
  to_string-value n,
)

-- There is no number in an empty text.
pub stoull-empty : stoull [] ≡ none
unfolding stoull signed strip
stoull-empty = refl

-- What is printed of a natural number below the bound is read back as that number.
pub stoll-to_string : (n : ℕ) → n < 2 ^ 63 → stoll (to_string n) ≡ some (pos n)
unfolding stoll
stoll-to_string n h = ground (
  arith,
  signed-digits (to_string n) (to_string-ne-nil n) (to_string-IsDigit n),
  to_string-value n,
)

pub stoi-to_string : (n : ℕ) → n < 2 ^ 31 → stoi (to_string n) ≡ some (pos n)
unfolding stoi
stoi-to_string n h = ground (
  arith,
  signed-digits (to_string n) (to_string-ne-nil n) (to_string-IsDigit n),
  to_string-value n,
)
