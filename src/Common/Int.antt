-- ===== src/Common/Int.antt =====
-- `int` and `int64_t` as integers, and `std::to_string` of them.
use Prim.Native.Nat.{ℕ, suc}
use mathlib.Core.List.{◌∷◌}
use mathlib.Core.Path.{◌≡◌, ap}
unfoldable use native.Mathlib.Decide.{ℕ_discrete}
unfoldable use vosfs.Common.Decimal.{to_string}
use vosfs.Common.Text.{Str}

-- `negsuc n` is -(n + 1).
pub data ℤ : Type 0 where
  pos : ℕ → ℤ
  negsuc : ℕ → ℤ

unfoldable pub int_to_string : ℤ → Str
unfolding to_string
int_to_string (pos n) = to_string n
int_to_string (negsuc n) = b'-' ∷ to_string (suc n)

pos-ne-negsuc : (m n : ℕ) → ¬ (pos m ≡ negsuc n)
pos-ne-negsuc m n e = cc

negsuc-ne-pos : (m n : ℕ) → ¬ (negsuc m ≡ pos n)
negsuc-ne-pos m n e = cc

pos_ne : (m n : ℕ) → ¬ (m ≡ n) → ¬ (pos m ≡ pos n)
pos_ne m n h e = h (cc)

negsuc_ne : (m n : ℕ) → ¬ (m ≡ n) → ¬ (negsuc m ≡ negsuc n)
negsuc_ne m n h e = h (cc)

-- `a == b`
unfoldable pub int_discrete : Discrete ℤ
unfolding ℕ_discrete pos-ne-negsuc negsuc-ne-pos pos_ne negsuc_ne
int_discrete (pos m) (pos n) = elim (ℕ_discrete m n) [
  | yes e ↦ yes (ap pos e)
  | no h ↦ no (pos_ne m n h)
]
int_discrete (pos m) (negsuc n) = no (pos-ne-negsuc m n)
int_discrete (negsuc m) (pos n) = no (negsuc-ne-pos m n)
int_discrete (negsuc m) (negsuc n) = elim (ℕ_discrete m n) [
  | yes e ↦ yes (ap negsuc e)
  | no h ↦ no (negsuc_ne m n h)
]
