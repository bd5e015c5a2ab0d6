-- ===== src/Common/Map.antt =====
-- `std::unordered_map` as an association list: its order is the order of iteration, which the
-- standard leaves open.
use mathlib.Core.Path.{◌≡◌, refl, sym, subst, ◌∙◌}
use mathlib.Core.Bool.{Bool, true, false}
use mathlib.Core.Option.{Option, none, some}
use mathlib.Core.List.{List, [], ◌∷◌}
use mathlib.Core.Logic.{◌⊎◌, inl, inr, ite, if_pos, if_neg}
use native.Mathlib.Omega.{arith}
use vosfs.Common.Tests.{Option-cases}
use vosfs.Common.Lists.{All}

abbrev pub Map {ℓ} : Type ℓ → Type ℓ → Type ℓ
Map K V = List (K × V)

module _ {ℓ} {K V : Type ℓ} (key : Discrete K) where
  -- `m.find(k)`, and `m.end()` as `none`
  unfoldable pub find : K → Map K V → Option V
  find k [] = none
  find k ((j, v) ∷ m) = ite (key j k) (some v) (find k m)

  -- `m.contains(k)`
  unfoldable pub contains : K → Map K V → Bool
  unfolding find
  contains k m = elim (find k m) [ none ↦ false | some v ↦ true ]

  -- `m.emplace(k, v)`: an entry that is there stays as it is.
  unfoldable pub emplace : K → V → Map K V → Map K V
  unfolding find
  emplace k v m = elim (find k m) [ none ↦ (k, v) ∷ m | some w ↦ m ]

  -- `m[k] = v`
  unfoldable pub put : K → V → Map K V → Map K V
  put k v [] = (k, v) ∷ []
  put k v ((j, w) ∷ m) = ite (key j k) ((j, v) ∷ m) ((j, w) ∷ put k v m)

  -- A write through the reference that `find` returned.
  unfoldable pub modify : K → (V → V) → Map K V → Map K V
  modify k f [] = []
  modify k f ((j, w) ∷ m) = ite (key j k) ((j, f w) ∷ m) ((j, w) ∷ modify k f m)

  -- `m[k]`, with `d` for a value that is missing: the map after the access, and the value.
  unfoldable pub access : K → V → Map K V → Map K V × V
  unfolding find
  access k d m = elim (find k m) [ none ↦ ((k, d) ∷ m, d) | some w ↦ (m, w) ]

  pub find-emplace :
      (k j : K) (v : V) (m : Map K V)
      → find j (emplace k v m)
        ≡ elim (find j m) [ some w ↦ some w | none ↦ ite (key k j) (some v) none ]
  unfolding find emplace
  find-emplace k j v m = ground arith

  pub find-put :
      (k j : K) (v : V) (m : Map K V) → find j (put k v m) ≡ ite (key k j) (some v) (find j m)
  unfolding find put
  find-put k j v [] = refl
  find-put k j v ((i, w) ∷ m) = ground (arith, find-put k j v m)

  pub find-modify :
      (k j : K) (f : V → V) (m : Map K V)
      → find j (modify k f m)
        ≡ ite (key k j) (elim (find j m) [ none ↦ none | some w ↦ some (f w) ]) (find j m)
  unfolding find modify
  find-modify k j f [] = ground arith
  find-modify k j f ((i, w) ∷ m) = ground (arith, find-modify k j f m)

-- The values, in the order of iteration.
abbrev pub values {ℓ} : {K V : Type ℓ} → Map K V → List V
values [] = []
values ((k, v) ∷ m) = v ∷ values m

module _ {ℓ} {K V : Type ℓ} (key : Discrete K) where
  pub contains-false : (k : K) (m : Map K V) → contains key k m ≡ false → find key k m ≡ none
  unfolding contains
  contains-false k m h = ground arith

  pub find-emplace_new :
      (k : K) (v : V) (m : Map K V) → find key k m ≡ none → find key k (emplace key k v m) ≡ some v
  find-emplace_new k v m h = ground (arith, find-emplace key k k v m)

  -- An entry that is found before is found after an `emplace`.
  pub find-emplace_old :
      (k j : K) (v w : V) (m : Map K V)
      → find key j m ≡ some w
      → find key j (emplace key k v m) ≡ some w
  find-emplace_old k j v w m h = ground (arith, find-emplace key k j v m)

  -- Where a value that is found after a write comes from.
  pub find-emplace_inv :
      (k j : K) (v w : V) (m : Map K V)
      → find key j (emplace key k v m) ≡ some w
      → (find key j m ≡ some w) ⊎ ((j ≡ k) × (w ≡ v))
  find-emplace_inv k j v w m h = elim (Option-cases (find key j m)) [
    | inr (o, e) ↦ inl (ground (arith, find-emplace key k j v m))
    | inl e ↦ elim (key k j) [
      | yes p ↦ inr (sym p, ground (arith, find-emplace key k j v m))
      | no p ↦ absurd (ground (arith, find-emplace key k j v m))
    ]
  ]

  pub find-modify_inv :
      (k j : K) (f : V → V) (w : V) (m : Map K V)
      → find key j (modify key k f m) ≡ some w
      → (o : V) × (find key j m ≡ some o) × ((w ≡ o) ⊎ (w ≡ f o))
  find-modify_inv k j f w m h = elim (Option-cases (find key j m)) [
    | inr (o, e) ↦ elim (key k j) [
      | yes p ↦ (o, e, inr (ground (arith, find-modify key k j f m)))
      | no p ↦ (o, e, inl (ground (arith, find-modify key k j f m)))
    ]
    | inl e ↦ absurd (ground (arith, find-modify key k j f m))
  ]

  -- A write through a reference keeps every key.
  pub find-modify-some :
      (k j : K) (f : V → V) (w : V) (m : Map K V)
      → find key j m ≡ some w
      → (o : V) × (find key j (modify key k f m) ≡ some o) × ((o ≡ w) ⊎ (o ≡ f w))
  find-modify-some k j f w m h = elim (key k j) [
    | yes p ↦ (f w, ground (arith, find-modify key k j f m), inr refl)
    | no p ↦ (w, ground (arith, find-modify key k j f m), inl refl)
  ]

-- Statements about every entry of a map.
module _ {ℓ} {K V : Type ℓ} (key : Discrete K) (P : K × V → Type ℓ) where
  pub All-find : (k : K) (v : V) (m : Map K V) → All P m → find key k m ≡ some v → P (k, v)
  unfolding find
  All-find k v [] h e = absurd (cc)
  All-find k v ((j, w) ∷ m) h e = elim (key j k) [
    | yes p ↦ (let q : w ≡ v = ground arith in subst P (λ i. (p i, q i)) h.0)
    | no p ↦ All-find k v m h.1 (sym (if_neg (key j k) p (some w) (find key k m)) ∙ e)
  ]

  pub All-emplace : (k : K) (v : V) (m : Map K V) → P (k, v) → All P m → All P (emplace key k v m)
  unfolding emplace
  All-emplace k v m p h = elim (Option-cases (find key k m)) [
    | inl e ↦ rw (e, emplace) (p, h)
    | inr (w, e) ↦ rw (e, emplace) h
  ]

  pub All-modify :
      (k : K) (f : V → V) (m : Map K V)
      → ((j : K) (v : V) → P (j, v) → P (j, f v))
      → All P m
      → All P (modify key k f m)
  unfolding modify
  All-modify k f [] g h = tt
  All-modify k f ((j, w) ∷ m) g h = elim (key j k) [
    | yes p ↦ rw (if_pos (key j k) p) (g j w h.0, h.1)
    | no p ↦ rw (if_neg (key j k) p) (h.0, All-modify k f m g h.1)
  ]

module _ {ℓ} {K V : Type ℓ} (key : Discrete K) where
  -- `m.erase(k)`
  unfoldable pub erase : K → Map K V → Map K V
  erase k [] = []
  erase k ((j, v) ∷ m) = ite (key j k) (erase k m) ((j, v) ∷ erase k m)

  pub find-erase :
      (k j : K) (m : Map K V) → find key j (erase k m) ≡ ite (key k j) none (find key j m)
  unfolding find erase
  find-erase k j [] = ground arith
  find-erase k j ((i, w) ∷ m) = ground (arith, find-erase k j m)
