-- ===== src/Common/Reading.antt =====
-- Maps that are read entry by entry, as the files of a configuration and of the transfers are.
use vosfs.Common.{ℕ, ◌≡◌, refl, ap, ◌∙◌, ◌∷◌, [], Option, none, some, ℕ_discrete, ite, subst}
use vosfs.Common.Map.{Map, find, emplace, find-emplace}

-- What one map finds, the other finds too, up to a relation.
abbrev pub Agrees : {V : Type 0} → (V → V → Type 0) → Option V → Option V → Type 0
Agrees R none o = o ≡ none
Agrees R (some v) o = (v' : _) × (o ≡ some v') × R v' v

-- What a map that is read entry by entry finds: what it had, and else what the saved map has.
abbrev pub After : {V : Type 0} → (V → V → Type 0) → Option V → Option V → Option V → Type 0
After R (some w) saved o = o ≡ some w
After R none saved o = Agrees R saved o

abbrev pub Loaded : {V : Type 0} → (V → V → Type 0) → Map ℕ V → Map ℕ V → Map ℕ V → Type 0
Loaded R had saved m =
    (k : ℕ) → After R (find ℕ_discrete k had) (find ℕ_discrete k saved) (find ℕ_discrete k m)

module _ {V : Type 0} (R : V → V → Type 0) where
  After-none : (o : Option V) → After R o none o
  After-none none = refl
  After-none (some w) = refl

  pub Loaded-nil : (had : Map ℕ V) → Loaded R had [] had
  unfolding find
  Loaded-nil had k = After-none (find ℕ_discrete k had)

  After-cons :
      (id k : ℕ) (v v' : V) (o saved found added : Option V) (same : Dec (id ≡ k))
      → added ≡ elim o [ some w ↦ some w | none ↦ ite same (some v') none ]
      → R v' v
      → After R added saved found
      → After R o (ite same (some v) saved) found
  After-cons id k v v' (some w) saved found added same e r h =
      subst (λ x. After R x saved found) e h
  After-cons id k v v' none saved found added (yes p) e r h =
      (v', subst (λ x. After R x saved found) e h, r)
  After-cons id k v v' none saved found added (no p) e r h = subst (λ x. After R x saved found) e h

  pub Loaded-cons :
      (id : ℕ) (v v' : V) (had saved m : Map ℕ V)
      → R v' v
      → Loaded R (emplace ℕ_discrete id v' had) saved m
      → Loaded R had ((id, v) ∷ saved) m
  unfolding find
  Loaded-cons id v v' had saved m r h k =
      After-cons id k v v' (find ℕ_discrete k had) (find ℕ_discrete k saved) (find ℕ_discrete k m)
        (find ℕ_discrete k (emplace ℕ_discrete id v' had)) (ℕ_discrete id k)
        (find-emplace ℕ_discrete id k v' had) r (h k)

-- Up to equality the maps find the same.
pub Agrees-equal : {V : Type 0} (saved found : Option V) → Agrees ◌≡◌ saved found → found ≡ saved
Agrees-equal none found e = e
Agrees-equal (some v) found (w, e, p) = e ∙ ap some p
