-- ===== src/Persister/Entries.antt =====
-- What the batches of the persister do at each key.
use vosfs.Common.{
  ℕ, zero, suc, ◌+◌, ◌-◌, ◌<◌, ◌≤◌, ◌≡◌, ◌≢◌, refl, ap, sym, ◌∙◌, ◌&&◌, if◌then◌else◌, ◌⊎◌, inl,
  inr, ◌∷◌, [], List, true, some, Str, arith, leb, add64, u64_mod, length, get_elem?,
  to_string-injective, str_discrete, Bool-cases,
}
use mathlib.Core.Logic.{if_pos, if_neg}
use vosfs.Api.{LogEntry}
use vosfs.Persister.Engine.{Codec, GetResult, found, not_found, WriteOp, after}
use vosfs.Persister.Defs.{hard_state_key, entry_key, put_ops, delete_ops}
use vosfs.RaftLog.Indices.{Consecutive}

pub entry_key-injective : (i j : ℕ) → entry_key i ≡ entry_key j → i ≡ j
unfolding entry_key
entry_key-injective i j e = to_string-injective i j (cc)

abbrev first_byte : Str → ℕ
first_byte [] = 0
first_byte (c ∷ s) = c

pub hard_state_key-ne : (i : ℕ) → hard_state_key ≢ entry_key i
unfolding entry_key
hard_state_key-ne i e = absurd (omega (arith, ap first_byte e))

key_ne : (i j : ℕ) → i ≢ j → entry_key i ≢ entry_key j
key_ne i j h e = h (entry_key-injective i j e)

module _ (codec : Codec LogEntry) where
  -- A batch of entries writes no key outside its indices.
  pub after-put_outside :
      (n j : ℕ) (es : List LogEntry) (r : GetResult)
      → Consecutive n es
      → (j < n) ⊎ (n + length es ≤ j)
      → after (put_ops codec es) (entry_key j) r ≡ r
  after-put_outside n j [] r c h = refl
  after-put_outside n j (e ∷ es) r c h =
      ap (after (put_ops codec es) (entry_key j)) (
        if_neg (str_discrete (entry_key e.index) (entry_key j)) (key_ne e.index j (omega arith)) _
          r)
      ∙ after-put_outside (n + 1) j es r c.1 (omega arith)

  -- At each of its indices it writes the entry that carries the index.
  pub after-put_inside :
      (n i : ℕ) (es : List LogEntry) (e : LogEntry) (r : GetResult)
      → Consecutive n es
      → get_elem? es i ≡ some e
      → after (put_ops codec es) (entry_key (n + i)) r ≡ found (codec.serialize e)
  after-put_inside n i [] e r c h = absurd (cc)
  after-put_inside n zero (f ∷ es) e r c h =
      let here : f.index ≡ n + 0 = omega arith in
      ap (after (put_ops codec es) (entry_key (n + 0))) (
        if_pos (str_discrete (entry_key f.index) (entry_key (n + 0))) (ap entry_key here)
          (found (codec.serialize f)) r)
      ∙ after-put_outside (n + 1) (n + 0) es (found (codec.serialize f)) c.1 (inl (omega arith))
      ∙ ground arith
  after-put_inside n (suc i) (f ∷ es) e r c h =
      let next : n + suc i ≡ n + 1 + i = omega arith in
      rw next (after-put_inside (n + 1) i es e _ c.1 h)

  pub after-put_hard_state :
      (es : List LogEntry) (r : GetResult) → after (put_ops codec es) hard_state_key r ≡ r
  after-put_hard_state [] r = refl
  after-put_hard_state (e ∷ es) r =
      ap (after (put_ops codec es) hard_state_key) (
        if_neg (str_discrete (entry_key e.index) hard_state_key)
          (λ q. hard_state_key-ne e.index (sym q)) _ r)
      ∙ after-put_hard_state es r

-- The deletions of a range of indices.
abbrev pub Deletes : ℕ → ℕ → List WriteOp → Type 0
Deletes first last ops =
    (j : ℕ) (r : GetResult)
    → after ops (entry_key j) r ≡ (if leb first j && leb j last then not_found else r)

Deletes-cons :
    (first last : ℕ) (ops : List WriteOp)
    → leb first last ≡ true
    → Deletes (first + 1) last ops
    → Deletes first last (WriteOp.delete (entry_key first) ∷ ops)
Deletes-cons first last ops more deletes j r = elim (str_discrete (entry_key first) (entry_key j)) [
  | yes p ↦
      rw (if_pos (str_discrete (entry_key first) (entry_key j)) p)
        (deletes j not_found ∙ ground (arith, entry_key-injective first j p))
  | no p ↦
      (let ne : first ≢ j = λ q. p (ap entry_key q) in
        rw (if_neg (str_discrete (entry_key first) (entry_key j)) p) (deletes j r ∙ ground arith))
]

pub delete_ops-Deletes :
    (fuel first last : ℕ)
    → last + 1 < u64_mod
    → first ≤ last + 1
    → last + 1 - first < fuel
    → (ops : List WriteOp) × (delete_ops fuel first last ≡ some ops)
      × Deletes first last ops
      × ((r : GetResult) → after ops hard_state_key r ≡ r)
unfolding delete_ops
delete_ops-Deletes zero first last fits h k = absurd (omega arith)
delete_ops-Deletes (suc fuel) first last fits h k = elim (Bool-cases (leb first last)) [
  | inr over ↦ ([], rw over, λ j r. ground arith, λ r. refl)
  | inl more ↦
      (let next : add64 first 1 ≡ first + 1 = ground arith in
        let (ops, rest, deletes, keeps) =
          delete_ops-Deletes fuel (first + 1) last fits (ground arith) (ground arith) in
        (
          WriteOp.delete (entry_key first) ∷ ops,
          rw (more, next, rest),
          Deletes-cons first last ops more deletes,
          λ r.
              rw
                (if_neg (str_discrete (entry_key first) hard_state_key)
                  (λ q. hard_state_key-ne first (sym q)))
                (keeps r),
        ))
]
