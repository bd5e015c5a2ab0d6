-- ===== src/Node/Commits.antt =====
-- The commit index of the leader: the median of the match indices.
use vosfs.Common.{
  ℕ, zero, suc, ◌+◌, ◌-◌, ◌/◌, ◌≤◌, ◌<◌, ◌∷◌, [], List, some, ◌≡◌, refl, ap, ◌∙◌, inl, inr, leb,
  ltb, leb→le, if◌then◌else◌, arith, length, get_elem?, All, All-map, if-holds, if-ways, ℕ_discrete,
  ◌||◌, not, some-same, >>=-eq-some,
}
use vosfs.Common.Map.{Map, put, values}
use vosfs.Api.{AppendEntriesResponse}
use vosfs.StateMachine.Apply.{Resumed}
use vosfs.Node.Defs.{World, Node, is_leader}
use vosfs.Node.Terms.{increase_term_to}
use vosfs.Node.Applied.{apply_committed-Kept}
use vosfs.Node.Voting.{increase_term_to-eq}
use vosfs.Node.Replication.{insert, sort, median, advance_commit, handle_append_entries_response}

-- How many of the numbers are at least `c`.
unfoldable pub at_least : ℕ → List ℕ → ℕ
at_least c [] = 0
at_least c (x ∷ xs) = let rest = at_least c xs in if leb c x then suc rest else rest

-- Sorted from the smallest on.
abbrev IsSorted : List ℕ → Type 0
IsSorted [] = Unit
IsSorted (x ∷ xs) = All (λ y. x ≤ y) xs × IsSorted xs

at_least-insert : (c x : ℕ) (xs : List ℕ) → at_least c (insert x xs) ≡ at_least c (x ∷ xs)
unfolding insert at_least
at_least-insert c x [] = refl
at_least-insert c x (y ∷ ys) = let ih = at_least-insert c x ys in ground (arith, ih)

at_least-sort : (c : ℕ) (xs : List ℕ) → at_least c (sort xs) ≡ at_least c xs
unfolding sort at_least
at_least-sort c [] = refl
at_least-sort c (x ∷ xs) =
    let ih = at_least-sort c xs in
    let step = at_least-insert c x (sort xs) in ground (arith, ih, step)

length-insert : (x : ℕ) (xs : List ℕ) → length (insert x xs) ≡ suc (length xs)
unfolding insert
length-insert x [] = refl
length-insert x (y ∷ ys) = let ih = length-insert x ys in ground (arith, ih)

length-sort : (xs : List ℕ) → length (sort xs) ≡ length xs
unfolding sort
length-sort [] = refl
length-sort (x ∷ xs) = length-insert x (sort xs) ∙ ap suc (length-sort xs)

All-insert : (b x : ℕ) (xs : List ℕ) → b ≤ x → All (λ y. b ≤ y) xs → All (λ y. b ≤ y) (insert x xs)
unfolding insert
All-insert b x [] low all = (low, tt)
All-insert b x (y ∷ ys) low (first, all) =
    if-holds (λ l. All (λ z. b ≤ z) l) (leb x y) (x ∷ y ∷ ys) (y ∷ insert x ys)
      (λ h. (low, (first, all))) (λ h. (first, All-insert b x ys low all))

insert-IsSorted : (x : ℕ) (xs : List ℕ) → IsSorted xs → IsSorted (insert x xs)
unfolding insert
insert-IsSorted x [] sorted = (tt, tt)
insert-IsSorted x (y ∷ ys) (above, sorted) =
    if-holds IsSorted (leb x y) (x ∷ y ∷ ys) (y ∷ insert x ys)
      (λ h.
        let small = leb→le x y h in
        (
          (small, All-map (λ z. y ≤ z) (λ z. x ≤ z) ys (λ z le. ground (arith, small, le)) above),
          (above, sorted),
        ))
      (λ h. (All-insert y x ys (ground (arith, h)) above, insert-IsSorted x ys sorted))

sort-IsSorted : (xs : List ℕ) → IsSorted (sort xs)
unfolding sort
sort-IsSorted [] = tt
sort-IsSorted (x ∷ xs) = insert-IsSorted x (sort xs) (sort-IsSorted xs)

at_least-All : (c : ℕ) (xs : List ℕ) → All (λ y. c ≤ y) xs → at_least c xs ≡ length xs
unfolding at_least
at_least-All c [] all = refl
at_least-All c (x ∷ xs) (first, all) = let ih = at_least-All c xs all in ground (arith, ih, first)

get_elem?-at_least :
    (k c : ℕ) (xs : List ℕ) → IsSorted xs → get_elem? xs k ≡ some c → length xs ≤ k + at_least c xs
unfolding at_least
get_elem?-at_least k c [] sorted found = ground arith
get_elem?-at_least zero c (x ∷ xs) (first, sorted) found =
    let same : x ≡ c = some-same found in
    let all = at_least-All x xs first in ground (arith, same, all)
get_elem?-at_least (suc k) c (x ∷ xs) (first, sorted) found =
    let ih = get_elem?-at_least k c xs sorted found in ground (arith, ih)

-- The median: at least half of the match indices have reached it.
median-at_least :
    (m : Map ℕ ℕ) (c : ℕ)
    → median m ≡ some c
    → length (values m) - length (values m) / 2 ≤ at_least c (values m)
unfolding median
median-at_least m c found =
    let xs = values m in
    let sorted = get_elem?-at_least (length (sort xs) / 2) c (sort xs) (sort-IsSorted xs) found in
    let size = length-sort xs in
    let count = at_least-sort c xs in ground (arith, sorted, size, count)

module _ {DB FS : Type 0} (w : World DB FS) where
  advance_commit-majority :
      (now : ℕ) (response : AppendEntriesResponse) (n m : Node DB FS) (resumed : List Resumed)
      → advance_commit w now response n ≡ some (m, resumed)
      → n.commit_index < m.commit_index
      → length (values m.match_index) - length (values m.match_index) / 2
        ≤ at_least m.commit_index (values m.match_index)
  unfolding advance_commit
  advance_commit-majority now response n m resumed h more =
      let (index, found, rest) =
        >>=-eq-some (median (put ℕ_discrete response.id response.last_log_index n.match_index)) _
          h in
      elim (if-ways (ltb n.commit_index index) _ _ (some (m, resumed)) rest) [
        | inl (above, applied) ↦
            (let (commit, matches, _, _, _) = apply_committed-Kept w now _ m resumed applied in
              rw (commit, matches) (median-at_least _ index found))
        | inr (below, same) ↦
            (let kept = ap (λ p. p.0.commit_index) (some-same same) in ground (arith, kept, more))
      ]

  -- When a response moves the commit index of the leader on, at least half of the match indices,
  -- the one of the response included, have reached the new commit index.
  pub handle_append_entries_response-majority :
      (now : ℕ) (response : AppendEntriesResponse) (n m : Node DB FS) (resumed : List Resumed)
      → handle_append_entries_response w now response n ≡ some (m, resumed)
      → n.commit_index < m.commit_index
      → length (values m.match_index) - length (values m.match_index) / 2
        ≤ at_least m.commit_index (values m.match_index)
  unfolding handle_append_entries_response
  handle_append_entries_response-majority now response n m resumed h more =
      elim (if-ways (ltb response.term n.hard_state.current_term || not (is_leader n.role)) _ _
        (some (m, resumed)) h) [
          | inl (_, same) ↦
              (let kept = ap (λ p. p.0.commit_index) (some-same same) in ground (arith, kept, more))
          | inr (_, rest) ↦
              elim (if-ways (ltb n.hard_state.current_term response.term) _ _ (some (m, resumed))
                rest) [
                  | inl (_, raise) ↦
                      (let (k, raised, end) =
                          >>=-eq-some (increase_term_to w now response.term n) _ raise in
                        let (_, _, _, kept) = increase_term_to-eq w now response.term n k raised in
                        let same = ap (λ p. p.0.commit_index) (some-same end) in
                        ground (arith, kept, same, more))
                  | inr (_, last) ↦
                      elim (if-ways (not response.success) _ _ (some (m, resumed)) last) [
                        | inl (_, moved) ↦ ground (arith, some-same moved, more)
                        | inr (_, advance) ↦
                            advance_commit-majority now response n m resumed advance more
                      ]
                ]
        ]
