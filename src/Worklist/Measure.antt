-- ===== src/Worklist/Measure.antt =====
-- A worklist loop ends: every round takes an item from the queue, and an item pushes its successors
-- once.
use unpack.Prelude.{
  ℕ, zero, suc, ◌+◌, ◌≤◌, ◌<◌, Bool, true, false, List, [], ◌∷◌, ◌++◌, ◌≡◌, refl, arith, ◌==◌,
  nat_eq, nat_eqb_iff, length, contains, is_some, contains-push, contains-append, length-append,
  Bool-cases, inl, inr, if◌then◌else◌,
}
use unpack.Worklist.{explore}

module _ (next : ℕ → List ℕ) where
  -- How many successors the items below `n` that were not visited have.
  unfoldable pub unvisited : ℕ → List ℕ → ℕ
  unvisited zero visited = 0
  unvisited (suc n) visited =
      (if contains visited n then 0 else length (next n)) + unvisited n visited

  unvisited-out :
      (n : ℕ) (visited : List ℕ) (item : ℕ)
      → n ≤ item
      → unvisited n (visited ++ item ∷ []) ≡ unvisited n visited
  unfolding unvisited
  unvisited-out zero visited item h = refl
  unvisited-out (suc n) visited item h =
      ground (arith, unvisited-out n visited item, contains-push visited item n)

  unvisited-push :
      (n : ℕ) (visited : List ℕ) (item : ℕ)
      → item < n
      → contains visited item ≡ false
      → unvisited n (visited ++ item ∷ []) + length (next item) ≡ unvisited n visited
  unfolding unvisited
  unvisited-push zero visited item h new = absurd (omega arith)
  unvisited-push (suc n) visited item h new = elim (Bool-cases (item == n)) [
    | inl same ↦
        ground
          (arith, nat_eqb_iff item n, unvisited-out n visited item, contains-push visited item n)
    | inr apart ↦
        ground
          (arith, nat_eqb_iff item n, unvisited-push n visited item, contains-push visited item n)
  ]

  -- Every item of a list is below `n`.
  abbrev pub Below : ℕ → List ℕ → Type 0
  Below n items = (item : ℕ) → contains items item ≡ true → item < n

  pub explore_total :
      (goal : ℕ → Bool) (n fuel : ℕ) (queue visited : List ℕ)
      → ((item : ℕ) → item < n → Below n (next item))
      → Below n queue
      → length queue + unvisited n visited < fuel
      → is_some (explore next goal fuel queue visited) ≡ true
  unfolding explore
  explore_total goal n zero queue visited closed inside enough = absurd (omega arith)
  explore_total goal n (suc fuel) [] visited closed inside enough = refl
  explore_total goal n (suc fuel) (item ∷ queue) visited closed inside enough =
      let low = inside item (ground (arith, nat_eqb_iff item item)) in
      elim (Bool-cases (goal item)) [
        | inl ends ↦ rw (ends, explore) refl
        | inr goes ↦ elim (Bool-cases (contains visited item)) [
          | inl old ↦
              rw (goes, old, explore)
                (explore_total goal n fuel queue visited closed (λ x h. inside x (ground arith))
                  (omega arith))
          | inr new ↦
              rw (goes, new, explore)
                (explore_total goal n fuel (queue ++ next item) (visited ++ item ∷ []) closed
                  (λ x h. elim (Bool-cases (contains queue x)) [
                    | inl queued ↦ inside x (ground arith)
                    | inr pushed ↦
                        closed item low x (ground (arith, contains-append queue (next item) x))
                  ])
                  (omega (
                    arith,
                    length-append queue (next item),
                    unvisited-push n visited item low new,
                  )))
        ]
      ]
