-- ===== src/Worklist.antt =====
-- The worklist loops of the crate: `collect_static_reachable` and `chunk_group_reaches` of
-- crates/unpack_core/src/build_chunk_graph.rs both take an item from a queue, pass over one that was
-- visited, and push its successors. Here the loop is over any successors, with a test that ends it.
pub mod Measure
pub mod Reach
pub mod Acyclic
use unpack.Prelude.{
  ℕ, zero, suc, Bool, true, false, Option, none, some, List, [], ◌∷◌, ◌++◌, nat_eq, contains,
  if◌then◌else◌,
}

-- What one round does to the queue and to the visited items.
abbrev pub advance : (ℕ → List ℕ) → ℕ → List ℕ → List ℕ → List ℕ × List ℕ
advance next item queue visited =
    if contains visited item then (queue, visited) else (queue ++ next item, visited ++ item ∷ [])

-- `none` means that the fuel ran out.
unfoldable pub explore : (ℕ → List ℕ) → (ℕ → Bool) → ℕ → List ℕ → List ℕ → Option (Bool × List ℕ)
explore next goal zero queue visited = none
explore next goal (suc fuel) [] visited = some (false, visited)
explore next goal (suc fuel) (item ∷ queue) visited =
    let after = advance next item queue visited in
    let rest = explore next goal fuel after.0 after.1 in
    if goal item then some (true, visited) else rest
