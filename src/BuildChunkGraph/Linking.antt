-- ===== src/BuildChunkGraph/Linking.antt =====
-- `chunk_group_reaches` of crates/unpack_core/src/build_chunk_graph.rs, and the step of
-- `build_chunk_graph_with_cache` that links the group of an import under the group of its parent.
pub mod Reaches
pub mod Acyclic
use unpack.Prelude.{
  ℕ, zero, suc, Bool, true, false, Option, none, some, List, [], ◌∷◌, ◌++◌, ◌>>=◌, ◌==◌, nat_eq,
  length, modify, get_elem?, replicate,
}
use unpack.Chunk.{ChunkGroup, ChunkGroupHandle}
use unpack.ChunkGraph.{ChunkGraph, connect_chunk_groups, connect_runtime_chunk_groups}
use unpack.ChunkGraph.Consistent.{children_of}
use unpack.Worklist.Measure.{unvisited}

-- The body of the loop for a group that was not visited: `visited` and the queue after it.
unfoldable pub visit_group :
    ChunkGraph
    → ChunkGroupHandle
    → List ChunkGroupHandle
    → List Bool
    → Option (List ChunkGroupHandle × List Bool)
visit_group g group pending visited = do
  marked ← modify visited group (λ _. true)
  c ← get_elem? g.chunk_groups group
  some (pending ++ c.children, marked)

-- The `while` of `chunk_group_reaches`. `none` is a panic, or that the fuel ran out.
unfoldable pub reaches_loop :
    ℕ → ChunkGraph → ChunkGroupHandle → List ChunkGroupHandle → List Bool → Option Bool
unfolding visit_group
reaches_loop zero g target pending visited = none
reaches_loop (suc fuel) g target [] visited = some false
reaches_loop (suc fuel) g target (group ∷ pending) visited = elim (group == target) [
  | true ↦ some true
  | false ↦ get_elem? visited group >>= λ seen. elim seen [
    | true ↦ reaches_loop fuel g target pending visited
    | false ↦
        visit_group g group pending visited >>= λ next. reaches_loop fuel g target next.0 next.1
  ]
]

-- A round for every link, one for the start and one for the end.
abbrev pub reaches_fuel : ChunkGraph → ℕ
reaches_fuel g = suc (suc (unvisited (children_of g) (length g.chunk_groups) []))

unfoldable pub chunk_group_reaches : ChunkGraph → ChunkGroupHandle → ChunkGroupHandle → Option Bool
unfolding reaches_loop
chunk_group_reaches g start target =
    reaches_loop (reaches_fuel g) g target (start ∷ []) (replicate (length g.chunk_groups) false)

-- The `if` of the last loop: a link that would close a cycle is kept for the runtime only.
unfoldable pub link_groups : ChunkGraph → ChunkGroupHandle → ChunkGroupHandle → Option ChunkGraph
unfolding chunk_group_reaches connect_chunk_groups connect_runtime_chunk_groups
link_groups g parent child = chunk_group_reaches g child parent >>= λ reaches. elim reaches [
  | true ↦ connect_runtime_chunk_groups g parent child
  | false ↦ connect_chunk_groups g parent child
]
