-- ===== src/ChunkGraph/Tests.antt =====
-- A graph of one chunk in one group, a second group under it, and modules in the chunk.
use unpack.Prelude.{
  contains, get_or, true, ◌<◌, none, some, [], ◌∷◌, ◌≡◌, refl, arith, Option, length, contains, any,
  nat_eq,
}
use unpack.Chunk.{ChunkGroupKind, ChunkHandle, add_group, new_chunk, split}
use unpack.ChunkGraph.{
  ChunkGraph, ConcatenatedModule, default_graph, add_chunk, add_chunk_group,
  connect_chunk_and_group, connect_chunk_groups, connect_chunk_and_module,
  disconnect_chunk_and_module, add_split_chunk, add_concatenated_module,
}
use unpack.ChunkGraph.Consistent.{IsConsistent, IsConsistent-default, groups_of}
use unpack.ChunkGraph.Operations.{
  add_chunk-IsConsistent, add_chunk_group-IsConsistent, connect_chunk_and_group-IsConsistent,
  connect_chunk_groups-IsConsistent,
}
use unpack.ChunkGraph.Modules.{
  connect_chunk_and_module-IsConsistent, add_concatenated_module-IsConsistent,
}
use unpack.ChunkGraph.Split.{add_split_chunk-IsConsistent, add_split_chunk_joins}

abbrev or_else : Option ChunkGraph → ChunkGraph
or_else none = default_graph
or_else (some g) = g

abbrev one_chunk : ChunkGraph
one_chunk = (add_chunk default_graph (some "main") (0 ∷ [])).0

abbrev one_group : ChunkGraph
one_group = (add_chunk_group one_chunk (ChunkGroupKind.entrypoint "main") none).0

abbrev two_groups : ChunkGraph
two_groups = (add_chunk_group one_group ChunkGroupKind.async none).0

abbrev grouped : ChunkGraph
grouped = or_else (connect_chunk_and_group two_groups 0 0)

abbrev parented : ChunkGraph
parented = or_else (connect_chunk_groups grouped 0 1)

abbrev with_root : ChunkGraph
with_root = or_else (connect_chunk_and_module parented 0 0)

abbrev with_both : ChunkGraph
with_both = or_else (connect_chunk_and_module with_root 0 1)

abbrev without : ChunkGraph
without = or_else (disconnect_chunk_and_module with_both 0 0)

abbrev concatenation : ConcatenatedModule
concatenation = record { root_module = 0; modules = 0 ∷ 1 ∷ [] }

abbrev joined : ChunkGraph
joined = or_else (add_concatenated_module with_both concatenation)

abbrev split_off : ChunkGraph × ChunkHandle
split_off = elim (add_split_chunk with_both (0 ∷ []) (some "vendor") []) [
  | none ↦ (default_graph, 0)
  | some p ↦ p
]

one_chunk-IsConsistent : IsConsistent one_chunk
one_chunk-IsConsistent =
    add_chunk-IsConsistent default_graph (some "main") (0 ∷ []) IsConsistent-default

one_group-IsConsistent : IsConsistent one_group
one_group-IsConsistent =
    add_chunk_group-IsConsistent one_chunk (ChunkGroupKind.entrypoint "main") none
      one_chunk-IsConsistent

two_groups-IsConsistent : IsConsistent two_groups
two_groups-IsConsistent =
    add_chunk_group-IsConsistent one_group ChunkGroupKind.async none one_group-IsConsistent

grouped-returned : connect_chunk_and_group two_groups 0 0 ≡ some grouped
unfolding connect_chunk_and_group add_chunk add_chunk_group
grouped-returned = refl

grouped-IsConsistent : IsConsistent grouped
grouped-IsConsistent =
    connect_chunk_and_group-IsConsistent two_groups 0 0 grouped two_groups-IsConsistent
      grouped-returned

parented-returned : connect_chunk_groups grouped 0 1 ≡ some parented
unfolding connect_chunk_groups connect_chunk_and_group add_chunk add_chunk_group
parented-returned = refl

parented-IsConsistent : IsConsistent parented
parented-IsConsistent =
    connect_chunk_groups-IsConsistent grouped 0 1 parented grouped-IsConsistent parented-returned

with_root-returned : connect_chunk_and_module parented 0 0 ≡ some with_root
unfolding connect_chunk_and_module connect_chunk_groups connect_chunk_and_group add_chunk
    add_chunk_group
with_root-returned = refl

with_root-IsConsistent : IsConsistent with_root
with_root-IsConsistent =
    (connect_chunk_and_module-IsConsistent parented 0 0 with_root parented-IsConsistent
      with_root-returned).0

with_both-returned : connect_chunk_and_module with_root 0 1 ≡ some with_both
unfolding connect_chunk_and_module connect_chunk_groups connect_chunk_and_group add_chunk
    add_chunk_group
with_both-returned = refl

with_both-IsConsistent : IsConsistent with_both
with_both-IsConsistent =
    (connect_chunk_and_module-IsConsistent with_root 0 1 with_both with_root-IsConsistent
      with_both-returned).0

connect_chunk_and_module-IsConsistent_example :
    IsConsistent with_both
    × (contains (get_or with_both.chunk_modules 0 []) 1 ≡ true)
    × (contains (get_or with_both.module_chunks 1 []) 0 ≡ true)
connect_chunk_and_module-IsConsistent_example =
    connect_chunk_and_module-IsConsistent with_root 0 1 with_both with_root-IsConsistent
      with_both-returned

chunk_in_range : 0 < length parented.chunks
unfolding connect_chunk_groups connect_chunk_and_group add_chunk add_chunk_group
chunk_in_range = omega arith

without-returned : disconnect_chunk_and_module with_both 0 0 ≡ some without
unfolding disconnect_chunk_and_module connect_chunk_and_module connect_chunk_groups
    connect_chunk_and_group add_chunk add_chunk_group
without-returned = refl

joined-returned : add_concatenated_module with_both concatenation ≡ some joined
unfolding add_concatenated_module connect_chunk_and_module connect_chunk_groups
    connect_chunk_and_group add_chunk add_chunk_group
joined-returned = refl

add_concatenated_module-IsConsistent_example : IsConsistent joined
add_concatenated_module-IsConsistent_example =
    add_concatenated_module-IsConsistent with_both concatenation joined with_both-IsConsistent
      joined-returned

split_off-returned :
    add_split_chunk with_both (0 ∷ []) (some "vendor") [] ≡ some (split_off.0, split_off.1)
unfolding add_split_chunk connect_chunk_and_module connect_chunk_groups connect_chunk_and_group
    add_chunk add_chunk_group split add_group new_chunk
split_off-returned = refl

add_split_chunk-IsConsistent_example : IsConsistent split_off.0
add_split_chunk-IsConsistent_example =
    add_split_chunk-IsConsistent with_both (0 ∷ []) (some "vendor") [] split_off.0 split_off.1
      with_both-IsConsistent split_off-returned

add_split_chunk_joins_example :
    contains (groups_of split_off.0 split_off.1) 0
    ≡ any (λ source. contains (groups_of with_both source) 0) (0 ∷ [])
add_split_chunk_joins_example =
    add_split_chunk_joins with_both (0 ∷ []) (some "vendor") [] split_off.0 split_off.1
      split_off-returned 0
