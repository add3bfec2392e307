-- ===== src/BuildChunkGraph/Tests.antt =====
-- Two modules with a static connection, and two groups that import each other.
use unpack.Prelude.{
  ℕ, zero, suc, ◌<◌, Bool, true, false, Option, none, some, List, [], ◌∷◌, ◌≡◌, ◌↔◌, refl, arith,
  length, is_some, contains, nat_eq,
}
use unpack.ModuleMask.{new_mask}
use unpack.Worklist.Measure.{unvisited}
use unpack.Dependency.{is_static_module_dependency, Dependency}
use unpack.Module.{Module, ModuleHandle, identity_of}
use unpack.ModuleGraph.{
  is_active, ModuleGraphStorage, empty_storage, add_module, connect, index_origin, index_location,
}
use unpack.ModuleGraph.Indexed.{IsIndexed, IsIndexed-empty}
use unpack.ModuleGraph.Operations.{add_module-IsIndexed, connect-IsIndexed}
use unpack.Chunk.{ChunkGroupKind, new_group, ChunkGroupHandle}
use unpack.ChunkGraph.{
  ChunkGraph, default_graph, add_chunk_group, connect_chunk_groups, connect_runtime_chunk_groups,
}
use unpack.ChunkGraph.Consistent.{IsConsistent, IsConsistent-default, children_of}
use unpack.ChunkGraph.Operations.{add_chunk_group-IsConsistent}
use unpack.Worklist.Reach.{Reach}
use unpack.BuildChunkGraph.{static_next, static_loop, collect_static_reachable}
use unpack.BuildChunkGraph.Static.{Collects, collect_static_reachable_lem}
use unpack.BuildChunkGraph.Linking.{link_groups, chunk_group_reaches, reaches_loop, visit_group}
use unpack.BuildChunkGraph.Linking.Reaches.{chunk_group_reaches_lem}
use unpack.BuildChunkGraph.Linking.Acyclic.{IsAcyclic, link_groups-IsAcyclic, link_groups_total}

abbrev Graph : Type 0
Graph = ModuleGraphStorage (Module ℕ)

abbrev both_added : Graph
both_added =
    (add_module (add_module empty_storage (identity_of "/a.js") none).0 (identity_of "/b.js")
      none).0

abbrev static_import : Dependency
static_import = Dependency.entry (record {
  request = "./b";
  user_request = "./b";
  source_order = none;
  range = none;
  weak = false;
})

abbrev graph_or : Option Graph → Graph
graph_or none = both_added
graph_or (some g) = g

abbrev imported : Graph
imported = graph_or (connect both_added (some 0) none (some 0) static_import 1)

imported-returned : connect both_added (some 0) none (some 0) static_import 1 ≡ some imported
unfolding connect index_origin index_location add_module
imported-returned = refl

imported-IsIndexed : IsIndexed imported
imported-IsIndexed =
    connect-IsIndexed both_added (some 0) none (some 0) static_import 1 imported
      (add_module-IsIndexed _ (identity_of "/b.js") none
        (add_module-IsIndexed empty_storage (identity_of "/a.js") none IsIndexed-empty))
      imported-returned

first_module : 0 < length imported.modules
unfolding connect index_origin index_location add_module
first_module = omega arith

-- Both modules are found.
collected : collect_static_reachable imported 0 ≡ some (0 ∷ 1 ∷ [])
unfolding collect_static_reachable static_loop connect index_origin index_location add_module
    new_mask is_static_module_dependency is_active unvisited static_next
collected = refl

collect_static_reachable_lem_example :
    (modules : List ModuleHandle) × (collect_static_reachable imported 0 ≡ some modules)
    × Collects imported imported-IsIndexed 0 modules
collect_static_reachable_lem_example =
    collect_static_reachable_lem imported imported-IsIndexed 0 first_module

abbrev one_group : ChunkGraph
one_group = (add_chunk_group default_graph (ChunkGroupKind.entrypoint "main") none).0

abbrev two_groups : ChunkGraph
two_groups = (add_chunk_group one_group ChunkGroupKind.async none).0

two_groups-IsConsistent : IsConsistent two_groups
two_groups-IsConsistent = add_chunk_group-IsConsistent one_group ChunkGroupKind.async none (
    add_chunk_group-IsConsistent default_graph (ChunkGroupKind.entrypoint "main") none
      IsConsistent-default)

childless : (x y : ChunkGroupHandle) → contains (children_of two_groups x) y ≡ true → false ≡ true
unfolding add_chunk_group new_group
childless zero y e = e
childless (suc zero) y e = e
childless (suc (suc x)) y e = e

two_groups-IsAcyclic : IsAcyclic two_groups
unfolding IsAcyclic
two_groups-IsAcyclic x y e walk = cc (childless x y e)

abbrev linked : ChunkGraph
linked = elim (link_groups two_groups 0 1) [ none ↦ default_graph | some g ↦ g ]

linked-returned : link_groups two_groups 0 1 ≡ some linked
unfolding link_groups chunk_group_reaches reaches_loop visit_group connect_chunk_groups
    connect_runtime_chunk_groups add_chunk_group new_group
linked-returned = refl

groups_in_range : (0 < length two_groups.chunk_groups) × (1 < length two_groups.chunk_groups)
unfolding add_chunk_group
groups_in_range = (omega arith, omega arith)

chunk_group_reaches_lem_example :
    (answer : Bool) × (chunk_group_reaches two_groups 0 1 ≡ some answer)
    × ((answer ≡ true) ↔ Reach (children_of two_groups) 0 1)
chunk_group_reaches_lem_example =
    chunk_group_reaches_lem two_groups two_groups-IsConsistent 1 0 groups_in_range.0

link_groups_total_example : is_some (link_groups two_groups 0 1) ≡ true
link_groups_total_example =
    link_groups_total two_groups 0 1 two_groups-IsConsistent groups_in_range.0 groups_in_range.1

link_groups-IsAcyclic_example : IsConsistent linked × IsAcyclic linked
link_groups-IsAcyclic_example =
    link_groups-IsAcyclic two_groups 0 1 linked two_groups-IsConsistent two_groups-IsAcyclic
      groups_in_range.1 linked-returned
