-- ===== src/BuildChunkGraph/Linking/Acyclic.antt =====
-- Linking never makes a cycle of groups, so that a group can be loaded after its parents.
use unpack.Prelude.{
  get_or, contains-push_unique, refl, [], get_or-modify, length-modify, push_unique, some_inj, sym,
  modify_total, >>=-eq-some, is_some, subst, inr, inl, Bool-cases, contains, ◌<◌, ◌≡◌, ◌==◌, ◌&&◌,
  ◌||◌, true, arith, nat_eq,
}
use unpack.Chunk.{add_parent, add_child, ChunkGroup, ChunkGroupHandle}
use unpack.ChunkGraph.{ChunkGraph, connect_chunk_groups, connect_runtime_chunk_groups}
use unpack.ChunkGraph.Consistent.{
  view-modify_added, view-modify_same, view, IsConsistent, children_of,
}
use unpack.ChunkGraph.Operations.{connect_chunk_groups-IsConsistent}
use unpack.Worklist.Acyclic.{acyclic_linked}
use unpack.Worklist.Reach.{Reach}
use unpack.BuildChunkGraph.Linking.{
  modify, some, length, connect_chunk_groups, connect_runtime_chunk_groups, link_groups,
}
use unpack.BuildChunkGraph.Linking.Reaches.{chunk_group_reaches_lem}

-- No group is loaded below itself.
unfoldable pub IsAcyclic : ChunkGraph → Type 0
IsAcyclic g =
    (x y : ChunkGroupHandle) → contains (children_of g x) y ≡ true → ¬ Reach (children_of g) y x

connect_chunk_groups-children :
    (g : ChunkGraph) (parent child : ChunkGroupHandle) (t : ChunkGraph)
    → connect_chunk_groups g parent child ≡ some t
    → (x y : ChunkGroupHandle)
    → contains (children_of t x) y ≡ (contains (children_of g x) y || (parent == x && child == y))
unfolding connect_chunk_groups connect_runtime_chunk_groups add_child add_parent
connect_chunk_groups-children g parent child t e x y =
    let (ps, first, rest) = >>=-eq-some (modify g.chunk_groups parent (add_child child)) _ e in
    let (cs, second, more) = >>=-eq-some (modify ps child (add_parent parent)) _ rest in
    let (rs, third, last) = >>=-eq-some (modify g.runtime_chunk_group_children parent _) _ more in
    rw (← some_inj last) (
      ground (
        arith,
        view-modify_same (λ (c : ChunkGroup). c.children) ps child _ cs x (λ a. refl) second,
        view-modify_added (λ (c : ChunkGroup). c.children) g.chunk_groups parent child _ ps x y
            (λ a. refl) first,
      ))

connect_runtime_chunk_groups-IsConsistent :
    (g : ChunkGraph) (parent child : ChunkGroupHandle) (t : ChunkGraph)
    → IsConsistent g
    → connect_runtime_chunk_groups g parent child ≡ some t
    → IsConsistent t × (t.chunk_groups ≡ g.chunk_groups)
unfolding connect_runtime_chunk_groups
connect_runtime_chunk_groups-IsConsistent g parent child t h e =
    let (rs, written, last) = >>=-eq-some (modify g.runtime_chunk_group_children parent _) _ e in
    let same = some_inj last in
    (
      subst IsConsistent same record {
        modules_size = h.modules_size;
        requirements_size = h.requirements_size;
        runtime_modules_size = h.runtime_modules_size;
        runtime_children_size = ground (
          arith,
          h.runtime_children_size,
          length-modify g.runtime_chunk_group_children parent _ rs written,
        );
        chunk_handles = h.chunk_handles;
        group_handles = h.group_handles;
        dual_modules = h.dual_modules;
        dual_groups = h.dual_groups;
        dual_links = h.dual_links;
        loaded = λ p c e. ground (
          arith,
          h.loaded p c,
          get_or-modify g.runtime_chunk_group_children parent _ rs p [] written,
          contains-push_unique (get_or g.runtime_chunk_group_children p []) child c,
        );
      },
      rw (← same) refl,
    )

-- Linking two groups of a consistent graph, when it returns, keeps the graph consistent, and keeps
-- the links to children free of cycles.
pub link_groups-IsAcyclic :
    (g : ChunkGraph) (parent child : ChunkGroupHandle) (t : ChunkGraph)
    → IsConsistent g
    → IsAcyclic g
    → child < length g.chunk_groups
    → link_groups g parent child ≡ some t
    → IsConsistent t × IsAcyclic t
unfolding link_groups IsAcyclic
link_groups-IsAcyclic g parent child t h acyclic low e =
    let (answer, returned, decides) = chunk_group_reaches_lem g h parent child low in
    elim (Bool-cases answer) [
      | inl loops ↦
          let kept =
            connect_runtime_chunk_groups-IsConsistent g parent child t h
              (rw (returned, loops) at e) in
          (
            kept.0,
            subst
                (λ gs.
                  (x y : ChunkGroupHandle)
                  → contains (view (λ (c : ChunkGroup). c.children) gs x) y ≡ true
                  → ¬ Reach (view (λ (c : ChunkGroup). c.children) gs) y x)
                (sym kept.1) acyclic,
          )
      | inr apart ↦
          let linked = rw (returned, apart) at e in
          (
            connect_chunk_groups-IsConsistent g parent child t h linked,
            acyclic_linked (children_of g) (children_of t) parent child
                (λ x y f. ground (arith, connect_chunk_groups-children g parent child t linked x y))
                acyclic (λ walk. ground (arith, decides.1 walk)),
          )
    ]

-- Linking two groups of a consistent graph returns.
pub link_groups_total :
    (g : ChunkGraph) (parent child : ChunkGroupHandle)
    → IsConsistent g
    → parent < length g.chunk_groups
    → child < length g.chunk_groups
    → is_some (link_groups g parent child) ≡ true
unfolding link_groups connect_chunk_groups connect_runtime_chunk_groups
link_groups_total g parent child h high low =
    let (answer, returned, _) = chunk_group_reaches_lem g h parent child low in
    let (rs, written) =
      modify_total g.runtime_chunk_group_children parent (λ cs. push_unique cs child)
        (omega (arith, h.runtime_children_size)) in
    let (ps, first) = modify_total g.chunk_groups parent (add_child child) high in
    let (cs, second) =
      modify_total ps child (add_parent parent)
        (omega (arith, length-modify g.chunk_groups parent _ ps first)) in
    elim (Bool-cases answer) [
      | inl loops ↦ rw (returned, loops, written) refl
      | inr apart ↦ rw (returned, apart, first, second, written) refl
    ]
