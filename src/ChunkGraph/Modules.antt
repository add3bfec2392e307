-- ===== src/ChunkGraph/Modules.antt =====
-- Operations of the chunk graph that move modules between chunks keep it consistent.
use unpack.Prelude.{
  contains, get_or, suc, ◌<◌, true, not, some, List, [], ◌∷◌, ◌≡◌, refl, arith, ◌==◌, nat_eq,
  length, push_unique, modify, retain, get_or, leb, leb_iff, contains-push_unique, contains-retain,
  modify_total, length-modify, get_or-modify, get_or-update, get_or-resize_with, length-resize_with,
  nat_eqb_iff, >>=-eq-some, some_inj, subst, inl, inr, is_some, Bool-cases, get,
}
use unpack.Module.{ModuleHandle}
use unpack.Chunk.{ChunkHandle}
use unpack.ChunkGraph.{
  ChunkGraph, ConcatenatedModule, inner_modules, make_room, connect_chunk_and_module,
  disconnect_chunk_and_module, disconnect_from_all, disconnect_inner, add_concatenated_module,
  module_chunks_of,
}
use unpack.ChunkGraph.Consistent.{IsConsistent}

make_room_fits : (g : ChunkGraph) (m : ModuleHandle) → m < length (make_room g m).module_chunks
unfolding make_room
make_room_fits g m = elim (Bool-cases (leb (length g.module_chunks) m)) [
  | inl short ↦ rw short (omega (arith, length-resize_with g.module_chunks (suc m) []))
  | inr enough ↦ rw enough (ground (arith, leb_iff (length g.module_chunks) m))
]

make_room-chunks : (g : ChunkGraph) (m : ModuleHandle) → (make_room g m).chunks ≡ g.chunks
unfolding make_room
make_room-chunks g m = elim (Bool-cases (leb (length g.module_chunks) m)) [
  | inl short ↦ rw short refl
  | inr enough ↦ rw enough refl
]

make_room-IsConsistent :
    (g : ChunkGraph) (m : ModuleHandle) → IsConsistent g → IsConsistent (make_room g m)
unfolding make_room
make_room-IsConsistent g m h = elim (Bool-cases (leb (length g.module_chunks) m)) [
  | inr enough ↦ rw enough h
  | inl short ↦ rw short (record {
    modules_size = h.modules_size;
    requirements_size = h.requirements_size;
    runtime_modules_size = h.runtime_modules_size;
    runtime_children_size = h.runtime_children_size;
    chunk_handles = h.chunk_handles;
    group_handles = h.group_handles;
    dual_modules = λ c n. ground (
      arith,
      h.dual_modules c n,
      get_or-resize_with g.module_chunks (suc m) n [],
      leb_iff (length g.module_chunks) m,
    );
    dual_groups = h.dual_groups;
    dual_links = h.dual_links;
    loaded = h.loaded;
  })
]

-- A call of `connect_chunk_and_module` that returns keeps the graph consistent, and the chunk then lists
-- the module and the module the chunk.
pub connect_chunk_and_module-IsConsistent :
    (g : ChunkGraph) (chunk : ChunkHandle) (m : ModuleHandle) (t : ChunkGraph)
    → IsConsistent g
    → connect_chunk_and_module g chunk m ≡ some t
    → IsConsistent t
      × (contains (get_or t.chunk_modules chunk []) m ≡ true)
      × (contains (get_or t.module_chunks m []) chunk ≡ true)
unfolding connect_chunk_and_module
connect_chunk_and_module-IsConsistent g chunk m t h e =
    let r = make_room g m in
    let k = make_room-IsConsistent g m h in
    let (ms, written, rest) = >>=-eq-some (modify r.chunk_modules chunk _) _ e in
    let (cs, pushed, last) = >>=-eq-some (modify r.module_chunks m _) _ rest in
    subst
      (λ (u : ChunkGraph).
        IsConsistent u
        × (contains (get_or u.chunk_modules chunk []) m ≡ true)
        × (contains (get_or u.module_chunks m []) chunk ≡ true))
      (some_inj last)
      (
        record {
          modules_size =
              ground (arith, k.modules_size, length-modify r.chunk_modules chunk _ ms written);
          requirements_size = k.requirements_size;
          runtime_modules_size = k.runtime_modules_size;
          runtime_children_size = k.runtime_children_size;
          chunk_handles = k.chunk_handles;
          group_handles = k.group_handles;
          dual_modules = λ c n. ground (
            arith,
            k.dual_modules c n,
            get_or-modify r.chunk_modules chunk _ ms c [] written,
            get_or-modify r.module_chunks m _ cs n [] pushed,
            contains-push_unique (get_or r.chunk_modules c []) m n,
            contains-push_unique (get_or r.module_chunks n []) chunk c,
          );
          dual_groups = k.dual_groups;
          dual_links = k.dual_links;
          loaded = k.loaded;
        },
        ground (
          arith,
          get_or-modify r.chunk_modules chunk _ ms chunk [] written,
          contains-push_unique (get_or r.chunk_modules chunk []) m m,
        ),
        ground (
          arith,
          get_or-modify r.module_chunks m _ cs m [] pushed,
          contains-push_unique (get_or r.module_chunks m []) chunk chunk,
        ),
      )

-- In a consistent graph `connect_chunk_and_module` returns for every chunk of the graph, whatever
-- the module.
pub connect_chunk_and_module_total :
    (g : ChunkGraph) (chunk : ChunkHandle) (m : ModuleHandle)
    → IsConsistent g
    → chunk < length g.chunks
    → is_some (connect_chunk_and_module g chunk m) ≡ true
unfolding connect_chunk_and_module
connect_chunk_and_module_total g chunk m h fits =
    let r = make_room g m in
    let k = make_room-IsConsistent g m h in
    let (ms, written) =
      modify_total r.chunk_modules chunk (λ xs. push_unique xs m)
        (ground (arith, k.modules_size, make_room-chunks g m)) in
    let (cs, pushed) =
      modify_total r.module_chunks m (λ xs. push_unique xs chunk) (make_room_fits g m) in
    rw (written, pushed)

-- A call of `disconnect_chunk_and_module` that returns keeps the graph consistent: both directions
-- are written.
pub disconnect_chunk_and_module-IsConsistent :
    (g : ChunkGraph) (chunk : ChunkHandle) (m : ModuleHandle) (t : ChunkGraph)
    → IsConsistent g
    → disconnect_chunk_and_module g chunk m ≡ some t
    → IsConsistent t
unfolding disconnect_chunk_and_module
disconnect_chunk_and_module-IsConsistent g chunk m t h e =
    let (ms, written, last) = >>=-eq-some (modify g.chunk_modules chunk _) _ e in
    subst IsConsistent (some_inj last) record {
      modules_size =
          ground (arith, h.modules_size, length-modify g.chunk_modules chunk _ ms written);
      requirements_size = h.requirements_size;
      runtime_modules_size = h.runtime_modules_size;
      runtime_children_size = h.runtime_children_size;
      chunk_handles = h.chunk_handles;
      group_handles = h.group_handles;
      dual_modules = λ c n. ground (
        arith,
        h.dual_modules c n,
        nat_eqb_iff m n,
        nat_eqb_iff n m,
        nat_eqb_iff chunk c,
        nat_eqb_iff c chunk,
        get_or-modify g.chunk_modules chunk _ ms c [] written,
        get_or-update g.module_chunks m (retain (λ x. not (x == chunk))) n [] refl,
        contains-retain (λ x. not (x == m)) (get_or g.chunk_modules c []) n,
        contains-retain (λ x. not (x == chunk)) (get_or g.module_chunks n []) c,
      );
      dual_groups = h.dual_groups;
      dual_links = h.dual_links;
      loaded = h.loaded;
    }

disconnect_from_all-IsConsistent :
    (g : ChunkGraph) (chunks : List ChunkHandle) (inner : ModuleHandle) (t : ChunkGraph)
    → IsConsistent g
    → disconnect_from_all g chunks inner ≡ some t
    → IsConsistent t
unfolding disconnect_from_all
disconnect_from_all-IsConsistent g [] inner t h e = subst IsConsistent (some_inj e) h
disconnect_from_all-IsConsistent g (chunk ∷ rest) inner t h e =
    let (u, first, later) = >>=-eq-some _ _ e in
    disconnect_from_all-IsConsistent u rest inner t
      (disconnect_chunk_and_module-IsConsistent g chunk inner u h first) later

disconnect_inner-IsConsistent :
    (g : ChunkGraph) (chunks : List ChunkHandle) (inner : List ModuleHandle) (t : ChunkGraph)
    → IsConsistent g
    → disconnect_inner g chunks inner ≡ some t
    → IsConsistent t
unfolding disconnect_inner
disconnect_inner-IsConsistent g chunks [] t h e = subst IsConsistent (some_inj e) h
disconnect_inner-IsConsistent g chunks (m ∷ rest) t h e =
    let (u, first, later) = >>=-eq-some _ _ e in
    disconnect_inner-IsConsistent u chunks rest t
      (disconnect_from_all-IsConsistent g chunks m u h first) later

-- A call of `add_concatenated_module` that returns keeps the graph consistent.
pub add_concatenated_module-IsConsistent :
    (g : ChunkGraph) (m : ConcatenatedModule) (t : ChunkGraph)
    → IsConsistent g
    → add_concatenated_module g m ≡ some t
    → IsConsistent t
unfolding add_concatenated_module
add_concatenated_module-IsConsistent g m t h e =
    let (u, first, later) =
      >>=-eq-some (disconnect_inner g (module_chunks_of g m.root_module) (inner_modules m)) _ e in
    let k =
      disconnect_inner-IsConsistent g (module_chunks_of g m.root_module) (inner_modules m) u h
        first in
    elim (Bool-cases (is_some (get m.root_module u.concatenated_modules))) [
      | inl twice ↦ cc (rw twice at later)
      | inr fresh ↦ subst IsConsistent (some_inj (rw fresh at later)) record {
        modules_size = k.modules_size;
        requirements_size = k.requirements_size;
        runtime_modules_size = k.runtime_modules_size;
        runtime_children_size = k.runtime_children_size;
        chunk_handles = k.chunk_handles;
        group_handles = k.group_handles;
        dual_modules = k.dual_modules;
        dual_groups = k.dual_groups;
        dual_links = k.dual_links;
        loaded = k.loaded;
      }
    ]
