-- ===== src/ChunkGraph/Operations.antt =====
-- Operations of the chunk graph on chunks and groups keep it consistent.
use Prim.Native.String.{String}
use unpack.Prelude.{
  ℕ, Option, some, List, [], ◌∷◌, ◌≡◌, refl, arith, length, modify, get_elem?, get_elem?-push,
  get_elem?-modify, contains-push_unique, length-modify, length-append, get_or, get_or-push,
  get_or-modify, nat_eq, nat_eqb_iff, >>=-eq-some, some_inj, subst, Option-cases, inl, inr,
}
use unpack.Module.{ModuleHandle}
use unpack.Runtime.{default_requirements}
use unpack.Chunk.{
  Chunk, ChunkHandle, ChunkGroup, ChunkGroupHandle, ChunkGroupKind, AsyncBlockOrigin, new_chunk,
  new_group, push_chunk, add_group, add_parent, add_child,
}
use unpack.ChunkGraph.{
  ChunkGraph, add_chunk, add_chunk_group, connect_chunk_and_group, connect_chunk_groups,
  connect_runtime_chunk_groups,
}
use unpack.ChunkGraph.Consistent.{IsConsistent, view-push, view-modify_same, view-modify_added}

-- Adding a chunk keeps the graph consistent.
pub add_chunk-IsConsistent :
    (g : ChunkGraph) (name : Option String) (root_modules : List ModuleHandle)
    → IsConsistent g
    → IsConsistent (add_chunk g name root_modules).0
unfolding add_chunk new_chunk
add_chunk-IsConsistent g name root_modules h =
    let c = new_chunk (length g.chunks) name root_modules in
    let one_more = length-append g.chunks (c ∷ []) in
    record {
      modules_size =
          ground (arith, h.modules_size, length-append g.chunk_modules ([] ∷ []), one_more);
      requirements_size = ground (
        arith,
        h.requirements_size,
        length-append g.chunk_runtime_requirements (default_requirements ∷ []),
        one_more,
      );
      runtime_modules_size = ground (
        arith,
        h.runtime_modules_size,
        length-append g.chunk_runtime_modules ([] ∷ []),
        one_more,
      );
      runtime_children_size = h.runtime_children_size;
      chunk_handles = λ i d e. ground (
        arith,
        h.chunk_handles i d,
        get_elem?-push g.chunks c i,
        nat_eqb_iff (length g.chunks) i,
      );
      group_handles = h.group_handles;
      dual_modules = λ d m. ground (arith, h.dual_modules d m, get_or-push g.chunk_modules [] d);
      dual_groups = λ d group.
          ground
            (arith, h.dual_groups d group, view-push (λ (x : Chunk). x.groups) g.chunks c d refl);
      dual_links = h.dual_links;
      loaded = h.loaded;
    }

-- Adding a chunk group keeps the graph consistent.
pub add_chunk_group-IsConsistent :
    (g : ChunkGraph) (kind : ChunkGroupKind) (origin : Option AsyncBlockOrigin)
    → IsConsistent g
    → IsConsistent (add_chunk_group g kind origin).0
unfolding add_chunk_group new_group
add_chunk_group-IsConsistent g kind origin h =
    let c = new_group (length g.chunk_groups) kind origin in
    let still =
      λ (f : ChunkGroup → List ℕ) (i : ℕ) (e : f c ≡ []). view-push f g.chunk_groups c i e in
    record {
      modules_size = h.modules_size;
      requirements_size = h.requirements_size;
      runtime_modules_size = h.runtime_modules_size;
      runtime_children_size = ground (
        arith,
        h.runtime_children_size,
        length-append g.runtime_chunk_group_children ([] ∷ []),
        length-append g.chunk_groups (c ∷ []),
      );
      chunk_handles = h.chunk_handles;
      group_handles = λ i d e. ground (
        arith,
        h.group_handles i d,
        get_elem?-push g.chunk_groups c i,
        nat_eqb_iff (length g.chunk_groups) i,
      );
      dual_modules = h.dual_modules;
      dual_groups = λ d group.
          ground (arith, h.dual_groups d group, still (λ (x : ChunkGroup). x.chunks) group refl);
      dual_links = λ p d. ground (
        arith,
        h.dual_links p d,
        still (λ (x : ChunkGroup). x.children) p refl,
        still (λ (x : ChunkGroup). x.parents) d refl,
      );
      loaded = λ p d e. ground (
        arith,
        h.loaded p d,
        get_or-push g.runtime_chunk_group_children [] p,
        still (λ (x : ChunkGroup). x.children) p refl,
      );
    }

-- A write that keeps the handle of every element.
pub kept_handle :
    {A : Type 0} (f : A → ℕ) (xs : List A) (i : ℕ) (w : A → A) (ys : List A)
    → ((a : A) → f (w a) ≡ f a)
    → modify xs i w ≡ some ys
    → ((j : ℕ) (a : A) → get_elem? xs j ≡ some a → f a ≡ j)
    → (j : ℕ) (a : A) → get_elem? ys j ≡ some a
    → f a ≡ j
kept_handle f xs i w ys same e h j a at = elim (Option-cases (get_elem? xs j)) [
  | inl out ↦ ground (arith, get_elem?-modify xs i w ys j e)
  | inr (b, was) ↦ ground (arith, get_elem?-modify xs i w ys j e, same b, h j b was)
]

-- A call of `connect_chunk_and_group` that returns keeps the graph consistent: both directions are
-- written.
pub connect_chunk_and_group-IsConsistent :
    (g : ChunkGraph) (chunk : ChunkHandle) (group : ChunkGroupHandle) (t : ChunkGraph)
    → IsConsistent g
    → connect_chunk_and_group g chunk group ≡ some t
    → IsConsistent t
unfolding connect_chunk_and_group add_group push_chunk
connect_chunk_and_group-IsConsistent g chunk group t h e =
    let (chunks, written, rest) = >>=-eq-some (modify g.chunks chunk (add_group group)) _ e in
    let (groups, pushed, last) =
      >>=-eq-some (modify g.chunk_groups group (push_chunk chunk)) _ rest in
    let kept =
      λ (f : ChunkGroup → List ℕ) (i : ℕ) (s : (a : ChunkGroup) → f (push_chunk chunk a) ≡ f a).
        view-modify_same f g.chunk_groups group _ groups i s pushed in
    let sized = length-modify g.chunks chunk _ chunks written in
    subst IsConsistent (some_inj last) record {
      modules_size = ground (arith, h.modules_size, sized);
      requirements_size = ground (arith, h.requirements_size, sized);
      runtime_modules_size = ground (arith, h.runtime_modules_size, sized);
      runtime_children_size =
          ground
            (arith, h.runtime_children_size, length-modify g.chunk_groups group _ groups pushed);
      chunk_handles =
          kept_handle (λ (x : Chunk). x.handle) g.chunks chunk _ chunks (λ a. refl) written
            h.chunk_handles;
      group_handles =
          kept_handle (λ (x : ChunkGroup). x.handle) g.chunk_groups group _ groups (λ a. refl)
            pushed h.group_handles;
      dual_modules = h.dual_modules;
      dual_groups = λ c γ. ground (
        arith,
        h.dual_groups c γ,
        view-modify_added (λ (x : Chunk). x.groups) g.chunks chunk group _ chunks c γ (λ a. refl)
            written,
        view-modify_added (λ (x : ChunkGroup). x.chunks) g.chunk_groups group chunk _ groups γ c
            (λ a. refl) pushed,
      );
      dual_links = λ p c. ground (
        arith,
        h.dual_links p c,
        kept (λ (x : ChunkGroup). x.children) p (λ a. refl),
        kept (λ (x : ChunkGroup). x.parents) c (λ a. refl),
      );
      loaded = λ p c e.
          ground (arith, h.loaded p c, kept (λ (x : ChunkGroup). x.children) p (λ a. refl));
    }

-- A call of `connect_chunk_groups` that returns keeps the graph consistent: the parent, the child and
-- what the runtime of the parent loads are written.
pub connect_chunk_groups-IsConsistent :
    (g : ChunkGraph) (parent child : ChunkGroupHandle) (t : ChunkGraph)
    → IsConsistent g
    → connect_chunk_groups g parent child ≡ some t
    → IsConsistent t
unfolding connect_chunk_groups connect_runtime_chunk_groups add_child add_parent
connect_chunk_groups-IsConsistent g parent child t h e =
    let (ps, first, rest) = >>=-eq-some (modify g.chunk_groups parent (add_child child)) _ e in
    let (cs, second, more) = >>=-eq-some (modify ps child (add_parent parent)) _ rest in
    let (rs, third, last) = >>=-eq-some (modify g.runtime_chunk_group_children parent _) _ more in
    let kept =
      λ (f : ChunkGroup → List ℕ) (i : ℕ) (s : (a : ChunkGroup) → f (add_child child a) ≡ f a).
        view-modify_same f g.chunk_groups parent _ ps i s first in
    let kept' =
      λ (f : ChunkGroup → List ℕ) (i : ℕ) (s : (a : ChunkGroup) → f (add_parent parent a) ≡ f a).
        view-modify_same f ps child _ cs i s second in
    let down = λ (p c : ℕ).
      view-modify_added (λ (x : ChunkGroup). x.children) g.chunk_groups parent child _ ps p c
        (λ a. refl) first in
    let up = λ (p c : ℕ).
      view-modify_added (λ (x : ChunkGroup). x.parents) ps child parent _ cs c p (λ a. refl)
        second in
    subst IsConsistent (some_inj last) record {
      modules_size = h.modules_size;
      requirements_size = h.requirements_size;
      runtime_modules_size = h.runtime_modules_size;
      runtime_children_size = ground (
        arith,
        h.runtime_children_size,
        length-modify g.chunk_groups parent _ ps first,
        length-modify ps child _ cs second,
        length-modify g.runtime_chunk_group_children parent _ rs third,
      );
      chunk_handles = h.chunk_handles;
      group_handles =
          kept_handle (λ (x : ChunkGroup). x.handle) ps child _ cs (λ a. refl) second
            (kept_handle (λ (x : ChunkGroup). x.handle) g.chunk_groups parent _ ps (λ a. refl) first
              h.group_handles);
      dual_modules = h.dual_modules;
      dual_groups = λ c γ. ground (
        arith,
        h.dual_groups c γ,
        kept (λ (x : ChunkGroup). x.chunks) γ (λ a. refl),
        kept' (λ (x : ChunkGroup). x.chunks) γ (λ a. refl),
      );
      dual_links = λ p c. ground (
        arith,
        h.dual_links p c,
        down p c,
        up p c,
        kept (λ (x : ChunkGroup). x.parents) c (λ a. refl),
        kept' (λ (x : ChunkGroup). x.children) p (λ a. refl),
      );
      loaded = λ p c e. ground (
        arith,
        h.loaded p c,
        down p c,
        kept' (λ (x : ChunkGroup). x.children) p (λ a. refl),
        get_or-modify g.runtime_chunk_group_children parent _ rs p [] third,
        contains-push_unique (get_or g.runtime_chunk_group_children p []) child c,
      );
    }
