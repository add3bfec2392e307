-- ===== src/ChunkGraph/Split.antt =====
-- Splitting a chunk: the new chunk is loaded in every group of the chunk that was split.
use Prim.Native.String.{String}
use unpack.Prelude.{
  ℕ, Bool, false, Option, some, List, [], ◌∷◌, ◌≡◌, refl, ap, arith, ◌==◌, ◌&&◌, ◌||◌, nat_eq,
  length, contains, any, modify, get_elem?, get_elem?-modify, contains-push_unique, length-modify,
  nat_eqb_iff, >>=-eq-some, some_inj, subst, inl, inr, Bool-cases, get_elem?-ge,
}
use unpack.Module.{ModuleHandle}
use unpack.Chunk.{
  Chunk, new_chunk, ChunkHandle, ChunkGroup, ChunkGroupHandle, push_chunk, add_group, split,
}
use unpack.ChunkGraph.{ChunkGraph, add_chunk, split_into, split_all, add_split_chunk}
use unpack.ChunkGraph.Consistent.{
  IsConsistent, view, groups_of, view-modify_same, view-modify_added, view-push,
}
use unpack.ChunkGraph.Operations.{add_chunk-IsConsistent, kept_handle}

-- What a call of `split` that returns has done.
record Splits (gs : List ChunkGroupHandle) (c d : Chunk) (groups results : List ChunkGroup)
    : Type 0 where
  handle : d.handle ≡ c.handle
  size : length results ≡ length groups
  joined : (x : ChunkGroupHandle) → contains d.groups x ≡ (contains c.groups x || contains gs x)
  loads :
      (x : ChunkGroupHandle) (y : ChunkHandle)
      → contains (view (λ (g : ChunkGroup). g.chunks) results x) y ≡ (
          contains (view (λ (g : ChunkGroup). g.chunks) groups x) y
          || (contains gs x && c.handle == y))
  same_children :
      (x : ChunkGroupHandle)
      → view (λ (g : ChunkGroup). g.children) results x
        ≡ view (λ (g : ChunkGroup). g.children) groups x
  same_parents :
      (x : ChunkGroupHandle)
      → view (λ (g : ChunkGroup). g.parents) results x
        ≡ view (λ (g : ChunkGroup). g.parents) groups x
  group_handles :
      ((i : ℕ) (g : ChunkGroup) → get_elem? groups i ≡ some g → g.handle ≡ i)
      → (i : ℕ) (g : ChunkGroup) → get_elem? results i ≡ some g
      → g.handle ≡ i

split-Splits :
    (gs : List ChunkGroupHandle) (c d : Chunk) (groups results : List ChunkGroup)
    → split gs c groups ≡ some (d, results)
    → Splits gs c d groups results
unfolding split push_chunk add_group
split-Splits [] c d groups results e = record {
  handle = cc;
  size = ground arith;
  joined = λ x. ground arith;
  loads = λ x y. ground arith;
  same_children = λ x. ground arith;
  same_parents = λ x. ground arith;
  group_handles = λ h i g at. ground (arith, h i g);
}
split-Splits (γ ∷ rest) c d groups results e =
    let (pushed, written, later) = >>=-eq-some (modify groups γ (push_chunk c.handle)) _ e in
    let k = split-Splits rest (add_group γ c) d pushed results later in
    record {
      handle = k.handle;
      size = ground (arith, k.size, length-modify groups γ _ pushed written);
      joined = λ x. ground (arith, k.joined x, contains-push_unique c.groups γ x);
      loads = λ x y. ground (
        arith,
        k.loads x y,
        view-modify_added (λ (g : ChunkGroup). g.chunks) groups γ c.handle _ pushed x y (λ a. refl)
            written,
      );
      same_children = λ x. ground (
        arith,
        k.same_children x,
        view-modify_same (λ (g : ChunkGroup). g.children) groups γ _ pushed x (λ a. refl) written,
      );
      same_parents = λ x. ground (
        arith,
        k.same_parents x,
        view-modify_same (λ (g : ChunkGroup). g.parents) groups γ _ pushed x (λ a. refl) written,
      );
      group_handles = λ h.
          k.group_handles
            (kept_handle (λ (g : ChunkGroup). g.handle) groups γ _ pushed (λ a. refl) written h);
    }

split_into-IsConsistent :
    (g : ChunkGraph) (original : Chunk) (target : ChunkHandle) (t : ChunkGraph)
    → IsConsistent g
    → split_into g original target ≡ some t
    → IsConsistent t
unfolding split_into
split_into-IsConsistent g original target t h e =
    let (c, found, rest) = >>=-eq-some (get_elem? g.chunks target) _ e in
    let ((d, groups), done, more) = >>=-eq-some (split original.groups c g.chunk_groups) _ rest in
    let (chunks, written, last) = >>=-eq-some (modify g.chunks target (λ _. d)) _ more in
    let k = split-Splits original.groups c d g.chunk_groups groups done in
    let at = h.chunk_handles target c found in
    let here = λ (i : ℕ). get_elem?-modify g.chunks target (λ _. d) chunks i written in
    let sized = length-modify g.chunks target _ chunks written in
    subst IsConsistent (some_inj last) record {
      modules_size = ground (arith, h.modules_size, sized);
      requirements_size = ground (arith, h.requirements_size, sized);
      runtime_modules_size = ground (arith, h.runtime_modules_size, sized);
      runtime_children_size = ground (arith, h.runtime_children_size, k.size);
      chunk_handles =
          λ i b e. ground (arith, here i, h.chunk_handles i b, k.handle, nat_eqb_iff target i);
      group_handles = k.group_handles h.group_handles;
      dual_modules = h.dual_modules;
      dual_groups = λ x γ.
          ground (arith, here x, h.dual_groups x γ, k.loads γ x, k.joined γ, nat_eqb_iff target x);
      dual_links = λ p x. ground (arith, h.dual_links p x, k.same_children p, k.same_parents x);
      loaded = λ p x. ground (arith, h.loaded p x, k.same_children p);
    }

split_all-IsConsistent :
    (g : ChunkGraph) (sources : List ChunkHandle) (target : ChunkHandle) (t : ChunkGraph)
    → IsConsistent g
    → split_all g sources target ≡ some t
    → IsConsistent t
unfolding split_all
split_all-IsConsistent g [] target t h e = subst IsConsistent (some_inj e) h
split_all-IsConsistent g (source ∷ rest) target t h e =
    let (original, found, more) = >>=-eq-some (get_elem? g.chunks source) _ e in
    let (u, first, later) = >>=-eq-some (split_into g original target) _ more in
    split_all-IsConsistent u rest target t (split_into-IsConsistent g original target u h first)
      later

-- A call of `add_split_chunk` that returns keeps the graph consistent.
pub add_split_chunk-IsConsistent :
    (g : ChunkGraph) (sources : List ChunkHandle) (name : Option String)
    (root_modules : List ModuleHandle) (t : ChunkGraph) (target : ChunkHandle)
    → IsConsistent g
    → add_split_chunk g sources name root_modules ≡ some (t, target)
    → IsConsistent t
unfolding add_split_chunk
add_split_chunk-IsConsistent g sources name root_modules t target h e =
    let (added, handle) = add_chunk g name root_modules in
    let (u, first, last) = >>=-eq-some (split_all added sources handle) _ e in
    subst IsConsistent (ap (λ (p : ChunkGraph × ChunkHandle). p.0) (some_inj last)) (
      split_all-IsConsistent added sources handle u (add_chunk-IsConsistent g name root_modules h)
        first)

split_into_joins :
    (g : ChunkGraph) (original : Chunk) (target : ChunkHandle) (t : ChunkGraph)
    → split_into g original target ≡ some t
    → (x : ChunkGroupHandle)
    → contains (groups_of t target) x
      ≡ (contains (groups_of g target) x || contains original.groups x)
unfolding split_into
split_into_joins g original target t e x =
    let (c, found, rest) = >>=-eq-some (get_elem? g.chunks target) _ e in
    let ((d, groups), done, more) = >>=-eq-some (split original.groups c g.chunk_groups) _ rest in
    let (chunks, written, last) = >>=-eq-some (modify g.chunks target (λ _. d)) _ more in
    let k = split-Splits original.groups c d g.chunk_groups groups done in
    ground (
      arith,
      get_elem?-modify g.chunks target (λ _. d) chunks target written,
      k.joined x,
      nat_eqb_iff target target,
    )

split_into_keeps :
    (g : ChunkGraph) (original : Chunk) (target : ChunkHandle) (t : ChunkGraph)
    → split_into g original target ≡ some t
    → (source : ChunkHandle) → (target == source) ≡ false
    → groups_of t source ≡ groups_of g source
unfolding split_into
split_into_keeps g original target t e source apart =
    let (c, found, rest) = >>=-eq-some (get_elem? g.chunks target) _ e in
    let ((d, groups), done, more) = >>=-eq-some (split original.groups c g.chunk_groups) _ rest in
    let (chunks, written, last) = >>=-eq-some (modify g.chunks target (λ _. d)) _ more in
    ground (arith, get_elem?-modify g.chunks target (λ _. d) chunks source written)

any_absorb :
    (b : Bool) (f k : ℕ → Bool) (xs : List ℕ)
    → ((x : ℕ) → (b || f x) ≡ (b || k x))
    → (b || any f xs) ≡ (b || any k xs)
any_absorb b f k [] h = refl
any_absorb b f k (x ∷ xs) h = ground (arith, h x, any_absorb b f k xs h)

split_all_joins :
    (g : ChunkGraph) (sources : List ChunkHandle) (target : ChunkHandle) (t : ChunkGraph)
    → split_all g sources target ≡ some t
    → (x : ChunkGroupHandle)
    → contains (groups_of t target) x
      ≡ (contains (groups_of g target) x || any (λ source. contains (groups_of g source) x) sources)
unfolding split_all
split_all_joins g [] target t e x = ground arith
split_all_joins g (source ∷ rest) target t e x =
    let (original, found, more) = >>=-eq-some (get_elem? g.chunks source) _ e in
    let (u, first, later) = >>=-eq-some (split_into g original target) _ more in
    let joined = split_into_joins g original target u first x in
    let others =
      any_absorb (contains (groups_of u target) x) (λ s. contains (groups_of u s) x)
        (λ s. contains (groups_of g s) x) rest
        (λ s. elim (Bool-cases (target == s)) [
          | inl same ↦ ground (arith, joined, nat_eqb_iff target s)
          | inr apart ↦ ground (arith, split_into_keeps g original target u first s apart)
        ]) in
    ground (arith, split_all_joins u rest target t later x, joined, others)

-- The chunk that `add_split_chunk` makes belongs to exactly the groups that one of the source chunks
-- belongs to.
pub add_split_chunk_joins :
    (g : ChunkGraph) (sources : List ChunkHandle) (name : Option String)
    (root_modules : List ModuleHandle) (t : ChunkGraph) (target : ChunkHandle)
    → add_split_chunk g sources name root_modules ≡ some (t, target)
    → (x : ChunkGroupHandle)
    → contains (groups_of t target) x ≡ any (λ source. contains (groups_of g source) x) sources
unfolding add_split_chunk add_chunk new_chunk
add_split_chunk_joins g sources name root_modules t target e x =
    let (added, handle) = add_chunk g name root_modules in
    let (u, first, last) = >>=-eq-some (split_all added sources handle) _ e in
    let same = λ (i : ℕ).
      view-push (λ (c : Chunk). c.groups) g.chunks (new_chunk handle name root_modules) i refl in
    let fresh : groups_of g (length g.chunks) ≡ [] =
      ground (arith, get_elem?-ge g.chunks (length g.chunks)) in
    let others =
      any_absorb false (λ s. contains (groups_of added s) x) (λ s. contains (groups_of g s) x)
        sources (λ s. ap (λ (l : List ℕ). contains l x) (same s)) in
    ground
      (arith, split_all_joins added sources handle u first x, same (length g.chunks), fresh, others)
