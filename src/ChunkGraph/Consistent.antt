-- ===== src/ChunkGraph/Consistent.antt =====
-- The invariant of the chunk graph: every relation is stored in both directions and the two agree.
use unpack.Prelude.{
  ℕ, true, none, some, List, [], ◌∷◌, ◌++◌, ◌≡◌, refl, arith, ◌==◌, ◌&&◌, ◌||◌, nat_eq, length,
  contains, push_unique, modify, get_elem?, get_or, get_elem?-push, get_elem?-modify,
  contains-push_unique, modify_in_range, get_elem?-lt, get_elem?-ge, nat_eqb_iff, Option-cases, inl,
  inr,
}
use unpack.Module.{ModuleHandle}
use unpack.Chunk.{Chunk, ChunkHandle, ChunkGroup, ChunkGroupHandle}
use unpack.ChunkGraph.{ChunkGraph, default_graph}

-- A list of handles that element `i` holds.
abbrev pub view : {A : Type 0} → (A → List ℕ) → List A → ℕ → List ℕ
view f xs i = elim (get_elem? xs i) [ none ↦ [] | some a ↦ f a ]

abbrev pub groups_of : ChunkGraph → ChunkHandle → List ChunkGroupHandle
groups_of g c = view (λ (x : Chunk). x.groups) g.chunks c

abbrev pub chunks_of : ChunkGraph → ChunkGroupHandle → List ChunkHandle
chunks_of g group = view (λ (x : ChunkGroup). x.chunks) g.chunk_groups group

abbrev pub children_of : ChunkGraph → ChunkGroupHandle → List ChunkGroupHandle
children_of g group = view (λ (x : ChunkGroup). x.children) g.chunk_groups group

abbrev pub parents_of : ChunkGraph → ChunkGroupHandle → List ChunkGroupHandle
parents_of g group = view (λ (x : ChunkGroup). x.parents) g.chunk_groups group

pub record IsConsistent (g : ChunkGraph) : Type 0 where
  pub modules_size : length g.chunk_modules ≡ length g.chunks
  pub requirements_size : length g.chunk_runtime_requirements ≡ length g.chunks
  pub runtime_modules_size : length g.chunk_runtime_modules ≡ length g.chunks
  pub runtime_children_size : length g.runtime_chunk_group_children ≡ length g.chunk_groups
  pub chunk_handles : (i : ℕ) (c : Chunk) → get_elem? g.chunks i ≡ some c → c.handle ≡ i
  pub group_handles :
      (i : ℕ) (group : ChunkGroup) → get_elem? g.chunk_groups i ≡ some group → group.handle ≡ i
  pub dual_modules :
      (c : ChunkHandle) (m : ModuleHandle)
      → contains (get_or g.chunk_modules c []) m ≡ contains (get_or g.module_chunks m []) c
  pub dual_groups :
      (c : ChunkHandle) (group : ChunkGroupHandle)
      → contains (groups_of g c) group ≡ contains (chunks_of g group) c
  pub dual_links :
      (parent child : ChunkGroupHandle)
      → contains (children_of g parent) child ≡ contains (parents_of g child) parent
  pub loaded :
      (parent child : ChunkGroupHandle)
      → contains (children_of g parent) child ≡ true
      → contains (get_or g.runtime_chunk_group_children parent []) child ≡ true

pub IsConsistent-default : IsConsistent default_graph
IsConsistent-default = record {
  modules_size = refl;
  requirements_size = refl;
  runtime_modules_size = refl;
  runtime_children_size = refl;
  chunk_handles = λ i c e. cc;
  group_handles = λ i group e. cc;
  dual_modules = λ c m. refl;
  dual_groups = λ c group. refl;
  dual_links = λ parent child. refl;
  loaded = λ parent child e. cc;
}

module _ {A : Type 0} where
  pub view-push :
      (f : A → List ℕ) (xs : List A) (a : A) (i : ℕ)
      → f a ≡ []
      → view f (xs ++ a ∷ []) i ≡ view f xs i
  view-push f xs a i e =
      ground (arith, get_elem?-push xs a i, get_elem?-ge xs i, nat_eqb_iff (length xs) i)

  -- A write that leaves the list of every element as it is.
  pub view-modify_same :
      (f : A → List ℕ) (xs : List A) (i : ℕ) (w : A → A) (ys : List A) (j : ℕ)
      → ((a : A) → f (w a) ≡ f a)
      → modify xs i w ≡ some ys
      → view f ys j ≡ view f xs j
  view-modify_same f xs i w ys j same e = elim (Option-cases (get_elem? xs j)) [
    | inl out ↦ ground (arith, get_elem?-modify xs i w ys j e)
    | inr (a, at) ↦ ground (arith, get_elem?-modify xs i w ys j e, same a)
  ]

  -- A write that pushes `v` to the list of element `i` unless it is there.
  pub view-modify_added :
      (f : A → List ℕ) (xs : List A) (i v : ℕ) (w : A → A) (ys : List A) (j x : ℕ)
      → ((a : A) → f (w a) ≡ push_unique (f a) v)
      → modify xs i w ≡ some ys
      → contains (view f ys j) x ≡ (contains (view f xs j) x || (i == j && v == x))
  view-modify_added f xs i v w ys j x adds e = elim (Option-cases (get_elem? xs j)) [
    | inl out ↦
        let (b, at) = get_elem?-lt xs i (modify_in_range xs i w ys e) in
        ground (arith, get_elem?-modify xs i w ys j e, nat_eqb_iff i j)
    | inr (a, at) ↦
        ground (arith, get_elem?-modify xs i w ys j e, adds a, contains-push_unique (f a) v x)
  ]
