-- ===== src/BuildChunkGraph/Linking/Reaches.antt =====
-- `chunk_group_reaches` decides whether a group can be reached over the links to children.
use unpack.Prelude.{
  contains-push, get_elem?-modify, contains-append, inr, lt-length_of_get_elem?, Bool-cases, inl,
  modify_total, ◌∙◌, Option-cases, get_elem?-lt, map_option, nat_eqb_iff, some_of, ℕ, zero, suc,
  ◌<◌, Bool, true, false, some, List, [], ◌∷◌, ◌++◌, ◌≡◌, ◌↔◌, ◌==◌, refl, arith, nat_eq, length,
  contains, get_elem?, replicate,
}
use unpack.Chunk.{ChunkGroupHandle}
use unpack.ChunkGraph.{ChunkGraph}
use unpack.ChunkGraph.Consistent.{IsConsistent, children_of}
use unpack.Worklist.{explore}
use unpack.Worklist.Measure.{Below, explore_total}
use unpack.Worklist.Reach.{Reach, explore-Explored, Explored-decides}
use unpack.BuildChunkGraph.Linking.{visit_group, reaches_loop, reaches_fuel, chunk_group_reaches}

get_elem?-replicate :
    {A : Type 0} (n : ℕ) (a : A) (i : ℕ) → i < n → get_elem? (replicate n a) i ≡ some a
get_elem?-replicate zero a i low = absurd (omega arith)
get_elem?-replicate (suc n) a zero low = refl
get_elem?-replicate (suc n) a (suc i) low = get_elem?-replicate n a i (omega arith)

module _ (g : ChunkGraph) (h : IsConsistent g) where
  children_of-Below :
      (group : ChunkGroupHandle)
      → Below (children_of g) (length g.chunk_groups) (children_of g group)
  children_of-Below group child e = elim (Option-cases (get_elem? g.chunk_groups child)) [
    | inl out ↦ absurd (ground (arith, h.dual_links group child))
    | inr (c, known) ↦ lt-length_of_get_elem? g.chunk_groups child known
  ]

  module _ (target : ChunkGroupHandle) where
    -- What stands in the vector of flags, and that the queue stays inside of the graph.
    record Agrees (pending : List ChunkGroupHandle) (visited : List Bool) (seen : List ℕ)
        : Type 0 where
      inside : Below (children_of g) (length g.chunk_groups) pending
      flags : (x : ℕ) → x < length g.chunk_groups → get_elem? visited x ≡ some (contains seen x)

    Agrees-pass :
        (group : ChunkGroupHandle) (pending : List ChunkGroupHandle) (visited : List Bool)
        (seen : List ℕ)
        → Agrees (group ∷ pending) visited seen
        → Agrees pending visited seen
    Agrees-pass group pending visited seen a = record {
      inside = λ x e. a.inside x (ground arith);
      flags = a.flags;
    }

    visit_group_lem :
        (group : ChunkGroupHandle) (pending : List ChunkGroupHandle) (visited : List Bool)
        (seen : List ℕ)
        → Agrees (group ∷ pending) visited seen
        → group < length g.chunk_groups
        → (marked : List Bool) × (visit_group g group pending visited
            ≡ some (pending ++ children_of g group, marked))
          × Agrees (pending ++ children_of g group) marked (seen ++ group ∷ [])
    unfolding visit_group
    visit_group_lem group pending visited seen a low =
        let (c, found) = get_elem?-lt g.chunk_groups group low in
        let is : children_of g group ≡ c.children = ground (arith, found) in
        let (marked, written) =
          modify_total visited group (λ _. true)
            (lt-length_of_get_elem? visited group (a.flags group low)) in
        (
          marked,
          rw (written, found, is) refl,
          record {
            inside = λ x e. elim (Bool-cases (contains pending x)) [
              | inl before ↦ a.inside x (ground arith)
              | inr pushed ↦
                  children_of-Below group x
                    (ground (arith, contains-append pending (children_of g group) x))
            ];
            flags = λ x low'. ground (
              arith,
              a.flags x low',
              get_elem?-modify visited group (λ _. true) marked x written,
              contains-push seen group x,
              nat_eqb_iff group x,
            );
          },
        )

    reaches_loop-explore :
        (fuel : ℕ) (pending : List ChunkGroupHandle) (visited : List Bool) (seen : List ℕ)
        → Agrees pending visited seen
        → reaches_loop fuel g target pending visited
          ≡ map_option
              (λ (p : Bool × List ℕ). p.0)
              (explore (children_of g) (λ x. x == target) fuel pending seen)
    unfolding reaches_loop explore
    reaches_loop-explore zero pending visited seen a = refl
    reaches_loop-explore (suc fuel) [] visited seen a = refl
    reaches_loop-explore (suc fuel) (group ∷ pending) visited seen a =
        let low = a.inside group (ground (arith, nat_eqb_iff group group)) in
        let (marked, visits, after) = visit_group_lem group pending visited seen a low in
        elim (Bool-cases (group == target)) [
          | inl ends ↦ rw (ends, reaches_loop, explore) refl
          | inr goes ↦ elim (Bool-cases (contains seen group)) [
            | inl old ↦
                rw (goes, a.flags group low, old, reaches_loop, explore)
                  (reaches_loop-explore fuel pending visited seen
                    (Agrees-pass group pending visited seen a))
            | inr new ↦
                rw (goes, a.flags group low, new, visits, reaches_loop, explore)
                  (reaches_loop-explore fuel (pending ++ children_of g group) marked
                    (seen ++ group ∷ []) after)
          ]
        ]

    Agrees-start :
        (start : ChunkGroupHandle)
        → start < length g.chunk_groups
        → Agrees (start ∷ []) (replicate (length g.chunk_groups) false) []
    Agrees-start start low = record {
      inside = λ x e. ground (arith, nat_eqb_iff start x);
      flags = λ x low'. get_elem?-replicate (length g.chunk_groups) false x low';
    }

    -- In a consistent graph `chunk_group_reaches` returns for every group of the graph, and it
    -- answers whether the target can be reached over any number of links to children.
    pub chunk_group_reaches_lem :
        (start : ChunkGroupHandle)
        → start < length g.chunk_groups
        → (answer : Bool) × (chunk_group_reaches g start target ≡ some answer)
          × ((answer ≡ true) ↔ Reach (children_of g) start target)
    unfolding chunk_group_reaches
    chunk_group_reaches_lem start low =
        let ((found, seen), ended) =
          some_of (explore (children_of g) (λ x. x == target) (reaches_fuel g) (start ∷ []) []) (
            explore_total (children_of g) (λ x. x == target) (length g.chunk_groups)
              (reaches_fuel g) (start ∷ []) [] (λ m l. children_of-Below m)
              (λ x e. ground (arith, nat_eqb_iff start x)) (omega arith)) in
        (
          found,
          reaches_loop-explore (reaches_fuel g) (start ∷ [])
                (replicate (length g.chunk_groups) false) [] (Agrees-start start low)
              ∙ rw ended refl,
          Explored-decides (children_of g) target start found seen (
              explore-Explored (children_of g) (λ x. x == target) start (reaches_fuel g) found seen
                ended),
        )
