-- ===== src/Make/Waits.antt =====
-- `loader_wait_creates_cycle` finds out whether a module waits for another over any number of loaders.
use unpack.Prelude.{
  contains-push, some_inj, ap, inr, inl, Bool-cases, Option-cases, get-insert, nat_eqb_iff, some_of,
  ◌≤◌, ℕ, zero, suc, ◌<◌, Bool, true, false, some, List, [], ◌∷◌, ◌++◌, ◌≡◌, ◌↔◌, ◌==◌, refl, arith,
  nat_eq, length, contains, get, insert, Map,
}
use unpack.Module.{ModuleHandle}
use unpack.Worklist.{explore}
use unpack.Worklist.Measure.{Below, explore_total, unvisited}
use unpack.Worklist.Reach.{Reach, explore-Explored, Explored-decides}
use unpack.Worklist.Acyclic.{acyclic_linked}
use unpack.Make.{MakeState, waits_for, cycle_loop, loader_wait_creates_cycle}

-- Every module that waits, waits for a module of the graph.
abbrev pub WaitsBelow : ℕ → Map ModuleHandle ModuleHandle → Type 0
WaitsBelow n waits = (m target : ModuleHandle) → get m waits ≡ some target → target < n

-- No module waits for itself over any number of loaders.
unfoldable pub IsDeadlockFree : Map ModuleHandle ModuleHandle → Type 0
IsDeadlockFree waits =
    (m target : ModuleHandle)
    → contains (waits_for waits m) target ≡ true
    → ¬ Reach (waits_for waits) target m

module _ (waits : Map ModuleHandle ModuleHandle) (origin : ModuleHandle) where
  cycle_loop_of_explore :
      (fuel : ℕ) (current : ModuleHandle) (visited seen : List ModuleHandle) (found : Bool)
      → contains visited origin ≡ false
      → explore (waits_for waits) (λ m. m == origin) fuel (current ∷ []) visited
        ≡ some (found, seen)
      → cycle_loop fuel waits origin current visited ≡ some found
  unfolding cycle_loop explore
  cycle_loop_of_explore zero current visited seen found new e = cc
  cycle_loop_of_explore (suc zero) current visited seen found new e =
      elim (Bool-cases (current == origin)) [
        | inl ends ↦
            let other : contains visited current ≡ false =
              ground (arith, ap (contains visited) ((nat_eqb_iff current origin).0 ends)) in
            let same = some_inj (rw (ends, explore) at e) in
            rw (other, ends, cycle_loop) (ap (λ (p : Bool × List ℕ). some p.0) same)
        | inr goes ↦ absurd (cc (rw (goes, explore) at e))
      ]
  cycle_loop_of_explore (suc (suc fuel)) current visited seen found new e =
      elim (Bool-cases (current == origin)) [
        | inl ends ↦
            let other : contains visited current ≡ false =
              ground (arith, ap (contains visited) ((nat_eqb_iff current origin).0 ends)) in
            let same = some_inj (rw (ends, explore) at e) in
            rw (other, ends, cycle_loop) (ap (λ (p : Bool × List ℕ). some p.0) same)
        | inr goes ↦ elim (Bool-cases (contains visited current)) [
          | inl old ↦
              let same = some_inj (rw (goes, old, explore) at e) in
              rw (old, cycle_loop) (ap (λ (p : Bool × List ℕ). some p.0) same)
          | inr fresh ↦ elim (Option-cases (get current waits)) [
            | inl ends ↦
                let same = some_inj (rw (goes, fresh, ends, explore) at e) in
                rw (fresh, goes, ends, cycle_loop) (ap (λ (p : Bool × List ℕ). some p.0) same)
            | inr (next, waiting) ↦
                rw (fresh, goes, waiting, cycle_loop)
                  (cycle_loop_of_explore (suc fuel) next (visited ++ current ∷ []) seen found
                    (ground
                      (arith, contains-push visited current origin, nat_eqb_iff current origin))
                    (rw (goes, fresh, waiting, explore) at e))
          ]
        ]
      ]

  unvisited_waits : (n : ℕ) → unvisited (waits_for waits) n [] ≤ n
  unfolding unvisited
  unvisited_waits zero = omega arith
  unvisited_waits (suc n) = elim (Option-cases (get n waits)) [
    | inl ends ↦ ground (arith, unvisited_waits n)
    | inr (next, waiting) ↦ ground (arith, unvisited_waits n)
  ]

  waits_for-Below :
      (n : ℕ)
      → WaitsBelow n waits
      → (m : ModuleHandle) → Below (waits_for waits) n (waits_for waits m)
  waits_for-Below n below m target e = elim (Option-cases (get m waits)) [
    | inl ends ↦ ground arith
    | inr (next, waiting) ↦ ground (arith, below m next waiting, nat_eqb_iff next target)
  ]

module _ {E : Type 0} (s : MakeState E) (origin target : ModuleHandle) where
  -- Where modules wait for modules of the graph, the test returns, and it answers whether the target
  -- waits for the origin over any number of loaders.
  pub loader_wait_creates_cycle_lem :
      WaitsBelow (length s.module_graph.modules) s.loader_waits
      → target < length s.module_graph.modules
      → (answer : Bool) × (loader_wait_creates_cycle s origin target ≡ some answer)
        × ((answer ≡ true) ↔ Reach (waits_for s.loader_waits) target origin)
  unfolding loader_wait_creates_cycle
  loader_wait_creates_cycle_lem below low =
      let n = length s.module_graph.modules in
      let ((found, seen), ended) =
        some_of
          (explore (waits_for s.loader_waits) (λ m. m == origin) (suc (suc n)) (target ∷ []) [])
          (explore_total (waits_for s.loader_waits) (λ m. m == origin) n (suc (suc n)) (target ∷ [])
            [] (λ m l. waits_for-Below s.loader_waits origin n below m)
            (λ x e. ground (arith, nat_eqb_iff target x))
            (omega (arith, unvisited_waits s.loader_waits origin n))) in
      (
        found,
        cycle_loop_of_explore s.loader_waits origin (suc (suc n)) target [] seen found refl ended,
        Explored-decides (waits_for s.loader_waits) origin target found seen (
            explore-Explored (waits_for s.loader_waits) (λ m. m == origin) target (suc (suc n))
              found seen ended),
      )

  -- A wait that is recorded where the test says no leaves the loaders free of deadlocks.
  pub insert_wait-IsDeadlockFree :
      WaitsBelow (length s.module_graph.modules) s.loader_waits
      → target < length s.module_graph.modules
      → IsDeadlockFree s.loader_waits
      → loader_wait_creates_cycle s origin target ≡ some false
      → IsDeadlockFree (insert origin target s.loader_waits)
  unfolding IsDeadlockFree
  insert_wait-IsDeadlockFree below low free e =
      let (answer, returned, decides) = loader_wait_creates_cycle_lem below low in
      acyclic_linked (waits_for s.loader_waits) (waits_for (insert origin target s.loader_waits))
        origin target
        (λ x y f. ground (arith, get-insert origin x target s.loader_waits, nat_eqb_iff origin x))
        free (λ walk. ground (arith, decides.1 walk))
