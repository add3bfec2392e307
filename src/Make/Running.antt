-- ===== src/Make/Running.antt =====
-- What a task of the make phase does to the state, whatever queue it is in.
use Prim.Native.String.{String}
use unpack.Prelude.{
  subst, string_eq, nat_eqb_iff, contains-push_unique, inr, ◌∙◌, sym, inl, Bool-cases, ltb_iff, ap,
  some_inj, ℕ, suc, ◌+◌, ◌<◌, ◌≤◌, true, Option, none, some, List, [], ◌∷◌, ◌≡◌, ◌==◌, ◌⊎◌, refl,
  arith, nat_eq, length, all, contains, if◌then◌else◌,
}
use unpack.Module.{ModuleHandle, ModuleIdentity, identity_eq}
use unpack.Make.{
  Module, ModuleGraphStorage, map, MakeState, MakeTask, QueuedDependency, AddModuleResult,
}
use unpack.Make.Tasks.{process_queued, Groups, FactorizeGroupKey}
use unpack.Make.Waits.{IsDeadlockFree}
use unpack.Make.Registered.{IsRegistered}
use unpack.Make.Adding.{Adds}
use unpack.Make.Steps.{tally}
use unpack.Make.Invariant.{IsSound, is_known, origin_below}

pub origin_in_range :
    (n : ℕ) (origin : Option ModuleHandle)
    → origin_below n origin ≡ true
    → (m : ModuleHandle) → origin ≡ some m
    → m < n
origin_in_range n none h m e = cc
origin_in_range n (some origin) h m e = ground (arith, some_inj e, ltb_iff origin n)

module _ {E : Type 0} where
  -- From `s` to `t`, where a task that builds `ended` modules made way for `children`: what is built is
  -- new and is to be built by one of them, or it was built before and not by the task.
  pub record Effect (s t : MakeState E) (ended : ModuleHandle → ℕ) (children : List (MakeTask E))
      : Type 0 where
    pub registered : IsRegistered t
    pub grows : length s.module_graph.modules ≤ length t.module_graph.modules
    pub known : all (is_known (length t.module_graph.modules)) children ≡ true
    pub waits : t.loader_waits ≡ s.loader_waits
    pub few : (h : ModuleHandle) → tally h children ≤ 1
    pub new :
        (h : ModuleHandle)
        → 1 ≤ tally h children
        → (h ≡ length s.module_graph.modules)
          × (length t.module_graph.modules ≡ suc (length s.module_graph.modules))
    pub building :
        (h : ModuleHandle)
        → contains t.building_modules h ≡ true
        → (tally h children ≡ 1) ⊎ ((contains s.building_modules h ≡ true) × (ended h ≡ 0))

  -- A state stays sound under what a task does, where the tasks that are left are those but the task, and
  -- its children.
  pub Effect-IsSound :
      (s t : MakeState E) (ended : ModuleHandle → ℕ) (children : List (MakeTask E))
      (left after : ModuleHandle → ℕ)
      → IsSound s left
      → Effect s t ended children
      → ((h : ModuleHandle) → ended h ≤ left h)
      → ((h : ModuleHandle) → after h + ended h ≡ left h + tally h children)
      → IsSound t after
  Effect-IsSound s t ended children left after h x inside balance = record {
    registered = x.registered;
    pending = λ m e. elim (x.building m e) [
      | inl child ↦ ground (arith, child, balance m, inside m, x.new m, h.low m)
      | inr (was, kept) ↦ omega (arith, balance m, kept, h.pending m was)
    ];
    once = λ m. ground (arith, balance m, h.once m, x.few m, x.new m, h.low m);
    low = λ m e. ground (arith, balance m, h.low m, x.new m, x.grows);
    waiters = λ m target e. omega (arith, x.grows, h.waiters m target (rw x.waits at e));
    waits = λ m target e. omega (arith, x.grows, h.waits m target (rw x.waits at e));
    free = subst IsDeadlockFree (sym x.waits) h.free;
  }

  -- The sets of paths do not matter to what is registered.
  pub extended-IsRegistered :
      (s : MakeState E) (files contexts missing : List String)
      → IsRegistered s
      → IsRegistered (record s {
        file_dependencies = files;
        context_dependencies = contexts;
        missing_dependencies = missing;
      })
  extended-IsRegistered s files contexts missing h = record {
    indexed = h.indexed;
    registered = h.registered;
    identified = h.identified;
  }

  -- The build of a module is started where it is new.
  pub added-Effect :
      (s u t : MakeState E) (result : AddModuleResult) (identity : ModuleIdentity)
      (resource : String)
      → u.module_graph ≡ s.module_graph
      → u.building_modules ≡ s.building_modules
      → u.loader_waits ≡ s.loader_waits
      → Adds u identity t result
      → Effect s t
          (λ h. 0)
          (if result.is_new then MakeTask.build result.module_handle identity resource ∷ [] else [])
  added-Effect s u t result identity resource graph building waits a =
      let size : length u.module_graph.modules ≡ length s.module_graph.modules =
        ap (λ (g : ModuleGraphStorage (Module E)). length g.modules) graph in
      elim (Bool-cases result.is_new) [
        | inl new ↦
            let (at, grown, pushed) = a.added new in
            rw new (record {
              registered = a.sound;
              grows = omega (arith, size, grown);
              known = ground (
                arith,
                size,
                grown,
                at,
                ltb_iff result.module_handle (length t.module_graph.modules),
              );
              waits = a.waits ∙ waits;
              few = λ h. ground arith;
              new = λ h e. ground (arith, size, grown, at, nat_eqb_iff result.module_handle h);
              building = λ h e. elim (Bool-cases (result.module_handle == h)) [
                | inl same ↦ inl (ground (arith, same))
                | inr apart ↦ inr (
                  ground (
                    arith,
                    apart,
                    pushed,
                    building,
                    contains-push_unique u.building_modules result.module_handle h,
                    nat_eqb_iff result.module_handle h,
                    nat_eqb_iff h result.module_handle,
                  ),
                  refl,
                )
              ];
            })
        | inr old ↦
            let (same, kept) = a.old old in
            rw old (record {
              registered = a.sound;
              grows = omega (arith, size, ap length same);
              known = refl;
              waits = a.waits ∙ waits;
              few = λ h. omega arith;
              new = λ h e. absurd (omega (arith, e));
              building = λ h e. inr (rw (kept ∙ building) at e, refl);
            })
      ]

module _ (E : Type 0) where
  pub process_queued-known :
      (n : ℕ) (handle : ModuleHandle) (context : String) (queued : List QueuedDependency)
      → handle < n
      → (all (is_known {E = E} n) (process_queued handle context queued) ≡ true)
        × ((h : ModuleHandle) → tally {E = E} h (process_queued handle context queued) ≡ 0)
  unfolding process_queued
  process_queued-known n handle context [] low = (refl, λ h. refl)
  process_queued-known n handle context (d ∷ rest) low =
      (ground (arith, ltb_iff handle n), λ h. omega arith)

  pub factorize-known :
      (n : ℕ) (origin : ModuleHandle) (context : String) (groups : Groups)
      → origin < n
      → (all (is_known {E = E} n) (
            map
              (λ (g : FactorizeGroupKey × List QueuedDependency).
                MakeTask.factorize (some origin) context g.1)
              groups)
          ≡ true)
        × ((h : ModuleHandle)
            → tally {E = E} h (
                map
                  (λ (g : FactorizeGroupKey × List QueuedDependency).
                    MakeTask.factorize (some origin) context g.1)
                  groups)
              ≡ 0)
  factorize-known n origin context [] low = (refl, λ h. refl)
  factorize-known n origin context (g ∷ groups) low =
      let (known, none_built) = factorize-known n origin context groups low in
      (ground (arith, known, ltb_iff origin n), λ h. omega (arith, none_built h))
