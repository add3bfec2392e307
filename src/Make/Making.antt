-- ===== src/Make/Making.antt =====
-- What a loader does keeps the state of the make phase sound.
use unpack.Prelude.{
  sym, >>=-eq-some, ◌↔◌, Option-cases, subst, get-insert, get-remove, string_eq, nat_eqb_iff, inr,
  lt-length_of_get_elem?, ◌∙◌, inl, Bool-cases, some_inj, ◌<◌, ◌≤◌, ◌+◌, ℕ, Bool, true, false, none,
  some, List, [], ◌∷◌, ◌≡◌, refl, arith, nat_eq, length, get, insert, remove, all, if◌then◌else◌,
}
use unpack.Module.{ModuleHandle, identity_eq}
use unpack.Make.{
  MakeState, MakeTask, FactorizedModule, AddModuleResult, add_or_connect, loader_wait_creates_cycle,
  waits_for,
}
use unpack.Make.Tasks.{extend_set}
use unpack.Make.Waits.{IsDeadlockFree, loader_wait_creates_cycle_lem, insert_wait-IsDeadlockFree}
use unpack.Make.Adding.{Adds, add_or_connect_lem}
use unpack.Make.Steps.{
  Progress, tally, queued, load_module, wait_for_module, load_tasks, start_loader,
}
use unpack.Make.Invariant.{
  IsSound, IsMaking, left_of, is_known, tally-append, all-append, all_known_grows, same-IsSound,
}
use unpack.Make.Running.{Effect, Effect-IsSound, added-Effect, extended-IsRegistered}
use unpack.Worklist.Reach.{Reach}
use unpack.Worklist.Acyclic.{Reach-stuck, Reach-fewer}

module _ {E : Type 0} where
  -- A wait that closes no cycle was recorded.
  waiting-IsSound :
      (s : MakeState E) (left : ModuleHandle → ℕ) (origin target : ModuleHandle)
      → IsSound s left
      → origin < length s.module_graph.modules
      → target < length s.module_graph.modules
      → loader_wait_creates_cycle s origin target ≡ some false
      → IsSound (record s { loader_waits = insert origin target s.loader_waits }) left
  waiting-IsSound s left origin target h here there test =
      let at = λ (m : ModuleHandle). get-insert origin m target s.loader_waits in
      record {
        registered = record {
          indexed = h.registered.indexed;
          registered = h.registered.registered;
          identified = h.registered.identified;
        };
        pending = h.pending;
        once = h.once;
        low = h.low;
        waiters = λ m t e. ground (arith, at m, h.waiters m t, nat_eqb_iff origin m);
        waits = λ m t e. ground (arith, at m, h.waits m t, nat_eqb_iff origin m);
        free = insert_wait-IsDeadlockFree s origin target h.waits there h.free test;
      }

  -- A loader stopped waiting.
  pub loaded-IsSound :
      (s : MakeState E) (left : ModuleHandle → ℕ) (origin : ModuleHandle)
      → IsSound s left
      → IsSound (record s { loader_waits = remove origin s.loader_waits }) left
  unfolding IsDeadlockFree
  loaded-IsSound s left origin h =
      let at = λ (m : ModuleHandle). get-remove origin m s.loader_waits in
      record {
        registered = record {
          indexed = h.registered.indexed;
          registered = h.registered.registered;
          identified = h.registered.identified;
        };
        pending = h.pending;
        once = h.once;
        low = h.low;
        waiters = λ m t e. ground (arith, at m, h.waiters m t);
        waits = λ m t e. ground (arith, at m, h.waits m t);
        free = λ m t e walk. h.free m t (ground (arith, at m)) (
            Reach-fewer (waits_for s.loader_waits) (waits_for (remove origin s.loader_waits)) t m
              (λ x y f. ground (arith, at x)) walk);
      }

  -- A new module waits for nothing.
  new_closes_no_cycle :
      (s u : MakeState E) (left : ModuleHandle → ℕ) (origin : ModuleHandle)
      → IsSound s left
      → u.loader_waits ≡ s.loader_waits
      → origin < length s.module_graph.modules
      → ¬ Reach (waits_for u.loader_waits) (length s.module_graph.modules) origin
  new_closes_no_cycle s u left origin h same here walk =
      let n = length s.module_graph.modules in
      elim (Option-cases (get n u.loader_waits)) [
        | inl ends ↦ absurd (
            omega
              (arith, Reach-stuck (waits_for u.loader_waits) n origin (ground (arith, ends)) walk))
        | inr (t, waiting) ↦ absurd (omega (arith, h.waiters n t (rw same at waiting)))
      ]

  -- The module was added, and what is to be built for it has a queue.
  run-IsMaking :
      (p : Progress E) (t : MakeState E) (origin target : ModuleHandle) (tasks : List (MakeTask E))
      → IsMaking p
      → length p.state.module_graph.modules ≤ length t.module_graph.modules
      → IsSound t (λ h. left_of p h + tally h tasks)
      → all (is_known (length t.module_graph.modules)) tasks ≡ true
      → IsMaking (record p {
        state = t;
        loader_runs =
            record { origin = origin; module_handle = target; queue = tasks } ∷ p.loader_runs;
      })
  run-IsMaking p t origin target tasks h grows sound known =
      let n = length p.state.module_graph.modules in
      let k = length t.module_graph.modules in
      record {
        sound =
            same-IsSound t (λ m. left_of p m + tally m tasks) _ sound
              (λ m. omega (arith, tally-append m tasks (queued p.loader_runs)));
        main_known = all_known_grows n k p.main_queue grows h.main_known;
        background_known = all_known_grows n k p.background_queue grows h.background_known;
        runs_known = ground (
          arith,
          known,
          all-append (is_known k) tasks (queued p.loader_runs),
          all_known_grows n k (queued p.loader_runs) grows h.runs_known,
        );
      }

  after_load :
      (p : Progress E) (u : MakeState E) (added : AddModuleResult) (origin : ModuleHandle)
      (m : FactorizedModule) (answer : Bool)
      → IsMaking p
      → Effect p.state u (λ h. 0) (load_tasks m added)
      → (added.is_new ≡ true → added.module_handle ≡ length p.state.module_graph.modules)
      → origin < length p.state.module_graph.modules
      → added.module_handle < length u.module_graph.modules
      → loader_wait_creates_cycle u origin added.module_handle ≡ some answer
      → ((answer ≡ true) ↔ Reach (waits_for u.loader_waits) added.module_handle origin)
      → IsMaking (
          start_loader
            (record p {
              state =
                  if answer
                  then u
                  else record u { loader_waits = insert origin added.module_handle u.loader_waits };
            })
            origin
            m
            added
            answer)
  unfolding start_loader load_tasks
  after_load p u added origin m true h x fresh early there test decides =
      elim (Bool-cases added.is_new) [
        | inl new ↦ absurd (
            new_closes_no_cycle p.state u (left_of p) origin h.sound x.waits early
              (rw (fresh new) at decides.0 refl))
        | inr old ↦
            let n = length p.state.module_graph.modules in
            let k = length u.module_graph.modules in
            record {
              sound =
                  Effect-IsSound p.state u (λ y. 0) (load_tasks m added) (left_of p) (left_of p)
                    h.sound x (λ y. omega arith) (λ y. ground (arith, old));
              main_known = all_known_grows n k p.main_queue x.grows h.main_known;
              background_known = all_known_grows n k p.background_queue x.grows h.background_known;
              runs_known = all_known_grows n k (queued p.loader_runs) x.grows h.runs_known;
            }
      ]
  after_load p u added origin m false h x fresh early there test decides =
      run-IsMaking p (record u { loader_waits = insert origin added.module_handle u.loader_waits })
        origin added.module_handle (load_tasks m added) h x.grows
        (waiting-IsSound u (λ y. left_of p y + tally y (load_tasks m added)) origin
          added.module_handle
          (Effect-IsSound p.state u (λ y. 0) (load_tasks m added) (left_of p) _ h.sound x
            (λ y. omega arith) (λ y. omega arith))
          (omega (arith, x.grows)) there test)
        x.known

  pub loads-IsMaking :
      (p : Progress E) (origin : ModuleHandle) (m : FactorizedModule) (t : MakeState E)
      (result : AddModuleResult) (creates_cycle : Bool)
      → IsMaking p
      → 1 ≤ tally origin p.background_queue + tally origin (queued p.loader_runs)
      → load_module p.state origin m ≡ some (t, result, creates_cycle)
      → IsMaking (start_loader (record p { state = t }) origin m result creates_cycle)
  unfolding load_module wait_for_module load_tasks
  loads-IsMaking p origin m t result creates_cycle h running e =
      let n = length p.state.module_graph.modules in
      let early = h.sound.low origin (omega (arith, running)) in
      let s : MakeState E = record p.state {
        file_dependencies = extend_set p.state.file_dependencies m.file_dependencies;
        context_dependencies = extend_set p.state.context_dependencies m.context_dependencies;
        missing_dependencies = extend_set p.state.missing_dependencies m.missing_dependencies;
      } in
      let (u', added', returned, a') =
        add_or_connect_lem s none [] m.identity m.side_effect_free
          (extended-IsRegistered p.state s.file_dependencies s.context_dependencies
            s.missing_dependencies h.sound.registered)
          (λ x f. cc) in
      let ((u, added), was, rest) =
        >>=-eq-some (add_or_connect s none [] m.identity m.side_effect_free)
          (wait_for_module origin) e in
      let a : Adds s m.identity u added =
        subst (λ (r : MakeState E × AddModuleResult). Adds s m.identity r.0 r.1)
          (some_inj (sym returned ∙ was)) a' in
      let (found, at, _) = a.sound.identified m.identity added.module_handle a.found in
      let there = lt-length_of_get_elem? u.module_graph.modules added.module_handle at in
      let x : Effect p.state u (λ y. 0) (load_tasks m added) =
        added-Effect p.state s u added m.identity m.resource refl refl refl a in
      let (answer, test, decides) =
        loader_wait_creates_cycle_lem u origin added.module_handle
          (λ y z f. omega (arith, x.grows, h.sound.waits y z (rw a.waits at f))) there in
      let same = some_inj (rw (test, wait_for_module) at rest) in
      subst
        (λ (r : MakeState E × AddModuleResult × Bool).
          IsMaking (start_loader (record p { state = r.0 }) origin m r.1 r.2))
        same
        (after_load p u added origin m answer h x (λ new. (a.added new).0) early there test decides)
