-- ===== src/Make/Made.antt =====
-- What the make phase has made, from its start with the entries to any moment of it.
use Prim.Native.String.{String}
use unpack.Prelude.{
  Bool-cases, inl, inr, ◌≤◌, string_eq, lt-length_of_get_elem?, ◌∙◌, sym, ap, some_inj, ℕ, suc,
  true, false, Option, none, some, List, [], ◌∷◌, ◌≡◌, refl, arith, nat_eq, length, contains,
  get_elem?, all, is_some,
}
use unpack.Dependency.{Dependency, ModuleDependency}
use unpack.Module.{Module, ModuleHandle, ModuleIdentity, identity_eq}
use unpack.ModuleGraph.Indexed.{IsIndexed-empty}
use unpack.Make.{
  push_unique, get, MakeTask, QueuedDependency, FactorizedModule, FactorizeTaskResult,
  default_make_state,
}
use unpack.Make.Tasks.{extend_set, run_add_success, run_add_failed}
use unpack.Make.Steps.{Progress, Steps, start, tally, queued}
use unpack.Make.Waits.{IsDeadlockFree}
use unpack.Make.Adding.{add_or_connect_lem}
use unpack.Make.Ending.{fail_module_build_lem}
use unpack.Make.Invariant.{
  IsMaking, IsSound, left_of, is_known, same-IsSound, schedule_all-IsMaking,
}
use unpack.Make.Running.{extended-IsRegistered, origin_in_range}
use unpack.Make.Stepping.{Steps-IsMaking}

-- `ModuleDependency::new(request, None)`
unfoldable pub new_dependency : String → ModuleDependency
new_dependency request = record {
  request = request;
  user_request = request;
  source_order = none;
  range = none;
  weak = false;
}

module _ {E : Type 0} where
  -- The loop of `run` over the entries.
  unfoldable pub entry_tasks : String → ℕ → List String → List (MakeTask E)
  unfolding new_dependency
  entry_tasks context index [] = []
  entry_tasks context index (request ∷ rest) =
      MakeTask.factorize none context (
        record {
          entry_index = some index;
          origin_block = none;
          origin_dependency_index = none;
          dependency = Dependency.entry (new_dependency request);
        }
        ∷ [])
      ∷ entry_tasks context (suc index) rest

module _ (E : Type 0) where
  entry_tasks-known :
      (n : ℕ) (context : String) (index : ℕ) (requests : List String)
      → (all (is_known {E = E} n) (entry_tasks context index requests) ≡ true)
        × ((h : ModuleHandle) → tally {E = E} h (entry_tasks context index requests) ≡ 0)
  unfolding entry_tasks
  entry_tasks-known n context index [] = (refl, λ h. refl)
  entry_tasks-known n context index (request ∷ rest) =
      let (known, none_built) = entry_tasks-known n context (suc index) rest in
      (known, λ h. omega (arith, none_built h))

module _ {E : Type 0} where
  default-IsSound : IsSound (default_make_state {E = E}) (λ h. 0)
  unfolding IsDeadlockFree
  default-IsSound = record {
    registered = record {
      indexed = IsIndexed-empty;
      registered = λ h m e. cc;
      identified = λ i h e. cc;
    };
    pending = λ m e. cc;
    once = λ h. omega arith;
    low = λ h e. absurd (omega (arith, e));
    waiters = λ m t e. cc;
    waits = λ m t e. cc;
    free = λ m t e walk. cc;
  }

  pub start-IsMaking :
      (context : String) (requests : List String)
      → IsMaking (start (default_make_state {E = E}) (entry_tasks context 0 requests))
  unfolding start
  start-IsMaking context requests =
      let (known, none_built) = entry_tasks-known E 0 context 0 requests in
      schedule_all-IsMaking
        (record {
          state = default_make_state {E = E};
          main_queue = [];
          background_queue = [];
          loader_runs = [];
          dropped = [];
        })
        (entry_tasks context 0 requests)
        (same-IsSound default_make_state (λ h. 0) _ default-IsSound
          (λ h. omega (arith, none_built h)))
        refl refl refl known

  -- What holds at any moment.
  pub record Made (p : Progress E) : Type 0 where
    pub one_module :
        (h k : ModuleHandle) (a b : Module E)
        → get_elem? p.state.module_graph.modules h ≡ some a
        → get_elem? p.state.module_graph.modules k ≡ some b
        → a.identity ≡ b.identity
        → h ≡ k
    pub built_once : (m : ModuleHandle) → left_of p m ≤ 1
    pub left_to_build :
        (m : ModuleHandle) → contains p.state.building_modules m ≡ true → 1 ≤ left_of p m
    pub no_deadlock : IsDeadlockFree p.state.loader_waits

  -- However the tasks of the entries and of what they lead to take turns, whatever they find and
  -- whichever of them return an error: two modules never have one identity, no module has two build tasks,
  -- be they in a queue or dropped with one, a module that counts as being built has one, and the waits
  -- that are recorded close no cycle.
  pub make_lem :
      (failed_module_identity : String → Dependency → ModuleIdentity) (context : String)
      (requests : List String) (p : Progress E)
      → Steps failed_module_identity (start default_make_state (entry_tasks context 0 requests)) p
      → Made p
  make_lem failed_module_identity context requests p walk =
      let h = Steps-IsMaking failed_module_identity _ p (start-IsMaking context requests) walk in
      record {
        one_module = λ i k a b at at' same. some_inj (
            sym (h.sound.registered.registered i a at)
            ∙ ap (λ j. get j p.state.modules_by_identity) same
            ∙ h.sound.registered.registered k b at');
        built_once = h.sound.once;
        left_to_build = h.sound.pending;
        no_deadlock = h.sound.free;
      }

  -- When no task is left, neither of `run` nor of a loader, a module does not count as being built, unless
  -- its build task was dropped with a queue in which a task returned an error.
  pub all_built :
      (failed_module_identity : String → Dependency → ModuleIdentity) (context : String)
      (requests : List String) (p : Progress E) (m : ModuleHandle)
      → Steps failed_module_identity (start default_make_state (entry_tasks context 0 requests)) p
      → p.main_queue ≡ []
      → p.background_queue ≡ []
      → queued p.loader_runs ≡ []
      → tally m p.dropped ≡ 0
      → contains p.state.building_modules m ≡ false
  all_built failed_module_identity context requests p m walk main behind inside kept =
      elim (Bool-cases (contains p.state.building_modules m)) [
        | inr not_built ↦ not_built
        | inl being_built ↦ absurd (
            omega (
              arith,
              ap (tally m) main,
              ap (tally m) behind,
              ap (tally m) inside,
              kept,
              (make_lem failed_module_identity context requests p walk).left_to_build m being_built,
            ))
      ]

  -- In a state that the make phase reaches, the task at the head of the main queue that adds a module
  -- returns, whether the module was found or not.
  pub run_add_total :
      (p : Progress E) (origin : Option ModuleHandle) (context : String)
      (dependencies : List QueuedDependency) (result : FactorizeTaskResult E)
      (rest : List (MakeTask E)) (m : FactorizedModule) (identity : ModuleIdentity) (error : E)
      → IsMaking p
      → p.main_queue ≡ MakeTask.add origin context dependencies result ∷ rest
      → (is_some (run_add_success p.state origin dependencies m) ≡ true)
        × (is_some (run_add_failed p.state origin dependencies identity error) ≡ true)
  unfolding run_add_success run_add_failed
  run_add_total p origin context dependencies result rest m identity error h e =
      let n = length p.state.module_graph.modules in
      let known : all (is_known n) (MakeTask.add origin context dependencies result ∷ rest) ≡ true =
        rw e at h.main_known in
      let below = origin_in_range n origin (ground (arith, known)) in
      let (t, added, returned, a) =
        add_or_connect_lem _ origin dependencies m.identity m.side_effect_free
          (extended-IsRegistered p.state (extend_set p.state.file_dependencies m.file_dependencies)
            (extend_set p.state.context_dependencies m.context_dependencies)
            (extend_set p.state.missing_dependencies m.missing_dependencies) h.sound.registered)
          below in
      let (u, failing, found, b) =
        add_or_connect_lem _ origin dependencies identity none
          (extended-IsRegistered p.state p.state.file_dependencies p.state.context_dependencies
            (push_unique p.state.missing_dependencies identity.resource) h.sound.registered)
          below in
      let (c, at, _) = b.sound.identified identity failing.module_handle b.found in
      let (v, failed, _) =
        fail_module_build_lem u failing.module_handle error "" b.sound
          (lt-length_of_get_elem? u.module_graph.modules failing.module_handle at) in
      (rw returned refl, rw (found, failed) refl)
