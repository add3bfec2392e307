-- ===== src/Make/Steps.antt =====
-- `run` of crates/unpack_core/src/make.rs as steps. The main queue is worked off in order; a background
-- task, which runs at the same time as others, takes effect at any moment. A loader of a module that is
-- built may ask for another module at any moment: what `load` then runs has a queue of its own, which is
-- worked off in order too. What follows a task is queued as soon as the task took effect: the order of the
-- program is one of the orders here. A task that returns an error takes down the queue that it is in.
use Prim.Native.String.{String}
use unpack.Prelude.{
  ℕ, ◌+◌, ◌≤◌, ◌==◌, Bool, true, false, Option, none, some, List, [], ◌∷◌, ◌++◌, ◌≡◌, ◌>>=◌,
  contains, nat_eq, insert, remove, if◌then◌else◌,
}
use unpack.Dependency.{Dependency}
use unpack.Module.{ModuleHandle, ModuleIdentity}
use unpack.Make.{
  MakeState, MakeTask, QueuedDependency, FactorizedModule, FactorizeTaskResult, AddModuleResult,
  add_or_connect, loader_wait_creates_cycle,
}
use unpack.Make.Tasks.{
  BuildOutcome, run_add_success, run_add_failed, run_build, run_process_dependencies, extend_set,
}

-- A call of `load` that waits for a module: whose loader asked, for which module, and the queue of what is
-- run for it.
pub record LoaderRun (E : Type 0) : Type 0 where
  pub origin : ModuleHandle
  pub module_handle : ModuleHandle
  pub queue : List (MakeTask E)

-- `dropped` is no value of the program: the tasks that were still in a queue when it was dropped.
pub record Progress (E : Type 0) : Type 0 where
  pub state : MakeState E
  pub main_queue : List (MakeTask E)
  pub background_queue : List (MakeTask E)
  pub loader_runs : List (LoaderRun E)
  pub dropped : List (MakeTask E)

module _ {E : Type 0} where
  abbrev pub builds_of : ModuleHandle → MakeTask E → ℕ
  builds_of h (MakeTask.factorize origin context dependencies) = 0
  builds_of h (MakeTask.add origin context dependencies result) = 0
  builds_of h (MakeTask.build handle identity resource) = if handle == h then 1 else 0
  builds_of h (MakeTask.process_dependencies origin context dependencies) = 0

  -- How many of the tasks build a module.
  abbrev pub tally : ModuleHandle → List (MakeTask E) → ℕ
  tally h [] = 0
  tally h (task ∷ rest) = builds_of h task + tally h rest

  -- The tasks in the queues of loaders.
  abbrev pub queued : List (LoaderRun E) → List (MakeTask E)
  queued [] = []
  queued (r ∷ rest) = r.queue ++ queued rest

  unfoldable pub is_background : MakeTask E → Bool
  is_background (MakeTask.factorize origin context dependencies) = true
  is_background (MakeTask.add origin context dependencies result) = false
  is_background (MakeTask.build handle identity resource) = true
  is_background (MakeTask.process_dependencies origin context dependencies) = false

  unfoldable pub schedule_make_task : Progress E → MakeTask E → Progress E
  unfolding is_background
  schedule_make_task p task =
      if is_background task
      then record p { background_queue = p.background_queue ++ task ∷ [] }
      else record p { main_queue = p.main_queue ++ task ∷ [] }

  unfoldable pub schedule_all : Progress E → List (MakeTask E) → Progress E
  unfolding schedule_make_task
  schedule_all p [] = p
  schedule_all p (child ∷ rest) = schedule_all (schedule_make_task p child) rest

  -- What `MakeLoaderModuleRunner::load` does under its first lock once the module was added: the wait is
  -- recorded unless it would close a cycle.
  unfoldable pub wait_for_module :
      ModuleHandle → MakeState E × AddModuleResult → Option (MakeState E × AddModuleResult × Bool)
  unfolding loader_wait_creates_cycle
  wait_for_module origin added =
      loader_wait_creates_cycle added.0 origin added.1.module_handle >>= λ creates_cycle. some (
        if creates_cycle then added.0 else record added.0 {
          loader_waits = insert origin added.1.module_handle added.0.loader_waits;
        },
        added.1,
        creates_cycle,
      )

  -- The block under that lock: the state, what was added, and whether to wait would close a cycle.
  unfoldable pub load_module :
      MakeState E → ModuleHandle → FactorizedModule → Option (MakeState E × AddModuleResult × Bool)
  unfolding add_or_connect wait_for_module
  load_module s origin m =
      add_or_connect
        (record s {
          file_dependencies = extend_set s.file_dependencies m.file_dependencies;
          context_dependencies = extend_set s.context_dependencies m.context_dependencies;
          missing_dependencies = extend_set s.missing_dependencies m.missing_dependencies;
        })
        none [] m.identity m.side_effect_free
      >>= wait_for_module origin

  -- What `load` builds, where it does not return an error.
  unfoldable pub load_tasks : FactorizedModule → AddModuleResult → List (MakeTask E)
  load_tasks m result =
      if result.is_new then MakeTask.build result.module_handle m.identity m.resource ∷ [] else []

  -- `load` returns an error where to wait would close a cycle, and else runs what is to be built.
  unfoldable pub start_loader :
      Progress E → ModuleHandle → FactorizedModule → AddModuleResult → Bool → Progress E
  unfolding load_tasks
  start_loader p origin m result true = p
  start_loader p origin m result false = record p {
    loader_runs =
        record {
          origin = origin;
          module_handle = result.module_handle;
          queue = load_tasks m result;
        }
        ∷ p.loader_runs;
  }

  -- A task of the main or of the background queue returned an error: it is recorded, and `run` returns it.
  unfoldable pub stop_run : Progress E → E → Progress E
  stop_run p error = record {
    state = record p.state { errors = p.state.errors ++ error ∷ [] };
    main_queue = [];
    background_queue = [];
    loader_runs = [];
    dropped = p.main_queue ++ (p.background_queue ++ (queued p.loader_runs ++ p.dropped));
  }

  -- The entries are factorized first.
  unfoldable pub start : MakeState E → List (MakeTask E) → Progress E
  unfolding schedule_all
  start s tasks =
      schedule_all
        (record {
          state = s;
          main_queue = [];
          background_queue = [];
          loader_runs = [];
          dropped = [];
        })
        tasks

module _ {E : Type 0} (failed_module_identity : String → Dependency → ModuleIdentity) where
  -- `MakeTask::run` where it returns what follows: what it does to the state, and the tasks.
  pub data Runs (s : MakeState E) : MakeTask E → MakeState E → List (MakeTask E) → Type 0 where
    found :
        (origin : Option ModuleHandle) (context : String) (dependencies : List QueuedDependency)
        (m : FactorizedModule) (t : MakeState E) (children : List (MakeTask E))
        → run_add_success s origin dependencies m ≡ some (t, children)
        → Runs s
            (MakeTask.add origin context dependencies (FactorizeTaskResult.success m))
            t
            children
    not_found :
        (origin : Option ModuleHandle) (context : String) (d : QueuedDependency)
        (dependencies : List QueuedDependency) (error : E) (t : MakeState E)
        (children : List (MakeTask E))
        → run_add_failed s origin
            (d ∷ dependencies)
            (failed_module_identity context d.dependency)
            error
          ≡ some (t, children)
        → Runs s
            (MakeTask.add origin context (d ∷ dependencies) (FactorizeTaskResult.failed error))
            t
            children
    processed :
        (origin : ModuleHandle) (context : String) (dependencies : List QueuedDependency)
        → Runs s
            (MakeTask.process_dependencies origin context dependencies)
            s
            (run_process_dependencies origin context dependencies)
    factorized :
        (origin : Option ModuleHandle) (context : String) (dependencies : List QueuedDependency)
        (result : FactorizeTaskResult E)
        → Runs s
            (MakeTask.factorize origin context dependencies)
            s
            (MakeTask.add origin context dependencies result ∷ [])
    built :
        (handle : ModuleHandle) (identity : ModuleIdentity) (resource issuer_context : String)
        (outcome : BuildOutcome E) (t : MakeState E) (children : List (MakeTask E))
        → run_build s handle issuer_context outcome ≡ some (t, children)
        → Runs s (MakeTask.build handle identity resource) t children

  -- `MakeTask::run` where it returns an error, which leaves the state as it is. The other tasks return
  -- none in a state that the phase reaches.
  pub data Fails : MakeTask E → E → Type 0 where
    not_factorized :
        (origin : Option ModuleHandle) (context : String) (dependencies : List QueuedDependency)
        (error : E)
        → Fails (MakeTask.factorize origin context dependencies) error
    build_returned :
        (handle : ModuleHandle) (identity : ModuleIdentity) (resource : String)
        (outcome : BuildOutcome E) (error : E)
        → outcome ≡ BuildOutcome.returned error
        → Fails (MakeTask.build handle identity resource) error

  pub data Step (p : Progress E) : Progress E → Type 0 where
    main :
        (task : MakeTask E) (rest : List (MakeTask E)) (t : MakeState E)
        (children : List (MakeTask E))
        → p.main_queue ≡ task ∷ rest
        → Runs p.state task t children
        → Step p (schedule_all (record p { state = t; main_queue = rest }) children)
    background :
        (task : MakeTask E) (before after : List (MakeTask E)) (t : MakeState E)
        (children : List (MakeTask E))
        → p.background_queue ≡ before ++ task ∷ after
        → Runs p.state task t children
        → Step p
            (schedule_all (record p { state = t; background_queue = before ++ after }) children)
    stopped :
        (task : MakeTask E) (before after : List (MakeTask E)) (error : E)
        → p.background_queue ≡ before ++ task ∷ after
        → Fails task error
        → Step p (stop_run p error)
    loads :
        (origin : ModuleHandle) (m : FactorizedModule) (t : MakeState E) (result : AddModuleResult)
        (creates_cycle : Bool)
        → 1 ≤ tally origin p.background_queue + tally origin (queued p.loader_runs)
        → load_module p.state origin m ≡ some (t, result, creates_cycle)
        → Step p (start_loader (record p { state = t }) origin m result creates_cycle)
    inside :
        (r : LoaderRun E) (task : MakeTask E) (rest : List (MakeTask E))
        (before after : List (LoaderRun E)) (t : MakeState E) (children : List (MakeTask E))
        → p.loader_runs ≡ before ++ r ∷ after
        → r.queue ≡ task ∷ rest
        → Runs p.state task t children
        → Step p (record p {
          state = t;
          loader_runs = before ++ (record r { queue = rest ++ children }) ∷ after;
        })
    not_loaded :
        (r : LoaderRun E) (task : MakeTask E) (rest : List (MakeTask E))
        (before after : List (LoaderRun E)) (error : E)
        → p.loader_runs ≡ before ++ r ∷ after
        → r.queue ≡ task ∷ rest
        → Fails task error
        → Step p (record p { loader_runs = before ++ after; dropped = r.queue ++ p.dropped })
    loaded :
        (r : LoaderRun E) (before after : List (LoaderRun E))
        → p.loader_runs ≡ before ++ r ∷ after
        → r.queue ≡ []
        → contains p.state.building_modules r.module_handle ≡ false
        → Step p (record p {
          state = record p.state { loader_waits = remove r.origin p.state.loader_waits };
          loader_runs = before ++ after;
        })

  pub data Steps (p : Progress E) : Progress E → Type 0 where
    stay : Steps p p
    more : {q : Progress E} (r : Progress E) → Steps p q → Step q r → Steps p r
