-- ===== src/Make/Tests.antt =====
-- One entry whose module is found and built, and two modules of which one waits for the other.
use Prim.Native.String.{String}
use unpack.Prelude.{
  nat_eqb_iff, ℕ, ◌<◌, Bool, true, false, none, some, List, [], ◌∷◌, ◌≡◌, ◌↔◌, refl, arith, nat_eq,
  length, contains, is_some, insert, retain,
}
use unpack.Dependency.{Dependency}
use unpack.Module.{ModuleHandle, ModuleIdentity, identity_of, new_content, default_parsed}
use unpack.ModuleGraph.{
  empty_storage, add_module, connect, index_origin, index_location, finish_module_build,
}
use unpack.Worklist.Reach.{Reach}
use unpack.Make.{
  get, MakeState, MakeTask, QueuedDependency, FactorizedModule, FactorizeTaskResult,
  AddModuleResult, default_make_state, waits_for, find_or_add, connect_all, add_or_connect,
  finish_build, cycle_loop, loader_wait_creates_cycle,
}
use unpack.Make.Tasks.{
  BuildOutcome, FactorizeGroupKey, ModuleFactoryKind, DependencyCategory,
  group_dependencies_for_factorization, run_add_success, run_add_failed, run_build, process_queued,
  process_dependencies_task, queue_dependencies, queue_blocks,
}
use unpack.Make.Waits.{IsDeadlockFree, loader_wait_creates_cycle_lem, insert_wait-IsDeadlockFree}
use unpack.Make.Adding.{Adds, add_or_connect_lem}
use unpack.Make.Steps.{
  Progress, LoaderRun, Runs, Fails, Step, Steps, start, schedule_all, schedule_make_task,
  is_background, tally, queued, load_module, wait_for_module, load_tasks, start_loader,
}
use unpack.Make.Invariant.{IsMaking}
use unpack.Make.Stepping.{Steps-IsMaking}
use unpack.Make.Made.{
  Made, new_dependency, entry_tasks, make_lem, all_built, start-IsMaking, run_add_total,
}
use unpack.Make.Groups.{group_of, has_key, group_dependencies-exact}

abbrev failed_identity : String → Dependency → ModuleIdentity
failed_identity context d = identity_of context

abbrev found_module : FactorizedModule
found_module = record {
  identity = identity_of "/src/a.js";
  resource = "/src/a.js";
  side_effect_free = none;
  file_dependencies = "/src/a.js" ∷ [];
  context_dependencies = [];
  missing_dependencies = [];
}

abbrev entry_dependency : QueuedDependency
entry_dependency = record {
  entry_index = some 0;
  origin_block = none;
  origin_dependency_index = none;
  dependency = Dependency.entry (new_dependency "./a");
}

abbrev begun : Progress ℕ
begun = start default_make_state (entry_tasks "/src" 0 ("./a" ∷ []))

abbrev success : FactorizeTaskResult ℕ
success = FactorizeTaskResult.success found_module

abbrev waiting : Progress ℕ
waiting =
    schedule_all (record begun { background_queue = [] })
      (MakeTask.add none "/src" (entry_dependency ∷ []) success ∷ [])

waiting_reached : Steps failed_identity begun waiting
unfolding start schedule_all schedule_make_task is_background entry_tasks
waiting_reached = Steps.more _ Steps.stay (
    Step.background (MakeTask.factorize none "/src" (entry_dependency ∷ [])) [] []
      default_make_state (MakeTask.add none "/src" (entry_dependency ∷ []) success ∷ []) refl
      (Runs.factorized none "/src" (entry_dependency ∷ []) success))

abbrev added : MakeState ℕ × List (MakeTask ℕ)
added = elim (run_add_success waiting.state none (entry_dependency ∷ []) found_module) [
  | none ↦ (default_make_state, [])
  | some r ↦ r
]

abbrev building : Progress ℕ
building = schedule_all (record waiting { state = added.0; main_queue = [] }) added.1

building_reached : Steps failed_identity begun building
unfolding start schedule_all schedule_make_task is_background entry_tasks run_add_success
    add_or_connect find_or_add connect_all add_module connect index_origin index_location
building_reached = Steps.more _ waiting_reached (
    Step.main (MakeTask.add none "/src" (entry_dependency ∷ []) success) [] added.0 added.1 refl
      (Runs.found none "/src" (entry_dependency ∷ []) found_module added.0 added.1 refl))

abbrev build_task : MakeTask ℕ
build_task = MakeTask.build 0 (identity_of "/src/a.js") "/src/a.js"

abbrev outcome : BuildOutcome ℕ
outcome = BuildOutcome.built (new_content default_parsed "export {}")

abbrev built : MakeState ℕ × List (MakeTask ℕ)
built = elim (run_build building.state 0 "/src" outcome) [
  | none ↦ (default_make_state, [])
  | some r ↦ r
]

abbrev finished : Progress ℕ
finished = schedule_all (record building { state = built.0; background_queue = [] }) built.1

finished_reached : Steps failed_identity begun finished
unfolding start schedule_all schedule_make_task is_background entry_tasks run_add_success
    add_or_connect find_or_add connect_all add_module connect index_origin index_location run_build
    finish_build finish_module_build process_queued process_dependencies_task queue_dependencies
    queue_blocks
finished_reached = Steps.more _ building_reached (
    Step.background build_task [] [] built.0 built.1 refl
      (Runs.built 0 (identity_of "/src/a.js") "/src/a.js" "/src" outcome built.0 built.1 refl))

nothing_left :
    (finished.main_queue ≡ [])
    × (finished.background_queue ≡ [])
    × (queued finished.loader_runs ≡ [])
    × (tally 0 finished.dropped ≡ 0)
unfolding start schedule_all schedule_make_task is_background entry_tasks run_add_success
    add_or_connect find_or_add connect_all add_module connect index_origin index_location run_build
    finish_build finish_module_build process_queued process_dependencies_task queue_dependencies
    queue_blocks new_content
nothing_left = (refl, refl, refl, refl)

-- The loader of the module asks for another one, whose build returns an error.
abbrev loaded_module : FactorizedModule
loaded_module = record found_module { identity = identity_of "/src/b.js"; resource = "/src/b.js" }

abbrev asked : MakeState ℕ × AddModuleResult × Bool
asked = elim (load_module building.state 0 loaded_module) [
  | none ↦ (default_make_state, record { module_handle = 0; is_new = false }, true)
  | some r ↦ r
]

abbrev inner_task : MakeTask ℕ
inner_task = MakeTask.build 1 (identity_of "/src/b.js") "/src/b.js"

abbrev inner_run : LoaderRun ℕ
inner_run = record { origin = 0; module_handle = 1; queue = inner_task ∷ [] }

abbrev loading : Progress ℕ
loading = start_loader (record building { state = asked.0 }) 0 loaded_module asked.1 asked.2

abbrev stuck : Progress ℕ
stuck = record loading { loader_runs = []; dropped = inner_task ∷ [] }

stuck_reached : Steps failed_identity begun stuck
unfolding start schedule_all schedule_make_task is_background entry_tasks run_add_success
    add_or_connect find_or_add connect_all add_module connect index_origin index_location
    load_module wait_for_module loader_wait_creates_cycle cycle_loop start_loader load_tasks
    identity_of
stuck_reached =
    Steps.more _
      (Steps.more _ building_reached
        (Step.loads 0 loaded_module asked.0 asked.1 asked.2 (omega arith) refl))
      (Step.not_loaded inner_run inner_task [] [] [] 7 refl refl (
        Fails.build_returned 1 (identity_of "/src/b.js") "/src/b.js" (BuildOutcome.returned 7) 7
          refl))

-- The module still counts as being built, and nothing builds it.
stuck_test :
    (contains stuck.state.building_modules 1 ≡ true)
    × (tally 1 stuck.background_queue ≡ 0)
    × (tally 1 stuck.dropped ≡ 1)
unfolding start schedule_all schedule_make_task is_background entry_tasks run_add_success
    add_or_connect find_or_add connect_all add_module connect index_origin index_location
    load_module wait_for_module loader_wait_creates_cycle cycle_loop start_loader load_tasks
    identity_of
stuck_test = (refl, refl, refl)

make_lem_example : Made stuck
make_lem_example = make_lem failed_identity "/src" ("./a" ∷ []) stuck stuck_reached

all_built_example : contains finished.state.building_modules 0 ≡ false
all_built_example =
    all_built failed_identity "/src" ("./a" ∷ []) finished 0 finished_reached nothing_left.0
      nothing_left.1 nothing_left.2 nothing_left.3

waiting-IsMaking : IsMaking waiting
waiting-IsMaking =
    Steps-IsMaking failed_identity begun waiting (start-IsMaking "/src" ("./a" ∷ []))
      waiting_reached

head_of_queue : waiting.main_queue ≡ MakeTask.add none "/src" (entry_dependency ∷ []) success ∷ []
unfolding start schedule_all schedule_make_task is_background entry_tasks
head_of_queue = refl

run_add_total_example :
    (is_some (run_add_success waiting.state none (entry_dependency ∷ []) found_module) ≡ true)
    × (is_some (run_add_failed waiting.state none (entry_dependency ∷ []) (identity_of "/src/a") 7)
        ≡ true)
run_add_total_example =
    run_add_total waiting none "/src" (entry_dependency ∷ []) success [] found_module
      (identity_of "/src/a") 7 waiting-IsMaking head_of_queue

building-IsMaking : IsMaking building
building-IsMaking =
    Steps-IsMaking failed_identity begun building (start-IsMaking "/src" ("./a" ∷ []))
      building_reached

add_or_connect_lem_example :
    (t : MakeState ℕ) × (result : AddModuleResult) × (add_or_connect building.state none
        (entry_dependency ∷ [])
        (identity_of "/src/a.js")
        none
      ≡ some (t, result))
    × Adds building.state (identity_of "/src/a.js") t result
add_or_connect_lem_example =
    add_or_connect_lem building.state none (entry_dependency ∷ []) (identity_of "/src/a.js") none
      building-IsMaking.sound.registered (λ m e. cc)

abbrev two_modules : MakeState ℕ
two_modules = record default_make_state {
  module_graph =
      (add_module (add_module empty_storage (identity_of "/src/a.js") none).0
        (identity_of "/src/b.js") none).0;
}

abbrev one_waits : MakeState ℕ
one_waits = record two_modules { loader_waits = (0, 1) ∷ [] }

waits_known :
    (m target : ModuleHandle)
    → get m one_waits.loader_waits ≡ some target
    → target < length one_waits.module_graph.modules
unfolding add_module
waits_known m target e = ground (arith, nat_eqb_iff 0 m)

in_range :
    (0 < length one_waits.module_graph.modules) × (1 < length two_modules.module_graph.modules)
unfolding add_module
in_range = (omega arith, omega arith)

loader_wait_creates_cycle_lem_example :
    (answer : Bool) × (loader_wait_creates_cycle one_waits 1 0 ≡ some answer)
    × ((answer ≡ true) ↔ Reach (waits_for one_waits.loader_waits) 0 1)
loader_wait_creates_cycle_lem_example =
    loader_wait_creates_cycle_lem one_waits 1 0 waits_known in_range.0

none_waits : IsDeadlockFree two_modules.loader_waits
unfolding IsDeadlockFree
none_waits m target e walk = cc

safe_to_wait : loader_wait_creates_cycle two_modules 0 1 ≡ some false
unfolding loader_wait_creates_cycle cycle_loop add_module
safe_to_wait = refl

insert_wait-IsDeadlockFree_example : IsDeadlockFree (insert 0 1 two_modules.loader_waits)
insert_wait-IsDeadlockFree_example =
    insert_wait-IsDeadlockFree two_modules 0 1 (λ m t e. cc) in_range.1 none_waits safe_to_wait

abbrev esm_key : FactorizeGroupKey
esm_key = record {
  factory = ModuleFactoryKind.normal;
  category = DependencyCategory.esm;
  resource_identifier = "context|module./a";
}

group_dependencies-exact_example :
    group_of esm_key (group_dependencies_for_factorization (entry_dependency ∷ []))
    ≡ retain (has_key esm_key) (entry_dependency ∷ [])
group_dependencies-exact_example = group_dependencies-exact esm_key (entry_dependency ∷ [])
