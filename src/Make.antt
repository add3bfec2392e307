-- ===== src/Make.antt =====
-- `MakeState` of crates/unpack_core/src/make.rs and the tasks that change it. What a factory, a cache, a
-- file or a parser answers comes in as an outcome. A panic or an early error is `none`. The channel that
-- wakes who waits for a module is no value here: a module stands in `building_modules` until its build
-- ends.
pub mod Tasks
pub mod Waits
pub mod Registered
pub mod Adding
pub mod Ending
pub mod Steps
pub mod Invariant
pub mod Running
pub mod Effects
pub mod Making
pub mod Stepping
pub mod Made
pub mod Groups
mod Tests
use Prim.Native.String.{String}
use unpack.Prelude.{
  ℕ, zero, suc, Bool, true, false, not, Option, none, some, List, [], ◌∷◌, ◌++◌, ◌>>=◌, ◌==◌,
  nat_eq, length, contains, push_unique, retain, Map, get, insert, map,
}
use unpack.Dependency.{Dependency, module_dependency, is_module_dependency}
use unpack.Module.{
  Module, ModuleHandle, ModuleIdentity, BuiltModuleContent, ParsedModule, AsyncDependenciesBlock,
  identity_eq,
}
use unpack.ModuleGraph.{
  fail_module, ModuleGraphStorage, AsyncDependenciesBlockIndex, DependencyIndex, empty_storage,
  add_module, connect, finish_module_build,
}

pub record MakeState (E : Type 0) : Type 0 where
  pub module_graph : ModuleGraphStorage (Module E)
  pub entries : Map ℕ ModuleHandle
  pub errors : List E
  pub file_dependencies : List String
  pub context_dependencies : List String
  pub missing_dependencies : List String
  pub modules_by_identity : Map ModuleIdentity ModuleHandle
  pub building_modules : List ModuleHandle
  pub loader_waits : Map ModuleHandle ModuleHandle

pub record QueuedDependency : Type 0 where
  pub entry_index : Option ℕ
  pub origin_block : Option AsyncDependenciesBlockIndex
  pub origin_dependency_index : Option DependencyIndex
  pub dependency : Dependency

pub record AddModuleResult : Type 0 where
  pub module_handle : ModuleHandle
  pub is_new : Bool

pub record FactorizedModule : Type 0 where
  pub identity : ModuleIdentity
  pub resource : String
  pub side_effect_free : Option Bool
  pub file_dependencies : List String
  pub context_dependencies : List String
  pub missing_dependencies : List String

pub data FactorizeTaskResult (E : Type 0) : Type 0 where
  success : FactorizedModule → FactorizeTaskResult E
  failed : E → FactorizeTaskResult E

-- The loader of a `Build` task is asked for its outcome, and is no field.
pub data MakeTask (E : Type 0) : Type 0 where
  factorize : Option ModuleHandle → String → List QueuedDependency → MakeTask E
  add : Option ModuleHandle → String → List QueuedDependency → FactorizeTaskResult E → MakeTask E
  build : ModuleHandle → ModuleIdentity → String → MakeTask E
  process_dependencies : ModuleHandle → String → List QueuedDependency → MakeTask E

-- `self.loader_waits.get(&current).copied()` as what the module waits for.
abbrev pub waits_for : Map ModuleHandle ModuleHandle → ModuleHandle → List ModuleHandle
waits_for waits m = elim (get m waits) [ none ↦ [] | some target ↦ target ∷ [] ]

-- The `while` of `loader_wait_creates_cycle`; `none` means that the fuel ran out.
unfoldable pub cycle_loop :
    ℕ
    → Map ModuleHandle ModuleHandle
    → ModuleHandle
    → ModuleHandle
    → List ModuleHandle
    → Option Bool
cycle_loop zero waits origin current visited = none
cycle_loop (suc fuel) waits origin current visited = elim (contains visited current) [
  | true ↦ some false
  | false ↦ elim (current == origin) [
    | true ↦ some true
    | false ↦ elim (get current waits) [
      | none ↦ some false
      | some next ↦ cycle_loop fuel waits origin next (visited ++ current ∷ [])
    ]
  ]
]

-- The `if let Some(entry_index)` of `add_or_connect`.
abbrev pub enter : Map ℕ ModuleHandle → Option ℕ → ModuleHandle → Map ℕ ModuleHandle
enter entries none handle = entries
enter entries (some index) handle = insert index handle entries

module _ {E : Type 0} where
  abbrev pub default_make_state : MakeState E
  default_make_state = record {
    module_graph = empty_storage;
    entries = [];
    errors = [];
    file_dependencies = [];
    context_dependencies = [];
    missing_dependencies = [];
    modules_by_identity = [];
    building_modules = [];
    loader_waits = [];
  }

  -- A round for every module of the graph, and two more.
  unfoldable pub loader_wait_creates_cycle : MakeState E → ModuleHandle → ModuleHandle → Option Bool
  unfolding cycle_loop
  loader_wait_creates_cycle s origin target =
      cycle_loop (suc (suc (length s.module_graph.modules))) s.loader_waits origin target []

  -- The loop of `add_or_connect` over the dependencies.
  unfoldable pub connect_all :
      MakeState E
      → Option ModuleHandle
      → List QueuedDependency
      → ModuleHandle
      → Option (MakeState E)
  unfolding connect
  connect_all s origin [] handle = some s
  connect_all s origin (d ∷ rest) handle =
      connect s.module_graph origin d.origin_block d.origin_dependency_index d.dependency handle
      >>= λ g.
          connect_all
            (record s { module_graph = g; entries = enter s.entries d.entry_index handle }) origin
            rest handle

  -- What `add_or_connect` does first: the module of the identity, which is added where there is none.
  unfoldable pub find_or_add :
      MakeState E → ModuleIdentity → Option Bool → MakeState E × AddModuleResult
  unfolding add_module
  find_or_add s identity side_effect_free = elim (get identity s.modules_by_identity) [
    | some handle ↦ (s, record { module_handle = handle; is_new = false })
    | none ↦
        let (g, handle) = add_module s.module_graph identity side_effect_free in
        (
          record s {
            module_graph = g;
            modules_by_identity = insert identity handle s.modules_by_identity;
            building_modules = push_unique s.building_modules handle;
          },
          record { module_handle = handle; is_new = true },
        )
  ]

  unfoldable pub add_or_connect :
      MakeState E
      → Option ModuleHandle
      → List QueuedDependency
      → ModuleIdentity
      → Option Bool
      → Option (MakeState E × AddModuleResult)
  unfolding find_or_add connect_all
  add_or_connect s origin_module dependencies identity side_effect_free =
      let (found, result) = find_or_add s identity side_effect_free in
      connect_all found origin_module dependencies result.module_handle >>= λ t. some (t, result)

  -- `self.building_modules.remove(&module_handle)`
  abbrev pub remove_building : MakeState E → ModuleHandle → MakeState E
  remove_building s handle = record s {
    building_modules = retain (λ m. not (m == handle)) s.building_modules;
  }

  unfoldable pub finish_build :
      MakeState E → ModuleHandle → BuiltModuleContent → Option (MakeState E)
  unfolding finish_module_build
  finish_build s handle content = do
    g ← finish_module_build s.module_graph handle content
    some (remove_building (record s { module_graph = g }) handle)

  unfoldable pub fail_module_build : MakeState E → ModuleHandle → E → String → Option (MakeState E)
  unfolding fail_module
  fail_module_build s handle error source = do
    g ← fail_module s.module_graph handle error source
    some (record (remove_building (record s { module_graph = g }) handle) {
      errors = s.errors ++ error ∷ [];
    })
