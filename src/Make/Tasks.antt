-- ===== src/Make/Tasks.antt =====
-- The tasks of crates/unpack_core/src/make.rs: what `AddTask`, `BuildTask` and `ProcessDependenciesTask`
-- do to the state, and which tasks follow.

use Prim.Native.String.{String, ◌++◌ as concat}
use unpack.Prelude.{
  ℕ, suc, Bool, true, Option, none, some, List, [], ◌∷◌, ◌++◌, ◌>>=◌, ◌==◌, ◌≡◌, ◌↔◌, refl, Eq,
  string_eq, arith, map, push_unique, if◌then◌else◌,
}
use unpack.Dependency.{Dependency, module_dependency, is_module_dependency}
use unpack.Module.{
  ModuleHandle, ModuleIdentity, BuiltModuleContent, ParsedModule, AsyncDependenciesBlock,
}
use unpack.ModuleGraph.{AsyncDependenciesBlockIndex}
use unpack.Make.{
  MakeState, MakeTask, QueuedDependency, FactorizedModule, add_or_connect, finish_build,
  fail_module_build,
}

pub data ModuleFactoryKind : Type 0 where
  normal : ModuleFactoryKind

pub data DependencyCategory : Type 0 where
  esm : DependencyCategory

pub record FactorizeGroupKey : Type 0 where
  pub factory : ModuleFactoryKind
  pub category : DependencyCategory
  pub resource_identifier : String

abbrev key_eqb : FactorizeGroupKey → FactorizeGroupKey → Bool
key_eqb a b = a.resource_identifier == b.resource_identifier

same_factory : (a b : ModuleFactoryKind) → a ≡ b
same_factory ModuleFactoryKind.normal ModuleFactoryKind.normal = refl

same_category : (a b : DependencyCategory) → a ≡ b
same_category DependencyCategory.esm DependencyCategory.esm = refl

pub key_eqb_iff : (a b : FactorizeGroupKey) → (key_eqb a b ≡ true) ↔ (a ≡ b)
key_eqb_iff a b = ground (
  arith,
  string_eq.eqb_iff a.resource_identifier b.resource_identifier,
  same_factory a.factory b.factory,
  same_category a.category b.category,
)

instance abbrev pub key_eq : Eq FactorizeGroupKey
key_eq = record { eqb = key_eqb; eqb_iff = key_eqb_iff }

unfoldable pub resource_identifier : Dependency → Option String
unfolding module_dependency
resource_identifier d = do m ← module_dependency d; some (concat "context|module" m.request)

unfoldable pub factory_for_dependency : Dependency → Option ModuleFactoryKind
unfolding is_module_dependency
factory_for_dependency d = if is_module_dependency d then some ModuleFactoryKind.normal else none

unfoldable pub category_for_dependency : Dependency → Option DependencyCategory
unfolding is_module_dependency
category_for_dependency d = if is_module_dependency d then some DependencyCategory.esm else none

unfoldable pub key_for_dependency : Dependency → Option FactorizeGroupKey
unfolding factory_for_dependency category_for_dependency resource_identifier
key_for_dependency d = do
  factory ← factory_for_dependency d
  category ← category_for_dependency d
  identifier ← resource_identifier d
  some (record { factory = factory; category = category; resource_identifier = identifier })

abbrev pub Groups : Type 0
Groups = List (FactorizeGroupKey × List QueuedDependency)

-- The `if let` and the `else` in the loop of `group_dependencies_for_factorization`.
unfoldable pub push_to_group : FactorizeGroupKey → QueuedDependency → Groups → Groups
push_to_group key d [] = (key, d ∷ []) ∷ []
push_to_group key d ((k, group) ∷ rest) =
    let pushed = push_to_group key d rest in
    if k == key then (k, group ++ d ∷ []) ∷ rest else (k, group) ∷ pushed

unfoldable pub group_loop : Groups → List QueuedDependency → Groups
unfolding push_to_group key_for_dependency
group_loop groups [] = groups
group_loop groups (d ∷ rest) = elim (key_for_dependency d.dependency) [
  | none ↦ group_loop groups rest
  | some key ↦ group_loop (push_to_group key d groups) rest
]

unfoldable pub group_dependencies_for_factorization : List QueuedDependency → Groups
unfolding group_loop
group_dependencies_for_factorization dependencies = group_loop [] dependencies

-- `.enumerate().map(|(dependency_index, dependency)| QueuedDependency { .. })`
unfoldable pub queue_dependencies :
    Option AsyncDependenciesBlockIndex → ℕ → List Dependency → List QueuedDependency
queue_dependencies block index [] = []
queue_dependencies block index (d ∷ rest) =
    record {
      entry_index = none;
      origin_block = block;
      origin_dependency_index = some index;
      dependency = d;
    }
    ∷ queue_dependencies block (suc index) rest

-- The loop of `process_dependencies_task` over the blocks.
unfoldable pub queue_blocks : ℕ → List AsyncDependenciesBlock → List QueuedDependency
unfolding queue_dependencies
queue_blocks index [] = []
queue_blocks index (block ∷ rest) =
    queue_dependencies (some index) 0 block.dependencies ++ queue_blocks (suc index) rest

-- What came of the read, the loader, the parser and the snapshots, or of a cached record: the content, an
-- error of the module, or an error that `BuildTask::run` returns.
pub data BuildOutcome (E : Type 0) : Type 0 where
  built : BuiltModuleContent → BuildOutcome E
  not_built : E → String → BuildOutcome E
  returned : E → BuildOutcome E

-- `state.file_dependencies.extend(..)` of a hash set
abbrev pub extend_set : List String → List String → List String
extend_set set [] = set
extend_set set (path ∷ rest) = extend_set (push_unique set path) rest

module _ {E : Type 0} where
  -- The `if dependencies.is_empty()` of `process_dependencies_task`.
  unfoldable pub process_queued : ModuleHandle → String → List QueuedDependency → List (MakeTask E)
  process_queued handle issuer_context [] = []
  process_queued handle issuer_context (d ∷ rest) =
      MakeTask.process_dependencies handle issuer_context (d ∷ rest) ∷ []

  unfoldable pub process_dependencies_task :
      ModuleHandle → String → ParsedModule → List (MakeTask E)
  unfolding queue_dependencies queue_blocks process_queued
  process_dependencies_task handle issuer_context parsed = process_queued handle issuer_context (
      queue_dependencies none 0 parsed.dependencies_block.dependencies
      ++ queue_blocks 0 parsed.dependencies_block.blocks)

  -- `ProcessDependenciesTask::run`
  unfoldable pub run_process_dependencies :
      ModuleHandle → String → List QueuedDependency → List (MakeTask E)
  unfolding group_dependencies_for_factorization
  run_process_dependencies origin context dependencies =
      map
        (λ (g : FactorizeGroupKey × List QueuedDependency).
          MakeTask.factorize (some origin) context g.1)
        (group_dependencies_for_factorization dependencies)

  -- `AddTask::run` for a module that was found.
  unfoldable pub run_add_success :
      MakeState E
      → Option ModuleHandle
      → List QueuedDependency
      → FactorizedModule
      → Option (MakeState E × List (MakeTask E))
  unfolding add_or_connect
  run_add_success s origin dependencies m =
      add_or_connect
        (record s {
          file_dependencies = extend_set s.file_dependencies m.file_dependencies;
          context_dependencies = extend_set s.context_dependencies m.context_dependencies;
          missing_dependencies = extend_set s.missing_dependencies m.missing_dependencies;
        })
        origin dependencies m.identity m.side_effect_free
      >>= λ added. some (
        added.0,
        if added.1.is_new
            then MakeTask.build added.1.module_handle m.identity m.resource ∷ []
            else [],
      )

  -- `AddTask::run` for a module that was not found.
  unfoldable pub run_add_failed :
      MakeState E
      → Option ModuleHandle
      → List QueuedDependency
      → ModuleIdentity
      → E
      → Option (MakeState E × List (MakeTask E))
  unfolding add_or_connect fail_module_build
  run_add_failed s origin dependencies identity error =
      add_or_connect
        (record s { missing_dependencies = push_unique s.missing_dependencies identity.resource })
        origin dependencies identity none
      >>= λ added.
          fail_module_build added.0 added.1.module_handle error "" >>= λ failed. some (failed, [])

  -- How `BuildTask::run` ends; `none` is an error that it returns, before which it changes nothing.
  unfoldable pub run_build :
      MakeState E
      → ModuleHandle
      → String
      → BuildOutcome E
      → Option (MakeState E × List (MakeTask E))
  unfolding finish_build fail_module_build process_dependencies_task
  run_build s handle issuer_context (BuildOutcome.built content) =
      finish_build s handle content >>= λ t.
      some (t, process_dependencies_task handle issuer_context content.parsed)
  run_build s handle issuer_context (BuildOutcome.not_built error source) =
      fail_module_build s handle error source >>= λ t. some (t, [])
  run_build s handle issuer_context (BuildOutcome.returned error) = none
