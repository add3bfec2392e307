-- ===== src/Runtime.antt =====
-- crates/unpack_core/src/runtime.rs: the runtime requirements of generated code as a set of bits, and
-- the runtime modules that a set of requirements calls for. The text of a runtime module is not
-- modelled.
mod Sets
pub mod Closure
mod Tests
use Prim.Native.String.{String}
use unpack.Prelude.{
  ℕ, zero, suc, ◌-◌, ◌^◌, Bool, true, false, Option, none, some, List, [], ◌∷◌, ◌==◌, nat_eq,
  bit_and, bit_or, retain, if◌then◌else◌, compare, Ordering,
}
use unpack.Prelude.Bits.{test_bit}
use unpack.Prelude.Sort.{cmp_str, then_cmp, sort_by}

pub data RuntimeRequirement : Type 0 where
  module_factories module_cache require define_property_getters has_own_property :
      RuntimeRequirement
  make_namespace_object ensure_chunk ensure_chunk_handlers get_chunk_filename : RuntimeRequirement
  module_factories_add_only return_exports_from_runtime : RuntimeRequirement

abbrev pub all_runtime_requirements : List RuntimeRequirement
all_runtime_requirements =
    RuntimeRequirement.module_factories ∷ RuntimeRequirement.module_cache
    ∷ RuntimeRequirement.require ∷ RuntimeRequirement.define_property_getters
    ∷ RuntimeRequirement.has_own_property ∷ RuntimeRequirement.make_namespace_object
    ∷ RuntimeRequirement.ensure_chunk ∷ RuntimeRequirement.ensure_chunk_handlers
    ∷ RuntimeRequirement.get_chunk_filename ∷ RuntimeRequirement.module_factories_add_only
    ∷ RuntimeRequirement.return_exports_from_runtime ∷ []

abbrev pub bit : RuntimeRequirement → ℕ
bit RuntimeRequirement.module_factories = 0
bit RuntimeRequirement.module_cache = 1
bit RuntimeRequirement.require = 2
bit RuntimeRequirement.define_property_getters = 3
bit RuntimeRequirement.has_own_property = 4
bit RuntimeRequirement.make_namespace_object = 5
bit RuntimeRequirement.ensure_chunk = 6
bit RuntimeRequirement.get_chunk_filename = 7
bit RuntimeRequirement.return_exports_from_runtime = 8
bit RuntimeRequirement.ensure_chunk_handlers = 9
bit RuntimeRequirement.module_factories_add_only = 10

-- `1 << self.bit()`
abbrev pub mask : RuntimeRequirement → ℕ
mask r = 2 ^ bit r

-- The `while` loop of `RUNTIME_REQUIREMENTS_MASK`.
abbrev mask_of : List RuntimeRequirement → ℕ → ℕ
mask_of [] acc = acc
mask_of (r ∷ rs) acc = mask_of rs (bit_or acc (mask r))

abbrev pub runtime_requirements_mask : ℕ
runtime_requirements_mask = mask_of all_runtime_requirements 0

pub record RuntimeRequirements : Type 0 where
  pub bits : ℕ

abbrev pub default_requirements : RuntimeRequirements
default_requirements = record { bits = 0 }

unfoldable pub contains_requirement : RuntimeRequirements → RuntimeRequirement → Bool
contains_requirement s r = test_bit s.bits (bit r)

unfoldable pub insert_requirement :
    RuntimeRequirements → RuntimeRequirement → RuntimeRequirements × Bool
insert_requirement s r = (record { bits = bit_or s.bits (mask r) }, bit_and s.bits (mask r) == 0)

unfoldable pub extend : RuntimeRequirements → RuntimeRequirements → RuntimeRequirements
extend s other = record { bits = bit_or s.bits other.bits }

unfoldable pub iter : RuntimeRequirements → List RuntimeRequirement
unfolding contains_requirement
iter s = retain (contains_requirement s) all_runtime_requirements

unfoldable pub to_mask : RuntimeRequirements → ℕ
to_mask s = s.bits

-- `!RUNTIME_REQUIREMENTS_MASK` is the complement in sixteen bits.
unfoldable pub from_mask : ℕ → Option RuntimeRequirements
from_mask m =
    if bit_and m (2 ^ 16 - 1 - runtime_requirements_mask) == 0
    then some (record { bits = m })
    else none

pub data RuntimeModuleStage : Type 0 where
  normal basic attach trigger : RuntimeModuleStage

-- The position in `RUNTIME_MODULE_STAGE_ORDER`.
abbrev pub stage_position : RuntimeModuleStage → ℕ
stage_position RuntimeModuleStage.normal = 0
stage_position RuntimeModuleStage.basic = 1
stage_position RuntimeModuleStage.attach = 2
stage_position RuntimeModuleStage.trigger = 3

pub data RuntimeModule : Type 0 where
  define_property_getters ensure_chunk get_chunk_filename has_own_property : RuntimeModule
  make_namespace_object module_factories_add_only require_chunk_loading : RuntimeModule

abbrev pub all_runtime_modules : List RuntimeModule
all_runtime_modules =
    RuntimeModule.define_property_getters ∷ RuntimeModule.get_chunk_filename
    ∷ RuntimeModule.has_own_property ∷ RuntimeModule.make_namespace_object
    ∷ RuntimeModule.module_factories_add_only ∷ RuntimeModule.ensure_chunk
    ∷ RuntimeModule.require_chunk_loading ∷ []

abbrev pub module_bit : RuntimeModule → ℕ
module_bit RuntimeModule.define_property_getters = 0
module_bit RuntimeModule.ensure_chunk = 1
module_bit RuntimeModule.get_chunk_filename = 2
module_bit RuntimeModule.has_own_property = 3
module_bit RuntimeModule.make_namespace_object = 4
module_bit RuntimeModule.module_factories_add_only = 5
module_bit RuntimeModule.require_chunk_loading = 6

-- `RuntimeModules(u8)`
abbrev pub RuntimeModules : Type 0
RuntimeModules = ℕ

unfoldable pub insert_module : RuntimeModules → RuntimeModule → RuntimeModules
insert_module ms m = bit_or ms (2 ^ module_bit m)

unfoldable pub iter_modules : RuntimeModules → List RuntimeModule
iter_modules ms = retain (λ m. test_bit ms (module_bit m)) all_runtime_modules

abbrev pub identifier : RuntimeModule → String
identifier RuntimeModule.define_property_getters = "webpack/runtime/define property getters"
identifier RuntimeModule.ensure_chunk = "webpack/runtime/ensure chunk"
identifier RuntimeModule.get_chunk_filename = "webpack/runtime/get javascript chunk filename"
identifier RuntimeModule.has_own_property = "webpack/runtime/hasOwnProperty shorthand"
identifier RuntimeModule.make_namespace_object = "webpack/runtime/make namespace object"
identifier RuntimeModule.module_factories_add_only = "webpack/runtime/module factories add only"
identifier RuntimeModule.require_chunk_loading = "webpack/runtime/require chunk loading"

abbrev pub stage : RuntimeModule → RuntimeModuleStage
stage RuntimeModule.ensure_chunk = RuntimeModuleStage.basic
stage RuntimeModule.require_chunk_loading = RuntimeModuleStage.attach
stage _ = RuntimeModuleStage.normal

abbrev pub prerequisites : RuntimeModule → List RuntimeRequirement
prerequisites RuntimeModule.define_property_getters = RuntimeRequirement.has_own_property ∷ []
prerequisites RuntimeModule.ensure_chunk = RuntimeRequirement.ensure_chunk_handlers ∷ []
prerequisites RuntimeModule.require_chunk_loading =
    RuntimeRequirement.get_chunk_filename ∷ RuntimeRequirement.module_factories_add_only
    ∷ RuntimeRequirement.has_own_property ∷ []
prerequisites _ = []

abbrev pub runtime_module_for_requirement : RuntimeRequirement → Option RuntimeModule
runtime_module_for_requirement RuntimeRequirement.define_property_getters =
    some RuntimeModule.define_property_getters
runtime_module_for_requirement RuntimeRequirement.has_own_property =
    some RuntimeModule.has_own_property
runtime_module_for_requirement RuntimeRequirement.make_namespace_object =
    some RuntimeModule.make_namespace_object
runtime_module_for_requirement RuntimeRequirement.ensure_chunk = some RuntimeModule.ensure_chunk
runtime_module_for_requirement RuntimeRequirement.ensure_chunk_handlers =
    some RuntimeModule.require_chunk_loading
runtime_module_for_requirement RuntimeRequirement.get_chunk_filename =
    some RuntimeModule.get_chunk_filename
runtime_module_for_requirement RuntimeRequirement.module_factories_add_only =
    some RuntimeModule.module_factories_add_only
runtime_module_for_requirement _ = none

-- `for prerequisite in module.prerequisites() { requirements.insert(*prerequisite); }`
unfoldable pub insert_all : RuntimeRequirements → List RuntimeRequirement → RuntimeRequirements
unfolding insert_requirement
insert_all s [] = s
insert_all s (r ∷ rs) = insert_all (insert_requirement s r).0 rs

abbrev pub Resolution : Type 0
Resolution = RuntimeRequirements × RuntimeModules

-- The body of the `for` loop of `resolve_runtime_modules`.
unfoldable pub resolve_requirement : Resolution → RuntimeRequirement → Resolution
unfolding insert_all insert_module
resolve_requirement (s, ms) r = elim (runtime_module_for_requirement r) [
  | none ↦ (s, ms)
  | some m ↦ (insert_all s (prerequisites m), insert_module ms m)
]

unfoldable pub resolve_round : Resolution → List RuntimeRequirement → Resolution
unfolding resolve_requirement
resolve_round st [] = st
resolve_round st (r ∷ rs) = resolve_round (resolve_requirement st r) rs

-- The `loop`; `none` means that the fuel ran out.
unfoldable pub resolve_loop : ℕ → Resolution → Option Resolution
unfolding iter resolve_round
resolve_loop zero st = none
resolve_loop (suc fuel) (s, ms) =
    let next = resolve_round (s, ms) (iter s) in
    let rest = resolve_loop fuel next in if next.0.bits == s.bits then some next else rest

abbrev pub compare_modules : RuntimeModule → RuntimeModule → Ordering
compare_modules a b =
    then_cmp (compare (stage_position (stage a)) (stage_position (stage b)))
      (cmp_str (identifier a) (identifier b))

-- A round that is not the last adds one of eleven requirements.
abbrev pub resolve_fuel : ℕ
resolve_fuel = 12

unfoldable pub resolve_runtime_modules :
    RuntimeRequirements → Option (RuntimeRequirements × List RuntimeModule)
resolve_runtime_modules direct = elim (resolve_loop resolve_fuel (direct, 0)) [
  | none ↦ none
  | some (s, ms) ↦ some (s, sort_by compare_modules (iter_modules ms))
]

unfoldable pub entry_startup_runtime_requirements : RuntimeRequirements
unfolding insert_all
entry_startup_runtime_requirements = insert_all default_requirements (
    RuntimeRequirement.module_factories ∷ RuntimeRequirement.module_cache
    ∷ RuntimeRequirement.require ∷ RuntimeRequirement.return_exports_from_runtime ∷ [])
