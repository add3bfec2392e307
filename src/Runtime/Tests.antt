-- ===== src/Runtime/Tests.antt =====
-- The runtime of an entry that ensures a chunk.
use unpack.Prelude.{true, none, some, List, [], ◌≡◌, refl, is_some}
use unpack.Prelude.Bits.{test_bit}
use unpack.Runtime.{
  RuntimeRequirement, RuntimeRequirements, RuntimeModule, insert_requirement, default_requirements,
  resolve_loop, iter_modules, resolve_runtime_modules,
}
use unpack.Runtime.Closure.{
  resolve_runtime_modules_total, Resolves, resolve_runtime_modules-Resolves,
}

abbrev direct : RuntimeRequirements
direct = (insert_requirement default_requirements RuntimeRequirement.ensure_chunk).0

abbrev resolved : RuntimeRequirements × List RuntimeModule
resolved = elim (resolve_runtime_modules direct) [ none ↦ (default_requirements, []) | some p ↦ p ]

resolved-returned : resolve_runtime_modules direct ≡ some (resolved.0, resolved.1)
unfolding resolve_runtime_modules resolve_loop iter_modules insert_requirement test_bit
resolved-returned = refl

resolve_runtime_modules_total_example : is_some (resolve_runtime_modules direct) ≡ true
resolve_runtime_modules_total_example = resolve_runtime_modules_total direct

resolve_runtime_modules-Resolves_example : Resolves direct resolved.0 resolved.1
resolve_runtime_modules-Resolves_example =
    resolve_runtime_modules-Resolves direct resolved.0 resolved.1 resolved-returned
