-- ===== src/BuildChunkGraph/Plans/Tests.antt =====
-- A plan of a module that two groups import.
use unpack.Prelude.{Bool, some, [], ◌∷◌, ◌≡◌, ◌&&◌, ◌||◌, not, refl, contains, nat_eq}
use unpack.Chunk.{AsyncBlockOrigin}
use unpack.ModuleMask.{ModuleMask, mask_contains}
use unpack.BuildChunkGraph.Plans.{
  LogicalChunkGroup, AsyncChunkPlan, new_plan, add_plan_parent, planned_modules,
}
use unpack.BuildChunkGraph.Plans.Available.{
  IsPlanned, AddsParent, in_parents, new_plan-IsPlanned, add_plan_parent_lem, planned_modules_lem,
}

abbrev first_mask : ModuleMask
first_mask = record { words = 3 ∷ [] }

abbrev second_mask : ModuleMask
second_mask = record { words = 5 ∷ [] }

abbrev import_origin : AsyncBlockOrigin
import_origin = record { origin = 0; block = 0 }

abbrev main_group : LogicalChunkGroup
main_group = LogicalChunkGroup.entrypoint 0

abbrev planned :
    (plan : AsyncChunkPlan) × (new_plan 4 (1 ∷ 4 ∷ []) main_group first_mask import_origin
      ≡ some plan)
    × IsPlanned 1 plan
planned = new_plan-IsPlanned 1 4 (1 ∷ 4 ∷ []) main_group first_mask import_origin refl refl

add_plan_parent_lem_example :
    (t : AsyncChunkPlan) × (changed : Bool) × (add_plan_parent planned.0
        (LogicalChunkGroup.async_chunk 2)
        second_mask
        import_origin
      ≡ some (t, changed))
    × AddsParent 1 planned.0 t changed (LogicalChunkGroup.async_chunk 2) second_mask
add_plan_parent_lem_example =
    add_plan_parent_lem 1 planned.0 (LogicalChunkGroup.async_chunk 2) second_mask import_origin
      planned.2 refl

planned_modules_lem_example :
    (contains (planned_modules planned.0) 4
      ≡ (contains planned.0.static_modules 4 && not (in_parents planned.0.parents 4)))
    × (mask_contains planned.0.resulting_available_modules 4
        ≡ (contains (planned_modules planned.0) 4 || in_parents planned.0.parents 4))
planned_modules_lem_example = planned_modules_lem 1 planned.0 4 planned.2
