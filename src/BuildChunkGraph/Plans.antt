-- ===== src/BuildChunkGraph/Plans.antt =====
-- `AsyncChunkPlan` of crates/unpack_core/src/build_chunk_graph.rs: the chunk of an imported module, the
-- groups that import it, and the modules that are loaded whichever of them asks for it.
pub mod Available
mod Tests
use unpack.Prelude.{
  nat_eqb_iff, arith, ◌↔◌, Eq, ℕ, ◌≡◌, Bool, nat_eq, list_eq, true, false, not, Option, none, some,
  List, [], ◌∷◌, ◌>>=◌, ◌==◌, ◌||◌, Map, get, insert, retain, push_unique,
}
use unpack.Module.{ModuleHandle}
use unpack.Chunk.{AsyncBlockOrigin, origin_eq}
use unpack.ModuleMask.{ModuleMask, mask_contains, insert_modules, intersect_with}

pub data LogicalChunkGroup : Type 0 where
  entrypoint : ℕ → LogicalChunkGroup
  async_chunk : ModuleHandle → LogicalChunkGroup

abbrev logical_eqb : LogicalChunkGroup → LogicalChunkGroup → Bool
logical_eqb (LogicalChunkGroup.entrypoint a) (LogicalChunkGroup.entrypoint b) = a == b
logical_eqb (LogicalChunkGroup.entrypoint a) (LogicalChunkGroup.async_chunk b) = false
logical_eqb (LogicalChunkGroup.async_chunk a) (LogicalChunkGroup.entrypoint b) = false
logical_eqb (LogicalChunkGroup.async_chunk a) (LogicalChunkGroup.async_chunk b) = a == b

pub logical_eqb_iff : (a b : LogicalChunkGroup) → (logical_eqb a b ≡ true) ↔ (a ≡ b)
logical_eqb_iff (LogicalChunkGroup.entrypoint a) (LogicalChunkGroup.entrypoint b) =
    ground (arith, nat_eqb_iff a b)
logical_eqb_iff (LogicalChunkGroup.entrypoint a) (LogicalChunkGroup.async_chunk b) = ground arith
logical_eqb_iff (LogicalChunkGroup.async_chunk a) (LogicalChunkGroup.entrypoint b) = ground arith
logical_eqb_iff (LogicalChunkGroup.async_chunk a) (LogicalChunkGroup.async_chunk b) =
    ground (arith, nat_eqb_iff a b)

instance abbrev pub logical_eq : Eq LogicalChunkGroup
logical_eq = record { eqb = logical_eqb; eqb_iff = logical_eqb_iff }

pub record AsyncParentPlan : Type 0 where
  pub resulting_available_modules : ModuleMask
  pub origins : List AsyncBlockOrigin

pub record AsyncChunkPlan : Type 0 where
  pub target : ModuleHandle
  pub static_modules : List ModuleHandle
  pub min_available_modules : ModuleMask
  pub resulting_available_modules : ModuleMask
  pub parents : Map LogicalChunkGroup AsyncParentPlan

abbrev pub Parents : Type 0
Parents = Map LogicalChunkGroup AsyncParentPlan

-- `#[derive(PartialEq)]` of `ModuleMask`
abbrev pub mask_eqb : ModuleMask → ModuleMask → Bool
mask_eqb a b = a.words == b.words

-- `AsyncChunkPlan::new`
unfoldable pub new_plan :
    ModuleHandle
    → List ModuleHandle
    → LogicalChunkGroup
    → ModuleMask
    → AsyncBlockOrigin
    → Option AsyncChunkPlan
unfolding insert_modules
new_plan target static_modules parent parent_resulting_available_modules origin = do
  resulting ← insert_modules parent_resulting_available_modules static_modules
  some (record {
    target = target;
    static_modules = static_modules;
    min_available_modules = parent_resulting_available_modules;
    resulting_available_modules = resulting;
    parents =
        (
          parent,
          record {
            resulting_available_modules = parent_resulting_available_modules;
            origins = origin ∷ [];
          },
        )
        ∷ [];
  })

-- The entry of a parent after `add_parent`.
unfoldable pub parent_plan :
    Parents → LogicalChunkGroup → ModuleMask → AsyncBlockOrigin → AsyncParentPlan
parent_plan parents parent mask origin =
    let origins : List AsyncBlockOrigin = elim (get parent parents) [
      | none ↦ []
      | some p ↦ p.origins
    ] in
    record { resulting_available_modules = mask; origins = push_unique origins origin }

-- `for parent in parents { min_available_modules.intersect_with(..) }`
unfoldable pub intersect_parents : ModuleMask → Parents → Option ModuleMask
unfolding intersect_with
intersect_parents mask [] = some mask
intersect_parents mask ((_, p) ∷ rest) = do
  next ← intersect_with mask p.resulting_available_modules
  intersect_parents next rest

-- No parent at all is a panic.
unfoldable pub min_of_parents : Parents → Option ModuleMask
unfolding intersect_parents
min_of_parents [] = none
min_of_parents ((_, p) ∷ rest) = intersect_parents p.resulting_available_modules rest

-- `AsyncChunkPlan::add_parent`; the Boolean is what it returns.
unfoldable pub add_plan_parent :
    AsyncChunkPlan
    → LogicalChunkGroup
    → ModuleMask
    → AsyncBlockOrigin
    → Option (AsyncChunkPlan × Bool)
unfolding parent_plan min_of_parents insert_modules
add_plan_parent plan parent parent_resulting_available_modules origin = do
  let parents =
      insert parent (parent_plan plan.parents parent parent_resulting_available_modules origin)
        plan.parents
  min_available ← min_of_parents parents
  resulting ← insert_modules min_available plan.static_modules
  some (
    record plan {
      min_available_modules = min_available;
      resulting_available_modules = resulting;
      parents = parents;
    },
    not (mask_eqb plan.min_available_modules min_available)
        || not (mask_eqb plan.resulting_available_modules resulting),
  )

-- The static modules that are put into the chunk.
unfoldable pub planned_modules : AsyncChunkPlan → List ModuleHandle
planned_modules plan =
    retain (λ m. not (mask_contains plan.min_available_modules m)) plan.static_modules
