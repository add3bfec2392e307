-- ===== src/BuildChunkGraph/Plans/Available.antt =====
-- The modules that the plan of an asynchronous chunk counts on are those that all its parents load.
use unpack.Prelude.{
  all_values_before-insert, contains-retain, list_eqb_iff, all_values-insert, ap, inr, get-insert,
  inl, Bool-cases, sym, ◌∙◌, all_values, map_option, subst, ℕ, ◌*◌, Bool, true, false, not, some,
  List, [], ◌∷◌, ◌≡◌, ◌==◌, ◌&&◌, ◌||◌, refl, arith, length, contains, all, ltb, get, nat_eq,
}
use unpack.Module.{ModuleHandle}
use unpack.Chunk.{AsyncBlockOrigin, origin_eq}
use unpack.ModuleMask.{ModuleMask, mask_contains}
use unpack.ModuleMask.Sets.{intersect_with_total, insert_modules_lem}
use unpack.BuildChunkGraph.Plans.{
  logical_eqb_iff, insert, nat_eqb_iff, LogicalChunkGroup, logical_eq, mask_eqb, AsyncParentPlan,
  AsyncChunkPlan, Parents, new_plan, parent_plan, intersect_parents, min_of_parents,
  add_plan_parent, planned_modules,
}

-- Every parent has loaded the module.
abbrev pub in_parents : Parents → ModuleHandle → Bool
in_parents parents x =
    all_values (λ (p : AsyncParentPlan). mask_contains p.resulting_available_modules x) parents

abbrev pub sized_parents : ℕ → Parents → Bool
sized_parents words parents =
    all_values (λ (p : AsyncParentPlan). length p.resulting_available_modules.words == words)
      parents

-- A plan over masks of as many words.
pub record IsPlanned (words : ℕ) (plan : AsyncChunkPlan) : Type 0 where
  pub size : length plan.min_available_modules.words ≡ words
  pub parents_size : sized_parents words plan.parents ≡ true
  pub static_low : all (λ m. ltb m (64 * words)) plan.static_modules ≡ true
  pub min_exact :
      (x : ModuleHandle) → mask_contains plan.min_available_modules x ≡ in_parents plan.parents x
  pub resulting_exact :
      (x : ModuleHandle)
      → mask_contains plan.resulting_available_modules x
        ≡ (mask_contains plan.min_available_modules x || contains plan.static_modules x)
  pub resulting_size : length plan.resulting_available_modules.words ≡ words

-- `AsyncChunkPlan::new` returns a plan that counts on what its only parent loads.
pub new_plan-IsPlanned :
    (words : ℕ) (target : ModuleHandle) (static_modules : List ModuleHandle)
    (parent : LogicalChunkGroup) (mask : ModuleMask) (origin : AsyncBlockOrigin)
    → length mask.words ≡ words
    → all (λ m. ltb m (64 * words)) static_modules ≡ true
    → (plan : AsyncChunkPlan) × (new_plan target static_modules parent mask origin ≡ some plan)
      × IsPlanned words plan
unfolding new_plan
new_plan-IsPlanned words target static_modules parent mask origin fits low =
    let (t, inserted, size, exact) =
      insert_modules_lem mask static_modules
        (subst (λ (n : ℕ). all (λ k. ltb k (64 * n)) static_modules ≡ true) (sym fits) low) in
    let plan : AsyncChunkPlan = record {
      target = target;
      static_modules = static_modules;
      min_available_modules = mask;
      resulting_available_modules = t;
      parents = (parent, record { resulting_available_modules = mask; origins = origin ∷ [] }) ∷ [];
    } in
    (
      plan,
      rw inserted refl,
      record {
        size = fits;
        parents_size = ground (arith, fits, nat_eqb_iff (length mask.words) words);
        static_low = low;
        min_exact = λ x. ground arith;
        resulting_exact = exact;
        resulting_size = size ∙ fits;
      },
    )

intersect_parents_lem :
    (words : ℕ) (mask : ModuleMask) (parents : Parents)
    → length mask.words ≡ words
    → sized_parents words parents ≡ true
    → (t : ModuleMask) × (intersect_parents mask parents ≡ some t)
      × (length t.words ≡ words)
      × ((x : ModuleHandle) → mask_contains t x ≡ (mask_contains mask x && in_parents parents x))
unfolding intersect_parents
intersect_parents_lem words mask [] fits sized = (mask, refl, fits, λ x. ground arith)
intersect_parents_lem words mask ((k, p) ∷ rest) fits sized =
    let (next, first, same, both) =
      intersect_with_total mask p.resulting_available_modules
        (ground (arith, fits, nat_eqb_iff (length p.resulting_available_modules.words) words)) in
    let (t, later, size, exact) =
      intersect_parents_lem words next rest (same ∙ fits) (ground arith) in
    (t, rw (first, later) refl, size, λ x. ground (arith, exact x, both x))

min_of_parents_lem :
    (words : ℕ) (k : LogicalChunkGroup) (p : AsyncParentPlan) (before : Parents)
    → sized_parents words before ≡ true
    → length p.resulting_available_modules.words ≡ words
    → (t : ModuleMask) × (min_of_parents (insert k p before) ≡ some t)
      × (length t.words ≡ words)
      × ((x : ModuleHandle) → mask_contains t x ≡ in_parents (insert k p before) x)
unfolding min_of_parents
min_of_parents_lem words k p [] sized fits =
    (p.resulting_available_modules, refl, fits, λ x. ground arith)
min_of_parents_lem words k p ((j, q) ∷ rest) sized fits = elim (Bool-cases (j == k)) [
  | inl same ↦
      rw same (intersect_parents_lem words p.resulting_available_modules rest fits (ground arith))
  | inr apart ↦ rw apart (
      intersect_parents_lem words q.resulting_available_modules (insert k p rest)
        (ground (arith, nat_eqb_iff (length q.resulting_available_modules.words) words))
        (ground (
          arith,
          all_values-insert
              (λ (r : AsyncParentPlan). length r.resulting_available_modules.words == words) k p
              rest,
          nat_eqb_iff (length p.resulting_available_modules.words) words,
        )))
]

-- What a call of `add_parent` does to a plan.
pub record AddsParent (words : ℕ) (plan t : AsyncChunkPlan) (changed : Bool)
    (parent : LogicalChunkGroup) (mask : ModuleMask) : Type 0 where
  pub planned : IsPlanned words t
  pub recorded :
      map_option (λ (p : AsyncParentPlan). p.resulting_available_modules) (get parent t.parents)
      ≡ some mask
  pub kept :
      (other : LogicalChunkGroup)
      → (parent == other) ≡ false
      → get other t.parents ≡ get other plan.parents
  pub shrinks :
      ((p : AsyncParentPlan)
        → get parent plan.parents ≡ some p
        → (x : ModuleHandle) → mask_contains mask x ≡ true
        → mask_contains p.resulting_available_modules x ≡ true)
      → (x : ModuleHandle) → mask_contains t.min_available_modules x ≡ true
      → mask_contains plan.min_available_modules x ≡ true
  pub unchanged :
      changed ≡ false
      → (t.min_available_modules ≡ plan.min_available_modules)
        × (t.resulting_available_modules ≡ plan.resulting_available_modules)

abbrev the_mask : List ℕ → ModuleMask
the_mask ws = record { words = ws }

same_words : (a b : ModuleMask) → a.words ≡ b.words → a ≡ b
same_words a b e = ap (λ (ws : List ℕ). the_mask ws) e

-- `add_parent` returns for masks of one size: it records what the parent loads now, the plan counts on
-- what all parents load, which is less than before where the parent loads less, and it says that
-- nothing changed only if both masks of the plan stay.
pub add_plan_parent_lem :
    (words : ℕ) (plan : AsyncChunkPlan) (parent : LogicalChunkGroup) (mask : ModuleMask)
    (origin : AsyncBlockOrigin)
    → IsPlanned words plan
    → length mask.words ≡ words
    → (t : AsyncChunkPlan) × (changed : Bool) × (add_plan_parent plan parent mask origin
        ≡ some (t, changed))
      × AddsParent words plan t changed parent mask
unfolding add_plan_parent parent_plan
add_plan_parent_lem words plan parent mask origin h fits =
    let p = parent_plan plan.parents parent mask origin in
    let (least, first, size, exact) =
      min_of_parents_lem words parent p plan.parents h.parents_size fits in
    let (resulting, second, size', exact') = insert_modules_lem least plan.static_modules (
      subst (λ (n : ℕ). all (λ k. ltb k (64 * n)) plan.static_modules ≡ true) (sym size)
        h.static_low) in
    let t = record plan {
      min_available_modules = least;
      resulting_available_modules = resulting;
      parents = insert parent p plan.parents;
    } in
    (
      t,
      not (mask_eqb plan.min_available_modules least)
          || not (mask_eqb plan.resulting_available_modules resulting),
      rw (first, second) refl,
      record {
        planned = record {
          size = size;
          parents_size = ground (
            arith,
            all_values-insert
                (λ (r : AsyncParentPlan). length r.resulting_available_modules.words == words)
                parent p plan.parents,
            h.parents_size,
            fits,
            nat_eqb_iff (length mask.words) words,
          );
          static_low = h.static_low;
          min_exact = exact;
          resulting_exact = exact';
          resulting_size = size' ∙ size;
        };
        recorded =
            ground (arith, get-insert parent parent p plan.parents, logical_eqb_iff parent parent);
        kept = λ other apart. ground (arith, get-insert parent other p plan.parents);
        shrinks = λ old x e. ground (
          arith,
          exact x,
          h.min_exact x,
          all_values_before-insert
              (λ (r : AsyncParentPlan). mask_contains r.resulting_available_modules x) parent p
              plan.parents (λ w g. old w g x),
        );
        unchanged = λ e. (
          same_words least plan.min_available_modules
              (ground (arith, list_eqb_iff plan.min_available_modules.words least.words)),
          same_words resulting plan.resulting_available_modules
              (ground (arith, list_eqb_iff plan.resulting_available_modules.words resulting.words)),
        );
      },
    )

-- The chunk of a plan holds the static modules that some parent does not load, and once it is loaded
-- the modules that are available are those of the chunk and those that all parents load.
pub planned_modules_lem :
    (words : ℕ) (plan : AsyncChunkPlan) (x : ModuleHandle)
    → IsPlanned words plan
    → (contains (planned_modules plan) x
        ≡ (contains plan.static_modules x && not (in_parents plan.parents x)))
      × (mask_contains plan.resulting_available_modules x
          ≡ (contains (planned_modules plan) x || in_parents plan.parents x))
unfolding planned_modules
planned_modules_lem words plan x h =
    let kept =
      contains-retain (λ m. not (mask_contains plan.min_available_modules m)) plan.static_modules
        x in
    (ground (arith, kept, h.min_exact x), ground (arith, kept, h.min_exact x, h.resulting_exact x))
