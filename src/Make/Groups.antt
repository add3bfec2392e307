-- ===== src/Make/Groups.antt =====
-- `group_dependencies_for_factorization` sorts dependencies by what is to be resolved.
use unpack.Prelude.{
  Bool-cases, inr, inl, Option-cases, sym, Bool, true, not, none, some, List, [], ◌∷◌, ◌++◌, ◌≡◌,
  ◌==◌, ◌∙◌, refl, ap, arith, option_eq, get, retain, all, is_empty, if◌then◌else◌,
}
use unpack.Make.{QueuedDependency}
use unpack.Make.Tasks.{
  FactorizeGroupKey, key_eq, key_eqb_iff, Groups, key_for_dependency, push_to_group, group_loop,
  group_dependencies_for_factorization,
}

-- The dependencies of a key.
abbrev pub group_of : FactorizeGroupKey → Groups → List QueuedDependency
group_of key groups = elim (get key groups) [ none ↦ [] | some group ↦ group ]

abbrev pub has_key : FactorizeGroupKey → QueuedDependency → Bool
has_key key d = key_for_dependency d.dependency == some key

push_to_group-get :
    (key other : FactorizeGroupKey) (d : QueuedDependency) (groups : Groups)
    → group_of other (push_to_group key d groups)
      ≡ (if key == other then group_of other groups ++ d ∷ [] else group_of other groups)
unfolding push_to_group
push_to_group-get key other d [] = ground arith
push_to_group-get key other d ((k, group) ∷ rest) = ground (
  arith,
  push_to_group-get key other d rest,
  key_eqb_iff k key,
  key_eqb_iff k other,
  key_eqb_iff key other,
)

append_push : {A : Type 0} (xs : List A) (a : A) (ys : List A) → (xs ++ a ∷ []) ++ ys ≡ xs ++ a ∷ ys
append_push [] a ys = refl
append_push (x ∷ xs) a ys = ap (λ l. x ∷ l) (append_push xs a ys)

append_nothing : {A : Type 0} (xs : List A) → xs ++ [] ≡ xs
append_nothing [] = refl
append_nothing (x ∷ xs) = ap (λ l. x ∷ l) (append_nothing xs)

group_loop-get :
    (key : FactorizeGroupKey) (groups : Groups) (dependencies : List QueuedDependency)
    → group_of key (group_loop groups dependencies)
      ≡ group_of key groups ++ retain (has_key key) dependencies
unfolding group_loop
group_loop-get key groups [] = sym (append_nothing (group_of key groups))
group_loop-get key groups (d ∷ rest) = elim (Option-cases (key_for_dependency d.dependency)) [
  | inl skipped ↦ rw (skipped, group_loop) (group_loop-get key groups rest)
  | inr (k, keyed) ↦
      let later = group_loop-get key (push_to_group k d groups) rest in
      let pushed = push_to_group-get k key d groups in
      rw (keyed, group_loop)
        (later ∙ elim (Bool-cases (k == key)) [
          | inl same ↦
              let grown : group_of key (push_to_group k d groups) ≡ group_of key groups ++ d ∷ [] =
                ground (arith, pushed) in
              ap (λ l. l ++ retain (has_key key) rest) grown
              ∙ append_push (group_of key groups) d (retain (has_key key) rest)
              ∙ rw same refl
          | inr apart ↦
              let stays : group_of key (push_to_group k d groups) ≡ group_of key groups =
                ground (arith, pushed) in
              ap (λ l. l ++ retain (has_key key) rest) stays ∙ rw apart refl
        ])
]

-- The group of a key holds the dependencies with that key, in their order.
pub group_dependencies-exact :
    (key : FactorizeGroupKey) (dependencies : List QueuedDependency)
    → group_of key (group_dependencies_for_factorization dependencies)
      ≡ retain (has_key key) dependencies
unfolding group_dependencies_for_factorization
group_dependencies-exact key dependencies = group_loop-get key [] dependencies

abbrev pub all_filled : Groups → Bool
all_filled groups =
    all (λ (g : FactorizeGroupKey × List QueuedDependency). not (is_empty g.1)) groups

push_to_group-filled :
    (key : FactorizeGroupKey) (d : QueuedDependency) (groups : Groups)
    → all_filled groups ≡ true
    → all_filled (push_to_group key d groups) ≡ true
unfolding push_to_group
push_to_group-filled key d [] h = refl
push_to_group-filled key d ((k, []) ∷ rest) h = absurd (ground arith)
push_to_group-filled key d ((k, q ∷ group) ∷ rest) h =
    ground (arith, push_to_group-filled key d rest)

group_loop-filled :
    (groups : Groups) (dependencies : List QueuedDependency)
    → all_filled groups ≡ true
    → all_filled (group_loop groups dependencies) ≡ true
unfolding group_loop
group_loop-filled groups [] h = h
group_loop-filled groups (d ∷ rest) h = elim (Option-cases (key_for_dependency d.dependency)) [
  | inl skipped ↦ rw (skipped, group_loop) (group_loop-filled groups rest h)
  | inr (k, keyed) ↦
      rw (keyed, group_loop)
        (group_loop-filled (push_to_group k d groups) rest (push_to_group-filled k d groups h))
]

-- No group is empty, so that a task that factorizes a group finds its first dependency.
group_dependencies-filled :
    (dependencies : List QueuedDependency)
    → all_filled (group_dependencies_for_factorization dependencies) ≡ true
unfolding group_dependencies_for_factorization
group_dependencies-filled dependencies = group_loop-filled [] dependencies refl
