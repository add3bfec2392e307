-- ===== src/Runtime/Closure.antt =====
-- What `resolve_runtime_modules` returns: the least set closed under prerequisites that holds the
-- direct requirements, and exactly the runtime modules that its members call for.
use unpack.Prelude.{
  ℕ, zero, suc, ◌<◌, ◌≡◌, refl, ap, arith, Bool, true, false, ◌&&◌, ◌||◌, none, some, List, [], ◌∷◌,
  ◌==◌, nat_eq, contains, any, contains-retain, Bool-cases, inl, inr, is_some, nat_eqb_iff,
  some_inj, some_of, subst, subst₂, and_elim, ◌↔◌, Option-cases, any_intro, any_elim, any-retain,
}
use unpack.Prelude.Bits.{test_bit, test_bit-zero}
use unpack.Prelude.Sort.{sort_by, contains-sort_by}
use unpack.Runtime.{
  RuntimeRequirement, RuntimeRequirements, RuntimeModule, RuntimeModules, Resolution,
  all_runtime_requirements, all_runtime_modules, module_bit, contains_requirement, iter,
  iter_modules, prerequisites, runtime_module_for_requirement, resolve_requirement, resolve_round,
  resolve_loop, resolve_fuel, resolve_runtime_modules, compare_modules,
}
use unpack.Runtime.Sets.{
  requirement_eq, module_eq, module_eqb_iff, insert_all_lem, insert_module_lem, missing,
  missing-le-length, Grows, Grows-trans, insert_all-Grows, all_listed,
}

-- `r` is implemented by a runtime module that needs `p`.
abbrev pub needs : RuntimeRequirement → RuntimeRequirement → Bool
needs r p = elim (runtime_module_for_requirement r) [
  | none ↦ false
  | some m ↦ contains (prerequisites m) p
]

-- `r` is implemented by the runtime module `m`.
abbrev pub calls_for : RuntimeRequirement → RuntimeModule → Bool
calls_for r m = elim (runtime_module_for_requirement r) [ none ↦ false | some n ↦ n == m ]

abbrev pub IsClosed : RuntimeRequirements → Type 0
IsClosed s =
    (r p : RuntimeRequirement)
    → contains_requirement s r ≡ true
    → needs r p ≡ true
    → contains_requirement s p ≡ true

abbrev pub Includes : RuntimeRequirements → RuntimeRequirements → Type 0
Includes t s =
    (r : RuntimeRequirement) → contains_requirement s r ≡ true → contains_requirement t r ≡ true

-- One requirement: what is there stays, and its prerequisites and its module are added.
step_requirement :
    (st : Resolution) (r q : RuntimeRequirement)
    → contains_requirement (resolve_requirement st r).0 q
      ≡ (contains_requirement st.0 q || needs r q)
unfolding resolve_requirement
step_requirement (s, ms) r q = elim (Option-cases (runtime_module_for_requirement r)) [
  | inl plain ↦ rw (plain, resolve_requirement) (ground (arith, plain))
  | inr (m, served) ↦ ground (arith, insert_all_lem s (prerequisites m) q)
]

step_module :
    (st : Resolution) (r : RuntimeRequirement) (m : RuntimeModule)
    → test_bit (resolve_requirement st r).1 (module_bit m)
      ≡ (test_bit st.1 (module_bit m) || calls_for r m)
unfolding resolve_requirement
step_module (s, ms) r m = elim (Option-cases (runtime_module_for_requirement r)) [
  | inl plain ↦ ground arith
  | inr (n, served) ↦ ground (arith, insert_module_lem ms n m)
]

step-Grows : (st : Resolution) (r : RuntimeRequirement) → Grows st.0 (resolve_requirement st r).0
unfolding resolve_requirement
step-Grows (s, ms) r = elim (Option-cases (runtime_module_for_requirement r)) [
  | inl plain ↦ rw (plain, resolve_requirement) (inl refl)
  | inr (m, served) ↦ rw (served, resolve_requirement) (insert_all-Grows s (prerequisites m))
]

-- A round adds what the requirements of its list need and call for, and nothing else.
round_requirement :
    (st : Resolution) (rs : List RuntimeRequirement) (q : RuntimeRequirement)
    → contains_requirement (resolve_round st rs).0 q
      ≡ (contains_requirement st.0 q || any (λ r. needs r q) rs)
unfolding resolve_round
round_requirement st [] q = ground arith
round_requirement st (r ∷ rs) q =
    ground (arith, round_requirement (resolve_requirement st r) rs q, step_requirement st r q)

round_module :
    (st : Resolution) (rs : List RuntimeRequirement) (m : RuntimeModule)
    → test_bit (resolve_round st rs).1 (module_bit m)
      ≡ (test_bit st.1 (module_bit m) || any (λ r. calls_for r m) rs)
unfolding resolve_round
round_module st [] m = ground arith
round_module st (r ∷ rs) m =
    ground (arith, round_module (resolve_requirement st r) rs m, step_module st r m)

round-Grows : (st : Resolution) (rs : List RuntimeRequirement) → Grows st.0 (resolve_round st rs).0
unfolding resolve_round
round-Grows st [] = inl refl
round-Grows st (r ∷ rs) =
    Grows-trans st.0 (resolve_requirement st r).0 (resolve_round (resolve_requirement st r) rs).0
      (step-Grows st r) (round-Grows (resolve_requirement st r) rs)

needed : RuntimeRequirements → RuntimeRequirement → Bool
needed s q = any (λ r. contains_requirement s r && needs r q) all_runtime_requirements

called : RuntimeRequirements → RuntimeModule → Bool
called s m = any (λ r. contains_requirement s r && calls_for r m) all_runtime_requirements

needed_intro :
    (s : RuntimeRequirements) (r q : RuntimeRequirement)
    → contains_requirement s r ≡ true
    → needs r q ≡ true
    → needed s q ≡ true
unfolding needed
needed_intro s r q h n =
    any_intro (λ r. contains_requirement s r && needs r q) all_runtime_requirements r (all_listed r)
      (ground arith)

called_intro :
    (s : RuntimeRequirements) (r : RuntimeRequirement) (m : RuntimeModule)
    → contains_requirement s r ≡ true
    → calls_for r m ≡ true
    → called s m ≡ true
unfolding called
called_intro s r m h n =
    any_intro (λ r. contains_requirement s r && calls_for r m) all_runtime_requirements r
      (all_listed r) (ground arith)

called_elim :
    (s : RuntimeRequirements) (m : RuntimeModule)
    → called s m ≡ true
    → (r : RuntimeRequirement) × (contains_requirement s r ≡ true) × (calls_for r m ≡ true)
unfolding called
called_elim s m h =
    let (r, e) =
      any_elim (λ r. contains_requirement s r && calls_for r m) all_runtime_requirements h in
    let (held, calls) = and_elim (contains_requirement s r) (calls_for r m) e in (r, held, calls)

module _ (s : RuntimeRequirements) (ms : RuntimeModules) where
  -- One turn of the loop.
  turn : Resolution
  turn = resolve_round (s, ms) (iter s)

  turn_requirement :
      (q : RuntimeRequirement)
      → contains_requirement turn.0 q ≡ (contains_requirement s q || needed s q)
  unfolding turn needed iter
  turn_requirement q = ground (
    arith,
    round_requirement (s, ms) (iter s) q,
    any-retain (λ r. needs r q) (contains_requirement s) all_runtime_requirements,
  )

  turn_module :
      (m : RuntimeModule)
      → test_bit turn.1 (module_bit m) ≡ (test_bit ms (module_bit m) || called s m)
  unfolding turn called iter
  turn_module m = ground (
    arith,
    round_module (s, ms) (iter s) m,
    any-retain (λ r. calls_for r m) (contains_requirement s) all_runtime_requirements,
  )

  turn-Grows : Grows s turn.0
  unfolding turn
  turn-Grows = round-Grows (s, ms) (iter s)

  turn_least : (t : RuntimeRequirements) → IsClosed t → Includes t s → Includes t turn.0
  turn_least t closed above q h = elim (Bool-cases (contains_requirement s q)) [
    | inl old ↦ above q old
    | inr new ↦
        let (r, e) =
          any_elim (λ r. contains_requirement s r && needs r q) all_runtime_requirements
            (unfold needed in ground (arith, turn_requirement q)) in
        closed r q (above r (ground arith)) (ground arith)
  ]

-- What the loop has made of its start when it ends.
record Ended (s : RuntimeRequirements) (ms : RuntimeModules) (st : Resolution) : Type 0 where
  closed : IsClosed st.0
  includes : Includes st.0 s
  least : (t : RuntimeRequirements) → IsClosed t → Includes t s → Includes t st.0
  sound :
      ((m : RuntimeModule) → test_bit ms (module_bit m) ≡ true → called s m ≡ true)
      → (m : RuntimeModule) → test_bit st.1 (module_bit m) ≡ true
      → called st.0 m ≡ true
  complete : (m : RuntimeModule) → called st.0 m ≡ true → test_bit st.1 (module_bit m) ≡ true

called_mono :
    (s t : RuntimeRequirements) (m : RuntimeModule)
    → Includes t s
    → called s m ≡ true
    → called t m ≡ true
called_mono s t m above h =
    let (r, held, calls) = called_elim s m h in called_intro t r m (above r held) calls

turn_above : (s : RuntimeRequirements) (ms : RuntimeModules) → Includes (turn s ms).0 s
turn_above s ms r h = ground (arith, turn_requirement s ms r)

Ended-last :
    (s : RuntimeRequirements) (ms : RuntimeModules) → (turn s ms).0 ≡ s → Ended s ms (turn s ms)
Ended-last s ms same = record {
  closed = λ r p h n.
      ground (
        arith,
        turn_requirement s ms p,
        needed_intro s r p,
        ap (λ u. contains_requirement u r) same,
      );
  includes = turn_above s ms;
  least = λ t closed above. turn_least s ms t closed above;
  sound = λ from m h. elim (Bool-cases (called s m)) [
    | inl live ↦ called_mono s (turn s ms).0 m (turn_above s ms) live
    | inr dead ↦ ground (arith, turn_module s ms m, from m)
  ];
  complete = λ m h. ground (arith, turn_module s ms m, ap (λ u. called u m) same);
}

Ended-next :
    (s : RuntimeRequirements) (ms : RuntimeModules) (st : Resolution)
    → Ended (turn s ms).0 (turn s ms).1 st
    → Ended s ms st
Ended-next s ms st h = record {
  closed = h.closed;
  includes = λ r held. h.includes r (turn_above s ms r held);
  least = λ t closed above. h.least t closed (turn_least s ms t closed above);
  sound = λ from. h.sound λ m bit.
      called_mono s (turn s ms).0 m (turn_above s ms) (ground (arith, turn_module s ms m, from m));
  complete = h.complete;
}

requirements_eq : (s t : RuntimeRequirements) → t.bits ≡ s.bits → t ≡ s
requirements_eq s t p = ap (λ (b : ℕ). let u : RuntimeRequirements = record { bits = b } in u) p

loop-Ended :
    (fuel : ℕ) (s : RuntimeRequirements) (ms : RuntimeModules) (st : Resolution)
    → resolve_loop fuel (s, ms) ≡ some st
    → Ended s ms st
unfolding resolve_loop turn
loop-Ended zero s ms st h = cc
loop-Ended (suc fuel) s ms st h = elim (Bool-cases ((turn s ms).0.bits == s.bits)) [
  | inl same ↦
      subst (Ended s ms) (some_inj (rw same at h))
        (Ended-last s ms (requirements_eq s (turn s ms).0 ((nat_eqb_iff _ _).0 same)))
  | inr more ↦ Ended-next s ms st (loop-Ended fuel (turn s ms).0 (turn s ms).1 st (rw more at h))
]

loop_ends :
    (fuel : ℕ) (s : RuntimeRequirements) (ms : RuntimeModules)
    → missing s all_runtime_requirements < fuel
    → is_some (resolve_loop fuel (s, ms)) ≡ true
unfolding resolve_loop turn
loop_ends zero s ms h = absurd (omega arith)
loop_ends (suc fuel) s ms h = elim (Bool-cases ((turn s ms).0.bits == s.bits)) [
  | inl same ↦ rw same
  | inr more ↦ rw more (elim (turn-Grows s ms) [
    | inl still ↦ cc ((nat_eqb_iff (turn s ms).0.bits s.bits).1 still)
    | inr fewer ↦ loop_ends fuel (turn s ms).0 (turn s ms).1 (omega arith)
  ])
]

-- `resolve_runtime_modules` returns for every set of requirements.
pub resolve_runtime_modules_total :
    (direct : RuntimeRequirements) → is_some (resolve_runtime_modules direct) ≡ true
unfolding resolve_runtime_modules
resolve_runtime_modules_total direct =
    let few = missing-le-length direct all_runtime_requirements in
    let (st, ended) = some_of _ (loop_ends resolve_fuel direct 0 (omega arith)) in
    rw (ended, resolve_runtime_modules)

-- What `resolve_runtime_modules` promises: the least closed set above the direct requirements, and the
-- runtime modules that its members call for.
pub record Resolves (direct s : RuntimeRequirements) (modules : List RuntimeModule) : Type 0 where
  pub closed : IsClosed s
  pub includes : Includes s direct
  pub least : (t : RuntimeRequirements) → IsClosed t → Includes t direct → Includes t s
  pub exact :
      (m : RuntimeModule)
      → (contains modules m ≡ true) ↔ (
          (r : RuntimeRequirement) × (contains_requirement s r ≡ true)
          × (runtime_module_for_requirement r ≡ some m))

listed_module : (m : RuntimeModule) → contains all_runtime_modules m ≡ true
listed_module RuntimeModule.define_property_getters = refl
listed_module _ = refl

modules-iter :
    (ms : RuntimeModules) (m : RuntimeModule)
    → contains (sort_by compare_modules (iter_modules ms)) m ≡ test_bit ms (module_bit m)
unfolding iter_modules
modules-iter ms m = ground (
  arith,
  contains-sort_by compare_modules (iter_modules ms) m,
  contains-retain (λ m. test_bit ms (module_bit m)) all_runtime_modules m,
  listed_module m,
)

calls_for_iff :
    (r : RuntimeRequirement) (m : RuntimeModule)
    → (calls_for r m ≡ true) ↔ (runtime_module_for_requirement r ≡ some m)
calls_for_iff r m = elim (Option-cases (runtime_module_for_requirement r)) [
  | inl plain ↦ ground arith
  | inr (n, served) ↦ ground (arith, module_eqb_iff n m)
]

Ended-exact :
    (direct : RuntimeRequirements) (st : Resolution) (m : RuntimeModule)
    → Ended direct 0 st
    → (test_bit st.1 (module_bit m) ≡ true) ↔ (
        (r : RuntimeRequirement) × (contains_requirement st.0 r ≡ true)
        × (runtime_module_for_requirement r ≡ some m))
Ended-exact direct st m h = (
  λ set.
      let (r, held, calls) =
        called_elim st.0 m (h.sound (λ n bit. cc (test_bit-zero (module_bit n))) m set) in
      (r, held, (calls_for_iff r m).0 calls),
  λ (r, held, serves). h.complete m (called_intro st.0 r m held ((calls_for_iff r m).1 serves)),
)

Resolves-Ended :
    (direct s : RuntimeRequirements) (modules : List RuntimeModule) (st : Resolution)
    → Ended direct 0 st
    → st.0 ≡ s
    → sort_by compare_modules (iter_modules st.1) ≡ modules
    → Resolves direct s modules
Resolves-Ended direct s modules st h same sorted = subst₂ (Resolves direct) same sorted (record {
  closed = h.closed;
  includes = h.includes;
  least = h.least;
  exact = λ m. rw (modules-iter st.1 m) (Ended-exact direct st m h);
})

-- Whatever `resolve_runtime_modules` returns for a set of requirements is the least set above it that
-- is closed under the prerequisites of runtime modules, with exactly the runtime modules that some
-- member of that set is implemented by.
pub resolve_runtime_modules-Resolves :
    (direct s : RuntimeRequirements) (modules : List RuntimeModule)
    → resolve_runtime_modules direct ≡ some (s, modules)
    → Resolves direct s modules
unfolding resolve_runtime_modules
resolve_runtime_modules-Resolves direct s modules h =
    let few = missing-le-length direct all_runtime_requirements in
    let (st, ended) = some_of _ (loop_ends resolve_fuel direct 0 (omega arith)) in
    let done = loop-Ended resolve_fuel direct 0 st ended in
    let e = some_inj (rw (ended, resolve_runtime_modules) at h) in
    Resolves-Ended direct s modules st done (ap (λ p. p.0) e) (ap (λ p. p.1) e)
