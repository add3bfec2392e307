-- ===== src/Runtime/Sets.antt =====
-- The bit sets of runtime requirements and runtime modules as sets: equality by bit, membership after
-- each insertion, and the count of requirements that are not in a set.
use unpack.Prelude.{
  ℕ, zero, suc, ◌+◌, ◌≤◌, ◌<◌, ◌≡◌, ◌↔◌, refl, ap, ◌∙◌, arith, true, false, ◌||◌, List, [], ◌∷◌, Eq,
  ◌==◌, nat_eq, nat_eqb, nat_eqb_iff, length, contains, inl, inr, if◌then◌else◌, Bool-cases, ◌⊎◌,
}
use unpack.Prelude.Bits.{test_bit, test_bit-set, bit_or-test_bit}
use unpack.Runtime.{
  RuntimeRequirement, RuntimeRequirements, RuntimeModule, RuntimeModules, all_runtime_requirements,
  bit, module_bit, contains_requirement, insert_requirement, insert_all, insert_module,
}

requirement_at : ℕ → RuntimeRequirement
requirement_at zero = RuntimeRequirement.module_factories
requirement_at (suc zero) = RuntimeRequirement.module_cache
requirement_at (suc (suc zero)) = RuntimeRequirement.require
requirement_at (suc (suc (suc zero))) = RuntimeRequirement.define_property_getters
requirement_at (suc (suc (suc (suc zero)))) = RuntimeRequirement.has_own_property
requirement_at (suc (suc (suc (suc (suc zero))))) = RuntimeRequirement.make_namespace_object
requirement_at (suc (suc (suc (suc (suc (suc zero)))))) = RuntimeRequirement.ensure_chunk
requirement_at (suc (suc (suc (suc (suc (suc (suc zero))))))) =
    RuntimeRequirement.get_chunk_filename
requirement_at (suc (suc (suc (suc (suc (suc (suc (suc zero)))))))) =
    RuntimeRequirement.return_exports_from_runtime
requirement_at (suc (suc (suc (suc (suc (suc (suc (suc (suc zero))))))))) =
    RuntimeRequirement.ensure_chunk_handlers
requirement_at _ = RuntimeRequirement.module_factories_add_only

requirement_at-bit : (r : RuntimeRequirement) → requirement_at (bit r) ≡ r
unfolding requirement_at
requirement_at-bit RuntimeRequirement.module_factories = refl
requirement_at-bit _ = refl

pub requirement_eqb_iff : (a b : RuntimeRequirement) → (nat_eqb (bit a) (bit b) ≡ true) ↔ (a ≡ b)
requirement_eqb_iff a b =
    ground (arith, nat_eqb_iff (bit a) (bit b), requirement_at-bit a, requirement_at-bit b)

module_at : ℕ → RuntimeModule
module_at zero = RuntimeModule.define_property_getters
module_at (suc zero) = RuntimeModule.ensure_chunk
module_at (suc (suc zero)) = RuntimeModule.get_chunk_filename
module_at (suc (suc (suc zero))) = RuntimeModule.has_own_property
module_at (suc (suc (suc (suc zero)))) = RuntimeModule.make_namespace_object
module_at (suc (suc (suc (suc (suc zero))))) = RuntimeModule.module_factories_add_only
module_at _ = RuntimeModule.require_chunk_loading

module_at-bit : (m : RuntimeModule) → module_at (module_bit m) ≡ m
unfolding module_at
module_at-bit RuntimeModule.define_property_getters = refl
module_at-bit _ = refl

pub module_eqb_iff :
    (a b : RuntimeModule) → (nat_eqb (module_bit a) (module_bit b) ≡ true) ↔ (a ≡ b)
module_eqb_iff a b =
    ground (arith, nat_eqb_iff (module_bit a) (module_bit b), module_at-bit a, module_at-bit b)

instance abbrev pub requirement_eq : Eq RuntimeRequirement
requirement_eq = record { eqb = λ a b. nat_eqb (bit a) (bit b); eqb_iff = requirement_eqb_iff }

instance abbrev pub module_eq : Eq RuntimeModule
module_eq = record { eqb = λ a b. nat_eqb (module_bit a) (module_bit b); eqb_iff = module_eqb_iff }

pub insert_requirement_lem :
    (s : RuntimeRequirements) (r q : RuntimeRequirement)
    → contains_requirement (insert_requirement s r).0 q ≡ (contains_requirement s q || r == q)
unfolding contains_requirement insert_requirement
insert_requirement_lem s r q = test_bit-set s.bits (bit r) (bit q)

pub insert_module_lem :
    (ms : RuntimeModules) (m n : RuntimeModule)
    → test_bit (insert_module ms m) (module_bit n) ≡ (test_bit ms (module_bit n) || m == n)
unfolding insert_module
insert_module_lem ms m n = test_bit-set ms (module_bit m) (module_bit n)

pub insert_all_lem :
    (s : RuntimeRequirements) (rs : List RuntimeRequirement) (q : RuntimeRequirement)
    → contains_requirement (insert_all s rs) q ≡ (contains_requirement s q || contains rs q)
unfolding insert_all
insert_all_lem s [] q = ground arith
insert_all_lem s (r ∷ rs) q =
    ground (arith, insert_all_lem (insert_requirement s r).0 rs q, insert_requirement_lem s r q)

-- How many requirements of a list are not in the set.
pub missing : RuntimeRequirements → List RuntimeRequirement → ℕ
missing s [] = 0
missing s (q ∷ qs) = (if contains_requirement s q then 0 else 1) + missing s qs

pub missing-le-length :
    (s : RuntimeRequirements) (qs : List RuntimeRequirement) → missing s qs ≤ length qs
unfolding missing
missing-le-length s [] = omega arith
missing-le-length s (q ∷ qs) = ground (arith, missing-le-length s qs)

missing-insert_le :
    (s : RuntimeRequirements) (r : RuntimeRequirement) (qs : List RuntimeRequirement)
    → missing (insert_requirement s r).0 qs ≤ missing s qs
unfolding missing
missing-insert_le s r [] = omega arith
missing-insert_le s r (q ∷ qs) =
    ground (arith, missing-insert_le s r qs, insert_requirement_lem s r q)

missing-insert_lt :
    (s : RuntimeRequirements) (r : RuntimeRequirement) (qs : List RuntimeRequirement)
    → contains qs r ≡ true
    → contains_requirement s r ≡ false
    → missing (insert_requirement s r).0 qs < missing s qs
unfolding missing
missing-insert_lt s r [] h new = cc
missing-insert_lt s r (q ∷ qs) h new = elim (Bool-cases (q == r)) [
  | inl same ↦ ground (
    arith,
    missing-insert_le s r qs,
    insert_requirement_lem s r q,
    requirement_eqb_iff q r,
    nat_eqb_iff (bit r) (bit q),
  )
  | inr other ↦ ground (arith, missing-insert_lt s r qs, insert_requirement_lem s r q)
]

pub all_listed : (r : RuntimeRequirement) → contains all_runtime_requirements r ≡ true
all_listed RuntimeRequirement.module_factories = refl
all_listed _ = refl

-- A step either leaves the set as it is, or leaves fewer requirements missing.
abbrev pub Grows : RuntimeRequirements → RuntimeRequirements → Type 0
Grows s t =
    (t.bits ≡ s.bits) ⊎ (missing t all_runtime_requirements < missing s all_runtime_requirements)

same_missing :
    (s t : RuntimeRequirements)
    → t.bits ≡ s.bits
    → missing t all_runtime_requirements ≡ missing s all_runtime_requirements
same_missing s t p = ap (λ (b : ℕ). missing (record { bits = b }) all_runtime_requirements) p

pub Grows-trans : (s t u : RuntimeRequirements) → Grows s t → Grows t u → Grows s u
Grows-trans s t u (inl p) (inl q) = inl (q ∙ p)
Grows-trans s t u (inl p) (inr q) = inr (omega (arith, same_missing s t p))
Grows-trans s t u (inr p) (inl q) = inr (omega (arith, same_missing t u q))
Grows-trans s t u (inr p) (inr q) = inr (omega arith)

insert_requirement-Grows :
    (s : RuntimeRequirements) (r : RuntimeRequirement) → Grows s (insert_requirement s r).0
insert_requirement-Grows s r = elim (Bool-cases (contains_requirement s r)) [
  | inl old ↦
      inl (unfold insert_requirement contains_requirement in bit_or-test_bit s.bits (bit r) old)
  | inr new ↦ inr (missing-insert_lt s r all_runtime_requirements (all_listed r) new)
]

pub insert_all-Grows :
    (s : RuntimeRequirements) (rs : List RuntimeRequirement) → Grows s (insert_all s rs)
unfolding insert_all
insert_all-Grows s [] = inl refl
insert_all-Grows s (r ∷ rs) =
    Grows-trans s (insert_requirement s r).0 (insert_all (insert_requirement s r).0 rs)
      (insert_requirement-Grows s r) (insert_all-Grows (insert_requirement s r).0 rs)
