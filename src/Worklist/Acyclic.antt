-- ===== src/Worklist/Acyclic.antt =====
-- One more edge makes no cycle where its end does not reach its start.
use unpack.Prelude.{
  ℕ, [], refl, true, List, ◌≡◌, ◌==◌, ◌&&◌, ◌||◌, nat_eq, nat_eqb_iff, arith, contains, Bool-cases,
  inl, inr, ◌⊎◌,
}
use unpack.Worklist.Reach.{Reach, Reach-trans}

-- A walk over one more link.
Reach-linked :
    (old new : ℕ → List ℕ) (parent child : ℕ)
    → ((x y : ℕ)
        → contains (new x) y ≡ true
        → (contains (old x) y || (parent == x && child == y)) ≡ true)
    → (a b : ℕ) → Reach new a b
    → Reach old a b ⊎ (Reach old a parent × Reach old child b)
Reach-linked old new parent child linked a _ Reach.here = inl Reach.here
Reach-linked old new parent child linked a _ (Reach.step {x} y p e) =
    elim (Bool-cases (contains (old x) y)) [
      | inl before ↦ elim (Reach-linked old new parent child linked a x p) [
        | inl walk ↦ inl (Reach.step y walk before)
        | inr (walk, rest) ↦ inr (walk, Reach.step y rest before)
      ]
      | inr fresh ↦
          let from : parent ≡ x = ground (arith, linked x y e, nat_eqb_iff parent x) in
          let to : child ≡ y = ground (arith, linked x y e, nat_eqb_iff child y) in
          let below : Reach old child y = rw (← to) Reach.here in
          elim (Reach-linked old new parent child linked a x p) [
            | inl walk ↦ inr (rw from walk, below)
            | inr (walk, rest) ↦ inr (walk, below)
          ]
    ]

-- A link that is not closed by a walk back makes no cycle.
pub acyclic_linked :
    (old new : ℕ → List ℕ) (parent child : ℕ)
    → ((x y : ℕ)
        → contains (new x) y ≡ true
        → (contains (old x) y || (parent == x && child == y)) ≡ true)
    → ((x y : ℕ) → contains (old x) y ≡ true → ¬ Reach old y x)
    → ¬ Reach old child parent
    → (x y : ℕ) → contains (new x) y ≡ true
    → ¬ Reach new y x
acyclic_linked old new parent child linked acyclic apart x y e walk =
    elim (Bool-cases (contains (old x) y)) [
      | inl before ↦ elim (Reach-linked old new parent child linked y x walk) [
        | inl back ↦ acyclic x y before back
        | inr (up, down) ↦ apart (Reach-trans (Reach.step y down before) up)
      ]
      | inr fresh ↦
          let from : parent ≡ x = ground (arith, linked x y e, nat_eqb_iff parent x) in
          let to : child ≡ y = ground (arith, linked x y e, nat_eqb_iff child y) in
          elim (Reach-linked old new parent child linked y x walk) [
            | inl back ↦ apart (rw (from, to) back)
            | inr (up, down) ↦ apart (rw to up)
          ]
    ]

-- A walk over fewer edges.
pub Reach-fewer :
    (old new : ℕ → List ℕ) (a b : ℕ)
    → ((x y : ℕ) → contains (new x) y ≡ true → contains (old x) y ≡ true)
    → Reach new a b
    → Reach old a b
Reach-fewer old new a _ fewer Reach.here = Reach.here
Reach-fewer old new a _ fewer (Reach.step {x} y walk e) =
    Reach.step y (Reach-fewer old new a x fewer walk) (fewer x y e)

-- From an item without successors only itself is reached.
pub Reach-stuck : (next : ℕ → List ℕ) (a b : ℕ) → next a ≡ [] → Reach next a b → a ≡ b
Reach-stuck next a _ stuck Reach.here = refl
Reach-stuck next a _ stuck (Reach.step {x} y walk e) =
    let same : a ≡ x = Reach-stuck next a x stuck walk in absurd (cc (rw (← same, stuck) at e))
