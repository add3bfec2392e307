-- ===== src/Worklist/Reach.antt =====
-- What a worklist loop visits is what can be reached: soundness, completeness, and each item once.
use unpack.Prelude.{
  IsUnique-push, ◌↔◌, ◌==◌, ℕ, zero, suc, Bool, true, false, some, List, [], ◌∷◌, ◌++◌, ◌≡◌, refl,
  ap, arith, ◌||◌, nat_eq, nat_eqb_iff, contains, contains-push, contains-append, Bool-cases, inl,
  inr, some_inj, IsUnique,
}
use unpack.Worklist.{explore}

-- `y` can be reached from `x` by edges.
pub data Reach (next : ℕ → List ℕ) (start : ℕ) : ℕ → Type 0 where
  here : Reach next start start
  step : {x : ℕ} (y : ℕ) → Reach next start x → contains (next x) y ≡ true → Reach next start y

pub Reach-trans : {next : ℕ → List ℕ} {x y z : ℕ} → Reach next x y → Reach next y z → Reach next x z
Reach-trans p Reach.here = p
Reach-trans p (Reach.step z q e) = Reach.step z (Reach-trans p q) e

module _ (next : ℕ → List ℕ) (goal : ℕ → Bool) (start : ℕ) where
  -- What holds of the queue and the visited items before every round.
  record Explores (queue visited : List ℕ) : Type 0 where
    queued : (x : ℕ) → contains queue x ≡ true → Reach next start x
    reached : (x : ℕ) → contains visited x ≡ true → Reach next start x
    passed : (x : ℕ) → contains visited x ≡ true → goal x ≡ false
    closed :
        (x y : ℕ)
        → contains visited x ≡ true
        → contains (next x) y ≡ true
        → (contains visited y || contains queue y) ≡ true
    started : (contains visited start || contains queue start) ≡ true
    unique : IsUnique visited

  Explores-pass :
      (item : ℕ) (queue visited : List ℕ)
      → contains visited item ≡ true
      → Explores (item ∷ queue) visited
      → Explores queue visited
  Explores-pass item queue visited old h = record {
    queued = λ x e. h.queued x (ground arith);
    reached = h.reached;
    passed = h.passed;
    closed = λ x y e f. ground (arith, h.closed x y e f, nat_eqb_iff item y);
    started = ground (arith, h.started, nat_eqb_iff item start);
    unique = h.unique;
  }

  Explores-visit :
      (item : ℕ) (queue visited : List ℕ)
      → contains visited item ≡ false
      → goal item ≡ false
      → Explores (item ∷ queue) visited
      → Explores (queue ++ next item) (visited ++ item ∷ [])
  Explores-visit item queue visited new goes h =
      let found : Reach next start item = h.queued item (ground (arith, nat_eqb_iff item item)) in
      record {
        queued = λ x e. elim (Bool-cases (contains queue x)) [
          | inl before ↦ h.queued x (ground arith)
          | inr pushed ↦ Reach.step x found (ground (arith, contains-append queue (next item) x))
        ];
        reached = λ x e. elim (Bool-cases (contains visited x)) [
          | inl before ↦ h.reached x before
          | inr pushed ↦
              let same : item ≡ x =
                ground (arith, contains-push visited item x, nat_eqb_iff item x) in
              rw (← same) found
        ];
        passed = λ x e. ground (
          arith,
          h.passed x,
          contains-push visited item x,
          nat_eqb_iff item x,
          ap goal {x = item} {y = x},
        );
        closed = λ x y e f. elim (Bool-cases (contains visited x)) [
          | inl before ↦ ground (
            arith,
            h.closed x y before f,
            contains-push visited item y,
            contains-append queue (next item) y,
          )
          | inr pushed ↦
              let same : item ≡ x =
                ground (arith, contains-push visited item x, nat_eqb_iff item x) in
              let edge : contains (next item) y ≡ true = rw same f in
              ground (arith, edge, contains-append queue (next item) y)
        ];
        started = ground (
          arith,
          h.started,
          contains-push visited item start,
          contains-append queue (next item) start,
        );
        unique = IsUnique-push visited item new h.unique;
      }

  -- What the end of a loop says.
  pub record Explored (found : Bool) (visited : List ℕ) : Type 0 where
    pub hit : found ≡ true → (x : ℕ) × (Reach next start x × (goal x ≡ true))
    pub reached : (x : ℕ) → contains visited x ≡ true → Reach next start x
    pub all :
        found ≡ false
        → (x : ℕ) → Reach next start x
        → (contains visited x ≡ true) × (goal x ≡ false)
    pub unique : IsUnique visited

  all_visited :
      (visited : List ℕ)
      → Explores [] visited
      → (x : ℕ) → Reach next start x
      → contains visited x ≡ true
  all_visited visited h x Reach.here = ground (arith, h.started)
  all_visited visited h _ (Reach.step {x} y p e) =
      ground (arith, h.closed x y (all_visited visited h x p) e)

  loop-Explored :
      (fuel : ℕ) (queue visited result : List ℕ) (found : Bool)
      → Explores queue visited
      → explore next goal fuel queue visited ≡ some (found, result)
      → Explored found result
  unfolding explore
  loop-Explored zero queue visited result found h e = cc
  loop-Explored (suc fuel) [] visited result found h e =
      let same = some_inj e in
      let end = ap (λ (p : Bool × List ℕ). p.1) same in
      let no = ap (λ (p : Bool × List ℕ). p.0) same in
      rw (← end) (record {
        hit = λ f. cc;
        reached = h.reached;
        all = λ f x p. (all_visited visited h x p, h.passed x (all_visited visited h x p));
        unique = h.unique;
      })
  loop-Explored (suc fuel) (item ∷ queue) visited result found h e = elim (Bool-cases (goal item)) [
    | inl ends ↦
        let same = some_inj (rw (ends, explore) at e) in
        let end = ap (λ (p : Bool × List ℕ). p.1) same in
        let yes = ap (λ (p : Bool × List ℕ). p.0) same in
        rw (← end) (record {
          hit = λ f. (item, (h.queued item (ground (arith, nat_eqb_iff item item)), ends));
          reached = h.reached;
          all = λ f x p. cc;
          unique = h.unique;
        })
    | inr goes ↦ elim (Bool-cases (contains visited item)) [
      | inl old ↦
          loop-Explored fuel queue visited result found (Explores-pass item queue visited old h)
            (rw (goes, old, explore) at e)
      | inr new ↦
          loop-Explored fuel (queue ++ next item) (visited ++ item ∷ []) result found
            (Explores-visit item queue visited new goes h) (rw (goes, new, explore) at e)
    ]
  ]

  -- A loop that starts at one item.
  pub explore-Explored :
      (fuel : ℕ) (found : Bool) (visited : List ℕ)
      → explore next goal fuel (start ∷ []) [] ≡ some (found, visited)
      → Explored found visited
  explore-Explored fuel found visited e =
      loop-Explored fuel (start ∷ []) [] visited found
        (record {
          queued = λ x f.
              let same : start ≡ x = ground (arith, nat_eqb_iff start x) in rw (← same) Reach.here;
          reached = λ x f. cc;
          passed = λ x f. cc;
          closed = λ x y f g. cc;
          started = ground (arith, nat_eqb_iff start start);
          unique = tt;
        })
        e

-- A loop that looks for one item answers whether it can be reached.
pub Explored-decides :
    (next : ℕ → List ℕ) (target start : ℕ) (found : Bool) (visited : List ℕ)
    → Explored next (λ x. x == target) start found visited
    → (found ≡ true) ↔ Reach next start target
Explored-decides next target start true visited end =
    let (x, (reached, same)) = end.hit refl in
    let is : x ≡ target = ground (arith, nat_eqb_iff x target) in (λ _. rw is at reached, λ _. refl)
Explored-decides next target start false visited end =
    (λ e. cc, λ p. ground (arith, end.all refl target p, nat_eqb_iff target target))
