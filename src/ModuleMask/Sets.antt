-- ===== src/ModuleMask/Sets.antt =====
-- A module mask is the set of the modules that were inserted.
use unpack.Prelude.{
  subst, not, ◌<◌, ℕ, zero, suc, ◌+◌, ◌/◌, ◌%◌, ◌*◌, ◌^◌, ◌≤◌, Bool, true, false, none, some, List,
  [], ◌∷◌, ◌≡◌, refl, ap, ◌∙◌, sym, arith, ◌==◌, ◌&&◌, ◌||◌, nat_eq, nat_eqb_iff, length, contains,
  modify, get_elem?, replicate, get_elem?-modify, modify_total, length-modify, length-replicate,
  get_elem?-lt, >>=-eq-some, some_inj, is_some, inl, inr, Option-cases, Bool-cases, all, ltb,
  ltb_iff, bit_or, bit_and, and_elim,
}
use unpack.Prelude.Bits.{test_bit, test_bit-set, test_bit-zero, test_bit-and}
use unpack.Module.{ModuleHandle}
use unpack.ModuleMask.{
  ModuleMask, new_mask, mask_insert, mask_contains, insert_modules, from_modules, intersect_words,
  intersect_with,
}

same_place : (m x : ModuleHandle) → m / 64 ≡ x / 64 → m % 64 ≡ x % 64 → m ≡ x
same_place m x p q = omega arith

pub mask_insert-contains :
    (mask t : ModuleMask) (m : ModuleHandle) (changed : Bool) (x : ModuleHandle)
    → mask_insert mask m ≡ some (t, changed)
    → mask_contains t x ≡ (mask_contains mask x || m == x)
unfolding mask_insert mask_contains
mask_insert-contains mask t m changed x e =
    let (word, found, rest) = >>=-eq-some (get_elem? mask.words (m / 64)) _ e in
    let (words, written, last) =
      >>=-eq-some (modify mask.words (m / 64) (λ w. bit_or w (2 ^ (m % 64)))) _ rest in
    let here = get_elem?-modify mask.words (m / 64) _ words (x / 64) written in
    elim (Bool-cases (m / 64 == x / 64)) [
      | inl same ↦ ground (
        arith,
        last,
        here,
        found,
        ap (get_elem? mask.words) ((nat_eqb_iff (m / 64) (x / 64)).0 same),
        test_bit-set word (m % 64) (x % 64),
        nat_eqb_iff (m % 64) (x % 64),
        nat_eqb_iff m x,
        same_place m x,
      )
      | inr apart ↦
          ground (arith, last, here, nat_eqb_iff m x, ap (λ (n : ℕ). n / 64) {x = m} {y = x})
    ]

insert_modules-contains :
    (mask t : ModuleMask) (ms : List ModuleHandle) (x : ModuleHandle)
    → insert_modules mask ms ≡ some t
    → mask_contains t x ≡ (mask_contains mask x || contains ms x)
unfolding insert_modules
insert_modules-contains mask t [] x e =
    ground (arith, ap (λ (m : ModuleMask). mask_contains m x) (some_inj e))
insert_modules-contains mask t (m ∷ rest) x e =
    let ((next, changed), first, later) = >>=-eq-some (mask_insert mask m) _ e in
    ground (
      arith,
      insert_modules-contains next t rest x later,
      mask_insert-contains mask next m changed x first,
    )

replicate-zero : (n i : ℕ) (w : ℕ) → get_elem? (replicate n 0) i ≡ some w → w ≡ 0
replicate-zero zero i w e = cc
replicate-zero (suc n) zero w e = ground arith
replicate-zero (suc n) (suc i) w e = replicate-zero n i w e

pub new_mask-contains : (n : ℕ) (x : ModuleHandle) → mask_contains (new_mask n) x ≡ false
unfolding new_mask mask_contains
new_mask-contains n x =
    let words : List ℕ = replicate ((n + 63) / 64) 0 in
    elim (Option-cases (get_elem? words (x / 64))) [
      | inl out ↦ rw (out, mask_contains) refl
      | inr (w, at) ↦
          rw (at, mask_contains)
            (ap (λ (v : ℕ). test_bit v (x % 64)) (replicate-zero ((n + 63) / 64) (x / 64) w at)
              ∙ test_bit-zero (x % 64))
    ]

-- A mask that `from_modules` returns contains exactly the modules that it was given.
pub from_modules-contains :
    (n : ℕ) (ms : List ModuleHandle) (t : ModuleMask) (x : ModuleHandle)
    → from_modules n ms ≡ some t
    → mask_contains t x ≡ contains ms x
unfolding from_modules
from_modules-contains n ms t x e =
    ground (arith, insert_modules-contains (new_mask n) t ms x e, new_mask-contains n x)

intersect_words-get :
    (ws vs : List ℕ) (i k : ℕ)
    → length ws ≡ length vs
    → (elim (get_elem? (intersect_words ws vs) i) [ none ↦ false | some w ↦ test_bit w k ]) ≡ (
        (elim (get_elem? ws i) [ none ↦ false | some w ↦ test_bit w k ])
        && (elim (get_elem? vs i) [ none ↦ false | some w ↦ test_bit w k ]))
unfolding intersect_words
intersect_words-get [] vs i k h = refl
intersect_words-get (w ∷ ws) [] i k h = absurd (omega arith)
intersect_words-get (w ∷ ws) (v ∷ vs) zero k h = test_bit-and w v k
intersect_words-get (w ∷ ws) (v ∷ vs) (suc i) k h = intersect_words-get ws vs i k (omega arith)

-- The intersection of two masks contains exactly the modules that both contain.
pub intersect_with-contains :
    (mask other t : ModuleMask) (x : ModuleHandle)
    → intersect_with mask other ≡ some t
    → mask_contains t x ≡ (mask_contains mask x && mask_contains other x)
unfolding intersect_with mask_contains
intersect_with-contains mask other t x e =
    elim (Bool-cases (length mask.words == length other.words)) [
      | inl same ↦
          let fits = (nat_eqb_iff (length mask.words) (length other.words)).0 same in
          let last = some_inj (rw (same, intersect_with) at e) in
          ap (λ (m : ModuleMask). mask_contains m x) (sym last)
          ∙ intersect_words-get mask.words other.words (x / 64) (x % 64) fits
      | inr apart ↦ cc (rw (apart, intersect_with) at e)
    ]

insert_modules_total :
    (mask : ModuleMask) (ms : List ModuleHandle)
    → all (λ m. ltb m (64 * length mask.words)) ms ≡ true
    → is_some (insert_modules mask ms) ≡ true
unfolding insert_modules mask_insert
insert_modules_total mask [] h = refl
insert_modules_total mask (m ∷ rest) h =
    let (low, others) = and_elim (ltb m (64 * length mask.words)) _ h in
    let small = (ltb_iff m (64 * length mask.words)).0 low in
    let (word, found) = get_elem?-lt mask.words (m / 64) (omega arith) in
    let (words, written) =
      modify_total mask.words (m / 64) (λ w. bit_or w (2 ^ (m % 64))) (omega arith) in
    let size = length-modify mask.words (m / 64) _ words written in
    rw (found, written) (insert_modules_total (record { words = words }) rest (rw size others))

all_weaken :
    (n k : ℕ) (ms : List ModuleHandle)
    → n ≤ k
    → all (λ m. ltb m n) ms ≡ true
    → all (λ m. ltb m k) ms ≡ true
all_weaken n k [] h a = refl
all_weaken n k (m ∷ rest) h a = ground (arith, all_weaken n k rest, ltb_iff m n, ltb_iff m k)

-- `from_modules` returns where every module is below the count.
pub from_modules_total :
    (n : ℕ) (ms : List ModuleHandle)
    → all (λ m. ltb m n) ms ≡ true
    → is_some (from_modules n ms) ≡ true
unfolding from_modules new_mask
from_modules_total n ms h =
    let size = length-replicate {A = ℕ} ((n + 63) / 64) 0 in
    insert_modules_total (new_mask n) ms
      (all_weaken n (64 * length (new_mask n).words) ms (omega (arith, size)) h)

-- What an insertion into a mask with room for the module does.
pub record Inserts (mask t : ModuleMask) (m : ModuleHandle) (changed : Bool) : Type 0 where
  pub returned : mask_insert mask m ≡ some (t, changed)
  pub size : length t.words ≡ length mask.words
  pub fresh : changed ≡ not (mask_contains mask m)
  pub added : (x : ModuleHandle) → mask_contains t x ≡ (mask_contains mask x || m == x)

Inserts-written :
    (mask : ModuleMask) (m : ModuleHandle) (word : ℕ) (words : List ℕ)
    → get_elem? mask.words (m / 64) ≡ some word
    → modify mask.words (m / 64) (λ w. bit_or w (2 ^ (m % 64))) ≡ some words
    → Inserts mask (record { words = words }) m (bit_and word (2 ^ (m % 64)) == 0)
unfolding mask_insert mask_contains test_bit
Inserts-written mask m word words found written =
    let e : mask_insert mask m ≡ some (record { words = words }, bit_and word (2 ^ (m % 64)) == 0) =
      rw (found, written) refl in
    record {
      returned = e;
      size = length-modify mask.words (m / 64) _ words written;
      fresh = ground arith;
      added = λ x. mask_insert-contains mask (record { words = words }) m _ x e;
    }

pub mask_insert_total :
    (mask : ModuleMask) (m : ModuleHandle)
    → m < 64 * length mask.words
    → (t : ModuleMask) × (changed : Bool) × Inserts mask t m changed
mask_insert_total mask m low =
    let (word, found) = get_elem?-lt mask.words (m / 64) (omega arith) in
    let (words, written) =
      modify_total mask.words (m / 64) (λ w. bit_or w (2 ^ (m % 64))) (omega arith) in
    (
      record { words = words },
      bit_and word (2 ^ (m % 64)) == 0,
      Inserts-written mask m word words found written,
    )

pub new_mask_room : (n : ℕ) (m : ModuleHandle) → m < n → m < 64 * length (new_mask n).words
unfolding new_mask
new_mask_room n m h = omega (arith, length-replicate {A = ℕ} ((n + 63) / 64) 0)

length-intersect_words : (ws vs : List ℕ) → length (intersect_words ws vs) ≡ length ws
unfolding intersect_words
length-intersect_words [] vs = refl
length-intersect_words (w ∷ ws) [] = refl
length-intersect_words (w ∷ ws) (v ∷ vs) = ap suc (length-intersect_words ws vs)

pub intersect_with_total :
    (mask other : ModuleMask)
    → length mask.words ≡ length other.words
    → (t : ModuleMask) × (intersect_with mask other ≡ some t)
      × (length t.words ≡ length mask.words)
      × ((x : ModuleHandle) → mask_contains t x ≡ (mask_contains mask x && mask_contains other x))
unfolding intersect_with
intersect_with_total mask other fits =
    let t : ModuleMask = record { words = intersect_words mask.words other.words } in
    let e : intersect_with mask other ≡ some t =
      rw ((nat_eqb_iff (length mask.words) (length other.words)).1 fits) refl in
    (
      t,
      e,
      length-intersect_words mask.words other.words,
      λ x. intersect_with-contains mask other t x e,
    )

pub insert_modules_lem :
    (mask : ModuleMask) (ms : List ModuleHandle)
    → all (λ m. ltb m (64 * length mask.words)) ms ≡ true
    → (t : ModuleMask) × (insert_modules mask ms ≡ some t)
      × (length t.words ≡ length mask.words)
      × ((x : ModuleHandle) → mask_contains t x ≡ (mask_contains mask x || contains ms x))
unfolding insert_modules
insert_modules_lem mask [] low = (mask, refl, refl, λ x. ground arith)
insert_modules_lem mask (m ∷ rest) low =
    let (t, changed, ins) =
      mask_insert_total mask m (ground (arith, ltb_iff m (64 * length mask.words))) in
    let (u, later, size, exact) =
      insert_modules_lem t rest
        (subst (λ (n : ℕ). all (λ k. ltb k (64 * n)) rest ≡ true) (sym ins.size) (ground arith)) in
    (u, rw (ins.returned, later) refl, size ∙ ins.size, λ x. ground (arith, exact x, ins.added x))
