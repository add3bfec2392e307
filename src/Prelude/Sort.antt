-- ===== src/Prelude/Sort.antt =====
-- The stable sort of `slice::sort_by`, and the order of texts.
use Prim.Native.Char.{code}
use Prim.Native.String.{String}
use Prim.Native.Nat.{compare, Ordering}
use mathlib.Core.Path.{◌≡◌, refl}
use mathlib.Core.Bool.{Bool, true, false, ◌||◌}
use mathlib.Core.List.{List, [], ◌∷◌}
use native.Mathlib.Omega.{arith}
use unpack.Prelude.Tests.{Eq, ◌==◌, if◌then◌else◌}
use unpack.Prelude.Lists.{contains}

-- `Ordering::then`
abbrev pub then_cmp : Ordering → Ordering → Ordering
then_cmp Ordering.eq o = o
then_cmp o _ = o

abbrev pub is_gt : Ordering → Bool
is_gt Ordering.gt = true
is_gt _ = false

-- The order of `str`: by bytes, which for UTF-8 is by code points.
abbrev pub cmp_str : String → String → Ordering
cmp_str String.[] String.[] = Ordering.eq
cmp_str String.[] (String.◌∷◌ c t) = Ordering.lt
cmp_str (String.◌∷◌ c s) String.[] = Ordering.gt
cmp_str (String.◌∷◌ c s) (String.◌∷◌ d t) = then_cmp (compare (code c) (code d)) (cmp_str s t)

module _ {ℓ} {A : Type ℓ} (cmp : A → A → Ordering) where
  -- `x` goes before the elements that equal it, which stood behind it.
  abbrev pub insert_sorted : A → List A → List A
  insert_sorted x [] = x ∷ []
  insert_sorted x (y ∷ ys) =
      let later = insert_sorted x ys in if is_gt (cmp x y) then y ∷ later else x ∷ y ∷ ys

  abbrev pub sort_by : List A → List A
  sort_by [] = []
  sort_by (x ∷ xs) = insert_sorted x (sort_by xs)

module _ {ℓ} {A : Type ℓ} ⦃e : Eq A⦄ (cmp : A → A → Ordering) where
  pub contains-insert_sorted :
      (x : A) (xs : List A) (a : A)
      → contains (insert_sorted cmp x xs) a ≡ (x == a || contains xs a)
  contains-insert_sorted x [] a = refl
  contains-insert_sorted x (y ∷ ys) a = ground (arith, contains-insert_sorted x ys a)

  -- Sorting keeps the elements.
  pub contains-sort_by : (xs : List A) (a : A) → contains (sort_by cmp xs) a ≡ contains xs a
  contains-sort_by [] a = refl
  contains-sort_by (x ∷ xs) a =
      ground (arith, contains-insert_sorted x (sort_by cmp xs) a, contains-sort_by xs a)

module _ {ℓ} {A : Type ℓ} ⦃e : Eq A⦄ where
  -- `Vec::dedup`: of equal neighbours the first stays.
  abbrev pub dedup_from : A → List A → List A
  dedup_from x [] = []
  dedup_from x (y ∷ ys) = let rest = dedup_from y ys in if x == y then rest else y ∷ rest

  abbrev pub dedup : List A → List A
  dedup [] = []
  dedup (x ∷ xs) = x ∷ dedup_from x xs

  contains-dedup_from :
      (x : A) (xs : List A) (a : A)
      → (x == a || contains (dedup_from x xs) a) ≡ (x == a || contains xs a)
  contains-dedup_from x [] a = refl
  contains-dedup_from x (y ∷ ys) a =
      ground (arith, contains-dedup_from y ys a, e.eqb_iff x y, e.eqb_iff x a, e.eqb_iff y a)

  pub contains-dedup : (xs : List A) (a : A) → contains (dedup xs) a ≡ contains xs a
  contains-dedup [] a = refl
  contains-dedup (x ∷ xs) a = contains-dedup_from x xs a
