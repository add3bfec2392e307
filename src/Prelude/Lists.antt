-- ===== src/Prelude/Lists.antt =====
-- `Vec` as a list: membership tests, `retain`, and the push that leaves out what is there.
use Prim.Native.Nat.{ℕ, suc, ◌+◌, ◌≤◌}
use mathlib.Core.Path.{◌≡◌, refl, ap}
use mathlib.Core.Logic.{◌↔◌, inl, inr}
use mathlib.Core.Bool.{Bool, true, false, ◌&&◌, ◌||◌}
use mathlib.Core.List.{List, [], ◌∷◌, ◌++◌}
use native.Mathlib.Omega.{arith}
use unpack.Prelude.Tests.{Eq, ◌==◌, Bool-cases, if◌then◌else◌}

module _ {ℓ} {A : Type ℓ} where
  abbrev pub length : List A → ℕ
  length [] = 0
  length (x ∷ xs) = suc (length xs)

  pub length-append : (xs ys : List A) → length (xs ++ ys) ≡ length xs + length ys
  length-append [] ys = omega arith
  length-append (x ∷ xs) ys = omega (arith, length-append xs ys)

  abbrev pub is_empty : List A → Bool
  is_empty [] = true
  is_empty (x ∷ xs) = false

  abbrev pub any : (A → Bool) → List A → Bool
  any p [] = false
  any p (x ∷ xs) = p x || any p xs

  abbrev pub all : (A → Bool) → List A → Bool
  all p [] = true
  all p (x ∷ xs) = p x && all p xs

  -- `Vec::retain`, and `Iterator::filter` followed by `collect`
  abbrev pub retain : (A → Bool) → List A → List A
  retain p [] = []
  retain p (x ∷ xs) = let rest = retain p xs in if p x then x ∷ rest else rest

  pub length-retain : (p : A → Bool) (xs : List A) → length (retain p xs) ≤ length xs
  length-retain p [] = omega arith
  length-retain p (x ∷ xs) = ground (arith, length-retain p xs)

  pub any-retain : (f p : A → Bool) (xs : List A) → any f (retain p xs) ≡ any (λ x. p x && f x) xs
  any-retain f p [] = refl
  any-retain f p (x ∷ xs) = ground (arith, any-retain f p xs)

  pub any_elim : (f : A → Bool) (xs : List A) → any f xs ≡ true → (x : A) × (f x ≡ true)
  any_elim f [] h = cc
  any_elim f (x ∷ xs) h = elim (Bool-cases (f x)) [
    | inl found ↦ (x, found)
    | inr later ↦ any_elim f xs (ground arith)
  ]

module _ {ℓ} {A : Type ℓ} ⦃e : Eq A⦄ where
  -- `slice::contains`
  abbrev pub contains : List A → A → Bool
  contains [] a = false
  contains (x ∷ xs) a = x == a || contains xs a

  -- `if !self.xs.contains(&a) { self.xs.push(a); }`
  abbrev pub push_unique : List A → A → List A
  push_unique xs a = if contains xs a then xs else xs ++ a ∷ []

  pub contains-append :
      (xs ys : List A) (a : A) → contains (xs ++ ys) a ≡ (contains xs a || contains ys a)
  contains-append [] ys a = refl
  contains-append (x ∷ xs) ys a = ground (arith, contains-append xs ys a)

  pub contains-push :
      (xs : List A) (a b : A) → contains (xs ++ a ∷ []) b ≡ (contains xs b || a == b)
  contains-push [] a b = ground arith
  contains-push (x ∷ xs) a b = ground (arith, contains-push xs a b)

  pub contains-push_unique :
      (xs : List A) (a b : A) → contains (push_unique xs a) b ≡ (contains xs b || a == b)
  contains-push_unique xs a b = elim (Bool-cases (a == b)) [
    | inl same ↦ ground (arith, contains-push xs a b, e.eqb_iff a b)
    | inr apart ↦ ground (arith, contains-push xs a b)
  ]

  pub contains-retain :
      (p : A → Bool) (xs : List A) (a : A) → contains (retain p xs) a ≡ (contains xs a && p a)
  contains-retain p [] a = refl
  contains-retain p (x ∷ xs) a = elim (Bool-cases (x == a)) [
    | inl same ↦
        ground (arith, contains-retain p xs a, e.eqb_iff x a, ap p ((e.eqb_iff x a).0 same))
    | inr apart ↦ ground (arith, contains-retain p xs a)
  ]

  -- The list holds no element twice.
  abbrev pub IsUnique : List A → Type 0
  IsUnique [] = Unit
  IsUnique (x ∷ xs) = (contains xs x ≡ false) × IsUnique xs

  pub any_intro :
      (f : A → Bool) (xs : List A) (x : A) → contains xs x ≡ true → f x ≡ true → any f xs ≡ true
  any_intro f [] x h t = cc
  any_intro f (y ∷ ys) x h t = elim (Bool-cases (y == x)) [
    | inl same ↦ ground (arith, ap f ((e.eqb_iff y x).0 same))
    | inr apart ↦ ground (arith, any_intro f ys x)
  ]

module _ {ℓ} {A : Type ℓ} ⦃e : Eq A⦄ where
  pub IsUnique-push :
      (xs : List A) (a : A) → contains xs a ≡ false → IsUnique xs → IsUnique (xs ++ a ∷ [])
  IsUnique-push [] a new h = (refl, tt)
  IsUnique-push (x ∷ xs) a new (h, hs) = (
    ground (arith, contains-push xs a x, e.eqb_iff a x, e.eqb_iff x a),
    IsUnique-push xs a (ground arith) hs,
  )

  pub IsUnique-drop :
      (xs : List A) (a : A) (ys : List A) → IsUnique (xs ++ a ∷ ys) → IsUnique (xs ++ ys)
  IsUnique-drop [] a ys (h, hs) = hs
  IsUnique-drop (x ∷ xs) a ys (h, hs) = (
    ground (arith, contains-append xs (a ∷ ys) x, contains-append xs ys x),
    IsUnique-drop xs a ys hs,
  )

module _ {ℓ} {A : Type ℓ} ⦃e : Eq A⦄ where
  abbrev pub list_eqb : List A → List A → Bool
  list_eqb [] [] = true
  list_eqb [] (y ∷ ys) = false
  list_eqb (x ∷ xs) [] = false
  list_eqb (x ∷ xs) (y ∷ ys) = x == y && list_eqb xs ys

  pub list_eqb_iff : (xs ys : List A) → (list_eqb xs ys ≡ true) ↔ (xs ≡ ys)
  list_eqb_iff [] [] = ground arith
  list_eqb_iff [] (y ∷ ys) = ground arith
  list_eqb_iff (x ∷ xs) [] = ground arith
  list_eqb_iff (x ∷ xs) (y ∷ ys) = ground (arith, e.eqb_iff x y, list_eqb_iff xs ys)

  instance abbrev pub list_eq : Eq (List A)
  list_eq = record { eqb = list_eqb; eqb_iff = list_eqb_iff }
