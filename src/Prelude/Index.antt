-- ===== src/Prelude/Index.antt =====
-- Indexing: `v.get(i)`, `v[i]`, writes through `v[i]`, and `resize_with`.
use Prim.Native.Nat.{ℕ, zero, suc, ◌-◌, ◌≤◌, ◌<◌, min}
use mathlib.Core.Path.{◌≡◌, refl, ap}
use mathlib.Core.Option.{Option, none, some}
use mathlib.Core.List.{List, [], ◌∷◌, ◌++◌}
use native.Mathlib.Omega.{arith}
use unpack.Prelude.Tests.{◌==◌, nat_eq, if◌then◌else◌, ◌>>=◌, >>=-eq-some}
use unpack.Prelude.Lists.{length, length-append}

abbrev pub map_option {ℓ κ} : {A : Type ℓ} {B : Type κ} → (A → B) → Option A → Option B
map_option f none = none
map_option f (some a) = some (f a)

module _ {ℓ} {A : Type ℓ} where
  -- `v.get(i)`; `v[i]` panics where this is `none`
  abbrev pub get_elem? : List A → ℕ → Option A
  get_elem? [] i = none
  get_elem? (x ∷ xs) zero = some x
  get_elem? (x ∷ xs) (suc i) = get_elem? xs i

  -- `v.get(i).unwrap_or(d)`
  abbrev pub get_or : List A → ℕ → A → A
  get_or [] i d = d
  get_or (x ∷ xs) zero d = x
  get_or (x ∷ xs) (suc i) d = get_or xs i d

  -- A write through `v[i]`, which panics out of range.
  abbrev pub modify : List A → ℕ → (A → A) → Option (List A)
  modify [] i f = none
  modify (x ∷ xs) zero f = some (f x ∷ xs)
  modify (x ∷ xs) (suc i) f = modify xs i f >>= λ ys. some (x ∷ ys)

  abbrev pub replicate : ℕ → A → List A
  replicate zero a = []
  replicate (suc n) a = a ∷ replicate n a

  abbrev pub take : ℕ → List A → List A
  take zero xs = []
  take (suc n) [] = []
  take (suc n) (x ∷ xs) = x ∷ take n xs

  -- `v.resize_with(n, || d)`
  abbrev pub resize_with : List A → ℕ → A → List A
  resize_with xs n d = take n xs ++ replicate (n - length xs) d

  -- A write through `v.get_mut(i)`: out of range nothing happens.
  abbrev pub update : List A → ℕ → (A → A) → List A
  update [] i f = []
  update (x ∷ xs) zero f = f x ∷ xs
  update (x ∷ xs) (suc i) f = x ∷ update xs i f

  pub length-replicate : (n : ℕ) (a : A) → length (replicate n a) ≡ n
  length-replicate zero a = refl
  length-replicate (suc n) a = ap suc (length-replicate n a)

  pub modify_total :
      (xs : List A) (i : ℕ) (f : A → A) → i < length xs → (ys : List A) × (modify xs i f ≡ some ys)
  modify_total [] i f h = absurd (omega arith)
  modify_total (x ∷ xs) zero f h = (f x ∷ xs, refl)
  modify_total (x ∷ xs) (suc i) f h =
      let (ys, e) = modify_total xs i f (omega arith) in (x ∷ ys, ground (arith, e))

  pub modify_in_range :
      (xs : List A) (i : ℕ) (f : A → A) (ys : List A) → modify xs i f ≡ some ys → i < length xs
  modify_in_range [] i f ys h = cc
  modify_in_range (x ∷ xs) zero f ys h = omega arith
  modify_in_range (x ∷ xs) (suc i) f ys h =
      let (zs, found, _) = >>=-eq-some (modify xs i f) (λ zs. some (x ∷ zs)) h in
      omega (arith, modify_in_range xs i f zs found)

  pub length-modify :
      (xs : List A) (i : ℕ) (f : A → A) (ys : List A)
      → modify xs i f ≡ some ys
      → length ys ≡ length xs
  length-modify [] i f ys h = cc
  length-modify (x ∷ xs) zero f ys h = ground arith
  length-modify (x ∷ xs) (suc i) f ys h =
      let (zs, found, e) = >>=-eq-some (modify xs i f) (λ zs. some (x ∷ zs)) h in
      let shorter = length-modify xs i f zs found in ground arith

  pub get_or-modify :
      (xs : List A) (i : ℕ) (f : A → A) (ys : List A) (j : ℕ) (d : A)
      → modify xs i f ≡ some ys
      → get_or ys j d ≡ (if i == j then f (get_or xs j d) else get_or xs j d)
  get_or-modify [] i f ys j d h = cc
  get_or-modify (x ∷ xs) zero f ys zero d h = ground arith
  get_or-modify (x ∷ xs) zero f ys (suc j) d h = ground arith
  get_or-modify (x ∷ xs) (suc i) f ys zero d h =
      let (zs, found, e) = >>=-eq-some (modify xs i f) (λ zs. some (x ∷ zs)) h in ground arith
  get_or-modify (x ∷ xs) (suc i) f ys (suc j) d h =
      let (zs, found, e) = >>=-eq-some (modify xs i f) (λ zs. some (x ∷ zs)) h in
      let below = get_or-modify xs i f zs j d found in ground arith

  pub get_or-append_default :
      (xs : List A) (n j : ℕ) (d : A) → get_or (xs ++ replicate n d) j d ≡ get_or xs j d
  get_or-append_default [] zero j d = refl
  get_or-append_default [] (suc n) zero d = refl
  get_or-append_default [] (suc n) (suc j) d = get_or-append_default [] n j d
  get_or-append_default (x ∷ xs) n zero d = refl
  get_or-append_default (x ∷ xs) n (suc j) d = get_or-append_default xs n j d

  take_all : (n : ℕ) (xs : List A) → length xs ≤ n → take n xs ≡ xs
  take_all zero [] h = refl
  take_all zero (x ∷ xs) h = absurd (omega arith)
  take_all (suc n) [] h = refl
  take_all (suc n) (x ∷ xs) h = ap (λ ys. x ∷ ys) (take_all n xs (omega arith))

  pub get_or-resize_with :
      (xs : List A) (n j : ℕ) (d : A)
      → length xs ≤ n
      → get_or (resize_with xs n d) j d ≡ get_or xs j d
  get_or-resize_with xs n j d h =
      rw (take_all n xs h) (get_or-append_default xs (n - length xs) j d)

  length-take : (n : ℕ) (xs : List A) → length (take n xs) ≡ min n (length xs)
  length-take zero xs = omega arith
  length-take (suc n) [] = omega arith
  length-take (suc n) (x ∷ xs) = omega (arith, length-take n xs)

  pub length-resize_with : (xs : List A) (n : ℕ) (d : A) → length (resize_with xs n d) ≡ n
  length-resize_with xs n d = omega (
    arith,
    length-append (take n xs) (replicate (n - length xs) d),
    length-replicate (n - length xs) d,
    length-take n xs,
  )

  pub length-update : (xs : List A) (i : ℕ) (f : A → A) → length (update xs i f) ≡ length xs
  length-update [] i f = refl
  length-update (x ∷ xs) zero f = refl
  length-update (x ∷ xs) (suc i) f = ap suc (length-update xs i f)

  -- Where `f` keeps the default, an update is seen by every read with that default.
  pub get_or-update :
      (xs : List A) (i : ℕ) (f : A → A) (j : ℕ) (d : A)
      → f d ≡ d
      → get_or (update xs i f) j d ≡ (if i == j then f (get_or xs j d) else get_or xs j d)
  get_or-update [] i f j d h = ground arith
  get_or-update (x ∷ xs) zero f zero d h = ground arith
  get_or-update (x ∷ xs) zero f (suc j) d h = ground arith
  get_or-update (x ∷ xs) (suc i) f zero d h = ground arith
  get_or-update (x ∷ xs) (suc i) f (suc j) d h = ground (arith, get_or-update xs i f j d h)

  pub get_elem?-lt : (xs : List A) (i : ℕ) → i < length xs → (a : A) × (get_elem? xs i ≡ some a)
  get_elem?-lt [] i h = absurd (omega arith)
  get_elem?-lt (x ∷ xs) zero h = (x, refl)
  get_elem?-lt (x ∷ xs) (suc i) h = get_elem?-lt xs i (omega arith)

  pub get_elem?-ge : (xs : List A) (i : ℕ) → length xs ≤ i → get_elem? xs i ≡ none
  get_elem?-ge [] i h = refl
  get_elem?-ge (x ∷ xs) zero h = absurd (omega arith)
  get_elem?-ge (x ∷ xs) (suc i) h = get_elem?-ge xs i (omega arith)

  pub lt-length_of_get_elem? :
      (xs : List A) (i : ℕ) {a : A} → get_elem? xs i ≡ some a → i < length xs
  lt-length_of_get_elem? [] i h = cc
  lt-length_of_get_elem? (x ∷ xs) zero h = omega arith
  lt-length_of_get_elem? (x ∷ xs) (suc i) h = omega (arith, lt-length_of_get_elem? xs i h)

  pub get_elem?-push :
      (xs : List A) (a : A) (i : ℕ)
      → get_elem? (xs ++ a ∷ []) i ≡ (if length xs == i then some a else get_elem? xs i)
  get_elem?-push [] a zero = refl
  get_elem?-push [] a (suc i) = ground arith
  get_elem?-push (x ∷ xs) a zero = ground arith
  get_elem?-push (x ∷ xs) a (suc i) = ground (arith, get_elem?-push xs a i)

  -- Pushing the default changes no read with that default.
  pub get_or-push : (xs : List A) (d : A) (i : ℕ) → get_or (xs ++ d ∷ []) i d ≡ get_or xs i d
  get_or-push xs d i = get_or-append_default xs 1 i d

  pub get_elem?-modify :
      (xs : List A) (i : ℕ) (f : A → A) (ys : List A) (j : ℕ)
      → modify xs i f ≡ some ys
      → get_elem? ys j ≡ (if i == j then map_option f (get_elem? xs j) else get_elem? xs j)
  get_elem?-modify [] i f ys j h = cc
  get_elem?-modify (x ∷ xs) zero f ys zero h = ground arith
  get_elem?-modify (x ∷ xs) zero f ys (suc j) h = ground arith
  get_elem?-modify (x ∷ xs) (suc i) f ys zero h =
      let (zs, found, e) = >>=-eq-some (modify xs i f) (λ zs. some (x ∷ zs)) h in ground arith
  get_elem?-modify (x ∷ xs) (suc i) f ys (suc j) h =
      let (zs, found, e) = >>=-eq-some (modify xs i f) (λ zs. some (x ∷ zs)) h in
      let below = get_elem?-modify xs i f zs j found in ground arith

  pub get_or-get_elem? :
      (xs : List A) (i : ℕ) (d : A)
      → get_or xs i d ≡ elim (get_elem? xs i) [ none ↦ d | some a ↦ a ]
  get_or-get_elem? [] i d = refl
  get_or-get_elem? (x ∷ xs) zero d = refl
  get_or-get_elem? (x ∷ xs) (suc i) d = get_or-get_elem? xs i d
