-- ===== src/Prelude/Maps.antt =====
-- `FxHashMap` and `BTreeMap` as association lists with one entry for a key.
use mathlib.Core.Path.{◌≡◌, refl}
use mathlib.Core.Option.{Option, none, some}
use mathlib.Core.List.{List, [], ◌∷◌}
use native.Mathlib.Omega.{arith}
use mathlib.Core.Bool.{Bool, true, ◌&&◌}
use mathlib.Core.Logic.{inl, inr}
use unpack.Prelude.Tests.{Bool-cases, Eq, ◌==◌, if◌then◌else◌}

abbrev pub Map {ℓ κ} : Type ℓ → Type κ → Type (ℓ ⊔ κ)
Map K V = List (K × V)

module _ {ℓ κ} {K : Type ℓ} {V : Type κ} ⦃e : Eq K⦄ where
  abbrev pub get : K → Map K V → Option V
  get k [] = none
  get k ((j, v) ∷ m) = if j == k then some v else get k m

  abbrev pub insert : K → V → Map K V → Map K V
  insert k v [] = (k, v) ∷ []
  insert k v ((j, w) ∷ m) = if j == k then (j, v) ∷ m else (j, w) ∷ insert k v m

  abbrev pub remove : K → Map K V → Map K V
  remove k [] = []
  remove k ((j, v) ∷ m) = let rest = remove k m in if j == k then rest else (j, v) ∷ rest

  pub get-insert :
      (k j : K) (v : V) (m : Map K V) → get j (insert k v m) ≡ (if k == j then some v else get j m)
  get-insert k j v [] = refl
  get-insert k j v ((i, w) ∷ m) =
      ground (arith, get-insert k j v m, e.eqb_iff i k, e.eqb_iff i j, e.eqb_iff k j)

  pub get-remove : (k j : K) (m : Map K V) → get j (remove k m) ≡ (if k == j then none else get j m)
  get-remove k j [] = ground arith
  get-remove k j ((i, w) ∷ m) =
      ground (arith, get-remove k j m, e.eqb_iff i k, e.eqb_iff i j, e.eqb_iff k j)

-- `map.values().all(f)`
abbrev pub all_values {ℓ κ} : {K : Type ℓ} {V : Type κ} → (V → Bool) → Map K V → Bool
all_values f [] = true
all_values f ((k, v) ∷ m) = f v && all_values f m

module _ {ℓ κ} {K : Type ℓ} {V : Type κ} ⦃e : Eq K⦄ (f : V → Bool) where
  pub all_values-insert :
      (k : K) (v : V) (m : Map K V)
      → all_values f m ≡ true
      → f v ≡ true
      → all_values f (insert k v m) ≡ true
  all_values-insert k v [] h g = ground arith
  all_values-insert k v ((j, w) ∷ m) h g = ground (arith, all_values-insert k v m)

  -- What is replaced holds where what replaces it does.
  pub all_values_before-insert :
      (k : K) (v : V) (m : Map K V)
      → ((w : V) → get k m ≡ some w → f v ≡ true → f w ≡ true)
      → all_values f (insert k v m) ≡ true
      → all_values f m ≡ true
  all_values_before-insert k v [] old h = refl
  all_values_before-insert k v ((j, w) ∷ m) old h = elim (Bool-cases (j == k)) [
    | inl same ↦ ground (arith, old w)
    | inr apart ↦ ground (arith, all_values_before-insert k v m (λ u g. old u (ground arith)))
  ]
