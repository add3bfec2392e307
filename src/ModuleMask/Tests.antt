-- ===== src/ModuleMask/Tests.antt =====
-- Masks of seventy modules, which take two words.
use unpack.Prelude.{ℕ, none, some, [], ◌∷◌, ◌≡◌, refl, Option, contains, nat_eq}
use unpack.ModuleMask.{ModuleMask, new_mask, from_modules, mask_contains, intersect_with}
use unpack.ModuleMask.Sets.{from_modules-contains}

abbrev or_new : Option ModuleMask → ModuleMask
or_new none = new_mask 0
or_new (some mask) = mask

abbrev left : ModuleMask
left = or_new (from_modules 70 (3 ∷ 69 ∷ []))

abbrev right : ModuleMask
right = or_new (from_modules 70 (69 ∷ 5 ∷ []))

abbrev both : ModuleMask
both = or_new (intersect_with left right)

left-returned : from_modules 70 (3 ∷ 69 ∷ []) ≡ some left
unfolding from_modules new_mask
left-returned = refl

both-returned : intersect_with left right ≡ some both
unfolding intersect_with from_modules new_mask
both-returned = refl

from_modules-contains_example : mask_contains left 69 ≡ contains {A = ℕ} (3 ∷ 69 ∷ []) 69
from_modules-contains_example = from_modules-contains 70 (3 ∷ 69 ∷ []) left 69 left-returned
