-- ===== src/ModuleMask.antt =====
-- The `ModuleMask` of crates/unpack_core/src/build_chunk_graph.rs: a set of modules as the bits of words
-- of 64 bits. A panic is `none`.
pub mod Sets
mod Tests
use unpack.Prelude.{
  ℕ, ◌+◌, ◌/◌, ◌%◌, ◌^◌, Bool, false, Option, none, some, List, [], ◌∷◌, ◌>>=◌, ◌==◌, nat_eq,
  bit_and, bit_or, length, modify, get_elem?, replicate, if◌then◌else◌,
}
use unpack.Prelude.Bits.{test_bit}
use unpack.Module.{ModuleHandle}

abbrev pub modules_per_mask_word : ℕ
modules_per_mask_word = 64

pub record ModuleMask : Type 0 where
  pub words : List ℕ

unfoldable pub new_mask : ℕ → ModuleMask
new_mask module_count = record { words = replicate ((module_count + 63) / modules_per_mask_word) 0 }

unfoldable pub mask_insert : ModuleMask → ModuleHandle → Option (ModuleMask × Bool)
mask_insert mask m = do
  word ← get_elem? mask.words (m / modules_per_mask_word)
  let bit = 2 ^ (m % modules_per_mask_word)
  words ← modify mask.words (m / modules_per_mask_word) (λ w. bit_or w bit)
  some (record { words = words }, bit_and word bit == 0)

unfoldable pub mask_contains : ModuleMask → ModuleHandle → Bool
mask_contains mask m = elim (get_elem? mask.words (m / modules_per_mask_word)) [
  | none ↦ false
  | some word ↦ test_bit word (m % modules_per_mask_word)
]

unfoldable pub insert_modules : ModuleMask → List ModuleHandle → Option ModuleMask
unfolding mask_insert
insert_modules mask [] = some mask
insert_modules mask (m ∷ rest) = do next ← mask_insert mask m; insert_modules next.0 rest

unfoldable pub from_modules : ℕ → List ModuleHandle → Option ModuleMask
unfolding insert_modules
from_modules module_count modules = insert_modules (new_mask module_count) modules

unfoldable pub intersect_words : List ℕ → List ℕ → List ℕ
intersect_words [] _ = []
intersect_words (w ∷ ws) [] = w ∷ ws
intersect_words (w ∷ ws) (v ∷ vs) = bit_and w v ∷ intersect_words ws vs

unfoldable pub intersect_with : ModuleMask → ModuleMask → Option ModuleMask
unfolding intersect_words
intersect_with mask other =
    if length mask.words == length other.words
    then some (record { words = intersect_words mask.words other.words })
    else none
