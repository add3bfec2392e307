-- ===== src/Prelude/Bits.antt =====
-- The bit laws of `&` and `|` on machine words, at variables.
use Prim.Native.Nat.{
  ℕ, zero, suc, ◌+◌, ◌*◌, ◌/◌, ◌%◌, ◌^◌, ◌≤◌, min, max, bit_and, bit_or, digits, bit_and-bitwise,
  bit_or-bitwise,
}
use mathlib.Core.Path.{◌≡◌, refl, ap, ◌∙◌}
use mathlib.Core.Bool.{Bool, true, false, not, ◌&&◌, ◌||◌}
use native.Mathlib.Omega.{arith}
use native.Mathlib.Nat.{pow-suc, one-le-pow}
use unpack.Prelude.Tests.{◌==◌, nat_eq, if◌then◌else◌}

-- The native operations run on as much fuel as their first argument is large. Halving it needs less,
-- and the result is the same.
module _ (rest : ℕ → ℕ) (join : ℕ → ℕ → ℕ) where
  refuelled : (x y k l : ℕ) → k ≤ x → k ≤ y → digits rest join x k l ≡ digits rest join y k l
  refuelled (suc x) (suc y) (suc k) l low high =
      let halves = refuelled x y (suc k / 2) (l / 2) (omega arith) (omega arith) in omega arith
  refuelled (suc x) (suc y) zero l low high = refl
  refuelled zero (suc y) zero l low high = refl
  refuelled (suc x) zero zero l low high = refl
  refuelled zero zero zero l low high = refl
  refuelled zero y (suc k) l low high = absurd (omega arith)
  refuelled (suc x) zero (suc k) l low high = absurd (omega arith)

  last_fuel :
      (k l : ℕ) → digits rest join k (suc k / 2) l ≡ digits rest join (suc k / 2) (suc k / 2) l
  last_fuel k l = refuelled k (suc k / 2) (suc k / 2) l (omega arith) (omega arith)

bit_and_step : (x y : ℕ) → bit_and x y ≡ bit_and (x / 2) (y / 2) * 2 + min (x % 2) (y % 2)
bit_and_step zero y = omega (arith, bit_and-bitwise 0 (y / 2), bit_and-bitwise 0 y)
bit_and_step (suc x) y =
    let halves = last_fuel (λ l. zero) min x (y / 2) in
    omega (arith, halves, bit_and-bitwise (suc x / 2) (y / 2), bit_and-bitwise (suc x) y)

bit_or_step : (x y : ℕ) → bit_or x y ≡ bit_or (x / 2) (y / 2) * 2 + max (x % 2) (y % 2)
bit_or_step zero y = omega (arith, bit_or-bitwise 0 (y / 2), bit_or-bitwise 0 y)
bit_or_step (suc x) y =
    let halves = last_fuel (λ l. l) max x (y / 2) in
    omega (arith, halves, bit_or-bitwise (suc x / 2) (y / 2), bit_or-bitwise (suc x) y)

-- The digit of weight 2^k.
digit : ℕ → ℕ → ℕ
digit w zero = w % 2
digit w (suc k) = digit (w / 2) k

digit-bit_and : (k a b : ℕ) → digit (bit_and a b) k ≡ min (digit a k) (digit b k)
unfolding digit
digit-bit_and zero a b = omega (arith, bit_and_step a b)
digit-bit_and (suc k) a b =
    ap (λ w. digit w k) (omega (arith, bit_and_step a b)) ∙ digit-bit_and k (a / 2) (b / 2)

digit-bit_or : (k a b : ℕ) → digit (bit_or a b) k ≡ max (digit a k) (digit b k)
unfolding digit
digit-bit_or zero a b = omega (arith, bit_or_step a b)
digit-bit_or (suc k) a b =
    ap (λ w. digit w k) (omega (arith, bit_or_step a b)) ∙ digit-bit_or k (a / 2) (b / 2)

digit-le-one : (k w : ℕ) → digit w k ≤ 1
unfolding digit
digit-le-one zero w = omega arith
digit-le-one (suc k) w = digit-le-one k (w / 2)

digit-zero : (k : ℕ) → digit 0 k ≡ 0
unfolding digit
digit-zero zero = refl
digit-zero (suc k) = digit-zero k

digit-pow : (i j : ℕ) → digit (2 ^ i) j ≡ (if i == j then 1 else 0)
unfolding digit
digit-pow zero zero = refl
digit-pow zero (suc j) = ground (arith, digit-zero j)
digit-pow (suc i) zero = ground (arith, pow-suc 2 i)
digit-pow (suc i) (suc j) =
    ap (λ w. digit w j) (omega (arith, pow-suc 2 i)) ∙ digit-pow i j ∙ ground arith

bit_and-zero : (bound w : ℕ) → w ≤ bound → bit_and w 0 ≡ 0
bit_and-zero zero (suc w) h = absurd (omega arith)
bit_and-zero (suc bound) (suc w) h =
    let half = bit_and-zero bound (suc w / 2) (omega arith) in
    omega (arith, half, bit_and_step (suc w) 0)
bit_and-zero bound zero h = refl

bit_and-pow : (k w : ℕ) → bit_and w (2 ^ k) ≡ digit w k * 2 ^ k
unfolding digit
bit_and-pow zero w = omega (arith, bit_and_step w 1, bit_and-zero (w / 2) (w / 2) (omega arith))
bit_and-pow (suc k) w =
    let half : 2 ^ suc k / 2 ≡ 2 ^ k = omega (arith, pow-suc 2 k) in
    let below : bit_and (w / 2) (2 ^ suc k / 2) ≡ digit (w / 2) k * 2 ^ k =
      ap (λ m. bit_and (w / 2) m) half ∙ bit_and-pow k (w / 2) in
    let scaled : digit (w / 2) k * 2 ^ suc k ≡ digit (w / 2) k * 2 ^ k * 2 =
      omega (arith, ap (λ m. digit (w / 2) k * m) (pow-suc 2 k)) in
    omega (arith, bit_and_step w (2 ^ suc k), pow-suc 2 k, below, scaled)

-- `w & (1 << k) != 0`
unfoldable pub test_bit : ℕ → ℕ → Bool
test_bit w k = not (bit_and w (2 ^ k) == 0)

test_bit-digit : (w k : ℕ) → test_bit w k ≡ (digit w k == 1)
unfolding test_bit
test_bit-digit w k = grind (arith, bit_and-pow k w, digit-le-one k w, one-le-pow k 2)

pub test_bit-zero : (k : ℕ) → test_bit 0 k ≡ false
test_bit-zero k = ground (arith, test_bit-digit 0 k, digit-zero k)

pub test_bit-or : (a b k : ℕ) → test_bit (bit_or a b) k ≡ (test_bit a k || test_bit b k)
test_bit-or a b k = ground (
  arith,
  test_bit-digit (bit_or a b) k,
  test_bit-digit a k,
  test_bit-digit b k,
  digit-bit_or k a b,
  digit-le-one k a,
  digit-le-one k b,
)

pub test_bit-and : (a b k : ℕ) → test_bit (bit_and a b) k ≡ (test_bit a k && test_bit b k)
test_bit-and a b k = ground (
  arith,
  test_bit-digit (bit_and a b) k,
  test_bit-digit a k,
  test_bit-digit b k,
  digit-bit_and k a b,
  digit-le-one k a,
  digit-le-one k b,
)

-- `w |= 1 << i` sets the bit i and leaves the others.
pub test_bit-set : (w i k : ℕ) → test_bit (bit_or w (2 ^ i)) k ≡ (test_bit w k || i == k)
test_bit-set w i k =
    ground (arith, test_bit-or w (2 ^ i) k, test_bit-digit (2 ^ i) k, digit-pow i k)

bit_or-zero : (bound w : ℕ) → w ≤ bound → bit_or w 0 ≡ w
bit_or-zero zero (suc w) h = absurd (omega arith)
bit_or-zero (suc bound) (suc w) h =
    let half = bit_or-zero bound (suc w / 2) (omega arith) in
    omega (arith, half, bit_or_step (suc w) 0)
bit_or-zero bound zero h = refl

bit_or-digit : (k w : ℕ) → digit w k ≡ 1 → bit_or w (2 ^ k) ≡ w
unfolding digit
bit_or-digit zero w h = omega (arith, bit_or_step w 1, bit_or-zero (w / 2) (w / 2) (omega arith))
bit_or-digit (suc k) w h =
    let half : 2 ^ suc k / 2 ≡ 2 ^ k = omega (arith, pow-suc 2 k) in
    let below : bit_or (w / 2) (2 ^ suc k / 2) ≡ w / 2 =
      ap (λ m. bit_or (w / 2) m) half ∙ bit_or-digit k (w / 2) h in
    omega (arith, bit_or_step w (2 ^ suc k), pow-suc 2 k, below)

-- Setting a bit that is set changes nothing.
pub bit_or-test_bit : (w k : ℕ) → test_bit w k ≡ true → bit_or w (2 ^ k) ≡ w
bit_or-test_bit w k h = bit_or-digit k w (ground (arith, test_bit-digit w k))
