-- ===== src/Prelude/Bits.antt =====
-- `&` on native numbers, as far as a mask 2 ^ k - 1 needs it.
use Prim.Native.Nat.{
  ℕ, zero, suc, ◌+◌, ◌-◌, ◌*◌, ◌/◌, ◌%◌, ◌^◌, ◌≤◌, ◌<◌, min, bit_and, digits, bit_and-bitwise,
}
use mathlib.Core.Path.{◌≡◌, refl, ap₂}
use native.Mathlib.Omega.{arith}
use native.Mathlib.Nat.{pow-suc}

-- What `&` does digit by digit, with the number of rounds that it is given.
abbrev masked : (rounds x mask : ℕ) → ℕ
masked = digits (λ y. zero) min

masked_rounds : (x m f g : ℕ) → x ≤ f → x ≤ g → masked f x m ≡ masked g x m
masked_rounds zero m zero zero u v = refl
masked_rounds zero m zero (suc g) u v = refl
masked_rounds zero m (suc f) zero u v = refl
masked_rounds zero m (suc f) (suc g) u v = refl
masked_rounds (suc x) m zero g u v = absurd (omega arith)
masked_rounds (suc x) m (suc f) zero u v = absurd (omega arith)
masked_rounds (suc x) m (suc f) (suc g) u v =
    let lower = masked_rounds (suc x / 2) (m / 2) f g (omega arith) (omega arith) in
    omega (arith, lower)

none-bit_and : (m : ℕ) → bit_and 0 m ≡ 0
none-bit_and m = bit_and-bitwise 0 m

-- `&` halves both numbers and takes the last digit of each.
bit_and-halves : (x m : ℕ) → bit_and x m ≡ min (x % 2) (m % 2) + 2 * bit_and (x / 2) (m / 2)
bit_and-halves zero m = omega (arith, none-bit_and m, none-bit_and (m / 2))
bit_and-halves (suc x) m =
    let rounds = masked_rounds (suc x / 2) (m / 2) x (suc x / 2) (omega arith) (omega arith) in
    let whole = bit_and-bitwise (suc x) m in
    let half = bit_and-bitwise (suc x / 2) (m / 2) in omega (arith, rounds, whole, half)

bit_and-le_fuel : (n a b : ℕ) → a ≤ n → bit_and a b ≤ b
bit_and-le_fuel n zero b h = omega (arith, none-bit_and b)
bit_and-le_fuel zero (suc a) b h = absurd (omega arith)
bit_and-le_fuel (suc n) (suc a) b h =
    omega (arith, bit_and-halves (suc a) b, bit_and-le_fuel n (suc a / 2) (b / 2) (omega arith))

-- A masked number is at most the mask.
pub bit_and-le : (a b : ℕ) → bit_and a b ≤ b
bit_and-le a b = bit_and-le_fuel a a b (omega arith)

pub pow_pos : (k : ℕ) → 0 < 2 ^ k
pow_pos zero = omega arith
pow_pos (suc k) = omega (arith, pow_pos k, pow-suc 2 k)

bit_and-double : (p q r : ℕ) → q ≡ 2 * p - 1 → r ≡ 2 * p → bit_and q r ≡ bit_and (p - 1) p * 2
bit_and-double p q r e f =
    let halves : bit_and (q / 2) (r / 2) ≡ bit_and (p - 1) p =
      ap₂ bit_and (omega arith) (omega arith) in
    omega (arith, bit_and-halves q r, halves)

-- The test of `h_init` for a power of two.
pub bit_and-pow : (k : ℕ) → bit_and (2 ^ k - 1) (2 ^ k) ≡ 0
bit_and-pow zero = refl
bit_and-pow (suc k) = omega (
  arith,
  bit_and-double (2 ^ k) (2 ^ suc k - 1) (2 ^ suc k) (omega (arith, pow-suc 2 k))
      (omega (arith, pow-suc 2 k)),
  bit_and-pow k,
)
