-- ===== src/Prelude/Int.antt =====
-- Signed integers, and the two's complement pattern of an `int64_t` or an `int32_t`.
use Prim.Native.Nat.{ℕ, ◌+◌, ◌-◌, ◌%◌, ◌^◌, ◌<◌}
use mathlib.Core.Path.{◌≡◌}
use mathlib.Core.Bool.{Bool, true, false}
use native.Mathlib.Omega.{arith}
use greenis.Prelude.Tests.{ltb, if◌then◌else◌}

-- `negsuc n` is -(n + 1).
pub data ℤ : Type 0 where
  pos : ℕ → ℤ
  negsuc : ℕ → ℤ

-- The bytes of an `int64_t`, as the `uint64_t` that has them.
abbrev pub to_u64 : ℤ → ℕ
to_u64 (pos n) = n % 2 ^ 64
to_u64 (negsuc n) = 2 ^ 64 - 1 - n % 2 ^ 64

abbrev pub from_u64 : ℕ → ℤ
from_u64 w = if ltb w (2 ^ 63) then pos w else negsuc (2 ^ 64 - 1 - w)

-- The value range of `int64_t`.
abbrev pub IsInt64 : ℤ → Type 0
IsInt64 (pos n) = n < 2 ^ 63
IsInt64 (negsuc n) = n < 2 ^ 63

-- The conversion of a `uint32_t` to `int32_t`.
abbrev pub from_u32 : ℕ → ℤ
from_u32 w = if ltb w (2 ^ 31) then pos w else negsuc (2 ^ 32 - 1 - w)

abbrev pub is_negative : ℤ → Bool
is_negative (pos n) = false
is_negative (negsuc n) = true

pub to_u64-lt : (v : ℤ) → to_u64 v < 2 ^ 64
to_u64-lt (pos n) = omega arith
to_u64-lt (negsuc n) = omega arith

pub from_u64-to_u64 : (v : ℤ) → IsInt64 v → from_u64 (to_u64 v) ≡ v
from_u64-to_u64 (pos n) h = ground arith
from_u64-to_u64 (negsuc n) h = ground arith

-- Additions and comparisons that stay within 64 bits.
abbrev pub add_nat : ℤ → ℕ → ℤ
add_nat (pos n) k = pos (n + k)
add_nat (negsuc n) k = if ltb n k then pos (k - (n + 1)) else negsuc (n - k)

abbrev pub sub_nat : ℤ → ℕ → ℤ
sub_nat (pos n) k = if ltb n k then negsuc (k - (n + 1)) else pos (n - k)
sub_nat (negsuc n) k = negsuc (n + k)

abbrev pub less : ℤ → ℤ → Bool
less (pos n) (pos m) = ltb n m
less (pos n) (negsuc m) = false
less (negsuc n) (pos m) = true
less (negsuc n) (negsuc m) = ltb m n
