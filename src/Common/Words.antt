-- ===== src/Common/Words.antt =====
-- Machine words: the conversions of `static_cast`, which keep the low bits.
use Prim.Native.Nat.{ℕ, ◌<◌, ◌+◌, ◌-◌, ◌%◌, ◌^◌}
use tt_wavelet.Common.Tests.{ltb, if◌then◌else◌}
use mathlib.Core.Path.{◌≡◌}
use native.Mathlib.Omega.{arith}
use tt_wavelet.Common.Int.{ℤ, pos, negsuc, pos_part, neg_part, ◌≤ℤ◌, ◌-ℤ◌}

-- The values of `int32_t` and of `int64_t`.
abbrev pub IsI32 : ℤ → Type 0
IsI32 (pos a) = a < 2 ^ 31
IsI32 (negsuc a) = a < 2 ^ 31

abbrev pub IsI64 : ℤ → Type 0
IsI64 (pos a) = a < 2 ^ 63
IsI64 (negsuc a) = a < 2 ^ 63

abbrev pub u32 : ℕ → ℕ
u32 n = n % 2 ^ 32

abbrev pub u64 : ℕ → ℕ
u64 n = n % 2 ^ 64

-- a - b on uint32_t and on uint64_t, for words a and b.
abbrev pub sub32 : ℕ → ℕ → ℕ
sub32 a b = (a + 2 ^ 32 - b) % 2 ^ 32

abbrev pub sub64 : ℕ → ℕ → ℕ
sub64 a b = (a + 2 ^ 64 - b) % 2 ^ 64

-- `static_cast<uint32_t>` and `static_cast<uint64_t>` of a signed value.
abbrev pub to_u32 : ℤ → ℕ
to_u32 (pos n) = n % 2 ^ 32
to_u32 (negsuc n) = 2 ^ 32 - 1 - n % 2 ^ 32

abbrev pub to_u64 : ℤ → ℕ
to_u64 (pos n) = n % 2 ^ 64
to_u64 (negsuc n) = 2 ^ 64 - 1 - n % 2 ^ 64

-- The signed value of a word: `static_cast<int32_t>` and `static_cast<int64_t>`.
abbrev pub to_i32 : ℕ → ℤ
to_i32 n = if ltb (n % 2 ^ 32) (2 ^ 31) then pos (n % 2 ^ 32) else negsuc (2 ^ 32 - 1 - n % 2 ^ 32)

abbrev pub to_i64 : ℕ → ℤ
to_i64 n = if ltb (n % 2 ^ 64) (2 ^ 63) then pos (n % 2 ^ 64) else negsuc (2 ^ 64 - 1 - n % 2 ^ 64)

-- The cast of a difference that is no larger than a word.
pub to_u64-sub :
    (a b : ℤ)
    → b ≤ℤ a
    → pos_part a + neg_part b < pos_part b + neg_part a + 2 ^ 64
    → pos_part a + neg_part b ≡ pos_part b + neg_part a + to_u64 (a -ℤ b)
unfolding ◌-ℤ◌
to_u64-sub a b h w = ground arith

pub to_i32_small : (n : ℕ) → n < 2 ^ 31 → to_i32 n ≡ pos n
to_i32_small n h = ground arith
