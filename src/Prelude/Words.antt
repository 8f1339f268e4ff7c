-- ===== src/Prelude/Words.antt =====
-- Machine words: an unsigned word is a number below `2 ^ w`, and a conversion wraps.
use ratehub.Prelude.{ℕ, ◌+◌, ◌-◌, ◌%◌, ◌^◌, ◌<◌, ◌≡◌, arith, ltb, if◌then◌else◌}
use ratehub.Prelude.Int.{ℤ, pos, negsuc}

abbrev pub u8 : ℕ → ℕ
u8 n = n % 2 ^ 8

abbrev pub u16 : ℕ → ℕ
u16 n = n % 2 ^ 16

abbrev pub u32 : ℕ → ℕ
u32 n = n % 2 ^ 32

abbrev pub u64 : ℕ → ℕ
u64 n = n % 2 ^ 64

-- Conversion of an integer to a word of modulus `m`: two's complement.
abbrev pub to_unsigned : ℕ → ℤ → ℕ
to_unsigned m (pos n) = n % m
to_unsigned m (negsuc n) = m - 1 - n % m

-- Conversion of a word below `half + half` to the signed type of the same width.
abbrev pub to_signed : ℕ → ℕ → ℤ
to_signed half w = if ltb w half then pos w else negsuc (half + half - 1 - w)

-- The values of the signed type whose least value is `- half`.
abbrev pub IsSigned : ℕ → ℤ → Type 0
IsSigned half (pos n) = n < half
IsSigned half (negsuc n) = n < half

abbrev pub IsInt32 : ℤ → Type 0
IsInt32 = IsSigned (2 ^ 31)

abbrev pub IsInt64 : ℤ → Type 0
IsInt64 = IsSigned (2 ^ 63)

-- A signed value survives the conversion to the unsigned type and back.
pub signed-unsigned_32 : (z : ℤ) → IsInt32 z → to_signed (2 ^ 31) (to_unsigned (2 ^ 32) z) ≡ z
signed-unsigned_32 (pos n) h = ground arith
signed-unsigned_32 (negsuc n) h = ground arith

pub signed-unsigned_64 : (z : ℤ) → IsInt64 z → to_signed (2 ^ 63) (to_unsigned (2 ^ 64) z) ≡ z
signed-unsigned_64 (pos n) h = ground arith
signed-unsigned_64 (negsuc n) h = ground arith

pub unsigned-lt_32 : (z : ℤ) → to_unsigned (2 ^ 32) z < 2 ^ 32
unsigned-lt_32 (pos n) = omega arith
unsigned-lt_32 (negsuc n) = omega arith

pub unsigned-lt_64 : (z : ℤ) → to_unsigned (2 ^ 64) z < 2 ^ 64
unsigned-lt_64 (pos n) = omega arith
unsigned-lt_64 (negsuc n) = omega arith
