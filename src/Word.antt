-- ===== src/Word.antt =====
-- The fixed-width integers of go/internal/core/core.go. An int32 or an int64 is its bit pattern,
-- below 2 ^ 32 or 2 ^ 64, so the conversions between int32 and uint32 change nothing.
pub mod Fields
use hyper_uuid.Prelude.{
  ℕ, ◌+◌, ◌-◌, ◌*◌, ◌/◌, ◌%◌, ◌^◌, bit_and, bit_or, bit_xor, Bool, true, false, ltb, if◌then◌else◌,
}

-- `&`, `|` and `^`, with the precedences of Go
infixl 70 ◌and◌
infixl 65 ◌or◌ ◌xor◌
abbrev pub ◌and◌ : ℕ → ℕ → ℕ
a and b = bit_and a b

abbrev pub ◌or◌ : ℕ → ℕ → ℕ
a or b = bit_or a b

abbrev pub ◌xor◌ : ℕ → ℕ → ℕ
a xor b = bit_xor a b

-- `byte(x)`
abbrev pub byte : ℕ → ℕ
byte x = x % 2 ^ 8

abbrev pub u16 : ℕ → ℕ
u16 x = x % 2 ^ 16

-- `uint32(x)` and `int32(x)` of a 64-bit value
abbrev pub u32 : ℕ → ℕ
u32 x = x % 2 ^ 32

abbrev pub u64 : ℕ → ℕ
u64 x = x % 2 ^ 64

-- `i32(-k)` and `i64(-k)` for a literal k from 1 on
abbrev pub neg32 : ℕ → ℕ
neg32 k = 2 ^ 32 - k

abbrev pub neg64 : ℕ → ℕ
neg64 k = 2 ^ 64 - k

-- 32-bit `+`, `-` and `<<`
abbrev pub add32 : ℕ → ℕ → ℕ
add32 a b = u32 (a + b)

abbrev pub sub32 : ℕ → ℕ → ℕ
sub32 a b = u32 (a + 2 ^ 32 - b)

abbrev pub shl32 : ℕ → ℕ → ℕ
shl32 a k = u32 (a * 2 ^ k)

-- 64-bit `+`, `-` and `<<`
abbrev pub add64 : ℕ → ℕ → ℕ
add64 a b = u64 (a + b)

abbrev pub sub64 : ℕ → ℕ → ℕ
sub64 a b = u64 (a + 2 ^ 64 - b)

abbrev pub shl64 : ℕ → ℕ → ℕ
shl64 a k = u64 (a * 2 ^ k)

-- `>>` of an unsigned value of either width
abbrev pub shr : ℕ → ℕ → ℕ
shr a k = a / 2 ^ k

-- `int32(int8(b))` of a byte
abbrev pub sext8 : ℕ → ℕ
sext8 b = if ltb b 128 then b else b + (2 ^ 32 - 256)

-- signed `<` of two int32
abbrev pub lt_s32 : ℕ → ℕ → Bool
lt_s32 a b = ltb ((a + 2 ^ 31) % 2 ^ 32) ((b + 2 ^ 31) % 2 ^ 32)

-- A Go or wasm truth value as a number.
abbrev pub flag : Bool → ℕ
flag true = 1
flag false = 0

-- `i32_rotl(x, k)` and `i32_rotr(x, k)` for a literal k below 32: `bits.RotateLeft32`.
unfoldable pub rotl32 : ℕ → ℕ → ℕ
rotl32 x k = u32 (x * 2 ^ k) or x / 2 ^ (32 - k)

unfoldable pub rotr32 : ℕ → ℕ → ℕ
rotr32 x k = x / 2 ^ k or u32 (x * 2 ^ (32 - k))
