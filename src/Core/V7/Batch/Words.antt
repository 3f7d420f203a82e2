-- ===== src/Core/V7/Batch/Words.antt =====
-- The two words that a UUID of a batch is stored as, byte by byte.
use hyper_uuid.Prelude.{
  ℕ, ◌+◌, ◌*◌, ◌/◌, ◌%◌, ◌^◌, ◌<◌, ◌≡◌, ltb, ◌==◌, if◌then◌else◌, ap, bit_and, arith,
}
use hyper_uuid.Bits.{and_mask, and_field, and_split, or_add, add_or, or_byte}
use hyper_uuid.Word.{◌and◌, ◌or◌, neg32, add32, shl32, shl64, shr, flag}
use hyper_uuid.Core.V7.Batch.{batch_swap, batch_low, batch_high}

-- The bytes of a millisecond, the highest first in memory.
abbrev pub reversed : ℕ → ℕ
reversed ms =
    ms / 2 ^ 40
    + ms / 2 ^ 32 % 256 * 2 ^ 8
    + ms / 2 ^ 24 % 256 * 2 ^ 16
    + ms / 2 ^ 16 % 256 * 2 ^ 24
    + ms / 2 ^ 8 % 256 * 2 ^ 32
    + ms % 256 * 2 ^ 40

pub batch_swap-reversed : (ms : ℕ) → ms < 2 ^ 48 → batch_swap ms ≡ reversed ms
unfolding batch_swap
batch_swap-reversed ms h =
    rw
      (
        and_field 8 8 ms,
        and_field 16 8 ms,
        and_field 24 8 ms,
        and_field 24 8 (shr ms 8),
        and_field 16 8 (shr ms 24),
        or_byte 48 (shl64 ms 56) (shl64 (ms / 2 ^ 8 % 2 ^ 8 * 2 ^ 8) 40) (ms / 2 ^ 8 % 2 ^ 8)
            (omega arith) (omega arith) (omega arith),
        or_byte 32 (shl64 (ms / 2 ^ 16 % 2 ^ 8 * 2 ^ 16) 24)
            (shl64 (ms / 2 ^ 24 % 2 ^ 8 * 2 ^ 24) 8) (ms / 2 ^ 24 % 2 ^ 8) (omega arith)
            (omega arith) (omega arith),
        or_byte 16 (shr ms 8 / 2 ^ 24 % 2 ^ 8 * 2 ^ 24) (shr ms 24 / 2 ^ 16 % 2 ^ 8 * 2 ^ 16)
            (shr ms 24 / 2 ^ 16 % 2 ^ 8) (omega arith) (omega arith) (omega arith),
        or_add 48 (shl64 ms 56 + shl64 (ms / 2 ^ 8 % 2 ^ 8 * 2 ^ 8) 40)
            (shl64 (ms / 2 ^ 16 % 2 ^ 8 * 2 ^ 16) 24 + shl64 (ms / 2 ^ 24 % 2 ^ 8 * 2 ^ 24) 8)
            (omega arith) (omega arith),
        or_add 32
            (shl64 ms 56
              + shl64 (ms / 2 ^ 8 % 2 ^ 8 * 2 ^ 8) 40
              + (shl64 (ms / 2 ^ 16 % 2 ^ 8 * 2 ^ 16) 24 + shl64 (ms / 2 ^ 24 % 2 ^ 8 * 2 ^ 24) 8))
            (shr ms 8 / 2 ^ 24 % 2 ^ 8 * 2 ^ 24 + shr ms 24 / 2 ^ 16 % 2 ^ 8 * 2 ^ 16) (omega arith)
            (omega arith),
      )
      (omega arith)

-- A step past 20 bits loses its carry, which the millisecond takes.
pub kept_step :
    (v1 : ℕ)
    → v1 < 2 ^ 21
    → (if flag (ltb 0xfffff v1) == 0 then shl32 v1 6 else add32 (shl32 v1 6) (neg32 0x4000000))
      ≡ v1 % 2 ^ 20 * 64
kept_step v1 h = ground arith

pub batch_high-sum :
    (rev step : ℕ)
    → rev < 2 ^ 48
    → step < 2 ^ 20
    → batch_high rev (step * 64)
      ≡ rev + (112 + step / 2 ^ 16) * 2 ^ 48 + step / 2 ^ 8 % 256 * 2 ^ 56
unfolding batch_high
batch_high-sum rev step h k =
    let nibble : shr (step * 64) 22 and 15 or 112 ≡ 112 + step / 2 ^ 16 =
      rw
        (
          and_mask 4 (shr (step * 64) 22),
          add_or 4 (shr (step * 64) 22 % 2 ^ 4) 112 (omega arith) (omega arith),
        )
        (omega arith) in
    rw
      (
        nibble,
        or_byte 56 (shl64 (112 + step / 2 ^ 16) 48) (shl64 (shr (step * 64) 14) 56)
            (step / 2 ^ 8 % 256) (omega arith) (omega arith) (omega arith),
        add_or 48 rev (shl64 (112 + step / 2 ^ 16) 48 + shl64 (shr (step * 64) 14) 56) (omega arith)
            h,
      )
      (omega arith)

-- The two counter bytes below six random ones.
pub batch_low-sum :
    (t15 step low : ℕ)
    → step < 2 ^ 20
    → low < 64
    → batch_low t15 (step * 64 + low)
      ≡ shl64 t15 16 + (128 + step / 4 % 64) + (step % 4 * 64 + low) * 2 ^ 8
unfolding batch_low
batch_low-sum t15 step low h k =
    let c = step * 64 + low in
    let top : shr (c and 16128 or 0x8000) 8 ≡ 128 + step / 4 % 64 =
      rw (and_field 8 6 c, add_or 15 (c / 2 ^ 8 % 2 ^ 6 * 2 ^ 8) 0x8000 (omega arith) (omega arith))
        (omega arith) in
    let x = shl32 c 8 + (128 + step / 4 % 64) in
    let masked : x and 65471 ≡ 128 + step / 4 % 64 + (step % 4 * 64 + low) * 2 ^ 8 =
      let halves : x ≡ x / 2 ^ 7 * 2 ^ 7 + x % 2 ^ 7 = omega arith in
      omega (
        arith,
        ap (λ (t : ℕ). bit_and t 65471) halves,
        and_split 7 (x / 2 ^ 7) (x % 2 ^ 7) 511 63 (omega arith) (omega arith),
        and_mask 9 (x / 2 ^ 7),
        and_mask 6 (x % 2 ^ 7),
      ) in
    rw
      (
        top,
        or_add 8 (shl32 c 8) (128 + step / 4 % 64) (omega arith) (omega arith),
        masked,
        or_add 16 (shl64 t15 16) (128 + step / 4 % 64 + (step % 4 * 64 + low) * 2 ^ 8) (omega arith)
            (omega arith),
      )
      (omega arith)

pub counter_word : (step k : ℕ) → (step * 64 or k and 63) ≡ step * 64 + k % 64
counter_word step k =
    rw (and_mask 6 k, or_add 6 (step * 64) (k % 2 ^ 6) (omega arith) (omega arith)) (omega arith)
