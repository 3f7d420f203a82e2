-- ===== src/Core/V5/Length.antt =====
-- The length field of `Xuuid_new_v5` against the big-endian count of bits.
use hyper_uuid.Prelude.{ℕ, zero, suc, ◌+◌, ◌-◌, ◌*◌, ◌/◌, ◌%◌, ◌^◌, ◌<◌, ◌≡◌, refl, ◌∙◌, arith}
use hyper_uuid.Bits.{and_field, or_add, add_or}
use hyper_uuid.Word.{◌and◌, byte, shl64, shr}
use hyper_uuid.Core.V5.{bit_length}

module _ (v : ℕ) (word : v < 2 ^ 32) where
  bit_length_sum :
      bit_length v
      ≡ v / 2 ^ 29 % 2 ^ 3 * 2 ^ 24
        + (v % 2 ^ 5 * 2 ^ 59
            + v / 2 ^ 5 % 2 ^ 8 * 2 ^ 48
            + (v / 2 ^ 13 % 2 ^ 8 * 2 ^ 40 + v / 2 ^ 21 % 2 ^ 8 * 2 ^ 32))
  unfolding bit_length
  bit_length_sum =
      let a : shr v 5 and 0x7000000 ≡ v / 2 ^ 29 % 2 ^ 3 * 2 ^ 24 =
        and_field 24 3 (shr v 5) ∙ omega arith in
      let b : shl64 v 59 ≡ v % 2 ^ 5 * 2 ^ 59 = omega arith in
      let c : shl64 v 43 and 0xff000000000000 ≡ v / 2 ^ 5 % 2 ^ 8 * 2 ^ 48 =
        and_field 48 8 (shl64 v 43) ∙ omega arith in
      let d : shl64 v 27 and 0xff0000000000 ≡ v / 2 ^ 13 % 2 ^ 8 * 2 ^ 40 =
        and_field 40 8 (shl64 v 27) ∙ omega arith in
      let e : shl64 v 11 and 0xff00000000 ≡ v / 2 ^ 21 % 2 ^ 8 * 2 ^ 32 =
        and_field 32 8 (shl64 v 11) ∙ omega arith in
      let x = v / 2 ^ 29 % 2 ^ 3 * 2 ^ 24 in
      let high = v % 2 ^ 5 * 2 ^ 59 in
      let next = v / 2 ^ 5 % 2 ^ 8 * 2 ^ 48 in
      let third = v / 2 ^ 13 % 2 ^ 8 * 2 ^ 40 in
      let fourth = v / 2 ^ 21 % 2 ^ 8 * 2 ^ 32 in
      rw
        (
          a,
          b,
          c,
          d,
          e,
          or_add 56 high next (omega arith) (omega arith),
          or_add 40 third fourth (omega arith) (omega arith),
          or_add 48 (high + next) (third + fourth) (omega arith) (omega arith),
          add_or 32 x (high + next + (third + fourth)) (omega arith) (omega arith),
        )
        refl

  pub bit_length-byte :
      (k : ℕ) → k < 8 → bit_length v / 2 ^ (8 * k) % 2 ^ 8 ≡ byte (8 * v / 2 ^ (8 * (7 - k)))
  bit_length-byte zero h = omega (arith, bit_length_sum)
  bit_length-byte (suc zero) h = omega (arith, bit_length_sum)
  bit_length-byte (suc (suc zero)) h = omega (arith, bit_length_sum)
  bit_length-byte (suc (suc (suc zero))) h = omega (arith, bit_length_sum)
  bit_length-byte (suc (suc (suc (suc zero)))) h = omega (arith, bit_length_sum)
  bit_length-byte (suc (suc (suc (suc (suc zero))))) h = omega (arith, bit_length_sum)
  bit_length-byte (suc (suc (suc (suc (suc (suc zero)))))) h = omega (arith, bit_length_sum)
  bit_length-byte (suc (suc (suc (suc (suc (suc (suc zero))))))) h = omega (arith, bit_length_sum)
  bit_length-byte (suc (suc (suc (suc (suc (suc (suc (suc k)))))))) h = absurd (omega arith)
