-- ===== src/Core/V5/Swap.antt =====
-- The exchange of the four bytes of a word, as core.go writes it wherever it reads or writes a
-- big-endian word.
use hyper_uuid.Prelude.{ℕ, ◌+◌, ◌*◌, ◌/◌, ◌^◌, ◌<◌, ◌≡◌, refl, sym, ◌∙◌, arith, bit_and, bit_xor}
use hyper_uuid.Bits.{add_or, and_split, bit_and-zero, and_mask, xor_zero}
use hyper_uuid.Bits.Algebra.{xor_split, xor_self, xor_comm, xor_assoc, bit_xor-lt}
use hyper_uuid.Word.{◌and◌, ◌xor◌, shr, neg32, rotr32, u32}

-- `int32(uint32((v^i32_rotr(v, 16)) & -0xff0100) >> 8) ^ i32_rotr(v, 8)`
unfoldable pub swap32 : ℕ → ℕ
swap32 v = shr ((v xor rotr32 v 16) and neg32 0xff0100) 8 xor rotr32 v 8

-- A word of four bytes, the highest first.
abbrev pub quad : ℕ → ℕ → ℕ → ℕ → ℕ
quad a b c d = ((a * 2 ^ 8 + b) * 2 ^ 8 + c) * 2 ^ 8 + d

quad_xor :
    (a b c d p q r s : ℕ)
    → b < 256
    → c < 256
    → d < 256
    → q < 256
    → r < 256
    → s < 256
    → bit_xor (quad a b c d) (quad p q r s)
      ≡ quad (bit_xor a p) (bit_xor b q) (bit_xor c r) (bit_xor d s)
quad_xor a b c d p q r s hb hc hd hq hr hs =
    rw
      (
        xor_split 8 ((a * 2 ^ 8 + b) * 2 ^ 8 + c) d ((p * 2 ^ 8 + q) * 2 ^ 8 + r) s hd hs,
        xor_split 8 (a * 2 ^ 8 + b) c (p * 2 ^ 8 + q) r hc hr,
        xor_split 8 a b p q hb hq,
      )
      refl

quad_mask :
    (a b c d : ℕ)
    → a < 256
    → b < 256
    → c < 256
    → d < 256
    → bit_and (quad a b c d) (neg32 0xff0100) ≡ quad a 0 c 0
quad_mask a b c d ha hb hc hd =
    let inner : bit_and (a * 2 ^ 8 + b) (255 * 2 ^ 8 + 0) ≡ a * 2 ^ 8 + 0 =
      and_split 8 a b 255 0 hb (omega arith) ∙ omega (arith, and_mask 8 a, bit_and-zero b) in
    let middle : bit_and ((a * 2 ^ 8 + b) * 2 ^ 8 + c) ((255 * 2 ^ 8 + 0) * 2 ^ 8 + 255)
        ≡ (a * 2 ^ 8 + 0) * 2 ^ 8 + c =
      and_split 8 (a * 2 ^ 8 + b) c (255 * 2 ^ 8 + 0) 255 hc (omega arith)
      ∙ omega (arith, and_mask 8 c, inner) in
    and_split 8 ((a * 2 ^ 8 + b) * 2 ^ 8 + c) d ((255 * 2 ^ 8 + 0) * 2 ^ 8 + 255) 0 hd (omega arith)
    ∙ omega (arith, bit_and-zero d, middle)

module _ (a b c d : ℕ) (ha : a < 256) (hb : b < 256) (hc : c < 256) (hd : d < 256) where
  quad_rotr16 : rotr32 (quad a b c d) 16 ≡ quad c d a b
  unfolding rotr32
  quad_rotr16 =
      add_or 16 (quad a b c d / 2 ^ 16) (u32 (quad a b c d * 2 ^ 16)) (omega arith) (omega arith)
      ∙ omega arith

  quad_rotr8 : rotr32 (quad a b c d) 8 ≡ quad d a b c
  unfolding rotr32
  quad_rotr8 =
      add_or 24 (quad a b c d / 2 ^ 8) (u32 (quad a b c d * 2 ^ 24)) (omega arith) (omega arith)
      ∙ omega arith

  pub swap32_lem : swap32 (quad a b c d) ≡ quad d c b a
  unfolding swap32
  swap32_lem =
      let p = bit_xor a c in
      let q = bit_xor b d in
      let hp : p < 256 = bit_xor-lt 8 a c ha hc in
      let hq : q < 256 = bit_xor-lt 8 b d hb hd in
      let half : quad p 0 p 0 / 2 ^ 8 ≡ quad 0 p 0 p = omega arith in
      let left : bit_xor p a ≡ c =
        xor_comm p a ∙ sym (xor_assoc a a c) ∙ rw (xor_self a) (xor_zero c) in
      let right : bit_xor p c ≡ a = xor_assoc a c c ∙ rw (xor_self c, xor_comm a 0) (xor_zero a) in
      rw
        (
          quad_rotr16,
          quad_rotr8,
          quad_xor a b c d c d a b hb hc hd hd ha hb,
          xor_comm c a,
          xor_comm d b,
          quad_mask p q p q hp hq hp hq,
          half,
          quad_xor 0 p 0 p d a b c hp (omega arith) hp ha hb hc,
          left,
          right,
          xor_zero d,
          xor_zero b,
        )
        refl
