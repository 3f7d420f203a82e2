-- ===== src/Core/V5/Layout.antt =====
-- The bytes of a version 5 UUID, and how `Xuuid_new_v5` writes them.
use hyper_uuid.Prelude.{ℕ, ◌+◌, ◌*◌, ◌/◌, ◌%◌, ◌^◌, ◌<◌, ◌≡◌, ap, ◌∙◌, arith}
use hyper_uuid.Bits.{and_mask, and_field, and_split, or_split, add_or, bit_or-zero}
use hyper_uuid.Word.{◌and◌, ◌or◌, neg32}
use hyper_uuid.Memory.{Memory, store32}
use hyper_uuid.Uuid.{Uuid, read_uuid, SameBytes, SameBytes-eq}
use hyper_uuid.Sha.{Digest}
use hyper_uuid.Sha.Forms.{IsWords}
use hyper_uuid.Core.V5.{put_v5}
use hyper_uuid.Core.V5.Block.{load_digest}
use hyper_uuid.Core.V5.Swap.{swap32, quad, swap32_lem}

-- RFC 9562 §5.5: the first sixteen bytes of the hash with the version and the variant in them.
abbrev pub v5_layout : Digest → Uuid
v5_layout s = record {
  b0 = s.a / 2 ^ 24;
  b1 = s.a / 2 ^ 16 % 256;
  b2 = s.a / 2 ^ 8 % 256;
  b3 = s.a % 256;
  b4 = s.b / 2 ^ 24;
  b5 = s.b / 2 ^ 16 % 256;
  b6 = 80 + s.b / 2 ^ 8 % 16;
  b7 = s.b % 256;
  b8 = 128 + s.c / 2 ^ 24 % 64;
  b9 = s.c / 2 ^ 16 % 256;
  b10 = s.c / 2 ^ 8 % 256;
  b11 = s.c % 256;
  b12 = s.d / 2 ^ 24;
  b13 = s.d / 2 ^ 16 % 256;
  b14 = s.d / 2 ^ 8 % 256;
  b15 = s.d % 256;
}

swap_word :
    (w : ℕ)
    → w < 2 ^ 32
    → swap32 w ≡ quad (w % 256) (w / 2 ^ 8 % 256) (w / 2 ^ 16 % 256) (w / 2 ^ 24)
swap_word w h =
    let e : w ≡ quad (w / 2 ^ 24) (w / 2 ^ 16 % 256) (w / 2 ^ 8 % 256) (w % 256) = omega arith in
    ap swap32 e
    ∙ swap32_lem (w / 2 ^ 24) (w / 2 ^ 16 % 256) (w / 2 ^ 8 % 256) (w % 256) (omega arith)
        (omega arith) (omega arith) (omega arith)

variant_word : (c : ℕ) → (c and 0x3fffffff or neg32 0x80000000) ≡ c % 2 ^ 30 + 2 ^ 31
variant_word c = rw (and_mask 30 c) (add_or 31 (c % 2 ^ 30) (2 ^ 31) (omega arith) (omega arith))

version_word :
    (b : ℕ) → b < 2 ^ 32 → (b and neg32 61441 or 0x5000) ≡ b / 2 ^ 16 * 2 ^ 16 + 0x5000 + b % 2 ^ 12
version_word b h =
    let parts : b ≡ b / 2 ^ 12 * 2 ^ 12 + b % 2 ^ 12 = omega arith in
    let cleared : b and neg32 61441 ≡ b / 2 ^ 16 * 2 ^ 16 + b % 2 ^ 12 =
      ap (λ (t : ℕ). t and neg32 61441) parts
      ∙ and_split 12 (b / 2 ^ 12) (b % 2 ^ 12) 0xffff0 0xfff (omega arith) (omega arith)
      ∙ omega (arith, and_field 4 16 (b / 2 ^ 12), and_mask 12 (b % 2 ^ 12)) in
    rw cleared (
      or_split 16 (b / 2 ^ 16) (b % 2 ^ 12) 0 0x5000 (omega arith) (omega arith)
      ∙ omega (
        arith,
        bit_or-zero (b / 2 ^ 16),
        add_or 12 (b % 2 ^ 12) 0x5000 (omega arith) (omega arith),
      ))

abbrev stored : Memory → ℕ → ℕ → ℕ → ℕ → Memory
stored mem x y z w = store32 (store32 (store32 (store32 mem 131100 w) 131088 x) 131096 z) 131092 y

abbrev put : Memory → Digest → Memory
put mem s =
    stored mem (swap32 s.a) (swap32 (s.b and neg32 61441 or 0x5000))
      (swap32 (s.c and 0x3fffffff or neg32 0x80000000)) (swap32 s.d)

module _ (mem : Memory) (s : Digest) (h : IsWords s) where
  put-layout : SameBytes (read_uuid (put mem s) 131088) (v5_layout s)
  put-layout =
      let x = swap_word s.a h.a_lt in
      let y =
        ap swap32 (version_word s.b h.b_lt)
        ∙ swap_word (s.b / 2 ^ 16 * 2 ^ 16 + 0x5000 + s.b % 2 ^ 12) (omega (arith, h.b_lt)) in
      let z = ap swap32 (variant_word s.c) ∙ swap_word (s.c % 2 ^ 30 + 2 ^ 31) (omega arith) in
      let w = swap_word s.d h.d_lt in
      record {
        e0 = omega (arith, x, h.a_lt);
        e1 = omega (arith, x, h.a_lt);
        e2 = omega (arith, x, h.a_lt);
        e3 = omega (arith, x, h.a_lt);
        e4 = omega (arith, y, h.b_lt);
        e5 = omega (arith, y, h.b_lt);
        e6 = omega (arith, y, h.b_lt);
        e7 = omega (arith, y, h.b_lt);
        e8 = omega (arith, z, h.c_lt);
        e9 = omega (arith, z, h.c_lt);
        e10 = omega (arith, z, h.c_lt);
        e11 = omega (arith, z, h.c_lt);
        e12 = omega (arith, w, h.d_lt);
        e13 = omega (arith, w, h.d_lt);
        e14 = omega (arith, w, h.d_lt);
        e15 = omega (arith, w, h.d_lt);
      }

  pub put_v5-layout :
      load_digest mem 65384 ≡ s → read_uuid (put_v5 mem 65376 131088) 131088 ≡ v5_layout s
  unfolding put_v5
  put_v5-layout at = ap (λ (t : Digest). read_uuid (put mem t) 131088) at ∙ SameBytes-eq put-layout

pub put_v5-outside : (mem : Memory) (b : ℕ) → b < 131088 → put_v5 mem 65376 131088 b ≡ mem b
unfolding put_v5
put_v5-outside mem b h = ground arith
