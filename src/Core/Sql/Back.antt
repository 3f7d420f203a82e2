-- ===== src/Core/Sql/Back.antt =====
-- The bytes that `Xuuid_v7_to_rfc_order` writes, as arithmetic.
use hyper_uuid.Prelude.{ℕ, ◌+◌, ◌*◌, ◌/◌, ◌%◌, ◌<◌, ◌^◌, ◌≡◌, arith}
use hyper_uuid.Bits.{and_mask, and_field, or_add, add_or, bit_or-lt}
use hyper_uuid.Word.{◌and◌, ◌or◌, byte, u32, shl32, shl64, shr, sext8}
use hyper_uuid.Memory.{Memory, load32}
use hyper_uuid.Uuid.{Uuid, IsBytes, SameBytes, write_uuid, read_uuid}
use hyper_uuid.Core.Sql.{to_rfc_steps}

-- The version 7 that a value in the SQL Server layout came from, octet by octet.
abbrev pub rfc_layout : Uuid → Uuid
rfc_layout w = record {
  b0 = w.b10;
  b1 = w.b11;
  b2 = w.b12;
  b3 = w.b13;
  b4 = w.b14;
  b5 = w.b15;
  b6 = 112 + w.b8 % 64 / 4;
  b7 = w.b8 % 4 * 64 + w.b9 / 4;
  b8 = 128 + w.b9 % 4 * 16 + w.b6 / 16;
  b9 = w.b6 % 16 * 16 + w.b7 % 16;
  b10 = w.b4;
  b11 = w.b5;
  b12 = w.b0;
  b13 = w.b1;
  b14 = w.b2;
  b15 = w.b3;
}

sext8_nibble : (b : ℕ) → b < 256 → sext8 b and 15 ≡ b % 16
sext8_nibble b h = rw (and_mask 4 (sext8 b)) (ground arith)

octet6 : (b8 : ℕ) → b8 < 256 → byte (shr (sext8 b8 and 60) 2 or 112) ≡ 112 + b8 % 64 / 4
octet6 b8 h = rw (field, add_or 4 (b8 % 64 / 4) 112 (omega arith) (omega arith)) (omega arith)
  where
    field : shr (sext8 b8 and 60) 2 ≡ b8 % 64 / 4
    field = rw (and_field 2 4 (sext8 b8)) (ground arith)

-- The word that the code assembles for the octets 7 and 8: `word` is the 32 bits loaded from the
-- start, `v2` the twelve bits of the octets 6 and 7.
abbrev low48 : ℕ → ℕ → ℕ → ℕ
low48 b4 b5 word =
    let v9 = shl64 word 32 in
    let v6 = shl64 b4 16 or shl64 b5 24 or v9 in
    shl64 (v6 and 0xff0000) 24
    or shl64 (v6 and 0xff000000) 8
    or (shl64 word 24 and 0xff000000
        or shl64 word 8 and 0xff0000
        or (shr word 8 and 0xff00 or shr v9 56))

low48-lt : (b4 b5 word : ℕ) → low48 b4 b5 word < 2 ^ 48
low48-lt b4 b5 word =
    let v6 = shl64 b4 16 or shl64 b5 24 or shl64 word 32 in
    rw
      (
        and_field 16 8 v6,
        and_field 24 8 v6,
        and_field 24 8 (shl64 word 24),
        and_field 16 8 (shl64 word 8),
        and_field 8 8 (shr word 8),
      )
      (bit_or-lt 48 _ _ (bit_or-lt 48 _ _ (omega arith) (omega arith)) (
        bit_or-lt 48 _ _ (bit_or-lt 48 _ _ (omega arith) (omega arith))
          (bit_or-lt 48 _ _ (omega arith) (omega arith))))

-- Its top sixteen bits: the low nibble of octet 9 over `v2`.
word_sum :
    (v2 low b9 : ℕ)
    → v2 < 2 ^ 12
    → low < 2 ^ 48
    → (shl64 v2 48 or low or shl64 b9 60) ≡ v2 * 2 ^ 48 + low + b9 % 16 * 2 ^ 60
word_sum v2 low b9 h l =
    rw
      (
        or_add 48 (shl64 v2 48) low (omega arith) l,
        add_or 60 (shl64 v2 48 + low) (shl64 b9 60) (omega arith) (omega arith),
      )
      (omega arith)

twelve_bits :
    (b6 b7 : ℕ) → b6 < 256 → b7 < 256 → (shl32 b6 4 or sext8 b7 and 15) ≡ b6 * 16 + b7 % 16
twelve_bits b6 b7 h6 h7 =
    rw (sext8_nibble b7 h7, or_add 4 (shl32 b6 4) (b7 % 16) (omega arith) (omega arith))
      (omega arith)

octet7 :
    (v2 low b8 b9 : ℕ)
    → v2 < 2 ^ 12
    → low < 2 ^ 48
    → b8 < 256
    → b9 < 256
    → byte (shr (shl64 v2 48 or low or shl64 b9 60) 62 or shr (b9 or shl32 (sext8 b8) 8) 2 and 252)
      ≡ b8 % 4 * 64 + b9 / 4
octet7 v2 low b8 b9 h l h8 h9 =
    let W = v2 * 2 ^ 48 + low + b9 % 16 * 2 ^ 60 in
    let H = b9 + shl32 (sext8 b8) 8 in
    rw
      (
        word_sum v2 low b9 h l,
        add_or 8 b9 (shl32 (sext8 b8) 8) (omega arith) h9,
        and_field 2 6 (shr H 2),
        add_or 2 (shr W 62) (shr H 2 / 2 ^ 2 % 2 ^ 6 * 2 ^ 2) (omega arith) (omega arith),
      )
      (ground arith)

octet8 :
    (v2 low b6 b7 b9 : ℕ)
    → v2 ≡ b6 * 16 + b7 % 16
    → low < 2 ^ 48
    → b6 < 256
    → b9 < 256
    → byte (u32 (shr (shl64 v2 48 or low or shl64 b9 60) 56) and 63 or 128)
      ≡ 128 + b9 % 4 * 16 + b6 / 16
octet8 v2 low b6 b7 b9 e l h6 h9 =
    let W = v2 * 2 ^ 48 + low + b9 % 16 * 2 ^ 60 in
    rw
      (
        word_sum v2 low b9 (omega arith) l,
        and_mask 6 (u32 (shr W 56)),
        add_or 7 (u32 (shr W 56) % 2 ^ 6) 128 (omega arith) (omega arith),
      )
      (omega arith)

octet9 :
    (b6 b7 : ℕ)
    → b6 < 256
    → b7 < 256
    → byte (shl32 b6 4 or sext8 b7 and 15) ≡ b6 % 16 * 16 + b7 % 16
octet9 b6 b7 h6 h7 = omega (arith, twelve_bits b6 b7 h6 h7)

-- With the scratch at its address, the 16 bytes become the version 7 that `w` came from.
pub to_rfc_steps-rfc_layout :
    (mem : Memory) (w : Uuid)
    → IsBytes w
    → SameBytes
        (read_uuid (to_rfc_steps (write_uuid mem 131072 w) 131072 (sext8 w.b7) (sext8 w.b8)) 131072)
        (rfc_layout w)
unfolding to_rfc_steps
to_rfc_steps-rfc_layout mem w h = record {
  e0 = omega arith;
  e1 = omega arith;
  e2 = omega arith;
  e3 = omega arith;
  e4 = omega arith;
  e5 = omega arith;
  e6 = octet6 w.b8 h.b8;
  e7 =
      octet7 (shl32 w.b6 4 or sext8 w.b7 and 15)
        (low48 w.b4 w.b5 (load32 (write_uuid mem 131072 w) 131072)) w.b8 w.b9
        (omega (arith, twelve_bits w.b6 w.b7 h.b6 h.b7)) (low48-lt _ _ _) h.b8 h.b9;
  e8 =
      octet8 (shl32 w.b6 4 or sext8 w.b7 and 15)
        (low48 w.b4 w.b5 (load32 (write_uuid mem 131072 w) 131072)) w.b6 w.b7 w.b9
        (twelve_bits w.b6 w.b7 h.b6 h.b7) (low48-lt _ _ _) h.b6 h.b9;
  e9 = octet9 w.b6 w.b7 h.b6 h.b7;
  e10 = omega arith;
  e11 = omega arith;
  e12 = omega arith;
  e13 = omega arith;
  e14 = omega arith;
  e15 = omega arith;
}
