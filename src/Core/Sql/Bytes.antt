-- ===== src/Core/Sql/Bytes.antt =====
-- The bytes that the two conversions write, as arithmetic.
use hyper_uuid.Prelude.{ℕ, ◌+◌, ◌*◌, ◌/◌, ◌%◌, ◌<◌, ◌^◌, ◌≡◌, arith}
use hyper_uuid.Bits.{and_mask, and_field, or_add, add_or, or_byte}
use hyper_uuid.Word.{◌and◌, ◌or◌, byte, u16, u32, shl32, shl64, shr, sext8}
use hyper_uuid.Word.Fields.{six_bytes, join_low}
use hyper_uuid.Memory.{Memory}
use hyper_uuid.Uuid.{Uuid, IsBytes, SameBytes, write_uuid, read_uuid}
use hyper_uuid.Core.Sql.{to_sql_steps}

-- The SQL Server layout of a version 7, octet by octet.
abbrev pub sql_layout : Uuid → Uuid
sql_layout u = record {
  b0 = u.b12;
  b1 = u.b13;
  b2 = u.b14;
  b3 = u.b15;
  b4 = u.b10;
  b5 = u.b11;
  b6 = u.b8 % 16 * 16 + u.b9 / 16;
  b7 = 128 + u.b9 % 16;
  b8 = 128 + u.b6 % 16 * 4 + u.b7 / 64;
  b9 = u.b7 % 64 * 4 + u.b8 % 64 / 16;
  b10 = u.b0;
  b11 = u.b1;
  b12 = u.b2;
  b13 = u.b3;
  b14 = u.b4;
  b15 = u.b5;
}

-- The low six bits of a sign-extended byte are those of the byte.
pub sext8_low : (b : ℕ) → b < 256 → sext8 b and 63 ≡ b % 64
sext8_low b h = rw (and_mask 6 (sext8 b)) (ground arith)

octet6 :
    (b8 b9 : ℕ)
    → b8 < 256
    → b9 < 256
    → byte (shr (shl32 (sext8 b8 and 63) 8 or b9) 4) ≡ b8 % 16 * 16 + b9 / 16
octet6 b8 b9 h8 h9 =
    rw (sext8_low b8 h8, or_byte 0 (shl32 (b8 % 64) 8) b9 b9 (omega arith) (omega arith) h9)
      (omega arith)

octet7 : (b9 : ℕ) → b9 < 256 → byte (b9 and 15 or 128) ≡ 128 + b9 % 16
octet7 b9 h = rw (and_mask 4 b9, add_or 7 (b9 % 16) 128 (omega arith) (omega arith)) (omega arith)

octet8 :
    (b6 b7 : ℕ)
    → b6 < 256
    → b7 < 256
    → byte (shr (shl32 b7 14 or shl32 (b6 and 15) 22) 20 or 128) ≡ 128 + b6 % 16 * 4 + b7 / 64
octet8 b6 b7 h6 h7 =
    let A = shl32 b7 14 in
    let B = shl32 (b6 % 16) 22 in
    rw
      (
        and_mask 4 b6,
        or_byte 22 A B (b6 % 16) (omega arith) (omega arith) (omega arith),
        add_or 7 ((A + B) / 2 ^ 20) 128 (omega arith) (omega arith),
      )
      (omega arith)

octet9 :
    (b7 b8 : ℕ)
    → b7 < 256
    → b8 < 256
    → byte (shr (shl32 b7 14 or shl32 (sext8 b8 and 63) 8) 12) ≡ b7 % 64 * 4 + b8 % 64 / 16
octet9 b7 b8 h7 h8 =
    rw (sext8_low b8 h8, or_add 14 (shl32 b7 14) (shl32 (b8 % 64) 8) (omega arith) (omega arith))
      (omega arith)

octets4 :
    (b10 b11 : ℕ)
    → b10 < 256
    → b11 < 256
    → u16 (
        shl32
          (u32 (
            shr
              (shl64 ((shl64 b10 16 or shl64 b11 24) and 0xff0000) 24
                or shl64 ((shl64 b10 16 or shl64 b11 24) and 0xff000000) 8)
              32))
          8
        or shr (u32 ((shl64 b10 16 or shl64 b11 24) and 0xff0000)) 16)
      ≡ b11 * 256 + b10
octets4 b10 b11 h10 h11 =
    let V = shl64 b10 16 + shl64 b11 24 in
    let P = shl64 (b10 * 2 ^ 16) 24 in
    let Q = shl64 (b11 * 2 ^ 24) 8 in
    rw
      (
        or_byte 24 (shl64 b10 16) (shl64 b11 24) b11 (omega arith) (omega arith) h11,
        mid,
        top,
        or_add 40 P Q (omega arith) (omega arith),
        or_byte 0 (shl32 (u32 (shr (P + Q) 32)) 8) (shr (u32 (b10 * 2 ^ 16)) 16) b10 (omega arith)
            (omega arith) h10,
      )
      (omega arith)
  where
    mid : (shl64 b10 16 + shl64 b11 24) and 0xff0000 ≡ b10 * 2 ^ 16
    mid = rw (and_field 16 8 (shl64 b10 16 + shl64 b11 24)) (omega arith)

    top : (shl64 b10 16 + shl64 b11 24) and 0xff000000 ≡ b11 * 2 ^ 24
    top = rw (and_field 24 8 (shl64 b10 16 + shl64 b11 24)) (omega arith)

-- With the scratch at its address, the 16 bytes become the SQL Server layout of `u`.
pub to_sql_steps-sql_layout :
    (mem : Memory) (u : Uuid)
    → IsBytes u
    → SameBytes
        (read_uuid (to_sql_steps (write_uuid mem 131072 u) 131072 (sext8 u.b8) u.b6) 131072)
        (sql_layout u)
unfolding to_sql_steps
to_sql_steps-sql_layout mem u h = record {
  e0 = omega arith;
  e1 = omega arith;
  e2 = omega arith;
  e3 = omega arith;
  e4 = rw (octets4 u.b10 u.b11 h.b10 h.b11) (omega arith);
  e5 = rw (octets4 u.b10 u.b11 h.b10 h.b11) (omega arith);
  e6 = octet6 u.b8 u.b9 h.b8 h.b9;
  e7 = octet7 u.b9 h.b9;
  e8 = octet8 u.b6 u.b7 h.b6 h.b7;
  e9 = octet9 u.b7 u.b8 h.b7 h.b8;
  e10 =
      rw
        (
          join_low 0 u.b1 u.b2 u.b3 u.b4 u.b5 (omega arith) h.b1 h.b2 h.b3 h.b4 h.b5,
          or_byte 40 (six_bytes 0 u.b1 u.b2 u.b3 u.b4 u.b5) (shl64 u.b0 40) u.b0 (omega arith)
              (omega arith) h.b0,
        )
        (omega arith);
  e11 =
      rw (join_low 0 u.b1 u.b2 u.b3 u.b4 u.b5 (omega arith) h.b1 h.b2 h.b3 h.b4 h.b5) (omega arith);
  e12 = omega arith;
  e13 = omega arith;
  e14 = omega arith;
  e15 = omega arith;
}
