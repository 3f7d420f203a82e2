-- ===== src/Uuid.antt =====
-- The 16 bytes of a `uuid.UUID` (google/uuid's `[16]byte`) and what RFC 9562 reads in them.
pub mod Layout
use hyper_uuid.Prelude.{ℕ, ◌+◌, ◌*◌, ◌/◌, ◌%◌, ◌^◌, ◌≤◌, ◌<◌, ◌≡◌, List, [], ◌∷◌, get_or, tabulate}
use hyper_uuid.Memory.{Memory, store8}

pub record Uuid : Type 0 where
  pub b0 : ℕ
  pub b1 : ℕ
  pub b2 : ℕ
  pub b3 : ℕ
  pub b4 : ℕ
  pub b5 : ℕ
  pub b6 : ℕ
  pub b7 : ℕ
  pub b8 : ℕ
  pub b9 : ℕ
  pub b10 : ℕ
  pub b11 : ℕ
  pub b12 : ℕ
  pub b13 : ℕ
  pub b14 : ℕ
  pub b15 : ℕ

-- Every element of the array is a byte.
pub record IsBytes (u : Uuid) : Type 0 where
  pub b0 : u.b0 < 256
  pub b1 : u.b1 < 256
  pub b2 : u.b2 < 256
  pub b3 : u.b3 < 256
  pub b4 : u.b4 < 256
  pub b5 : u.b5 < 256
  pub b6 : u.b6 < 256
  pub b7 : u.b7 < 256
  pub b8 : u.b8 < 256
  pub b9 : u.b9 < 256
  pub b10 : u.b10 < 256
  pub b11 : u.b11 < 256
  pub b12 : u.b12 < 256
  pub b13 : u.b13 < 256
  pub b14 : u.b14 < 256
  pub b15 : u.b15 < 256

-- `copy(mem[p:], id[:])`
abbrev pub write_uuid : Memory → ℕ → Uuid → Memory
write_uuid mem p u =
    let m0 = store8 (store8 (store8 (store8 mem p u.b0) (p + 1) u.b1) (p + 2) u.b2) (p + 3) u.b3 in
    let m1 =
      store8 (store8 (store8 (store8 m0 (p + 4) u.b4) (p + 5) u.b5) (p + 6) u.b6) (p + 7) u.b7 in
    let m2 =
      store8 (store8 (store8 (store8 m1 (p + 8) u.b8) (p + 9) u.b9) (p + 10) u.b10) (p + 11)
        u.b11 in
    store8 (store8 (store8 (store8 m2 (p + 12) u.b12) (p + 13) u.b13) (p + 14) u.b14) (p + 15) u.b15

-- `copy(out[:], mem[p:])`
abbrev pub read_uuid : Memory → ℕ → Uuid
read_uuid mem p = record {
  b0 = mem p;
  b1 = mem (p + 1);
  b2 = mem (p + 2);
  b3 = mem (p + 3);
  b4 = mem (p + 4);
  b5 = mem (p + 5);
  b6 = mem (p + 6);
  b7 = mem (p + 7);
  b8 = mem (p + 8);
  b9 = mem (p + 9);
  b10 = mem (p + 10);
  b11 = mem (p + 11);
  b12 = mem (p + 12);
  b13 = mem (p + 13);
  b14 = mem (p + 14);
  b15 = mem (p + 15);
}

-- RFC 9562 §4.2 and §4.1: the version nibble, and the variant bits 10.
abbrev pub version_nibble : Uuid → ℕ
version_nibble u = u.b6 / 16

abbrev pub IsRfcVariant : Uuid → Type 0
IsRfcVariant u = (128 ≤ u.b8) × (u.b8 < 192)

-- An RFC 9562 UUID of version n.
abbrev pub IsRfcUuid : ℕ → Uuid → Type 0
IsRfcUuid n u = (u.b6 / 16 ≡ n) × (128 ≤ u.b8) × (u.b8 < 192)

-- What the SQL Server layout marks: an 8 in octet 7 and the RFC variant in octet 8.
abbrev pub IsSqlUuid : Uuid → Type 0
IsSqlUuid u = (u.b7 / 16 ≡ 8) × (128 ≤ u.b8) × (u.b8 < 192)

-- The 16 bytes as one number, first byte first: UUIDs sort by it.
abbrev pub value : Uuid → ℕ
value u =
    u.b0 * 2 ^ 120
    + u.b1 * 2 ^ 112
    + u.b2 * 2 ^ 104
    + u.b3 * 2 ^ 96
    + u.b4 * 2 ^ 88
    + u.b5 * 2 ^ 80
    + u.b6 * 2 ^ 72
    + u.b7 * 2 ^ 64
    + u.b8 * 2 ^ 56
    + u.b9 * 2 ^ 48
    + u.b10 * 2 ^ 40
    + u.b11 * 2 ^ 32
    + u.b12 * 2 ^ 24
    + u.b13 * 2 ^ 16
    + u.b14 * 2 ^ 8
    + u.b15

-- The bytes in SQL Server's order of significance: 10 to 15, 8, 9, 6, 7, 4, 5, 0 to 3.
abbrev pub sql_key : Uuid → ℕ
sql_key u =
    u.b10 * 2 ^ 120
    + u.b11 * 2 ^ 112
    + u.b12 * 2 ^ 104
    + u.b13 * 2 ^ 96
    + u.b14 * 2 ^ 88
    + u.b15 * 2 ^ 80
    + u.b8 * 2 ^ 72
    + u.b9 * 2 ^ 64
    + u.b6 * 2 ^ 56
    + u.b7 * 2 ^ 48
    + u.b4 * 2 ^ 40
    + u.b5 * 2 ^ 32
    + u.b0 * 2 ^ 24
    + u.b1 * 2 ^ 16
    + u.b2 * 2 ^ 8
    + u.b3

-- The unix_ts_ms field of a version 7.
abbrev pub unix_ts_ms : Uuid → ℕ
unix_ts_ms u = u.b0 * 2 ^ 40 + u.b1 * 2 ^ 32 + u.b2 * 2 ^ 24 + u.b3 * 2 ^ 16 + u.b4 * 2 ^ 8 + u.b5

-- Two UUIDs with the same bytes are one.
pub record SameBytes (u w : Uuid) : Type 0 where
  pub e0 : u.b0 ≡ w.b0
  pub e1 : u.b1 ≡ w.b1
  pub e2 : u.b2 ≡ w.b2
  pub e3 : u.b3 ≡ w.b3
  pub e4 : u.b4 ≡ w.b4
  pub e5 : u.b5 ≡ w.b5
  pub e6 : u.b6 ≡ w.b6
  pub e7 : u.b7 ≡ w.b7
  pub e8 : u.b8 ≡ w.b8
  pub e9 : u.b9 ≡ w.b9
  pub e10 : u.b10 ≡ w.b10
  pub e11 : u.b11 ≡ w.b11
  pub e12 : u.b12 ≡ w.b12
  pub e13 : u.b13 ≡ w.b13
  pub e14 : u.b14 ≡ w.b14
  pub e15 : u.b15 ≡ w.b15

pub SameBytes-eq : {u w : Uuid} → SameBytes u w → u ≡ w
SameBytes-eq h = λ i. record {
  b0 = h.e0 i;
  b1 = h.e1 i;
  b2 = h.e2 i;
  b3 = h.e3 i;
  b4 = h.e4 i;
  b5 = h.e5 i;
  b6 = h.e6 i;
  b7 = h.e7 i;
  b8 = h.e8 i;
  b9 = h.e9 i;
  b10 = h.e10 i;
  b11 = h.e11 i;
  b12 = h.e12 i;
  b13 = h.e13 i;
  b14 = h.e14 i;
  b15 = h.e15 i;
}

-- A `[]byte` of length 16 as an array, and back.
abbrev pub from_list : List ℕ → Uuid
from_list b = record {
  b0 = get_or b 0 0;
  b1 = get_or b 1 0;
  b2 = get_or b 2 0;
  b3 = get_or b 3 0;
  b4 = get_or b 4 0;
  b5 = get_or b 5 0;
  b6 = get_or b 6 0;
  b7 = get_or b 7 0;
  b8 = get_or b 8 0;
  b9 = get_or b 9 0;
  b10 = get_or b 10 0;
  b11 = get_or b 11 0;
  b12 = get_or b 12 0;
  b13 = get_or b 13 0;
  b14 = get_or b 14 0;
  b15 = get_or b 15 0;
}

abbrev pub to_list : Uuid → List ℕ
to_list u =
    u.b0 ∷ u.b1 ∷ u.b2 ∷ u.b3 ∷ u.b4 ∷ u.b5 ∷ u.b6 ∷ u.b7 ∷ u.b8 ∷ u.b9 ∷ u.b10 ∷ u.b11 ∷ u.b12
    ∷ u.b13 ∷ u.b14 ∷ u.b15 ∷ []

-- `uuid.UUID{}`
abbrev pub zero_uuid : Uuid
zero_uuid = from_list []

-- The n UUIDs from an address on.
abbrev pub read_uuids : Memory → ℕ → ℕ → List Uuid
read_uuids mem a n = tabulate (λ k. read_uuid mem (a + 16 * k)) n
