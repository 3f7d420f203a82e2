-- ===== src/Core/Inspect/Reads.antt =====
-- What the readers answer about a UUID loaded at the scratch's address.
use hyper_uuid.Prelude.{ℕ, ◌+◌, ◌*◌, ◌/◌, ◌%◌, ◌^◌, ◌≤◌, ◌<◌, ◌≡◌, refl, arith, Bool, true, false}
use hyper_uuid.Prelude.{ltb, leb, not, ◌==◌, ◌&&◌, if◌then◌else◌}
use hyper_uuid.Prelude.{◌⊎◌, inl, inr, lt→ltb, le→not-ltb}
use hyper_uuid.Bits.{and_mask, and_field, or_byte}
use hyper_uuid.Word.{◌and◌, ◌or◌, shr, sext8, flag, neg32, add32, lt_s32}
use hyper_uuid.Word.Fields.{six_bytes, join_high, join_in, join_five}
use hyper_uuid.Memory.{Memory, store64}
use hyper_uuid.Uuid.{Uuid, IsBytes, write_uuid, unix_ts_ms}
use hyper_uuid.Core.Inspect.{
  uuid_version, uuid_variant, uuid_is_rfc, uuid_v7_unix_millis, uuid_v7_unix_millis_in,
  uuid_get_timestamp, stamp_at,
}

-- The marks of the two layouts, as tests: a version nibble n under the RFC variant, and an 8 in
-- octet 7 over the RFC variant.
abbrev pub has_version : ℕ → Uuid → Bool
has_version n id = (id.b6 / 16 == n) && (leb 128 id.b8 && ltb id.b8 192)

abbrev pub has_sql_marks : Uuid → Bool
has_sql_marks id = (id.b7 / 16 == 8) && (leb 128 id.b8 && ltb id.b8 192)

-- RFC 9562 §4.1, in the codes of `UuidVariant`.
abbrev pub variant_code : ℕ → ℕ
variant_code b8 = if ltb b8 128 then 1 else if ltb b8 192 then 2 else if ltb b8 224 then 3 else 4

-- The milliseconds where the SQL Server layout puts them.
abbrev pub sql_unix_ts_ms : Uuid → ℕ
sql_unix_ts_ms id =
    id.b10 * 2 ^ 40 + id.b11 * 2 ^ 32 + id.b12 * 2 ^ 24 + id.b13 * 2 ^ 16 + id.b14 * 2 ^ 8 + id.b15

eighths :
    (b : ℕ) → b < 256 → (b < 128) ⊎ ((b / 32 ≡ 4) ⊎ ((b / 32 ≡ 5) ⊎ ((b / 32 ≡ 6) ⊎ (b / 32 ≡ 7))))
eighths b h = omega arith

variant_sign : (b8 : ℕ) → b8 < 256 → lt_s32 (neg32 1) (sext8 b8) ≡ ltb b8 128
variant_sign b8 h = ground arith

variant_index :
    (b8 k : ℕ) → b8 < 256 → b8 / 32 ≡ k + 4 → add32 (shr (sext8 b8 and 224) 5) (neg32 4) ≡ k
variant_index b8 k h e = rw (and_field 5 3 (sext8 b8)) (ground arith)

pub top_below : (b8 : ℕ) → b8 < 256 → lt_s32 (neg32 65) (sext8 b8) ≡ not (leb 128 b8 && ltb b8 192)
top_below b8 h = ground arith

pub sql_below : (b7 : ℕ) → b7 < 256 → lt_s32 (neg32 113) (sext8 b7) ≡ not (b7 / 16 == 8)
sql_below b7 h = ground arith

pub seven_nibble : (b6 : ℕ) → b6 < 256 → (b6 and neg32 16 and 255 == 112) ≡ (b6 / 16 == 7)
seven_nibble b6 h = rw (and_field 4 28 b6, and_mask 8 (b6 / 2 ^ 4 % 2 ^ 28 * 2 ^ 4)) (ground arith)

-- The greatest timestamp, of the end of the year 9999: its low byte is 255, so the code may compare
-- before it reads the sixth byte.
below_cap :
    (a b c d e f : ℕ)
    → f < 256
    → ltb 253402300799999 (six_bytes a b c d e 0)
      ≡ not (leb (six_bytes a b c d e f) 253402300799999)
below_cap a b c d e f h = ground arith

sixth : (a b c d e f : ℕ) → f < 256 → (six_bytes a b c d e 0 or f) ≡ six_bytes a b c d e f
sixth a b c d e f h =
    omega (arith, or_byte 0 (six_bytes a b c d e 0) f f (omega arith) (omega arith) h)

-- What `Xuuid_get_timestamp` answers on marks that are right or wrong and on milliseconds ms.
abbrev pub timed : Memory → Bool → ℕ → Memory × ℕ
timed mem marked ms =
    if marked && leb ms 253402300799999 then (store64 mem 131088 ms, 7) else (mem, 0)

timed_steps :
    (mem : Memory) (p0 p1 p2 p3 p4 p5 : ℕ)
    → mem p0 < 256
    → mem p1 < 256
    → mem p2 < 256
    → mem p3 < 256
    → mem p4 < 256
    → mem p5 < 256
    → stamp_at mem 131088 p0 p1 p2 p3 p4 p5
      ≡ timed mem true (six_bytes (mem p0) (mem p1) (mem p2) (mem p3) (mem p4) (mem p5))
unfolding stamp_at
timed_steps mem p0 p1 p2 p3 p4 p5 ha hb hc hd he hf =
    let ms = six_bytes (mem p0) (mem p1) (mem p2) (mem p3) (mem p4) (mem p5) in
    rw
      (
        join_five (mem p0) (mem p1) (mem p2) (mem p3) (mem p4) (mem p5) ha hb hc hd he hf,
        below_cap (mem p0) (mem p1) (mem p2) (mem p3) (mem p4) (mem p5) hf,
        sixth (mem p0) (mem p1) (mem p2) (mem p3) (mem p4) (mem p5) hf,
      )
      (swap (leb ms 253402300799999) (store64 mem 131088 ms, 7) (mem, 0))
  where
    swap : {A : Type 0} (c : Bool) (x y : A) → (if not c then y else x) ≡ (if c then x else y)
    swap true x y = refl
    swap false x y = refl

rfc_guards :
    (mem : Memory) (a b : Bool) (ms : ℕ)
    → (if not a then (mem, 0) else if b then timed mem true ms else (mem, 0))
      ≡ timed mem (b && a) ms
rfc_guards mem true true ms = refl
rfc_guards mem true false ms = refl
rfc_guards mem false true ms = refl
rfc_guards mem false false ms = refl

sql_guards :
    (mem : Memory) (a b : Bool) (ms : ℕ)
    → (if not b then (mem, 0) else if not a then (mem, 0) else timed mem true ms)
      ≡ timed mem (b && a) ms
sql_guards mem true true ms = refl
sql_guards mem true false ms = refl
sql_guards mem false true ms = refl
sql_guards mem false false ms = refl

module _ (mem : Memory) (id : Uuid) (h : IsBytes id) where
  abbrev loaded : Memory
  loaded = write_uuid mem 131072 id

  pub version-rfc : uuid_version loaded 131072 1 ≡ id.b6 / 16
  unfolding uuid_version
  version-rfc = refl

  pub version-sql : uuid_version loaded 131072 2 ≡ (if has_sql_marks id then 7 else 0)
  unfolding uuid_version
  version-sql = ground arith

  pub is_rfc-rfc : (n : ℕ) → n ≤ 16 → uuid_is_rfc loaded 131072 n 1 ≡ flag (has_version n id)
  unfolding uuid_is_rfc
  is_rfc-rfc n k = rw (and_mask 8 n) (ground arith)

  pub is_rfc-sql :
      (n : ℕ) → n ≤ 16 → uuid_is_rfc loaded 131072 n 2 ≡ flag ((n == 7) && has_sql_marks id)
  unfolding uuid_is_rfc
  is_rfc-sql n k = ground arith

  pub variant-code :
      mem 65556 ≡ 2
      → mem 65557 ≡ 2
      → mem 65558 ≡ 3
      → uuid_variant loaded 131072 ≡ variant_code id.b8
  unfolding uuid_variant
  variant-code t0 t1 t2 = elim (eighths id.b8 h.b8) [
    | inl low ↦ rw (variant_sign id.b8 h.b8, lt→ltb id.b8 128 low) refl
    | inr (inl e) ↦
        rw
          (
            variant_sign id.b8 h.b8,
            variant_index id.b8 0 h.b8 e,
            le→not-ltb id.b8 128 (omega arith),
            lt→ltb id.b8 192 (omega arith),
          )
          t0
    | inr (inr (inl e)) ↦
        rw
          (
            variant_sign id.b8 h.b8,
            variant_index id.b8 1 h.b8 e,
            le→not-ltb id.b8 128 (omega arith),
            lt→ltb id.b8 192 (omega arith),
          )
          t1
    | inr (inr (inr (inl e))) ↦
        rw
          (
            variant_sign id.b8 h.b8,
            variant_index id.b8 2 h.b8 e,
            le→not-ltb id.b8 128 (omega arith),
            le→not-ltb id.b8 192 (omega arith),
            lt→ltb id.b8 224 (omega arith),
          )
          t2
    | inr (inr (inr (inr e))) ↦
        rw
          (
            variant_sign id.b8 h.b8,
            variant_index id.b8 3 h.b8 e,
            le→not-ltb id.b8 128 (omega arith),
            le→not-ltb id.b8 192 (omega arith),
            le→not-ltb id.b8 224 (omega arith),
          )
          refl
  ]

  pub millis-rfc : uuid_v7_unix_millis loaded 131072 ≡ unix_ts_ms id
  unfolding uuid_v7_unix_millis
  millis-rfc = join_high id.b0 id.b1 id.b2 id.b3 id.b4 id.b5 h.b0 h.b1 h.b2 h.b3 h.b4 h.b5

  pub millis_in-rfc : uuid_v7_unix_millis_in loaded 131072 1 ≡ unix_ts_ms id
  unfolding uuid_v7_unix_millis_in
  millis_in-rfc = join_in id.b0 id.b1 id.b2 id.b3 id.b4 id.b5 h.b0 h.b1 h.b2 h.b3 h.b4 h.b5

  pub millis_in-sql : uuid_v7_unix_millis_in loaded 131072 2 ≡ sql_unix_ts_ms id
  unfolding uuid_v7_unix_millis_in
  millis_in-sql =
      join_in id.b10 id.b11 id.b12 id.b13 id.b14 id.b15 h.b10 h.b11 h.b12 h.b13 h.b14 h.b15

  pub get_timestamp-rfc :
      uuid_get_timestamp loaded 131072 1 131088 ≡ timed loaded (has_version 7 id) (unix_ts_ms id)
  unfolding uuid_get_timestamp
  get_timestamp-rfc =
      rw
        (
          top_below id.b8 h.b8,
          seven_nibble id.b6 h.b6,
          timed_steps loaded 131072 131073 131074 131075 131076 131077 h.b0 h.b1 h.b2 h.b3 h.b4
              h.b5,
        )
        (rfc_guards loaded (leb 128 id.b8 && ltb id.b8 192) (id.b6 / 16 == 7) (unix_ts_ms id))

  pub get_timestamp-sql :
      uuid_get_timestamp loaded 131072 2 131088
      ≡ timed loaded (has_sql_marks id) (sql_unix_ts_ms id)
  unfolding uuid_get_timestamp
  get_timestamp-sql =
      rw
        (
          sql_below id.b7 h.b7,
          top_below id.b8 h.b8,
          timed_steps loaded 131082 131083 131084 131085 131086 131087 h.b10 h.b11 h.b12 h.b13 h.b14
              h.b15,
        )
        (sql_guards loaded (leb 128 id.b8 && ltb id.b8 192) (id.b7 / 16 == 8) (sql_unix_ts_ms id))
