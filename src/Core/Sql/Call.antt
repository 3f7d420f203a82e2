-- ===== src/Core/Sql/Call.antt =====
-- The whole calls `Xuuid_v7_to_sql_order` and `Xuuid_v7_to_rfc_order` on a loaded UUID.
use hyper_uuid.Prelude.{
  ℕ, ◌/◌, ◌≡◌, refl, Bool, true, false, not, ltb, leb, ◌==◌, ◌&&◌, if◌then◌else◌,
}
use hyper_uuid.Word.{sext8}
use hyper_uuid.Memory.{Memory, load32, load64}
use hyper_uuid.Uuid.{Uuid, IsBytes, write_uuid, read_uuid, SameBytes-eq}
use hyper_uuid.Core.Inspect.Reads.{has_version, has_sql_marks, top_below, sql_below, seven_nibble}
use hyper_uuid.Core.Sql.{to_sql_steps, to_rfc_steps, uuid_v7_to_sql_order, uuid_v7_to_rfc_order}
use hyper_uuid.Core.Sql.Bytes.{sql_layout, to_sql_steps-sql_layout}
use hyper_uuid.Core.Sql.Back.{rfc_layout, to_rfc_steps-rfc_layout}

-- The memory and the return code of a conversion of `id` to `out`: 0, or 5 where the marks of `id` are
-- wrong. The word of the stream and the table of variants stay as they are.
pub record Converts (mem : Memory) (id out : Uuid) (marked : Bool) (r : Memory × ℕ) : Type 0 where
  pub rc : r.1 ≡ (if marked then 0 else 5)
  pub value : read_uuid r.0 131072 ≡ (if marked then out else id)
  pub word : load64 r.0 65560 ≡ load64 mem 65560
  pub t0 : r.0 65556 ≡ mem 65556
  pub t1 : r.0 65557 ≡ mem 65557
  pub t2 : r.0 65558 ≡ mem 65558
  pub hash_ab : load64 r.0 65536 ≡ load64 mem 65536
  pub hash_cd : load64 r.0 65544 ≡ load64 mem 65544
  pub hash_e : load32 r.0 65552 ≡ load32 mem 65552

refused : (mem : Memory) (id out : Uuid) → Converts mem id out false (write_uuid mem 131072 id, 5)
refused mem id out = record {
  rc = refl;
  value = refl;
  word = refl;
  t0 = refl;
  t1 = refl;
  t2 = refl;
  hash_ab = refl;
  hash_cd = refl;
  hash_e = refl;
}

module _ (mem : Memory) (id : Uuid) (h : IsBytes id) where
  to_sql_made :
      Converts mem id
        (sql_layout id)
        true
        (to_sql_steps (write_uuid mem 131072 id) 131072 (sext8 id.b8) id.b6, 0)
  unfolding to_sql_steps
  to_sql_made = record {
    rc = refl;
    value = SameBytes-eq (to_sql_steps-sql_layout mem id h);
    word = refl;
    t0 = refl;
    t1 = refl;
    t2 = refl;
    hash_ab = refl;
    hash_cd = refl;
    hash_e = refl;
  }

  to_rfc_made :
      Converts mem id
        (rfc_layout id)
        true
        (to_rfc_steps (write_uuid mem 131072 id) 131072 (sext8 id.b7) (sext8 id.b8), 0)
  unfolding to_rfc_steps
  to_rfc_made = record {
    rc = refl;
    value = SameBytes-eq (to_rfc_steps-rfc_layout mem id h);
    word = refl;
    t0 = refl;
    t1 = refl;
    t2 = refl;
    hash_ab = refl;
    hash_cd = refl;
    hash_e = refl;
  }

  pub uuid_v7_to_sql_order-Converts :
      Converts mem id
        (sql_layout id)
        (has_version 7 id)
        (uuid_v7_to_sql_order (write_uuid mem 131072 id) 131072)
  unfolding uuid_v7_to_sql_order
  uuid_v7_to_sql_order-Converts =
      rw (top_below id.b8 h.b8, seven_nibble id.b6 h.b6)
        (guarded (leb 128 id.b8 && ltb id.b8 192) (id.b6 / 16 == 7))
    where
      guarded :
          (a b : Bool)
          → Converts mem id (sql_layout id) (b && a) (
              if not a
              then (write_uuid mem 131072 id, 5)
              else if b
              then (to_sql_steps (write_uuid mem 131072 id) 131072 (sext8 id.b8) id.b6, 0)
              else (write_uuid mem 131072 id, 5))
      guarded true true = to_sql_made
      guarded true false = refused mem id (sql_layout id)
      guarded false true = refused mem id (sql_layout id)
      guarded false false = refused mem id (sql_layout id)

  pub uuid_v7_to_rfc_order-Converts :
      Converts mem id
        (rfc_layout id)
        (has_sql_marks id)
        (uuid_v7_to_rfc_order (write_uuid mem 131072 id) 131072)
  unfolding uuid_v7_to_rfc_order
  uuid_v7_to_rfc_order-Converts =
      rw (sql_below id.b7 h.b7, top_below id.b8 h.b8)
        (guarded (leb 128 id.b8 && ltb id.b8 192) (id.b7 / 16 == 8))
    where
      guarded :
          (a b : Bool)
          → Converts mem id (rfc_layout id) (b && a) (
              if not b
              then (write_uuid mem 131072 id, 5)
              else if not a
              then (write_uuid mem 131072 id, 5)
              else (to_rfc_steps (write_uuid mem 131072 id) 131072 (sext8 id.b7) (sext8 id.b8), 0))
      guarded true true = to_rfc_made
      guarded true false = refused mem id (rfc_layout id)
      guarded false true = refused mem id (rfc_layout id)
      guarded false false = refused mem id (rfc_layout id)
