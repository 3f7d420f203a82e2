-- ===== src/Api/Sql/Answers.antt =====
-- The conversions of go/uuidgen.go on an instance that is ready.
use hyper_uuid.Prelude.{ℕ, refl, ◌∙◌, Bool, true, false, if◌then◌else◌}
use hyper_uuid.Prelude.{Result, ok, err, wrong_version}
use hyper_uuid.Memory.{Memory}
use hyper_uuid.Uuid.{Uuid, IsBytes, read_uuid}
use hyper_uuid.Stream.{Stream}
use hyper_uuid.Core.Inspect.Reads.{has_version, has_sql_marks}
use hyper_uuid.Core.Sql.Bytes.{sql_layout}
use hyper_uuid.Core.Sql.Back.{rfc_layout}
use hyper_uuid.Core.Sql.Call.{
  Converts, uuid_v7_to_sql_order-Converts, uuid_v7_to_rfc_order-Converts,
}
use hyper_uuid.Instance
use hyper_uuid.Instance.{Instance}
use hyper_uuid.Instance.Ready.{IsReady}
use hyper_uuid.Api.Inspect.Answers.{Gives}
use hyper_uuid.Api.Sql.{sql_order, v7_to_sql_order, v7_from_sql_order}

-- A conversion's answer: the converted UUID where the marks are right, and an error elsewhere.
abbrev pub converted : Bool → Uuid → Result Uuid
converted marked out = if marked then ok out else err wrong_version

module _ {S : Type 0} (self : Instance S) (s : Stream) (ready : IsReady self s) (id : Uuid) where
  -- The instance and the answer for the memory and the return code of a conversion.
  abbrev pub from_core : Memory × ℕ → Instance S × Uuid × ℕ
  from_core (mem, rc) = (
    record self { m = record self.m { memory = mem }; scratch = 131072 },
    read_uuid mem 131072,
    rc,
  )

  pub from_core-IsReady :
      (out : Uuid) (marked : Bool) (r : Memory × ℕ)
      → Converts self.m.memory id out marked r
      → IsReady (from_core r).0 s
  from_core-IsReady out marked r h = record {
    holds = record {
      stack = ready.holds.stack;
      word = h.word ∙ ready.holds.word;
      valid = ready.holds.valid;
      t0 = h.t0 ∙ ready.holds.t0;
      t1 = h.t1 ∙ ready.holds.t1;
      t2 = h.t2 ∙ ready.holds.t2;
      hash_ab = h.hash_ab ∙ ready.holds.hash_ab;
      hash_cd = h.hash_cd ∙ ready.holds.hash_cd;
      hash_e = h.hash_e ∙ ready.holds.hash_e;
    };
    placed = refl;
    paged = ready.paged;
    sized = ready.sized;
  }

  pub from_core-Gives :
      (out : Uuid) (marked : Bool) (r : Memory × ℕ)
      → Converts self.m.memory id out marked r
      → Gives s (sql_order (from_core r)) (converted marked out)
  unfolding sql_order
  from_core-Gives out true r h = (rw (h.rc, h.value) refl, from_core-IsReady out true r h)
  from_core-Gives out false r h = (rw h.rc refl, from_core-IsReady out false r h)

  module _ (bytes : IsBytes id) where
    -- On an instance that is ready (its stack empty, its word holding the stream, its scratch
    -- behind its two pages) and for a UUID of 16 bytes, `V7ToSqlOrder` returns the SQL Server
    -- layout, given octet by octet in arithmetic, exactly for an RFC 9562 version 7 and the
    -- wrong-version error for all others, and leaves the instance ready.
    pub v7_to_sql_order-Gives :
        Gives s (v7_to_sql_order self id) (converted (has_version 7 id) (sql_layout id))
    unfolding v7_to_sql_order Instance.v7_to_sql_order Instance.load Instance.result
    v7_to_sql_order-Gives = rw ready.placed (
        from_core-Gives (sql_layout id) (has_version 7 id) _
          (uuid_v7_to_sql_order-Converts self.m.memory id bytes))

    -- On an instance that is ready (its stack empty, its word holding the stream, its scratch
    -- behind its two pages) and for a UUID of 16 bytes, `V7FromSqlOrder` returns the RFC 9562
    -- layout, given octet by octet in arithmetic, exactly for a value with the marks of the SQL
    -- Server layout and the wrong-version error for all others, and leaves the instance ready.
    pub v7_from_sql_order-Gives :
        Gives s (v7_from_sql_order self id) (converted (has_sql_marks id) (rfc_layout id))
    unfolding v7_from_sql_order Instance.v7_to_rfc_order Instance.load Instance.result
    v7_from_sql_order-Gives = rw ready.placed (
        from_core-Gives (rfc_layout id) (has_sql_marks id) _
          (uuid_v7_to_rfc_order-Converts self.m.memory id bytes))
