-- ===== src/Api/Sql/InPlace.antt =====
-- The conversions of go/uuidgen.go on a caller's buffer.
use hyper_uuid.Prelude.{
  ℕ, refl, ap, Bool, true, false, Bool-cases, inl, inr, ◌==◌, if◌then◌else◌, List, length, Option,
  none, some, ApiError, wrong_version, not_one_uuid,
}
use hyper_uuid.Memory.{Memory}
use hyper_uuid.Uuid.{Uuid, IsBytes, from_list, to_list}
use hyper_uuid.Stream.{Stream}
use hyper_uuid.Core.Inspect.Reads.{has_version, has_sql_marks}
use hyper_uuid.Core.Sql.Bytes.{sql_layout}
use hyper_uuid.Core.Sql.Back.{rfc_layout}
use hyper_uuid.Core.Sql.Call.{
  Converts, uuid_v7_to_sql_order-Converts, uuid_v7_to_rfc_order-Converts,
}
use hyper_uuid.Instance
use hyper_uuid.Instance.{Instance}
use hyper_uuid.Instance.Ready.{IsReady}
use hyper_uuid.Api.Inspect.Answers.{Gives}
use hyper_uuid.Api.Sql.{
  err_sql_order, bytes_in_place, sql_order_bytes, v7_to_sql_order_bytes, v7_from_sql_order_bytes,
}
use hyper_uuid.Api.Sql.Answers.{from_core, from_core-IsReady}

-- The buffer and the error: rewritten where it holds a UUID with the marks, and as it was elsewhere.
abbrev pub rewritten : List ℕ → Bool → Uuid → List ℕ × Option ApiError
rewritten b marked out =
    if length b == 16
    then (if marked then (to_list out, none) else (b, some wrong_version))
    else (b, some not_one_uuid)

module _ {S : Type 0} (self : Instance S) (s : Stream) (ready : IsReady self s) (b : List ℕ) where
  from_core-rewritten :
      (out : Uuid) (marked : Bool) (r : Memory × ℕ)
      → Converts self.m.memory (from_list b) out marked r
      → Gives s
          (sql_order_bytes
            (record self { scratch = 131072 })
            b
            λ b. bytes_in_place b λ id. from_core self s ready id r)
          (rewritten b marked out)
  unfolding sql_order_bytes bytes_in_place err_sql_order
  from_core-rewritten out marked r h = elim (Bool-cases (length b == 16)) [
    | inl e ↦ rw e (whole marked h)
    | inr n ↦ rw n (
      refl,
      record { holds = ready.holds; placed = refl; paged = ready.paged; sized = ready.sized },
    )
  ]
    where
      whole :
          (marked : Bool)
          → Converts self.m.memory (from_list b) out marked r
          → Gives {S = S} {A = List ℕ × Option ApiError} s
              (let (self, b, rc) = bytes_in_place b (λ id. from_core self s ready id r) in
                (self, (b, err_sql_order rc)))
              (if marked then (to_list out, none) else (b, some wrong_version))
      whole true h = (
        rw h.rc (ap (λ u. (to_list u, none)) h.value),
        from_core-IsReady self s ready (from_list b) out true r h,
      )
      whole false h = (rw h.rc refl, from_core-IsReady self s ready (from_list b) out false r h)

  module _ (bytes : IsBytes (from_list b)) where
    -- On a ready instance, `V7ToSqlOrderBytes` rewrites a buffer of 16 bytes that holds an RFC
    -- 9562 version 7 into its SQL Server layout; it returns the not-one-UUID error for another
    -- length and the wrong-version error for any other UUID, with the buffer as it was, and
    -- leaves the instance ready.
    pub v7_to_sql_order_bytes-rewritten :
        Gives s
          (v7_to_sql_order_bytes self b)
          (rewritten b (has_version 7 (from_list b)) (sql_layout (from_list b)))
    unfolding v7_to_sql_order_bytes Instance.v7_to_sql_order Instance.load Instance.result
    v7_to_sql_order_bytes-rewritten = rw ready.placed (
        from_core-rewritten (sql_layout (from_list b)) (has_version 7 (from_list b)) _
          (uuid_v7_to_sql_order-Converts self.m.memory (from_list b) bytes))

    -- On a ready instance, `V7FromSqlOrderBytes` rewrites a buffer of 16 bytes that has the marks
    -- of the SQL Server layout into its RFC 9562 layout; it returns the not-one-UUID error for
    -- another length and the wrong-version error for any other UUID, with the buffer as it was,
    -- and leaves the instance ready.
    pub v7_from_sql_order_bytes-rewritten :
        Gives s
          (v7_from_sql_order_bytes self b)
          (rewritten b (has_sql_marks (from_list b)) (rfc_layout (from_list b)))
    unfolding v7_from_sql_order_bytes Instance.v7_to_rfc_order Instance.load Instance.result
    v7_from_sql_order_bytes-rewritten = rw ready.placed (
        from_core-rewritten (rfc_layout (from_list b)) (has_sql_marks (from_list b)) _
          (uuid_v7_to_rfc_order-Converts self.m.memory (from_list b) bytes))
