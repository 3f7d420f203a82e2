-- ===== src/Api/Sql/RoundTrip.antt =====
-- A conversion of go/uuidgen.go followed by another call on the same instance.
use hyper_uuid.Prelude.{◌<◌, ◌≡◌, ◌↔◌, refl, ap, sym, ◌∙◌, true}
use hyper_uuid.Prelude.{Result, ok, err}
use hyper_uuid.Uuid.{Uuid, IsBytes, IsRfcUuid, IsSqlUuid, value, sql_key, unix_ts_ms}
use hyper_uuid.Stream.{Stream}
use hyper_uuid.Core.Sql.Bytes.{sql_layout}
use hyper_uuid.Core.Sql.Back.{rfc_layout}
use hyper_uuid.Core.Sql.Laws.{
  IsRfcUuid-marks, IsSqlUuid-marks, sql_layout-IsBytes, sql_layout-IsSqlUuid, rfc_layout-IsBytes,
  rfc_layout-IsRfcUuid, rfc_layout-sql_layout, sql_layout-rfc_layout, sql_layout-sorts,
}
use hyper_uuid.Instance.{Instance}
use hyper_uuid.Instance.Ready.{IsReady}
use hyper_uuid.Api.Inspect.{version_in, get_timestamp_in}
use hyper_uuid.Api.Inspect.Answers.{Gives, version_in-Gives}
use hyper_uuid.Api.Inspect.Times.{time_of, get_timestamp_in-Gives}
use hyper_uuid.Api.Sql.{v7_to_sql_order, v7_from_sql_order}
use hyper_uuid.Api.Sql.Answers.{v7_to_sql_order-Gives, v7_from_sql_order-Gives}

-- The next call, on the instance and the UUID that the last one returned.
abbrev pub and_then :
    {S A : Type 0}
    → Instance S × Result Uuid
    → (Instance S → Uuid → Instance S × Result A)
    → Instance S × Result A
and_then (self, ok id) call = call self id
and_then (self, err e) call = (self, err e)

module _ {S A : Type 0} (s : Stream) where
  and_then-Gives :
      (r : Instance S × Result Uuid) (id : Uuid) (call : Instance S → Uuid → Instance S × Result A)
      (x : Result A)
      → Gives s r (ok id)
      → ((self : Instance S) → IsReady self s → Gives s (call self id) x)
      → Gives s (and_then r call) x
  and_then-Gives (self, a) id call x h next = rw h.0 (next self h.1)

module _ {S : Type 0} (self : Instance S) (s : Stream) (ready : IsReady self s) (id : Uuid)
    (bytes : IsBytes id) where
  to_sql_made : IsRfcUuid 7 id → Gives s (v7_to_sql_order self id) (ok (sql_layout id))
  to_sql_made h =
      let made = v7_to_sql_order-Gives self s ready id bytes in
      (made.0 ∙ rw (IsRfcUuid-marks id bytes h) refl, made.1)

  from_sql_made : IsSqlUuid id → Gives s (v7_from_sql_order self id) (ok (rfc_layout id))
  from_sql_made h =
      let made = v7_from_sql_order-Gives self s ready id bytes in
      (made.0 ∙ rw (IsSqlUuid-marks id bytes h) refl, made.1)

module _ {S : Type 0} (self : Instance S) (s : Stream) (ready : IsReady self s) (id : Uuid)
    (bytes : IsBytes id) where
  -- On an instance that is ready (its stack empty, its word holding the stream, its scratch
  -- behind its two pages) and for a UUID of 16 bytes, where it is an RFC 9562 version 7,
  -- `V7ToSqlOrder` followed by `V7FromSqlOrder` returns the UUID it was given.
  pub from-to_sql_order :
      IsRfcUuid 7 id → Gives s (and_then (v7_to_sql_order self id) v7_from_sql_order) (ok id)
  from-to_sql_order h =
      and_then-Gives s (v7_to_sql_order self id) (sql_layout id) v7_from_sql_order (ok id)
        (to_sql_made self s ready id bytes h)
        λ next k.
          (rw (sym (ap ok (rfc_layout-sql_layout id bytes h))) (
            from_sql_made next s k (sql_layout id) (sql_layout-IsBytes id bytes)
              (sql_layout-IsSqlUuid id bytes)))

  -- On an instance that is ready (its stack empty, its word holding the stream, its scratch
  -- behind its two pages) and for a UUID of 16 bytes, where it has the marks of the SQL Server
  -- layout, `V7FromSqlOrder` followed by `V7ToSqlOrder` returns the UUID it was given.
  pub to-from_sql_order :
      IsSqlUuid id → Gives s (and_then (v7_from_sql_order self id) v7_to_sql_order) (ok id)
  to-from_sql_order h =
      and_then-Gives s (v7_from_sql_order self id) (rfc_layout id) v7_to_sql_order (ok id)
        (from_sql_made self s ready id bytes h)
        λ next k.
          (rw (sym (ap ok (sql_layout-rfc_layout id bytes h))) (
            to_sql_made next s k (rfc_layout id) (rfc_layout-IsBytes id bytes)
              (rfc_layout-IsRfcUuid id bytes)))

  -- On an instance that is ready (its stack empty, its word holding the stream, its scratch
  -- behind its two pages) and for a UUID of 16 bytes, where it is an RFC 9562 version 7,
  -- `VersionIn` reads 7 from the result of `V7ToSqlOrder` in the SQL Server layout.
  pub version_in-to_sql_order :
      IsRfcUuid 7 id
      → Gives s (and_then (v7_to_sql_order self id) λ self w. version_in self w 2) (ok 7)
  version_in-to_sql_order h =
      and_then-Gives s (v7_to_sql_order self id) (sql_layout id) _ (ok 7)
        (to_sql_made self s ready id bytes h)
        λ next k.
          (let read = version_in-Gives next s k (sql_layout id) (sql_layout-IsBytes id bytes) 2 in
            (
              read.0
                  ∙ rw
                      (IsSqlUuid-marks (sql_layout id) (sql_layout-IsBytes id bytes)
                        (sql_layout-IsSqlUuid id bytes))
                      refl,
              read.1,
            ))

  -- On an instance that is ready (its stack empty, its word holding the stream, its scratch
  -- behind its two pages) and for a UUID of 16 bytes, where it is an RFC 9562 version 7,
  -- `GetTimestampIn` reads from the result of `V7ToSqlOrder`, in the SQL Server layout, the
  -- timestamp of the original, or reports that there is none if it is past the year 9999.
  pub get_timestamp_in-to_sql_order :
      IsRfcUuid 7 id
      → Gives s
          (and_then (v7_to_sql_order self id) λ self w. get_timestamp_in self w 2)
          (time_of true (unix_ts_ms id))
  get_timestamp_in-to_sql_order h =
      and_then-Gives s (v7_to_sql_order self id) (sql_layout id) _ (time_of true (unix_ts_ms id))
        (to_sql_made self s ready id bytes h)
        λ next k.
          (let read =
              get_timestamp_in-Gives next s k (sql_layout id) (sql_layout-IsBytes id bytes) 2 in
            (
              read.0
                  ∙ rw
                      (IsSqlUuid-marks (sql_layout id) (sql_layout-IsBytes id bytes)
                        (sql_layout-IsSqlUuid id bytes))
                      refl,
              read.1,
            ))

ok_injective : {A : Type 0} {a b : A} → ok a ≡ ok b → a ≡ b
ok_injective h = cc

-- For two RFC 9562 version 7 UUIDs of 16 bytes, each converted by `V7ToSqlOrder` on a ready
-- instance, the one is below the other as a byte string exactly if its conversion is below the
-- other's in the order in which SQL Server compares uniqueidentifiers.
pub to_sql_order-sorts :
    {S : Type 0} (self other : Instance S) (s t : Stream)
    → IsReady self s
    → IsReady other t
    → (u w a b : Uuid) → IsBytes u
    → IsBytes w
    → IsRfcUuid 7 u
    → IsRfcUuid 7 w
    → (v7_to_sql_order self u).1 ≡ ok a
    → (v7_to_sql_order other w).1 ≡ ok b
    → (value u < value w) ↔ (sql_key a < sql_key b)
to_sql_order-sorts self other s t hs ht u w a b bu bw hu hw ea eb =
    rw
      (
        ok_injective (sym ea ∙ (to_sql_made self s hs u bu hu).0),
        ok_injective (sym eb ∙ (to_sql_made other t ht w bw hw).0),
      )
      (sql_layout-sorts u w bu bw hu hw)
