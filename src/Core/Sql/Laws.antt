-- ===== src/Core/Sql/Laws.antt =====
-- The two layouts as functions of each other, and their orders of comparison.
use hyper_uuid.Prelude.{ℕ, ◌+◌, ◌*◌, ◌/◌, ◌%◌, ◌^◌, ◌<◌, ◌≡◌, ◌↔◌, refl, arith, true}
use hyper_uuid.Uuid.{Uuid, IsBytes, IsRfcUuid, IsSqlUuid, SameBytes-eq, value, sql_key, unix_ts_ms}
use hyper_uuid.Core.Inspect.Reads.{has_version, has_sql_marks, sql_unix_ts_ms}
use hyper_uuid.Core.Sql.Bytes.{sql_layout}
use hyper_uuid.Core.Sql.Back.{rfc_layout}

-- The 26-bit counter and the 48 trailing bits of a version 7.
abbrev counter : Uuid → ℕ
counter u = u.b6 % 16 * 2 ^ 22 + u.b7 * 2 ^ 14 + u.b8 % 64 * 2 ^ 8 + u.b9

abbrev tail : Uuid → ℕ
tail u = u.b10 * 2 ^ 40 + u.b11 * 2 ^ 32 + u.b12 * 2 ^ 24 + u.b13 * 2 ^ 16 + u.b14 * 2 ^ 8 + u.b15

-- A timestamp, a counter and a tail as RFC 9562 and as the SQL Server layout put them.
abbrev rfc_number : ℕ → ℕ → ℕ → ℕ
rfc_number t c r = t * 2 ^ 80 + 7 * 2 ^ 76 + c / 2 ^ 14 * 2 ^ 64 + 2 ^ 63 + c % 2 ^ 14 * 2 ^ 48 + r

abbrev sql_number : ℕ → ℕ → ℕ → ℕ
sql_number t c r = t * 2 ^ 80 + 2 ^ 79 + c / 2 ^ 4 * 2 ^ 56 + 2 ^ 55 + c % 2 ^ 4 * 2 ^ 48 + r

numbers_lt :
    (t c r t' c' r' : ℕ)
    → c < 2 ^ 26
    → c' < 2 ^ 26
    → r < 2 ^ 48
    → r' < 2 ^ 48
    → (rfc_number t c r < rfc_number t' c' r') ↔ (sql_number t c r < sql_number t' c' r')
numbers_lt t c r t' c' r' hc hc' hr hr' = (λ h. omega arith, λ h. omega arith)

module _ (id : Uuid) (bytes : IsBytes id) where
  pub IsRfcUuid-marks : IsRfcUuid 7 id → has_version 7 id ≡ true
  IsRfcUuid-marks h = ground arith

  pub IsSqlUuid-marks : IsSqlUuid id → has_sql_marks id ≡ true
  IsSqlUuid-marks h = ground arith

  pub sql_layout-IsBytes : IsBytes (sql_layout id)
  sql_layout-IsBytes = omega arith

  pub sql_layout-IsSqlUuid : IsSqlUuid (sql_layout id)
  sql_layout-IsSqlUuid = omega arith

  pub rfc_layout-IsBytes : IsBytes (rfc_layout id)
  rfc_layout-IsBytes = omega arith

  pub rfc_layout-IsRfcUuid : IsRfcUuid 7 (rfc_layout id)
  rfc_layout-IsRfcUuid = omega arith

  pub rfc_layout-sql_layout : IsRfcUuid 7 id → rfc_layout (sql_layout id) ≡ id
  rfc_layout-sql_layout h = SameBytes-eq (omega arith)

  pub sql_layout-rfc_layout : IsSqlUuid id → sql_layout (rfc_layout id) ≡ id
  sql_layout-rfc_layout h = SameBytes-eq (omega arith)

  pub sql_unix_ts_ms-sql_layout : sql_unix_ts_ms (sql_layout id) ≡ unix_ts_ms id
  sql_unix_ts_ms-sql_layout = refl

  value-number : IsRfcUuid 7 id → value id ≡ rfc_number (unix_ts_ms id) (counter id) (tail id)
  value-number h = omega arith

  sql_key-number : sql_key (sql_layout id) ≡ sql_number (unix_ts_ms id) (counter id) (tail id)
  sql_key-number = omega arith

  counter-lt : counter id < 2 ^ 26
  counter-lt = omega arith

  tail-lt : tail id < 2 ^ 48
  tail-lt = omega arith

pub sql_layout-sorts :
    (u w : Uuid)
    → IsBytes u
    → IsBytes w
    → IsRfcUuid 7 u
    → IsRfcUuid 7 w
    → (value u < value w) ↔ (sql_key (sql_layout u) < sql_key (sql_layout w))
sql_layout-sorts u w bu bw hu hw =
    rw (value-number u bu hu, value-number w bw hw, sql_key-number u bu, sql_key-number w bw)
      (numbers_lt (unix_ts_ms u) (counter u) (tail u) (unix_ts_ms w) (counter w) (tail w)
        (counter-lt u bu) (counter-lt w bw) (tail-lt u bu) (tail-lt w bw))
