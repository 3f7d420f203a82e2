-- ===== src/Api/Sql.antt =====
-- The SQL Server order in go/uuidgen.go, and `bytesInPlace` of go/core.go. As in the other modules,
-- a function takes the instance that it acquires and returns it with its result.
pub mod Answers
pub mod RoundTrip
pub mod InPlace
use hyper_uuid.Prelude.{ℕ, ◌==◌, if◌then◌else◌, List, length, Option, none, some}
use hyper_uuid.Prelude.{Result, ok, err, ApiError, wrong_version, not_one_uuid, other}
use hyper_uuid.Uuid.{Uuid, from_list, to_list}
use hyper_uuid.Instance
use hyper_uuid.Instance.{Instance}

-- `errSqlOrder`
unfoldable pub err_sql_order : ℕ → Option ApiError
err_sql_order rc = if rc == 0 then none else if rc == 5 then some wrong_version else some (other rc)

-- `if err := …; err != nil { return uuid.UUID{}, err }`
abbrev pub checked : Uuid → Option ApiError → Result Uuid
checked out none = ok out
checked out (some e) = err e

module _ {S : Type 0} where
  -- `sqlOrder`, on the result of its call
  unfoldable pub sql_order : Instance S × Uuid × ℕ → Instance S × Result Uuid
  unfolding err_sql_order
  sql_order (self, out, rc) = (self, checked out (err_sql_order rc))

  unfoldable pub v7_to_sql_order : Instance S → Uuid → Instance S × Result Uuid
  unfolding sql_order
  v7_to_sql_order self id = sql_order (Instance.v7_to_sql_order self id)

  unfoldable pub v7_from_sql_order : Instance S → Uuid → Instance S × Result Uuid
  unfolding sql_order
  v7_from_sql_order self id = sql_order (Instance.v7_to_rfc_order self id)

  -- `bytesInPlace`: the buffer afterwards and the return code.
  unfoldable pub bytes_in_place : List ℕ → (Uuid → Instance S × Uuid × ℕ) → Instance S × List ℕ × ℕ
  bytes_in_place b convert =
      let (self, out, rc) = convert (from_list b) in (self, if rc == 0 then to_list out else b, rc)

  -- `sqlOrderBytes`: the buffer afterwards and the error.
  unfoldable pub sql_order_bytes :
      Instance S
      → List ℕ
      → (List ℕ → Instance S × List ℕ × ℕ)
      → Instance S × (List ℕ × Option ApiError)
  unfolding err_sql_order
  sql_order_bytes self b call =
      if length b == 16
      then (let (self, b, rc) = call b in (self, (b, err_sql_order rc)))
      else (self, (b, some not_one_uuid))

  unfoldable pub v7_to_sql_order_bytes :
      Instance S → List ℕ → Instance S × (List ℕ × Option ApiError)
  unfolding sql_order_bytes bytes_in_place
  v7_to_sql_order_bytes self b =
      sql_order_bytes self b λ b. bytes_in_place b λ id. Instance.v7_to_sql_order self id

  unfoldable pub v7_from_sql_order_bytes :
      Instance S → List ℕ → Instance S × (List ℕ × Option ApiError)
  unfolding sql_order_bytes bytes_in_place
  v7_from_sql_order_bytes self b =
      sql_order_bytes self b λ b. bytes_in_place b λ id. Instance.v7_to_rfc_order self id
