-- ===== src/Api/Inspect.antt =====
-- go/inspect.go, and the readers of go/uuidgen.go. A `time.Time` result is the milliseconds that
-- `time.UnixMilli` is given. Each function takes the instance that it acquires and returns it with
-- its result.
pub mod Answers
pub mod Times
pub mod Buffers
use hyper_uuid.Prelude.{ℕ, ltb, ◌==◌, ◌||◌, if◌then◌else◌, Bool, true, false, List, length}
use hyper_uuid.Prelude.{
  ℤ, pos, negsuc, Result, ok, err, not_time_based, not_one_uuid, invalid_layout,
}
use hyper_uuid.Uuid.{Uuid, from_list}
use hyper_uuid.Instance
use hyper_uuid.Instance.{Instance}

-- `LayoutRfc9562` and `LayoutSqlServer`
abbrev pub layout_rfc9562 : ℕ
layout_rfc9562 = 1

abbrev pub layout_sql_server : ℕ
layout_sql_server = 2

unfoldable pub layout_code : ℕ → Result ℕ
layout_code layout =
    if layout == layout_rfc9562 || layout == layout_sql_server
    then ok layout
    else err invalid_layout

unfoldable pub one_uuid : List ℕ → Result Uuid
one_uuid b = if length b == 16 then ok (from_list b) else err not_one_uuid

unfoldable pub rfc_version : ℤ → ℕ
rfc_version (negsuc n) = 16
rfc_version (pos n) = if ltb 15 n then 16 else n

module _ {S : Type 0} where
  -- `if err != nil { return …, err }`
  abbrev pub with_code :
      {A : Type 0} → Instance S → Result ℕ → (ℕ → Instance S × Result A) → Instance S × Result A
  with_code self (ok code) k = k code
  with_code self (err e) k = (self, err e)

  abbrev pub with_uuid :
      {A : Type 0}
      → Instance S
      → Result Uuid
      → (Uuid → Instance S × Result A)
      → Instance S × Result A
  with_uuid self (ok id) k = k id
  with_uuid self (err e) k = (self, err e)

  abbrev pub done : {A : Type 0} → Instance S × A → Instance S × Result A
  done (self, a) = (self, ok a)

  unfoldable pub version : Instance S → Uuid → Instance S × ℕ
  version self id = Instance.version self id layout_rfc9562

  unfoldable pub version_in : Instance S → Uuid → ℕ → Instance S × Result ℕ
  unfolding layout_code
  version_in self id layout =
      with_code self (layout_code layout) λ code. done (Instance.version self id code)

  unfoldable pub version_bytes : Instance S → List ℕ → ℕ → Instance S × Result ℕ
  unfolding layout_code one_uuid
  version_bytes self b layout =
      with_code self (layout_code layout)
        λ code. with_uuid self (one_uuid b) λ id. done (Instance.version self id code)

  unfoldable pub variant : Instance S → Uuid → Instance S × ℕ
  variant self id = Instance.variant self id

  unfoldable pub variant_bytes : Instance S → List ℕ → Instance S × Result ℕ
  unfolding one_uuid
  variant_bytes self b = with_uuid self (one_uuid b) λ id. done (Instance.variant self id)

  unfoldable pub is_rfc : Instance S → Uuid → ℤ → Instance S × Bool
  unfolding rfc_version
  is_rfc self id version = Instance.is_rfc self id (rfc_version version) layout_rfc9562

  unfoldable pub is_rfc_in : Instance S → Uuid → ℤ → ℕ → Instance S × Result Bool
  unfolding layout_code rfc_version
  is_rfc_in self id version layout =
      with_code self (layout_code layout)
        λ code. done (Instance.is_rfc self id (rfc_version version) code)

  unfoldable pub is_rfc_bytes : Instance S → List ℕ → ℤ → ℕ → Instance S × Result Bool
  unfolding layout_code one_uuid rfc_version
  is_rfc_bytes self b version layout = with_code self (layout_code layout) λ code.
      with_uuid self (one_uuid b) λ id. done (Instance.is_rfc self id (rfc_version version) code)

  -- `V7UnixMillis`, whose milliseconds `V7Timestamp` hands to `time.UnixMilli`.
  unfoldable pub v7_unix_millis : Instance S → Uuid → Instance S × Result ℕ
  v7_unix_millis self id = done (Instance.v7_unix_millis self id)

  unfoldable pub v7_unix_millis_in : Instance S → Uuid → ℕ → Instance S × Result ℕ
  unfolding layout_code
  v7_unix_millis_in self id layout =
      with_code self (layout_code layout) λ code. done (Instance.v7_unix_millis_in self id code)

  abbrev pub read_time : Instance S × ℕ × ℕ → Instance S × Result ℕ
  read_time (self, ver, millis) = if ver == 0 then (self, err not_time_based) else (self, ok millis)

  unfoldable pub timestamp_in : Instance S → Uuid → ℕ → Instance S × Result ℕ
  timestamp_in self id code = read_time (Instance.get_timestamp self id code)

  unfoldable pub get_timestamp : Instance S → Uuid → Instance S × Result ℕ
  unfolding timestamp_in
  get_timestamp self id = timestamp_in self id layout_rfc9562

  unfoldable pub get_timestamp_in : Instance S → Uuid → ℕ → Instance S × Result ℕ
  unfolding layout_code timestamp_in
  get_timestamp_in self id layout =
      with_code self (layout_code layout) λ code. timestamp_in self id code
