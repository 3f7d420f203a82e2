-- ===== src/Api/Inspect/Buffers.antt =====
-- The functions of go/inspect.go that take a caller's buffer, on an instance that is ready.
use hyper_uuid.Prelude.{ℕ, ◌/◌, refl, ◌==◌, ◌&&◌, if◌then◌else◌, Bool-cases, inl, inr, List, length}
use hyper_uuid.Prelude.{ℤ, Result, ok, err, not_one_uuid, invalid_layout}
use hyper_uuid.Uuid.{Uuid, IsBytes, from_list}
use hyper_uuid.Stream.{Stream}
use hyper_uuid.Core.Inspect.Reads.{has_sql_marks}
use hyper_uuid.Instance.{Instance}
use hyper_uuid.Instance.Ready.{IsReady}
use hyper_uuid.Api.Inspect.{one_uuid, with_uuid, version_bytes, is_rfc_bytes}
use hyper_uuid.Api.Inspect.Answers.{
  Gives, with_code-Gives, reads_version, has_version_at, is_seven, reads_version_at,
}

-- An answer in each layout for a buffer of 16 bytes; the layout is looked at first.
abbrev pub by_buffer : {A : Type 0} → ℕ → List ℕ → A → A → Result A
by_buffer layout b rfc sql =
    if layout == 1
    then (if length b == 16 then ok rfc else err not_one_uuid)
    else if layout == 2
    then (if length b == 16 then ok sql else err not_one_uuid)
    else err invalid_layout

module _ {S : Type 0} (self : Instance S) (s : Stream) (ready : IsReady self s) (b : List ℕ) where
  with_uuid-Gives :
      {A : Type 0} (k : Uuid → Instance S × Result A) (x : Result A)
      → Gives s (k (from_list b)) x
      → Gives s (with_uuid self (one_uuid b) k) (if length b == 16 then x else err not_one_uuid)
  unfolding one_uuid
  with_uuid-Gives k x h = elim (Bool-cases (length b == 16)) [
    | inl e ↦ rw e h
    | inr n ↦ rw n (refl, ready)
  ]

  module _ (bytes : IsBytes (from_list b)) where
    -- On a ready instance, `VersionBytes` refuses an undefined layout first, then a buffer whose
    -- length is not 16, and otherwise answers what `VersionIn` answers for the 16 bytes; the
    -- instance is left ready.
    pub version_bytes-Gives :
        (layout : ℕ)
        → Gives s (version_bytes self b layout) (
            by_buffer layout b
              ((from_list b).b6 / 16)
              (if has_sql_marks (from_list b) then 7 else 0))
    unfolding version_bytes
    version_bytes-Gives layout =
        let reads = reads_version self s ready (from_list b) bytes in
        with_code-Gives self s ready _ _ _ (with_uuid-Gives _ _ reads.0)
          (with_uuid-Gives _ _ reads.1) layout

    -- On a ready instance, `IsRfcBytes` refuses an undefined layout first, then a buffer whose
    -- length is not 16, and otherwise answers what `IsRfcIn` answers for the 16 bytes; the
    -- instance is left ready.
    pub is_rfc_bytes-Gives :
        (version : ℤ) (layout : ℕ)
        → Gives s (is_rfc_bytes self b version layout) (
            by_buffer layout b
              (has_version_at version (from_list b))
              (is_seven version && has_sql_marks (from_list b)))
    unfolding is_rfc_bytes
    is_rfc_bytes-Gives version layout =
        let reads = reads_version_at self s ready (from_list b) bytes version in
        with_code-Gives self s ready _ _ _ (with_uuid-Gives _ _ reads.0)
          (with_uuid-Gives _ _ reads.1) layout
