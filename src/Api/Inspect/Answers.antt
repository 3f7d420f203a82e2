-- ===== src/Api/Inspect/Answers.antt =====
-- What the functions of go/inspect.go answer, on every layout, on an instance that is ready.
use hyper_uuid.Prelude.{ℕ, ◌/◌, ◌≤◌, ◌≡◌, refl, ap, arith}
use hyper_uuid.Prelude.{
  Bool, true, false, not, ◌==◌, ◌&&◌, if◌then◌else◌, Bool-cases, ==_iff, inl, inr,
}
use hyper_uuid.Prelude.{ℤ, pos, negsuc, Result, ok, err, invalid_layout}
use hyper_uuid.Word.{flag}
use hyper_uuid.Uuid.{Uuid, IsBytes, version_nibble, unix_ts_ms}
use hyper_uuid.Stream.{Stream}
use hyper_uuid.Core.Inspect.Reads
use hyper_uuid.Core.Inspect.Reads.{has_version, has_sql_marks, variant_code, sql_unix_ts_ms}
use hyper_uuid.Instance
use hyper_uuid.Instance.{Instance}
use hyper_uuid.Instance.Ready.{IsReady, load-IsReady}
use hyper_uuid.Api.Inspect.{
  layout_code, rfc_version, with_code, done, version_in, variant, is_rfc_in, v7_unix_millis,
  v7_unix_millis_in,
}

-- An answer in each layout, and the refusal of all others.
abbrev pub by_layout : {A : Type 0} → ℕ → A → A → Result A
by_layout layout rfc sql =
    if layout == 1 then ok rfc else if layout == 2 then ok sql else err invalid_layout

-- Whether the version nibble is the integer asked for, under the RFC variant: no negative one is a
-- nibble, and none past 15.
abbrev pub has_version_at : ℤ → Uuid → Bool
has_version_at (pos n) id = has_version n id
has_version_at (negsuc k) id = false

abbrev pub is_seven : ℤ → Bool
is_seven (pos n) = n == 7
is_seven (negsuc k) = false

-- A call's value, and an instance that is as ready as before.
abbrev pub Gives : {S A : Type 0} → Stream → Instance S × A → A → Type 0
Gives s r x = (r.1 ≡ x) × IsReady r.0 s

module _ {S A : Type 0} (self : Instance S) (s : Stream) (ready : IsReady self s)
    (k : ℕ → Instance S × Result A) (a b : Result A) (ha : Gives s (k 1) a)
    (hb : Gives s (k 2) b) where
  pub with_code-Gives :
      (layout : ℕ)
      → Gives s
          (with_code self (layout_code layout) k)
          (if layout == 1 then a else if layout == 2 then b else err invalid_layout)
  unfolding layout_code
  with_code-Gives layout = elim (Bool-cases (layout == 1)) [
    | inl e ↦ rw e (rw ((==_iff layout 1).0 e) ha)
    | inr n ↦ elim (Bool-cases (layout == 2)) [
      | inl e ↦ rw (n, e) (rw ((==_iff layout 2).0 e) hb)
      | inr m ↦ rw (n, m) (refl, ready)
    ]
  ]

module _ {S : Type 0} (self : Instance S) (s : Stream) (ready : IsReady self s) (id : Uuid)
    (bytes : IsBytes id) where
  pub reads_version :
      Gives s (done (Instance.version self id 1)) (ok (id.b6 / 16))
      × Gives s (done (Instance.version self id 2)) (ok (if has_sql_marks id then 7 else 0))
  unfolding Instance.version Instance.load
  reads_version = (
    (
      rw ready.placed (ap ok (Reads.version-rfc self.m.memory id bytes)),
      load-IsReady self s id ready,
    ),
    (
      rw ready.placed (ap ok (Reads.version-sql self.m.memory id bytes)),
      load-IsReady self s id ready,
    ),
  )

  -- On an instance that is ready (its stack empty, its word holding the stream, its scratch
  -- behind its two pages) and for a UUID of 16 bytes, `VersionIn` returns the version nibble in
  -- RFC order, 7 or 0 by the marks of the SQL Server layout in that order, and an error for any
  -- other layout, and leaves the instance ready.
  pub version_in-Gives :
      (layout : ℕ)
      → Gives s
          (version_in self id layout)
          (by_layout layout (version_nibble id) (if has_sql_marks id then 7 else 0))
  unfolding version_in
  version_in-Gives layout =
      with_code-Gives self s ready _ _ _ reads_version.0 reads_version.1 layout

  -- On an instance that is ready (its stack empty, its word holding the stream, its scratch
  -- behind its two pages) and for a UUID of 16 bytes, `Variant` returns the code of the variant
  -- field of RFC 9562 section 4.1 (below 128, below 192, below 224, or from there on in octet 8),
  -- and leaves the instance ready.
  pub variant-Gives : Gives s (variant self id) (variant_code id.b8)
  unfolding variant Instance.variant Instance.load
  variant-Gives = (
    rw ready.placed
        (Reads.variant-code self.m.memory id bytes ready.holds.t0 ready.holds.t1 ready.holds.t2),
    load-IsReady self s id ready,
  )

  rfc_version-le : (version : ℤ) → rfc_version version ≤ 16
  unfolding rfc_version
  rfc_version-le (negsuc n) = omega arith
  rfc_version-le (pos n) = ground arith

  reads_is_rfc :
      (n : ℕ)
      → n ≤ 16
      → Gives s (done (Instance.is_rfc self id n 1)) (ok (has_version n id))
        × Gives s (done (Instance.is_rfc self id n 2)) (ok ((n == 7) && has_sql_marks id))
  unfolding Instance.is_rfc Instance.load
  reads_is_rfc n h = (
    (
      rw ready.placed
          (rw (Reads.is_rfc-rfc self.m.memory id bytes n h) (ap ok (flag_back (has_version n id)))),
      load-IsReady self s id ready,
    ),
    (
      rw ready.placed (
          rw (Reads.is_rfc-sql self.m.memory id bytes n h)
            (ap ok (flag_back ((n == 7) && has_sql_marks id)))),
      load-IsReady self s id ready,
    ),
  )
    where
      flag_back : (b : Bool) → not (flag b == 0) ≡ b
      flag_back true = refl
      flag_back false = refl

  rfc_version-has_version :
      (version : ℤ) → has_version (rfc_version version) id ≡ has_version_at version id
  unfolding rfc_version
  rfc_version-has_version (negsuc k) = ground (arith, bytes.b6)
  rfc_version-has_version (pos n) = ground (arith, bytes.b6)

  rfc_version-is_seven : (version : ℤ) → (rfc_version version == 7) ≡ is_seven version
  unfolding rfc_version
  rfc_version-is_seven (negsuc k) = refl
  rfc_version-is_seven (pos n) = ground arith

  pub reads_version_at :
      (version : ℤ)
      → Gives s
          (done (Instance.is_rfc self id (rfc_version version) 1))
          (ok (has_version_at version id))
        × Gives s
            (done (Instance.is_rfc self id (rfc_version version) 2))
            (ok (is_seven version && has_sql_marks id))
  reads_version_at version =
      rw (← rfc_version-has_version version, ← rfc_version-is_seven version)
        (reads_is_rfc (rfc_version version) (rfc_version-le version))

  -- On an instance that is ready (its stack empty, its word holding the stream, its scratch
  -- behind its two pages) and for a UUID of 16 bytes, `IsRfcIn` tells in RFC order whether the
  -- UUID has the given version and the RFC variant, in the SQL Server layout whether it has that
  -- layout's marks and the version is 7, and returns an error for any other layout; a version
  -- that is negative or past 15 matches no UUID. The instance is left ready.
  pub is_rfc_in-Gives :
      (version : ℤ) (layout : ℕ)
      → Gives s
          (is_rfc_in self id version layout)
          (by_layout layout (has_version_at version id) (is_seven version && has_sql_marks id))
  unfolding is_rfc_in
  is_rfc_in-Gives version layout =
      let reads = reads_version_at version in
      with_code-Gives self s ready _ _ _ reads.0 reads.1 layout

  reads_millis :
      Gives s (done (Instance.v7_unix_millis_in self id 1)) (ok (unix_ts_ms id))
      × Gives s (done (Instance.v7_unix_millis_in self id 2)) (ok (sql_unix_ts_ms id))
  unfolding Instance.v7_unix_millis_in Instance.load
  reads_millis = (
    (
      rw ready.placed (ap ok (Reads.millis_in-rfc self.m.memory id bytes)),
      load-IsReady self s id ready,
    ),
    (
      rw ready.placed (ap ok (Reads.millis_in-sql self.m.memory id bytes)),
      load-IsReady self s id ready,
    ),
  )

  -- On an instance that is ready (its stack empty, its word holding the stream, its scratch
  -- behind its two pages) and for a UUID of 16 bytes, `V7UnixMillisIn` returns the 48-bit big-
  -- endian number of the octets 0 to 5 in RFC order and of the octets 10 to 15 in the SQL Server
  -- layout, and an error for any other layout, and leaves the instance ready.
  pub v7_unix_millis_in-Gives :
      (layout : ℕ)
      → Gives s
          (v7_unix_millis_in self id layout)
          (by_layout layout (unix_ts_ms id) (sql_unix_ts_ms id))
  unfolding v7_unix_millis_in
  v7_unix_millis_in-Gives layout =
      with_code-Gives self s ready _ _ _ reads_millis.0 reads_millis.1 layout

  -- `V7UnixMillis` reads the 48-bit big-endian timestamp.
  pub v7_unix_millis-Gives : Gives s (v7_unix_millis self id) (ok (unix_ts_ms id))
  unfolding v7_unix_millis Instance.v7_unix_millis Instance.load
  v7_unix_millis-Gives = (
    rw ready.placed (ap ok (Reads.millis-rfc self.m.memory id bytes)),
    load-IsReady self s id ready,
  )
