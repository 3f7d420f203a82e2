-- ===== src/Api/Generate/Clock.antt =====
-- `NewV7AtTime` of go/uuidgen.go.
use hyper_uuid.Prelude.{
  ℕ, ◌/◌, ◌%◌, ◌^◌, ◌≤◌, ◌≡◌, ◌⊎◌, inl, inr, refl, arith, leb, leb→le, Bool, true, false,
  Bool-cases, ℤ, pos, negsuc, Result, ok, err,
}
use hyper_uuid.Prelude.{timestamp_out_of_range, counter_exhausted, random_source}
use hyper_uuid.Uuid.{Uuid}
use hyper_uuid.Stream.{Stream}
use hyper_uuid.Core.Module.{Draw, IsSource}
use hyper_uuid.Instance.{Instance}
use hyper_uuid.Instance.Ready.{IsReady}
use hyper_uuid.Api.Generate.{new_v7_at_time, v7_past_cap, unix_milli}
use hyper_uuid.Api.Generate.Order.{IsMintedAt, IsSound, new_v7_at-IsSound}

-- A UUID minted at `now`, or one of the two errors that a timestamp in range can meet.
abbrev pub IsServed : ℕ → Result Uuid → Type 0
IsServed now (ok u) = IsMintedAt now u
IsServed now (err e) = (e ≡ counter_exhausted) ⊎ (e ≡ random_source)

-- What holds of a call at milliseconds that are in range, or not.
abbrev pub Settles : {S : Type 0} → Bool → Instance S → ℕ → Instance S × Result Uuid → Type 0
Settles true self now r = IsServed now r.1
Settles false self now r = r ≡ (self, err timestamp_out_of_range)

-- What holds of a call at a time, in nanoseconds from the epoch.
abbrev pub SettlesAt : {S : Type 0} → ℤ → Instance S → Instance S × Result Uuid → Type 0
SettlesAt (negsuc k) self r = r ≡ (self, err timestamp_out_of_range)
SettlesAt (pos nanos) self r =
    Settles (leb (nanos / 10 ^ 6) 253402300799999) self (nanos / 10 ^ 6) r

IsSound-IsServed :
    (now : ℕ) (r : Result Uuid) → now ≤ 253402300799999 → IsSound now r → IsServed now r
IsSound-IsServed now (ok u) h sound = sound.1
IsSound-IsServed now (err e) h (inl late) = absurd (omega (arith, h, late.1))
IsSound-IsServed now (err e) h (inr other) = other

module _ {S : Type 0} (fill : ℕ → S → Draw S) (ok_fill : IsSource fill) (self : Instance S)
    (s : Stream) (ready : IsReady self s) where
  -- On a ready instance, with a source that keeps its contract, `NewV7AtTime` returns the out-of-
  -- range error, with the instance as it was, for every time before the epoch and every time past
  -- the last millisecond of 9999, however far; at every other time it returns a version 7 UUID
  -- whose timestamp is the time's whole milliseconds or at most 11 s later, or the exhaustion
  -- error, or the random source's, and never the out-of-range error.
  pub new_v7_at_time-SettlesAt : (t : ℤ) → SettlesAt t self (new_v7_at_time fill self t)
  unfolding new_v7_at_time unix_milli
  new_v7_at_time-SettlesAt (negsuc k) = refl
  new_v7_at_time-SettlesAt (pos nanos) = elim (Bool-cases (leb (nanos / 10 ^ 6) 253402300799999)) [
    | inl early ↦
        let within = leb→le (nanos / 10 ^ 6) 253402300799999 early in
        let due : leb v7_past_cap nanos ≡ false = ground (arith, within) in
        let same : nanos / 10 ^ 6 % 2 ^ 64 ≡ nanos / 10 ^ 6 = omega (arith, within) in
        rw (early, due, same)
          (IsSound-IsServed (nanos / 10 ^ 6) _ within
            (new_v7_at-IsSound fill ok_fill self s ready (nanos / 10 ^ 6)))
    | inr late ↦
        let past : leb v7_past_cap nanos ≡ true = ground (arith, late) in rw (late, past) refl
  ]
