-- ===== src/Api/Now.antt =====
-- The functions of go/uuidgen.go and go/inspect.go that read the wall clock first, and those that
-- return a `time.Time`. A time is its nanoseconds from the epoch.
use hyper_uuid.Prelude.{
  ℕ, ◌-◌, ◌*◌, ◌/◌, ◌%◌, ◌^◌, ◌<◌, ◌≡◌, refl, ap, ◌∙◌, arith, ℤ, pos, negsuc, ltb, lt→ltb,
  if◌then◌else◌, List, Option, Result, ok, err, timestamp_out_of_range,
}
use hyper_uuid.Uuid.{Uuid}
use hyper_uuid.Stream.{Stream}
use hyper_uuid.Core.Module.{Draw, IsSource}
use hyper_uuid.Instance.{Instance}
use hyper_uuid.Instance.Ready.{IsReady}
use hyper_uuid.Api.Inspect.{v7_unix_millis, v7_unix_millis_in}
use hyper_uuid.Api.Generate.{new_v7_at, unix_milli}
use hyper_uuid.Api.Generate.Order.{IsSound, new_v7_at-IsSound}
use hyper_uuid.Api.Generate.Answers.{answer, new_v7_at-Gives}
use hyper_uuid.Core.V7.Contract.{Verdict, too_late, verdict}
use hyper_uuid.Api.Batch.{new_v7_batch_at, fill_v7_at, fill_v7_bytes_at}

-- `time.UnixMilli(int64(millis)).UTC()`
unfoldable pub time_of_milli : ℕ → ℤ
time_of_milli millis =
    if ltb millis (2 ^ 63) then pos (millis * 10 ^ 6) else negsuc ((2 ^ 64 - millis) * 10 ^ 6 - 1)

unfoldable pub with_time : Result ℕ → Result ℤ
with_time (ok millis) = ok (time_of_milli millis)
with_time (err e) = err e

module _ {S : Type 0} where
  unfoldable pub v7_timestamp : Instance S → Uuid → Instance S × Result ℤ
  unfolding with_time
  v7_timestamp self id = let (self, r) = v7_unix_millis self id in (self, with_time r)

  unfoldable pub v7_timestamp_in : Instance S → Uuid → ℕ → Instance S × Result ℤ
  unfolding with_time
  v7_timestamp_in self id layout =
      let (self, r) = v7_unix_millis_in self id layout in (self, with_time r)

-- `now` is what `time.Now()` returns.
module _ {S : Type 0} (fill : ℕ → S → Draw S) where
  unfoldable pub new_v7 : Instance S → ℤ → Instance S × Result Uuid
  new_v7 self now = new_v7_at fill self (unix_milli now)

  unfoldable pub new_v7_batch : Instance S → ℤ → ℤ → Option (Instance S × Result (List Uuid))
  new_v7_batch self count now = new_v7_batch_at fill self count (unix_milli now)

  unfoldable pub fill_v7 :
      Instance S → List Uuid → ℤ → Option (Instance S × List Uuid × Result (Unit {0}))
  fill_v7 self dst now = fill_v7_at fill self dst (unix_milli now)

  unfoldable pub fill_v7_bytes :
      Instance S → List ℕ → ℤ → Option (Instance S × List ℕ × Result (Unit {0}))
  fill_v7_bytes self dst now = fill_v7_bytes_at fill self dst (unix_milli now)

-- What holds of every result at a time: before the epoch the refusal, and from there on what holds at
-- its milliseconds.
abbrev pub IsSoundAt : ℤ → Result Uuid → Type 0
IsSoundAt (negsuc k) r = r ≡ err timestamp_out_of_range
IsSoundAt (pos nanos) r = IsSound (nanos / 10 ^ 6) r

-- The clock stands within 2 ^ 62 milliseconds of the epoch.
abbrev pub IsClock : ℤ → Type 0
IsClock (pos nanos) = nanos < 2 ^ 62 * 10 ^ 6
IsClock (negsuc k) = k < 2 ^ 62 * 10 ^ 6

module _ {S : Type 0} (fill : ℕ → S → Draw S) (ok_fill : IsSource fill) (self : Instance S)
    (s : Stream) (ready : IsReady self s) where
  -- With the clock so close to the epoch, the result of `NewV7` is the out-of-range error before the
  -- epoch, and from there on sound at the clock's milliseconds.
  new_v7-IsSoundAt : (now : ℤ) → IsClock now → IsSoundAt now (new_v7 fill self now).1
  unfolding new_v7 unix_milli
  new_v7-IsSoundAt (pos nanos) h =
      let same : nanos / 10 ^ 6 % 2 ^ 64 ≡ nanos / 10 ^ 6 = omega (arith, h) in
      rw same (new_v7_at-IsSound fill ok_fill self s ready (nanos / 10 ^ 6))
  new_v7-IsSoundAt (negsuc k) h =
      let t = 2 ^ 64 - 1 - k / 10 ^ 6 % 2 ^ 64 in
      let late : 253402300799999 < t = omega (arith, h) in
      let refused : verdict t (fill 11 self.m.src) s ≡ too_late =
        rw (lt→ltb 253402300799999 t late) refl in
      (new_v7_at-Gives fill ok_fill self s ready t).0
      ∙ ap (λ (v : Verdict). answer v t (fill 11 self.m.src)) refused
