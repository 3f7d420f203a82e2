-- ===== src/Api/Generate.antt =====
-- `NewV4`, `NewV7At` and `NewV7AtTime` of go/uuidgen.go, on the instance that the call takes: version 7 runs on
-- the primary, under its lock, so that its calls come one after another. `fill` is the source's.
pub mod Answers
pub mod Order
pub mod Ascent
pub mod Random
pub mod Clock
use hyper_uuid.Prelude.{
  ℕ, ◌-◌, ◌%◌, ◌*◌, ◌/◌, ◌^◌, ◌==◌, leb, ℤ, pos, negsuc, if◌then◌else◌, Result, ok, err, List, [],
  ◌∷◌,
}
use hyper_uuid.Prelude.{timestamp_out_of_range, counter_exhausted, random_source}
use hyper_uuid.Uuid.{Uuid}
use hyper_uuid.Core.Module.{Draw}
use hyper_uuid.Instance
use hyper_uuid.Instance.{Instance}

-- `v7PastCap`, in nanoseconds
abbrev pub v7_past_cap : ℕ
v7_past_cap = 253402300800000 * 10 ^ 6

-- `uint64(t.UnixMilli())`: the whole milliseconds, rounded down, as a 64-bit pattern.
unfoldable pub unix_milli : ℤ → ℕ
unix_milli (pos nanos) = nanos / 10 ^ 6 % 2 ^ 64
unix_milli (negsuc k) = 2 ^ 64 - 1 - k / 10 ^ 6 % 2 ^ 64

module _ {S : Type 0} (fill : ℕ → S → Draw S) where
  unfoldable pub new_v4 : Instance S → Instance S × Result Uuid
  new_v4 self =
      let (self, out, rc) = Instance.new_v4 fill self in
      if rc == 0 then (self, ok out) else (self, err random_source)

  unfoldable pub new_v7_at : Instance S → ℕ → Instance S × Result Uuid
  new_v7_at self unix_millis =
      let (self, out, rc) = Instance.new_v7 fill self unix_millis in
      if rc == 0
      then (self, ok out)
      else if rc == 2
      then (self, err timestamp_out_of_range)
      else if rc == 6
      then (self, err counter_exhausted)
      else (self, err random_source)

  -- A `time.Time` is its nanoseconds from the epoch.
  unfoldable pub new_v7_at_time : Instance S → ℤ → Instance S × Result Uuid
  unfolding unix_milli
  new_v7_at_time self (negsuc k) = (self, err timestamp_out_of_range)
  new_v7_at_time self (pos nanos) =
      if leb v7_past_cap nanos
      then (self, err timestamp_out_of_range)
      else new_v7_at self (unix_milli (pos nanos))

  -- One call after another, at the given timestamps, and the results in their order.
  unfoldable pub mint_all : Instance S → List ℕ → Instance S × List (Result Uuid)
  mint_all self [] = (self, [])
  mint_all self (t ∷ ts) =
      let (next, r) = new_v7_at self t in let (end, rs) = mint_all next ts in (end, r ∷ rs)
