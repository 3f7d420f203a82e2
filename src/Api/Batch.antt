-- ===== src/Api/Batch.antt =====
-- The batches of go/uuidgen.go, on the primary instance. A destination is the list that the
-- caller's slice holds; a function returns what it holds afterwards. `none` is a panic.
pub mod Answers
pub mod Fills
pub mod Order
pub mod Bytes
use hyper_uuid.Prelude.{
  ℕ, ◌+◌, ◌*◌, ◌/◌, ◌%◌, ◌^◌, ◌==◌, ◌&&◌, ltb, if◌then◌else◌, List, [], length, tabulate, Option,
  none, some,
}
use hyper_uuid.Prelude.{
  ℤ, pos, negsuc, Result, ok, err, not, timestamp_out_of_range, counter_exhausted, random_source,
  negative_count, batch_too_large, batch_unaddressable, buffer_not_whole_uuids, over_limit,
}
use hyper_uuid.Memory.{Memory}
use hyper_uuid.Uuid.{Uuid, read_uuids, zero_uuid}
use hyper_uuid.Core.Module.{Draw}
use hyper_uuid.Instance
use hyper_uuid.Instance.{Instance}

-- `MaxV7Batch`
abbrev pub max_v7_batch : ℕ
max_v7_batch = 2 ^ 26

unfoldable pub err_batch : ℕ → Result (Unit {0})
err_batch rc =
    if rc == 0
    then ok tt
    else if rc == 2
    then err timestamp_out_of_range
    else if rc == 3
    then err batch_unaddressable
    else if rc == 4
    then err batch_too_large
    else if rc == 6
    then err counter_exhausted
    else err random_source

-- The bytes of so many UUIDs.
abbrev pub read_bytes : Memory → ℕ → ℕ → List ℕ
read_bytes mem a n = tabulate (λ i. mem (a + i)) (16 * n)

module _ {S : Type 0} (fill : ℕ → S → Draw S) where
  -- `errBatch(fn, call(…))`
  unfoldable pub with_rc :
      {A : Type 0} → Option (Instance S × A × ℕ) → Option (Instance S × A × Result (Unit {0}))
  with_rc none = none
  with_rc (some (self, dst, rc)) = some (self, dst, err_batch rc)

  unfoldable pub fill_uuids :
      Instance S → List Uuid → ℕ → Option (Instance S × List Uuid × Result (Unit {0}))
  fill_uuids self dst unix_millis =
      if length dst == 0
      then some (self, dst, ok tt)
      else if ltb 4294967295 (length dst)
      then some (self, dst, err (over_limit (length dst)))
      else with_rc (Instance.new_v7_batch fill read_uuids self unix_millis (length dst) dst)

  unfoldable pub fill_bytes :
      Instance S → List ℕ → ℕ → Option (Instance S × List ℕ × Result (Unit {0}))
  fill_bytes self dst unix_millis =
      if not (length dst % 16 == 0)
      then some (self, dst, err buffer_not_whole_uuids)
      else if length dst == 0
      then some (self, dst, ok tt)
      else (let count = length dst / 16 in
          if ltb 4294967295 count
          then some (self, dst, err (over_limit count))
          else with_rc (Instance.new_v7_batch fill read_bytes self unix_millis count dst))

  unfoldable pub fill_v7_at :
      Instance S → List Uuid → ℕ → Option (Instance S × List Uuid × Result (Unit {0}))
  fill_v7_at self dst unix_millis =
      if ltb max_v7_batch (length dst)
      then some (self, dst, err batch_too_large)
      else fill_uuids self dst unix_millis

  unfoldable pub fill_v7_bytes_at :
      Instance S → List ℕ → ℕ → Option (Instance S × List ℕ × Result (Unit {0}))
  fill_v7_bytes_at self dst unix_millis =
      if length dst % 16 == 0 && ltb max_v7_batch (length dst / 16)
      then some (self, dst, err batch_too_large)
      else fill_bytes self dst unix_millis

  -- `if err := …; err != nil { return nil, err }; return result, nil`
  unfoldable pub or_error :
      Option (Instance S × List Uuid × Result (Unit {0})) → Option (Instance S × Result (List Uuid))
  or_error none = none
  or_error (some (self, result, ok u)) = some (self, ok result)
  or_error (some (self, result, err e)) = some (self, err e)

  unfoldable pub new_v7_batch_at : Instance S → ℤ → ℕ → Option (Instance S × Result (List Uuid))
  new_v7_batch_at self (negsuc k) unix_millis = some (self, err negative_count)
  new_v7_batch_at self (pos count) unix_millis =
      if ltb max_v7_batch count
      then some (self, err batch_too_large)
      else if count == 0
      then some (self, ok [])
      else or_error (fill_v7_at self (tabulate (λ i. zero_uuid) count) unix_millis)
