-- ===== src/Api/Inspect/Times.antt =====
-- The timestamps that go/inspect.go reads, on an instance that is ready.
use hyper_uuid.Prelude.{ℕ, ◌^◌, ◌<◌, refl, ap, arith}
use hyper_uuid.Prelude.{Bool, ◌==◌, leb, ◌&&◌, if◌then◌else◌, Bool-cases, inl, inr}
use hyper_uuid.Prelude.{Result, ok, err, not_time_based, invalid_layout}
use hyper_uuid.Memory.{Memory, load64, store64}
use hyper_uuid.Uuid.{Uuid, IsBytes, write_uuid, unix_ts_ms}
use hyper_uuid.Stream.{Stream}
use hyper_uuid.Core.Inspect.Reads
use hyper_uuid.Core.Inspect.Reads.{has_version, has_sql_marks, variant_code, sql_unix_ts_ms}
use hyper_uuid.Instance
use hyper_uuid.Instance.{Instance}
use hyper_uuid.Instance.Ready.{IsReady}
use hyper_uuid.Api.Inspect.{get_timestamp_in, timestamp_in, read_time}
use hyper_uuid.Api.Inspect.Answers.{Gives, with_code-Gives}

-- The milliseconds of a UUID that has the marks and is not past the year 9999.
abbrev pub time_of : Bool → ℕ → Result ℕ
time_of marked ms = if marked && leb ms 253402300799999 then ok ms else err not_time_based

module _ {S : Type 0} (self : Instance S) (s : Stream) (ready : IsReady self s) (id : Uuid)
    (bytes : IsBytes id) where
  -- The answer and the instance that `timestampIn` makes of the memory and the result of the core.
  abbrev from_core : Memory × ℕ → Instance S × Result ℕ
  from_core (mem, ver) =
      read_time (
        record self { m = record self.m { memory = mem }; scratch = 131072 },
        ver,
        load64 mem 131088,
      )

  from_core-Gives :
      (marked : Bool) (ms : ℕ)
      → ms < 2 ^ 48
      → Gives s
          (from_core (Reads.timed (write_uuid self.m.memory 131072 id) marked ms))
          (time_of marked ms)
  from_core-Gives marked ms h = elim (Bool-cases (marked && leb ms 253402300799999)) [
    | inl e ↦ rw e (ap ok (omega arith), stored)
    | inr e ↦ rw e (refl, left)
  ]
    where
      left :
          IsReady
            (record self {
              m = record self.m { memory = write_uuid self.m.memory 131072 id };
              scratch = 131072;
            })
            s
      left = record {
        holds = record {
          stack = ready.holds.stack;
          word = ready.holds.word;
          valid = ready.holds.valid;
          t0 = ready.holds.t0;
          t1 = ready.holds.t1;
          t2 = ready.holds.t2;
          hash_ab = ready.holds.hash_ab;
          hash_cd = ready.holds.hash_cd;
          hash_e = ready.holds.hash_e;
        };
        placed = refl;
        paged = ready.paged;
        sized = ready.sized;
      }

      stored :
          IsReady
            (record self {
              m = record self.m { memory = store64 (write_uuid self.m.memory 131072 id) 131088 ms };
              scratch = 131072;
            })
            s
      stored = record {
        holds = record {
          stack = ready.holds.stack;
          word = ready.holds.word;
          valid = ready.holds.valid;
          t0 = ready.holds.t0;
          t1 = ready.holds.t1;
          t2 = ready.holds.t2;
          hash_ab = ready.holds.hash_ab;
          hash_cd = ready.holds.hash_cd;
          hash_e = ready.holds.hash_e;
        };
        placed = refl;
        paged = ready.paged;
        sized = ready.sized;
      }

  reads_time :
      Gives s (timestamp_in self id 1) (time_of (has_version 7 id) (unix_ts_ms id))
      × Gives s (timestamp_in self id 2) (time_of (has_sql_marks id) (sql_unix_ts_ms id))
  unfolding timestamp_in Instance.get_timestamp Instance.load
  reads_time = (
    rw ready.placed (
        rw (Reads.get_timestamp-rfc self.m.memory id bytes) (
          from_core-Gives (has_version 7 id) (unix_ts_ms id)
            (omega (arith, bytes.b0, bytes.b1, bytes.b2, bytes.b3, bytes.b4, bytes.b5)))),
    rw ready.placed (
        rw (Reads.get_timestamp-sql self.m.memory id bytes) (
          from_core-Gives (has_sql_marks id) (sql_unix_ts_ms id)
            (omega (arith, bytes.b10, bytes.b11, bytes.b12, bytes.b13, bytes.b14, bytes.b15)))),
  )

  -- On an instance that is ready (its stack empty, its word holding the stream, its scratch
  -- behind its two pages) and for a UUID of 16 bytes, `GetTimestampIn` returns the milliseconds
  -- of a version 7 under the RFC variant, in RFC order, or of a value with the marks of the SQL
  -- Server layout, in that order, as long as they are not past 253402300799999; it returns the
  -- not-time-based error for all other UUIDs and the layout error for any other layout, and
  -- leaves the instance ready.
  pub get_timestamp_in-Gives :
      (layout : ℕ)
      → Gives s (get_timestamp_in self id layout) (
          if layout == 1
          then time_of (has_version 7 id) (unix_ts_ms id)
          else if layout == 2
          then time_of (has_sql_marks id) (sql_unix_ts_ms id)
          else err invalid_layout)
  unfolding get_timestamp_in
  get_timestamp_in-Gives layout =
      with_code-Gives self s ready _ _ _ reads_time.0 reads_time.1 layout
