-- ===== src/Core/Stream/Refines.antt =====
-- The decisions of the reservation loop beside the stream's specification.
use hyper_uuid.Prelude.{ℕ, ◌+◌, ◌-◌, ◌*◌, ◌/◌, ◌%◌, ◌≤◌, ◌<◌, ◌^◌, ◌≡◌, arith}
use hyper_uuid.Bits.{and_mask, and_field, add_or, or_add, xor_ones}
use hyper_uuid.Word.{add32, add64, u32}
use hyper_uuid.Stream
use hyper_uuid.Stream.{Stream, fresh, last, Outcome, aside, full, granted, encode, IsStream}
use hyper_uuid.Core.Stream.{Decision, out_of_stream, exhausted, install, decide_one, decide_batch}

-- A decision as an outcome: the first position, and the last one, which the new word holds.
abbrev pub settle : Decision → Outcome
settle out_of_stream = aside
settle exhausted = full
settle (install v8 v9 v10) = granted (v9 * 2 ^ 20 + v8) (v10 - 2 ^ 20)

-- For a timestamp up to 2^44 - 2, a seed below 2^19 and a stream that fits its word, one round of
-- the loop of `Xuuid_new_v7` on that word decides what the specification does for a reservation
-- of one step.
pub decide_one-reserve :
    (now seed : ℕ) (s : Stream)
    → now ≤ 2 ^ 44 - 2
    → seed < 2 ^ 19
    → IsStream s
    → settle (decide_one now seed ((now + 1) * 2 ^ 20 + seed) (encode s))
      ≡ Stream.reserve now 1 seed s
unfolding decide_one Stream.reserve
decide_one-reserve now seed fresh h hs v = ground arith
decide_one-reserve now seed (last p) h hs v =
    rw
      (
        and_mask 20 (u32 (p + 2 ^ 20)),
        and_mask 20 (add64 (p + 2 ^ 20) 1),
        and_field 20 44 (p + 2 ^ 20),
        add_or 20 (add64 (p + 2 ^ 20) 1 % 2 ^ 20) ((p + 2 ^ 20) / 2 ^ 20 % 2 ^ 44 * 2 ^ 20)
            (omega arith) (omega arith),
      )
      (ground arith)

-- For a timestamp up to 2^44 - 2, a positive number n of steps, a seed that leaves room for them
-- in a millisecond and a stream that fits its word, one round of the loop of `Xuuid_new_v7_batch`
-- decides what the specification does for a reservation of n steps.
pub decide_batch-reserve :
    (now n seed : ℕ) (s : Stream)
    → now ≤ 2 ^ 44 - 2
    → 0 < n
    → seed + n ≤ 2 ^ 20
    → IsStream s
    → settle (decide_batch now n seed ((now + 1) * 2 ^ 20 + (seed + n - 1)) (encode s))
      ≡ Stream.reserve now n seed s
unfolding decide_batch Stream.reserve
decide_batch-reserve now n seed fresh h hn hs v = ground arith
decide_batch-reserve now n seed (last p) h hn hs v =
    rw
      (
        and_mask 20 (u32 (p + 2 ^ 20)),
        and_mask 20 (add32 n (u32 (p + 2 ^ 20))),
        xor_ones 20 (u32 (p + 2 ^ 20) % 2 ^ 20) (omega arith),
        and_field 20 44 (p + 2 ^ 20),
        or_add 20 ((p + 2 ^ 20) / 2 ^ 20 % 2 ^ 44 * 2 ^ 20) (add32 n (u32 (p + 2 ^ 20)) % 2 ^ 20)
            (omega arith) (omega arith),
      )
      (ground arith)

-- What a decision installs fits the words that take it.
abbrev pub Fits : Decision → Type 0
Fits out_of_stream = Unit {0}
Fits exhausted = Unit {0}
Fits (install v8 v9 v10) = (v8 < 2 ^ 21) × (v9 < 2 ^ 48 - 1) × (2 ^ 20 ≤ v10) × (v10 < 2 ^ 64)

pub decide_one-Fits :
    (now seed : ℕ) (s : Stream)
    → now ≤ 2 ^ 44 - 2
    → seed < 2 ^ 19
    → IsStream s
    → Fits (decide_one now seed ((now + 1) * 2 ^ 20 + seed) (encode s))
unfolding decide_one
decide_one-Fits now seed fresh h hs v = omega arith
decide_one-Fits now seed (last p) h hs v =
    rw
      (
        and_mask 20 (u32 (p + 2 ^ 20)),
        and_mask 20 (add64 (p + 2 ^ 20) 1),
        and_field 20 44 (p + 2 ^ 20),
        add_or 20 (add64 (p + 2 ^ 20) 1 % 2 ^ 20) ((p + 2 ^ 20) / 2 ^ 20 % 2 ^ 44 * 2 ^ 20)
            (omega arith) (omega arith),
      )
      (ground arith)
