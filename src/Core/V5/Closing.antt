-- ===== src/Core/V5/Closing.antt =====
-- The end of the message of `Xuuid_new_v5`: the padding and the last block.
use mathlib.Core.Path.{fun_ext, subst}
use hyper_uuid.Prelude.{
  ℕ, ◌+◌, ◌-◌, ◌*◌, ◌/◌, ◌%◌, ◌^◌, ◌<◌, ◌≤◌, ◌≡◌, inl, inr, refl, sym, ap, ◌∙◌, arith,
  if◌then◌else◌, ltb, leb, ◌&&◌, lt→ltb, le→not-ltb,
}
use hyper_uuid.Word.{add32}
use hyper_uuid.Memory.{Memory, store8, store64, write_range}
use hyper_uuid.Memory.Ranges.{le_or_gt, zeros, zero_up, zero64, store64_range}
use hyper_uuid.Sha.{absorb, initial, padded, block_count, sha1}
use hyper_uuid.Sha.Padding.{padded_message, padded_mark, padded_zero, padded_length, padded_lt}
use hyper_uuid.Core.V5.{flush, close_message, close_block, bit_length}
use hyper_uuid.Core.V5.Block.{load_digest}
use hyper_uuid.Core.V5.Frame.{Frame, digest_same, flush-Frame, fn6-Frame, write_Frame}
use hyper_uuid.Core.V5.Length.{bit_length-byte}

store8_range : (mem : Memory) (a v : ℕ) → store8 mem a v ≡ write_range mem a 1 (λ i. v)
store8_range mem a v = fun_ext λ b. ground arith

module _ (msg : ℕ → ℕ) (msg_lt : (i : ℕ) → msg i < 256) (n : ℕ) (short : n < 2 ^ 31)
    (mem : Memory) where
  abbrev stream : ℕ → ℕ
  stream = padded msg (n + 16)

  abbrev blocks : ℕ
  blocks = (n + 16) / 64

  abbrev left : ℕ
  left = (n + 16) % 64

  -- The index of the last block, which ends in the length.
  abbrev last : ℕ
  last = (n + 16 + 8) / 64

  abbrev tail : ℕ → ℕ
  tail i = if ltb i left then msg (64 * blocks + i) else 0

  abbrev marked : ℕ → ℕ
  marked i = if leb left i && ltb i (left + 1) then 128 else tail i

  mark_Frame :
      (m : Memory)
      → Frame stream mem blocks tail m
      → Frame stream mem blocks marked (store8 m (65472 + left) 128)
  mark_Frame m h =
      subst (λ (t : Memory). Frame stream mem blocks marked t)
        (sym (store8_range m (65472 + left) 128))
        (write_Frame stream mem m blocks left 1 tail marked (λ i. 128) h (omega arith)
          (λ i l. refl))

  marked-stream :
      (i : ℕ) → 64 * blocks + i < 64 * last + 56 → i < 64 → marked i ≡ stream (64 * blocks + i)
  marked-stream i low l = elim (le_or_gt left i) [
    | inr within ↦
        ground (arith, padded_message msg (n + 16) (64 * blocks + i) (omega (arith, within)))
    | inl from ↦ elim (le_or_gt i left) [
      | inl upto ↦
          ground (arith, padded_mark msg (n + 16) (64 * blocks + i) (omega (arith, from, upto)))
      | inr past ↦
          ground (arith, padded_zero msg (n + 16) (64 * blocks + i) (omega (arith, past)) low)
    ]
  ]

  -- All of the message hashed but its last block, of which the length is missing.
  record Closed (m : Memory) : Type 0 where
    digest : load_digest m 65384 ≡ absorb stream last initial
    buffer : (i : ℕ) → i < 56 → m (65472 + i) ≡ stream (64 * last + i)
    above : (b : ℕ) → 65536 ≤ b → m b ≡ mem b

  close_fits : (m : Memory) → left < 56 → close_message m 65376 left ≡ store8 m (65472 + left) 128
  unfolding close_message
  close_fits m small =
      let at : add32 65472 left ≡ 65472 + left = omega arith in rw (at, lt→ltb left 56 small) refl

  close_spills :
      (m : Memory)
      → 56 ≤ left
      → close_message m 65376 left ≡ zeros (flush (store8 m (65472 + left) 128) 65376) 65472 56
  unfolding close_message
  close_spills m large =
      let at : add32 65472 left ≡ 65472 + left = omega arith in
      let m' = flush (store8 m (65472 + left) 128) 65376 in
      rw (at, le→not-ltb left 56 large)
        (zero_up m' 65472 48 (
          zero_up m' 65472 40 (
            zero_up m' 65472 32
              (zero_up m' 65472 24 (zero_up m' 65472 16 (zero_up m' 65472 8 (zero64 m' 65472)))))))

  close_Closed : (m : Memory) → Frame stream mem blocks tail m → Closed (close_message m 65376 left)
  close_Closed m h =
      let m' = store8 m (65472 + left) 128 in
      let done = mark_Frame m h in
      elim (le_or_gt 56 left) [
        | inr fits ↦
            let same : blocks ≡ last = omega (arith, fits) in
            subst Closed (sym (close_fits m fits)) (record {
              digest = done.digest ∙ ap (λ (t : ℕ). absorb stream t initial) same;
              buffer = λ i l.
                  done.buffer i (omega arith)
                  ∙ marked-stream i (omega (arith, same)) (omega arith)
                  ∙ ap (λ (t : ℕ). stream (64 * t + i)) same;
              above = done.above;
            })
        | inl spills ↦
            let next : blocks + 1 ≡ last = omega (arith, spills) in
            let flushed =
              flush-Frame stream (padded_lt msg (n + 16) msg_lt) mem m' blocks marked done
                (λ i l. marked-stream i (omega (arith, next, l)) l) in
            let all =
              write_Frame stream mem (flush m' 65376) (blocks + 1) 0 56 marked
                (λ i. if ltb i 56 then 0 else marked i) (λ i. 0) flushed (omega arith)
                (λ i l. ground arith) in
            subst Closed (sym (close_spills m spills)) (record {
              digest = all.digest ∙ ap (λ (t : ℕ). absorb stream t initial) next;
              buffer = λ i l.
                  all.buffer i (omega arith)
                  ∙ ground
                      (arith, padded_zero msg (n + 16) (64 * last + i) (omega (arith, spills)));
              above = all.above;
            })
      ]

  -- With the length in it, the last block completes the hash.
  last-Frame :
      (m : Memory)
      → Closed m
      → Frame stream mem last (λ i. stream (64 * last + i)) (store64 m 65528 (bit_length (n + 16)))
  last-Frame m h =
      let put = write_range m 65528 8 (λ i. bit_length (n + 16) / 2 ^ (8 * i) % 2 ^ 8) in
      subst (λ (t : Memory). Frame stream mem last (λ i. stream (64 * last + i)) t)
        (sym (store64_range m 65528 (bit_length (n + 16))))
        (record {
          digest = digest_same m put (λ b l k. ground arith) ∙ h.digest;
          buffer = λ i l. elim (le_or_gt 56 i) [
            | inr below ↦ ground (arith, h.buffer i below)
            | inl from ↦
                let at : 65472 + i - 65528 ≡ i - 56 = omega arith in
                let here : 64 * last + (56 + (i - 56)) ≡ 64 * last + i = omega (arith, from) in
                ground (
                  arith,
                  ap (λ (t : ℕ). bit_length (n + 16) / 2 ^ (8 * t) % 2 ^ 8) at,
                  bit_length-byte (n + 16) (omega (arith, short)) (i - 56) (omega arith),
                  padded_length msg (n + 16) (i - 56) (omega arith),
                  ap stream here,
                )
          ];
          above = λ b l. ground (arith, h.above b l);
        })

  -- The state in the frame is the hash of the message, with the memory above the frame as it was.
  pub record Hashed (m : Memory) : Type 0 where
    pub digest : load_digest m 65384 ≡ sha1 msg (n + 16)
    pub above : (b : ℕ) → 65536 ≤ b → m b ≡ mem b

  pub close-Hashed :
      (m : Memory)
      → Frame stream mem blocks tail m
      → Hashed (close_block (close_message m 65376 left) 65376 n)
  unfolding close_block sha1 block_count
  close-Hashed m h =
      let closed = close_message m 65376 left in
      let filled = store64 closed 65528 (bit_length (n + 16)) in
      let ready = last-Frame closed (close_Closed m h) in
      let run =
        fn6-Frame stream (padded_lt msg (n + 16) msg_lt) mem filled 65472 last 1
          (λ i. stream (64 * last + i)) ready (omega arith) ready.buffer in
      let count : add32 n 16 ≡ n + 16 = omega (arith, short) in
      rw count (record { digest = run.digest; above = run.above })
