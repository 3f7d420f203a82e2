-- ===== src/Core/V5/Message.antt =====
-- What `Xuuid_new_v5` has hashed, and what its buffer holds, after each of its steps.
use mathlib.Core.Path.{subst}
use hyper_uuid.Prelude.{
  ℕ, ◌+◌, ◌-◌, ◌*◌, ◌/◌, ◌%◌, ◌^◌, ◌<◌, ◌≤◌, ◌≡◌, inl, inr, refl, sym, ap, ◌∙◌, arith, ◌==◌,
  if◌then◌else◌, ne→not-==, false, ltb, lt→ltb, le→not-ltb,
}
use hyper_uuid.Bits.{and_mask, and_field}
use hyper_uuid.Word.{◌and◌, add32, sub32, shr}
use hyper_uuid.Memory.{Memory, write_range}
use hyper_uuid.Memory.Ranges.{le_or_gt, zeros}
use hyper_uuid.Sha.{absorb, padded}
use hyper_uuid.Sha.Padding.{padded_message, padded_lt}
use hyper_uuid.Core.V5.{
  memory_copy, open_frame, flush, head_length, copy_head, absorb_name, take_name, pending,
}
use hyper_uuid.Core.V5.Block.{fn6}
use hyper_uuid.Core.V5.Frame.{
  HasData, Frame, clear_buffer_lem, flush-Frame, fn6-Frame, write_Frame, same_Frame,
}
use hyper_uuid.Core.V5.Opening.{open_frame-above, open_frame-digest}

module _ (msg : ℕ → ℕ) (msg_lt : (i : ℕ) → msg i < 256) (n : ℕ) (short : n < 2 ^ 31) (mem : Memory)
    (data_at : HasData mem) (namespace_at : (i : ℕ) → i < 16 → mem (131072 + i) ≡ msg i)
    (name_at : (i : ℕ) → i < n → mem (131104 + i) ≡ msg (16 + i)) where
  -- The padded message, its whole blocks, and the bytes after them.
  abbrev stream : ℕ → ℕ
  stream = padded msg (n + 16)

  abbrev blocks : ℕ
  blocks = (n + 16) / 64

  abbrev left : ℕ
  left = (n + 16) % 64

  stream_lt : (i : ℕ) → stream i < 256
  stream_lt = padded_lt msg (n + 16) msg_lt

  -- The buffer with the bytes of the message from the last whole block on.
  abbrev tail : ℕ → ℕ → ℕ → ℕ
  tail j r i = if ltb i r then msg (64 * j + i) else 0

  open_Frame : Frame stream mem 0 (tail 0 16) (open_frame mem 65376 131072)
  unfolding absorb
  open_Frame =
      let low : (i : ℕ) → i < 16 → mem (131072 + i) < 256 =
        λ i h. omega (arith, namespace_at i h, msg_lt i) in
      record {
        digest = open_frame-digest mem low data_at;
        buffer = λ i h. open_frame-above mem low (65472 + i) (omega arith) ∙ elim (le_or_gt 16 i) [
          | inl past ↦ ground arith
          | inr within ↦
              let at : mem (131072 + (65472 + i - 65472)) ≡ mem (131072 + i) =
                ap mem (omega arith) in
              ground (arith, at, namespace_at i within)
        ];
        above = λ b h. open_frame-above mem low b (omega (arith, h)) ∙ ground arith;
      }

  module _ (v5 : ℕ) (placed : 0 < n → v5 ≡ 131104) where
    take_none : (m : Memory) → n ≡ 0 → take_name m 65376 v5 n ≡ m
    unfolding take_name head_length copy_head
    take_none m e = rw e refl

    take_short :
        (m : Memory)
        → 0 < n
        → n < 48
        → take_name m 65376 v5 n ≡ write_range m (65472 + 16) n (λ i. m (131104 + i))
    unfolding take_name head_length copy_head memory_copy
    take_short m some_byte small =
        let nonzero : (n == 0) ≡ false = ne→not-== n 0 (λ e. omega (arith, some_byte)) in
        let room : (add32 n 16 == 64) ≡ false =
          ne→not-== (add32 n 16) 64 (λ e. omega (arith, small)) in
        rw (lt→ltb n 48 small, nonzero, room, placed some_byte) refl

    take_long :
        (m : Memory)
        → 48 ≤ n
        → take_name m 65376 v5 n
          ≡ absorb_name (write_range m (65472 + 16) 48 (λ i. m (131104 + i))) 65376 131152 (n - 48)
    unfolding take_name head_length copy_head memory_copy
    take_long m large =
        let rest : sub32 n 48 ≡ n - 48 = omega (arith, large) in
        rw (le→not-ltb n 48 large, placed (omega (arith, large)), rest) refl

    -- A name that leaves room in the first block.
    short_Frame :
        (m : Memory)
        → Frame stream mem 0 (tail 0 16) m
        → n < 48
        → Frame stream mem blocks (tail blocks left) (take_name m 65376 v5 n)
    short_Frame m h small =
        let none : blocks ≡ 0 = omega (arith, small) in
        let at : (i : ℕ) → msg (64 * blocks + i) ≡ msg i = λ i. ap msg (omega arith) in
        subst (λ (t : ℕ). Frame stream mem t (tail blocks left) (take_name m 65376 v5 n)) (sym none)
          (elim (le_or_gt n 0) [
            | inl empty ↦
                subst (λ (t : Memory). Frame stream mem 0 (tail blocks left) t)
                  (sym (take_none m (omega arith)))
                  (same_Frame stream mem m 0 (tail 0 16) (tail blocks left) h
                    (λ i l. ground (arith, at i)))
            | inr some_byte ↦
                subst (λ (t : Memory). Frame stream mem 0 (tail blocks left) t)
                  (sym (take_short m some_byte small))
                  (write_Frame stream mem m 0 16 n (tail 0 16) (tail blocks left)
                    (λ i. m (131104 + i)) h (omega (arith, small))
                    (λ i l.
                      let read = h.above (131104 + (i - 16)) (omega arith) in
                      elim (le_or_gt 16 i) [
                        | inr below ↦ ground (arith, at i)
                        | inl from ↦ elim (le_or_gt (16 + n) i) [
                          | inl past ↦ ground (arith, at i)
                          | inr within ↦
                              let e : msg (16 + (i - 16)) ≡ msg i = ap msg (omega arith) in
                              ground (arith, at i, read, name_at (i - 16) (omega arith), e)
                        ]
                      ]))
          ])

  -- The whole blocks of a longer name, and its rest.
  full_Frame :
      (m : Memory)
      → Frame stream mem 0 (tail 0 16) m
      → 48 ≤ n
      → Frame stream mem 0 (tail 0 64) (write_range m (65472 + 16) 48 (λ i. m (131104 + i)))
  full_Frame m h large =
      write_Frame stream mem m 0 16 48 (tail 0 16) (tail 0 64) (λ i. m (131104 + i)) h (omega arith)
        (λ i l.
          let read = h.above (131104 + (i - 16)) (omega arith) in
          elim (le_or_gt 16 i) [
            | inr below ↦ ground arith
            | inl from ↦
                let e : msg (16 + (i - 16)) ≡ msg (64 * 0 + i) = ap msg (omega arith) in
                ground (arith, read, name_at (i - 16) (omega arith), e)
          ])

  whole_Frame :
      (m : Memory)
      → Frame stream mem 0 (tail 0 64) m
      → 48 ≤ n
      → Frame stream mem blocks
          (λ i. 0)
          (zeros (fn6 (flush m 65376) 65384 131152 (shr (n - 48) 6)) 65472 64)
  whole_Frame m h large =
      let first : Frame stream mem 1 (tail 0 64) (flush m 65376) =
        flush-Frame stream stream_lt mem m 0 (tail 0 64) h
          (λ i l. ground (arith, padded_message msg (n + 16) (64 * 0 + i) (omega arith))) in
      let count : 1 + shr (n - 48) 6 ≡ blocks = omega (arith, large) in
      let all : Frame stream mem blocks (tail 0 64)
          (fn6 (flush m 65376) 65384 131152 (shr (n - 48) 6)) =
        subst
          (λ (t : ℕ).
            Frame stream mem t (tail 0 64) (fn6 (flush m 65376) 65384 131152 (shr (n - 48) 6)))
          count
          (fn6-Frame stream stream_lt mem (flush m 65376) 131152 1 (shr (n - 48) 6) (tail 0 64)
            first (omega (arith, short))
            (λ i l.
              let e : mem (131104 + (48 + i)) ≡ mem (131152 + i) = ap mem (omega arith) in
              let here : msg (16 + (48 + i)) ≡ msg (64 * 1 + i) = ap msg (omega arith) in
              first.above (131152 + i) (omega arith)
              ∙ sym e
              ∙ name_at (48 + i) (omega (arith, l))
              ∙ here
              ∙ sym (padded_message msg (n + 16) (64 * 1 + i) (omega (arith, l))))) in
      write_Frame stream mem (fn6 (flush m 65376) 65384 131152 (shr (n - 48) 6)) blocks 0 64
        (tail 0 64) (λ i. 0) (λ i. 0) all (omega arith) (λ i l. ground arith)

  absorb_none :
      (m : Memory)
      → (n - 48) % 64 ≡ 0
      → absorb_name m 65376 131152 (n - 48)
        ≡ zeros (fn6 (flush m 65376) 65384 131152 (shr (n - 48) 6)) 65472 64
  unfolding absorb_name
  absorb_none m e =
      rw (and_mask 6 (n - 48), e)
        (clear_buffer_lem (fn6 (flush m 65376) 65384 131152 (shr (n - 48) 6)))

  absorb_rest :
      (m : Memory)
      → 0 < (n - 48) % 64
      → absorb_name m 65376 131152 (n - 48) ≡ (
          let whole = zeros (fn6 (flush m 65376) 65384 131152 (shr (n - 48) 6)) 65472 64 in
          write_range whole
            (65472 + 0)
            ((n - 48) % 64)
            (λ i. whole (131152 + (n - 48) / 64 * 64 + i)))
  unfolding absorb_name memory_copy
  absorb_rest m e =
      let nonzero : ((n - 48) % 64 == 0) ≡ false =
        ne→not-== ((n - 48) % 64) 0 (λ z. omega (arith, e)) in
      let masked : (n - 48) and 0x7fffffc0 ≡ (n - 48) / 64 * 64 =
        and_field 6 25 (n - 48) ∙ omega (arith, short) in
      let from : add32 131152 ((n - 48) / 64 * 64) ≡ 131152 + (n - 48) / 64 * 64 =
        omega (arith, short) in
      rw
        (
          and_mask 6 (n - 48),
          nonzero,
          masked,
          from,
          clear_buffer_lem (fn6 (flush m 65376) 65384 131152 (shr (n - 48) 6)),
        )
        refl

  long_Frame :
      (m : Memory)
      → Frame stream mem 0 (tail 0 64) m
      → 48 ≤ n
      → Frame stream mem blocks (tail blocks left) (absorb_name m 65376 131152 (n - 48))
  long_Frame m h large =
      let whole = zeros (fn6 (flush m 65376) 65384 131152 (shr (n - 48) 6)) 65472 64 in
      let done = whole_Frame m h large in
      let same : (n - 48) % 64 ≡ left = omega (arith, large) in
      elim (le_or_gt ((n - 48) % 64) 0) [
        | inl none ↦
            subst (λ (t : Memory). Frame stream mem blocks (tail blocks left) t)
              (sym (absorb_none m (omega (arith, none))))
              (same_Frame stream mem whole blocks (λ i. 0) (tail blocks left) done
                (λ i l. ground (arith, none, same)))
        | inr some_byte ↦
            subst (λ (t : Memory). Frame stream mem blocks (tail blocks left) t)
              (sym (absorb_rest m some_byte))
              (write_Frame stream mem whole blocks 0 ((n - 48) % 64) (λ i. 0) (tail blocks left)
                (λ i. whole (131152 + (n - 48) / 64 * 64 + i)) done (omega arith)
                (λ i l.
                  let p = 131152 + (n - 48) / 64 * 64 + (i - 0) in
                  let read : whole p ≡ mem p = done.above p (omega arith) in
                  let q = 48 + (n - 48) / 64 * 64 + i in
                  let e : mem p ≡ mem (131104 + q) = ap mem (omega arith) in
                  let here : msg (16 + q) ≡ msg (64 * blocks + i) = ap msg (omega (arith, large)) in
                  elim (le_or_gt left i) [
                    | inl past ↦ ground (arith, same)
                    | inr within ↦
                        let named = name_at q (omega (arith, within, same, large)) in
                        ground (arith, same, read, e, named, here)
                  ]))
      ]

  -- After the name: its whole blocks hashed, the bytes after them in the buffer.
  pub take_name-Frame :
      (v5 : ℕ)
      → (0 < n → v5 ≡ 131104)
      → Frame stream mem blocks
          (tail blocks left)
          (take_name (open_frame mem 65376 131072) 65376 v5 n)
  take_name-Frame v5 placed =
      let m = open_frame mem 65376 131072 in
      elim (le_or_gt 48 n) [
        | inr small ↦ short_Frame v5 placed m open_Frame small
        | inl large ↦
            subst (λ (t : Memory). Frame stream mem blocks (tail blocks left) t)
              (sym (take_long v5 placed m large))
              (long_Frame (write_range m (65472 + 16) 48 (λ i. m (131104 + i)))
                (full_Frame m open_Frame large) large)
      ]

pub pending_lem : (n : ℕ) → n < 2 ^ 31 → pending n ≡ (n + 16) % 64
unfolding pending head_length
pending_lem n short = elim (le_or_gt 48 n) [
  | inr small ↦
      let room : (add32 n 16 == 64) ≡ false =
        ne→not-== (add32 n 16) 64 (λ e. omega (arith, small)) in
      rw (lt→ltb n 48 small, room) (omega (arith, small))
  | inl large ↦ rw (le→not-ltb n 48 large, and_mask 6 (sub32 n 48)) (omega (arith, large, short))
]
