-- ===== src/Core/V5/Opening.antt =====
-- The frame of `Xuuid_new_v5` as the call opens it.
use hyper_uuid.Prelude.{ℕ, ◌+◌, ◌/◌, ◌%◌, ◌^◌, ◌<◌, ◌≤◌, ◌≡◌, refl, ap, ◌∙◌, arith}
use hyper_uuid.Memory.{Memory, load32, load64, store32, store64}
use hyper_uuid.Memory.Ranges.{zeros, copied, zero_up, zero64, copy_down}
use hyper_uuid.Sha.{initial}
use hyper_uuid.Core.V5.{open_frame}
use hyper_uuid.Core.V5.Block.{load_digest}
use hyper_uuid.Core.V5.Frame.{HasData, copied_none}

-- The three stores of the initial value stand below the buffer.
state_stores :
    (mem : Memory) (x y z b : ℕ)
    → 65472 ≤ b
    → store64 (store64 (store32 mem 65400 x) 65392 y) 65384 z b ≡ mem b
state_stores mem x y z b h = ground arith

state_digest :
    (mem : Memory) (x y z : ℕ)
    → load_digest (store64 (store64 (store32 mem 65400 x) 65392 y) 65384 z) 65384 ≡ record {
      a = z % 2 ^ 32;
      b = z / 2 ^ 32 % 2 ^ 32;
      c = y % 2 ^ 32;
      d = y / 2 ^ 32 % 2 ^ 32;
      e = x % 2 ^ 32;
    }
state_digest mem x y z =
    let m = store64 (store64 (store32 mem 65400 x) 65392 y) 65384 z in
    let ea : load32 m 65384 ≡ z % 2 ^ 32 = omega arith in
    let eb : load32 m 65388 ≡ z / 2 ^ 32 % 2 ^ 32 = omega arith in
    let ec : load32 m 65392 ≡ y % 2 ^ 32 = omega arith in
    let ed : load32 m 65396 ≡ y / 2 ^ 32 % 2 ^ 32 = omega arith in
    let ee : load32 m 65400 ≡ x % 2 ^ 32 = omega arith in
    λ i. record { a = ea i; b = eb i; c = ec i; d = ed i; e = ee i }

-- The initial value from the module's data, below the buffer.
abbrev with_state : Memory → Memory
with_state mem =
    let mem' = store32 mem 65400 (load32 mem 65552) in
    let mem'' = store64 mem' 65392 (load64 mem' 65544) in store64 mem'' 65384 (load64 mem'' 65536)

with_state-above : (mem : Memory) (b : ℕ) → 65472 ≤ b → with_state mem b ≡ mem b
with_state-above mem b h =
    let mem' = store32 mem 65400 (load32 mem 65552) in
    let mem'' = store64 mem' 65392 (load64 mem' 65544) in
    state_stores mem (load32 mem 65552) (load64 mem' 65544) (load64 mem'' 65536) b h

abbrev pub opened : Memory → Memory
opened mem = zeros (copied mem 65472 131072 16) 65488 48

module _ (mem : Memory) (low : (i : ℕ) → i < 16 → mem (131072 + i) < 256) where
  open_buffer :
      store64
        (store64 mem 65480 (load64 mem 131080))
        65472
        (load64 (store64 mem 65480 (load64 mem 131080)) 131072)
      ≡ copied mem 65472 131072 16
  open_buffer =
      let upper : (i : ℕ) → i < 8 → mem (131080 + i) < 256 = λ i h.
        (let e : mem (131072 + (8 + i)) ≡ mem (131080 + i) = ap mem (omega arith) in
          omega (arith, e, low (8 + i) (omega (arith, h)))) in
      copy_down mem 65472 131072 8 (omega arith) (λ i h. low i (omega (arith, h)))
        (copy_down mem 65480 131080 0 (omega arith) upper (copied_none mem 65488 131088))

  filled :
      store64
        (store64
          (store64
            (store64
              (store64
                (store64
                  (store64
                    (store64 mem 65480 (load64 mem 131080))
                    65472
                    (load64 (store64 mem 65480 (load64 mem 131080)) 131072))
                  65488
                  0)
                65496
                0)
              65504
              0)
            65512
            0)
          65520
          0)
        65528
        0
      ≡ opened mem
  filled =
      let m = copied mem 65472 131072 16 in
      ap
        (λ (t : Memory).
          store64
            (store64 (store64 (store64 (store64 (store64 t 65488 0) 65496 0) 65504 0) 65512 0) 65520
              0)
            65528 0)
        open_buffer
      ∙ zero_up m 65488 40 (
          zero_up m 65488 32
            (zero_up m 65488 24 (zero_up m 65488 16 (zero_up m 65488 8 (zero64 m 65488)))))

  open_frame_state : open_frame mem 65376 131072 ≡ with_state (opened mem)
  unfolding open_frame
  open_frame_state = ap with_state filled

  pub open_frame-above : (b : ℕ) → 65472 ≤ b → open_frame mem 65376 131072 b ≡ opened mem b
  open_frame-above b h =
      ap (λ (t : Memory). t b) open_frame_state ∙ with_state-above (opened mem) b h

  module _ (data_at : HasData mem) where
    pub open_frame-digest : load_digest (open_frame mem 65376 131072) 65384 ≡ initial
    unfolding initial
    open_frame-digest =
        ap (λ (t : Memory). load_digest t 65384) open_frame_state
        ∙ state_digest (opened mem) (load32 mem 65552) (load64 mem 65544) (load64 mem 65536)
        ∙ rw (data_at.ab, data_at.cd, data_at.e) refl
