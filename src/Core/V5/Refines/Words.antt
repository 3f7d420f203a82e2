-- ===== src/Core/V5/Refines/Words.antt =====
-- Parts 1 to 3 of the code for a block and the words of the schedule and of the rounds.
use hyper_uuid.Prelude.{ℕ, ◌*◌, ◌<◌, ◌≡◌, arith, bit_xor}
use hyper_uuid.Word.{add32}
use hyper_uuid.Memory.{Memory, load32}
use hyper_uuid.Core.V5.Swap.{swap32}
use hyper_uuid.Sha.{Digest, compress, schedule}
use hyper_uuid.Sha.Sequence.{word, turned}
use hyper_uuid.Sha.Forms.{IsWords}
use hyper_uuid.Core.V5.Rounds.{schedule_sum}
use hyper_uuid.Core.V5.Block.Words.{part_1, part_2, part_3}
use hyper_uuid.Core.V5.Refines.Schedule.{part_4_lem}

module _ (m : ℕ → ℕ) (s : Digest) (h : IsWords s) (mem : Memory) (v1 : ℕ)
    (at_word : (t : ℕ) → t < 16 → swap32 (load32 mem (add32 v1 (4 * t))) ≡ schedule m t)
    (at_first : swap32 (load32 mem v1) ≡ schedule m 0) where
  abbrev w : ℕ → ℕ
  w t = schedule m t

  abbrev x : ℕ → ℕ
  x t = word m s t

  abbrev r : ℕ → ℕ
  r t = turned m s t

  pub part_3_lem :
      part_3 mem v1
        (r 2)
        (r 0)
        (r 1)
        (x 3)
        (x 4)
        (w 15)
        (w 9)
        (w 7)
        (w 14)
        (w 6)
        (w 4)
        (w 12)
        (w 3)
        (w 1)
        (w 17)
        (w 20)
        (w 23)
        (w 13)
        (w 5)
        (w 18)
        (w 2)
        (w 10)
        (w 21)
        (x 4)
        (bit_xor (w 23) (w 21))
      ≡ compress m s
  unfolding part_3
  part_3_lem =
      rw
        (
          schedule_sum m 10,
          schedule_sum m 13,
          at_word 11 (omega arith),
          at_word 8 (omega arith),
          at_first,
          schedule_sum m 0,
          schedule_sum m 3,
          schedule_sum m 6,
          schedule_sum m 9,
          schedule_sum m 12,
          schedule_sum m 15,
          schedule_sum m 18,
          schedule_sum m 21,
        )
        (part_4_lem m s h)

  pub part_2_lem :
      part_2 mem v1
        (r 2)
        (r 0)
        (r 1)
        (x 3)
        (x 4)
        (w 15)
        (w 9)
        (w 7)
        (w 6)
        (w 4)
        (w 12)
        (w 3)
        (x 4)
        (bit_xor (bit_xor (w 9) (w 7)) (w 15))
        (bit_xor (bit_xor (w 6) (w 4)) (w 12))
      ≡ compress m s
  unfolding part_2
  part_2_lem =
      rw
        (
          at_word 1 (omega arith),
          at_word 14 (omega arith),
          schedule_sum m 1,
          schedule_sum m 4,
          schedule_sum m 7,
          at_word 5 (omega arith),
          at_word 13 (omega arith),
          at_word 2 (omega arith),
          at_word 10 (omega arith),
          schedule_sum m 2,
          schedule_sum m 5,
        )
        part_3_lem

  pub part_1_lem : part_1 mem v1 (r 2) (r 0) (r 1) (x 3) (x 4) ≡ compress m s
  unfolding part_1
  part_1_lem =
      rw
        (
          at_word 9 (omega arith),
          at_word 7 (omega arith),
          at_word 15 (omega arith),
          at_word 6 (omega arith),
          at_word 4 (omega arith),
          at_word 12 (omega arith),
          at_word 3 (omega arith),
        )
        part_2_lem
