-- ===== src/Core/V5/Refines/Late.antt =====
-- Parts 13 to 15 of the code for a block and the words of the schedule and of the rounds.
use hyper_uuid.Prelude.{ℕ, ◌≡◌, refl, arith, bit_and, bit_xor}
use hyper_uuid.Bits.Algebra.{bit_order}
use hyper_uuid.Word.{neg32, add32, rotl32}
use hyper_uuid.Sha.{Digest, compress, schedule}
use hyper_uuid.Sha.Sequence.{word, turned}
use hyper_uuid.Sha.Forms.{IsWords, compress_words, fourth_step}
use hyper_uuid.Core.V5.Rounds.{schedule_sum, fourth_sum, majority_sum_1, majority_sum_2}
use hyper_uuid.Core.V5.Block.Late.{part_13, part_14, part_15}

module _ (m : ℕ → ℕ) (s : Digest) (h : IsWords s) where
  abbrev w : ℕ → ℕ
  w t = schedule m t

  abbrev x : ℕ → ℕ
  x t = word m s t

  abbrev r : ℕ → ℕ
  r t = turned m s t

  pub part_15_lem :
      part_15
        (r 2)
        (r 0)
        (r 1)
        (x 3)
        (x 77)
        (x 78)
        (x 79)
        (r 76)
        (r 75)
        (w 72)
        (w 59)
        (w 62)
        (w 63)
        (w 61)
        (w 64)
        (w 67)
        (w 70)
        (w 76)
        (w 74)
        (w 69)
        (add32 (x 4) (w 79))
      ≡ compress m s
  unfolding part_15
  part_15_lem =
      let mixed : bit_xor (bit_xor (r 81) (r 80)) (x 82) ≡ bit_xor (bit_xor (x 82) (r 81)) (r 80) =
        simp bit_order in
      let top : add32
            (add32
              (add32 (add32 (add32 (x 4) (w 79)) (r 79)) (bit_xor (bit_xor (r 81) (r 80)) (x 82)))
              (rotl32 (x 83) 5))
            (neg32 899497514)
          ≡ add32 (x 84) (x 4) =
        omega (arith, fourth_step m s h 79 (omega arith)) in
      rw
        (
          schedule_sum m 59,
          fourth_sum m s h 75 (omega arith),
          fourth_sum m s h 76 (omega arith),
          schedule_sum m 61,
          fourth_sum m s h 77 (omega arith),
          schedule_sum m 62,
          fourth_sum m s h 78 (omega arith),
          top,
          compress_words m s,
        )
        refl

  pub part_14_lem :
      part_14
        (r 2)
        (r 0)
        (r 1)
        (x 3)
        (x 67)
        (x 68)
        (r 66)
        (r 65)
        (w 56)
        (w 59)
        (w 62)
        (w 65)
        (w 63)
        (w 68)
        (w 71)
        (w 58)
        (w 61)
        (w 64)
        (w 67)
        (w 70)
        (w 73)
        (w 76)
        (w 66)
        (w 74)
        (w 69)
        (add32 (x 4) (w 79))
        (w 74)
        (w 69)
        (add32 (add32 (w 64) (r 64)) (bit_xor (bit_xor (r 66) (r 65)) (x 67)))
      ≡ compress m s
  unfolding part_14
  part_14_lem =
      rw
        (
          fourth_sum m s h 64 (omega arith),
          fourth_sum m s h 65 (omega arith),
          fourth_sum m s h 66 (omega arith),
          fourth_sum m s h 67 (omega arith),
          fourth_sum m s h 68 (omega arith),
          fourth_sum m s h 69 (omega arith),
          fourth_sum m s h 70 (omega arith),
          fourth_sum m s h 71 (omega arith),
          schedule_sum m 56,
          fourth_sum m s h 72 (omega arith),
          fourth_sum m s h 73 (omega arith),
          fourth_sum m s h 74 (omega arith),
        )
        part_15_lem

  pub part_13_lem :
      part_13
        (r 2)
        (r 0)
        (r 1)
        (x 3)
        (r 56)
        (r 55)
        (x 58)
        (x 57)
        (w 57)
        (w 56)
        (w 59)
        (w 62)
        (w 65)
        (w 55)
        (w 60)
        (w 63)
        (w 68)
        (w 71)
        (w 58)
        (w 61)
        (w 64)
        (w 67)
        (w 70)
        (w 73)
        (w 76)
        (w 66)
        (w 74)
        (w 69)
        (add32 (x 4) (w 79))
        (w 74)
        (w 69)
        (w 64)
        (w 59)
        (add32
          (add32 (w 54) (r 54))
          (bit_xor (bit_and (x 57) (bit_xor (r 56) (r 55))) (bit_and (r 56) (r 55))))
      ≡ compress m s
  unfolding part_13
  part_13_lem =
      rw
        (
          majority_sum_2 m s h 54 (omega arith) (omega arith),
          majority_sum_2 m s h 55 (omega arith) (omega arith),
          majority_sum_1 m s h 56 (omega arith) (omega arith),
          majority_sum_1 m s h 57 (omega arith) (omega arith),
          majority_sum_2 m s h 58 (omega arith) (omega arith),
          majority_sum_2 m s h 59 (omega arith) (omega arith),
          fourth_sum m s h 60 (omega arith),
          fourth_sum m s h 61 (omega arith),
          fourth_sum m s h 62 (omega arith),
          fourth_sum m s h 63 (omega arith),
        )
        part_14_lem
