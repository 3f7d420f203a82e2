-- ===== src/Core/V5/Refines/Majority.antt =====
-- Parts 11 to 12 of the code for a block and the words of the schedule and of the rounds.
use hyper_uuid.Prelude.{ℕ, ◌≡◌, arith}
use hyper_uuid.Word.{add32}
use hyper_uuid.Sha.{Digest, compress, schedule}
use hyper_uuid.Sha.Sequence.{word, turned}
use hyper_uuid.Sha.Forms.{IsWords}
use hyper_uuid.Core.V5.Rounds.{majority_sum_1, majority_sum_2, second_sum}
use hyper_uuid.Core.V5.Block.Majority.{part_11, part_12}
use hyper_uuid.Core.V5.Refines.Late.{part_13_lem}

module _ (m : ℕ → ℕ) (s : Digest) (h : IsWords s) where
  abbrev w : ℕ → ℕ
  w t = schedule m t

  abbrev x : ℕ → ℕ
  x t = word m s t

  abbrev r : ℕ → ℕ
  r t = turned m s t

  pub part_12_lem :
      part_12
        (r 2)
        (r 0)
        (r 1)
        (x 3)
        (x 47)
        (r 46)
        (r 45)
        (x 48)
        (x 49)
        (w 45)
        (w 48)
        (w 51)
        (w 46)
        (w 57)
        (w 47)
        (w 50)
        (w 53)
        (w 56)
        (w 59)
        (w 62)
        (w 65)
        (w 52)
        (w 55)
        (w 60)
        (w 63)
        (w 68)
        (w 71)
        (w 58)
        (w 61)
        (w 64)
        (w 67)
        (w 70)
        (w 73)
        (w 76)
        (w 66)
        (w 74)
        (w 69)
        (add32 (x 4) (w 79))
        (w 74)
        (w 69)
        (w 64)
        (w 59)
        (w 54)
        (w 49)
      ≡ compress m s
  unfolding part_12
  part_12_lem =
      rw
        (
          majority_sum_1 m s h 45 (omega arith) (omega arith),
          majority_sum_2 m s h 46 (omega arith) (omega arith),
          majority_sum_2 m s h 47 (omega arith) (omega arith),
          majority_sum_1 m s h 48 (omega arith) (omega arith),
          majority_sum_1 m s h 49 (omega arith) (omega arith),
          majority_sum_2 m s h 50 (omega arith) (omega arith),
          majority_sum_2 m s h 51 (omega arith) (omega arith),
          majority_sum_1 m s h 52 (omega arith) (omega arith),
          majority_sum_1 m s h 53 (omega arith) (omega arith),
        )
        (part_13_lem m s h)

  pub part_11_lem :
      part_11
        (r 2)
        (r 0)
        (r 1)
        (x 3)
        (x 37)
        (x 38)
        (x 39)
        (r 36)
        (r 35)
        (w 37)
        (w 35)
        (w 40)
        (w 43)
        (w 36)
        (w 42)
        (w 45)
        (w 48)
        (w 51)
        (w 38)
        (w 41)
        (w 46)
        (w 57)
        (w 47)
        (w 50)
        (w 53)
        (w 56)
        (w 59)
        (w 62)
        (w 65)
        (w 52)
        (w 55)
        (w 60)
        (w 63)
        (w 68)
        (w 71)
        (w 58)
        (w 61)
        (w 64)
        (w 67)
        (w 70)
        (w 73)
        (w 76)
        (w 66)
        (w 74)
        (w 69)
        (add32 (x 4) (w 79))
        (w 74)
        (w 69)
        (w 64)
        (w 59)
        (w 54)
        (w 49)
        (w 44)
        (w 39)
      ≡ compress m s
  unfolding part_11
  part_11_lem =
      rw
        (
          second_sum m s h 35 (omega arith) (omega arith),
          second_sum m s h 36 (omega arith) (omega arith),
          second_sum m s h 37 (omega arith) (omega arith),
          second_sum m s h 38 (omega arith) (omega arith),
          second_sum m s h 39 (omega arith) (omega arith),
          majority_sum_1 m s h 40 (omega arith) (omega arith),
          majority_sum_1 m s h 41 (omega arith) (omega arith),
          majority_sum_2 m s h 42 (omega arith) (omega arith),
          majority_sum_2 m s h 43 (omega arith) (omega arith),
          majority_sum_1 m s h 44 (omega arith) (omega arith),
        )
        part_12_lem
