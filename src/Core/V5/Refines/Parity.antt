-- ===== src/Core/V5/Refines/Parity.antt =====
-- Parts 9 to 10 of the code for a block and the words of the schedule and of the rounds.
use hyper_uuid.Prelude.{ℕ, ◌≡◌, arith, bit_and, bit_xor}
use hyper_uuid.Word.{add32}
use hyper_uuid.Sha.{Digest, compress, schedule}
use hyper_uuid.Sha.Sequence.{word, turned}
use hyper_uuid.Sha.Forms.{IsWords}
use hyper_uuid.Core.V5.Rounds.{chosen_sum_5, chosen_sum_6, second_sum}
use hyper_uuid.Core.V5.Block.Parity.{part_9, part_10}
use hyper_uuid.Core.V5.Refines.Majority.{part_11_lem}

module _ (m : ℕ → ℕ) (s : Digest) (h : IsWords s) where
  abbrev w : ℕ → ℕ
  w t = schedule m t

  abbrev x : ℕ → ℕ
  x t = word m s t

  abbrev r : ℕ → ℕ
  r t = turned m s t

  pub part_10_lem :
      part_10
        (r 2)
        (r 0)
        (r 1)
        (x 3)
        (x 27)
        (x 28)
        (r 26)
        (r 25)
        (w 26)
        (w 25)
        (w 28)
        (w 31)
        (w 37)
        (w 27)
        (w 32)
        (w 35)
        (w 40)
        (w 43)
        (w 30)
        (w 33)
        (w 36)
        (w 42)
        (w 45)
        (w 48)
        (w 51)
        (w 38)
        (w 41)
        (w 46)
        (w 57)
        (w 47)
        (w 50)
        (w 53)
        (w 56)
        (w 59)
        (w 62)
        (w 65)
        (w 52)
        (w 55)
        (w 60)
        (w 63)
        (w 68)
        (w 71)
        (w 58)
        (w 61)
        (w 64)
        (w 67)
        (w 70)
        (w 73)
        (w 76)
        (w 66)
        (w 74)
        (w 69)
        (add32 (x 4) (w 79))
        (w 74)
        (w 69)
        (w 64)
        (w 59)
        (w 54)
        (w 49)
        (w 44)
        (w 39)
        (w 34)
        (w 29)
        (add32 (add32 (w 24) (r 24)) (bit_xor (bit_xor (r 26) (r 25)) (x 27)))
      ≡ compress m s
  unfolding part_10
  part_10_lem =
      rw
        (
          second_sum m s h 24 (omega arith) (omega arith),
          second_sum m s h 25 (omega arith) (omega arith),
          second_sum m s h 26 (omega arith) (omega arith),
          second_sum m s h 27 (omega arith) (omega arith),
          second_sum m s h 28 (omega arith) (omega arith),
          second_sum m s h 29 (omega arith) (omega arith),
          second_sum m s h 30 (omega arith) (omega arith),
          second_sum m s h 31 (omega arith) (omega arith),
          second_sum m s h 32 (omega arith) (omega arith),
          second_sum m s h 33 (omega arith) (omega arith),
          second_sum m s h 34 (omega arith) (omega arith),
        )
        (part_11_lem m s h)

  pub part_9_lem :
      part_9
        (r 2)
        (r 0)
        (r 1)
        (x 3)
        (r 16)
        (w 15)
        (x 18)
        (r 15)
        (w 17)
        (w 20)
        (w 23)
        (w 18)
        (w 21)
        (w 26)
        (w 16)
        (x 17)
        (w 22)
        (w 25)
        (w 28)
        (w 31)
        (w 37)
        (w 27)
        (w 32)
        (w 35)
        (w 40)
        (w 43)
        (w 30)
        (w 33)
        (w 36)
        (w 42)
        (w 45)
        (w 48)
        (w 51)
        (w 38)
        (w 41)
        (w 46)
        (w 57)
        (w 47)
        (w 50)
        (w 53)
        (w 56)
        (w 59)
        (w 62)
        (w 65)
        (w 52)
        (w 55)
        (w 60)
        (w 63)
        (w 68)
        (w 71)
        (w 58)
        (w 61)
        (w 64)
        (w 67)
        (w 70)
        (w 73)
        (w 76)
        (w 66)
        (w 74)
        (w 69)
        (add32 (x 4) (w 79))
        (w 74)
        (w 69)
        (w 64)
        (w 59)
        (w 54)
        (w 49)
        (w 44)
        (w 39)
        (w 34)
        (w 29)
        (w 24)
        (w 19)
        (add32 (add32 (w 14) (r 14)) (bit_xor (bit_and (x 17) (bit_xor (r 16) (r 15))) (r 15)))
      ≡ compress m s
  unfolding part_9
  part_9_lem =
      rw
        (
          chosen_sum_6 m s h 14 (omega arith),
          chosen_sum_6 m s h 15 (omega arith),
          chosen_sum_5 m s h 16 (omega arith),
          chosen_sum_5 m s h 17 (omega arith),
          chosen_sum_6 m s h 18 (omega arith),
          chosen_sum_6 m s h 19 (omega arith),
          second_sum m s h 20 (omega arith) (omega arith),
          second_sum m s h 21 (omega arith) (omega arith),
          second_sum m s h 22 (omega arith) (omega arith),
          second_sum m s h 23 (omega arith) (omega arith),
        )
        part_10_lem
