-- ===== src/Core/V5/Refines/Early.antt =====
-- Part 8 of the code for a block and the words of the schedule and of the rounds.
use hyper_uuid.Prelude.{ℕ, ◌≡◌, arith}
use hyper_uuid.Word.{add32}
use hyper_uuid.Sha.{Digest, compress, schedule}
use hyper_uuid.Sha.Sequence.{word, turned}
use hyper_uuid.Sha.Forms.{IsWords}
use hyper_uuid.Core.V5.Rounds.{chosen_sum_3, chosen_sum_4, chosen_sum_5, chosen_sum_6}
use hyper_uuid.Core.V5.Block.Early.{part_8}
use hyper_uuid.Core.V5.Refines.Parity.{part_9_lem}

module _ (m : ℕ → ℕ) (s : Digest) (h : IsWords s) where
  abbrev w : ℕ → ℕ
  w t = schedule m t

  abbrev x : ℕ → ℕ
  x t = word m s t

  abbrev r : ℕ → ℕ
  r t = turned m s t

  pub part_8_lem :
      part_8
        (r 2)
        (r 0)
        (r 1)
        (x 3)
        (r 6)
        (w 15)
        (w 7)
        (w 6)
        (w 12)
        (x 8)
        (r 5)
        (w 17)
        (w 20)
        (w 23)
        (w 13)
        (w 5)
        (w 18)
        (x 7)
        (w 10)
        (w 21)
        (w 26)
        (w 16)
        (w 11)
        (w 8)
        (x 9)
        (w 22)
        (w 25)
        (w 28)
        (w 31)
        (w 37)
        (w 27)
        (w 32)
        (w 35)
        (w 40)
        (w 43)
        (w 30)
        (w 33)
        (w 36)
        (w 42)
        (w 45)
        (w 48)
        (w 51)
        (w 38)
        (w 41)
        (w 46)
        (w 57)
        (w 47)
        (w 50)
        (w 53)
        (w 56)
        (w 59)
        (w 62)
        (w 65)
        (w 52)
        (w 55)
        (w 60)
        (w 63)
        (w 68)
        (w 71)
        (w 58)
        (w 61)
        (w 64)
        (w 67)
        (w 70)
        (w 73)
        (w 76)
        (w 66)
        (w 74)
        (w 69)
        (add32 (x 4) (w 79))
        (w 74)
        (w 69)
        (w 64)
        (w 59)
        (w 54)
        (w 49)
        (w 44)
        (w 39)
        (w 34)
        (w 29)
        (w 24)
        (w 19)
        (w 14)
        (w 9)
      ≡ compress m s
  unfolding part_8
  part_8_lem =
      rw
        (
          chosen_sum_4 m s h 5 (omega arith),
          chosen_sum_3 m s h 6 (omega arith),
          chosen_sum_3 m s h 7 (omega arith),
          chosen_sum_5 m s h 8 (omega arith),
          chosen_sum_5 m s h 9 (omega arith),
          chosen_sum_6 m s h 10 (omega arith),
          chosen_sum_6 m s h 11 (omega arith),
          chosen_sum_5 m s h 12 (omega arith),
          chosen_sum_5 m s h 13 (omega arith),
        )
        (part_9_lem m s h)
