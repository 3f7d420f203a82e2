-- ===== src/Core/V5/Refines/Switch.antt =====
-- Parts 6 to 7 of the code for a block and the words of the schedule and of the rounds.
use hyper_uuid.Prelude.{ℕ, ◌≡◌, arith, bit_xor}
use hyper_uuid.Word.{add32}
use hyper_uuid.Sha.{Digest, compress, schedule}
use hyper_uuid.Sha.Sequence.{word, turned}
use hyper_uuid.Sha.Forms.{IsWords}
use hyper_uuid.Core.V5.Rounds.{schedule_sum, chosen_sum_1, chosen_sum_2, chosen_sum_3, chosen_sum_4}
use hyper_uuid.Core.V5.Block.Switch.{part_6, part_7}
use hyper_uuid.Core.V5.Refines.Early.{part_8_lem}

module _ (m : ℕ → ℕ) (s : Digest) (h : IsWords s) where
  abbrev w : ℕ → ℕ
  w t = schedule m t

  abbrev x : ℕ → ℕ
  x t = word m s t

  abbrev r : ℕ → ℕ
  r t = turned m s t

  pub part_7_lem :
      part_7
        (r 2)
        (r 0)
        (r 1)
        (x 3)
        (x 4)
        (w 15)
        (w 9)
        (w 7)
        (w 14)
        (w 6)
        (w 4)
        (w 12)
        (w 3)
        (w 1)
        (w 17)
        (w 20)
        (w 23)
        (w 13)
        (w 5)
        (w 18)
        (w 2)
        (w 10)
        (w 21)
        (w 26)
        (w 29)
        (w 16)
        (w 11)
        (w 8)
        (w 0)
        (w 19)
        (w 22)
        (w 25)
        (w 28)
        (w 31)
        (w 34)
        (w 37)
        (w 24)
        (w 27)
        (w 32)
        (w 35)
        (w 40)
        (w 43)
        (w 30)
        (w 33)
        (w 36)
        (w 39)
        (w 42)
        (w 45)
        (w 48)
        (w 51)
        (w 38)
        (w 41)
        (w 46)
        (w 49)
        (w 54)
        (w 57)
        (w 44)
        (w 47)
        (w 50)
        (w 53)
        (w 56)
        (w 59)
        (w 62)
        (w 65)
        (w 52)
        (w 55)
        (w 60)
        (w 63)
        (w 68)
        (w 71)
        (w 58)
        (w 61)
        (w 64)
        (w 67)
        (w 70)
        (w 73)
        (w 76)
        (w 66)
        (w 74)
        (add32 (x 4) (w 79))
      ≡ compress m s
  unfolding part_7
  part_7_lem =
      rw
        (
          schedule_sum m 53,
          chosen_sum_1 m s h 0 (omega arith),
          chosen_sum_2 m s h 1 (omega arith),
          chosen_sum_3 m s h 2 (omega arith),
          chosen_sum_3 m s h 3 (omega arith),
          chosen_sum_4 m s h 4 (omega arith),
        )
        (part_8_lem m s h)

  pub part_6_lem :
      part_6
        (r 2)
        (r 0)
        (r 1)
        (x 3)
        (x 4)
        (w 15)
        (w 9)
        (w 7)
        (w 14)
        (w 6)
        (w 4)
        (w 12)
        (w 3)
        (w 1)
        (w 17)
        (w 20)
        (w 23)
        (w 13)
        (w 5)
        (w 18)
        (w 2)
        (w 10)
        (w 21)
        (w 26)
        (w 29)
        (w 16)
        (w 11)
        (w 8)
        (w 0)
        (w 19)
        (w 22)
        (w 25)
        (w 28)
        (w 31)
        (w 34)
        (w 37)
        (w 24)
        (w 27)
        (w 32)
        (w 35)
        (w 40)
        (w 43)
        (w 30)
        (w 33)
        (w 36)
        (w 39)
        (w 42)
        (w 45)
        (w 48)
        (w 51)
        (w 38)
        (w 41)
        (w 46)
        (w 49)
        (w 54)
        (w 57)
        (w 44)
        (w 47)
        (w 50)
        (w 53)
        (w 56)
        (w 59)
        (w 62)
        (w 65)
        (x 4)
        (w 65)
        (bit_xor (w 49) (w 47))
      ≡ compress m s
  unfolding part_6
  part_6_lem =
      rw
        (
          schedule_sum m 36,
          schedule_sum m 39,
          schedule_sum m 44,
          schedule_sum m 47,
          schedule_sum m 52,
          schedule_sum m 55,
          schedule_sum m 42,
          schedule_sum m 45,
          schedule_sum m 48,
          schedule_sum m 51,
          schedule_sum m 54,
          schedule_sum m 57,
          schedule_sum m 60,
          schedule_sum m 63,
          schedule_sum m 50,
          schedule_sum m 58,
        )
        part_7_lem
