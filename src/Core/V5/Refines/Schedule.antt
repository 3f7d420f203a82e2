-- ===== src/Core/V5/Refines/Schedule.antt =====
-- Parts 4 to 5 of the code for a block and the words of the schedule and of the rounds.
use hyper_uuid.Prelude.{ℕ, ◌≡◌}
use hyper_uuid.Sha.{Digest, compress, schedule}
use hyper_uuid.Sha.Sequence.{word, turned}
use hyper_uuid.Sha.Forms.{IsWords}
use hyper_uuid.Core.V5.Rounds.{schedule_sum}
use hyper_uuid.Core.V5.Block.Schedule.{part_4, part_5}
use hyper_uuid.Core.V5.Refines.Switch.{part_6_lem}

module _ (m : ℕ → ℕ) (s : Digest) (h : IsWords s) where
  abbrev w : ℕ → ℕ
  w t = schedule m t

  abbrev x : ℕ → ℕ
  x t = word m s t

  abbrev r : ℕ → ℕ
  r t = turned m s t

  pub part_5_lem :
      part_5
        (r 2)
        (r 0)
        (r 1)
        (x 3)
        (x 4)
        (w 15)
        (w 9)
        (w 7)
        (w 14)
        (w 6)
        (w 4)
        (w 12)
        (w 3)
        (w 1)
        (w 17)
        (w 20)
        (w 23)
        (w 13)
        (w 5)
        (w 18)
        (w 2)
        (w 10)
        (w 21)
        (w 26)
        (w 29)
        (w 16)
        (w 11)
        (w 8)
        (w 0)
        (w 19)
        (w 22)
        (w 25)
        (w 28)
        (w 31)
        (w 34)
        (w 37)
        (w 24)
        (w 27)
        (w 32)
        (w 35)
        (w 40)
        (w 43)
        (w 30)
        (w 33)
        (w 36)
        (w 39)
        (w 42)
        (w 45)
        (w 48)
        (w 51)
        (x 4)
        (w 51)
      ≡ compress m s
  unfolding part_5
  part_5_lem =
      rw
        (
          schedule_sum m 22,
          schedule_sum m 25,
          schedule_sum m 30,
          schedule_sum m 33,
          schedule_sum m 38,
          schedule_sum m 41,
          schedule_sum m 28,
          schedule_sum m 31,
          schedule_sum m 34,
          schedule_sum m 37,
          schedule_sum m 40,
          schedule_sum m 43,
          schedule_sum m 46,
          schedule_sum m 49,
        )
        (part_6_lem m s h)

  pub part_4_lem :
      part_4
        (r 2)
        (r 0)
        (r 1)
        (x 3)
        (x 4)
        (w 15)
        (w 9)
        (w 7)
        (w 14)
        (w 6)
        (w 4)
        (w 12)
        (w 3)
        (w 1)
        (w 17)
        (w 20)
        (w 23)
        (w 13)
        (w 5)
        (w 18)
        (w 2)
        (w 10)
        (w 21)
        (w 26)
        (w 29)
        (w 16)
        (w 11)
        (w 8)
        (w 0)
        (w 19)
        (w 22)
        (w 25)
        (w 28)
        (w 31)
        (w 34)
        (w 37)
        (x 4)
      ≡ compress m s
  unfolding part_4
  part_4_lem =
      rw
        (
          schedule_sum m 8,
          schedule_sum m 11,
          schedule_sum m 16,
          schedule_sum m 19,
          schedule_sum m 24,
          schedule_sum m 27,
          schedule_sum m 14,
          schedule_sum m 17,
          schedule_sum m 20,
          schedule_sum m 23,
          schedule_sum m 26,
          schedule_sum m 29,
          schedule_sum m 32,
          schedule_sum m 35,
        )
        part_5_lem
