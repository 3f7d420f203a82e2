-- ===== src/Api/Mixed.antt =====
-- Single version 7 calls and batches of go/uuidgen.go on one primary, one after another.
use hyper_uuid.Prelude.{
  ℕ, ◌+◌, ◌/◌, ◌^◌, ◌<◌, ◌≤◌, ◌≡◌, List, [], ◌∷◌, ◌++◌, Option, none, some, ℤ, Result, ok, err,
}
use hyper_uuid.Uuid.{Uuid}
use hyper_uuid.Uuid.Layout.{IsV7, position}
use hyper_uuid.Stream
use hyper_uuid.Stream.{Stream, Outcome, aside, full, granted, IsStream}
use hyper_uuid.Stream.Laws.{IsWithin, next}
use hyper_uuid.Core.Module.{Draw}
use hyper_uuid.Instance.{Instance}
use hyper_uuid.Api.Generate.{new_v7_at}
use hyper_uuid.Api.Batch.{new_v7_batch_at}
use hyper_uuid.Api.Batch.Order.{Ascends}
use hyper_uuid.Api.Batch.Answers as BatchAnswers
use hyper_uuid.Core.V7.Batch.Call
use hyper_uuid.Core.V7.Batch.Call.{block}
use hyper_uuid.Core.V7.Contract
use hyper_uuid.Core.V7.Contract.{stamp}
use hyper_uuid.Api.Generate.Answers

-- A call of `NewV7At`, or of `NewV7BatchAt` with a count.
pub data Request : Type 0 where
  single : ℕ → Request
  batch : ℤ → ℕ → Request

-- The UUIDs of a result.
abbrev pub minted_by : Result (List Uuid) → List Uuid
minted_by (ok us) = us
minted_by (err e) = []

abbrev pub minted_one : Result Uuid → List Uuid
minted_one (ok u) = u ∷ []
minted_one (err e) = []

module _ {S : Type 0} (fill : ℕ → S → Draw S) where
  unfoldable pub serve : Instance S → Request → Option (Instance S × List Uuid)
  serve self (single now) = let (self, r) = new_v7_at fill self now in some (self, minted_one r)
  serve self (batch count now) = elim (new_v7_batch_at fill self count now) [
    | none ↦ none
    | some (self', r) ↦ some (self', minted_by r)
  ]

  unfoldable pub serve_all : Instance S → List Request → Option (Instance S × List Uuid)
  serve_all self [] = some (self, [])
  serve_all self (q ∷ qs) = elim (serve self q) [
    | none ↦ none
    | some (self', us) ↦ elim (serve_all self' qs) [
      | none ↦ none
      | some (end, vs) ↦ some (end, us ++ vs)
    ]
  ]

-- Version 7 UUIDs at positions from lo on and below hi.
abbrev Between : ℕ → ℕ → List Uuid → Type 0
Between lo hi [] = Unit {0}
Between lo hi (u ∷ us) = (IsV7 u × (lo ≤ position u) × (position u < hi)) × Between lo hi us

-- The stream grants n steps in order for the timestamps of ten seconds.
abbrev IsOrdered : Outcome → ℕ → ℕ → Stream → Type 0
IsOrdered aside n base s = ⊥
IsOrdered full n base s = Unit {0}
IsOrdered (granted f l) n base s = (f + n ≡ l + 1) × (next s ≤ f) × (l / 2 ^ 20 ≤ base + 11000)

-- A request in the ten seconds from `base`.
abbrev pub IsDue : ℕ → Request → Type 0
IsDue base (single now) = (base ≤ now) × (now ≤ base + 10000)
IsDue base (batch count now) = (base ≤ now) × (now ≤ base + 10000)

abbrev pub AreDue : ℕ → List Request → Type 0
AreDue base [] = Unit {0}
AreDue base (q ∷ qs) = IsDue base q × AreDue base qs

-- UUIDs that the stream has granted between s and t, in order.
abbrev Grants : ℕ → Stream → Stream → List Uuid → Type 0
Grants base s t us = IsWithin base t × Between (next s) (next t) us × Ascends us × (next s ≤ next t)
