-- ===== src/Tests/Batches.antt =====
-- Batches on a new instance.
use hyper_uuid.Prelude.{ℕ, List, ◌∷◌, [], tabulate}
use hyper_uuid.Uuid.{Uuid, zero_uuid}
use hyper_uuid.Core.V7.Batch.Call
use hyper_uuid.Instance.{Instance}
use hyper_uuid.Api.Batch.Fills
use hyper_uuid.Prelude.{◌∷◌, []}

abbrev two_zeros : List Uuid
two_zeros = zero_uuid ∷ zero_uuid ∷ []

abbrev buffer : List ℕ
buffer = tabulate (λ i. 0) 48
