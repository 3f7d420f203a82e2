-- ===== src/Api/Batch/Bytes.antt =====
-- `FillV7BytesAt` of go/uuidgen.go: the batch as raw bytes.
use hyper_uuid.Prelude.{ℕ, suc, ◌/◌, ◌%◌, ◌==◌, if◌then◌else◌, List, [], ◌∷◌, ◌++◌}
use hyper_uuid.Prelude.{Result, err, buffer_not_whole_uuids}
use hyper_uuid.Memory.{Memory}
use hyper_uuid.Uuid.{Uuid, to_list}
use hyper_uuid.Stream.{Stream}
use hyper_uuid.Core.Module.{Draw}
use hyper_uuid.Core.V7.Batch.Call.{block, supply}
use hyper_uuid.Instance.{Instance}
use hyper_uuid.Api.Batch.Answers.{filling, left}
use hyper_uuid.Api.Batch.Fills.{owed}

-- UUIDs end to end.
abbrev pub octets : List Uuid → List ℕ
octets [] = []
octets (u ∷ us) = to_list u ++ octets us

abbrev sixteen_more : ℕ → ℕ
sixteen_more i =
    suc (suc (suc (suc (suc (suc (suc (suc (suc (suc (suc (suc (suc (suc (suc (suc i)))))))))))))))

module _ {S : Type 0} (fill : ℕ → S → Draw S) (self : Instance S) (s : Stream) (now : ℕ) where
  -- What a buffer of l bytes holds after a fill, and the error; and the stream after it.
  abbrev pub bytes_filled : List ℕ → ℕ → List ℕ × Result (Unit {0})
  bytes_filled dst l =
      if l % 16 == 0
      then filling (λ noise p. octets (block noise p (l / 16))) (owed fill self s now (l / 16)) now
          (l / 16) (supply fill (l / 16) self.m.src) dst
      else (dst, err buffer_not_whole_uuids)

  abbrev pub bytes_stream : ℕ → Stream
  bytes_stream l = if l % 16 == 0 then left (owed fill self s now (l / 16)) s else s
