-- ===== src/Core/V7/Contract.antt =====
-- What a call of `Xuuid_new_v7` owes to its caller, and the module that it leaves.
use hyper_uuid.Prelude.{ℕ, ◌+◌, ◌*◌, ◌^◌, ◌≡◌}
use hyper_uuid.Prelude.{ltb, ◌==◌, if◌then◌else◌}
use hyper_uuid.Memory.{load32, load64}
use hyper_uuid.Uuid.{Uuid, read_uuid}
use hyper_uuid.Uuid.Layout.{v7_layout}
use hyper_uuid.Stream
use hyper_uuid.Stream.{Stream, fresh, last, Outcome, aside, full, granted, encode, IsStream}
use hyper_uuid.Core.Module.{Draw, Module}
use hyper_uuid.Core.V7.Minting.{seed_of}

-- A module between two calls: the stack is empty, the word holds the stream, and the table of
-- variants and the initial hash value are as `data0` has them.
pub record Holds {S : Type 0} (m : Module S) (s : Stream) : Type 0 where
  pub stack : m.g0 ≡ 65536
  pub word : load64 m.memory 65560 ≡ encode s
  pub valid : IsStream s
  pub t0 : m.memory 65556 ≡ 2
  pub t1 : m.memory 65557 ≡ 2
  pub t2 : m.memory 65558 ≡ 3
  pub hash_ab : load64 m.memory 65536 ≡ 0xefcdab8967452301
  pub hash_cd : load64 m.memory 65544 ≡ 0x1032547698badcfe
  pub hash_e : load32 m.memory 65552 ≡ 0xc3d2e1f0

-- The UUID that a draw of 11 bytes makes at a position.
abbrev pub stamp : {S : Type 0} → Draw S → ℕ → Uuid
stamp d p =
    v7_layout p (d.bytes 4) (d.bytes 5) (d.bytes 6) (d.bytes 7) (d.bytes 8) (d.bytes 9) (d.bytes 10)

abbrev pub draw_seed : {S : Type 0} → Draw S → ℕ
draw_seed d = seed_of (d.bytes 1) (d.bytes 2) (d.bytes 3)

-- The module and the return code that an outcome of the stream calls for.
abbrev pub Answers : {S : Type 0} → Outcome → Stream → ℕ → Draw S → Module S × ℕ → Type 0
Answers aside s now d r =
    (r.1 ≡ 0) × (read_uuid r.0.memory 131072 ≡ stamp d (now * 2 ^ 20 + draw_seed d)) × Holds r.0 s
Answers full s now d r = (r.1 ≡ 6) × Holds r.0 s
Answers (granted f l) s now d r =
    (r.1 ≡ 0) × (read_uuid r.0.memory 131072 ≡ stamp d f) × Holds r.0 (last l)

-- What a call owes: the refusal of a late timestamp, that of a failed draw, or an outcome.
pub data Verdict : Type 0 where
  too_late undrawn : Verdict
  minted : Outcome → Verdict

abbrev pub verdict : {S : Type 0} → ℕ → Draw S → Stream → Verdict
verdict now d s =
    if ltb 253402300799999 now
    then too_late
    else if d.errno == 0
    then minted (Stream.reserve now 1 (draw_seed d) s)
    else undrawn

abbrev pub Returns : {S : Type 0} → Verdict → Stream → ℕ → Draw S → Module S × ℕ → Type 0
Returns too_late s now d r = (r.1 ≡ 2) × Holds r.0 s
Returns undrawn s now d r = (r.1 ≡ 1) × Holds r.0 s
Returns (minted o) s now d r = Answers o s now d r
