-- ===== src/Api/Generate/Answers.antt =====
-- `NewV7At` of go/uuidgen.go and what the stream's rules and the draw call for.
use hyper_uuid.Prelude.{ℕ, ◌+◌, ◌*◌, ◌^◌, ◌≡◌, refl, ap, ◌∙◌, ◌==◌, if◌then◌else◌}
use hyper_uuid.Prelude.{Result, ok, err, timestamp_out_of_range, counter_exhausted, random_source}
use hyper_uuid.Uuid.{Uuid, read_uuid}
use hyper_uuid.Stream
use hyper_uuid.Stream.{Stream, Outcome, aside, full, granted}
use hyper_uuid.Core.Module.{Draw, Module, IsSource}
use hyper_uuid.Core.V7.Call.{uuid_new_v7-Returns, uuid_new_v7-size}
use hyper_uuid.Core.V7.Contract.{
  Holds, Verdict, too_late, undrawn, minted, verdict, Returns, stamp, draw_seed,
}
use hyper_uuid.Instance
use hyper_uuid.Instance.{Instance}
use hyper_uuid.Instance.Ready.{IsReady}
use hyper_uuid.Api.Inspect.Answers.{Gives}
use hyper_uuid.Api.Generate.{new_v7_at}

-- The result of a verdict, and the stream after it.
abbrev pub answer : {S : Type 0} → Verdict → ℕ → Draw S → Result Uuid
answer too_late now d = err timestamp_out_of_range
answer undrawn now d = err random_source
answer (minted aside) now d = ok (stamp d (now * 2 ^ 20 + draw_seed d))
answer (minted full) now d = err counter_exhausted
answer (minted (granted f l)) now d = ok (stamp d f)

abbrev pub left : Verdict → Stream → Stream
left too_late s = s
left undrawn s = s
left (minted o) s = Stream.after o s

module _ {S : Type 0} (fill : ℕ → S → Draw S) (ok_fill : IsSource fill) where
  -- `NewV7At` on what the core returned.
  abbrev from_core : Instance S → Module S × ℕ → Instance S × Result Uuid
  from_core self (m, rc) =
      let self = record self { m = m; scratch = 131072 } in
      if rc == 0
      then (self, ok (read_uuid m.memory 131072))
      else if rc == 2
      then (self, err timestamp_out_of_range)
      else if rc == 6
      then (self, err counter_exhausted)
      else (self, err random_source)

  from_core-IsReady :
      (self : Instance S) (s t : Stream)
      → IsReady self s
      → (m : Module S) → Holds m t
      → m.size ≡ self.m.size
      → IsReady (record self { m = m; scratch = 131072 }) t
  from_core-IsReady self s t ready m h e = record {
    holds = h;
    placed = refl;
    paged = ready.paged;
    sized = e ∙ ready.sized;
  }

  from_core-Gives :
      (self : Instance S) (s : Stream)
      → IsReady self s
      → (now : ℕ) (d : Draw S) (v : Verdict) (r : Module S × ℕ) → r.0.size ≡ self.m.size
      → Returns v s now d r
      → Gives (left v s) (from_core self r) (answer v now d)
  unfolding Stream.after
  from_core-Gives self s ready now d too_late r z h =
      rw h.0 (refl, from_core-IsReady self s s ready r.0 h.1 z)
  from_core-Gives self s ready now d undrawn r z h =
      rw h.0 (refl, from_core-IsReady self s s ready r.0 h.1 z)
  from_core-Gives self s ready now d (minted aside) r z h =
      rw h.0 (ap ok h.1, from_core-IsReady self s s ready r.0 h.2 z)
  from_core-Gives self s ready now d (minted full) r z h =
      rw h.0 (refl, from_core-IsReady self s s ready r.0 h.1 z)
  from_core-Gives self s ready now d (minted (granted f l)) r z h =
      rw h.0 (ap ok h.1, from_core-IsReady self s _ ready r.0 h.2 z)

  -- On a ready instance, with a source that keeps the contract of `source`, `NewV7At` returns on
  -- every branch what the specification calls for: an out-of-range error past 253402300799999, a
  -- random-source error for a failed draw, and otherwise the UUID stamped with the position that
  -- the stream grants, or with the call's own timestamp out of stream, or the exhaustion error;
  -- and it leaves the instance ready, holding the stream after that outcome.
  pub new_v7_at-Gives :
      (self : Instance S) (s : Stream)
      → IsReady self s
      → (now : ℕ)
      → Gives
          (left (verdict now (fill 11 self.m.src) s) s)
          (new_v7_at fill self now)
          (answer (verdict now (fill 11 self.m.src) s) now (fill 11 self.m.src))
  unfolding new_v7_at Instance.new_v7 Instance.result
  new_v7_at-Gives self s ready now = rw ready.placed (
      from_core-Gives self s ready now (fill 11 self.m.src) (verdict now (fill 11 self.m.src) s) _
        (uuid_new_v7-size fill ok_fill self.m s ready.holds now)
        (uuid_new_v7-Returns fill ok_fill self.m s ready.holds now))
