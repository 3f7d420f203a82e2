-- ===== src/Api/Generate/Random.antt =====
-- `NewV4` of go/uuidgen.go and what a draw calls for.
use hyper_uuid.Prelude.{ℕ, ◌≡◌, refl, ap, ◌∙◌, arith, Bool, true, false, ◌==◌, if◌then◌else◌}
use hyper_uuid.Prelude.{Result, ok, err, random_source}
use hyper_uuid.Uuid.{Uuid, IsRfcUuid, read_uuid}
use hyper_uuid.Stream.{Stream}
use hyper_uuid.Core.Module.{Draw, Module, IsSource}
use hyper_uuid.Core.V4.Call.{Drew, v4_layout, uuid_new_v4-Drew, uuid_new_v4-size}
use hyper_uuid.Instance
use hyper_uuid.Instance.{Instance}
use hyper_uuid.Instance.Ready.{IsReady}
use hyper_uuid.Api.Inspect.Answers.{Gives}
use hyper_uuid.Api.Generate.{new_v4}

-- The UUID of a draw of sixteen bytes, or the error of a failed one.
abbrev pub random_answer : {S : Type 0} → Bool → Draw S → Result Uuid
random_answer drew d = if drew then ok (v4_layout d.bytes) else err random_source

v4_layout-IsRfcUuid : (r : ℕ → ℕ) → IsRfcUuid 4 (v4_layout r)
v4_layout-IsRfcUuid r = omega arith

module _ {S : Type 0} (fill : ℕ → S → Draw S) (ok_fill : IsSource fill) (self : Instance S)
    (s : Stream) (ready : IsReady self s) where
  -- `NewV4` on what the core returned.
  abbrev from_core : Module S × ℕ → Instance S × Result Uuid
  from_core (m, rc) =
      let self = record self { m = m; scratch = 131072 } in
      if rc == 0 then (self, ok (read_uuid m.memory 131072)) else (self, err random_source)

  from_core-Gives :
      (drew : Bool) (d : Draw S) (r : Module S × ℕ)
      → r.0.size ≡ self.m.size
      → Drew drew s d r
      → Gives s (from_core r) (random_answer drew d)
  from_core-Gives true d r z h = rw h.0 (
    ap ok h.1,
    record { holds = h.2; placed = refl; paged = ready.paged; sized = z ∙ ready.sized },
  )
  from_core-Gives false d r z h =
      rw h.0
        (refl, record { holds = h.1; placed = refl; paged = ready.paged; sized = z ∙ ready.sized })

  -- On a ready instance, with a source that keeps its contract, `NewV4` returns the sixteen bytes
  -- of one draw with the version 4 and the RFC variant put in, which is an RFC 9562 version 4, or
  -- the random-source error where the draw fails; it leaves the instance ready and the stream as
  -- it is.
  pub new_v4-Gives :
      Gives s
        (new_v4 fill self)
        (random_answer ((fill 16 self.m.src).errno == 0) (fill 16 self.m.src))
      × IsRfcUuid 4 (v4_layout (fill 16 self.m.src).bytes)
  unfolding new_v4 Instance.new_v4 Instance.result
  new_v4-Gives = (
    rw ready.placed (
        from_core-Gives ((fill 16 self.m.src).errno == 0) (fill 16 self.m.src) _
          (uuid_new_v4-size fill ok_fill self.m s ready.holds)
          (uuid_new_v4-Drew fill ok_fill self.m s ready.holds)),
    v4_layout-IsRfcUuid (fill 16 self.m.src).bytes,
  )
