-- ===== src/Api/Batch/Answers.antt =====
-- What the batches of go/uuidgen.go return, on every branch.
use mathlib.Core.Path.{subst}
use hyper_uuid.Prelude.{
  ℕ, ◌+◌, ◌*◌, ◌^◌, ◌<◌, ◌≤◌, ◌≡◌, ◌≢◌, refl, sym, ◌∙◌, arith, ◌==◌, ltb, Bool, true, false,
  if◌then◌else◌, Option, some,
}
use hyper_uuid.Prelude.{ne→not-==, le→leb, le→not-ltb}
use hyper_uuid.Prelude.{
  Result, ok, err, timestamp_out_of_range, counter_exhausted, random_source, batch_too_large,
}
use hyper_uuid.Memory.{Memory}
use hyper_uuid.Uuid.{read_uuids}
use hyper_uuid.Stream
use hyper_uuid.Stream.{Stream, last, Outcome, aside, full, granted}
use hyper_uuid.Core.Module.{Draw, IsSource, Module}
use hyper_uuid.Core.V7.Batch.Call.{
  Verdict, too_late, empty, too_large, undrawn, minted, verdict, Returns, IsLeft, block, supply,
  uuid_new_v7_batch-Returns,
}
use hyper_uuid.Core.V7.Batch.Reserve.{steps_of, batch_seed_of}
use hyper_uuid.Core.V7.Batch.{uuid_new_v7_batch}
use hyper_uuid.Instance
use hyper_uuid.Instance.{Instance, ensure_scratch, batch_result}
use hyper_uuid.Instance.Ready.{IsReady}
use hyper_uuid.Instance.Scratch.{Provides, ensure_scratch-Provides, ensure_scratch-src}
use hyper_uuid.Api.Batch.{with_rc, err_batch}

-- What the destination holds after a verdict, and the error.
abbrev pub filling :
    {S A : Type 0} → ((ℕ → ℕ) → ℕ → A) → Verdict → ℕ → ℕ → Draw S → A → A × Result (Unit {0})
filling made too_late now n d dst = (dst, err timestamp_out_of_range)
filling made empty now n d dst = (dst, ok tt)
filling made too_large now n d dst = (dst, err batch_too_large)
filling made undrawn now n d dst = (dst, err random_source)
filling made (minted aside) now n d dst =
    (made d.bytes (now * 2 ^ 20 + batch_seed_of d.bytes n), ok tt)
filling made (minted full) now n d dst = (dst, err counter_exhausted)
filling made (minted (granted f l)) now n d dst = (made d.bytes f, ok tt)

-- The stream after a verdict.
abbrev pub left : Verdict → Stream → Stream
left too_late s = s
left empty s = s
left too_large s = s
left undrawn s = s
left (minted o) s = Stream.after o s

-- A call that does not panic: a ready instance, the destination and the error.
abbrev pub Yields :
    {S A : Type 0}
    → Stream
    → Option (Instance S × A × Result (Unit {0}))
    → A × Result (Unit {0})
    → Type 0
Yields {S} s r x = (self : Instance S) × (r ≡ some (self, x.0, x.1)) × IsReady self s

placed_Ready :
    {S : Type 0} (self : Instance S) (s : Stream)
    → IsReady self s
    → IsReady (record self { scratch = 131072 }) s
placed_Ready self s ready = record {
  holds = ready.holds;
  placed = refl;
  paged = ready.paged;
  sized = ready.sized;
}

left_Ready :
    {S : Type 0} (self : Instance S) (s t : Stream) (m : Module S) (d : Draw S)
    → IsReady self s
    → IsLeft d self.m m t
    → IsReady (record self { m = m; scratch = 131072 }) t
left_Ready self s t m d ready l = record {
  holds = l.holds;
  placed = refl;
  paged = ready.paged;
  sized = l.size ∙ ready.sized;
}

module _ {S A : Type 0} (fill : ℕ → S → Draw S) (copied : Memory → ℕ → ℕ → A)
    (made : (ℕ → ℕ) → ℕ → A) (n now : ℕ) (d : Draw S) (dst : A)
    (reads : (mem : Memory) (p : ℕ)
      → read_uuids mem 131072 n ≡ block d.bytes p n
      → copied mem 131072 n ≡ made d.bytes p) where
  from_core-Yields :
      (self : Instance S) (s : Stream)
      → IsReady self s
      → (v : Verdict) (r : Option (Module S × ℕ)) → v ≢ empty
      → Returns v s now n d self.m r
      → Yields
          (left v s)
          (with_rc fill (batch_result fill copied (record self { scratch = 131072 }) n dst r))
          (filling made v now n d dst)
  unfolding with_rc batch_result err_batch Stream.after
  from_core-Yields self s ready too_late r k h =
      rw h (record self { scratch = 131072 }, refl, placed_Ready self s ready)
  from_core-Yields self s ready empty r k h = absurd (k refl)
  from_core-Yields self s ready too_large r k h =
      rw h (record self { scratch = 131072 }, refl, placed_Ready self s ready)
  from_core-Yields self s ready undrawn r k (m, e, l) =
      rw e (_, refl, left_Ready self s s m d ready l)
  from_core-Yields self s ready (minted aside) r k (m, e, b, l) =
      rw e (_, rw (reads m.memory _ b) refl, left_Ready self s s m d ready l)
  from_core-Yields self s ready (minted full) r k (m, e, l) =
      rw e (_, refl, left_Ready self s s m d ready l)
  from_core-Yields self s ready (minted (granted f l)) r k (m, e, b, i) =
      rw e (_, rw (reads m.memory f b) refl, left_Ready self s (last l) m d ready i)

-- What a batch of n > 0 owes that is not too large.
abbrev pub mint_verdict : {S : Type 0} → ℕ → ℕ → Draw S → Stream → Verdict
mint_verdict now n d s =
    if ltb 253402300799999 now
    then too_late
    else if d.errno == 0
    then minted (Stream.reserve now (steps_of n) (batch_seed_of d.bytes n) s)
    else undrawn

pub mint_verdict-ne-empty :
    {S : Type 0} (now n : ℕ) (d : Draw S) (s : Stream) → mint_verdict now n d s ≢ empty
mint_verdict-ne-empty now n d s = ground arith

-- What a fill of n owes: an empty one is done before the timestamp is looked at.
abbrev pub fill_verdict : {S : Type 0} → ℕ → ℕ → Draw S → Stream → Verdict
fill_verdict now n d s =
    if ltb (2 ^ 26) n then too_large else if n == 0 then empty else mint_verdict now n d s

module _ {S A : Type 0} (fill : ℕ → S → Draw S) (ok_fill : IsSource fill)
    (copied : Memory → ℕ → ℕ → A) (made : (ℕ → ℕ) → ℕ → A) (dst : A) (now n : ℕ) (h0 : 0 < n)
    (hn : n ≤ 2 ^ 26)
    (reads : (noise : ℕ → ℕ) (mem : Memory) (p : ℕ)
      → read_uuids mem 131072 n ≡ block noise p n
      → copied mem 131072 n ≡ made noise p) where
  abbrev Mints : Instance S → Stream → S → Option (Instance S × A × Result (Unit {0})) → Type 0
  Mints self s src r =
      Yields (left (mint_verdict now n (supply fill n src) s) s) r
        (filling made (mint_verdict now n (supply fill n src) s) now n (supply fill n src) dst)

  core_verdict : (d : Draw S) (s : Stream) → verdict now n d s ≡ mint_verdict now n d s
  core_verdict d s = rw (ne→not-== n 0 (λ z. omega arith), le→not-ltb (2 ^ 26) n hn) refl

  core_Mints :
      (self : Instance S) (s : Stream)
      → IsReady self s
      → Mints self s self.m.src (
          with_rc fill (
            batch_result fill copied self n dst (uuid_new_v7_batch fill self.m now n self.scratch)))
  core_Mints self s ready =
      let d = supply fill n self.m.src in
      let here : self ≡ record self { scratch = 131072 } =
        λ i. record self { scratch = ready.placed i } in
      let owes = uuid_new_v7_batch-Returns fill ok_fill self.m s ready.holds now n in
      subst
        (λ x. Mints self s self.m.src (
          with_rc fill
            (batch_result fill copied x n dst (uuid_new_v7_batch fill x.m now n x.scratch))))
        (sym here)
        (from_core-Yields fill copied made n now d dst (reads d.bytes) self s ready
          (mint_verdict now n d s) (uuid_new_v7_batch fill self.m now n 131072)
          (mint_verdict-ne-empty now n d s)
          (subst (λ v. Returns v s now n d self.m (uuid_new_v7_batch fill self.m now n 131072))
            (core_verdict d s) owes))

  pub new_v7_batch-Mints :
      (self : Instance S) (s : Stream)
      → IsReady self s
      → Mints self s self.m.src (with_rc fill (Instance.new_v7_batch fill copied self now n dst))
  unfolding Instance.new_v7_batch
  new_v7_batch-Mints self s ready =
      let room = ensure_scratch-Provides self s ready (n * 16) in
      let fits : (ensure_scratch self (n * 16)).1 ≡ true =
        provided _ _ (le→leb (n * 16) 4294836224 (omega arith)) room.0 in
      let grown = (ensure_scratch self (n * 16)).0 in
      rw fits (
        subst
          (λ src. Mints self s src (
            with_rc fill (
              batch_result fill copied grown n dst
                (uuid_new_v7_batch fill grown.m now n grown.scratch))))
          (ensure_scratch-src self s ready (n * 16))
          (core_Mints (ensure_scratch self (n * 16)).0 s room.1))
    where
      provided :
          (b : Bool) (r : Instance S × Bool) → b ≡ true → Provides b self (n * 16) r → r.1 ≡ true
      provided true r e p = p.0
      provided false r e p = absurd (cc)
