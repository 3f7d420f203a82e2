-- ===== src/Core/V7/Batch/Call.antt =====
-- The whole call `Xuuid_new_v7_batch`, on every branch, with the scratch at its address.
use hyper_uuid.Prelude.{
  ℕ, ◌+◌, ◌-◌, ◌*◌, ◌/◌, ◌^◌, ◌<◌, ◌≤◌, ◌≡◌, refl, sym, ◌∙◌, arith, ltb, ◌==◌, if◌then◌else◌,
  Option, some, List, tabulate, tabulate-eq, Bool-cases, inl, inr,
}
use hyper_uuid.Prelude.{
  ==_iff, ne→not-==, not-==→ne, le→leb, lt→not-leb, le→not-ltb, ltb→lt, not-ltb→le,
}
use hyper_uuid.Word.{u32, add32, shl32}
use hyper_uuid.Memory.Ranges.{load32_same, load64_same}
use hyper_uuid.Memory.{Memory, store64}
use hyper_uuid.Uuid.{Uuid, read_uuids}
use hyper_uuid.Stream
use hyper_uuid.Stream.{Stream, last, Outcome, aside, full, granted, encode, IsStream}
use hyper_uuid.Stream.Laws.{after-IsStream}
use hyper_uuid.Core.Module.{Draw, IsSource, Module}
use hyper_uuid.Core.V7.Contract.{Holds}
use hyper_uuid.Core.V7.Batch.{
  Filling, filled, failed, starved, batch_draw, batch_drawn, batch_reserved, uuid_new_v7_batch,
}
use hyper_uuid.Core.V7.Batch.Draws.{draw_all, draw_all-bytes-lt, Fills, batch_draw-Fills}
use hyper_uuid.Core.V7.Batch.Loop.{block_uuid, Wrote}
use hyper_uuid.Core.V7.Batch.Reserve.{
  steps_of, batch_seed_of, Reports, IsSupplied, batch_reserved-Reports, seed-fits,
}

-- The n UUIDs of a batch from a position on.
abbrev pub block : (ℕ → ℕ) → ℕ → ℕ → List Uuid
block noise p n = tabulate (block_uuid noise p) n

-- The bytes that a batch of n takes from its source: six for each UUID, and four for the seed.
abbrev pub supply : {S : Type 0} → (ℕ → S → Draw S) → ℕ → S → Draw S
supply fill n s = draw_all fill ((6 * n + 4) / 65536 + 2) (6 * n + 4) s

-- What a call owes: one of the refusals, nothing for an empty batch, or an outcome of the stream.
pub data Verdict : Type 0 where
  too_late empty too_large undrawn : Verdict
  minted : Outcome → Verdict

abbrev pub verdict : {S : Type 0} → ℕ → ℕ → Draw S → Stream → Verdict
verdict now n d s =
    if ltb 253402300799999 now
    then too_late
    else if n == 0
    then empty
    else if ltb (2 ^ 26) n
    then too_large
    else if d.errno == 0
    then minted (Stream.reserve now (steps_of n) (batch_seed_of d.bytes n) s)
    else undrawn

-- The module after the draw, with the stream t.
pub record IsLeft {S : Type 0} (d : Draw S) (m m' : Module S) (t : Stream) : Type 0 where
  pub holds : Holds m' t
  pub size : m'.size ≡ m.size
  pub src : m'.src ≡ d.next

-- The return code 0, with the batch from the position p on at the scratch.
abbrev pub Batched :
    {S : Type 0} → ℕ → ℕ → Draw S → Module S → Stream → Option (Module S × ℕ) → Type 0
Batched {S} p n d m t r =
    (m' : Module S) × (r ≡ some (m', 0))
    × (read_uuids m'.memory 131072 n ≡ block d.bytes p n)
    × IsLeft d m m' t

-- Another return code.
abbrev pub Refused : {S : Type 0} → ℕ → Draw S → Module S → Stream → Option (Module S × ℕ) → Type 0
Refused {S} rc d m t r = (m' : Module S) × (r ≡ some (m', rc)) × IsLeft d m m' t

abbrev pub Returns :
    {S : Type 0} → Verdict → Stream → ℕ → ℕ → Draw S → Module S → Option (Module S × ℕ) → Type 0
Returns too_late s now n d m r = r ≡ some (m, 2)
Returns empty s now n d m r = r ≡ some (m, 0)
Returns too_large s now n d m r = r ≡ some (m, 4)
Returns undrawn s now n d m r = Refused 1 d m s r
Returns (minted aside) s now n d m r = Batched (now * 2 ^ 20 + batch_seed_of d.bytes n) n d m s r
Returns (minted full) s now n d m r = Refused 6 d m s r
Returns (minted (granted f l)) s now n d m r = Batched f n d m (last l) r

-- What lies below the scratch keeps the stream.
kept_Holds :
    {S : Type 0} (m m' : Module S) (s : Stream)
    → Holds m s
    → m'.g0 ≡ m.g0
    → ((a : ℕ) → a < 131072 → m'.memory a ≡ m.memory a)
    → Holds m' s
kept_Holds m m' s h g0 below = record {
  stack = g0 ∙ h.stack;
  word = omega (
    arith,
    h.word,
    below 65560 (omega arith),
    below 65561 (omega arith),
    below 65562 (omega arith),
    below 65563 (omega arith),
    below 65564 (omega arith),
    below 65565 (omega arith),
    below 65566 (omega arith),
    below 65567 (omega arith),
  );
  valid = h.valid;
  t0 = below 65556 (omega arith) ∙ h.t0;
  t1 = below 65557 (omega arith) ∙ h.t1;
  t2 = below 65558 (omega arith) ∙ h.t2;
  hash_ab = load64_same m.memory m'.memory 65536 (λ b l u. below b (omega (arith, u))) ∙ h.hash_ab;
  hash_cd = load64_same m.memory m'.memory 65544 (λ b l u. below b (omega (arith, u))) ∙ h.hash_cd;
  hash_e = load32_same m.memory m'.memory 65552 (λ b l u. below b (omega (arith, u))) ∙ h.hash_e;
}

stored_Holds :
    {S : Type 0} (m : Module S) (s : Stream) (l : ℕ)
    → Holds m s
    → IsStream (last l)
    → Holds (record m { memory = store64 m.memory 65560 (l + 2 ^ 20) }) (last l)
stored_Holds m s l h v = record {
  stack = h.stack;
  word = omega arith;
  valid = v;
  t0 = h.t0;
  t1 = h.t1;
  t2 = h.t2;
  hash_ab = h.hash_ab;
  hash_cd = h.hash_cd;
  hash_e = h.hash_e;
}

Wrote-block :
    (noise : ℕ → ℕ) (p n : ℕ) (mem mem' : Memory)
    → Wrote noise p (n - 1) mem mem'
    → read_uuids mem' 131072 n ≡ block noise p n
Wrote-block noise p n mem mem' w = tabulate-eq _ _ n (λ k hk. w.placed k (omega arith))

module _ {S : Type 0} (fill : ℕ → S → Draw S) (d : Draw S) (m m1 : Module S) (s : Stream)
    (n now : ℕ) (h : Holds m1 s) (size : m1.size ≡ m.size) (src : m1.src ≡ d.next) where
  abbrev rest_of : Option (Module S × ℕ)
  rest_of = batch_drawn fill (filled m1) now n (6 * n) (16 * n) 131072

  batched :
      (p : ℕ) (t : Stream) (m2 : Module S)
      → Holds m2 t
      → m2.g0 ≡ m1.g0
      → (mem' : Memory) × (batch_reserved m1.memory now n (6 * n) (16 * n) 131072 ≡ some (mem', 0))
        × Wrote d.bytes p (n - 1) m2.memory mem'
      → Batched p n d m t rest_of
  unfolding batch_drawn
  batched p t m2 h2 g (mem', e, w) = (
    record m1 { memory = mem' },
    rw (e, batch_drawn) refl,
    Wrote-block d.bytes p n m2.memory mem' w,
    record {
      holds = kept_Holds m2 (record m1 { memory = mem' }) t h2 (sym g) w.below;
      size = size;
      src = src;
    },
  )

  reported :
      (o : Outcome)
      → IsStream (Stream.after o s)
      → Reports d.bytes o
          (now * 2 ^ 20 + batch_seed_of d.bytes n)
          n
          m1.memory
          (batch_reserved m1.memory now n (6 * n) (16 * n) 131072)
      → Returns (minted o) s now n d m rest_of
  unfolding batch_drawn Stream.after
  reported aside v r = batched (now * 2 ^ 20 + batch_seed_of d.bytes n) s m1 h refl r
  reported full v r = (m1, rw (r, batch_drawn) refl, record { holds = h; size = size; src = src })
  reported (granted f l) v r =
      batched f (last l) (record m1 { memory = store64 m1.memory 65560 (l + 2 ^ 20) })
        (stored_Holds m1 s l h v) refl r

module _ {S : Type 0} (fill : ℕ → S → Draw S) (ok : IsSource fill) (m : Module S) (s : Stream)
    (h : Holds m s) (now n : ℕ) where
  abbrev d : Draw S
  d = supply fill n m.src

  drawn_Returns :
      now ≤ 253402300799999
      → 0 < n
      → n ≤ 2 ^ 26
      → (r : Filling S) → Fills r d m 131072 (6 * n + 4)
      → Returns
          (if d.errno == 0
            then minted (Stream.reserve now (steps_of n) (batch_seed_of d.bytes n) s)
            else undrawn)
          s
          now
          n
          d
          m
          (batch_drawn fill r now n (6 * n) (16 * n) 131072)
  unfolding batch_drawn
  drawn_Returns early h0 hn (failed m1) f =
      rw (ne→not-== d.errno 0 f.errno)
        (m1, refl, record { holds = kept_Holds m m1 s h f.g0 f.below; size = f.size; src = f.src })
  drawn_Returns early h0 hn (filled m1) f =
      let h1 = kept_Holds m m1 s h f.g0 f.below in
      let supplied : IsSupplied d.bytes n m1.memory = record {
        loaded = f.placed;
        noise_lt = draw_all-bytes-lt fill ok _ (6 * n + 4) m.src;
      } in
      let fits =
        seed-fits d.bytes n now m1.memory s h0 hn (omega arith) supplied h1.valid h1.word in
      rw ((==_iff d.errno 0).1 f.errno) (
        reported fill d m m1 s n now h1 f.size f.src
          (Stream.reserve now (steps_of n) (batch_seed_of d.bytes n) s)
          (after-IsStream now (steps_of n) (batch_seed_of d.bytes n) s h1.valid (omega arith)
            fits.0)
          (batch_reserved-Reports d.bytes n now m1.memory s h0 hn (omega arith) supplied h1.valid
            h1.word))
  drawn_Returns early h0 hn starved f = elim f [ ]

  mints :
      now ≤ 253402300799999
      → 0 < n
      → n ≤ 2 ^ 26
      → Returns
          (if d.errno == 0
            then minted (Stream.reserve now (steps_of n) (batch_seed_of d.bytes n) s)
            else undrawn)
          s
          now
          n
          d
          m
          (uuid_new_v7_batch fill m now n 131072)
  unfolding uuid_new_v7_batch
  mints early h0 hn =
      let six : u32 (n * 6) ≡ 6 * n = omega arith in
      let four : add32 (6 * n) 4 ≡ 6 * n + 4 = omega arith in
      let sixteen : shl32 n 4 ≡ 16 * n = omega arith in
      let rounds = (6 * n + 4) / 65536 + 2 in
      rw
        (
          le→leb now 253402300799999 early,
          ne→not-== n 0 (λ z. omega arith),
          le→leb n 0x4000000 hn,
          six,
          four,
          sixteen,
          ne→not-== (16 * n) 0 (λ z. omega arith),
          le→not-ltb 0xfffffff n (omega arith),
        )
        (drawn_Returns early h0 hn (batch_draw fill rounds m 131072 (6 * n + 4))
          (batch_draw-Fills fill ok rounds m 131072 (6 * n + 4) (omega arith) (omega arith)))

  refuses_late : 253402300799999 < now → uuid_new_v7_batch fill m now n 131072 ≡ some (m, 2)
  unfolding uuid_new_v7_batch
  refuses_late late = rw (lt→not-leb now 253402300799999 late) refl

  refuses_empty :
      now ≤ 253402300799999 → n ≡ 0 → uuid_new_v7_batch fill m now n 131072 ≡ some (m, 0)
  unfolding uuid_new_v7_batch
  refuses_empty early e = rw (le→leb now 253402300799999 early, (==_iff n 0).1 e) refl

  refuses_large :
      now ≤ 253402300799999 → 2 ^ 26 < n → uuid_new_v7_batch fill m now n 131072 ≡ some (m, 4)
  unfolding uuid_new_v7_batch
  refuses_large early large =
      rw
        (
          le→leb now 253402300799999 early,
          ne→not-== n 0 (λ z. omega arith),
          lt→not-leb n 0x4000000 large,
        )
        refl

  pub uuid_new_v7_batch-Returns :
      Returns (verdict now n d s) s now n d m (uuid_new_v7_batch fill m now n 131072)
  uuid_new_v7_batch-Returns = elim (Bool-cases (ltb 253402300799999 now)) [
    | inl l ↦ rw l (refuses_late (ltb→lt _ now l))
    | inr early ↦
        let t : now ≤ 253402300799999 = not-ltb→le 253402300799999 now early in
        elim (Bool-cases (n == 0)) [
          | inl e ↦ rw (early, e) (refuses_empty t ((==_iff n 0).0 e))
          | inr k ↦ elim (Bool-cases (ltb (2 ^ 26) n)) [
            | inl l ↦ rw (early, k, l) (refuses_large t (ltb→lt (2 ^ 26) n l))
            | inr g ↦
                rw (early, k, g)
                  (mints t (omega (arith, not-==→ne n 0 k)) (not-ltb→le (2 ^ 26) n g))
          ]
        ]
  ]
