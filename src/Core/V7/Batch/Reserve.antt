-- ===== src/Core/V7/Batch/Reserve.antt =====
-- From l3 on: the seed and the reservation of the steps of a batch, and the UUIDs from there.
use hyper_uuid.Prelude.{
  ℕ, ◌+◌, ◌-◌, ◌*◌, ◌/◌, ◌%◌, ◌^◌, ◌<◌, ◌≤◌, ◌≡◌, refl, ap, ◌∙◌, arith, min, Option, some, lt→ltb,
  le→not-ltb, ltb, if◌then◌else◌,
}
use native.Mathlib.Decide.{dec_lt}
use hyper_uuid.Bits.{and_mask, and_field, or_add, xor_ones}
use hyper_uuid.Word.{◌and◌, ◌or◌, u32, neg32, add32, sub32, add64, shl64, shr}
use hyper_uuid.Memory.{Memory, load32, load64, store64}
use hyper_uuid.Stream
use hyper_uuid.Stream.{Stream, fresh, last, Outcome, aside, full, granted, encode, IsStream}
use hyper_uuid.Core.Stream.{
  Decision, out_of_stream, exhausted, install, unreserved, decide_batch, reserve,
}
use hyper_uuid.Core.Stream.Refines.{settle, decide_batch-reserve}
use hyper_uuid.Core.V7.Minting.{carry, reserve-carry, granted_parts}
use hyper_uuid.Core.V7.Batch.{batch_seed, batch_finish, batch_reserved}
use hyper_uuid.Core.V7.Batch.Put.{store64-above}
use hyper_uuid.Core.V7.Batch.Loop.{IsNoise, Wrote}
use hyper_uuid.Core.V7.Batch.Backward.{batch_fill-Wrote}

-- Four random bytes scaled to the steps of a millisecond that the batch leaves, 2^19 at most.
abbrev pub scaled : ℕ → ℕ → ℕ
scaled t6 steps = t6 * (min (2 ^ 20 - steps) 0x7ffff + 1) / 2 ^ 32

scale_lt : (t6 span : ℕ) → t6 < 2 ^ 32 → 0 < span → t6 * span / 2 ^ 32 < span
scale_lt t6 span h k = grind arith

pub scaled-fits :
    (t6 steps : ℕ)
    → t6 < 2 ^ 32
    → steps ≤ 2 ^ 20
    → (scaled t6 steps + steps ≤ 2 ^ 20) × (scaled t6 steps < 2 ^ 19)
scaled-fits t6 steps h k =
    omega (arith, scale_lt t6 (min (2 ^ 20 - steps) 0x7ffff + 1) h (omega arith))

pub batch_seed-scaled :
    (t6 steps : ℕ) → t6 < 2 ^ 32 → steps ≤ 2 ^ 20 → batch_seed t6 steps ≡ scaled t6 steps
unfolding batch_seed
batch_seed-scaled t6 steps h k =
    let room : sub32 0x100000 steps ≡ 2 ^ 20 - steps = omega arith in
    let span : add32 (if ltb (2 ^ 20 - steps) 0x7ffff then 2 ^ 20 - steps else 0x7ffff) 1
        ≡ min (2 ^ 20 - steps) 0x7ffff + 1 =
      ground arith in
    let product : t6 * (min (2 ^ 20 - steps) 0x7ffff + 1) < 2 ^ 64 = grind arith in
    rw (room, le→not-ltb 0x100000 (2 ^ 20 - steps) (omega arith), span)
      (omega (arith, scaled-fits t6 steps h k))

-- What a decision installs fits the loop that writes the batch and the stream's word.
abbrev Fits : Decision → Type 0
Fits out_of_stream = Unit {0}
Fits exhausted = Unit {0}
Fits (install v8 v9 v10) = (v8 ≤ 2 ^ 20) × (v9 < 2 ^ 48 - 1) × (2 ^ 20 ≤ v10) × (v10 < 2 ^ 64)

decide_batch-Fits :
    (now n seed : ℕ) (s : Stream)
    → now ≤ 2 ^ 44 - 2
    → 0 < n
    → seed + n ≤ 2 ^ 20
    → IsStream s
    → Fits (decide_batch now n seed ((now + 1) * 2 ^ 20 + (seed + n - 1)) (encode s))
unfolding decide_batch
decide_batch-Fits now n seed fresh h hn hs v = omega arith
decide_batch-Fits now n seed (last p) h hn hs v =
    rw
      (
        and_mask 20 (u32 (p + 2 ^ 20)),
        and_mask 20 (add32 n (u32 (p + 2 ^ 20))),
        xor_ones 20 (u32 (p + 2 ^ 20) % 2 ^ 20) (omega arith),
        and_field 20 44 (p + 2 ^ 20),
        or_add 20 ((p + 2 ^ 20) / 2 ^ 20 % 2 ^ 44 * 2 ^ 20) (add32 n (u32 (p + 2 ^ 20)) % 2 ^ 20)
            (omega arith) (omega arith),
      )
      (ground arith)

-- The UUIDs from a position on, and no change below the scratch.
abbrev Written : (ℕ → ℕ) → ℕ → ℕ → Memory → Option (Memory × ℕ) → Type 0
Written noise p n mem r = (mem' : Memory) × (r ≡ some (mem', 0)) × Wrote noise p (n - 1) mem mem'

-- What an outcome calls for.
abbrev pub Reports : (ℕ → ℕ) → Outcome → ℕ → ℕ → Memory → Option (Memory × ℕ) → Type 0
Reports noise aside aside_at n mem r = Written noise aside_at n mem r
Reports noise full aside_at n mem r = r ≡ some (mem, 6)
Reports noise (granted f l) aside_at n mem r = Written noise f n (store64 mem 65560 (l + 2 ^ 20)) r

module _ (noise : ℕ → ℕ) (n now seed : ℕ) (mem : Memory) (h0 : 0 < n) (hn : n ≤ 2 ^ 26)
    (hs : seed < 2 ^ 19) (ht : now < 2 ^ 48 - 1) (h : IsNoise noise (n - 1) mem) where
  finish_aside :
      Written noise
        (now * 2 ^ 20 + seed)
        n
        mem
        (batch_finish unreserved mem 131072 (16 * n) n seed now)
  unfolding batch_finish
  finish_aside =
      let rest = batch_fill-Wrote noise n seed now mem h0 hn (omega arith) ht h in
      (rest.0, rw (rest.1, batch_finish) refl, rest.2)

  finish_granted :
      (v8 v9 v10 : ℕ)
      → Fits (install v8 v9 v10)
      → Written noise
          (v9 * 2 ^ 20 + v8)
          n
          (store64 mem 65560 v10)
          (batch_finish (carry (install v8 v9 v10) mem) mem 131072 (16 * n) n seed now)
  unfolding batch_finish
  finish_granted v8 v9 v10 f =
      let kept : IsNoise noise (n - 1) (store64 mem 65560 v10) = record {
        loaded = λ i hi. store64-above mem 65560 v10 (131072 + i) (omega arith) ∙ h.loaded i hi;
        noise_lt = h.noise_lt;
      } in
      let rest = batch_fill-Wrote noise n v8 v9 (store64 mem 65560 v10) h0 hn f.0 f.1 kept in
      (rest.0, rw (rest.1, batch_finish) refl, rest.2)

  finish_Reports :
      (e : Decision) (o : Outcome)
      → settle e ≡ o
      → Fits e
      → Reports noise o
          (now * 2 ^ 20 + seed)
          n
          mem
          (batch_finish (carry e mem) mem 131072 (16 * n) n seed now)
  unfolding batch_finish
  finish_Reports out_of_stream aside e f = finish_aside
  finish_Reports exhausted full e f = refl
  finish_Reports (install v8 v9 v10) (granted a b) e f =
      let word : b + 2 ^ 20 ≡ v10 = omega (arith, (granted_parts e).1) in
      rw (word, ← (granted_parts e).0) (finish_granted v8 v9 v10 f)
  finish_Reports out_of_stream full e f = absurd (cc)
  finish_Reports out_of_stream (granted a b) e f = absurd (cc)
  finish_Reports exhausted aside e f = absurd (cc)
  finish_Reports exhausted (granted a b) e f = absurd (cc)
  finish_Reports (install v8 v9 v10) aside e f = absurd (cc)
  finish_Reports (install v8 v9 v10) full e f = absurd (cc)

-- The steps of a batch, and the seed from the four bytes behind those of its UUIDs.
abbrev pub steps_of : ℕ → ℕ
steps_of n = (n + 63) / 64

abbrev pub batch_seed_of : (ℕ → ℕ) → ℕ → ℕ
batch_seed_of noise n =
    scaled
      (noise (6 * n)
        + noise (6 * n + 1) * 2 ^ 8
        + (noise (6 * n + 2) + noise (6 * n + 3) * 2 ^ 8) * 2 ^ 16)
      (steps_of n)

-- The memory holds all the bytes of a batch of n.
pub record IsSupplied (noise : ℕ → ℕ) (n : ℕ) (mem : Memory) : Type 0 where
  pub loaded : (i : ℕ) → i < 6 * n + 4 → mem (131072 + i) ≡ noise i
  pub noise_lt : (i : ℕ) → noise i < 256

late_aside : (now n seed : ℕ) (t : Stream) → 2 ^ 44 - 2 < now → Stream.reserve now n seed t ≡ aside
unfolding Stream.reserve
late_aside now n seed fresh h = rw (lt→ltb (2 ^ 44 - 2) now h)
late_aside now n seed (last p) h = rw (lt→ltb (2 ^ 44 - 2) now h)

advance_word :
    (now last_step : ℕ)
    → now ≤ 2 ^ 44 - 2
    → last_step < 2 ^ 20
    → add64 (shl64 now 20 or last_step and 0xfffff) 0x100000 ≡ (now + 1) * 2 ^ 20 + last_step
advance_word now l h k =
    rw (and_mask 20 l, or_add 20 (shl64 now 20) (l % 2 ^ 20) (omega arith) (omega arith))
      (omega arith)

module _ (noise : ℕ → ℕ) (n now : ℕ) (mem : Memory) (s : Stream) (h0 : 0 < n) (hn : n ≤ 2 ^ 26)
    (ht : now < 2 ^ 48 - 1) (h : IsSupplied noise n mem) (v : IsStream s)
    (w : load64 mem 65560 ≡ encode s) where
  abbrev seed : ℕ
  seed = batch_seed_of noise n

  pub seed-fits : (seed + steps_of n ≤ 2 ^ 20) × (seed < 2 ^ 19)
  seed-fits =
      scaled-fits _ (steps_of n)
        (omega (
          arith,
          h.noise_lt (6 * n),
          h.noise_lt (6 * n + 1),
          h.noise_lt (6 * n + 2),
          h.noise_lt (6 * n + 3),
        ))
        (omega arith)

  seed_loaded : batch_seed (load32 mem (add32 131072 (6 * n))) (steps_of n) ≡ seed
  seed_loaded =
      let a = 131072 + 6 * n in
      let here : add32 131072 (6 * n) ≡ a = omega arith in
      let e1 : a + 1 ≡ 131072 + (6 * n + 1) = omega arith in
      let e2 : a + 2 ≡ 131072 + (6 * n + 2) = omega arith in
      let e3 : a + 2 + 1 ≡ 131072 + (6 * n + 3) = omega arith in
      let n0 : mem a ≡ noise (6 * n) = h.loaded (6 * n) (omega arith) in
      let n1 : mem (a + 1) ≡ noise (6 * n + 1) = ap mem e1 ∙ h.loaded (6 * n + 1) (omega arith) in
      let n2 : mem (a + 2) ≡ noise (6 * n + 2) = ap mem e2 ∙ h.loaded (6 * n + 2) (omega arith) in
      let n3 : mem (a + 2 + 1) ≡ noise (6 * n + 3) =
        ap mem e3 ∙ h.loaded (6 * n + 3) (omega arith) in
      rw (here, n0, n1, n2, n3)
        (batch_seed-scaled _ (steps_of n)
          (omega (
            arith,
            h.noise_lt (6 * n),
            h.noise_lt (6 * n + 1),
            h.noise_lt (6 * n + 2),
            h.noise_lt (6 * n + 3),
          ))
          (omega arith))

  before_last : IsNoise noise (n - 1) mem
  before_last = record {
    loaded = λ i hi. h.loaded i (omega arith);
    noise_lt = λ i hi. h.noise_lt i;
  }

  in_range :
      now ≤ 2 ^ 44 - 2
      → Reports noise (Stream.reserve now (steps_of n) seed s) (now * 2 ^ 20 + seed) n mem (
          batch_finish
            (reserve
              (decide_batch now (steps_of n) seed ((now + 1) * 2 ^ 20 + (seed + steps_of n - 1)))
              1
              mem
              (load64 mem 65560))
            mem
            131072
            (16 * n)
            n
            seed
            now)
  in_range early =
      rw (reserve-carry, w)
        (finish_Reports noise n now seed mem h0 hn seed-fits.1 ht before_last _ _
          (decide_batch-reserve now (steps_of n) seed s early (omega arith) seed-fits.0 v)
          (decide_batch-Fits now (steps_of n) seed s early (omega arith) seed-fits.0 v))

  pub batch_reserved-Reports :
      Reports noise
        (Stream.reserve now (steps_of n) seed s)
        (now * 2 ^ 20 + seed)
        n
        mem
        (batch_reserved mem now n (6 * n) (16 * n) 131072)
  unfolding batch_reserved
  batch_reserved-Reports =
      let fits = seed-fits in
      let steps : shr (add32 n 63) 6 ≡ steps_of n = omega arith in
      let last_step : add32 (add32 (steps_of n) seed) (neg32 1) ≡ seed + steps_of n - 1 =
        omega arith in
      rw (steps, seed_loaded, last_step)
        (elim (dec_lt (2 ^ 44 - 2) now) [
          | yes late ↦
              rw (lt→ltb (2 ^ 44 - 2) now late, late_aside now (steps_of n) seed s late)
                (finish_aside noise n now seed mem h0 hn fits.1 ht before_last)
          | no early ↦
              rw
                (
                  le→not-ltb (2 ^ 44 - 2) now (omega arith),
                  advance_word now (seed + steps_of n - 1) (omega arith) (omega arith),
                )
                (in_range (omega arith))
        ])
