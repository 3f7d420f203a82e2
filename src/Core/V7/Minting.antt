-- ===== src/Core/V7/Minting.antt =====
-- `Xuuid_new_v7` from the draw on: the seed, the reservation, the stamp and the new word.
use hyper_uuid.Prelude.{ℕ, suc, ◌+◌, ◌-◌, ◌*◌, ◌/◌, ◌^◌, ◌<◌, ◌≤◌, ◌≡◌, refl, arith}
use hyper_uuid.Prelude.{==-refl, lt→ltb, le→not-ltb}
use native.Mathlib.Decide.{dec_lt}
use hyper_uuid.Bits.{or_byte, or_add}
use hyper_uuid.Word.{◌or◌, u32, add64, shl64, shr}
use hyper_uuid.Memory.{Memory, load32, load64, store64}
use hyper_uuid.Uuid.{SameBytes-eq, read_uuid}
use hyper_uuid.Uuid.Layout.{v7_layout}
use hyper_uuid.Stream
use hyper_uuid.Stream.{Stream, fresh, last, Outcome, aside, full, granted, encode, IsStream}
use hyper_uuid.Core.Stream.{
  Decision, out_of_stream, exhausted, install, Reserved, unreserved, refused, reserved, reserve,
  decide_one,
}
use hyper_uuid.Core.Stream.Refines.{settle, Fits, decide_one-reserve, decide_one-Fits}
use hyper_uuid.Core.V7.{v7_steps, v7_seed, v7_reserved, v7_finish}
use hyper_uuid.Core.V7.Layout.{IsDrawn, v7_steps-layout}

-- The seed is 19 of the random bits.
abbrev pub seed_of : ℕ → ℕ → ℕ → ℕ
seed_of r1 r2 r3 = r3 * 2 ^ 11 + r2 * 2 ^ 3 + r1 / 2 ^ 5

seed_sum :
    (r1 r2 r3 : ℕ)
    → r1 < 256
    → r2 < 256
    → r3 < 256
    → shr (shl64 r2 35 or shl64 r1 27 or shl64 r3 43) 32 ≡ seed_of r1 r2 r3
seed_sum r1 r2 r3 h1 h2 h3 =
    let A = shl64 r2 35 in
    let B = shl64 r1 27 in
    rw
      (
        or_byte 27 A B r1 (omega arith) (omega arith) h1,
        or_byte 43 (A + B) (shl64 r3 43) r3 (omega arith) (omega arith) h3,
      )
      (omega arith)

first_word :
    (now seed : ℕ)
    → now ≤ 2 ^ 44 - 2
    → seed < 2 ^ 19
    → add64 (shl64 now 20 or seed) 0x100000 ≡ (now + 1) * 2 ^ 20 + seed
first_word now seed h hs =
    rw (or_add 20 (shl64 now 20) seed (omega arith) (omega arith)) (omega arith)

-- One round of the loop is enough, since nothing changes the word between the two reads: the memory
-- holds the decision's word.
abbrev pub carry : Decision → Memory → Reserved
carry out_of_stream mem = unreserved
carry exhausted mem = refused
carry (install v8 v9 v10) mem = reserved v8 v9 (store64 mem 65560 v10)

carry_step :
    (d : Decision) (decide : ℕ → Decision) (rounds : ℕ) (mem : Memory)
    → decide (load64 mem 65560) ≡ d
    → reserve decide (suc rounds) mem (load64 mem 65560) ≡ carry d mem
unfolding reserve
carry_step out_of_stream decide rounds mem e = rw (e, reserve) refl
carry_step exhausted decide rounds mem e = rw (e, reserve) refl
carry_step (install v8 v9 v10) decide rounds mem e =
    rw (e, reserve) (rw (==-refl (load64 mem 65560)) (rw (==-refl (load64 mem 65560)) refl))

-- With at least one round of fuel the reservation loop ends, on the word that the memory holds:
-- it does what the decision on that word says, and stores the new word where it installs one.
pub reserve-carry :
    (decide : ℕ → Decision) (rounds : ℕ) (mem : Memory)
    → reserve decide (suc rounds) mem (load64 mem 65560) ≡ carry (decide (load64 mem 65560)) mem
reserve-carry decide rounds mem = carry_step (decide (load64 mem 65560)) decide rounds mem refl

-- What a call leaves alone besides the stream: the table of variants.
pub record SameTable (mem mem' : Memory) : Type 0 where
  pub t0 : mem' 65556 ≡ mem 65556
  pub t1 : mem' 65557 ≡ mem 65557
  pub t2 : mem' 65558 ≡ mem 65558
  pub hash_ab : load64 mem' 65536 ≡ load64 mem 65536
  pub hash_cd : load64 mem' 65544 ≡ load64 mem 65544
  pub hash_e : load32 mem' 65552 ≡ load32 mem 65552

-- The UUID at the scratch address, stamped with a position and the random bytes of the frame.
abbrev pub Stamped : Memory → Memory → ℕ → Type 0
Stamped mem mem' p =
    read_uuid mem' 131072
    ≡ v7_layout p (mem 65529) (mem 65530) (mem 65531) (mem 65532) (mem 65533) (mem 65534)
        (mem 65535)

-- The memory and the return code that an outcome of the stream calls for; `aside_at` is the position
-- of a call that is minted at its own timestamp.
abbrev pub Reports : Outcome → Stream → ℕ → Memory → Memory × ℕ → Type 0
Reports aside s aside_at mem r =
    (r.1 ≡ 0) × Stamped mem r.0 aside_at × (load64 r.0 65560 ≡ encode s) × SameTable mem r.0
Reports full s aside_at mem r = (r.1 ≡ 6) × (load64 r.0 65560 ≡ encode s) × SameTable mem r.0
Reports (granted f l) s aside_at mem r =
    (r.1 ≡ 0) × Stamped mem r.0 f × (load64 r.0 65560 ≡ encode (last l)) × SameTable mem r.0

pub granted_parts : {a b c d : ℕ} → granted a b ≡ granted c d → (a ≡ c) × (b ≡ d)
granted_parts h = (cc, cc)

IsDrawn-store64 : {mem : Memory} (v : ℕ) → IsDrawn mem → IsDrawn (store64 mem 65560 v)
IsDrawn-store64 v d = record { d0 = d.d0; d1 = d.d1; d2 = d.d2; d3 = d.d3; d4 = d.d4; d5 = d.d5 }

module _ (s : Stream) (mem : Memory) (seed now : ℕ) (hs : seed < 2 ^ 19) (hn : now < 2 ^ 48 - 1)
    (d : IsDrawn mem) (w : load64 mem 65560 ≡ encode s) where
  aside_Reports :
      Reports aside s (now * 2 ^ 20 + seed) mem (v7_steps mem 65504 131072 (mem 65529) seed now, 0)
  unfolding v7_steps
  aside_Reports = (
    refl,
    SameBytes-eq (v7_steps-layout mem (mem 65529) seed now (omega arith) hn d),
    w,
    record { t0 = refl; t1 = refl; t2 = refl; hash_ab = refl; hash_cd = refl; hash_e = refl },
  )

  finish_Reports :
      (e : Decision) (o : Outcome)
      → settle e ≡ o
      → Fits e
      → Reports o s
          (now * 2 ^ 20 + seed)
          mem
          (v7_finish (carry e mem) mem 65504 131072 (mem 65529) seed now)
  unfolding v7_finish v7_steps
  finish_Reports out_of_stream aside h f = aside_Reports
  finish_Reports exhausted full h f = (
    refl,
    w,
    record { t0 = refl; t1 = refl; t2 = refl; hash_ab = refl; hash_cd = refl; hash_e = refl },
  )
  finish_Reports (install v8 v9 v10) (granted a b) h f = (
    refl,
    rw (← (granted_parts h).0) (
        SameBytes-eq (
          v7_steps-layout (store64 mem 65560 v10) (mem 65529) v8 v9 f.0 f.1
            (IsDrawn-store64 v10 d))),
    omega (arith, (granted_parts h).1),
    record { t0 = refl; t1 = refl; t2 = refl; hash_ab = refl; hash_cd = refl; hash_e = refl },
  )
  finish_Reports out_of_stream full h f = absurd (cc)
  finish_Reports out_of_stream (granted a b) h f = absurd (cc)
  finish_Reports exhausted aside h f = absurd (cc)
  finish_Reports exhausted (granted a b) h f = absurd (cc)
  finish_Reports (install v8 v9 v10) aside h f = absurd (cc)
  finish_Reports (install v8 v9 v10) full h f = absurd (cc)

-- The three bytes of the frame that the seed is taken from.
pub record IsSeeded (mem : Memory) : Type 0 where
  pub r1 : mem 65526 < 256
  pub r2 : mem 65527 < 256
  pub r3 : mem 65528 < 256

abbrev pub frame_seed : Memory → ℕ
frame_seed mem = seed_of (mem 65526) (mem 65527) (mem 65528)

module _ (s : Stream) (mem : Memory) (now : ℕ) (v : IsStream s) (hn : now < 2 ^ 48 - 1)
    (r : IsSeeded mem) (d : IsDrawn mem) (w : load64 mem 65560 ≡ encode s) where
  frame_seed-lt : frame_seed mem < 2 ^ 19
  frame_seed-lt = omega arith

  late_aside : (t : Stream) → 2 ^ 44 - 2 < now → Stream.reserve now 1 (frame_seed mem) t ≡ aside
  unfolding Stream.reserve
  late_aside fresh h = rw (lt→ltb (2 ^ 44 - 2) now h)
  late_aside (last p) h = rw (lt→ltb (2 ^ 44 - 2) now h)

  in_range :
      now ≤ 2 ^ 44 - 2
      → Reports (Stream.reserve now 1 (frame_seed mem) s) s (now * 2 ^ 20 + frame_seed mem) mem (
          v7_finish
            (reserve
              (decide_one now (frame_seed mem) ((now + 1) * 2 ^ 20 + frame_seed mem))
              1
              mem
              (load64 mem 65560))
            mem
            65504
            131072
            (mem 65529)
            (frame_seed mem)
            now)
  in_range h =
      rw (reserve-carry, w)
        (finish_Reports s mem (frame_seed mem) now frame_seed-lt hn d w _ _
          (decide_one-reserve now (frame_seed mem) s h frame_seed-lt v)
          (decide_one-Fits now (frame_seed mem) s h frame_seed-lt v))

  pub v7_reserved-Reports :
      Reports
        (Stream.reserve now 1 (frame_seed mem) s)
        s
        (now * 2 ^ 20 + frame_seed mem)
        mem
        (v7_reserved mem 65504 now 131072)
  unfolding v7_reserved v7_seed
  v7_reserved-Reports =
      let small : u32 (frame_seed mem) ≡ frame_seed mem = omega arith in
      rw (seed_sum (mem 65526) (mem 65527) (mem 65528) r.r1 r.r2 r.r3, small)
        (elim (dec_lt (2 ^ 44 - 2) now) [
          | yes h ↦
              rw (lt→ltb (2 ^ 44 - 2) now h, late_aside s h)
                (aside_Reports s mem (frame_seed mem) now frame_seed-lt hn d w)
          | no h ↦
              rw
                (
                  le→not-ltb (2 ^ 44 - 2) now (omega arith),
                  first_word now (frame_seed mem) (omega arith) frame_seed-lt,
                )
                (in_range (omega arith))
        ])
