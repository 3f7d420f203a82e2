-- ===== src/Core/V7/Layout.antt =====
-- The bytes that `Xuuid_new_v7` writes.
use hyper_uuid.Prelude.{ℕ, ◌+◌, ◌-◌, ltb, ◌==◌, if◌then◌else◌, ◌*◌, ◌/◌, ◌%◌, ◌^◌, ◌<◌, ◌≡◌, arith}
use hyper_uuid.Bits.{and_mask, add_or}
use hyper_uuid.Word.{◌and◌, ◌or◌, byte, neg32, add32, add64, shl32, shr, flag}
use hyper_uuid.Memory.{Memory}
use hyper_uuid.Uuid.{SameBytes, read_uuid}
use hyper_uuid.Uuid.Layout.{v7_layout}
use hyper_uuid.Core.V7.{v7_stores, v7_steps}

-- The bytes of the counter word.
counter_low :
    (low step : ℕ) → step < 2 ^ 20 → byte (low and 63 or step * 64) ≡ step % 4 * 64 + low % 64
counter_low low step h =
    rw (and_mask 6 low, add_or 6 (low % 64) (step * 64) (omega arith) (omega arith)) (omega arith)

counter_variant : (step : ℕ) → byte (shr (step * 64) 8 and 63 or 128) ≡ 128 + step / 4 % 64
counter_variant step =
    rw
      (
        and_mask 6 (shr (step * 64) 8),
        add_or 7 (shr (step * 64) 8 % 64) 128 (omega arith) (omega arith),
      )
      (omega arith)

counter_version :
    (step : ℕ) → step < 2 ^ 20 → byte (shr (step * 64) 22 and 15 or 112) ≡ 112 + step / 2 ^ 16
counter_version step h =
    rw
      (
        and_mask 4 (shr (step * 64) 22),
        add_or 4 (shr (step * 64) 22 % 16) 112 (omega arith) (omega arith),
      )
      (omega arith)

-- The six bytes of the frame that are copied as they were drawn.
pub record IsDrawn (mem : Memory) : Type 0 where
  pub d0 : mem 65530 < 256
  pub d1 : mem 65531 < 256
  pub d2 : mem 65532 < 256
  pub d3 : mem 65533 < 256
  pub d4 : mem 65534 < 256
  pub d5 : mem 65535 < 256

module _ (mem : Memory) (low step ms : ℕ) (hs : step < 2 ^ 20) (hm : ms < 2 ^ 48)
    (d : IsDrawn mem) where
  v7_stores-layout :
      SameBytes (read_uuid (v7_stores mem 65504 131072 (low and 63) (step * 64) ms) 131072) (
        v7_layout
          (ms * 2 ^ 20 + step)
          low
          (mem 65530)
          (mem 65531)
          (mem 65532)
          (mem 65533)
          (mem 65534)
          (mem 65535))
  unfolding v7_stores
  v7_stores-layout = record {
    e0 = omega arith;
    e1 = omega arith;
    e2 = omega arith;
    e3 = omega arith;
    e4 = omega arith;
    e5 = omega arith;
    e6 = omega (arith, counter_version step hs);
    e7 = omega arith;
    e8 = omega (arith, counter_variant step);
    e9 = omega (arith, counter_low low step hs);
    e10 = omega arith;
    e11 = omega arith;
    e12 = omega arith;
    e13 = omega arith;
    e14 = omega arith;
    e15 = omega arith;
  }

-- A step past 20 bits carries into the millisecond.
carried :
    (v8 v9 : ℕ) → v8 < 2 ^ 21 → v9 < 2 ^ 48 → add64 v9 (flag (ltb 0xfffff v8)) ≡ v9 + v8 / 2 ^ 20
carried v8 v9 h8 h9 = ground arith

reduced :
    (v8 : ℕ)
    → v8 < 2 ^ 21
    → (if flag (ltb 0xfffff v8) == 0 then shl32 v8 6 else add32 (shl32 v8 6) (neg32 0x4000000))
      ≡ v8 % 2 ^ 20 * 64
reduced v8 h = ground arith

module _ (mem : Memory) (low v8 v9 : ℕ) (h8 : v8 < 2 ^ 21) (h9 : v9 < 2 ^ 48 - 1)
    (d : IsDrawn mem) where
  pub v7_steps-layout : SameBytes (read_uuid (v7_steps mem 65504 131072 low v8 v9) 131072) (
      v7_layout
        (v9 * 2 ^ 20 + v8)
        low
        (mem 65530)
        (mem 65531)
        (mem 65532)
        (mem 65533)
        (mem 65534)
        (mem 65535))
  unfolding v7_steps
  v7_steps-layout =
      let same : v9 * 2 ^ 20 + v8 ≡ (v9 + v8 / 2 ^ 20) * 2 ^ 20 + v8 % 2 ^ 20 = omega arith in
      rw (carried v8 v9 h8 (omega arith), reduced v8 h8, same)
        (v7_stores-layout mem low (v8 % 2 ^ 20) (v9 + v8 / 2 ^ 20) (omega arith) (omega arith) d)
