-- ===== src/Core/V7.antt =====
-- `Xuuid_new_v7` of go/internal/core/core.go.
pub mod Layout
pub mod Minting
pub mod Contract
pub mod Call
pub mod Batch
use hyper_uuid.Prelude.{◌^◌}
use hyper_uuid.Prelude.{ℕ, ◌+◌, ltb, ◌==◌, if◌then◌else◌}
use hyper_uuid.Word.{
  ◌and◌, ◌or◌, byte, u16, u32, neg32, add32, sub32, add64, shl32, shl64, shr, flag,
}
use hyper_uuid.Memory.{Memory, load16, load32, load64, store8, store16, store32, store64}
use hyper_uuid.Core.Module.{Draw, Module, fn0}
use hyper_uuid.Core.Stream.{Reserved, unreserved, refused, stuck, reserved, decide_one, reserve}

-- The stores from l8 on: the millisecond v4 and the counter v8 over the random bytes at v2 + 21, then
-- the copy to v1.
pub v7_stores : Memory → ℕ → ℕ → ℕ → ℕ → ℕ → Memory
v7_stores mem v2 v1 t14 v8 v4 =
    let mem = store8 mem (v2 + 21) (byte v4) in
    let mem = store8 mem (v2 + 17) (byte (shr v4 32)) in
    let mem = store8 mem (v2 + 16) (byte (shr v4 40)) in
    let mem = store8 mem (v2 + 25) (byte (t14 or v8)) in
    let mem = store8 mem (v2 + 23) (byte (shr v8 14)) in
    let mem = store8 mem (v2 + 20) (byte (shr v4 8)) in
    let mem = store8 mem (v2 + 19) (byte (shr v4 16)) in
    let v4 = shr v4 24 in
    let mem = store8 mem (v2 + 18) (byte v4) in
    let mem = store8 mem (v2 + 24) (byte (shr v8 8 and 63 or 128)) in
    let mem = store8 mem (v2 + 22) (byte (shr v8 22 and 15 or 112)) in
    let mem = store8 mem (v2 + 14) (byte v4) in
    let v8 = load16 mem (v2 + 16) in
    let mem = store16 mem (v2 + 12) (u16 v8) in
    let v4 = load64 mem (v2 + 19) in
    let v0 = load32 mem (v2 + 27) in
    let t21 = mem (add32 (add32 v2 16) 15) in
    let mem = store8 mem (add32 v1 15) (byte t21) in
    let mem = store32 mem (v1 + 11) (u32 v0) in
    let t22 = mem (v2 + 14) in
    let mem = store8 mem (v1 + 2) (byte t22) in
    let mem = store16 mem v1 (u16 v8) in store64 mem (v1 + 3) v4

-- From l8 on: the step v8 and the millisecond v9. A step past 20 bits stands for the first step of
-- the next millisecond.
pub v7_steps : Memory → ℕ → ℕ → ℕ → ℕ → ℕ → Memory
unfolding v7_stores
v7_steps mem v2 v1 v6 v8 v9 =
    let v5 = flag (ltb 0xfffff v8) in
    let v4 = add64 v9 v5 in
    let t14 = v6 and 63 in
    let v8 = shl32 v8 6 in
    v7_stores mem v2 v1 t14 (if v5 == 0 then v8 else add32 v8 (neg32 0x4000000)) v4

-- The 19-bit seed from the bytes 22, 23 and 24 of the frame.
pub v7_seed : Memory → ℕ → ℕ
v7_seed mem v2 =
    shr (shl64 (mem (v2 + 23)) 35 or shl64 (mem (v2 + 22)) 27 or shl64 (mem (v2 + 24)) 43) 32

-- The result of the reservation: the memory with the UUID at v1 and 0, or the return code 6. Out of
-- rounds it is a number that no int32 is.
pub v7_finish : Reserved → Memory → ℕ → ℕ → ℕ → ℕ → ℕ → Memory × ℕ
v7_finish unreserved mem v2 v1 v6 v5 v0 = (v7_steps mem v2 v1 v6 v5 v0, 0)
v7_finish refused mem v2 v1 v6 v5 v0 = (mem, 6)
v7_finish stuck mem v2 v1 v6 v5 v0 = (mem, 2 ^ 32)
v7_finish (reserved v8 v9 mem') mem v2 v1 v6 v5 v0 = (v7_steps mem' v2 v1 v6 v8 v9, 0)

-- From l1 on: the seed, the reservation and the UUID.
pub v7_reserved : Memory → ℕ → ℕ → ℕ → Memory × ℕ
v7_reserved mem v2 v0 v1 =
    let v4 = v7_seed mem v2 in
    let v5 = u32 v4 in
    let v6 = mem (v2 + 25) in
    let v7 = add64 (shl64 v0 20 or v4) 0x100000 in
    if ltb 0xffffffffffe v0
    then (v7_steps mem v2 v1 v6 v5 v0, 0)
    else v7_finish (reserve (decide_one v0 v5 v7) 1 mem (load64 mem 65560)) mem v2 v1 v6 v5 v0

module _ {S : Type 0} (fill : ℕ → S → Draw S) where
  unfoldable pub uuid_new_v7 : Module S → ℕ → ℕ → Module S × ℕ
  unfolding fn0
  uuid_new_v7 m v0 v1 =
      let v2 = sub32 m.g0 32 in
      if ltb 253402300799999 v0
      then (record m { g0 = add32 v2 32 }, 2)
      else (let mem = store64 (store64 m.memory (v2 + 24) 0) (v2 + 16) 0 in
          let (drawn, t1) = fn0 fill (record m { memory = mem; g0 = v2 }) (add32 v2 16 or 5) 11 in
          if t1 == 0
          then (let (mem', v3) = v7_reserved drawn.memory v2 v0 v1 in
              (record drawn { memory = mem'; g0 = add32 v2 32 }, v3))
          else (record drawn { g0 = add32 v2 32 }, 1))
