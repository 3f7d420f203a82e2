-- ===== src/Core/V7/Batch.antt =====
-- `Xuuid_new_v7_batch` of go/internal/core/core.go. Where the code panics (`fn9`) the result is
-- `none`.
mod Words
mod Put
pub mod Loop
mod Backward
pub mod Draws
pub mod Reserve
pub mod Call
use hyper_uuid.Prelude.{ℕ, zero, suc, ◌+◌, ◌*◌, ◌/◌, ltb, leb, ◌==◌, if◌then◌else◌, true, false}
use hyper_uuid.Prelude.{Option, none, some}
use hyper_uuid.Word.{
  ◌and◌, ◌or◌, u32, u64, neg32, neg64, add32, sub32, add64, shl32, shl64, shr, flag,
}
use hyper_uuid.Memory.{Memory, load32, load64, store64}
use hyper_uuid.Core.Module.{Draw, Module, fn0}
use hyper_uuid.Core.Stream.{Reserved, unreserved, refused, stuck, reserved, decide_batch, reserve}

-- The loop l4: the module with all the bytes drawn, or after the draw that failed. `starved` is a
-- loop that has used up its rounds.
pub data Filling (S : Type 0) : Type 0 where
  filled failed : Module S → Filling S
  starved : Filling S

unfoldable pub batch_draw : {S : Type 0} → (ℕ → S → Draw S) → ℕ → Module S → ℕ → ℕ → Filling S
batch_draw fill zero m v2 v4 = starved
batch_draw fill (suc rounds) m v2 v4 = elim (v4 == 0) [
  | true ↦ filled m
  | false ↦
      let v7 = if ltb v4 65536 then v4 else 65536 in
      let v4 = sub32 v4 v7 in
      let (m', v8) = fn0 fill m v2 v7 in
      let v2 = add32 v2 v7 in
      elim (v8 == 0) [ true ↦ batch_draw fill rounds m' v2 v4 | false ↦ failed m' ]
]

-- The six bytes of a millisecond in the order of memory.
unfoldable pub batch_swap : ℕ → ℕ
batch_swap v0 =
    shr
      (shl64 v0 56
        or shl64 (v0 and 0xff00) 40
        or (shl64 (v0 and 0xff0000) 24 or shl64 (v0 and 0xff000000) 8)
        or (shr v0 8 and 0xff000000 or shr v0 24 and 0xff0000))
      16

-- The two words of a UUID: the last eight bytes of the eight random ones t15, the first eight of
-- the milliseconds v14 and of the counter v4.
unfoldable pub batch_low : ℕ → ℕ → ℕ
batch_low t15 v1 = shl64 t15 16 or (shl32 v1 8 or shr (v1 and 16128 or 0x8000) 8) and 65471

unfoldable pub batch_high : ℕ → ℕ → ℕ
batch_high v14 v4 = v14 or (shl64 (shr v4 22 and 15 or 112) 48 or shl64 (shr v4 14) 56)

-- From l13 on: the UUID with the number v7 goes to v17.
unfoldable pub batch_put : Memory → ℕ → ℕ → ℕ → ℕ → ℕ → ℕ → ℕ → Memory
batch_put mem v6 v2 v17 v14 v3 v1 v7 =
    let t15 = load64 mem (add32 v6 v2) in
    let v4 = shl32 v1 6 in
    let v4 = if v3 == 0 then v4 else add32 v4 (neg32 0x4000000) in
    let v1 = v4 or v7 and 63 in
    let mem = store64 mem (add32 v17 8) (batch_low t15 v1) in store64 mem v17 (batch_high v14 v4)

-- The variables that the loop l15 changes: v2 and v4 are where the random bytes and the UUID stand
-- in the buffer, v7 is the UUID's number, v10 the millisecond before and v14 its bytes.
pub record Writing : Type 0 where
  pub mem : Memory
  pub v2 : ℕ
  pub v4 : ℕ
  pub v7 : ℕ
  pub v10 : ℕ
  pub v14 : ℕ

-- One round.
unfoldable pub batch_round : ℕ → ℕ → ℕ → ℕ → Writing → Option Writing
batch_round v6 v5 v11 v12 w =
    if ltb v5 (add32 w.v2 8)
    then none
    else (let v1 = add32 (shr w.v7 6) v11 in
        let v3 = flag (ltb 0xfffff v1) in
        let v0 = add64 v12 v3 in
        let v14 = if v0 == w.v10 then w.v14 else batch_swap v0 in
        let v8 = sub32 w.v4 16 in
        if ltb v5 w.v4
        then none
        else if ltb w.v4 v8
        then none
        else some (record {
          mem = batch_put w.mem v6 w.v2 (add32 (sub32 v6 16) w.v4) v14 v3 v1 w.v7;
          v2 = sub32 w.v2 6;
          v4 = v8;
          v7 = sub32 w.v7 1;
          v10 = v0;
          v14 = v14;
        }))

-- The loop, from the last UUID to the first.
unfoldable pub batch_write : ℕ → ℕ → ℕ → ℕ → ℕ → Writing → Option Memory
batch_write zero v6 v5 v11 v12 w = none
batch_write (suc rounds) v6 v5 v11 v12 w = elim (batch_round v6 v5 v11 v12 w) [
  | none ↦ none
  | some w' ↦ elim (w'.v7 == neg32 1) [
    | true ↦ some w'.mem
    | false ↦ batch_write rounds v6 v5 v11 v12 w'
  ]
]

-- From l11 on: v11 and v12 are the first step and its millisecond.
unfoldable pub batch_fill : Memory → ℕ → ℕ → ℕ → ℕ → ℕ → Option Memory
batch_fill mem v6 v5 v1 v11 v12 = batch_write v1 v6 v5 v11 v12 (record {
  mem = mem;
  v2 = sub32 (u32 (v1 * 6)) 6;
  v4 = v5;
  v7 = sub32 v1 1;
  v10 = neg64 1;
  v14 = 0;
})

-- The seed: four random bytes scaled to what leaves room for v7 steps.
unfoldable pub batch_seed : ℕ → ℕ → ℕ
batch_seed t6 v7 =
    let v4 = sub32 0x100000 v7 in
    let v4 = if ltb 0x100000 v4 then 0 else v4 in
    let p8 = if ltb v4 0x7ffff then v4 else 0x7ffff in u32 (shr (u64 (t6 * add32 p8 1)) 32)

-- The result of the reservation: the return code 6, or the memory that is filled and 0.
unfoldable pub batch_finish : Reserved → Memory → ℕ → ℕ → ℕ → ℕ → ℕ → Option (Memory × ℕ)
batch_finish stuck mem v6 v5 v1 v4 v0 = none
batch_finish refused mem v6 v5 v1 v4 v0 = some (mem, 6)
batch_finish unreserved mem v6 v5 v1 v4 v0 = elim (batch_fill mem v6 v5 v1 v4 v0) [
  | none ↦ none
  | some mem' ↦ some (mem', 0)
]
batch_finish (reserved v11 v12 mem') mem v6 v5 v1 v4 v0 = elim (batch_fill mem' v6 v5 v1 v11 v12) [
  | none ↦ none
  | some mem'' ↦ some (mem'', 0)
]

-- From l3 on.
unfoldable pub batch_reserved : Memory → ℕ → ℕ → ℕ → ℕ → ℕ → Option (Memory × ℕ)
batch_reserved mem v0 v1 v3 v5 v6 =
    let v7 = shr (add32 v1 63) 6 in
    let v4 = batch_seed (load32 mem (add32 v6 v3)) v7 in
    if ltb 0xffffffffffe v0
    then batch_finish unreserved mem v6 v5 v1 v4 v0
    else (let v9 = add64 (shl64 v0 20 or add32 (add32 v7 v4) (neg32 1) and 0xfffff) 0x100000 in
        batch_finish (reserve (decide_batch v0 v7 v4 v9) 1 mem (load64 mem 65560)) mem v6 v5 v1 v4
          v0)

module _ {S : Type 0} (fill : ℕ → S → Draw S) where
  -- The rest of the call once the bytes are drawn or a draw has failed.
  unfoldable pub batch_drawn : Filling S → ℕ → ℕ → ℕ → ℕ → ℕ → Option (Module S × ℕ)
  batch_drawn starved v0 v1 v3 v5 v6 = none
  batch_drawn (failed m) v0 v1 v3 v5 v6 = some (m, 1)
  batch_drawn (filled m) v0 v1 v3 v5 v6 = elim (batch_reserved m.memory v0 v1 v3 v5 v6) [
    | none ↦ none
    | some (mem, rc) ↦ some (record m { memory = mem }, rc)
  ]

  -- The draw takes at most 65536 bytes a round, so one round more than the pages it fills is enough.
  unfoldable pub uuid_new_v7_batch : Module S → ℕ → ℕ → ℕ → Option (Module S × ℕ)
  uuid_new_v7_batch m v0 v1 v2 =
      if leb v0 253402300799999
      then (if v1 == 0
          then some (m, 0)
          else if leb v1 0x4000000
          then (let v3 = u32 (v1 * 6) in
              let v4 = add32 v3 4 in
              let v5 = shl32 v1 4 in
              let p1 = if v5 == 0 then 1 else v2 in
              let v6 = if ltb 0xfffffff v1 then 1 else p1 in
              batch_drawn (batch_draw fill (v4 / 65536 + 2) m v6 v4) v0 v1 v3 v5 v6)
          else some (m, 4))
      else some (m, 2)
