-- ===== src/Core/V5.antt =====
-- Version 5 of go/internal/core/core.go: `Xuuid_new_v5` and the SHA-1 over blocks that it calls,
-- `fn6`.
pub mod Swap
pub mod Block
pub mod Rounds
pub mod Refines
pub mod Absorbs
pub mod Call
pub mod Layout
pub mod Closing
pub mod Message
pub mod Opening
pub mod Length
pub mod Frame
pub mod Blocks
use hyper_uuid.Prelude.{ℕ, ◌+◌, ◌-◌, ◌*◌, ◌/◌, ◌%◌, ◌^◌, ◌==◌, ltb, if◌then◌else◌}
use hyper_uuid.Word.{◌and◌, ◌or◌, byte, u32, neg32, add32, sub32, shl64, shr}
use hyper_uuid.Memory.{Memory, load32, load64, store8, store32, store64, write_range}
use hyper_uuid.Core.Module.{Module}
use hyper_uuid.Core.V5.Swap.{swap32}
use hyper_uuid.Core.V5.Block.{fn6}

-- `memory_copy`: `copy` reads all of its source before it writes.
unfoldable pub memory_copy : Memory → ℕ → ℕ → ℕ → Memory
memory_copy mem dest src n = write_range mem dest n (λ i. mem (src + i))

-- The frame at v4: the namespace at + 96, zeros after it, and the initial hash value at + 8.
unfoldable pub open_frame : Memory → ℕ → ℕ → Memory
open_frame mem v4 v0 =
    let t1 = load64 mem (v0 + 8) in
    let mem = store64 mem (v4 + 104) t1 in
    let t2 = load64 mem v0 in
    let mem = store64 mem (v4 + 96) t2 in
    let mem = store64 mem (v4 + 112) 0 in
    let mem = store64 mem (v4 + 120) 0 in
    let mem = store64 mem (v4 + 128) 0 in
    let mem = store64 mem (v4 + 136) 0 in
    let mem = store64 mem (v4 + 144) 0 in
    let mem = store64 mem (v4 + 152) 0 in
    let t3 = load32 mem 65552 in
    let mem = store32 mem (v4 + 24) t3 in
    let t4 = load64 mem 65544 in
    let mem = store64 mem (v4 + 16) t4 in let t5 = load64 mem 65536 in store64 mem (v4 + 8) t5

-- The buffer at + 96 to + 32, and the compression of the copy: t8 to t15, and again t18 to t25.
unfoldable pub flush : Memory → ℕ → Memory
flush mem v4 =
    let mem = store64 mem (v4 + 88) (load64 mem (v4 + 152)) in
    let mem = store64 mem (v4 + 80) (load64 mem (v4 + 144)) in
    let mem = store64 mem (v4 + 72) (load64 mem (v4 + 136)) in
    let mem = store64 mem (v4 + 64) (load64 mem (v4 + 128)) in
    let mem = store64 mem (v4 + 56) (load64 mem (v4 + 120)) in
    let mem = store64 mem (v4 + 48) (load64 mem (v4 + 112)) in
    let mem = store64 mem (v4 + 40) (load64 mem (v4 + 104)) in
    let mem = store64 mem (v4 + 32) (load64 mem (v4 + 96)) in fn6 mem (add32 v4 8) (add32 v4 32) 1

-- The part of the name that fills the first block up.
unfoldable pub head_length : ℕ → ℕ
head_length v2 = if ltb v2 48 then v2 else 48

unfoldable pub copy_head : Memory → ℕ → ℕ → ℕ → Memory
copy_head mem v4 v5 v1 = if v1 == 0 then mem else memory_copy mem (add32 (add32 v4 96) 16) v5 v1

unfoldable pub clear_buffer : Memory → ℕ → Memory
clear_buffer mem v4 =
    let mem = store64 mem (v4 + 152) 0 in
    let mem = store64 mem (v4 + 144) 0 in
    let mem = store64 mem (v4 + 136) 0 in
    let mem = store64 mem (v4 + 128) 0 in
    let mem = store64 mem (v4 + 120) 0 in
    let mem = store64 mem (v4 + 112) 0 in
    let mem = store64 mem (v4 + 104) 0 in store64 mem (v4 + 96) 0

-- With the first block full: it, the whole blocks of the name in place, and the rest of the name
-- to the buffer.
unfoldable pub absorb_name : Memory → ℕ → ℕ → ℕ → Memory
absorb_name mem v4 v5 v1 =
    let mem = flush mem v4 in
    let mem = fn6 mem (add32 v4 8) v5 (shr v1 6) in
    let mem = clear_buffer mem v4 in
    let v0 = v1 and 63 in
    if v0 == 0 then mem else memory_copy mem (add32 v4 96) (add32 v5 (v1 and 0x7fffffc0)) v0

-- l1: the 0x80 after the message, and a block of its own for the length if it does not fit.
unfoldable pub close_message : Memory → ℕ → ℕ → Memory
close_message mem v4 v0 =
    let mem = store8 mem (add32 (add32 v4 96) v0) 128 in
    if ltb v0 56
    then mem
    else let mem = flush mem v4 in
      let mem = store64 mem (v4 + 96) 0 in
      let mem = store64 mem (v4 + 104) 0 in
      let mem = store64 mem (v4 + 112) 0 in
      let mem = store64 mem (v4 + 120) 0 in
      let mem = store64 mem (v4 + 128) 0 in
      let mem = store64 mem (v4 + 136) 0 in store64 mem (v4 + 144) 0

-- The count of bits, big-endian, from the count of bytes.
unfoldable pub bit_length : ℕ → ℕ
bit_length v6 =
    shr v6 5 and 0x7000000
    or (shl64 v6 59
        or shl64 v6 43 and 0xff000000000000
        or (shl64 v6 27 and 0xff0000000000 or shl64 v6 11 and 0xff00000000))

-- l2: the last block, and the first sixteen bytes of the hash with the version and the variant.
unfoldable pub put_v5 : Memory → ℕ → ℕ → Memory
put_v5 mem v4 v3 =
    let v1 = load32 mem (v4 + 12) in
    let v5 = load32 mem (v4 + 16) in
    let v2 = load32 mem (v4 + 8) in
    let v0 = load32 mem (v4 + 20) in
    let mem = store32 mem (v3 + 12) (swap32 v0) in
    let mem = store32 mem v3 (swap32 v2) in
    let mem = store32 mem (v3 + 8) (swap32 (v5 and 0x3fffffff or neg32 0x80000000)) in
    store32 mem (v3 + 4) (swap32 (v1 and neg32 61441 or 0x5000))

unfoldable pub close_block : Memory → ℕ → ℕ → Memory
close_block mem v4 v2 =
    let mem = store64 mem (v4 + 152) (bit_length (add32 v2 16)) in
    fn6 mem (add32 v4 8) (add32 v4 96) 1

-- The bytes in the buffer, and the memory, after all of the name but what stands in the buffer.
unfoldable pub take_name : Memory → ℕ → ℕ → ℕ → Memory
take_name mem v4 v5 v2 =
    let v1 = head_length v2 in
    let mem = copy_head mem v4 v5 v1 in
    let v0 = add32 v1 16 in if v0 == 64 then absorb_name mem v4 (add32 v5 v1) (sub32 v2 v1) else mem

unfoldable pub pending : ℕ → ℕ
pending v2 =
    let v1 = head_length v2 in let v0 = add32 v1 16 in if v0 == 64 then sub32 v2 v1 and 63 else v0

module _ {S : Type 0} where
  unfoldable pub uuid_new_v5 : Module S → ℕ → ℕ → ℕ → ℕ → Module S × ℕ
  uuid_new_v5 m v0 v1 v2 v3 =
      let v4 = sub32 m.g0 160 in
      let mem = open_frame m.memory v4 v0 in
      let v5 = if v2 == 0 then 1 else v1 in
      let mem = take_name mem v4 v5 v2 in
      let mem = close_message mem v4 (pending v2) in
      let mem = close_block mem v4 v2 in
      let mem = put_v5 mem v4 v3 in (record m { memory = mem; g0 = add32 v4 160 }, 0)
