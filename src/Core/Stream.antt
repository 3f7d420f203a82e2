-- ===== src/Core/Stream.antt =====
-- The reservation of the version 7 stream in go/internal/core/core.go: the loops l7 of
-- `Xuuid_new_v7` and l10 of `Xuuid_new_v7_batch` over the 64-bit word at address 65560. The word is
-- 0 before the first reservation, and then holds the stream's millisecond plus one over 20 bits of
-- the last step reserved in it.
pub mod Refines
use hyper_uuid.Prelude.{ℕ, zero, suc, ◌+◌, ltb, leb, ◌==◌, if◌then◌else◌, true, false}
use hyper_uuid.Word.{◌and◌, ◌or◌, u32, neg64, add32, add64, sub64, shl64, shr, ◌xor◌}
use hyper_uuid.Memory.{Memory, load64, store64}

-- Where one round of the loop goes: to l2 (out of the stream), to l5 (return 6), or to l3 with the
-- first step (v8), the millisecond (v9) and the new word (v10).
pub data Decision : Type 0 where
  out_of_stream exhausted : Decision
  install : ℕ → ℕ → ℕ → Decision

-- One call of `Xuuid_new_v7`: v5 is the seed, v7 the word that an advance installs, v11 the word.
unfoldable pub decide_one : ℕ → ℕ → ℕ → ℕ → Decision
decide_one v0 v5 v7 v11 =
    let v4 = shr v11 20 in
    let v12 = add64 v4 (neg64 1) in
    if v4 == 0
    then install v5 v0 v7
    else if ltb v12 v0
    then install v5 v0 v7
    else if ltb 11000 (sub64 v12 v0)
    then out_of_stream
    else (let v8 = u32 v11 and 0xfffff in
        if v8 == 0xfffff
        then (if v4 == 0xfffffffffff
            then exhausted
            else if ltb 1000 (sub64 v4 v0)
            then exhausted
            else install 0x100000 v12 (add64 (v11 and neg64 0x100000) 0x100000))
        else install (add32 v8 1) v12 (add64 v11 1 and 0xfffff or v11 and neg64 0x100000))

-- A batch of v7 steps: v4 is the seed, v9 the word that an advance installs, v14 the word.
unfoldable pub decide_batch : ℕ → ℕ → ℕ → ℕ → ℕ → Decision
decide_batch v0 v7 v4 v9 v14 =
    let v10 = shr v14 20 in
    let v15 = add64 v10 (neg64 1) in
    if v10 == 0
    then install v4 v0 v9
    else if ltb v15 v0
    then install v4 v0 v9
    else if ltb 11000 (sub64 v15 v0)
    then out_of_stream
    else (let v8 = u32 v14 in
        let v2 = v8 and 0xfffff in
        let v13 = v14 and neg64 0x100000 or add32 v7 v8 and 0xfffff in
        if leb v7 (v2 xor 0xfffff)
        then install (add32 v2 1) v15 v13
        else if v10 == 0xfffffffffff
        then exhausted
        else if ltb 1000 (sub64 v10 v0)
        then exhausted
        else install (add32 v2 1) v15 (add64 v13 0x100000))

-- `stuck` is a loop that has used up its rounds.
pub data Reserved : Type 0 where
  unreserved refused stuck : Reserved
  reserved : ℕ → ℕ → Memory → Reserved

-- The loop: decide on the word v11 that was read, read the word again, store the new word if it has
-- not changed and itself otherwise, and go round if it has changed.
unfoldable pub reserve : (ℕ → Decision) → ℕ → Memory → ℕ → Reserved
reserve decide zero mem v11 = stuck
reserve decide (suc rounds) mem v11 = elim (decide v11) [
  | out_of_stream ↦ unreserved
  | exhausted ↦ refused
  | install v8 v9 v10 ↦
      let v4 = load64 mem 65560 in
      let mem' = store64 mem 65560 (if v4 == v11 then v10 else v4) in
      elim (v4 == v11) [ true ↦ reserved v8 v9 mem' | false ↦ reserve decide rounds mem' v4 ]
]
