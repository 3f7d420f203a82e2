-- ===== src/Core/Sql.antt =====
-- `Xuuid_v7_to_sql_order` and `Xuuid_v7_to_rfc_order` of go/internal/core/core.go: 16 bytes
-- rewritten in place. The result is the memory afterwards and the return code, 0 or 5.
pub mod Bytes
pub mod Back
pub mod Call
pub mod Laws
use hyper_uuid.Prelude.{ℕ, ◌+◌, ◌==◌, if◌then◌else◌}
use hyper_uuid.Word.{◌and◌, ◌or◌, byte, u16, u32, neg32, shl32, shl64, shr, sext8, lt_s32}
use hyper_uuid.Memory.{Memory, load16, load32, store8, store16, store32}

-- What follows the two guards of `Xuuid_v7_to_sql_order`: v2 and v3 are the bytes 8 and 6. The
-- first five stores, then the loads and stores up to the return.
pub to_sql_steps : Memory → ℕ → ℕ → ℕ → Memory
to_sql_steps mem v0 v2 v3 =
    let v1 = load32 mem (v0 + 12) in
    let v4 = mem (v0 + 5) in
    let mem = store8 mem (v0 + 15) (byte v4) in
    let v5 = mem (v0 + 4) in
    let mem = store8 mem (v0 + 14) (byte v5) in
    let v6 = mem (v0 + 3) in
    let mem = store8 mem (v0 + 13) (byte v6) in
    let v7 = mem (v0 + 2) in
    let mem = store8 mem (v0 + 12) (byte v7) in
    let v8 = mem v0 in
    let v9 = mem (v0 + 1) in
    let mem = store32 mem v0 v1 in
    let v1 = mem (v0 + 7) in
    let v10 = mem (v0 + 9) in
    let mem = store8 mem (v0 + 7) (byte (v10 and 15 or 128)) in
    let v1 = shl32 v1 14 in
    let v2 = shl32 (v2 and 63) 8 in
    let mem = store8 mem (v0 + 9) (byte (shr (v1 or v2) 12)) in
    let mem = store8 mem (v0 + 6) (byte (shr (v2 or v10) 4)) in
    let mem = store8 mem (v0 + 8) (byte (shr (v1 or shl32 (v3 and 15) 22) 20 or 128)) in
    let v11 = mem (v0 + 11) in
    let v4 = v4 or shl64 v5 8 or shl64 v6 16 or shl64 v7 24 or shl64 v9 32 in
    let mem = store8 mem (v0 + 11) (byte (shr v4 32)) in
    let v5 = mem (v0 + 10) in
    let mem = store8 mem (v0 + 10) (byte (shr (v4 or shl64 v8 40) 40)) in
    let v4 = shl64 v5 16 or shl64 v11 24 in
    let v5 = v4 and 0xff0000 in
    store16 mem (v0 + 4)
      (u16 (shl32 (u32 (shr (shl64 v5 24 or shl64 (v4 and 0xff000000) 8) 32)) 8 or shr (u32 v5) 16))

unfoldable pub uuid_v7_to_sql_order : Memory → ℕ → Memory × ℕ
unfolding to_sql_steps
uuid_v7_to_sql_order mem v0 =
    let v2 = sext8 (mem (v0 + 8)) in
    let v3 = mem (v0 + 6) in
    if lt_s32 (neg32 65) v2
    then (mem, 5)
    else if v3 and neg32 16 and 255 == 112
    then (to_sql_steps mem v0 v2 v3, 0)
    else (mem, 5)

-- What follows the two guards of `Xuuid_v7_to_rfc_order`: v2 and v3 are the bytes 7 and 8.
pub to_rfc_steps : Memory → ℕ → ℕ → ℕ → Memory
to_rfc_steps mem v0 v2 v3 =
    let v1 = load32 mem (v0 + 12) in
    let v4 = load32 mem v0 in
    let mem = store8 mem (v0 + 12) (byte v4) in
    let v5 = load16 mem (v0 + 10) in
    let v6 = mem (v0 + 5) in
    let mem = store8 mem (v0 + 11) (byte v6) in
    let v7 = mem (v0 + 4) in
    let mem = store8 mem (v0 + 10) (byte v7) in
    let mem = store32 mem (v0 + 2) v1 in
    let mem = store16 mem v0 (u16 v5) in
    let mem = store8 mem (v0 + 14) (byte (shr v4 16)) in
    let v8 = shr v4 8 in
    let mem = store8 mem (v0 + 13) (byte v8) in
    let v9 = shl64 v4 32 in
    let v10 = shr v9 56 in
    let mem = store8 mem (v0 + 15) (byte v10) in
    let v1 = mem (v0 + 9) in
    let t13 = mem (v0 + 6) in
    let v2 = shl32 t13 4 or v2 and 15 in
    let mem = store8 mem (v0 + 9) (byte v2) in
    let mem = store8 mem (v0 + 6) (byte (shr (v3 and 60) 2 or 112)) in
    let t16 = shl64 v2 48 in
    let v6 = shl64 v7 16 or shl64 v6 24 or v9 in
    let v4 =
      t16
      or (shl64 (v6 and 0xff0000) 24
          or shl64 (v6 and 0xff000000) 8
          or (shl64 v4 24 and 0xff000000 or shl64 v4 8 and 0xff0000 or (v8 and 0xff00 or v10)))
      or shl64 v1 60 in
    let mem = store8 mem (v0 + 7) (byte (shr v4 62 or shr (v1 or shl32 v3 8) 2 and 252)) in
    store8 mem (v0 + 8) (byte (u32 (shr v4 56) and 63 or 128))

unfoldable pub uuid_v7_to_rfc_order : Memory → ℕ → Memory × ℕ
unfolding to_rfc_steps
uuid_v7_to_rfc_order mem v0 =
    let v2 = sext8 (mem (v0 + 7)) in
    let v3 = sext8 (mem (v0 + 8)) in
    if lt_s32 (neg32 113) v2
    then (mem, 5)
    else if lt_s32 (neg32 65) v3
    then (mem, 5)
    else (to_rfc_steps mem v0 v2 v3, 0)
