-- ===== src/Core/Inspect.antt =====
-- The readers of go/internal/core/core.go: `Xuuid_version`, `Xuuid_variant`, `Xuuid_is_rfc`,
-- `Xuuid_v7_unix_millis`, `Xuuid_v7_unix_millis_in` and `Xuuid_get_timestamp`. An address is the
-- value of the int32 parameter, so `uint64(uint32(v0))+k` is `v0 + k`, and `v0 + i32(k)` wraps.
pub mod Reads
use hyper_uuid.Prelude.{ℕ, ◌+◌, ltb, leb, ◌==◌, if◌then◌else◌}
use hyper_uuid.Word.{◌and◌, ◌or◌, neg32, add32, shl64, shr, sext8, lt_s32, flag}
use hyper_uuid.Memory.{Memory, store64}

unfoldable pub uuid_version : Memory → ℕ → ℕ → ℕ
uuid_version mem v0 v1 =
    let case = add32 v1 (neg32 1) in
    if case == 0
    then shr (mem (v0 + 6)) 4
    else if case == 1
    then (if lt_s32 (neg32 113) (sext8 (mem (v0 + 7)))
        then 0
        else if lt_s32 (sext8 (mem (v0 + 8))) (neg32 64)
        then 7
        else 0)
    else 0

unfoldable pub uuid_variant : Memory → ℕ → ℕ
uuid_variant mem v0 =
    let top = sext8 (mem (v0 + 8)) in
    if lt_s32 (neg32 1) top
    then 1
    else (let index = add32 (shr (top and 224) 5) (neg32 4) in
        if leb index 2 then mem (index + 65556) else 4)

unfoldable pub uuid_is_rfc : Memory → ℕ → ℕ → ℕ → ℕ
uuid_is_rfc mem v0 v1 v2 =
    let case = add32 v2 (neg32 1) in
    if case == 1
    then (if ltb 255 v1
        then 0
        else if v1 == 0
        then 0
        else flag (v1 == 7)
          and (flag (lt_s32 (sext8 (mem (v0 + 7))) (neg32 112))
              and flag (lt_s32 (sext8 (mem (v0 + 8))) (neg32 64))))
    else if case == 0
    then (if ltb 255 v1
        then 0
        else if lt_s32 (neg32 65) (sext8 (mem (v0 + 8)))
        then 0
        else flag (shr (mem (v0 + 6)) 4 == v1 and 255))
    else 0

unfoldable pub uuid_v7_unix_millis : Memory → ℕ → ℕ
uuid_v7_unix_millis mem v0 =
    shl64 (mem (v0 + 1)) 32
    or shl64 (mem v0) 40
    or shl64 (mem (v0 + 2)) 24
    or shl64 (mem (v0 + 3)) 16
    or shl64 (mem (v0 + 4)) 8
    or mem (v0 + 5)

-- Six bytes at the addresses that the switch of `Xuuid_v7_unix_millis_in` chooses.
millis_at : Memory → ℕ → ℕ → ℕ → ℕ → ℕ → ℕ → ℕ
millis_at mem v0 v6 v5 v4 v3 v1 =
    shl64 (mem v3) 8
    or mem v1
    or shl64 (mem v4) 16
    or shl64 (mem v5) 24
    or shl64 (mem v6) 32
    or shl64 (mem v0) 40

unfoldable pub uuid_v7_unix_millis_in : Memory → ℕ → ℕ → ℕ
unfolding millis_at
uuid_v7_unix_millis_in mem v0 v1 =
    let case = add32 v1 (neg32 1) in
    if case == 1
    then millis_at mem (add32 v0 10) (add32 v0 11) (add32 v0 12) (add32 v0 13) (add32 v0 14)
        (add32 v0 15)
    else if case == 0
    then millis_at mem v0 (add32 v0 1) (add32 v0 2) (add32 v0 3) (add32 v0 4) (add32 v0 5)
    else 0

-- The label l3 of `Xuuid_get_timestamp`: five bytes, the bound, the sixth byte and the store.
pub stamp_at : Memory → ℕ → ℕ → ℕ → ℕ → ℕ → ℕ → ℕ → Memory × ℕ
stamp_at mem v2 v0 v1 v4 v5 v6 v7 =
    let v8 =
      shl64 (mem v5) 16
      or shl64 (mem v6) 8
      or shl64 (mem v4) 24
      or shl64 (mem v1) 32
      or shl64 (mem v0) 40 in
    if ltb 253402300799999 v8 then (mem, 0) else (store64 mem v2 (v8 or mem v7), 7)

-- The memory afterwards and the result: 7 with the milliseconds stored at v2, or 0.
unfoldable pub uuid_get_timestamp : Memory → ℕ → ℕ → ℕ → Memory × ℕ
unfolding stamp_at
uuid_get_timestamp mem v0 v1 v2 =
    let case = add32 v1 (neg32 1) in
    if case == 0
    then (if lt_s32 (neg32 65) (sext8 (mem (v0 + 8)))
        then (mem, 0)
        else if mem (v0 + 6) and neg32 16 and 255 == 112
        then stamp_at mem v2 v0 (add32 v0 1) (add32 v0 2) (add32 v0 3) (add32 v0 4) (add32 v0 5)
        else (mem, 0))
    else if case == 1
    then (if lt_s32 (neg32 113) (sext8 (mem (v0 + 7)))
        then (mem, 0)
        else if lt_s32 (neg32 65) (sext8 (mem (v0 + 8)))
        then (mem, 0)
        else stamp_at mem v2 (add32 v0 10) (add32 v0 11) (add32 v0 12) (add32 v0 13) (add32 v0 14)
            (add32 v0 15))
    else (mem, 0)
