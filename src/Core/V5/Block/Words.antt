-- ===== src/Core/V5/Block/Words.antt =====
-- Lines 375 to 462 of go/internal/core/core.go, in `fn6`: its straight-line code for one block,
-- which reads and exchanges the words of the block. The lines are cut into parts; each one ends in the next.
use hyper_uuid.Prelude.{ℕ}
use hyper_uuid.Word.{◌xor◌, add32, rotl32}
use hyper_uuid.Memory.{Memory, load32}
use hyper_uuid.Core.V5.Swap.{swap32}
use hyper_uuid.Sha.{Digest}
use hyper_uuid.Core.V5.Block.Schedule.{part_4}

unfoldable pub part_3 :
    Memory
    → ℕ
    → ℕ
    → ℕ
    → ℕ
    → ℕ
    → ℕ
    → ℕ
    → ℕ
    → ℕ
    → ℕ
    → ℕ
    → ℕ
    → ℕ
    → ℕ
    → ℕ
    → ℕ
    → ℕ
    → ℕ
    → ℕ
    → ℕ
    → ℕ
    → ℕ
    → ℕ
    → ℕ
    → ℕ
    → ℕ
    → Digest
part_3 mem v1 v2 v4 v5 v6 v7 v8 v9 v10 v11 v12 v13 v14 v15 v16 v17 v18 v19 v20 v21 v22 v23 v24 v25
      t6 t33 =
    let t34 = v8 xor v20 xor v25 in
    let v26 = rotl32 (v14 xor v24 xor v22 xor v19) 1 in
    let v27 = rotl32 (t34 xor v26) 1 in
    let t35 = load32 mem (add32 v1 44) in
    let t36 = t33 xor v27 in
    let t37 = v18 xor v22 xor v26 in
    let t38 = v17 xor v8 xor v19 in
    let t39 = v11 xor v14 xor v18 in
    let v28 = t35 in
    let v29 = swap32 v28 in
    let t40 = load32 mem (add32 v1 32) in
    let t41 = v29 xor v9 xor v17 in
    let v28 = t40 in
    let v30 = swap32 v28 in
    let t42 = load32 mem v1 in
    let t43 = v30 xor v12 xor v11 in
    let t44 = v21 xor v15 xor v29 in
    let t45 = v23 in
    let v28 = t42 in
    let v31 = swap32 v28 in
    let v28 = rotl32 (t45 xor v31 xor v30 xor v20) 1 in
    let v32 = rotl32 (t44 xor v28) 1 in
    let v33 = rotl32 (t43 xor v32) 1 in
    let v34 = rotl32 (t41 xor v33) 1 in
    let v35 = rotl32 (t39 xor v34) 1 in
    let v36 = rotl32 (t38 xor v35) 1 in
    let v37 = rotl32 (t37 xor v36) 1 in
    let v38 = rotl32 (t36 xor v37) 1 in
    part_4 v2 v4 v5 v6 v7 v8 v9 v10 v11 v12 v13 v14 v15 v16 v17 v18 v19 v20 v21 v22 v23 v24 v25 v26
      v27 v28 v29 v30 v31 v32 v33 v34 v35 v36 v37 v38 t6

unfoldable pub part_2 :
    Memory → ℕ → ℕ → ℕ → ℕ → ℕ → ℕ → ℕ → ℕ → ℕ → ℕ → ℕ → ℕ → ℕ → ℕ → ℕ → ℕ → Digest
part_2 mem v1 v2 v4 v5 v6 v7 v8 v9 v10 v12 v13 v14 v15 t6 t12 t18 =
    let t19 = load32 mem (add32 v1 4) in
    let t20 = v15 in
    let v11 = t19 in
    let v16 = swap32 v11 in
    let t21 = load32 mem (add32 v1 56) in
    let t22 = t20 xor v16 xor v9 in
    let v11 = t21 in
    let v11 = swap32 v11 in
    let v17 = rotl32 (t22 xor v11) 1 in
    let v18 = rotl32 (t18 xor v17) 1 in
    let v19 = rotl32 (t12 xor v18) 1 in
    let t23 = load32 mem (add32 v1 20) in
    let t24 = v19 in
    let t25 = v10 in
    let v20 = t23 in
    let v21 = swap32 v20 in
    let t26 = load32 mem (add32 v1 52) in
    let t27 = t25 xor v21 in
    let v20 = t26 in
    let v20 = swap32 v20 in
    let t28 = load32 mem (add32 v1 8) in
    let t29 = t27 xor v20 in
    let t30 = v13 in
    let v22 = t28 in
    let v23 = swap32 v22 in
    let t31 = load32 mem (add32 v1 40) in
    let t32 = t30 xor v23 in
    let v22 = t31 in
    let v24 = swap32 v22 in
    let v22 = rotl32 (t32 xor v24 xor v8) 1 in
    let v25 = rotl32 (t29 xor v22) 1 in
    let t33 = t24 xor v25 in
    part_3 mem v1 v2 v4 v5 v6 v7 v8 v9 v10 v11 v12 v13 v14 v15 v16 v17 v18 v19 v20 v21 v22 v23 v24
      v25 t6 t33

unfoldable pub part_1 : Memory → ℕ → ℕ → ℕ → ℕ → ℕ → ℕ → Digest
part_1 mem v1 v2 v4 v5 v6 v7 =
    let t5 = load32 mem (add32 v1 36) in
    let t6 = v7 in
    let v8 = t5 in
    let v9 = swap32 v8 in
    let t7 = load32 mem (add32 v1 28) in
    let t8 = v9 in
    let v8 = t7 in
    let v10 = swap32 v8 in
    let t9 = load32 mem (add32 v1 60) in
    let t10 = t8 xor v10 in
    let v8 = t9 in
    let v8 = swap32 v8 in
    let t11 = load32 mem (add32 v1 24) in
    let t12 = t10 xor v8 in
    let v11 = t11 in
    let v12 = swap32 v11 in
    let t13 = load32 mem (add32 v1 16) in
    let t14 = v12 in
    let v11 = t13 in
    let v13 = swap32 v11 in
    let t15 = load32 mem (add32 v1 48) in
    let t16 = t14 xor v13 in
    let v11 = t15 in
    let v14 = swap32 v11 in
    let t17 = load32 mem (add32 v1 12) in
    let t18 = t16 xor v14 in
    let v11 = t17 in
    let v15 = swap32 v11 in part_2 mem v1 v2 v4 v5 v6 v7 v8 v9 v10 v12 v13 v14 v15 t6 t12 t18
