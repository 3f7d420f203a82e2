-- ===== src/Core/V5/Block/Early.antt =====
-- Lines 577 to 612 of go/internal/core/core.go, in `fn6`: its straight-line code for one block,
-- the rounds of Ch. The lines are cut into parts; each one ends in the next.
use hyper_uuid.Prelude.{ℕ}
use hyper_uuid.Word.{◌xor◌, ◌and◌, add32, rotl32}
use hyper_uuid.Sha.{Digest}
use hyper_uuid.Core.V5.Block.Parity.{part_9}

unfoldable pub part_8 :
    ℕ
    → ℕ
    → ℕ
    → ℕ
    → ℕ
    → ℕ
    → ℕ
    → ℕ
    → ℕ
    → ℕ
    → ℕ
    → ℕ
    → ℕ
    → ℕ
    → ℕ
    → ℕ
    → ℕ
    → ℕ
    → ℕ
    → ℕ
    → ℕ
    → ℕ
    → ℕ
    → ℕ
    → ℕ
    → ℕ
    → ℕ
    → ℕ
    → ℕ
    → ℕ
    → ℕ
    → ℕ
    → ℕ
    → ℕ
    → ℕ
    → ℕ
    → ℕ
    → ℕ
    → ℕ
    → ℕ
    → ℕ
    → ℕ
    → ℕ
    → ℕ
    → ℕ
    → ℕ
    → ℕ
    → ℕ
    → ℕ
    → ℕ
    → ℕ
    → ℕ
    → ℕ
    → ℕ
    → ℕ
    → ℕ
    → ℕ
    → ℕ
    → ℕ
    → ℕ
    → ℕ
    → ℕ
    → ℕ
    → ℕ
    → ℕ
    → ℕ
    → ℕ
    → ℕ
    → ℕ
    → ℕ
    → ℕ
    → ℕ
    → ℕ
    → ℕ
    → ℕ
    → ℕ
    → ℕ
    → ℕ
    → ℕ
    → ℕ
    → ℕ
    → ℕ
    → ℕ
    → ℕ
    → Digest
part_8 v2 v4 v5 v6 v7 v8 v10 v12 v14 v15 v16 v17 v18 v19 v20 v21 v22 v23 v24 v25 v26 v28 v29 v30 v31
      v33 v34 v35 v36 v38 v40 v41 v42 v43 v44 v45 v46 v47 v49 v50 v51 v52 v53 v54 v55 v58 v60 v61
      v62 v63 v64 v65 v66 v67 v68 v69 v70 v71 v72 v73 v74 v75 v76 v77 v78 v79 v80 v81 v82 t85 t87
      t88 t89 t90 t91 t92 t93 t94 t95 t96 t97 t98 t99 t100 =
    let v83 = rotl32 v31 30 in
    let t107 = add32 t100 v83 in
    let t108 = add32 v7 v12 in
    let t109 = v31 in
    let v9 = rotl32 v15 30 in
    let t110 = v9 in
    let v13 = rotl32 v23 30 in
    let t111 = add32 t108 (t109 and (t110 xor v13) xor v13) in
    let v12 =
      add32 (add32 (add32 (add32 v16 v21) ((v13 xor v7) and v15 xor v7)) (rotl32 v31 5))
        0x5a827999 in
    let v15 = add32 (add32 t111 (rotl32 v12 5)) 0x5a827999 in
    let v7 = rotl32 v15 30 in
    let t112 = v7 in
    let v16 = rotl32 v12 30 in
    let t113 = t112 xor v16 in
    let v13 =
      add32 (add32 (add32 (add32 v13 v10) (v12 and (v83 xor v9) xor v9)) (rotl32 v15 5))
        0x5a827999 in
    let t114 = add32 t107 (t113 and v13 xor v16) in
    let v30 =
      add32 (add32 (add32 (add32 v30 v9) ((v16 xor v83) and v15 xor v83)) (rotl32 v13 5))
        0x5a827999 in
    let v83 = add32 (add32 t114 (rotl32 v30 5)) 0x5a827999 in
    let v9 = rotl32 v83 30 in
    let t115 = add32 t99 v9 in
    let t116 = v14 in
    let v11 = rotl32 v13 30 in
    let t117 = add32 t116 v11 in
    let t118 = v9 in
    let v14 = rotl32 v30 30 in
    let t119 = t118 xor v14 in
    let v24 =
      add32 (add32 (add32 (add32 v24 v16) (v30 and (v11 xor v7) xor v7)) (rotl32 v83 5))
        0x5a827999 in
    let t120 = add32 t117 (t119 and v24 xor v14) in
    let v29 =
      add32 (add32 (add32 (add32 v29 v7) (v83 and (v14 xor v11) xor v11)) (rotl32 v24 5))
        0x5a827999 in
    let v30 = add32 (add32 t120 (rotl32 v29 5)) 0x5a827999 in
    let t121 = v30 in
    let v7 = rotl32 v29 30 in
    let t122 = v7 in
    let v11 = rotl32 v24 30 in
    let t123 = add32 t115 (t121 and (t122 xor v11) xor v11) in
    let v9 =
      add32 (add32 (add32 (add32 v20 v14) ((v11 xor v9) and v29 xor v9)) (rotl32 v30 5))
        0x5a827999 in
    part_9 v2 v4 v5 v6 v7 v8 v9 v11 v17 v18 v19 v22 v25 v26 v28 v30 v33 v34 v35 v36 v38 v40 v41 v42
      v43 v44 v45 v46 v47 v49 v50 v51 v52 v53 v54 v55 v58 v60 v61 v62 v63 v64 v65 v66 v67 v68 v69
      v70 v71 v72 v73 v74 v75 v76 v77 v78 v79 v80 v81 v82 t85 t87 t88 t89 t90 t91 t92 t93 t94 t95
      t96 t97 t98 t123
