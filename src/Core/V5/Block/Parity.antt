-- ===== src/Core/V5/Block/Parity.antt =====
-- Lines 613 to 683 of go/internal/core/core.go, in `fn6`: its straight-line code for one block,
-- the rounds of Parity. The lines are cut into parts; each one ends in the next.
use hyper_uuid.Prelude.{ℕ}
use hyper_uuid.Word.{◌xor◌, ◌and◌, add32, rotl32}
use hyper_uuid.Sha.{Digest}
use hyper_uuid.Core.V5.Block.Majority.{part_11}

unfoldable pub part_10 :
    ℕ
    → ℕ
    → ℕ
    → ℕ
    → ℕ
    → ℕ
    → ℕ
    → ℕ
    → ℕ
    → ℕ
    → ℕ
    → ℕ
    → ℕ
    → ℕ
    → ℕ
    → ℕ
    → ℕ
    → ℕ
    → ℕ
    → ℕ
    → ℕ
    → ℕ
    → ℕ
    → ℕ
    → ℕ
    → ℕ
    → ℕ
    → ℕ
    → ℕ
    → ℕ
    → ℕ
    → ℕ
    → ℕ
    → ℕ
    → ℕ
    → ℕ
    → ℕ
    → ℕ
    → ℕ
    → ℕ
    → ℕ
    → ℕ
    → ℕ
    → ℕ
    → ℕ
    → ℕ
    → ℕ
    → ℕ
    → ℕ
    → ℕ
    → ℕ
    → ℕ
    → ℕ
    → ℕ
    → ℕ
    → ℕ
    → ℕ
    → ℕ
    → ℕ
    → ℕ
    → ℕ
    → ℕ
    → ℕ
    → ℕ
    → Digest
part_10 v2 v4 v5 v6 v7 v8 v11 v18 v26 v34 v35 v36 v38 v40 v41 v42 v43 v44 v45 v46 v47 v49 v50 v51
      v52 v53 v54 v55 v58 v60 v61 v62 v63 v64 v65 v66 v67 v68 v69 v70 v71 v72 v73 v74 v75 v76 v77
      v78 v79 v80 v81 v82 t85 t87 t88 t89 t90 t91 t92 t93 t94 t95 t96 t139 =
    let v17 = add32 (add32 t139 (rotl32 v8 5)) 1859775393 in
    let v19 = rotl32 v17 30 in
    let t140 = add32 t96 v19 in
    let t141 = add32 v26 v11 in
    let v20 = rotl32 v8 30 in
    let t142 = v20 in
    let v7 = rotl32 v7 30 in
    let t143 = add32 t141 (t142 xor v7 xor v17) in
    let v8 = add32 (add32 (add32 (add32 v34 v18) (v7 xor v11 xor v8)) (rotl32 v17 5)) 1859775393 in
    let v11 = add32 (add32 t143 (rotl32 v8 5)) 1859775393 in
    let v17 = rotl32 v11 30 in
    let t144 = v17 in
    let v18 = rotl32 v8 30 in
    let t145 = t144 xor v18 in
    let v7 = add32 (add32 (add32 (add32 v40 v7) (v19 xor v20 xor v8)) (rotl32 v11 5)) 1859775393 in
    let t146 = add32 t140 (t145 xor v7) in
    let v8 = add32 (add32 (add32 (add32 v35 v20) (v18 xor v19 xor v11)) (rotl32 v7 5)) 1859775393 in
    let v11 = add32 (add32 t146 (rotl32 v8 5)) 1859775393 in
    let v19 = rotl32 v11 30 in
    let t147 = add32 t95 v19 in
    let t148 = add32 v36 v17 in
    let v20 = rotl32 v8 30 in
    let t149 = v20 in
    let v7 = rotl32 v7 30 in
    let t150 = add32 t148 (t149 xor v7 xor v11) in
    let v8 = add32 (add32 (add32 (add32 v45 v18) (v7 xor v17 xor v8)) (rotl32 v11 5)) 1859775393 in
    let v11 = add32 (add32 t150 (rotl32 v8 5)) 1859775393 in
    let v17 = rotl32 v11 30 in
    let t151 = v17 in
    let v18 = rotl32 v8 30 in
    let t152 = t151 xor v18 in
    let v7 = add32 (add32 (add32 (add32 v41 v7) (v19 xor v20 xor v8)) (rotl32 v11 5)) 1859775393 in
    let t153 = add32 t147 (t152 xor v7) in
    let v8 = add32 (add32 (add32 (add32 v46 v20) (v18 xor v19 xor v11)) (rotl32 v7 5)) 1859775393 in
    let v11 = add32 (add32 t153 (rotl32 v8 5)) 1859775393 in
    part_11 v2 v4 v5 v6 v7 v8 v11 v17 v18 v38 v42 v43 v44 v47 v49 v50 v51 v52 v53 v54 v55 v58 v60
      v61 v62 v63 v64 v65 v66 v67 v68 v69 v70 v71 v72 v73 v74 v75 v76 v77 v78 v79 v80 v81 v82 t85
      t87 t88 t89 t90 t91 t92 t93 t94

unfoldable pub part_9 :
    ℕ
    → ℕ
    → ℕ
    → ℕ
    → ℕ
    → ℕ
    → ℕ
    → ℕ
    → ℕ
    → ℕ
    → ℕ
    → ℕ
    → ℕ
    → ℕ
    → ℕ
    → ℕ
    → ℕ
    → ℕ
    → ℕ
    → ℕ
    → ℕ
    → ℕ
    → ℕ
    → ℕ
    → ℕ
    → ℕ
    → ℕ
    → ℕ
    → ℕ
    → ℕ
    → ℕ
    → ℕ
    → ℕ
    → ℕ
    → ℕ
    → ℕ
    → ℕ
    → ℕ
    → ℕ
    → ℕ
    → ℕ
    → ℕ
    → ℕ
    → ℕ
    → ℕ
    → ℕ
    → ℕ
    → ℕ
    → ℕ
    → ℕ
    → ℕ
    → ℕ
    → ℕ
    → ℕ
    → ℕ
    → ℕ
    → ℕ
    → ℕ
    → ℕ
    → ℕ
    → ℕ
    → ℕ
    → ℕ
    → ℕ
    → ℕ
    → ℕ
    → ℕ
    → ℕ
    → ℕ
    → ℕ
    → ℕ
    → ℕ
    → ℕ
    → ℕ
    → Digest
part_9 v2 v4 v5 v6 v7 v8 v9 v11 v17 v18 v19 v22 v25 v26 v28 v30 v33 v34 v35 v36 v38 v40 v41 v42 v43
      v44 v45 v46 v47 v49 v50 v51 v52 v53 v54 v55 v58 v60 v61 v62 v63 v64 v65 v66 v67 v68 v69 v70
      v71 v72 v73 v74 v75 v76 v77 v78 v79 v80 v81 v82 t85 t87 t88 t89 t90 t91 t92 t93 t94 t95 t96
      t97 t98 t123 =
    let v14 = add32 (add32 t123 (rotl32 v9 5)) 0x5a827999 in
    let v20 = rotl32 v14 30 in
    let t124 = add32 t98 v20 in
    let t125 = v17 in
    let v32 = rotl32 v30 30 in
    let t126 = add32 t125 v32 in
    let t127 = v20 in
    let v17 = rotl32 v9 30 in
    let t128 = t127 xor v17 in
    let v8 =
      add32 (add32 (add32 (add32 v8 v11) (v9 and (v32 xor v7) xor v7)) (rotl32 v14 5)) 0x5a827999 in
    let t129 = add32 t126 (t128 and v8 xor v17) in
    let v11 =
      add32 (add32 (add32 (add32 v28 v7) ((v17 xor v32) and v14 xor v32)) (rotl32 v8 5))
        0x5a827999 in
    let v28 = add32 (add32 t129 (rotl32 v11 5)) 0x5a827999 in
    let t130 = v28 in
    let v32 = rotl32 v11 30 in
    let t131 = v32 in
    let v7 = rotl32 v8 30 in
    let t132 = add32 t124 (t130 and (t131 xor v7) xor v7) in
    let v8 =
      add32 (add32 (add32 (add32 v22 v17) (v11 and (v7 xor v20) xor v20)) (rotl32 v28 5))
        0x5a827999 in
    let v11 = add32 (add32 t132 (rotl32 v8 5)) 0x5a827999 in
    let v17 = rotl32 v11 30 in
    let t133 = add32 t97 v17 in
    let t134 = add32 v25 v32 in
    let v20 = rotl32 v8 30 in
    let t135 = v20 in
    let v22 = rotl32 v28 30 in
    let t136 = add32 t134 (t135 xor v22 xor v11) in
    let v7 = add32 (add32 (add32 (add32 v18 v7) (v22 xor v32 xor v8)) (rotl32 v11 5)) 1859775393 in
    let v8 = add32 (add32 t136 (rotl32 v7 5)) 1859775393 in
    let v11 = rotl32 v8 30 in
    let t137 = v11 in
    let v18 = rotl32 v7 30 in
    let t138 = t137 xor v18 in
    let v7 = add32 (add32 (add32 (add32 v33 v22) (v17 xor v20 xor v7)) (rotl32 v8 5)) 1859775393 in
    let t139 = add32 t133 (t138 xor v7) in
    let v8 = add32 (add32 (add32 (add32 v19 v20) (v18 xor v17 xor v8)) (rotl32 v7 5)) 1859775393 in
    part_10 v2 v4 v5 v6 v7 v8 v11 v18 v26 v34 v35 v36 v38 v40 v41 v42 v43 v44 v45 v46 v47 v49 v50
      v51 v52 v53 v54 v55 v58 v60 v61 v62 v63 v64 v65 v66 v67 v68 v69 v70 v71 v72 v73 v74 v75 v76
      v77 v78 v79 v80 v81 v82 t85 t87 t88 t89 t90 t91 t92 t93 t94 t95 t96 t139
