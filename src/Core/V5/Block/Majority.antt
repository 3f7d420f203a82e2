-- ===== src/Core/V5/Block/Majority.antt =====
-- Lines 684 to 753 of go/internal/core/core.go, in `fn6`: its straight-line code for one block,
-- the rounds of Maj. The lines are cut into parts; each one ends in the next.
use hyper_uuid.Prelude.{ℕ}
use hyper_uuid.Word.{◌xor◌, ◌and◌, neg32, add32, rotl32}
use hyper_uuid.Sha.{Digest}
use hyper_uuid.Core.V5.Block.Late.{part_13}

unfoldable pub part_12 :
    ℕ
    → ℕ
    → ℕ
    → ℕ
    → ℕ
    → ℕ
    → ℕ
    → ℕ
    → ℕ
    → ℕ
    → ℕ
    → ℕ
    → ℕ
    → ℕ
    → ℕ
    → ℕ
    → ℕ
    → ℕ
    → ℕ
    → ℕ
    → ℕ
    → ℕ
    → ℕ
    → ℕ
    → ℕ
    → ℕ
    → ℕ
    → ℕ
    → ℕ
    → ℕ
    → ℕ
    → ℕ
    → ℕ
    → ℕ
    → ℕ
    → ℕ
    → ℕ
    → ℕ
    → ℕ
    → ℕ
    → ℕ
    → ℕ
    → ℕ
    → ℕ
    → Digest
part_12 v2 v4 v5 v6 v11 v17 v18 v19 v20 v50 v51 v52 v55 v58 v60 v61 v62 v63 v64 v65 v66 v67 v68 v69
      v70 v71 v72 v73 v74 v75 v76 v77 v78 v79 v80 v81 v82 t85 t87 t88 t89 t90 t91 t92 =
    let v7 = rotl32 v20 30 in
    let t168 = add32 t92 v7 in
    let t169 = add32 v55 v17 in
    let t170 = v20 in
    let v8 = rotl32 v19 30 in
    let t171 = v8 in
    let v11 = rotl32 v11 30 in
    let t172 = add32 t169 (t170 and (t171 xor v11) xor v8 and v11) in
    let v19 =
      add32 (add32 (add32 (add32 v50 v18) ((v11 xor v17) and v19 xor v11 and v17)) (rotl32 v20 5))
        (neg32 1894007588) in
    let v20 = add32 (add32 t172 (rotl32 v19 5)) (neg32 1894007588) in
    let v17 = rotl32 v20 30 in
    let t173 = v17 in
    let v18 = rotl32 v19 30 in
    let t174 = t173 xor v18 in
    let v11 =
      add32 (add32 (add32 (add32 v60 v11) (v19 and (v7 xor v8) xor v7 and v8)) (rotl32 v20 5))
        (neg32 1894007588) in
    let t175 = add32 t168 (t174 and v11 xor v17 and v18) in
    let v19 =
      add32 (add32 (add32 (add32 v51 v8) ((v18 xor v7) and v20 xor v18 and v7)) (rotl32 v11 5))
        (neg32 1894007588) in
    let v20 = add32 (add32 t175 (rotl32 v19 5)) (neg32 1894007588) in
    let v7 = rotl32 v20 30 in
    let t176 = add32 t91 v7 in
    let t177 = v67 in
    let v8 = rotl32 v11 30 in
    let t178 = add32 t177 v8 in
    let t179 = v7 in
    let v11 = rotl32 v19 30 in
    let t180 = t179 xor v11 in
    let v18 =
      add32 (add32 (add32 (add32 v61 v18) (v19 and (v8 xor v17) xor v8 and v17)) (rotl32 v20 5))
        (neg32 1894007588) in
    let t181 = add32 t178 (t180 and v18 xor v7 and v11) in
    let v19 =
      add32 (add32 (add32 (add32 v52 v17) (v20 and (v11 xor v8) xor v11 and v8)) (rotl32 v18 5))
        (neg32 1894007588) in
    let v20 = add32 (add32 t181 (rotl32 v19 5)) (neg32 1894007588) in
    let t182 = v20 in
    let v8 = rotl32 v19 30 in
    let t183 = v8 in
    let v17 = rotl32 v18 30 in
    let t184 = add32 t176 (t182 and (t183 xor v17) xor v8 and v17) in
    let v19 =
      add32 (add32 (add32 (add32 v62 v11) ((v17 xor v7) and v19 xor v17 and v7)) (rotl32 v20 5))
        (neg32 1894007588) in
    part_13 v2 v4 v5 v6 v8 v17 v19 v20 v58 v63 v64 v65 v66 v68 v69 v70 v71 v72 v73 v74 v75 v76 v77
      v78 v79 v80 v81 v82 t85 t87 t88 t89 t90 t184

unfoldable pub part_11 :
    ℕ
    → ℕ
    → ℕ
    → ℕ
    → ℕ
    → ℕ
    → ℕ
    → ℕ
    → ℕ
    → ℕ
    → ℕ
    → ℕ
    → ℕ
    → ℕ
    → ℕ
    → ℕ
    → ℕ
    → ℕ
    → ℕ
    → ℕ
    → ℕ
    → ℕ
    → ℕ
    → ℕ
    → ℕ
    → ℕ
    → ℕ
    → ℕ
    → ℕ
    → ℕ
    → ℕ
    → ℕ
    → ℕ
    → ℕ
    → ℕ
    → ℕ
    → ℕ
    → ℕ
    → ℕ
    → ℕ
    → ℕ
    → ℕ
    → ℕ
    → ℕ
    → ℕ
    → ℕ
    → ℕ
    → ℕ
    → ℕ
    → ℕ
    → ℕ
    → ℕ
    → ℕ
    → ℕ
    → Digest
part_11 v2 v4 v5 v6 v7 v8 v11 v17 v18 v38 v42 v43 v44 v47 v49 v50 v51 v52 v53 v54 v55 v58 v60 v61
      v62 v63 v64 v65 v66 v67 v68 v69 v70 v71 v72 v73 v74 v75 v76 v77 v78 v79 v80 v81 v82 t85 t87
      t88 t89 t90 t91 t92 t93 t94 =
    let v19 = rotl32 v11 30 in
    let t154 = add32 t94 v19 in
    let t155 = add32 v47 v17 in
    let v20 = rotl32 v8 30 in
    let t156 = v20 in
    let v7 = rotl32 v7 30 in
    let t157 = add32 t155 (t156 xor v7 xor v11) in
    let v8 = add32 (add32 (add32 (add32 v42 v18) (v7 xor v17 xor v8)) (rotl32 v11 5)) 1859775393 in
    let v11 = add32 (add32 t157 (rotl32 v8 5)) 1859775393 in
    let v17 = rotl32 v11 30 in
    let t158 = v17 in
    let v18 = rotl32 v8 30 in
    let t159 = t158 xor v18 in
    let v22 = add32 (add32 (add32 (add32 v38 v7) (v19 xor v20 xor v8)) (rotl32 v11 5)) 1859775393 in
    let t160 = add32 t154 (t159 xor v22) in
    let v19 =
      add32 (add32 (add32 (add32 v53 v20) (v18 xor v19 xor v11)) (rotl32 v22 5)) 1859775393 in
    let v20 = add32 (add32 t160 (rotl32 v19 5)) 1859775393 in
    let v7 = rotl32 v20 30 in
    let t161 = add32 t93 v7 in
    let t162 = add32 v54 v17 in
    let v8 = rotl32 v19 30 in
    let t163 = v8 in
    let v11 = rotl32 v22 30 in
    let t164 = add32 t162 ((t163 xor v11) and v20 xor v8 and v11) in
    let v19 =
      add32 (add32 (add32 (add32 v43 v18) ((v11 xor v17) and v19 xor v11 and v17)) (rotl32 v20 5))
        (neg32 1894007588) in
    let v20 = add32 (add32 t164 (rotl32 v19 5)) (neg32 1894007588) in
    let v17 = rotl32 v20 30 in
    let t165 = v17 in
    let v18 = rotl32 v19 30 in
    let t166 = t165 xor v18 in
    let v11 =
      add32 (add32 (add32 (add32 v49 v11) (v19 and (v7 xor v8) xor v7 and v8)) (rotl32 v20 5))
        (neg32 1894007588) in
    let t167 = add32 t161 (t166 and v11 xor v17 and v18) in
    let v19 =
      add32 (add32 (add32 (add32 v44 v8) (v20 and (v18 xor v7) xor v18 and v7)) (rotl32 v11 5))
        (neg32 1894007588) in
    let v20 = add32 (add32 t167 (rotl32 v19 5)) (neg32 1894007588) in
    part_12 v2 v4 v5 v6 v11 v17 v18 v19 v20 v50 v51 v52 v55 v58 v60 v61 v62 v63 v64 v65 v66 v67 v68
      v69 v70 v71 v72 v73 v74 v75 v76 v77 v78 v79 v80 v81 v82 t85 t87 t88 t89 t90 t91 t92
