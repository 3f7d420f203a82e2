-- ===== src/Core/V5/Block/Switch.antt =====
-- Lines 519 to 576 of go/internal/core/core.go, in `fn6`: its straight-line code for one block,
-- the end of the schedule and the first rounds. The lines are cut into parts; each one ends in the next.
use hyper_uuid.Prelude.{ℕ}
use hyper_uuid.Word.{◌xor◌, ◌and◌, add32, rotl32}
use hyper_uuid.Sha.{Digest}
use hyper_uuid.Core.V5.Block.Early.{part_8}

unfoldable pub part_7 :
    ℕ
    → ℕ
    → ℕ
    → ℕ
    → ℕ
    → ℕ
    → ℕ
    → ℕ
    → ℕ
    → ℕ
    → ℕ
    → ℕ
    → ℕ
    → ℕ
    → ℕ
    → ℕ
    → ℕ
    → ℕ
    → ℕ
    → ℕ
    → ℕ
    → ℕ
    → ℕ
    → ℕ
    → ℕ
    → ℕ
    → ℕ
    → ℕ
    → ℕ
    → ℕ
    → ℕ
    → ℕ
    → ℕ
    → ℕ
    → ℕ
    → ℕ
    → ℕ
    → ℕ
    → ℕ
    → ℕ
    → ℕ
    → ℕ
    → ℕ
    → ℕ
    → ℕ
    → ℕ
    → ℕ
    → ℕ
    → ℕ
    → ℕ
    → ℕ
    → ℕ
    → ℕ
    → ℕ
    → ℕ
    → ℕ
    → ℕ
    → ℕ
    → ℕ
    → ℕ
    → ℕ
    → ℕ
    → ℕ
    → ℕ
    → ℕ
    → ℕ
    → ℕ
    → ℕ
    → ℕ
    → ℕ
    → ℕ
    → ℕ
    → ℕ
    → ℕ
    → ℕ
    → ℕ
    → ℕ
    → ℕ
    → ℕ
    → ℕ
    → Digest
part_7 v2 v4 v5 v6 v7 v8 v9 v10 v11 v12 v13 v14 v15 v16 v17 v18 v19 v20 v21 v22 v23 v24 v25 v26 v27
      v28 v29 v30 v31 v32 v33 v34 v35 v36 v37 v38 v39 v40 v41 v42 v43 v44 v45 v46 v47 v48 v49 v50
      v51 v52 v53 v54 v55 v56 v57 v58 v59 v60 v61 v62 v63 v64 v65 v66 v67 v68 v69 v70 v71 v72 v73
      v74 v75 v76 v77 v78 v79 v80 v81 t85 =
    let t87 = v81 in
    let v82 = rotl32 (v68 xor v62 xor v74 xor v80) 1 in
    let t88 = v82 in
    let t89 = v75 in
    let t90 = v64 in
    let t91 = v57 in
    let t92 = v56 in
    let t93 = v59 in
    let t94 = v48 in
    let t95 = v37 in
    let t96 = v27 in
    let t97 = v39 in
    let t98 = v32 in
    let t99 = v11 in
    let t100 = v9 in
    let v83 = rotl32 v7 30 in
    let t101 = add32 v83 v13 in
    let t102 = v5 in
    let v13 = rotl32 v6 30 in
    let t103 = add32 (add32 t102 ((v13 xor v2) and v7 xor v2)) v16 in
    let v31 =
      add32 (add32 (add32 (add32 v4 ((v2 xor v5) and v6 xor v5)) (rotl32 v7 5)) v31) 0x5a827999 in
    let v84 = add32 (add32 t103 (rotl32 v31 5)) 0x5a827999 in
    let v7 = rotl32 v84 30 in
    let t104 = v7 in
    let v16 = rotl32 v31 30 in
    let t105 = t104 xor v16 in
    let v23 =
      add32 (add32 (add32 (add32 v2 v23) (v31 and (v83 xor v13) xor v13)) (rotl32 v84 5))
        0x5a827999 in
    let t106 = add32 t101 (t105 and v23 xor v16) in
    let v15 =
      add32 (add32 (add32 (add32 v13 v15) (v84 and (v16 xor v83) xor v83)) (rotl32 v23 5))
        0x5a827999 in
    let v31 = add32 (add32 t106 (rotl32 v15 5)) 0x5a827999 in
    part_8 v2 v4 v5 v6 v7 v8 v10 v12 v14 v15 v16 v17 v18 v19 v20 v21 v22 v23 v24 v25 v26 v28 v29 v30
      v31 v33 v34 v35 v36 v38 v40 v41 v42 v43 v44 v45 v46 v47 v49 v50 v51 v52 v53 v54 v55 v58 v60
      v61 v62 v63 v64 v65 v66 v67 v68 v69 v70 v71 v72 v73 v74 v75 v76 v77 v78 v79 v80 v81 v82 t85
      t87 t88 t89 t90 t91 t92 t93 t94 t95 t96 t97 t98 t99 t100

unfoldable pub part_6 :
    ℕ
    → ℕ
    → ℕ
    → ℕ
    → ℕ
    → ℕ
    → ℕ
    → ℕ
    → ℕ
    → ℕ
    → ℕ
    → ℕ
    → ℕ
    → ℕ
    → ℕ
    → ℕ
    → ℕ
    → ℕ
    → ℕ
    → ℕ
    → ℕ
    → ℕ
    → ℕ
    → ℕ
    → ℕ
    → ℕ
    → ℕ
    → ℕ
    → ℕ
    → ℕ
    → ℕ
    → ℕ
    → ℕ
    → ℕ
    → ℕ
    → ℕ
    → ℕ
    → ℕ
    → ℕ
    → ℕ
    → ℕ
    → ℕ
    → ℕ
    → ℕ
    → ℕ
    → ℕ
    → ℕ
    → ℕ
    → ℕ
    → ℕ
    → ℕ
    → ℕ
    → ℕ
    → ℕ
    → ℕ
    → ℕ
    → ℕ
    → ℕ
    → ℕ
    → ℕ
    → ℕ
    → ℕ
    → ℕ
    → ℕ
    → ℕ
    → ℕ
    → ℕ
    → Digest
part_6 v2 v4 v5 v6 v7 v8 v9 v10 v11 v12 v13 v14 v15 v16 v17 v18 v19 v20 v21 v22 v23 v24 v25 v26 v27
      v28 v29 v30 v31 v32 v33 v34 v35 v36 v37 v38 v39 v40 v41 v42 v43 v44 v45 v46 v47 v48 v49 v50
      v51 v52 v53 v54 v55 v56 v57 v58 v59 v60 v61 v62 v63 v64 v65 v66 t6 t72 t73 =
    let t74 = v54 xor v48 xor v60 in
    let v67 = rotl32 (v53 xor v47 xor v59 xor v56) 1 in
    let v68 = rotl32 (t74 xor v67) 1 in
    let t75 = t73 xor v68 in
    let v69 = rotl32 (v55 xor v59 xor v67 xor v58) 1 in
    let v70 = rotl32 (t75 xor v69) 1 in
    let t76 = t72 xor v70 in
    let t77 = v58 xor v68 xor v70 in
    let v71 = rotl32 (v57 xor v67 xor v69 xor v66) 1 in
    let v72 = rotl32 (t77 xor v71) 1 in
    let t78 = t76 xor v72 in
    let t79 = v65 xor v69 xor v71 in
    let t80 = v64 xor v58 xor v66 in
    let t81 = v63 xor v57 xor v65 in
    let t82 = v62 xor v52 xor v64 in
    let t83 = v61 xor v51 xor v63 in
    let t84 = v60 xor v50 xor v62 in
    let v73 = rotl32 (v59 xor v49 xor v61 xor v68) 1 in
    let v74 = rotl32 (t84 xor v73) 1 in
    let v75 = rotl32 (t83 xor v74) 1 in
    let v76 = rotl32 (t82 xor v75) 1 in
    let v77 = rotl32 (t81 xor v76) 1 in
    let v78 = rotl32 (t80 xor v77) 1 in
    let v79 = rotl32 (t79 xor v78) 1 in
    let t85 = add32 t6 (rotl32 (t78 xor v79) 1) in
    let t86 = v69 xor v73 in
    let v80 = rotl32 (v67 xor v61 xor v73 xor v70) 1 in
    let v81 = rotl32 (t86 xor v80 xor v72) 1 in
    part_7 v2 v4 v5 v6 v7 v8 v9 v10 v11 v12 v13 v14 v15 v16 v17 v18 v19 v20 v21 v22 v23 v24 v25 v26
      v27 v28 v29 v30 v31 v32 v33 v34 v35 v36 v37 v38 v39 v40 v41 v42 v43 v44 v45 v46 v47 v48 v49
      v50 v51 v52 v53 v54 v55 v56 v57 v58 v59 v60 v61 v62 v63 v64 v65 v66 v67 v68 v69 v70 v71 v72
      v73 v74 v75 v76 v77 v78 v79 v80 v81 t85
