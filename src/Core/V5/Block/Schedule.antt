-- ===== src/Core/V5/Block/Schedule.antt =====
-- Lines 463 to 518 of go/internal/core/core.go, in `fn6`: its straight-line code for one block,
-- which extends the schedule. The lines are cut into parts; each one ends in the next.
use hyper_uuid.Prelude.{ℕ}
use hyper_uuid.Word.{◌xor◌, rotl32}
use hyper_uuid.Sha.{Digest}
use hyper_uuid.Core.V5.Block.Switch.{part_6}

unfoldable pub part_5 :
    ℕ
    → ℕ
    → ℕ
    → ℕ
    → ℕ
    → ℕ
    → ℕ
    → ℕ
    → ℕ
    → ℕ
    → ℕ
    → ℕ
    → ℕ
    → ℕ
    → ℕ
    → ℕ
    → ℕ
    → ℕ
    → ℕ
    → ℕ
    → ℕ
    → ℕ
    → ℕ
    → ℕ
    → ℕ
    → ℕ
    → ℕ
    → ℕ
    → ℕ
    → ℕ
    → ℕ
    → ℕ
    → ℕ
    → ℕ
    → ℕ
    → ℕ
    → ℕ
    → ℕ
    → ℕ
    → ℕ
    → ℕ
    → ℕ
    → ℕ
    → ℕ
    → ℕ
    → ℕ
    → ℕ
    → ℕ
    → ℕ
    → ℕ
    → ℕ
    → ℕ
    → Digest
part_5 v2 v4 v5 v6 v7 v8 v9 v10 v11 v12 v13 v14 v15 v16 v17 v18 v19 v20 v21 v22 v23 v24 v25 v26 v27
      v28 v29 v30 v31 v32 v33 v34 v35 v36 v37 v38 v39 v40 v41 v42 v43 v44 v45 v46 v47 v48 v49 v50
      v51 v52 t6 t59 =
    let t60 = v42 xor v46 in
    let t61 = v40 xor v34 xor v46 in
    let v53 = rotl32 (v39 xor v33 xor v45 xor v42) 1 in
    let v54 = rotl32 (t61 xor v53) 1 in
    let t62 = t60 xor v54 in
    let v55 = rotl32 (v41 xor v45 xor v53 xor v44) 1 in
    let v56 = rotl32 (t62 xor v55) 1 in
    let t63 = t59 xor v56 in
    let t64 = v44 xor v54 xor v56 in
    let v57 = rotl32 (v43 xor v53 xor v55 xor v52) 1 in
    let v58 = rotl32 (t64 xor v57) 1 in
    let t65 = t63 xor v58 in
    let t66 = v51 xor v55 xor v57 in
    let t67 = v50 xor v44 xor v52 in
    let t68 = v49 xor v43 xor v51 in
    let t69 = v48 xor v38 xor v50 in
    let t70 = v47 xor v37 xor v49 in
    let t71 = v46 xor v36 xor v48 in
    let v59 = rotl32 (v45 xor v35 xor v47 xor v54) 1 in
    let v60 = rotl32 (t71 xor v59) 1 in
    let v61 = rotl32 (t70 xor v60) 1 in
    let v62 = rotl32 (t69 xor v61) 1 in
    let v63 = rotl32 (t68 xor v62) 1 in
    let v64 = rotl32 (t67 xor v63) 1 in
    let v65 = rotl32 (t66 xor v64) 1 in
    let v66 = rotl32 (t65 xor v65) 1 in
    let t72 = v66 in
    let t73 = v56 xor v60 in
    part_6 v2 v4 v5 v6 v7 v8 v9 v10 v11 v12 v13 v14 v15 v16 v17 v18 v19 v20 v21 v22 v23 v24 v25 v26
      v27 v28 v29 v30 v31 v32 v33 v34 v35 v36 v37 v38 v39 v40 v41 v42 v43 v44 v45 v46 v47 v48 v49
      v50 v51 v52 v53 v54 v55 v56 v57 v58 v59 v60 v61 v62 v63 v64 v65 v66 t6 t72 t73

unfoldable pub part_4 :
    ℕ
    → ℕ
    → ℕ
    → ℕ
    → ℕ
    → ℕ
    → ℕ
    → ℕ
    → ℕ
    → ℕ
    → ℕ
    → ℕ
    → ℕ
    → ℕ
    → ℕ
    → ℕ
    → ℕ
    → ℕ
    → ℕ
    → ℕ
    → ℕ
    → ℕ
    → ℕ
    → ℕ
    → ℕ
    → ℕ
    → ℕ
    → ℕ
    → ℕ
    → ℕ
    → ℕ
    → ℕ
    → ℕ
    → ℕ
    → ℕ
    → ℕ
    → ℕ
    → Digest
part_4 v2 v4 v5 v6 v7 v8 v9 v10 v11 v12 v13 v14 v15 v16 v17 v18 v19 v20 v21 v22 v23 v24 v25 v26 v27
      v28 v29 v30 v31 v32 v33 v34 v35 v36 v37 v38 t6 =
    let t46 = v38 in
    let t47 = v25 xor v32 in
    let t48 = v20 xor v29 xor v32 in
    let v39 = rotl32 (v24 xor v30 xor v28 xor v25) 1 in
    let v40 = rotl32 (t48 xor v39) 1 in
    let t49 = t47 xor v40 in
    let v41 = rotl32 (v22 xor v28 xor v39 xor v27) 1 in
    let v42 = rotl32 (t49 xor v41) 1 in
    let t50 = t46 xor v42 in
    let t51 = v27 xor v40 xor v42 in
    let v43 = rotl32 (v26 xor v39 xor v41 xor v38) 1 in
    let v44 = rotl32 (t51 xor v43) 1 in
    let t52 = t50 xor v44 in
    let t53 = v37 xor v41 xor v43 in
    let t54 = v36 xor v27 xor v38 in
    let t55 = v35 xor v26 xor v37 in
    let t56 = v34 xor v19 xor v36 in
    let t57 = v33 xor v18 xor v35 in
    let t58 = v32 xor v17 xor v34 in
    let v45 = rotl32 (v28 xor v11 xor v33 xor v40) 1 in
    let v46 = rotl32 (t58 xor v45) 1 in
    let v47 = rotl32 (t57 xor v46) 1 in
    let v48 = rotl32 (t56 xor v47) 1 in
    let v49 = rotl32 (t55 xor v48) 1 in
    let v50 = rotl32 (t54 xor v49) 1 in
    let v51 = rotl32 (t53 xor v50) 1 in
    let v52 = rotl32 (t52 xor v51) 1 in
    let t59 = v52 in
    part_5 v2 v4 v5 v6 v7 v8 v9 v10 v11 v12 v13 v14 v15 v16 v17 v18 v19 v20 v21 v22 v23 v24 v25 v26
      v27 v28 v29 v30 v31 v32 v33 v34 v35 v36 v37 v38 v39 v40 v41 v42 v43 v44 v45 v46 v47 v48 v49
      v50 v51 v52 t6 t59
