-- ===== src/Core/V5/Block/Late.antt =====
-- Lines 754 to 847 of go/internal/core/core.go, in `fn6`: its straight-line code for one block,
-- the last rounds and the sums with the earlier value. The lines are cut into parts; each one ends in the next.
use hyper_uuid.Prelude.{ℕ}
use hyper_uuid.Word.{◌xor◌, ◌and◌, neg32, add32, rotl32}
use hyper_uuid.Sha.{Digest}

unfoldable pub part_15 :
    ℕ → ℕ → ℕ → ℕ → ℕ → ℕ → ℕ → ℕ → ℕ → ℕ → ℕ → ℕ → ℕ → ℕ → ℕ → ℕ → ℕ → ℕ → ℕ → ℕ → ℕ → Digest
part_15 v2 v4 v5 v6 v7 v8 v11 v17 v18 v22 v64 v65 v70 v74 v75 v76 v77 v79 v81 v82 t85 =
    let v19 = rotl32 v11 30 in
    let t215 = add32 t85 v19 in
    let t216 = add32 v79 v17 in
    let v20 = rotl32 v8 30 in
    let t217 = v20 in
    let v7 = rotl32 v7 30 in
    let t218 = add32 t216 (t217 xor v7 xor v11) in
    let v22 = rotl32 (v74 xor v64 xor v76 xor v22) 1 in
    let v8 =
      add32 (add32 (add32 (add32 v22 v18) (v7 xor v17 xor v8)) (rotl32 v11 5)) (neg32 899497514) in
    let v11 = add32 (add32 t218 (rotl32 v8 5)) (neg32 899497514) in
    let v18 = rotl32 v11 30 in
    let t219 = v18 in
    let v17 = rotl32 v8 30 in
    let t220 = t219 xor v17 in
    let v8 =
      add32
        (add32 (add32 (add32 (rotl32 (v70 xor v74 xor v82 xor v81) 1) v7) (v19 xor v20 xor v8))
          (rotl32 v11 5))
        (neg32 899497514) in
    let t221 = add32 t215 (t220 xor v8) in
    let v11 =
      add32
        (add32 (add32 (add32 (rotl32 (v75 xor v65 xor v77 xor v22) 1) v20) (v17 xor v19 xor v11))
          (rotl32 v8 5))
        (neg32 899497514) in
    let v7 = add32 (add32 t221 (rotl32 v11 5)) (neg32 899497514) in
    let v6 = add32 v11 v6 in
    let v5 = add32 v18 v5 in
    let v2 = add32 (rotl32 v8 30) v2 in
    let v4 = add32 v17 v4 in record { a = v7; b = v6; c = v2; d = v5; e = v4 }

unfoldable pub part_14 :
    ℕ
    → ℕ
    → ℕ
    → ℕ
    → ℕ
    → ℕ
    → ℕ
    → ℕ
    → ℕ
    → ℕ
    → ℕ
    → ℕ
    → ℕ
    → ℕ
    → ℕ
    → ℕ
    → ℕ
    → ℕ
    → ℕ
    → ℕ
    → ℕ
    → ℕ
    → ℕ
    → ℕ
    → ℕ
    → ℕ
    → ℕ
    → ℕ
    → ℕ
    → Digest
part_14 v2 v4 v5 v6 v7 v8 v11 v17 v63 v64 v65 v66 v70 v71 v72 v73 v74 v75 v76 v77 v78 v79 v80 v81
      v82 t85 t87 t88 t200 =
    let v18 = add32 (add32 t200 (rotl32 v8 5)) (neg32 899497514) in
    let v19 = rotl32 v18 30 in
    let t201 = add32 t88 v19 in
    let t202 = add32 v80 v11 in
    let v20 = rotl32 v8 30 in
    let t203 = v20 in
    let v7 = rotl32 v7 30 in
    let t204 = add32 t202 (t203 xor v7 xor v18) in
    let v8 =
      add32 (add32 (add32 (add32 v66 v17) (v7 xor v11 xor v8)) (rotl32 v18 5)) (neg32 899497514) in
    let v11 = add32 (add32 t204 (rotl32 v8 5)) (neg32 899497514) in
    let v17 = rotl32 v11 30 in
    let t205 = v17 in
    let v18 = rotl32 v8 30 in
    let t206 = t205 xor v18 in
    let v7 =
      add32 (add32 (add32 (add32 v76 v7) (v19 xor v20 xor v8)) (rotl32 v11 5)) (neg32 899497514) in
    let t207 = add32 t201 (t206 xor v7) in
    let v8 =
      add32 (add32 (add32 (add32 v71 v20) (v18 xor v19 xor v11)) (rotl32 v7 5)) (neg32 899497514) in
    let v11 = add32 (add32 t207 (rotl32 v8 5)) (neg32 899497514) in
    let v19 = rotl32 v11 30 in
    let t208 = add32 t87 v19 in
    let t209 = add32 v72 v17 in
    let v20 = rotl32 v8 30 in
    let t210 = v20 in
    let v7 = rotl32 v7 30 in
    let t211 = add32 t209 (t210 xor v7 xor v11) in
    let v8 =
      add32 (add32 (add32 (add32 v77 v18) (v7 xor v17 xor v8)) (rotl32 v11 5)) (neg32 899497514) in
    let v11 = add32 (add32 t211 (rotl32 v8 5)) (neg32 899497514) in
    let v17 = rotl32 v11 30 in
    let t212 = v17 in
    let v18 = rotl32 v8 30 in
    let t213 = t212 xor v18 in
    let v22 = rotl32 (v73 xor v63 xor v75 xor v82) 1 in
    let v7 =
      add32 (add32 (add32 (add32 v22 v7) (v19 xor v20 xor v8)) (rotl32 v11 5)) (neg32 899497514) in
    let t214 = add32 t208 (t213 xor v7) in
    let v8 =
      add32 (add32 (add32 (add32 v78 v20) (v18 xor v19 xor v11)) (rotl32 v7 5)) (neg32 899497514) in
    let v11 = add32 (add32 t214 (rotl32 v8 5)) (neg32 899497514) in
    part_15 v2 v4 v5 v6 v7 v8 v11 v17 v18 v22 v64 v65 v70 v74 v75 v76 v77 v79 v81 v82 t85

unfoldable pub part_13 :
    ℕ
    → ℕ
    → ℕ
    → ℕ
    → ℕ
    → ℕ
    → ℕ
    → ℕ
    → ℕ
    → ℕ
    → ℕ
    → ℕ
    → ℕ
    → ℕ
    → ℕ
    → ℕ
    → ℕ
    → ℕ
    → ℕ
    → ℕ
    → ℕ
    → ℕ
    → ℕ
    → ℕ
    → ℕ
    → ℕ
    → ℕ
    → ℕ
    → ℕ
    → ℕ
    → ℕ
    → ℕ
    → ℕ
    → ℕ
    → Digest
part_13 v2 v4 v5 v6 v8 v17 v19 v20 v58 v63 v64 v65 v66 v68 v69 v70 v71 v72 v73 v74 v75 v76 v77 v78
      v79 v80 v81 v82 t85 t87 t88 t89 t90 t184 =
    let v22 = add32 (add32 t184 (rotl32 v19 5)) (neg32 1894007588) in
    let v7 = rotl32 v22 30 in
    let t185 = add32 t90 v7 in
    let t186 = v58 in
    let v11 = rotl32 v20 30 in
    let t187 = add32 t186 v11 in
    let t188 = v7 in
    let v18 = rotl32 v19 30 in
    let t189 = t188 xor v18 in
    let v17 =
      add32 (add32 (add32 (add32 v68 v17) (v19 and (v11 xor v8) xor v11 and v8)) (rotl32 v22 5))
        (neg32 1894007588) in
    let t190 = add32 t187 (t189 and v17 xor v7 and v18) in
    let v19 =
      add32 (add32 (add32 (add32 v63 v8) ((v18 xor v11) and v22 xor v18 and v11)) (rotl32 v17 5))
        (neg32 1894007588) in
    let v20 = add32 (add32 t190 (rotl32 v19 5)) (neg32 1894007588) in
    let t191 = v20 in
    let v11 = rotl32 v19 30 in
    let t192 = v11 in
    let v8 = rotl32 v17 30 in
    let t193 = add32 t185 (t191 and (t192 xor v8) xor v11 and v8) in
    let v7 =
      add32 (add32 (add32 (add32 v73 v18) (v19 and (v8 xor v7) xor v8 and v7)) (rotl32 v20 5))
        (neg32 1894007588) in
    let v17 = add32 (add32 t193 (rotl32 v7 5)) (neg32 1894007588) in
    let v18 = rotl32 v17 30 in
    let t194 = add32 t89 v18 in
    let t195 = add32 v74 v11 in
    let v19 = rotl32 v7 30 in
    let t196 = v19 in
    let v20 = rotl32 v20 30 in
    let t197 = add32 t195 (t196 xor v20 xor v17) in
    let v7 =
      add32 (add32 (add32 (add32 v69 v8) (v20 xor v11 xor v7)) (rotl32 v17 5)) (neg32 899497514) in
    let v8 = add32 (add32 t197 (rotl32 v7 5)) (neg32 899497514) in
    let v11 = rotl32 v8 30 in
    let t198 = v11 in
    let v17 = rotl32 v7 30 in
    let t199 = t198 xor v17 in
    let v7 =
      add32 (add32 (add32 (add32 v65 v20) (v18 xor v19 xor v7)) (rotl32 v8 5)) (neg32 899497514) in
    let t200 = add32 t194 (t199 xor v7) in
    let v8 =
      add32 (add32 (add32 (add32 v70 v19) (v17 xor v18 xor v8)) (rotl32 v7 5)) (neg32 899497514) in
    part_14 v2 v4 v5 v6 v7 v8 v11 v17 v63 v64 v65 v66 v70 v71 v72 v73 v74 v75 v76 v77 v78 v79 v80
      v81 v82 t85 t87 t88 t200
