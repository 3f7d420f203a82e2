-- ===== src/Core/V5/Blocks.antt =====
-- `fn6` over any count of blocks, with its state in the frame of `Xuuid_new_v5`.
use hyper_uuid.Prelude.{
  ℕ, zero, suc, ◌+◌, ◌*◌, ◌^◌, ◌<◌, ◌≤◌, ◌≡◌, inl, inr, refl, ap, ◌∙◌, arith, ◌==◌, Bool-cases,
  ne→not-==, ==_iff, not-==→ne, true, false, ◌≢◌,
}
use hyper_uuid.Word.{add32, shl32}
use hyper_uuid.Memory.{Memory, load32}
use hyper_uuid.Sha.{Digest, absorb}
use hyper_uuid.Sha.Forms.{IsWords}
use hyper_uuid.Core.V5.Block.{fn6_loop, fn6, load_digest, store_digest}
use hyper_uuid.Core.V5.Block.Words.{part_1}
use hyper_uuid.Core.V5.Absorbs.{absorb-IsWords, block-compress}

-- The state in the frame reads back as it was stored, and the rest of the memory stays.
pub load-store :
    (mem : Memory) (s : Digest) → IsWords s → load_digest (store_digest mem 65384 s) 65384 ≡ s
load-store mem s h =
    let ea : load32 (store_digest mem 65384 s) 65384 ≡ s.a = omega (arith, h.a_lt) in
    let eb : load32 (store_digest mem 65384 s) 65388 ≡ s.b = omega (arith, h.b_lt) in
    let ec : load32 (store_digest mem 65384 s) 65392 ≡ s.c = omega (arith, h.c_lt) in
    let ed : load32 (store_digest mem 65384 s) 65396 ≡ s.d = omega (arith, h.d_lt) in
    let ee : load32 (store_digest mem 65384 s) 65400 ≡ s.e = omega (arith, h.e_lt) in
    λ i. record { a = ea i; b = eb i; c = ec i; d = ed i; e = ee i }

pub store_above :
    (mem : Memory) (s : Digest) (b : ℕ) → 65404 ≤ b → store_digest mem 65384 s b ≡ mem b
store_above mem s b h = ground arith

pub store_below :
    (mem : Memory) (s : Digest) (b : ℕ) → b < 65384 → store_digest mem 65384 s b ≡ mem b
store_below mem s b h = ground arith

module _ (bytes : ℕ → ℕ) (bytes_lt : (i : ℕ) → bytes i < 256) (s : Digest) (h : IsWords s)
    (mem : Memory) (v1 j n : ℕ) (low : v1 + 64 * n < 2 ^ 32)
    (here : (i : ℕ) → i < 64 * n → mem (v1 + i) ≡ bytes (64 * j + i)) where
  pass :
      (k : ℕ)
      → k < n
      → (let s = absorb bytes (j + k) s in part_1 mem (v1 + 64 * k) s.c s.e s.d s.b s.a)
        ≡ absorb bytes (j + suc k) s
  unfolding absorb
  pass k less =
      let shifted : suc (j + k) ≡ j + suc k = omega arith in
      let next : absorb bytes (suc (j + k)) s ≡ absorb bytes (j + suc k) s =
        ap (λ (t : ℕ). absorb bytes t s) shifted in
      block-compress bytes bytes_lt mem (v1 + 64 * k) (j + k) (omega (arith, low, less))
        (λ i hi.
          ap mem (omega arith)
          ∙ here (64 * k + i) (omega (arith, less, hi))
          ∙ ap bytes (omega arith))
        (absorb bytes (j + k) s) (absorb-IsWords bytes bytes_lt (j + k) s h)
      ∙ next

  fn6_loop_lem :
      (fuel k : ℕ)
      → k < n
      → n ≤ k + fuel
      → fn6_loop fuel mem (v1 + 64 * k) (v1 + 64 * n) (absorb bytes (j + k) s)
        ≡ absorb bytes (j + n) s
  unfolding fn6_loop
  fn6_loop_lem zero k less enough = absurd (omega arith)
  fn6_loop_lem (suc fuel) k less enough =
      let moved : add32 (v1 + 64 * k) 64 ≡ v1 + 64 * suc k = omega (arith, low, less) in
      elim (Bool-cases (v1 + 64 * suc k == v1 + 64 * n)) [
        | inl e ↦
            let same = (==_iff (v1 + 64 * suc k) (v1 + 64 * n)).0 e in
            let last : suc k ≡ n = omega (arith, same) in
            rw (pass k less, moved, e) (ap (λ (t : ℕ). absorb bytes (j + t) s) last)
        | inr more ↦
            let differ = not-==→ne (v1 + 64 * suc k) (v1 + 64 * n) more in
            let distinct : suc k ≢ n = λ e. differ (ap (λ (t : ℕ). v1 + 64 * t) e) in
            rw (pass k less, moved, more)
              (fn6_loop_lem fuel (suc k) (omega (arith, less, distinct)) (omega (arith, enough)))
      ]

  fn6_none : (n == 0) ≡ true → fn6 mem 65384 v1 n ≡ mem
  unfolding fn6
  fn6_none e = rw e refl

  fn6_state :
      0 < n
      → load_digest mem 65384 ≡ absorb bytes j s
      → fn6 mem 65384 v1 n ≡ store_digest mem 65384 (absorb bytes (j + n) s)
  unfolding fn6
  fn6_state some_block at =
      let nonzero : (n == 0) ≡ false = ne→not-== n 0 (λ e. omega (arith, some_block)) in
      let end : add32 v1 (shl32 n 6) ≡ v1 + 64 * n = omega (arith, low) in
      let start : fn6_loop n mem v1 (v1 + 64 * n) (absorb bytes j s) ≡ absorb bytes (j + n) s =
        ap (λ (t : ℕ). fn6_loop n mem t (v1 + 64 * n) (absorb bytes j s)) (omega arith)
        ∙ ap (λ (t : ℕ). fn6_loop n mem (v1 + 64 * 0) (v1 + 64 * n) (absorb bytes t s))
            (omega arith)
        ∙ fn6_loop_lem n 0 some_block (omega arith) in
      rw (nonzero, end)
        (ap (λ (t : Digest). store_digest mem 65384 (fn6_loop n mem v1 (v1 + 64 * n) t)) at
          ∙ ap (store_digest mem 65384) start)

  pub fn6_lem :
      load_digest mem 65384 ≡ absorb bytes j s
      → (load_digest (fn6 mem 65384 v1 n) 65384 ≡ absorb bytes (j + n) s)
        × ((b : ℕ) → 65404 ≤ b → fn6 mem 65384 v1 n b ≡ mem b)
        × ((b : ℕ) → b < 65384 → fn6 mem 65384 v1 n b ≡ mem b)
  fn6_lem at = elim (Bool-cases (n == 0)) [
    | inl none ↦
        let e = fn6_none none in
        let count : j ≡ j + n = omega (arith, (==_iff n 0).0 none) in
        (
          ap (λ (t : Memory). load_digest t 65384) e ∙ at ∙ ap (λ (t : ℕ). absorb bytes t s) count,
          λ b l. ap (λ (t : Memory). t b) e,
          λ b l. ap (λ (t : Memory). t b) e,
        )
    | inr more ↦
        let nonzero = not-==→ne n 0 more in
        let some_block : 0 < n = omega (arith, nonzero) in
        let e = fn6_state some_block at in
        (
          ap (λ (t : Memory). load_digest t 65384) e
              ∙ load-store mem (absorb bytes (j + n) s) (absorb-IsWords bytes bytes_lt (j + n) s h),
          λ b l. ap (λ (t : Memory). t b) e ∙ store_above mem (absorb bytes (j + n) s) b l,
          λ b l. ap (λ (t : Memory). t b) e ∙ store_below mem (absorb bytes (j + n) s) b l,
        )
  ]
