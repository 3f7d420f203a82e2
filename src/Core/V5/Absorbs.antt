-- ===== src/Core/V5/Absorbs.antt =====
-- `fn6` against the block steps of FIPS 180-4, for a state at its place in the frame.
use hyper_uuid.Prelude.{ℕ, zero, suc, ◌+◌, ◌*◌, ◌^◌, ◌<◌, ◌≤◌, ◌≡◌, refl, sym, ap, ◌∙◌, arith}
use hyper_uuid.Word.{add32}
use hyper_uuid.Memory.{Memory, load32}
use hyper_uuid.Sha.{Digest, rounds, compress, schedule, word_at, absorb}
use hyper_uuid.Sha.Sequence.{word}
use hyper_uuid.Sha.Forms.{IsWords}
use hyper_uuid.Core.V5.Swap.{swap32, quad, swap32_lem}
use hyper_uuid.Core.V5.Block.Words.{part_1}
use hyper_uuid.Core.V5.Refines.Words.{part_1_lem}

schedule_low : (m : ℕ → ℕ) (t : ℕ) → t < 16 → schedule m t ≡ m t
unfolding schedule
schedule_low m zero h = refl
schedule_low m (suc zero) h = refl
schedule_low m (suc (suc zero)) h = refl
schedule_low m (suc (suc (suc zero))) h = refl
schedule_low m (suc (suc (suc (suc zero)))) h = refl
schedule_low m (suc (suc (suc (suc (suc zero))))) h = refl
schedule_low m (suc (suc (suc (suc (suc (suc zero)))))) h = refl
schedule_low m (suc (suc (suc (suc (suc (suc (suc zero))))))) h = refl
schedule_low m (suc (suc (suc (suc (suc (suc (suc (suc zero)))))))) h = refl
schedule_low m (suc (suc (suc (suc (suc (suc (suc (suc (suc zero))))))))) h = refl
schedule_low m (suc (suc (suc (suc (suc (suc (suc (suc (suc (suc zero)))))))))) h = refl
schedule_low m (suc (suc (suc (suc (suc (suc (suc (suc (suc (suc (suc zero))))))))))) h = refl
schedule_low m (suc (suc (suc (suc (suc (suc (suc (suc (suc (suc (suc (suc zero)))))))))))) h = refl
schedule_low m (suc (suc (suc (suc (suc (suc (suc (suc (suc (suc (suc (suc (suc zero)))))))))))))
      h =
    refl
schedule_low m
      (suc (suc (suc (suc (suc (suc (suc (suc (suc (suc (suc (suc (suc (suc zero)))))))))))))) h =
    refl
schedule_low m
      (suc (suc (suc (suc (suc (suc (suc (suc (suc (suc (suc (suc (suc (suc (suc zero)))))))))))))))
      h =
    refl
schedule_low m
      (suc
        (suc (suc (suc (suc (suc (suc (suc (suc (suc (suc (suc (suc (suc (suc (suc t))))))))))))))))
      h =
    absurd (omega arith)

word_swapped :
    (mem : Memory) (a b0 b1 b2 b3 : ℕ)
    → mem a ≡ b0
    → mem (a + 1) ≡ b1
    → mem (a + 2) ≡ b2
    → mem (a + 3) ≡ b3
    → b0 < 256
    → b1 < 256
    → b2 < 256
    → b3 < 256
    → swap32 (load32 mem a) ≡ b0 * 2 ^ 24 + b1 * 2 ^ 16 + b2 * 2 ^ 8 + b3
word_swapped mem a b0 b1 b2 b3 e0 e1 e2 e3 h0 h1 h2 h3 =
    let last : mem (a + 2 + 1) ≡ mem (a + 3) = ap mem (omega arith) in
    let read : load32 mem a ≡ quad b3 b2 b1 b0 = omega (arith, last, e0, e1, e2, e3) in
    ap swap32 read ∙ swap32_lem b3 b2 b1 b0 h3 h2 h1 h0 ∙ omega arith

compress-IsWords : (m : ℕ → ℕ) (s : Digest) → IsWords (compress m s)
unfolding compress
compress-IsWords m s = record {
  a_lt = omega arith;
  b_lt = omega arith;
  c_lt = omega arith;
  d_lt = omega arith;
  e_lt = omega arith;
}

module _ (bytes : ℕ → ℕ) (bytes_lt : (i : ℕ) → bytes i < 256) where
  pub absorb-IsWords : (n : ℕ) (s : Digest) → IsWords s → IsWords (absorb bytes n s)
  unfolding absorb
  absorb-IsWords zero s h = h
  absorb-IsWords (suc n) s h = compress-IsWords (word_at bytes n) (absorb bytes n s)

  module _ (mem : Memory) (v1 j : ℕ) (low : v1 + 64 ≤ 2 ^ 32)
      (here : (i : ℕ) → i < 64 → mem (v1 + i) ≡ bytes (64 * j + i)) where
    byte_here : (t k : ℕ) → t < 16 → k < 4 → mem (v1 + 4 * t + k) ≡ bytes (64 * j + 4 * t + k)
    byte_here t k ht hk =
        ap mem (omega arith) ∙ here (4 * t + k) (omega arith) ∙ ap bytes (omega arith)

    word_here :
        (t : ℕ) → t < 16 → swap32 (load32 mem (add32 v1 (4 * t))) ≡ schedule (word_at bytes j) t
    unfolding word_at
    word_here t h =
        let i = 64 * j + 4 * t in
        let a : add32 v1 (4 * t) ≡ v1 + 4 * t = omega arith in
        let first : mem (v1 + 4 * t) ≡ bytes i =
          ap mem (omega arith) ∙ byte_here t 0 h (omega arith) ∙ ap bytes (omega arith) in
        ap (λ (x : ℕ). swap32 (load32 mem x)) a
        ∙ word_swapped mem (v1 + 4 * t) (bytes i) (bytes (i + 1)) (bytes (i + 2)) (bytes (i + 3))
            first (byte_here t 1 h (omega arith)) (byte_here t 2 h (omega arith))
            (byte_here t 3 h (omega arith)) (bytes_lt i) (bytes_lt (i + 1)) (bytes_lt (i + 2))
            (bytes_lt (i + 3))
        ∙ sym (schedule_low (word_at bytes j) t h)

    -- Where the memory holds block j of a string of bytes at v1, with room for it below 2^32, and
    -- the words of the state are below 2^32, the unrolled code of `fn6` for one block computes
    -- from them the hash value that the eighty rounds of FIPS 180-4 compute from that block.
    pub block-compress :
        (s : Digest) → IsWords s → part_1 mem v1 s.c s.e s.d s.b s.a ≡ compress (word_at bytes j) s
    unfolding word rounds
    block-compress s h =
        let first : swap32 (load32 mem v1) ≡ schedule (word_at bytes j) 0 =
          ap (λ (x : ℕ). swap32 (load32 mem x)) (omega arith) ∙ word_here 0 (omega arith) in
        part_1_lem (word_at bytes j) s h mem v1 word_here first
