-- ===== src/Core/V7/Batch/Backward.antt =====
-- The whole loop by induction on the number of the UUID that it has come down to.
use mathlib.Core.Path.{subst}
use hyper_uuid.Prelude.{
  ℕ, zero, suc, ◌+◌, ◌-◌, ◌*◌, ◌/◌, ◌^◌, ◌<◌, ◌≤◌, ◌≡◌, inl, inr, refl, ap, sym, ◌∙◌, arith, true,
  false, ◌==◌, lt_or_eq, some,
}
use hyper_uuid.Word.{u32, neg32, neg64, sub32}
use hyper_uuid.Memory.{Memory}
use hyper_uuid.Core.V7.Batch.{Writing, batch_round, batch_write, batch_fill}
use hyper_uuid.Core.V7.Batch.Words.{reversed}
use hyper_uuid.Core.V7.Batch.Put.{position_of, stored}
use hyper_uuid.Core.V7.Batch.Loop.{
  Cached, Wrote, IsNoise, before, after, round-after, stored-below, stored-above, stored-uuid,
  same_uuid,
}

module _ (v5 v11 v12 : ℕ) (w w' : Writing) (rounds : ℕ)
    (e : batch_round 131072 v5 v11 v12 w ≡ some w') where
  batch_write-end :
      (w'.v7 == neg32 1) ≡ true → batch_write (suc rounds) 131072 v5 v11 v12 w ≡ some w'.mem
  unfolding batch_write
  batch_write-end h = rw (e, batch_write) (rw h)

  batch_write-step :
      (w'.v7 == neg32 1) ≡ false
      → batch_write (suc rounds) 131072 v5 v11 v12 w ≡ batch_write rounds 131072 v5 v11 v12 w'
  unfolding batch_write
  batch_write-step h = rw (e, batch_write) (rw h)

module _ (noise : ℕ → ℕ) (n v11 v12 : ℕ) (hn : n ≤ 2 ^ 26) (h11 : v11 ≤ 2 ^ 20)
    (h12 : v12 < 2 ^ 48 - 1) where
  abbrev first : ℕ
  first = v12 * 2 ^ 20 + v11

  IsNoise-stored :
      (k : ℕ) (mem : Memory)
      → IsNoise noise (suc k) mem
      → IsNoise noise k (stored mem (position_of v11 v12 (suc k)) (suc k))
  IsNoise-stored k mem h = record {
    loaded = λ i hi.
        stored-below mem (position_of v11 v12 (suc k)) (suc k) (131072 + i) (omega arith)
        ∙ h.loaded i (omega arith);
    noise_lt = λ i hi. h.noise_lt i (omega arith);
  }

  Wrote-last :
      (mem : Memory)
      → 0 < n
      → IsNoise noise 0 mem
      → Wrote noise first 0 mem (stored mem (position_of v11 v12 0) 0)
  Wrote-last mem h0 h = record {
    below = λ a ha. stored-below mem (position_of v11 v12 0) 0 a (omega arith);
    above = λ a ha. stored-above mem (position_of v11 v12 0) 0 a (omega arith);
    placed = λ j hj.
        let z : j ≡ 0 = omega arith in
        rw z (stored-uuid noise mem 0 h (position_of v11 v12 0) (omega arith));
  }

  Wrote-more :
      (k : ℕ) (mem mem' : Memory)
      → suc k < n
      → IsNoise noise (suc k) mem
      → Wrote noise first k (stored mem (position_of v11 v12 (suc k)) (suc k)) mem'
      → Wrote noise first (suc k) mem mem'
  Wrote-more k mem mem' hk h w = record {
    below = λ a ha. w.below a ha ∙ stored-below mem p (suc k) a (omega arith);
    above = λ a ha. w.above a (omega arith) ∙ stored-above mem p (suc k) a (omega arith);
    placed = λ j hj. elim (lt_or_eq j (suc k) hj) [
      | inl l ↦ w.placed j (omega arith)
      | inr e ↦ rw e (
          same_uuid (stored mem p (suc k)) mem' (131072 + 16 * suc k)
            (λ a from to. w.above a (omega arith))
          ∙ stored-uuid noise mem (suc k) h p (omega arith))
    ];
  }
    where
      p : ℕ
      p = position_of v11 v12 (suc k)

  after-before :
      (k : ℕ) (mem : Memory)
      → suc k < n
      → let ms = position_of v11 v12 (suc k) / 2 ^ 20 in
        after n v11 v12 hn h11 h12 mem (suc k)
        ≡ before n v11 v12 hn h11 h12
            (stored mem (position_of v11 v12 (suc k)) (suc k))
            k
            ms
            (reversed ms)
  after-before k mem hk =
      let number : sub32 (suc k) 1 ≡ k = omega arith in
      let low : sub32 (6 * suc k) 6 ≡ 6 * k = omega arith in
      let high : 16 * suc k ≡ 16 * k + 16 = omega arith in
      λ i. record {
        mem = stored mem (position_of v11 v12 (suc k)) (suc k);
        v2 = low i;
        v4 = high i;
        v7 = number i;
        v10 = position_of v11 v12 (suc k) / 2 ^ 20;
        v14 = reversed (position_of v11 v12 (suc k) / 2 ^ 20);
      }

  batch_write-Wrote :
      (k : ℕ) (mem : Memory) (v10 v14 : ℕ)
      → Cached v10 v14
      → k < n
      → IsNoise noise k mem
      → (mem' : Memory) × (batch_write
            (suc k)
            131072
            (16 * n)
            v11
            v12
            (before n v11 v12 hn h11 h12 mem k v10 v14)
          ≡ some mem')
        × Wrote noise first k mem mem'
  batch_write-Wrote zero mem v10 v14 c hk h = (
    stored mem (position_of v11 v12 0) 0,
    batch_write-end (16 * n) v11 v12 (before n v11 v12 hn h11 h12 mem 0 v10 v14)
        (after n v11 v12 hn h11 h12 mem 0) 0 (round-after n v11 v12 hn h11 h12 mem 0 v10 v14 hk c)
        refl,
    Wrote-last mem hk h,
  )
  batch_write-Wrote (suc k) mem v10 v14 c hk h =
      let mem1 = stored mem (position_of v11 v12 (suc k)) (suc k) in
      let ms = position_of v11 v12 (suc k) / 2 ^ 20 in
      let rest =
        batch_write-Wrote k mem1 ms (reversed ms) (inr refl) (omega arith)
          (IsNoise-stored k mem h) in
      let more : (sub32 (suc k) 1 == neg32 1) ≡ false = ground arith in
      (
        rest.0,
        batch_write-step (16 * n) v11 v12 (before n v11 v12 hn h11 h12 mem (suc k) v10 v14)
              (after n v11 v12 hn h11 h12 mem (suc k)) (suc k)
              (round-after n v11 v12 hn h11 h12 mem (suc k) v10 v14 hk c) more
            ∙ ap (batch_write (suc k) 131072 (16 * n) v11 v12) (after-before k mem hk)
            ∙ rest.1,
        Wrote-more k mem rest.0 hk h rest.2,
      )

-- From l11 on: the whole batch.
pub batch_fill-Wrote :
    (noise : ℕ → ℕ) (n v11 v12 : ℕ) (mem : Memory)
    → 0 < n
    → n ≤ 2 ^ 26
    → v11 ≤ 2 ^ 20
    → v12 < 2 ^ 48 - 1
    → IsNoise noise (n - 1) mem
    → (mem' : Memory) × (batch_fill mem 131072 (16 * n) n v11 v12 ≡ some mem')
      × Wrote noise (v12 * 2 ^ 20 + v11) (n - 1) mem mem'
unfolding batch_fill
batch_fill-Wrote noise zero v11 v12 mem h0 hn h11 h12 h = absurd (omega arith)
batch_fill-Wrote noise (suc k) v11 v12 mem h0 hn h11 h12 h =
    let less : suc k - 1 ≡ k = omega arith in
    let rest =
      batch_write-Wrote noise (suc k) v11 v12 hn h11 h12 k mem (2 ^ 64 - 1) 0 (inl refl)
        (omega arith) (rw (← less) h) in
    let number : sub32 (suc k) 1 ≡ k = omega arith in
    let low : sub32 (u32 (suc k * 6)) 6 ≡ 6 * k = omega arith in
    let high : 16 * suc k ≡ 16 * k + 16 = omega arith in
    let start : Path Writing
        (record {
          mem = mem;
          v2 = sub32 (u32 (suc k * 6)) 6;
          v4 = 16 * suc k;
          v7 = sub32 (suc k) 1;
          v10 = neg64 1;
          v14 = 0;
        })
        (before (suc k) v11 v12 hn h11 h12 mem k (2 ^ 64 - 1) 0) =
      λ i. record {
        mem = mem;
        v2 = low i;
        v4 = high i;
        v7 = number i;
        v10 = 2 ^ 64 - 1;
        v14 = 0;
      } in
    (
      rest.0,
      ap (batch_write (suc k) 131072 (16 * suc k) v11 v12) start ∙ rest.1,
      subst (λ x. Wrote noise (v12 * 2 ^ 20 + v11) x mem rest.0) (sym less) rest.2,
    )
