-- ===== src/Core/V7/Batch/Loop.antt =====
-- The loop that writes a batch in place, from the last UUID to the first, over its random bytes.
use hyper_uuid.Prelude.{
  ℕ, ◌+◌, ◌-◌, ◌*◌, ◌/◌, ◌^◌, ◌<◌, ◌≤◌, ◌≡◌, ◌⊎◌, inl, inr, refl, ap, ◌∙◌, arith, ltb, ◌==◌,
  if◌then◌else◌, Bool-cases, ==_iff, le→not-ltb,
}
use hyper_uuid.Prelude.{some}
use hyper_uuid.Word.{add32, sub32, add64, shr, flag}
use hyper_uuid.Memory.{Memory, load64, store64}
use hyper_uuid.Uuid.{Uuid, SameBytes-eq, read_uuid}
use hyper_uuid.Uuid.Layout.{v7_layout}
use hyper_uuid.Core.V7.Batch.{Writing, batch_swap, batch_round}
use hyper_uuid.Core.V7.Batch.Words.{reversed, batch_swap-reversed}
use hyper_uuid.Core.V7.Batch.Put.{
  position_of, stored, put-stored, low_word, high_word, store64-below, store64-above,
  read_uuid-split, split-layout,
}

-- What the loop remembers of the UUID before: its millisecond v10, in memory's order v14.
abbrev pub Cached : ℕ → ℕ → Type 0
Cached v10 v14 = (v10 ≡ 2 ^ 64 - 1) ⊎ (v14 ≡ reversed v10)

swapped :
    (v10 v14 ms : ℕ)
    → ms < 2 ^ 48
    → Cached v10 v14
    → (if ms == v10 then v14 else batch_swap ms) ≡ reversed ms
swapped v10 v14 ms h c = elim (Bool-cases (ms == v10)) [
  | inl e ↦ rw e (known c ((==_iff ms v10).0 e))
  | inr n ↦ rw n (batch_swap-reversed ms h)
]
  where
    known : Cached v10 v14 → ms ≡ v10 → v14 ≡ reversed ms
    known (inl e) q = absurd (omega arith)
    known (inr e) q = rw q e

module _ (n v11 v12 : ℕ) (hn : n ≤ 2 ^ 26) (h11 : v11 ≤ 2 ^ 20) (h12 : v12 < 2 ^ 48 - 1)
    (mem : Memory) where
  -- The loop's variables before the UUID with the number k, and after it.
  abbrev pub before : ℕ → ℕ → ℕ → Writing
  before k v10 v14 = record {
    mem = mem;
    v2 = 6 * k;
    v4 = 16 * k + 16;
    v7 = k;
    v10 = v10;
    v14 = v14;
  }

  abbrev pub after : ℕ → Writing
  after k = record {
    mem = stored mem (position_of v11 v12 k) k;
    v2 = sub32 (6 * k) 6;
    v4 = 16 * k;
    v7 = sub32 k 1;
    v10 = position_of v11 v12 k / 2 ^ 20;
    v14 = reversed (position_of v11 v12 k / 2 ^ 20);
  }

  pub round-after :
      (k v10 v14 : ℕ)
      → k < n
      → Cached v10 v14
      → batch_round 131072 (16 * n) v11 v12 (before k v10 v14) ≡ some (after k)
  unfolding batch_round
  round-after k v10 v14 hk c =
      let ms = position_of v11 v12 k / 2 ^ 20 in
      let first : add32 (shr k 6) v11 ≡ k / 64 + v11 = omega arith in
      let milli : add64 v12 (flag (ltb 0xfffff (k / 64 + v11))) ≡ ms = ground arith in
      let base : add32 (sub32 131072 16) (16 * k + 16) ≡ 131072 + 16 * k = omega arith in
      let back : sub32 (16 * k + 16) 16 ≡ 16 * k = omega arith in
      rw
        (
          le→not-ltb (16 * n) (add32 (6 * k) 8) (omega arith),
          first,
          milli,
          base,
          back,
          swapped v10 v14 ms (omega arith) c,
          le→not-ltb (16 * n) (16 * k + 16) (omega arith),
          le→not-ltb (16 * k + 16) (16 * k) (omega arith),
          put-stored mem v11 v12 k h11 h12 (omega arith) (reversed ms) refl,
        )
        refl

-- The UUID with the number j of a batch from the position p on.
abbrev pub block_uuid : (ℕ → ℕ) → ℕ → ℕ → Uuid
block_uuid noise p j =
    v7_layout (p + j / 64) j (noise (6 * j)) (noise (6 * j + 1)) (noise (6 * j + 2))
      (noise (6 * j + 3)) (noise (6 * j + 4)) (noise (6 * j + 5))

-- What the loop has done from the UUID with the number k down: the UUIDs stand in place, and the
-- rest of memory is as it was.
pub record Wrote (noise : ℕ → ℕ) (p k : ℕ) (mem mem' : Memory) : Type 0 where
  pub below : (a : ℕ) → a < 131072 → mem' a ≡ mem a
  pub above : (a : ℕ) → 131072 + 16 * k + 16 ≤ a → mem' a ≡ mem a
  pub placed : (j : ℕ) → j ≤ k → read_uuid mem' (131072 + 16 * j) ≡ block_uuid noise p j

-- The memory holds the random bytes of the UUIDs up to the number k.
pub record IsNoise (noise : ℕ → ℕ) (k : ℕ) (mem : Memory) : Type 0 where
  pub loaded : (i : ℕ) → i < 6 * k + 6 → mem (131072 + i) ≡ noise i
  pub noise_lt : (i : ℕ) → i < 6 * k + 6 → noise i < 256

pub stored-below : (mem : Memory) (p k a : ℕ) → a < 131072 + 16 * k → stored mem p k a ≡ mem a
stored-below mem p k a h =
    store64-below (store64 mem (131072 + 16 * k + 8) _) (131072 + 16 * k) (high_word p) a h
    ∙ store64-below mem (131072 + 16 * k + 8) (low_word p k (load64 mem (131072 + 6 * k))) a
        (omega arith)

pub stored-above : (mem : Memory) (p k a : ℕ) → 131072 + 16 * k + 16 ≤ a → stored mem p k a ≡ mem a
stored-above mem p k a h =
    store64-above (store64 mem (131072 + 16 * k + 8) _) (131072 + 16 * k) (high_word p) a
      (omega arith)
    ∙ store64-above mem (131072 + 16 * k + 8) (low_word p k (load64 mem (131072 + 6 * k))) a
        (omega arith)

module _ (noise : ℕ → ℕ) (mem : Memory) (k : ℕ) (h : IsNoise noise k mem) where
  noise_at : (i : ℕ) → i < 6 → (a : ℕ) → a ≡ 131072 + 6 * k + i → mem a ≡ noise (6 * k + i)
  noise_at i hi a e = ap mem (e ∙ omega arith) ∙ h.loaded (6 * k + i) (omega arith)

  pub stored-uuid :
      (p : ℕ)
      → p < 2 ^ 68
      → read_uuid (stored mem p k) (131072 + 16 * k)
        ≡ v7_layout p k
            (noise (6 * k))
            (noise (6 * k + 1))
            (noise (6 * k + 2))
            (noise (6 * k + 3))
            (noise (6 * k + 4))
            (noise (6 * k + 5))
  stored-uuid p hp =
      let a = 131072 + 6 * k in
      let n0 : mem a ≡ noise (6 * k) = h.loaded (6 * k) (omega arith) in
      let n1 : mem (a + 1) ≡ noise (6 * k + 1) = noise_at 1 (omega arith) (a + 1) refl in
      let n2 : mem (a + 2) ≡ noise (6 * k + 2) = noise_at 2 (omega arith) (a + 2) refl in
      let n3 : mem (a + 2 + 1) ≡ noise (6 * k + 3) =
        noise_at 3 (omega arith) (a + 2 + 1) (omega arith) in
      let n4 : mem (a + 4) ≡ noise (6 * k + 4) = noise_at 4 (omega arith) (a + 4) refl in
      let n5 : mem (a + 4 + 1) ≡ noise (6 * k + 5) =
        noise_at 5 (omega arith) (a + 4 + 1) (omega arith) in
      SameBytes-eq
        (read_uuid-split (mem) (131072 + 16 * k) (high_word p) (low_word p k (load64 mem a)))
      ∙ rw (n0, n1, n2, n3, n4, n5)
          (SameBytes-eq (
            split-layout p k (noise (6 * k)) (noise (6 * k + 1)) (noise (6 * k + 2))
              (noise (6 * k + 3)) (noise (6 * k + 4)) (noise (6 * k + 5)) (mem (a + 4 + 2))
              (mem (a + 4 + 2 + 1)) hp (h.noise_lt (6 * k) (omega arith))
              (h.noise_lt (6 * k + 1) (omega arith)) (h.noise_lt (6 * k + 2) (omega arith))
              (h.noise_lt (6 * k + 3) (omega arith)) (h.noise_lt (6 * k + 4) (omega arith))
              (h.noise_lt (6 * k + 5) (omega arith))))

pub same_uuid :
    (mem mem' : Memory) (p : ℕ)
    → ((a : ℕ) → p ≤ a → a < p + 16 → mem' a ≡ mem a)
    → read_uuid mem' p ≡ read_uuid mem p
same_uuid mem mem' p same = SameBytes-eq (record {
  e0 = same p (omega arith) (omega arith);
  e1 = same (p + 1) (omega arith) (omega arith);
  e2 = same (p + 2) (omega arith) (omega arith);
  e3 = same (p + 3) (omega arith) (omega arith);
  e4 = same (p + 4) (omega arith) (omega arith);
  e5 = same (p + 5) (omega arith) (omega arith);
  e6 = same (p + 6) (omega arith) (omega arith);
  e7 = same (p + 7) (omega arith) (omega arith);
  e8 = same (p + 8) (omega arith) (omega arith);
  e9 = same (p + 9) (omega arith) (omega arith);
  e10 = same (p + 10) (omega arith) (omega arith);
  e11 = same (p + 11) (omega arith) (omega arith);
  e12 = same (p + 12) (omega arith) (omega arith);
  e13 = same (p + 13) (omega arith) (omega arith);
  e14 = same (p + 14) (omega arith) (omega arith);
  e15 = same (p + 15) (omega arith) (omega arith);
})
