-- ===== src/Core/V7/Batch/Put.antt =====
-- The stores that put a UUID of a batch in place (l13 of the loop), byte by byte.
use hyper_uuid.Prelude.{ℕ, ◌+◌, ◌-◌, ◌*◌, ◌/◌, ◌%◌, ◌^◌, ◌<◌, ◌≤◌, ◌≡◌, refl, arith, ltb}
use hyper_uuid.Word.{add32, shl64, flag}
use hyper_uuid.Memory.{Memory, load64, store64}
use hyper_uuid.Uuid.{Uuid, SameBytes, read_uuid}
use hyper_uuid.Uuid.Layout.{v7_layout}
use hyper_uuid.Core.V7.Batch.{batch_put}
use hyper_uuid.Core.V7.Batch.Words.{
  reversed, kept_step, batch_high-sum, batch_low-sum, counter_word,
}

pub store64-below : (mem : Memory) (a v b : ℕ) → b < a → store64 mem a v b ≡ mem b
store64-below mem a v b h = ground arith

pub store64-above : (mem : Memory) (a v b : ℕ) → a + 8 ≤ b → store64 mem a v b ≡ mem b
store64-above mem a v b h = ground arith

-- The sixteen bytes of two words, the second stored first.
abbrev pub split : ℕ → ℕ → Uuid
split lo hi = record {
  b0 = lo % 256;
  b1 = lo / 2 ^ 8 % 256;
  b2 = lo / 2 ^ 16 % 256;
  b3 = lo / 2 ^ 24 % 256;
  b4 = lo / 2 ^ 32 % 256;
  b5 = lo / 2 ^ 40 % 256;
  b6 = lo / 2 ^ 48 % 256;
  b7 = lo / 2 ^ 56 % 256;
  b8 = hi % 256;
  b9 = hi / 2 ^ 8 % 256;
  b10 = hi / 2 ^ 16 % 256;
  b11 = hi / 2 ^ 24 % 256;
  b12 = hi / 2 ^ 32 % 256;
  b13 = hi / 2 ^ 40 % 256;
  b14 = hi / 2 ^ 48 % 256;
  b15 = hi / 2 ^ 56 % 256;
}

pub read_uuid-split :
    (mem : Memory) (p lo hi : ℕ)
    → SameBytes (read_uuid (store64 (store64 mem (p + 8) hi) p lo) p) (split lo hi)
read_uuid-split mem p lo hi = record {
  e0 = ground arith;
  e1 = ground arith;
  e2 = ground arith;
  e3 = ground arith;
  e4 = ground arith;
  e5 = ground arith;
  e6 = ground arith;
  e7 = ground arith;
  e8 = ground arith;
  e9 = ground arith;
  e10 = ground arith;
  e11 = ground arith;
  e12 = ground arith;
  e13 = ground arith;
  e14 = ground arith;
  e15 = ground arith;
}

-- The position and the words of the UUID with the number k.
abbrev pub position_of : ℕ → ℕ → ℕ → ℕ
position_of v11 v12 k = v12 * 2 ^ 20 + v11 + k / 64

abbrev pub low_word : ℕ → ℕ → ℕ → ℕ
low_word p k t15 =
    shl64 t15 16 + (128 + p % 2 ^ 20 / 4 % 64) + (p % 2 ^ 20 % 4 * 64 + k % 64) * 2 ^ 8

abbrev pub high_word : ℕ → ℕ
high_word p =
    reversed (p / 2 ^ 20) + (112 + p % 2 ^ 20 / 2 ^ 16) * 2 ^ 48 + p % 2 ^ 20 / 2 ^ 8 % 256 * 2 ^ 56

module _ (p k r0 r1 r2 r3 r4 r5 r6 r7 : ℕ) (hp : p < 2 ^ 68) (h0 : r0 < 256) (h1 : r1 < 256)
    (h2 : r2 < 256) (h3 : r3 < 256) (h4 : r4 < 256) (h5 : r5 < 256) where
  abbrev pub eight : ℕ
  eight =
      r0
      + r1 * 2 ^ 8
      + (r2 + r3 * 2 ^ 8) * 2 ^ 16
      + (r4 + r5 * 2 ^ 8 + (r6 + r7 * 2 ^ 8) * 2 ^ 16) * 2 ^ 32

  pub split-layout :
      SameBytes (split (high_word p) (low_word p k eight)) (v7_layout p k r0 r1 r2 r3 r4 r5)
  split-layout = record {
    e0 = omega arith;
    e1 = omega arith;
    e2 = omega arith;
    e3 = omega arith;
    e4 = omega arith;
    e5 = omega arith;
    e6 = omega arith;
    e7 = omega arith;
    e8 = omega arith;
    e9 = omega arith;
    e10 = omega arith;
    e11 = omega arith;
    e12 = omega arith;
    e13 = omega arith;
    e14 = omega arith;
    e15 = omega arith;
  }

-- The memory with the UUID of the number k.
abbrev pub stored : Memory → ℕ → ℕ → Memory
stored mem p k =
    store64 (store64 mem (131072 + 16 * k + 8) (low_word p k (load64 mem (131072 + 6 * k))))
      (131072 + 16 * k) (high_word p)

module _ (mem : Memory) (v11 v12 k : ℕ) (h11 : v11 ≤ 2 ^ 20) (h12 : v12 < 2 ^ 48 - 1)
    (hk : k < 2 ^ 26) where
  pub put-stored :
      (v14 : ℕ)
      → v14 ≡ reversed (position_of v11 v12 k / 2 ^ 20)
      → batch_put mem 131072
          (6 * k)
          (131072 + 16 * k)
          v14
          (flag (ltb 0xfffff (k / 64 + v11)))
          (k / 64 + v11)
          k
        ≡ stored mem (position_of v11 v12 k) k
  unfolding batch_put
  put-stored v14 e =
      let step : (k / 64 + v11) % 2 ^ 20 ≡ position_of v11 v12 k % 2 ^ 20 = omega arith in
      let here : add32 131072 (6 * k) ≡ 131072 + 6 * k = omega arith in
      let upper : add32 (131072 + 16 * k) 8 ≡ 131072 + 16 * k + 8 = omega arith in
      rw
        (
          e,
          here,
          upper,
          kept_step (k / 64 + v11) (omega arith),
          step,
          counter_word (position_of v11 v12 k % 2 ^ 20) k,
          batch_high-sum (reversed (position_of v11 v12 k / 2 ^ 20))
              (position_of v11 v12 k % 2 ^ 20) (omega arith) (omega arith),
          batch_low-sum (load64 mem (131072 + 6 * k)) (position_of v11 v12 k % 2 ^ 20) (k % 64)
              (omega arith) (omega arith),
        )
        refl
