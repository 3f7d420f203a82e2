-- ===== src/Api/Batch/Order.antt =====
-- What `NewV7BatchAt` documents of a batch: its length, its form, its timestamps and its order.
use hyper_uuid.Prelude.{
  ℕ, zero, suc, ◌+◌, ◌-◌, ◌*◌, ◌/◌, ◌%◌, ◌^◌, ◌<◌, ◌≤◌, ◌≡◌, ◌⊎◌, inl, inr, arith, List, [], ◌∷◌,
  length, tabulate, ltb, Bool-cases, ltb→lt, not-ltb→le,
}
use hyper_uuid.Prelude.{
  ℤ, pos, negsuc, Result, ok, err, timestamp_out_of_range, counter_exhausted, random_source,
  negative_count, batch_too_large,
}
use hyper_uuid.Uuid.{Uuid, value, unix_ts_ms}
use hyper_uuid.Uuid.Layout.{
  v7_layout, IsV7, v7_layout-IsV7, position, position-v7_layout, unix_ts_ms-v7_layout,
  value-lt_of_position,
}
use hyper_uuid.Stream
use hyper_uuid.Stream.{Stream, Outcome, aside, full, granted}
use hyper_uuid.Core.Module.{Draw, IsSource}
use hyper_uuid.Core.V7.Batch.Loop.{block_uuid}
use hyper_uuid.Core.V7.Batch.Draws.{draw_all-bytes-lt}
use hyper_uuid.Core.V7.Batch.Reserve.{steps_of, batch_seed_of, scaled-fits}
use hyper_uuid.Core.V7.Batch.Call.{block, supply}
use hyper_uuid.Instance.{Instance}
use hyper_uuid.Instance.Ready.{IsReady}

-- UUIDs whose values rise strictly.
abbrev pub Above : Uuid → List Uuid → Type 0
Above w [] = Unit {0}
Above w (u ∷ us) = (value w < value u) × Above u us

abbrev pub Ascends : List Uuid → Type 0
Ascends [] = Unit {0}
Ascends (u ∷ us) = Above u us

-- Each is a version 7 with a timestamp from `now` on, at most 11 s later.
abbrev pub AreMintedAt : ℕ → List Uuid → Type 0
AreMintedAt now [] = Unit {0}
AreMintedAt now (u ∷ us) =
    (IsV7 u × (now ≤ unix_ts_ms u) × (unix_ts_ms u ≤ now + 11000)) × AreMintedAt now us

tabulate-Above :
    (f : ℕ → Uuid) (n : ℕ) (w : Uuid)
    → (0 < n → value w < value (f 0))
    → ((i : ℕ) → suc i < n → value (f i) < value (f (suc i)))
    → Above w (tabulate f n)
tabulate-Above f zero w first next = tt
tabulate-Above f (suc n) w first next = (
  first (omega arith),
  tabulate-Above (λ i. f (suc i)) n (f 0) (λ h. next 0 (omega arith))
      (λ i h. next (suc i) (omega arith)),
)

tabulate-Ascends :
    (f : ℕ → Uuid) (n : ℕ)
    → ((i : ℕ) → suc i < n → value (f i) < value (f (suc i)))
    → Ascends (tabulate f n)
tabulate-Ascends f zero next = tt
tabulate-Ascends f (suc n) next =
    tabulate-Above (λ i. f (suc i)) n (f 0) (λ h. next 0 (omega arith))
      (λ i h. next (suc i) (omega arith))

tabulate-AreMintedAt :
    (now : ℕ) (f : ℕ → Uuid) (n : ℕ)
    → ((i : ℕ) → i < n → IsV7 (f i) × (now ≤ unix_ts_ms (f i)) × (unix_ts_ms (f i) ≤ now + 11000))
    → AreMintedAt now (tabulate f n)
tabulate-AreMintedAt now f zero each = tt
tabulate-AreMintedAt now f (suc n) each = (
  each 0 (omega arith),
  tabulate-AreMintedAt now (λ i. f (suc i)) n (λ i h. each (suc i) (omega arith)),
)

-- In one step of the stream the six low counter bits keep the order.
value-lt_of_low :
    (p j : ℕ) (r0 r1 r2 r3 r4 r5 s0 s1 s2 s3 s4 s5 : ℕ)
    → j % 64 < 63
    → IsV7 (v7_layout p j r0 r1 r2 r3 r4 r5)
    → IsV7 (v7_layout p (suc j) s0 s1 s2 s3 s4 s5)
    → value (v7_layout p j r0 r1 r2 r3 r4 r5) < value (v7_layout p (suc j) s0 s1 s2 s3 s4 s5)
value-lt_of_low p j r0 r1 r2 r3 r4 r5 s0 s1 s2 s3 s4 s5 h u w = omega arith

module _ (noise : ℕ → ℕ) (bytes : (i : ℕ) → noise i < 256) (p n : ℕ) (h : p + n / 64 < 2 ^ 68) where
  pub uuid-IsV7 : (j : ℕ) → j < n → IsV7 (block_uuid noise p j)
  uuid-IsV7 j k =
      v7_layout-IsV7 (p + j / 64) j _ _ _ _ _ _ (omega arith) (bytes (6 * j)) (bytes (6 * j + 1))
        (bytes (6 * j + 2)) (bytes (6 * j + 3)) (bytes (6 * j + 4)) (bytes (6 * j + 5))

  pub uuid-position : (j : ℕ) → j < n → position (block_uuid noise p j) ≡ p + j / 64
  uuid-position j k =
      position-v7_layout (p + j / 64) j _ _ _ _ _ _ (omega arith) (bytes (6 * j))
        (bytes (6 * j + 1)) (bytes (6 * j + 2)) (bytes (6 * j + 3)) (bytes (6 * j + 4))
        (bytes (6 * j + 5))

  uuid-unix_ts_ms : (j : ℕ) → j < n → unix_ts_ms (block_uuid noise p j) ≡ (p + j / 64) / 2 ^ 20
  uuid-unix_ts_ms j k =
      unix_ts_ms-v7_layout (p + j / 64) j _ _ _ _ _ _ (omega arith) (bytes (6 * j))
        (bytes (6 * j + 1)) (bytes (6 * j + 2)) (bytes (6 * j + 3)) (bytes (6 * j + 4))
        (bytes (6 * j + 5))

  next_uuid :
      (j : ℕ) → suc j < n → value (block_uuid noise p j) < value (block_uuid noise p (suc j))
  next_uuid j k =
      let u = uuid-IsV7 j (omega arith) in
      let w = uuid-IsV7 (suc j) k in
      elim (Bool-cases (ltb (j % 64) 63)) [
        | inl l ↦
            let same : suc j / 64 ≡ j / 64 = omega (arith, ltb→lt (j % 64) 63 l) in
            rw same (
              value-lt_of_low (p + j / 64) j _ _ _ _ _ _ _ _ _ _ _ _ (ltb→lt (j % 64) 63 l) u
                (rw (← same) w))
        | inr g ↦ value-lt_of_position (block_uuid noise p j) (block_uuid noise p (suc j)) u w (
            rw (uuid-position j (omega arith), uuid-position (suc j) k)
              (omega (arith, not-ltb→le (j % 64) 63 g)))
      ]

  pub block-Ascends : Ascends (block noise p n)
  block-Ascends = tabulate-Ascends (block_uuid noise p) n next_uuid

  pub block-AreMintedAt :
      (now : ℕ)
      → now ≤ p / 2 ^ 20
      → (p + (n - 1) / 64) / 2 ^ 20 ≤ now + 11000
      → AreMintedAt now (block noise p n)
  block-AreMintedAt now from to = tabulate-AreMintedAt now (block_uuid noise p) n (λ j k. (
    uuid-IsV7 j k,
    rw (uuid-unix_ts_ms j k) (omega arith),
    rw (uuid-unix_ts_ms j k) (omega arith),
  ))

-- Where the stream puts n steps at `now`.
abbrev IsNear : Outcome → ℕ → ℕ → Type 0
IsNear aside now n = Unit {0}
IsNear full now n = Unit {0}
IsNear (granted f l) now n =
    (now ≤ f / 2 ^ 20) × (l / 2 ^ 20 ≤ now + 11000) × (f + n ≡ l + 1) × (l < 2 ^ 65)

-- What holds of every result for a count: a list of that length, or an error with its reason.
abbrev pub IsSound : ℕ → ℤ → Result (List Uuid) → Type 0
IsSound now (negsuc k) r = r ≡ err negative_count
IsSound now (pos n) (ok us) = (n ≤ 2 ^ 26) × (length us ≡ n) × AreMintedAt now us × Ascends us
IsSound now (pos n) (err e) =
    ((e ≡ batch_too_large) × (2 ^ 26 < n))
    ⊎ (((e ≡ timestamp_out_of_range) × (253402300799999 < now))
        ⊎ ((e ≡ counter_exhausted) ⊎ (e ≡ random_source)))

module _ {S : Type 0} (fill : ℕ → S → Draw S) (ok_fill : IsSource fill) (self : Instance S)
    (s : Stream) (ready : IsReady self s) (now : ℕ) where
  module _ (n : ℕ) (h0 : 0 < n) (hn : n ≤ 2 ^ 26) where
    abbrev d : Draw S
    d = supply fill n self.m.src

    pub bytes : (i : ℕ) → d.bytes i < 256
    bytes i = draw_all-bytes-lt fill ok_fill _ (6 * n + 4) self.m.src i

    pub seed-fits : batch_seed_of d.bytes n + steps_of n ≤ 2 ^ 20
    seed-fits =
        (scaled-fits _ (steps_of n)
          (omega (arith, bytes (6 * n), bytes (6 * n + 1), bytes (6 * n + 2), bytes (6 * n + 3)))
          (omega arith)).0
