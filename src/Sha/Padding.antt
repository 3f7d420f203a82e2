-- ===== src/Sha/Padding.antt =====
-- The parts of a padded message.
use hyper_uuid.Prelude.{ℕ, ◌+◌, ◌-◌, ◌*◌, ◌/◌, ◌^◌, ◌<◌, ◌≡◌, ap, arith}
use hyper_uuid.Word.{byte}
use hyper_uuid.Sha.{padded, block_count}

module _ (bytes : ℕ → ℕ) (n : ℕ) where
  pub padded_message : (i : ℕ) → i < n → padded bytes n i ≡ bytes i
  unfolding padded
  padded_message i h = ground arith

  pub padded_mark : (i : ℕ) → i ≡ n → padded bytes n i ≡ 0x80
  unfolding padded
  padded_mark i e = ground arith

  pub padded_zero : (i : ℕ) → n < i → i < 64 * ((n + 8) / 64) + 56 → padded bytes n i ≡ 0
  unfolding padded block_count
  padded_zero i h k = ground arith

  pub padded_length :
      (k : ℕ)
      → k < 8
      → padded bytes n (64 * ((n + 8) / 64) + (56 + k)) ≡ byte (8 * n / 2 ^ (8 * (7 - k)))
  unfolding padded block_count
  padded_length k h =
      let e : 64 * ((n + 8) / 64 + 1) - 1 - (64 * ((n + 8) / 64) + (56 + k)) ≡ 7 - k =
        omega arith in
      ground (arith, ap (λ (t : ℕ). byte (8 * n / 2 ^ (8 * t))) e)

  pub padded_lt : ((i : ℕ) → bytes i < 256) → (i : ℕ) → padded bytes n i < 256
  unfolding padded
  padded_lt low i = ground (arith, low i)
