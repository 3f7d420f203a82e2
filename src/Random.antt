-- ===== src/Random.antt =====
-- The random sources of go/random.go: the operating system's reader, and the choice between it and
-- the AES stream (Random/Aes.antt). `read` is `io.ReadFull` on the reader `entropy`, over a state of
-- the world; the contract IsReader is the documentation of `io.ReadFull`.
pub mod Aes
pub mod Rounds
pub mod Contract
pub mod Keystream
pub mod Choice
pub mod Minting
use hyper_uuid.Prelude.{
  ℕ, ◌+◌, ◌<◌, ◌≤◌, ◌≡◌, ◌==◌, if◌then◌else◌, Bool, true, false, not, arith, refl, Bool-cases, inl,
  inr, ==_iff,
}
use hyper_uuid.Core.Module.{Draw, IsSource}

-- `io.ReadFull` on so many bytes: whether its error is nil, and the bytes that it copied.
pub record Reading (W : Type 0) : Type 0 where
  pub full : Bool
  pub copied : ℕ
  pub bytes : ℕ → ℕ
  pub next : W

-- It copies no more than the buffer holds, and the error is nil only if it filled the buffer.
pub record IsReader {W : Type 0} (read : ℕ → W → Reading W) : Type 0 where
  pub complete : (n : ℕ) (w : W) → (read n w).full ≡ true → (read n w).copied ≡ n
  pub within : (n : ℕ) (w : W) → (read n w).copied ≤ n
  pub bytes_lt : (n : ℕ) (w : W) (i : ℕ) → (read n w).bytes i < 256

-- `wasiEIO`
abbrev pub wasi_eio : ℕ
wasi_eio = 29

-- `osSource.fill`, with `readFull`
unfoldable pub os_fill : {W : Type 0} → (ℕ → W → Reading W) → ℕ → W → Draw W
os_fill read n w =
    if n == 0
    then record { errno = 0; written = 0; bytes = λ i. 0; next = w }
    else (let r = read n w in
        if not r.full
        then record { errno = wasi_eio; written = r.copied; bytes = r.bytes; next = r.next }
        else record { errno = 0; written = r.copied; bytes = r.bytes; next = r.next })

module _ {W : Type 0} (read : ℕ → W → Reading W) (reader : IsReader read) where
  pub os_fill-IsSource : IsSource (os_fill read)
  unfolding os_fill
  os_fill-IsSource = record {
    complete = λ n w e. elim (Bool-cases (n == 0)) [
      | inl z ↦ rw z (omega (arith, (==_iff n 0).0 z))
      | inr k ↦ elim (Bool-cases (read n w).full) [
        | inl f ↦ rw (k, f) (reader.complete n w f)
        | inr g ↦ let wrong = rw (k, g) at e in absurd (omega arith)
      ]
    ];
    within = λ n w. elim (Bool-cases (n == 0)) [
      | inl z ↦ rw z (omega arith)
      | inr k ↦ elim (Bool-cases (read n w).full) [
        | inl f ↦ rw (k, f) (reader.within n w)
        | inr g ↦ rw (k, g) (reader.within n w)
      ]
    ];
    bytes_lt = λ n w i. elim (Bool-cases (n == 0)) [
      | inl z ↦ rw z (omega arith)
      | inr k ↦ elim (Bool-cases (read n w).full) [
        | inl f ↦ rw (k, f) (reader.bytes_lt n w i)
        | inr g ↦ rw (k, g) (reader.bytes_lt n w i)
      ]
    ];
  }
