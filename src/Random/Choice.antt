-- ===== src/Random/Choice.antt =====
-- The source of an instance: `newSource` of go/random.go and `newStream` of go/random_aes.go, and an
-- instance's calls on the source that they choose.
use hyper_uuid.Prelude.{
  ℕ, ◌<◌, ◌≤◌, ◌≡◌, ◌≢◌, ◌⊎◌, inl, inr, refl, Bool, true, false, ◌&&◌, ◌||◌, not, if◌then◌else◌,
  Option, none, some, Bool-cases, ◌==◌, ==_iff, not-==→ne,
}
use hyper_uuid.Core.Module.{Draw, IsSource}
use hyper_uuid.Random.{Reading, IsReader, os_fill, os_fill-IsSource}
use hyper_uuid.Random.Aes
use hyper_uuid.Random.Aes.{AesSource, new_aes_source}
use hyper_uuid.Random.Rounds.{IsCipher, IsValid}
use hyper_uuid.Random.Contract.{new_aes_source-IsValid, fill-Draws}

-- `runtime.GOARCH`, and what golang.org/x/sys/cpu says of the processor.
pub data Arch : Type 0 where
  amd64 arm64 s390x other_arch : Arch

pub record Cpu : Type 0 where
  pub has_aes : Bool
  pub has_sse41 : Bool
  pub has_ssse3 : Bool
  pub has_aescbc : Bool

abbrev accelerated_on : Arch → Cpu → Bool
accelerated_on amd64 cpu = cpu.has_aes && cpu.has_sse41 && cpu.has_ssse3
accelerated_on arm64 cpu = cpu.has_aes
accelerated_on s390x cpu = cpu.has_aes && cpu.has_aescbc
accelerated_on other_arch cpu = false

unfoldable pub accelerated : Option Bool → Arch → Cpu → Bool
accelerated (some override) arch cpu = override
accelerated none arch cpu = accelerated_on arch cpu

-- The interface `source`: the operating system over the world, or the AES stream.
pub data Source (W : Type 0) : Type 0 where
  os : W → Source W
  aes : AesSource W → Source W

unfoldable pub new_stream : {W : Type 0} → Bool → Bool → W → Option (AesSource W)
new_stream accelerated fips world =
    if not accelerated || fips then none else some (new_aes_source world)

unfoldable pub new_source : {W : Type 0} → Bool → Bool → W → Source W
new_source accelerated fips world = elim (new_stream accelerated fips world) [
  | none ↦ os world
  | some s ↦ aes s
]

-- The AES stream is valid; the operating system always is.
abbrev pub IsFit : {W : Type 0} → Source W → Type 0
IsFit (os w) = Unit {0}
IsFit (aes s) = IsValid s

pub new_source-IsFit :
    {W : Type 0} (accelerated fips : Bool) (w : W) → IsFit (new_source accelerated fips w)
unfolding new_source new_stream
new_source-IsFit true true w = tt
new_source-IsFit true false w = new_aes_source-IsValid w
new_source-IsFit false true w = tt
new_source-IsFit false false w = tt

abbrev pub Fit : Type 0 → Type 0
Fit W = (s : Source W) × IsFit s

module _ {W : Type 0} (read : ℕ → W → Reading W) (reader : IsReader read) (clock : W → ℕ × W)
    (ctr : (ℕ → ℕ) → Option (ℕ → ℕ)) (cipher : IsCipher ctr) where
  -- `fill` of a fit source: its draw, which never panics, and the source that is left, fit again.
  unfoldable pub source_fill : ℕ → Fit W → Draw (Fit W)
  source_fill n (os w, v) =
      let d = os_fill read n w in
      record { errno = d.errno; written = d.written; bytes = d.bytes; next = (os d.next, tt) }
  source_fill n (aes s, v) =
      let (d, r, h) = fill-Draws read clock ctr cipher n s v in
      record { errno = d.errno; written = d.written; bytes = d.bytes; next = (aes d.next, h.valid) }

  pub source_fill-IsSource : IsSource source_fill
  unfolding source_fill
  source_fill-IsSource = record { complete = completes; within = withins; bytes_lt = bytes }
    where
      drawn : {e w n : ℕ} → e ≡ 0 → (e ≢ 0) ⊎ (w ≡ n) → w ≡ n
      drawn z (inl k) = absurd (k z)
      drawn z (inr h) = h

      completes : (n : ℕ) (s : Fit W) → (source_fill n s).errno ≡ 0 → (source_fill n s).written ≡ n
      completes n (os w, v) e = (os_fill-IsSource read reader).complete n w e
      completes n (aes s, v) e = drawn e (fill-Draws read clock ctr cipher n s v).2.complete

      withins : (n : ℕ) (s : Fit W) → (source_fill n s).written ≤ n
      withins n (os w, v) = (os_fill-IsSource read reader).within n w
      withins n (aes s, v) = (fill-Draws read clock ctr cipher n s v).2.within

      bytes : (n : ℕ) (s : Fit W) (i : ℕ) → (source_fill n s).bytes i < 256
      bytes n (os w, v) i = (os_fill-IsSource read reader).bytes_lt n w i
      bytes n (aes s, v) i = (fill-Draws read clock ctr cipher n s v).2.bytes_lt i

  -- What the code of the source draws.
  abbrev pub Agrees : ℕ → Source W → Draw (Fit W) → Type 0
  Agrees n (os w) d =
      (d.errno ≡ (os_fill read n w).errno)
      × (d.written ≡ (os_fill read n w).written)
      × (d.bytes ≡ (os_fill read n w).bytes)
      × (d.next.0 ≡ os (os_fill read n w).next)
  Agrees n (aes s) d =
      (s' : AesSource W) × (d.next.0 ≡ aes s')
      × (Aes.fill read clock ctr n s
          ≡ some (record { errno = d.errno; written = d.written; bytes = d.bytes; next = s' }))

  -- A call of a source that is fit is a total function to a draw and a source that is fit again:
  -- it is the call of the operating system's or of the AES stream, which does not panic, and it
  -- writes at most what it was asked for, all of it unless it returns an errno. The reader keeps
  -- the contract of `io.ReadFull`, and keystreams are bytes.
  pub source_fill-Agrees :
      (n : ℕ) (s : Fit W)
      → Agrees n s.0 (source_fill n s)
        × (((source_fill n s).errno ≢ 0) ⊎ ((source_fill n s).written ≡ n))
        × ((source_fill n s).written ≤ n)
  unfolding source_fill
  source_fill-Agrees n (os w, v) = (
    (refl, refl, refl, refl),
    either (Bool-cases ((os_fill read n w).errno == 0)),
    (os_fill-IsSource read reader).within n w,
  )
    where
      either :
          (((os_fill read n w).errno == 0) ≡ true) ⊎ (((os_fill read n w).errno == 0) ≡ false)
          → ((os_fill read n w).errno ≢ 0) ⊎ ((os_fill read n w).written ≡ n)
      either (inl z) = inr ((os_fill-IsSource read reader).complete n w ((==_iff _ 0).0 z))
      either (inr k) = inl (not-==→ne _ 0 k)
  source_fill-Agrees n (aes s, v) =
      let (d, r, h) = fill-Draws read clock ctr cipher n s v in
      ((d.next, refl, r), h.complete, h.within)
