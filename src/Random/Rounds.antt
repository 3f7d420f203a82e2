-- ===== src/Random/Rounds.antt =====
-- `rekey` and the loop of `generate` of go/random_aes.go, and the source's invariant.
use hyper_uuid.Prelude.{
  ℕ, zero, suc, ◌+◌, ◌-◌, ◌^◌, ◌<◌, ◌≤◌, ◌≡◌, inl, inr, refl, ap, arith, ◌==◌, ltb, leb,
  if◌then◌else◌, min, Bool, true, false, Bool-cases, Option, none, some, not-==→ne, leb→le,
  not-leb→lt, not,
}
use hyper_uuid.Bits.{xor_zero}
use hyper_uuid.Random.{Reading}
use hyper_uuid.Random.Aes.{
  key_budget, CtrStream, AesSource, Generated, xor_range, rekey, rekey_cipher, xor_key_stream,
  generate_round, generate,
}

-- The keystreams of a cipher are bytes.
abbrev pub IsCipher : ((ℕ → ℕ) → Option (ℕ → ℕ)) → Type 0
IsCipher ctr = (key keystream : ℕ → ℕ) → ctr key ≡ some keystream → (i : ℕ) → keystream i < 256

-- What is generated under a key is what is used of its keystream.
abbrev pub IsKeyed : Option CtrStream → ℕ → Type 0
IsKeyed none generated = Unit {0}
IsKeyed (some c) generated = (c.position ≡ generated) × ((i : ℕ) → c.keystream i < 256)

-- The invariant: no key generates past its budget, and the unserved bytes lie in the buffer.
pub record IsValid {W : Type 0} (s : AesSource W) : Type 0 where
  pub within : s.off ≤ 512
  pub budget : s.generated ≤ 2 ^ 20
  pub keyed : IsKeyed s.stream s.generated
  pub buf_lt : (i : ℕ) → s.buf i < 256

-- A source after `rekey`: at the start of a keystream, or with no key at all, its buffer empty.
abbrev pub Rekeyed : {W : Type 0} → AesSource W → AesSource W × Bool → Type 0
Rekeyed s (s', true) =
    (c : CtrStream) × (s'.stream ≡ some c)
    × IsKeyed (some c) 0
    × (s'.generated ≡ 0)
    × (s'.off ≡ 512)
    × (s'.buf ≡ s.buf)
Rekeyed s (s', false) = (s'.stream ≡ none) × (s'.generated ≡ 0) × (s'.off ≡ 512) × (s'.buf ≡ s.buf)

module _ {W : Type 0} (read : ℕ → W → Reading W) (clock : W → ℕ × W)
    (ctr : (ℕ → ℕ) → Option (ℕ → ℕ)) (cipher : IsCipher ctr) where
  rekey_cipher-Rekeyed :
      (s s' : AesSource W)
      → s'.stream ≡ none
      → s'.generated ≡ 0
      → s'.off ≡ 512
      → s'.buf ≡ s.buf
      → (k : Option (ℕ → ℕ)) → ctr s'.key ≡ k
      → Rekeyed s (rekey_cipher read clock ctr s' k)
  unfolding rekey_cipher
  rekey_cipher-Rekeyed s s' e g o b none h = (e, g, o, b)
  rekey_cipher-Rekeyed s s' e g o b (some ks) h =
      (record { keystream = ks; position = 0 }, refl, (refl, cipher s'.key ks h), g, o, b)

  pub rekey-Rekeyed : (s : AesSource W) → Rekeyed s (rekey read clock ctr s)
  unfolding rekey
  rekey-Rekeyed s = elim (Bool-cases (read 32 s.world).full) [
    | inl f ↦ rw f (rekey_cipher-Rekeyed s _ refl refl refl refl _ refl)
    | inr f ↦ rw f (refl, refl, refl, refl)
  ]

  pub Rekeyed-IsValid :
      (s : AesSource W) (r : AesSource W × Bool) → IsValid s → Rekeyed s r → IsValid r.0
  Rekeyed-IsValid s (s', true) v (c, e, k, g, o, b) = record {
    within = omega (arith, o);
    budget = omega (arith, g);
    keyed = rw (e, g) k;
    buf_lt = rw b v.buf_lt;
  }
  Rekeyed-IsValid s (s', false) v (e, g, o, b) = record {
    within = omega (arith, o);
    budget = omega (arith, g);
    keyed = rw e tt;
    buf_lt = rw b v.buf_lt;
  }

  -- A round that returns the code 0 takes a byte at least, and has a key.
  record IsRound (from left n : ℕ) (g : Generated W) : Type 0 where
    valid : IsValid g.source
    dst_lt : (i : ℕ) → g.dst i < 256
    more :
        (g.code == 0) ≡ true
        → (0 < n)
          × (n ≤ left)
          × ((c : CtrStream) × (g.source.stream ≡ some c))
          × ((i : ℕ) → from + n ≤ i → g.dst i ≡ 0)

  module _ (dst : ℕ → ℕ) (from left : ℕ) (bytes : (i : ℕ) → dst i < 256)
      (clear : (i : ℕ) → from ≤ i → dst i ≡ 0) (h0 : 0 < left) where
    xor-byte :
        (n : ℕ) (ks : ℕ → ℕ) (p i : ℕ) → ((j : ℕ) → ks j < 256) → xor_range dst from n ks p i < 256
    xor-byte n ks p i k = elim (Bool-cases (leb from i)) [
      | inl l ↦ elim (Bool-cases (ltb i (from + n))) [
        | inl m ↦ rw (l, m, clear i (leb→le from i l), xor_zero) (k (p + (i - from)))
        | inr m ↦ rw (l, m) (bytes i)
      ]
      | inr l ↦ rw l (bytes i)
    ]

    xor_key_stream-IsRound :
        (s : AesSource W)
        → IsValid s
        → s.generated < 2 ^ 20
        → (c : CtrStream) → s.stream ≡ some c
        → (n : ℕ) × (g : Generated W) × (xor_key_stream read clock ctr s dst from
              (min left (2 ^ 20 - s.generated))
              s.stream
            ≡ some (n, g))
          × IsRound from left n g
    unfolding xor_key_stream
    xor_key_stream-IsRound s v small c e =
        let k : IsKeyed (some c) s.generated = rw e at v.keyed in
        let n = min left (2 ^ 20 - s.generated) in
        (
          n,
          record {
            code = 0;
            dst = xor_range dst from n c.keystream c.position;
            source = record s {
              stream = some (record c { position = c.position + n });
              generated = s.generated + n;
            };
          },
          rw e refl,
          record {
            valid = record {
              within = v.within;
              budget = omega arith;
              keyed = (ap (λ p. p + n) k.0, k.1);
              buf_lt = v.buf_lt;
            };
            dst_lt = λ i. xor-byte n c.keystream c.position i k.1;
            more = λ z. (omega arith, omega arith, (_, refl), λ i hi. ground (arith, clear i));
          },
        )

    generate_round-IsRound :
        (s : AesSource W)
        → IsValid s
        → (c : CtrStream) → s.stream ≡ some c
        → (n : ℕ) × (g : Generated W) × (generate_round read clock ctr s dst from left
            ≡ some (n, g))
          × IsRound from left n g
    unfolding generate_round
    generate_round-IsRound s v c e = elim (Bool-cases (leb key_budget s.generated)) [
      | inr k ↦ rw k (xor_key_stream-IsRound s v (not-leb→lt (2 ^ 20) s.generated k) c e)
      | inl k ↦ rw k (keyed_again (rekey read clock ctr s) (rekey-Rekeyed s))
    ]
      where
        keyed_again :
            (r : AesSource W × Bool)
            → Rekeyed s r
            → (n : ℕ) × (g : Generated W) × ((if not r.1
                  then some (0, record { code = 29; dst = dst; source = r.0 })
                  else xor_key_stream read clock ctr r.0 dst from
                      (min left (2 ^ 20 - r.0.generated))
                      r.0.stream)
                ≡ some (n, g))
              × IsRound from left n g
        keyed_again (s', true) h =
            xor_key_stream-IsRound s' (Rekeyed-IsValid s (s', true) v h) (omega (arith, h.3)) h.0
              h.1
        keyed_again (s', false) h = (
          0,
          record { code = 29; dst = dst; source = s' },
          refl,
          record {
            valid = Rekeyed-IsValid s (s', false) v h;
            dst_lt = bytes;
            more = λ z. absurd (cc);
          },
        )

  -- With more rounds than bytes the loop ends, and keeps the invariant.
  pub generate-ends :
      (rounds : ℕ) (s : AesSource W) (dst : ℕ → ℕ) (from left : ℕ)
      → IsValid s
      → (c : CtrStream) → s.stream ≡ some c
      → ((i : ℕ) → dst i < 256)
      → ((i : ℕ) → from ≤ i → dst i ≡ 0)
      → left < rounds
      → (g : Generated W) × (generate read clock ctr rounds s dst from left ≡ some g)
        × IsValid g.source
        × ((i : ℕ) → g.dst i < 256)
  unfolding generate
  generate-ends zero s dst from left v c e bytes clear h = absurd (omega arith)
  generate-ends (suc rounds) s dst from left v c e bytes clear h = elim (Bool-cases (left == 0)) [
    | inl z ↦ (record { code = 0; dst = dst; source = s }, rw (z, generate) refl, v, bytes)
    | inr k ↦
        let (n, g, r, round) =
          generate_round-IsRound dst from left bytes clear (omega (arith, not-==→ne left 0 k)) s v c
            e in
        elim (Bool-cases (g.code == 0)) [
          | inr f ↦ (g, rw (k, generate) (rw (r, generate) (rw f refl)), round.valid, round.dst_lt)
          | inl z ↦
              let (pos_n, le_n, (c', e'), clear') = round.more z in
              let (g', r', valid, dst_lt) =
                generate-ends rounds g.source g.dst (from + n) (left - n) round.valid c' e'
                  round.dst_lt clear' (omega arith) in
              (g', rw (k, generate) (rw (r, generate) (rw z r')), valid, dst_lt)
        ]
  ]
