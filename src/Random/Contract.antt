-- ===== src/Random/Contract.antt =====
-- `aesSource.fill` of go/random_aes.go beside the contract of `source`.
use hyper_uuid.Prelude.{
  ℕ, ◌+◌, ◌-◌, ◌<◌, ◌≤◌, ◌≡◌, ◌≢◌, ◌⊎◌, refl, sym, arith, ◌==◌, ltb, leb, if◌then◌else◌, min, Bool,
  true, false, Bool-cases, inl, inr, Option, none, some, ==_iff, not-==→ne, not-leb→lt, le→not-ltb,
  not,
}
use hyper_uuid.Core.Module.{Draw}
use hyper_uuid.Random.{Reading}
use hyper_uuid.Random.Aes.{
  CtrStream, AesSource, new_aes_source, rekey, needs_key, fill_direct, fill_refilled, fill_keyed,
  fill,
}
use hyper_uuid.Random.Rounds.{
  IsCipher, IsValid, Rekeyed, rekey-Rekeyed, Rekeyed-IsValid, generate-ends,
}

pub new_aes_source-IsValid : {W : Type 0} (w : W) → IsValid (new_aes_source w)
unfolding new_aes_source
new_aes_source-IsValid w = record {
  within = omega arith;
  budget = omega arith;
  keyed = tt;
  buf_lt = λ i. omega arith;
}

-- A draw of n bytes that keeps the contract of `source`, and leaves a valid source.
pub record IsDraw {W : Type 0} (n : ℕ) (d : Draw (AesSource W)) : Type 0 where
  pub complete : (d.errno ≢ 0) ⊎ (d.written ≡ n)
  pub within : d.written ≤ n
  pub bytes_lt : (i : ℕ) → d.bytes i < 256
  pub valid : IsValid d.next

-- A call that returns such a draw.
abbrev pub Draws : {W : Type 0} → ℕ → Option (Draw (AesSource W)) → Type 0
Draws {W} n r = (d : Draw (AesSource W)) × (r ≡ some d) × IsDraw n d

module _ {W : Type 0} (read : ℕ → W → Reading W) (clock : W → ℕ × W)
    (ctr : (ℕ → ℕ) → Option (ℕ → ℕ)) (cipher : IsCipher ctr) where
  behind_lt :
      (n c i : ℕ) (served dst : ℕ → ℕ)
      → ((j : ℕ) → served j < 256)
      → ((j : ℕ) → dst j < 256)
      → (if ltb i c then served i else dst (i - c)) < 256
  behind_lt n c i served dst h k = elim (Bool-cases (ltb i c)) [
    | inl l ↦ rw l (h i)
    | inr g ↦ rw g (k (i - c))
  ]

  fill_keyed-Draws :
      (n : ℕ) (s : AesSource W)
      → IsValid s
      → (c : CtrStream) → s.stream ≡ some c
      → Draws n (fill_keyed read clock ctr n s)
  unfolding fill_keyed fill_direct fill_refilled
  fill_keyed-Draws n s v c e =
      let taken = min n (512 - s.off) in
      let served : ℕ → ℕ = λ i. s.buf (s.off + i) in
      let s1 : AesSource W = record s { off = s.off + taken } in
      let v1 : IsValid s1 = record {
        within = omega (arith, v.within);
        budget = v.budget;
        keyed = v.keyed;
        buf_lt = v.buf_lt;
      } in
      let left = n - taken in
      rw (le→not-ltb 512 s.off v.within) (elim (Bool-cases (leb 512 left)) [
        | inl l ↦
            let (g, r, valid, dst_lt) =
              generate-ends read clock ctr cipher (left + 1) s1 (λ i. 0) 0 left v1 c e
                (λ i. omega arith) (λ i h. refl) (omega arith) in
            rw (l, r)
              (
                _,
                refl,
                record {
                  complete = inr refl;
                  within = omega arith;
                  bytes_lt =
                      λ i. behind_lt n taken i served g.dst (λ j. v.buf_lt (s.off + j)) dst_lt;
                  valid = valid;
                },
              )
        | inr k ↦ elim (Bool-cases (ltb 0 left)) [
          | inl l ↦
              let (g, r, valid, dst_lt) =
                generate-ends read clock ctr cipher 513 s1 (λ i. 0) 0 512 v1 c e (λ i. omega arith)
                  (λ i h. refl) (omega arith) in
              rw (k, l, r)
                (elim (Bool-cases (g.code == 0)) [
                  | inl z ↦ rw z (
                    _,
                    refl,
                    record {
                      complete = inr refl;
                      within = omega arith;
                      bytes_lt =
                          λ i. behind_lt n taken i served g.dst (λ j. v.buf_lt (s.off + j)) dst_lt;
                      valid = record {
                        within = omega (arith, not-leb→lt 512 left k);
                        budget = valid.budget;
                        keyed = valid.keyed;
                        buf_lt = dst_lt;
                      };
                    },
                  )
                  | inr f ↦ rw f (
                    _,
                    refl,
                    record {
                      complete = inl (not-==→ne g.code 0 f);
                      within = omega arith;
                      bytes_lt = λ j. v.buf_lt (s.off + j);
                      valid = record {
                        within = omega arith;
                        budget = valid.budget;
                        keyed = valid.keyed;
                        buf_lt = dst_lt;
                      };
                    },
                  )
                ])
          | inr m ↦
              rw (k, m)
                (
                  _,
                  refl,
                  record {
                    complete = inr refl;
                    within = omega arith;
                    bytes_lt = λ j. v.buf_lt (s.off + j);
                    valid = v1;
                  },
                )
        ]
      ])

  -- The key that a draw goes on with.
  needs_key-IsValid :
      (s : AesSource W) (k : Option CtrStream)
      → IsValid s
      → IsValid (needs_key read clock ctr s k).0
  unfolding needs_key
  needs_key-IsValid s none v = v
  needs_key-IsValid s (some c) v = record {
    within = v.within;
    budget = v.budget;
    keyed = v.keyed;
    buf_lt = v.buf_lt;
  }

  kept_key :
      (s : AesSource W) (k : Option CtrStream)
      → s.stream ≡ k
      → (needs_key read clock ctr s k).1 ≡ false
      → (c : CtrStream) × ((needs_key read clock ctr s k).0.stream ≡ some c)
  unfolding needs_key
  kept_key s none e h = absurd (cc)
  kept_key s (some c) e h = (c, e)

  after_rekey :
      (n : ℕ) (s : AesSource W)
      → IsValid s
      → (r : AesSource W × Bool) → Rekeyed s r
      → Draws n (
          if not r.1
          then some (record { errno = 29; written = 0; bytes = λ i. 0; next = r.0 })
          else fill_keyed read clock ctr n r.0)
  after_rekey n s v (s', true) h =
      fill_keyed-Draws n s' (Rekeyed-IsValid read clock ctr cipher s (s', true) v h) h.0 h.1
  after_rekey n s v (s', false) h = (
    _,
    refl,
    record {
      complete = inl (λ z. omega arith);
      within = omega arith;
      bytes_lt = λ i. omega arith;
      valid = Rekeyed-IsValid read clock ctr cipher s (s', false) v h;
    },
  )

  -- On a source whose unserved bytes lie in its buffer and whose key has generated what is used
  -- of its keystream, at most 2^20 bytes, `fill` returns, for any reader, clock and cipher whose
  -- keystreams are bytes: it writes no more than it was asked for, all of it unless it returns an
  -- errno, and leaves a source with that invariant.
  pub fill-Draws : (n : ℕ) (s : AesSource W) → IsValid s → Draws n (fill read clock ctr n s)
  unfolding fill
  fill-Draws n s v = elim (Bool-cases (n == 0)) [
    | inl z ↦ rw z (
      _,
      refl,
      record {
        complete = inr (sym ((==_iff n 0).0 z));
        within = omega arith;
        bytes_lt = λ i. omega arith;
        valid = v;
      },
    )
    | inr k ↦
        let checked = needs_key read clock ctr s s.stream in
        let valid = needs_key-IsValid s s.stream v in
        elim (Bool-cases checked.1) [
          | inl old ↦
              rw (k, old)
                (after_rekey n checked.0 valid (rekey read clock ctr checked.0)
                  (rekey-Rekeyed read clock ctr cipher checked.0))
          | inr fresh ↦
              let (c, e) = kept_key s s.stream refl fresh in
              rw (k, fresh) (fill_keyed-Draws n checked.0 valid c e)
        ]
  ]
