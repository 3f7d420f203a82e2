-- ===== src/Random/Keystream.antt =====
-- The keystream that `aesSource.fill` of go/random_aes.go serves, and a draw without a key.
use hyper_uuid.Prelude.{
  ℕ, suc, ◌+◌, ◌-◌, ◌^◌, ◌<◌, ◌≤◌, ◌≡◌, refl, ap, ◌∙◌, arith, ◌==◌, ltb, leb, min, tabulate,
  tabulate-eq, tabulate-at, true, false, Bool-cases, inl, inr, Option, none, some, ==_iff,
  ne→not-==, leb→le, le→leb, lt→not-leb, not-leb→lt, lt→ltb, ltb→lt, not-ltb→le, le→not-ltb,
}
use hyper_uuid.Bits.{xor_zero}
use hyper_uuid.Core.Module.{Draw}
use hyper_uuid.Random.{Reading}
use hyper_uuid.Random.Aes.{
  AesSource, Generated, xor_range, copy_range, rekey, rekey_cipher, needs_key, xor_key_stream,
  generate_round, generate, fill_direct, fill_refilled, fill_keyed, fill,
}

-- The source is at the byte p of a keystream: what lies unserved in the buffer is the end of what is
-- generated.
pub record IsServing {W : Type 0} (keystream : ℕ → ℕ) (p : ℕ) (s : AesSource W) : Type 0 where
  pub keyed : s.stream ≡ some (record { keystream = keystream; position = s.generated })
  pub unserved :
      tabulate (λ i. s.buf (s.off + i)) (512 - s.off)
      ≡ tabulate (λ i. keystream (p + i)) (512 - s.off)
  pub reached : p + 512 ≡ s.generated + s.off
  pub within : s.off ≤ 512

-- A draw of the next n bytes of the keystream.
abbrev pub Serves : {W : Type 0} → (ℕ → ℕ) → ℕ → ℕ → Option (Draw (AesSource W)) → Type 0
Serves {W} keystream p n r =
    (d : Draw (AesSource W)) × (r ≡ some d)
    × (d.errno ≡ 0)
    × (tabulate d.bytes n ≡ tabulate (λ i. keystream (p + i)) n)
    × IsServing keystream (p + n) d.next

emptied : (off : ℕ) (f g : ℕ → ℕ) → 512 ≤ off → tabulate f (512 - off) ≡ tabulate g (512 - off)
emptied off f g h = tabulate-eq f g (512 - off) (λ i hi. absurd (omega arith))

module _ {W : Type 0} (read : ℕ → W → Reading W) (clock : W → ℕ × W)
    (ctr : (ℕ → ℕ) → Option (ℕ → ℕ)) where
  -- Within the budget one round is all.
  generate_once :
      (rounds left : ℕ) (s : AesSource W) (ks : ℕ → ℕ)
      → s.stream ≡ some (record { keystream = ks; position = s.generated })
      → 0 < left
      → s.generated + left ≤ 2 ^ 20
      → (g : Generated W) × (generate read clock ctr (suc (suc rounds)) s (λ i. 0) 0 left ≡ some g)
        × (g.code ≡ 0)
        × ((i : ℕ) → i < left → g.dst i ≡ ks (s.generated + i))
        × (g.source ≡ record s {
          stream = some (record { keystream = ks; position = s.generated + left });
          generated = s.generated + left;
        })
  unfolding generate generate_round xor_key_stream
  generate_once rounds left s ks e h0 fits =
      let all : min left (2 ^ 20 - s.generated) ≡ left = omega arith in
      let more : (left == 0) ≡ false = ne→not-== left 0 (λ z. omega arith) in
      let nothing : left - left ≡ 0 = omega arith in
      let s' : AesSource W = record s {
        stream = some (record { keystream = ks; position = s.generated + left });
        generated = s.generated + left;
      } in
      (
        record { code = 0; dst = xor_range (λ i. 0) 0 left ks s.generated; source = s' },
        rw (more, generate)
            (rw (lt→not-leb (2 ^ 20) s.generated (omega arith), e, all, generate)
              (rw (nothing, generate) (rw all refl))),
        refl,
        (λ i hi.
            rw (le→leb 0 i (omega arith), lt→ltb i (0 + left) (omega arith), xor_zero)
              (ap ks (omega arith))),
        refl,
      )

  module _ (ks : ℕ → ℕ) (p : ℕ) (s : AesSource W) (h : IsServing ks p s) (n : ℕ) where
    abbrev taken : ℕ
    taken = min n (512 - s.off)

    abbrev served : ℕ → ℕ
    served i = s.buf (s.off + i)

    served-byte : (i : ℕ) → i < taken → served i ≡ ks (p + i)
    served-byte i hi =
        tabulate-at (λ j. s.buf (s.off + j)) (λ j. ks (p + j)) (512 - s.off) h.unserved i
          (omega arith)

    later : (i : ℕ) → i < 512 - (s.off + taken) → s.buf (s.off + taken + i) ≡ ks (p + n + i)
    later i hi =
        let behind : s.off + taken + i ≡ s.off + (taken + i) = omega arith in
        ap s.buf behind
        ∙ tabulate-at (λ j. s.buf (s.off + j)) (λ j. ks (p + j)) (512 - s.off) h.unserved
            (taken + i) (omega arith)
        ∙ ap ks (omega arith)

    direct-Serves :
        512 ≤ n - taken
        → s.generated + n ≤ 2 ^ 20
        → Serves ks p n (
            fill_direct read clock ctr n taken served (
              generate read clock ctr
                (n - taken + 1)
                (record s { off = s.off + taken })
                (λ i. 0)
                0
                (n - taken)))
    unfolding fill_direct
    direct-Serves long fits =
        let (g, r, ok, dst, source) =
          generate_once (n - taken - 1) (n - taken) (record s { off = s.off + taken }) ks h.keyed
            (omega arith) (omega arith) in
        let rounds : n - taken + 1 ≡ suc (suc (n - taken - 1)) = omega arith in
        rw (rounds, r)
          (
            _,
            refl,
            ok,
            tabulate-eq _ _ n (λ i hi. elim (Bool-cases (ltb i taken)) [
              | inl l ↦ rw l (served-byte i (ltb→lt i taken l))
              | inr k ↦ rw k (
                  dst (i - taken) (omega (arith, not-ltb→le i taken k))
                  ∙ ap ks (omega (arith, h.reached, h.within, not-ltb→le i taken k)))
            ]),
            rw source (record {
              keyed = refl;
              unserved = emptied (s.off + taken) _ _ (omega (arith, h.within));
              reached = omega (arith, h.reached, h.within);
              within = omega (arith, h.within);
            }),
          )

    refilled-Serves :
        n - taken < 512
        → 0 < n - taken
        → s.generated + 512 ≤ 2 ^ 20
        → Serves ks p n (
            fill_refilled read clock ctr n taken served
              (generate read clock ctr 513 (record s { off = s.off + taken }) (λ i. 0) 0 512))
    unfolding fill_refilled
    refilled-Serves short some_left fits =
        let (g, r, ok, dst, source) =
          generate_once 511 512 (record s { off = s.off + taken }) ks h.keyed (omega arith) fits in
        rw (r, ok)
          (
            _,
            refl,
            refl,
            tabulate-eq _ _ n (λ i hi. elim (Bool-cases (ltb i taken)) [
              | inl l ↦ rw l (served-byte i (ltb→lt i taken l))
              | inr k ↦ rw k (
                  dst (i - taken) (omega (arith, not-ltb→le i taken k))
                  ∙ ap ks (omega (arith, h.reached, h.within, not-ltb→le i taken k)))
            ]),
            rw source (record {
              keyed = refl;
              unserved = tabulate-eq _ _ (512 - (n - taken)) (λ i hi.
                  dst (n - taken + i) (omega arith) ∙ ap ks (omega (arith, h.reached, h.within)));
              reached = omega (arith, h.reached, h.within);
              within = omega (arith, h.within);
            }),
          )

    keyed-Serves :
        s.generated + n ≤ 2 ^ 20
        → s.generated + 512 ≤ 2 ^ 20
        → Serves ks p n (fill_keyed read clock ctr n s)
    unfolding fill_keyed
    keyed-Serves fits refill =
        rw (le→not-ltb 512 s.off h.within) (elim (Bool-cases (leb 512 (n - taken))) [
          | inl l ↦ rw l (direct-Serves (leb→le 512 (n - taken) l) fits)
          | inr k ↦ elim (Bool-cases (ltb 0 (n - taken))) [
            | inl l ↦
                rw (k, l)
                  (refilled-Serves (not-leb→lt 512 (n - taken) k) (ltb→lt 0 (n - taken) l) refill)
            | inr m ↦
                let all : n - taken ≡ 0 = omega (arith, not-ltb→le 0 (n - taken) m) in
                rw (k, m)
                  (
                    _,
                    refl,
                    refl,
                    tabulate-eq _ _ n (λ i hi. served-byte i (omega arith)),
                    record {
                      keyed = h.keyed;
                      unserved = tabulate-eq _ _ (512 - (s.off + taken)) (λ i hi. later i hi);
                      reached = omega (arith, h.reached);
                      within = omega (arith, h.within);
                    },
                  )
          ]
        ])

  -- On a source that stands at the byte p of its key's keystream, its key less than a second old,
  -- a draw of n bytes succeeds and gives the next n bytes of the keystream, from p on, and leaves
  -- the source at p + n: no keystream is served twice or left out between buffer, refill and
  -- direct generation. The budget must not end under the draw or a refill.
  pub fill-Serves :
      (ks : ℕ → ℕ) (p : ℕ) (s : AesSource W)
      → IsServing ks p s
      → (clock s.world).0 < s.keyed_at + 10 ^ 9
      → (n : ℕ) → s.generated + n ≤ 2 ^ 20
      → s.generated + 512 ≤ 2 ^ 20
      → Serves ks p n (fill read clock ctr n s)
  unfolding fill needs_key
  fill-Serves ks p s h young n fits refill = elim (Bool-cases (n == 0)) [
    | inl z ↦
        let none_asked : n ≡ 0 = (==_iff n 0).0 z in
        let same : p + 0 ≡ p = omega arith in
        rw z (
          _,
          refl,
          refl,
          rw none_asked refl,
          record {
            keyed = h.keyed;
            unserved = rw (none_asked, same) h.unserved;
            reached = omega (arith, h.reached);
            within = h.within;
          },
        )
    | inr k ↦
        rw (k, h.keyed, lt→not-leb (s.keyed_at + 10 ^ 9) (clock s.world).0 young)
          (keyed-Serves ks p
            (record s {
              world = (clock s.world).1;
              stream = some (record { keystream = ks; position = s.generated });
            })
            (record { keyed = refl; unserved = h.unserved; reached = h.reached; within = h.within })
            n fits refill)
  ]

  -- A source with no key.
  abbrev pub IsKeyless : AesSource W → Type 0
  IsKeyless s = (s.stream ≡ none) × (s.off ≡ 512) × (s.generated ≡ 0)

  -- On a source without a key, where the reader fills the 32 bytes of a key and the cipher takes
  -- it, a draw of 1 to 2^20 bytes succeeds and gives the key's keystream from its first byte on.
  pub fill-from-keyless :
      (s : AesSource W)
      → s.stream ≡ none
      → (read 32 s.world).full ≡ true
      → (ks : ℕ → ℕ)
      → ctr (copy_range s.key (read 32 s.world).copied (read 32 s.world).bytes) ≡ some ks
      → (n : ℕ) → 0 < n
      → n ≤ 2 ^ 20
      → Serves ks 0 n (fill read clock ctr n s)
  unfolding fill needs_key rekey rekey_cipher
  fill-from-keyless s e full ks key n h0 fits =
      rw (ne→not-== n 0 (λ z. omega arith), e, full, key)
        (keyed-Serves ks 0 _
          (record { keyed = refl; unserved = refl; reached = omega arith; within = omega arith }) n
          (omega arith) (omega arith))

  -- A draw that fails for want of a key.
  abbrev pub FailsClosed : Option (Draw (AesSource W)) → Type 0
  FailsClosed r =
      (d : Draw (AesSource W)) × (r ≡ some d) × (d.errno ≡ 29) × (d.written ≡ 0) × IsKeyless d.next
