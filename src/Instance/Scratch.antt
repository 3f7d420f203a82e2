-- ===== src/Instance/Scratch.antt =====
-- Growing the scratch of an instance.
use hyper_uuid.Prelude.{
  ℕ, ◌+◌, ◌-◌, ◌*◌, ◌/◌, ◌^◌, ◌<◌, ◌≤◌, ◌≡◌, refl, ◌∙◌, arith, Bool, true, false, Bool-cases, inl,
  inr, leb, none, some, le→leb, le→not-ltb, ne→not-==, lt→not-leb, leb→le, not-leb→lt,
}
use hyper_uuid.Memory.Ranges.{load32_same, load64_same}
use hyper_uuid.Memory.{Memory, load64, write_range}
use hyper_uuid.Stream.{Stream}
use hyper_uuid.Core.Module.{Module, memory_grow}
use hyper_uuid.Instance.{Instance, scratch_pages_for, ensure_scratch}
use hyper_uuid.Instance.Ready.{IsReady}

-- Enough pages for so many bytes.
abbrev pub pages_for : ℕ → ℕ
pages_for bytes = (bytes + 65535) / 65536

scratch_pages_for-none : (bytes : ℕ) → 4294836224 < bytes → scratch_pages_for bytes ≡ none
unfolding scratch_pages_for
scratch_pages_for-none bytes h = ground arith

pub scratch_pages_for-some :
    (bytes : ℕ) → bytes ≤ 4294836224 → scratch_pages_for bytes ≡ some (pages_for bytes)
unfolding scratch_pages_for
scratch_pages_for-some bytes h = ground arith

-- What a request for so many bytes gives: the room for them, or the instance as it was.
abbrev pub Provides : {S : Type 0} → Bool → Instance S → ℕ → Instance S × Bool → Type 0
Provides true self bytes r = (r.1 ≡ true) × (bytes ≤ r.0.pages * 65536) × (self.pages ≤ r.0.pages)
Provides false self bytes r = (r.1 ≡ false) × (r.0 ≡ self)

module _ (mem : Memory) (size n : ℕ) (above : 131072 ≤ size) where
  grown-below : (a : ℕ) → a < 131072 → write_range mem size n (λ i. 0) a ≡ mem a
  grown-below a h = ground arith

  grown-word : load64 (write_range mem size n (λ i. 0)) 65560 ≡ load64 mem 65560
  grown-word = omega (
    arith,
    grown-below 65560 (omega arith),
    grown-below 65561 (omega arith),
    grown-below 65562 (omega arith),
    grown-below 65563 (omega arith),
    grown-below 65564 (omega arith),
    grown-below 65565 (omega arith),
    grown-below 65566 (omega arith),
    grown-below 65567 (omega arith),
  )

module _ {S : Type 0} (self : Instance S) (s : Stream) (ready : IsReady self s) where
  -- The module with memory up to so many bytes.
  abbrev grown : ℕ → Module S
  grown size = record self.m {
    memory = write_range self.m.memory self.m.size (size - self.m.size) (λ i. 0);
    size = size;
  }

  memory_grow-some :
      (delta : ℕ)
      → 0 < delta
      → 2 + self.pages + delta ≤ 65536
      → memory_grow (2 ^ 63 - 1) self.m delta 65536
        ≡ some (grown ((2 + self.pages + delta) * 2 ^ 16), 2 + self.pages)
  unfolding memory_grow
  memory_grow-some delta h k =
      let old : self.m.size / 2 ^ 16 ≡ 2 + self.pages = rw ready.sized (omega arith) in
      rw (ne→not-== delta 0 (λ e. omega arith), old, le→not-ltb 65536 (2 + self.pages + delta) k)
        refl

  grown-IsReady :
      (need : ℕ)
      → self.pages < need
      → IsReady (record self { m = grown ((2 + need) * 2 ^ 16); pages = need }) s
  grown-IsReady need h =
      let above : 131072 ≤ self.m.size = rw ready.sized (omega arith) in
      let n = (2 + need) * 2 ^ 16 - self.m.size in
      record {
        holds = record {
          stack = ready.holds.stack;
          word = grown-word self.m.memory self.m.size n above ∙ ready.holds.word;
          valid = ready.holds.valid;
          t0 = grown-below self.m.memory self.m.size n above 65556 (omega arith) ∙ ready.holds.t0;
          t1 = grown-below self.m.memory self.m.size n above 65557 (omega arith) ∙ ready.holds.t1;
          t2 = grown-below self.m.memory self.m.size n above 65558 (omega arith) ∙ ready.holds.t2;
          hash_ab =
              load64_same self.m.memory (write_range self.m.memory self.m.size n (λ i. 0)) 65536
                (λ b l u. grown-below self.m.memory self.m.size n above b (omega (arith, u)))
              ∙ ready.holds.hash_ab;
          hash_cd =
              load64_same self.m.memory (write_range self.m.memory self.m.size n (λ i. 0)) 65544
                (λ b l u. grown-below self.m.memory self.m.size n above b (omega (arith, u)))
              ∙ ready.holds.hash_cd;
          hash_e =
              load32_same self.m.memory (write_range self.m.memory self.m.size n (λ i. 0)) 65552
                (λ b l u. grown-below self.m.memory self.m.size n above b (omega (arith, u)))
              ∙ ready.holds.hash_e;
        };
        placed = ready.placed;
        paged = omega (arith, h);
        sized = refl;
      }

  grows :
      (bytes : ℕ)
      → bytes ≤ 4294836224
      → self.pages < pages_for bytes
      → ensure_scratch self bytes ≡ (
        record self { m = grown ((2 + pages_for bytes) * 2 ^ 16); pages = pages_for bytes },
        true,
      )
  unfolding ensure_scratch
  grows bytes h k =
      let sum : 2 + self.pages + (pages_for bytes - self.pages) ≡ 2 + pages_for bytes =
        omega arith in
      rw (scratch_pages_for-some bytes h, ensure_scratch)
        (rw (lt→not-leb (pages_for bytes) self.pages k) (
          rw (memory_grow-some (pages_for bytes - self.pages) (omega arith) (omega arith))
            (rw sum refl)))

  keeps :
      (bytes : ℕ)
      → bytes ≤ 4294836224
      → pages_for bytes ≤ self.pages
      → ensure_scratch self bytes ≡ (self, true)
  unfolding ensure_scratch
  keeps bytes h k =
      rw (scratch_pages_for-some bytes h, ensure_scratch)
        (rw (le→leb (pages_for bytes) self.pages k) refl)

  refuses : (bytes : ℕ) → 4294836224 < bytes → ensure_scratch self bytes ≡ (self, false)
  unfolding ensure_scratch
  refuses bytes h = rw (scratch_pages_for-none bytes h, ensure_scratch) refl

  -- On a ready instance, `ensureScratch` succeeds exactly for requests of up to 65534 pages, and
  -- then the scratch has room for the bytes asked for and no fewer pages than before; a larger
  -- request leaves the instance as it was. The instance is ready either way.
  pub ensure_scratch-Provides :
      (bytes : ℕ)
      → Provides (leb bytes 4294836224) self bytes (ensure_scratch self bytes)
        × IsReady (ensure_scratch self bytes).0 s
  ensure_scratch-Provides bytes = elim (Bool-cases (leb bytes 4294836224)) [
    | inl e ↦ elim (Bool-cases (leb (pages_for bytes) self.pages)) [
      | inl fits ↦
          let k = leb→le (pages_for bytes) self.pages fits in
          rw (e, keeps bytes (leb→le bytes 4294836224 e) k)
            ((refl, omega (arith, k), omega arith), ready)
      | inr short ↦
          let k = not-leb→lt (pages_for bytes) self.pages short in
          rw (e, grows bytes (leb→le bytes 4294836224 e) k)
            ((refl, omega arith, omega (arith, k)), grown-IsReady (pages_for bytes) k)
    ]
    | inr n ↦ rw (n, refuses bytes (not-leb→lt bytes 4294836224 n)) ((refl, refl), ready)
  ]

  -- The source is not part of what grows.
  pub ensure_scratch-src : (bytes : ℕ) → (ensure_scratch self bytes).0.m.src ≡ self.m.src
  ensure_scratch-src bytes = elim (Bool-cases (leb bytes 4294836224)) [
    | inl e ↦ elim (Bool-cases (leb (pages_for bytes) self.pages)) [
      | inl fits ↦
          rw (keeps bytes (leb→le bytes 4294836224 e) (leb→le (pages_for bytes) self.pages fits))
            refl
      | inr short ↦
          rw
            (grows bytes (leb→le bytes 4294836224 e)
              (not-leb→lt (pages_for bytes) self.pages short))
            refl
    ]
    | inr n ↦ rw (refuses bytes (not-leb→lt bytes 4294836224 n)) refl
  ]
