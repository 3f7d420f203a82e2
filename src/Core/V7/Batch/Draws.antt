-- ===== src/Core/V7/Batch/Draws.antt =====
-- The loop l4: the bytes of a batch, 65536 at most to a draw.
use hyper_uuid.Prelude.{
  ℕ, zero, suc, ◌+◌, ◌-◌, ◌*◌, ◌^◌, ◌<◌, ◌≤◌, ◌≡◌, ◌≢◌, refl, ap, sym, ◌∙◌, arith, ltb, ◌==◌,
  ==_iff, not-==→ne, Bool-cases, inl, inr, if◌then◌else◌, true, false, ltb→lt, not-ltb→le, lt→ltb,
  le→leb, le→not-ltb,
}
use hyper_uuid.Word.{add32, sub32}
use hyper_uuid.Memory.{Memory, write_range}
use hyper_uuid.Core.Module.{Draw, IsSource, Module, fn0}
use hyper_uuid.Core.V7.Batch.{Filling, filled, failed, starved, batch_draw}

abbrev chunk : ℕ → ℕ
chunk n = if ltb n 65536 then n else 65536

module _ {S : Type 0} (fill : ℕ → S → Draw S) where
  -- One draw after another up to n bytes, as one draw: the first that fails ends it.
  unfoldable pub draw_all : ℕ → ℕ → S → Draw S
  draw_all zero n s = record { errno = 0; written = 0; bytes = λ i. 0; next = s }
  draw_all (suc rounds) n s = elim (n == 0) [
    | true ↦ record { errno = 0; written = 0; bytes = λ i. 0; next = s }
    | false ↦
        let d = fill (chunk n) s in
        elim (d.errno == 0) [
          | true ↦
              let rest = draw_all rounds (n - chunk n) d.next in
              record {
                errno = rest.errno;
                written = chunk n + rest.written;
                bytes = λ i. if ltb i (chunk n) then d.bytes i else rest.bytes (i - chunk n);
                next = rest.next;
              }
          | false ↦ d
        ]
  ]

  pub draw_all-bytes-lt :
      IsSource fill → (rounds n : ℕ) (s : S) (i : ℕ) → (draw_all rounds n s).bytes i < 256
  unfolding draw_all
  draw_all-bytes-lt ok zero n s i = omega arith
  draw_all-bytes-lt ok (suc rounds) n s i = elim (Bool-cases (n == 0)) [
    | inl e ↦ rw (e, draw_all) (omega arith)
    | inr k ↦ elim (Bool-cases ((fill (chunk n) s).errno == 0)) [
      | inl z ↦ elim (Bool-cases (ltb i (chunk n))) [
        | inl l ↦ rw (k, draw_all) (rw z (rw l (ok.bytes_lt (chunk n) s i)))
        | inr g ↦
            rw (k, draw_all)
              (rw z (
                rw g (
                  draw_all-bytes-lt ok rounds (n - chunk n) (fill (chunk n) s).next (i - chunk n))))
      ]
      | inr f ↦ rw (k, draw_all) (rw f (ok.bytes_lt (chunk n) s i))
    ]
  ]

-- A module m' with n bytes more, from v2 on, than m.
pub record IsFilled {S : Type 0} (d : Draw S) (m m' : Module S) (v2 n : ℕ) : Type 0 where
  pub errno : d.errno ≡ 0
  pub src : m'.src ≡ d.next
  pub size : m'.size ≡ m.size
  pub g0 : m'.g0 ≡ m.g0
  pub below : (a : ℕ) → a < v2 → m'.memory a ≡ m.memory a
  pub placed : (i : ℕ) → i < n → m'.memory (v2 + i) ≡ d.bytes i

-- A module after a draw that failed.
pub record IsFailed {S : Type 0} (d : Draw S) (m m' : Module S) (v2 : ℕ) : Type 0 where
  pub errno : d.errno ≢ 0
  pub src : m'.src ≡ d.next
  pub size : m'.size ≡ m.size
  pub g0 : m'.g0 ≡ m.g0
  pub below : (a : ℕ) → a < v2 → m'.memory a ≡ m.memory a

abbrev pub Fills : {S : Type 0} → Filling S → Draw S → Module S → ℕ → ℕ → Type 0
Fills (filled m') d m v2 n = IsFilled d m m' v2 n
Fills (failed m') d m v2 n = IsFailed d m m' v2
Fills starved d m v2 n = ⊥

write_range-below :
    (mem : Memory) (a n : ℕ) (f : ℕ → ℕ) (b : ℕ) → b < a → write_range mem a n f b ≡ mem b
write_range-below mem a n f b h = ground arith

write_range-at :
    (mem : Memory) (a n : ℕ) (f : ℕ → ℕ) (i : ℕ) → i < n → write_range mem a n f (a + i) ≡ f i
write_range-at mem a n f i h =
    let back : a + i - a ≡ i = omega arith in
    rw (le→leb a (a + i) (omega arith), lt→ltb (a + i) (a + n) (omega arith), back)

module _ {S : Type 0} (d rest all : Draw S) (m m1 : Module S) (v2 n c : ℕ) (hc : c ≤ n)
    (size : m1.size ≡ m.size) (g0 : m1.g0 ≡ m.g0)
    (below : (a : ℕ) → a < v2 → m1.memory a ≡ m.memory a)
    (placed : (i : ℕ) → i < c → m1.memory (v2 + i) ≡ d.bytes i) (errno : all.errno ≡ rest.errno)
    (next : all.next ≡ rest.next) (here : (i : ℕ) → i < c → all.bytes i ≡ d.bytes i)
    (later : (i : ℕ) → c ≤ i → all.bytes i ≡ rest.bytes (i - c)) where
  more-IsFilled : (m2 : Module S) → IsFilled rest m1 m2 (v2 + c) (n - c) → IsFilled all m m2 v2 n
  more-IsFilled m2 f = record {
    errno = errno ∙ f.errno;
    src = f.src ∙ sym next;
    size = f.size ∙ size;
    g0 = f.g0 ∙ g0;
    below = λ a ha. f.below a (omega arith) ∙ below a ha;
    placed = λ i hi. elim (Bool-cases (ltb i c)) [
      | inl l ↦
          f.below (v2 + i) (omega (arith, ltb→lt i c l))
          ∙ placed i (ltb→lt i c l)
          ∙ sym (here i (ltb→lt i c l))
      | inr g ↦
          let le : c ≤ i = not-ltb→le i c g in
          let at : v2 + i ≡ v2 + c + (i - c) = omega arith in
          ap m2.memory at ∙ f.placed (i - c) (omega arith) ∙ sym (later i le)
    ];
  }

  more-IsFailed : (m2 : Module S) → IsFailed rest m1 m2 (v2 + c) → IsFailed all m m2 v2
  more-IsFailed m2 f = record {
    errno = λ z. f.errno (sym errno ∙ z);
    src = f.src ∙ sym next;
    size = f.size ∙ size;
    g0 = f.g0 ∙ g0;
    below = λ a ha. f.below a (omega arith) ∙ below a ha;
  }

  more-Fills : (r : Filling S) → Fills r rest m1 (v2 + c) (n - c) → Fills r all m v2 n
  more-Fills (filled m2) h = more-IsFilled m2 h
  more-Fills (failed m2) h = more-IsFailed m2 h
  more-Fills starved h = elim h [ ]

module _ {S : Type 0} (fill : ℕ → S → Draw S) (ok : IsSource fill) where
  -- The loop ends within its rounds: it fills the memory with the draw, or stops at the draw that
  -- fails.
  pub batch_draw-Fills :
      (rounds : ℕ) (m : Module S) (v2 n : ℕ)
      → v2 + n < 2 ^ 32
      → n + 65536 ≤ rounds * 65536
      → Fills (batch_draw fill rounds m v2 n) (draw_all fill rounds n m.src) m v2 n
  unfolding batch_draw draw_all fn0
  batch_draw-Fills zero m v2 n small enough = absurd (omega arith)
  batch_draw-Fills (suc rounds) m v2 n small enough = elim (Bool-cases (n == 0)) [
    | inl e ↦
        let z : n ≡ 0 = (==_iff n 0).0 e in
        rw (e, batch_draw)
          (rw (e, draw_all)
            (record {
              errno = refl;
              src = refl;
              size = refl;
              g0 = refl;
              below = λ a h. refl;
              placed = λ i h. absurd (omega arith);
            }))
    | inr k ↦
        let c = chunk n in
        let d = fill c m.src in
        let left : sub32 n c ≡ n - c = ground arith in
        let here : add32 v2 c ≡ v2 + c = ground arith in
        let rest = draw_all fill rounds (n - c) d.next in
        let m1 : Module S = record m {
          memory = write_range m.memory v2 d.written d.bytes;
          src = d.next;
        } in
        let all : Draw S = record {
          errno = rest.errno;
          written = c + rest.written;
          bytes = λ i. if ltb i c then d.bytes i else rest.bytes (i - c);
          next = rest.next;
        } in
        elim (Bool-cases (d.errno == 0)) [
          | inl z ↦
              rw (k, batch_draw)
                (rw (z) (
                  rw (k, draw_all)
                    (rw z (
                      rw (here, left)
                        (more-Fills d rest all m m1 v2 n c (ground arith) refl refl
                          (λ a h. write_range-below m.memory v2 d.written d.bytes a h)
                          (λ i h.
                            rw (ok.complete c m.src ((==_iff d.errno 0).0 z))
                              (write_range-at m.memory v2 c d.bytes i h))
                          refl refl (λ i h. rw (lt→ltb i c h)) (λ i h. rw (le→not-ltb i c h))
                          (batch_draw fill rounds m1 (v2 + c) (n - c))
                          (batch_draw-Fills rounds m1 (v2 + c) (n - c) (ground arith)
                            (ground arith)))))))
          | inr f ↦
              rw (k, batch_draw)
                (rw (f) (
                  rw (k, draw_all)
                    (rw f (record {
                      errno = not-==→ne d.errno 0 f;
                      src = refl;
                      size = refl;
                      g0 = refl;
                      below = λ a h. write_range-below m.memory v2 d.written d.bytes a h;
                    }))))
        ]
  ]
