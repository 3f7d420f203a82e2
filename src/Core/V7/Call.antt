-- ===== src/Core/V7/Call.antt =====
-- The whole call `Xuuid_new_v7`, on every branch, with the scratch at its address.
use hyper_uuid.Prelude.{ℕ, ◌+◌, ◌*◌, ◌^◌, ◌<◌, ◌≤◌, ◌≡◌, ◌≢◌, refl, ◌∙◌, arith}
use hyper_uuid.Prelude.{
  ltb, ◌==◌, ==_iff, lt→ltb, le→not-ltb, ne→not-==, not-==→ne, ltb→lt, not-ltb→le, Bool-cases, inl,
  inr,
}
use hyper_uuid.Memory.Ranges.{load32_same, load64_same}
use hyper_uuid.Memory.{Memory, load32, load64, store64, write_range}
use hyper_uuid.Stream
use hyper_uuid.Stream.{Stream, fresh, last, Outcome, aside, full, granted, encode, IsStream}
use hyper_uuid.Stream.Laws.{after-IsStream}
use hyper_uuid.Core.Module.{Draw, Module, IsSource}
use hyper_uuid.Core.V7.{uuid_new_v7}
use hyper_uuid.Core.V7.Minting.{Reports, v7_reserved-Reports}
use hyper_uuid.Core.V7.Contract.{Holds, draw_seed, Answers, verdict, Returns}

-- The frame after the draw.
abbrev drawn : Memory → ℕ → (ℕ → ℕ) → Memory
drawn mem written bytes = write_range (store64 (store64 mem 65528 0) 65520 0) 65525 written bytes

module _ (mem : Memory) (written : ℕ) (bytes : ℕ → ℕ) where
  drawn_above : (a : ℕ) → written ≤ 11 → 65536 ≤ a → drawn mem written bytes a ≡ mem a
  drawn_above a h k = ground arith

  drawn_word : written ≤ 11 → load64 (drawn mem written bytes) 65560 ≡ load64 mem 65560
  drawn_word h = omega (
    arith,
    drawn_above 65560 h (omega arith),
    drawn_above 65561 h (omega arith),
    drawn_above 65562 h (omega arith),
    drawn_above 65563 h (omega arith),
    drawn_above 65564 h (omega arith),
    drawn_above 65565 h (omega arith),
    drawn_above 65566 h (omega arith),
    drawn_above 65567 h (omega arith),
  )

Reports-Answers :
    {S : Type 0} (o : Outcome) (s : Stream) (now : ℕ) (d : Draw S) (mem : Memory) (size : ℕ)
    (r : Memory × ℕ) (valid : IsStream s) (later : IsStream (Stream.after o s)) (t0 : mem 65556 ≡ 2)
    (t1 : mem 65557 ≡ 2) (t2 : mem 65558 ≡ 3) (hash_ab : load64 mem 65536 ≡ 0xefcdab8967452301)
    (hash_cd : load64 mem 65544 ≡ 0x1032547698badcfe) (hash_e : load32 mem 65552 ≡ 0xc3d2e1f0)
    → Reports o s (now * 2 ^ 20 + draw_seed d) (drawn mem 11 d.bytes) r
    → Answers o s now d (record { memory = r.0; size = size; g0 = 65536; src = d.next }, r.1)
unfolding Stream.after
Reports-Answers aside s now d mem size r v v' t0 t1 t2 hash_ab hash_cd hash_e h = (
  h.0,
  h.1,
  record {
    stack = refl;
    word = h.2;
    valid = v;
    t0 = h.3.t0 ∙ t0;
    t1 = h.3.t1 ∙ t1;
    t2 = h.3.t2 ∙ t2;
    hash_ab = h.3.hash_ab ∙ hash_ab;
    hash_cd = h.3.hash_cd ∙ hash_cd;
    hash_e = h.3.hash_e ∙ hash_e;
  },
)
Reports-Answers full s now d mem size r v v' t0 t1 t2 hash_ab hash_cd hash_e h = (
  h.0,
  record {
    stack = refl;
    word = h.1;
    valid = v;
    t0 = h.2.t0 ∙ t0;
    t1 = h.2.t1 ∙ t1;
    t2 = h.2.t2 ∙ t2;
    hash_ab = h.2.hash_ab ∙ hash_ab;
    hash_cd = h.2.hash_cd ∙ hash_cd;
    hash_e = h.2.hash_e ∙ hash_e;
  },
)
Reports-Answers (granted f l) s now d mem size r v v' t0 t1 t2 hash_ab hash_cd hash_e h = (
  h.0,
  h.1,
  record {
    stack = refl;
    word = h.2;
    valid = v';
    t0 = h.3.t0 ∙ t0;
    t1 = h.3.t1 ∙ t1;
    t2 = h.3.t2 ∙ t2;
    hash_ab = h.3.hash_ab ∙ hash_ab;
    hash_cd = h.3.hash_cd ∙ hash_cd;
    hash_e = h.3.hash_e ∙ hash_e;
  },
)

pub same_module :
    {S : Type 0} (m : Module S)
    → m.g0 ≡ 65536
    → m ≡ record { memory = m.memory; size = m.size; g0 = 65536; src = m.src }
same_module m e = λ i. record m { g0 = e i }

module _ {S : Type 0} (fill : ℕ → S → Draw S) (ok : IsSource fill) (mem : Memory) (size : ℕ)
    (src : S) where
  abbrev between : Module S
  between = record { memory = mem; size = size; g0 = 65536; src = src }

  module _ (s : Stream) (h : Holds between s) (now : ℕ) where
    refuses_late :
        253402300799999 < now
        → ((uuid_new_v7 fill between now 131072).1 ≡ 2)
          × Holds (uuid_new_v7 fill between now 131072).0 s
    unfolding uuid_new_v7
    refuses_late late = rw (lt→ltb 253402300799999 now late) (refl, h)

    refuses_failed :
        now ≤ 253402300799999
        → (fill 11 src).errno ≢ 0
        → ((uuid_new_v7 fill between now 131072).1 ≡ 1)
          × Holds (uuid_new_v7 fill between now 131072).0 s
    unfolding uuid_new_v7
    refuses_failed early failed =
        rw (le→not-ltb 253402300799999 now early, ne→not-== _ 0 failed)
          (
            refl,
            record {
              stack = refl;
              word =
                  rw (drawn_word mem (fill 11 src).written (fill 11 src).bytes (ok.within 11 src))
                    h.word;
              valid = h.valid;
              t0 =
                  drawn_above mem (fill 11 src).written (fill 11 src).bytes 65556 (ok.within 11 src)
                    (omega arith)
                  ∙ h.t0;
              t1 =
                  drawn_above mem (fill 11 src).written (fill 11 src).bytes 65557 (ok.within 11 src)
                    (omega arith)
                  ∙ h.t1;
              t2 =
                  drawn_above mem (fill 11 src).written (fill 11 src).bytes 65558 (ok.within 11 src)
                    (omega arith)
                  ∙ h.t2;
              hash_ab =
                  load64_same mem (drawn mem (fill 11 src).written (fill 11 src).bytes) 65536
                    (λ b l u.
                      drawn_above mem (fill 11 src).written (fill 11 src).bytes b (ok.within 11 src)
                        (omega (arith, l)))
                  ∙ h.hash_ab;
              hash_cd =
                  load64_same mem (drawn mem (fill 11 src).written (fill 11 src).bytes) 65544
                    (λ b l u.
                      drawn_above mem (fill 11 src).written (fill 11 src).bytes b (ok.within 11 src)
                        (omega (arith, l)))
                  ∙ h.hash_cd;
              hash_e =
                  load32_same mem (drawn mem (fill 11 src).written (fill 11 src).bytes) 65552
                    (λ b l u.
                      drawn_above mem (fill 11 src).written (fill 11 src).bytes b (ok.within 11 src)
                        (omega (arith, l)))
                  ∙ h.hash_e;
            },
          )

    seed_fits : draw_seed (fill 11 src) < 2 ^ 19
    seed_fits = omega (arith, ok.bytes_lt 11 src 1, ok.bytes_lt 11 src 2, ok.bytes_lt 11 src 3)

    mints :
        now ≤ 253402300799999
        → (fill 11 src).errno ≡ 0
        → Answers
            (Stream.reserve now 1 (draw_seed (fill 11 src)) s)
            s
            now
            (fill 11 src)
            (uuid_new_v7 fill between now 131072)
    unfolding uuid_new_v7
    mints early drew =
        rw (le→not-ltb 253402300799999 now early, drew, ok.complete 11 src drew)
          (Reports-Answers (Stream.reserve now 1 (draw_seed (fill 11 src)) s) s now
            (record {
              errno = 0;
              written = 11;
              bytes = (fill 11 src).bytes;
              next = (fill 11 src).next;
            })
            mem size _ h.valid
            (after-IsStream now 1 (draw_seed (fill 11 src)) s h.valid (omega arith)
              (omega (arith, seed_fits)))
            h.t0 h.t1 h.t2 h.hash_ab h.hash_cd h.hash_e
            (v7_reserved-Reports s (drawn mem 11 (fill 11 src).bytes) now h.valid (omega arith)
              (record {
                r1 = ok.bytes_lt 11 src 1;
                r2 = ok.bytes_lt 11 src 2;
                r3 = ok.bytes_lt 11 src 3;
              })
              (record {
                d0 = ok.bytes_lt 11 src 5;
                d1 = ok.bytes_lt 11 src 6;
                d2 = ok.bytes_lt 11 src 7;
                d3 = ok.bytes_lt 11 src 8;
                d4 = ok.bytes_lt 11 src 9;
                d5 = ok.bytes_lt 11 src 10;
              })
              h.word))

    -- The call on every branch: it returns what the stream and the draw call for.
    returns :
        Returns
          (verdict now (fill 11 src) s)
          s
          now
          (fill 11 src)
          (uuid_new_v7 fill between now 131072)
    returns = elim (Bool-cases (ltb 253402300799999 now)) [
      | inl e ↦ rw e (refuses_late (ltb→lt 253402300799999 now e))
      | inr n ↦ elim (Bool-cases ((fill 11 src).errno == 0)) [
        | inl e ↦
            rw (n, e)
              (mints (not-ltb→le 253402300799999 now n) ((==_iff (fill 11 src).errno 0).0 e))
        | inr m ↦
            rw (n, m)
              (refuses_failed (not-ltb→le 253402300799999 now n)
                (not-==→ne (fill 11 src).errno 0 m))
      ]
    ]

module _ {S : Type 0} (fill : ℕ → S → Draw S) (ok : IsSource fill) (m : Module S) (s : Stream)
    (h : Holds m s) (now : ℕ) where
  pub uuid_new_v7-Returns :
      Returns (verdict now (fill 11 m.src) s) s now (fill 11 m.src) (uuid_new_v7 fill m now 131072)
  uuid_new_v7-Returns =
      let at_rest : Holds (between fill ok m.memory m.size m.src) s = record {
        stack = refl;
        word = h.word;
        valid = h.valid;
        t0 = h.t0;
        t1 = h.t1;
        t2 = h.t2;
        hash_ab = h.hash_ab;
        hash_cd = h.hash_cd;
        hash_e = h.hash_e;
      } in
      rw (same_module m h.stack) (returns fill ok m.memory m.size m.src s at_rest now)

  pub uuid_new_v7-size : (uuid_new_v7 fill m now 131072).0.size ≡ m.size
  unfolding uuid_new_v7
  uuid_new_v7-size = elim (Bool-cases (ltb 253402300799999 now)) [
    | inl e ↦ rw e refl
    | inr n ↦ elim (Bool-cases ((fill 11 m.src).errno == 0)) [
      | inl e ↦ rw (n, e) refl
      | inr k ↦ rw (n, k) refl
    ]
  ]
