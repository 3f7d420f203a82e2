-- ===== src/Core/V4/Call.antt =====
-- The whole call `Xuuid_new_v4`, with the scratch at its address.
use hyper_uuid.Prelude.{
  ℕ, ◌+◌, ◌*◌, ◌%◌, ◌^◌, ◌<◌, ◌≤◌, ◌≡◌, refl, ◌∙◌, arith, Bool, Bool-cases, inl, inr, true, false,
  ◌==◌, ==_iff,
}
use hyper_uuid.Bits.{and_mask, or_add, add_or}
use hyper_uuid.Word.{◌and◌, ◌or◌, byte, shl32}
use hyper_uuid.Memory.Ranges.{load32_same, load64_same}
use hyper_uuid.Memory.{Memory, load64, store64, write_range}
use hyper_uuid.Uuid.{Uuid, IsBytes, SameBytes, SameBytes-eq, read_uuid}
use hyper_uuid.Stream.{Stream}
use hyper_uuid.Core.Module.{Draw, Module, IsSource}
use hyper_uuid.Core.V4.{v4_steps, uuid_new_v4}
use hyper_uuid.Core.V7.Call.{same_module}
use hyper_uuid.Core.V7.Contract.{Holds}

-- RFC 9562 §5.4: sixteen random bytes with the version and the variant in them.
abbrev pub v4_layout : (ℕ → ℕ) → Uuid
v4_layout r = record {
  b0 = r 0;
  b1 = r 1;
  b2 = r 2;
  b3 = r 3;
  b4 = r 4;
  b5 = r 5;
  b6 = 64 + r 6 % 16;
  b7 = r 7;
  b8 = 128 + r 8 % 64;
  b9 = r 9;
  b10 = r 10;
  b11 = r 11;
  b12 = r 12;
  b13 = r 13;
  b14 = r 14;
  b15 = r 15;
}

octets3 :
    (r3 r4 r5 r6 : ℕ)
    → r3 < 256
    → r4 < 256
    → r5 < 256
    → r6 < 256
    → (shl32 (r6 and 15) 24 or (r3 + r4 * 2 ^ 8 or shl32 r5 16) or 0x40000000)
      ≡ r3 + r4 * 2 ^ 8 + r5 * 2 ^ 16 + (64 + r6 % 16) * 2 ^ 24
octets3 r3 r4 r5 r6 h3 h4 h5 h6 =
    rw
      (
        and_mask 4 r6,
        add_or 16 (r3 + r4 * 2 ^ 8) (shl32 r5 16) (omega arith) (omega arith),
        or_add 24 (shl32 (r6 % 2 ^ 4) 24) (r3 + r4 * 2 ^ 8 + shl32 r5 16) (omega arith)
            (omega arith),
        add_or 28 (shl32 (r6 % 2 ^ 4) 24 + (r3 + r4 * 2 ^ 8 + shl32 r5 16)) 0x40000000 (omega arith)
            (omega arith),
      )
      (omega arith)

octet8 : (r8 : ℕ) → byte (r8 and 63 or 128) ≡ 128 + r8 % 64
octet8 r8 = rw (and_mask 6 r8, add_or 7 (r8 % 2 ^ 6) 128 (omega arith) (omega arith)) (omega arith)

module _ (mem : Memory) (h : IsBytes (read_uuid mem 65520)) where
  v4_steps-layout :
      SameBytes (read_uuid (v4_steps mem 65504 131072) 131072) (v4_layout λ i. mem (65520 + i))
  unfolding v4_steps
  v4_steps-layout =
      let sum = octets3 (mem 65523) (mem 65524) (mem 65525) (mem 65526) h.b3 h.b4 h.b5 h.b6 in
      record {
        e0 = omega (arith, h.b0, h.b1);
        e1 = omega (arith, h.b0, h.b1);
        e2 = omega (arith, h.b2);
        e3 = rw sum (omega (arith, h.b3, h.b4, h.b5, h.b6));
        e4 = rw sum (omega (arith, h.b3, h.b4, h.b5, h.b6));
        e5 = rw sum (omega (arith, h.b3, h.b4, h.b5, h.b6));
        e6 = rw sum (omega (arith, h.b3, h.b4, h.b5, h.b6));
        e7 = omega (arith, h.b7);
        e8 = octet8 (mem 65528);
        e9 = omega (arith, h.b9, h.b10, h.b11, h.b12);
        e10 = omega (arith, h.b9, h.b10, h.b11, h.b12);
        e11 = omega (arith, h.b9, h.b10, h.b11, h.b12);
        e12 = omega (arith, h.b12, h.b13, h.b14, h.b15);
        e13 = omega (arith, h.b12, h.b13, h.b14, h.b15);
        e14 = omega (arith, h.b12, h.b13, h.b14, h.b15);
        e15 = omega (arith, h.b12, h.b13, h.b14, h.b15);
      }

-- What the call returns where the source fails and where it does not; the stream stays as it is.
abbrev pub Drew : {S : Type 0} → Bool → Stream → Draw S → Module S × ℕ → Type 0
Drew true s d r = (r.1 ≡ 0) × (read_uuid r.0.memory 131072 ≡ v4_layout d.bytes) × Holds r.0 s
Drew false s d r = (r.1 ≡ 1) × Holds r.0 s

-- The frame after the draw.
abbrev drawn : Memory → ℕ → (ℕ → ℕ) → Memory
drawn mem written bytes = write_range (store64 (store64 mem 65528 0) 65520 0) 65520 written bytes

module _ (mem : Memory) (written : ℕ) (bytes : ℕ → ℕ) where
  drawn-above : (a : ℕ) → written ≤ 16 → 65536 ≤ a → drawn mem written bytes a ≡ mem a
  drawn-above a h k = ground arith

  drawn-word : written ≤ 16 → load64 (drawn mem written bytes) 65560 ≡ load64 mem 65560
  drawn-word h = omega (
    arith,
    drawn-above 65560 h (omega arith),
    drawn-above 65561 h (omega arith),
    drawn-above 65562 h (omega arith),
    drawn-above 65563 h (omega arith),
    drawn-above 65564 h (omega arith),
    drawn-above 65565 h (omega arith),
    drawn-above 65566 h (omega arith),
    drawn-above 65567 h (omega arith),
  )

module _ {S : Type 0} (fill : ℕ → S → Draw S) (ok : IsSource fill) (m : Module S) (s : Stream)
    (h : Holds m s) where
  abbrev before : Module S
  before = record m { g0 = 65536 }

  refuses :
      ((fill 16 m.src).errno == 0) ≡ false
      → Drew false s (fill 16 m.src) (uuid_new_v4 fill before 131072)
  unfolding uuid_new_v4
  refuses n = rw n (
    refl,
    record {
      stack = refl;
      word =
          drawn-word m.memory (fill 16 m.src).written (fill 16 m.src).bytes (ok.within 16 m.src)
          ∙ h.word;
      valid = h.valid;
      t0 =
          drawn-above m.memory (fill 16 m.src).written (fill 16 m.src).bytes 65556
            (ok.within 16 m.src) (omega arith)
          ∙ h.t0;
      t1 =
          drawn-above m.memory (fill 16 m.src).written (fill 16 m.src).bytes 65557
            (ok.within 16 m.src) (omega arith)
          ∙ h.t1;
      t2 =
          drawn-above m.memory (fill 16 m.src).written (fill 16 m.src).bytes 65558
            (ok.within 16 m.src) (omega arith)
          ∙ h.t2;
      hash_ab =
          load64_same m.memory (drawn m.memory (fill 16 m.src).written (fill 16 m.src).bytes) 65536
            (λ b l u.
              drawn-above m.memory (fill 16 m.src).written (fill 16 m.src).bytes b
                (ok.within 16 m.src) (omega (arith, l)))
          ∙ h.hash_ab;
      hash_cd =
          load64_same m.memory (drawn m.memory (fill 16 m.src).written (fill 16 m.src).bytes) 65544
            (λ b l u.
              drawn-above m.memory (fill 16 m.src).written (fill 16 m.src).bytes b
                (ok.within 16 m.src) (omega (arith, l)))
          ∙ h.hash_cd;
      hash_e =
          load32_same m.memory (drawn m.memory (fill 16 m.src).written (fill 16 m.src).bytes) 65552
            (λ b l u.
              drawn-above m.memory (fill 16 m.src).written (fill 16 m.src).bytes b
                (ok.within 16 m.src) (omega (arith, l)))
          ∙ h.hash_e;
    },
  )

  bytes_drawn : IsBytes (read_uuid (drawn m.memory 16 (fill 16 m.src).bytes) 65520)
  bytes_drawn =
      let b = ok.bytes_lt 16 m.src in
      record {
        b0 = b 0;
        b1 = b 1;
        b2 = b 2;
        b3 = b 3;
        b4 = b 4;
        b5 = b 5;
        b6 = b 6;
        b7 = b 7;
        b8 = b 8;
        b9 = b 9;
        b10 = b 10;
        b11 = b 11;
        b12 = b 12;
        b13 = b 13;
        b14 = b 14;
        b15 = b 15;
      }

  steps-Holds :
      Holds
        (record before {
          memory = v4_steps (drawn m.memory 16 (fill 16 m.src).bytes) 65504 131072;
          src = (fill 16 m.src).next;
        })
        s
  unfolding v4_steps
  steps-Holds = record {
    stack = refl;
    word = h.word;
    valid = h.valid;
    t0 = h.t0;
    t1 = h.t1;
    t2 = h.t2;
    hash_ab = h.hash_ab;
    hash_cd = h.hash_cd;
    hash_e = h.hash_e;
  }

  mints :
      ((fill 16 m.src).errno == 0) ≡ true
      → Drew true s (fill 16 m.src) (uuid_new_v4 fill before 131072)
  unfolding uuid_new_v4
  mints e =
      rw (e, ok.complete 16 m.src ((==_iff (fill 16 m.src).errno 0).0 e))
        (
          refl,
          SameBytes-eq (v4_steps-layout (drawn m.memory 16 (fill 16 m.src).bytes) bytes_drawn),
          steps-Holds,
        )

  pub uuid_new_v4-Drew :
      Drew ((fill 16 m.src).errno == 0) s (fill 16 m.src) (uuid_new_v4 fill m 131072)
  uuid_new_v4-Drew = rw (same_module m h.stack) (elim (Bool-cases ((fill 16 m.src).errno == 0)) [
    | inl e ↦ rw e (mints e)
    | inr n ↦ rw n (refuses n)
  ])

  pub uuid_new_v4-size : (uuid_new_v4 fill m 131072).0.size ≡ m.size
  unfolding uuid_new_v4
  uuid_new_v4-size = elim (Bool-cases ((fill 16 m.src).errno == 0)) [
    | inl e ↦ rw e refl
    | inr n ↦ rw n refl
  ]
