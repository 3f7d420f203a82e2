-- ===== src/Core/V5/Frame.antt =====
-- The frame of `Xuuid_new_v5`: the buffer at 65472, its copy at 65408, and the state at 65384.
use mathlib.Core.Path.{fun_ext, subst}
use hyper_uuid.Prelude.{
  ℕ, ◌+◌, ◌-◌, ◌*◌, ◌^◌, ◌<◌, ◌≤◌, ◌≡◌, sym, ap, ◌∙◌, arith, if◌then◌else◌, ltb, leb, ◌&&◌,
}
use hyper_uuid.Memory.{Memory, load32, load64, write_range}
use hyper_uuid.Memory.Ranges.{zero64, zeros, copied, zero_down, copy_down}
use hyper_uuid.Sha.{absorb, initial}
use hyper_uuid.Sha.Forms.{IsWords}
use hyper_uuid.Core.V5.{flush, clear_buffer}
use hyper_uuid.Core.V5.Block.{fn6, load_digest}
use hyper_uuid.Core.V5.Blocks.{fn6_lem}

pub clear_buffer_lem : (mem : Memory) → clear_buffer mem 65376 ≡ zeros mem 65472 64
unfolding clear_buffer
clear_buffer_lem mem = zero_down mem 65472 56 (
    zero_down mem 65480 48 (
      zero_down mem 65488 40 (
        zero_down mem 65496 32 (
          zero_down mem 65504 24
            (zero_down mem 65512 16 (zero_down mem 65520 8 (zero64 mem 65528)))))))

pub copied_none : (mem : Memory) (a s : ℕ) → mem ≡ copied mem a s 0
copied_none mem a s = fun_ext λ b. ground arith

-- The initial hash value in the module's data.
pub record HasData (mem : Memory) : Type 0 where
  pub ab : load64 mem 65536 ≡ 0xefcdab8967452301
  pub cd : load64 mem 65544 ≡ 0x1032547698badcfe
  pub e : load32 mem 65552 ≡ 0xc3d2e1f0

-- The words of a digest depend on its twenty bytes only.
pub digest_same :
    (mem mem' : Memory)
    → ((b : ℕ) → 65384 ≤ b → b < 65404 → mem' b ≡ mem b)
    → load_digest mem' 65384 ≡ load_digest mem 65384
digest_same mem mem' e =
    let word = λ (p : ℕ) (l : 65384 ≤ p) (h : p + 3 < 65404).
      let e0 = e p l (omega arith) in
      let e1 = e (p + 1) (omega arith) (omega arith) in
      let e2 = e (p + 2) (omega arith) (omega arith) in
      let e3 = e (p + 2 + 1) (omega arith) (omega arith) in
      let r : load32 mem' p ≡ load32 mem p = omega (arith, e0, e1, e2, e3) in r in
    let ea = word 65384 (omega arith) (omega arith) in
    let eb = word 65388 (omega arith) (omega arith) in
    let ec = word 65392 (omega arith) (omega arith) in
    let ed = word 65396 (omega arith) (omega arith) in
    let ee = word 65400 (omega arith) (omega arith) in
    λ i. record { a = ea i; b = eb i; c = ec i; d = ed i; e = ee i }

-- After j blocks of a message: its hash value so far, what the buffer holds, and all of the memory
-- above the frame as it was.
pub record Frame (bytes : ℕ → ℕ) (mem : Memory) (j : ℕ) (f : ℕ → ℕ) (mem' : Memory) : Type 0 where
  pub digest : load_digest mem' 65384 ≡ absorb bytes j initial
  pub buffer : (i : ℕ) → i < 64 → mem' (65472 + i) ≡ f i
  pub above : (b : ℕ) → 65536 ≤ b → mem' b ≡ mem b

pub initial-IsWords : IsWords initial
unfolding initial
initial-IsWords = record {
  a_lt = omega arith;
  b_lt = omega arith;
  c_lt = omega arith;
  d_lt = omega arith;
  e_lt = omega arith;
}

module _ (bytes : ℕ → ℕ) (mem : Memory) where
  -- Bytes written into the buffer.
  pub write_Frame :
      (m : Memory) (j o c : ℕ) (f f' g : ℕ → ℕ)
      → Frame bytes mem j f m
      → o + c ≤ 64
      → ((i : ℕ) → i < 64 → (if leb o i && ltb i (o + c) then g (i - o) else f i) ≡ f' i)
      → Frame bytes mem j f' (write_range m (65472 + o) c g)
  write_Frame m j o c f f' g h fits same = record {
    digest = digest_same m (write_range m (65472 + o) c g) (λ b l k. ground arith) ∙ h.digest;
    buffer = λ i l.
        let at : 65472 + i - (65472 + o) ≡ i - o = omega arith in
        ground (arith, h.buffer i l, same i l, ap g at);
    above = λ b l. ground (arith, h.above b l);
  }

  pub same_Frame :
      (m : Memory) (j : ℕ) (f f' : ℕ → ℕ)
      → Frame bytes mem j f m
      → ((i : ℕ) → i < 64 → f i ≡ f' i)
      → Frame bytes mem j f' m
  same_Frame m j f f' h same = record {
    digest = h.digest;
    buffer = λ i l. h.buffer i l ∙ same i l;
    above = h.above;
  }

module _ (bytes : ℕ → ℕ) (bytes_lt : (i : ℕ) → bytes i < 256) where
  copy_buffer :
      (mem : Memory)
      → ((i : ℕ) → i < 64 → mem (65472 + i) < 256)
      → flush mem 65376 ≡ fn6 (copied mem 65408 65472 64) 65384 65408 1
  unfolding flush
  copy_buffer mem low =
      let at = λ (k : ℕ) (h : k < 57) (i : ℕ) (l : i < 8).
        let r : mem (65472 + k + i) < 256 =
          (let same : mem (65472 + (k + i)) ≡ mem (65472 + k + i) = ap mem (omega arith) in
            omega (arith, same, low (k + i) (omega (arith, h, l)))) in
        r in
      ap (λ (t : Memory). fn6 t 65384 65408 1)
        (copy_down mem 65408 65472 56 (omega arith) (at 0 (omega arith)) (
          copy_down mem 65416 65480 48 (omega arith) (at 8 (omega arith)) (
            copy_down mem 65424 65488 40 (omega arith) (at 16 (omega arith)) (
              copy_down mem 65432 65496 32 (omega arith) (at 24 (omega arith)) (
                copy_down mem 65440 65504 24 (omega arith) (at 32 (omega arith)) (
                  copy_down mem 65448 65512 16 (omega arith) (at 40 (omega arith)) (
                    copy_down mem 65456 65520 8 (omega arith) (at 48 (omega arith)) (
                      copy_down mem 65464 65528 0 (omega arith) (at 56 (omega arith))
                        (copied_none mem 65472 65536)))))))))

  -- A state that has absorbed j blocks takes in n more that stand at v1.
  pub fn6-Frame :
      (mem mem' : Memory) (v1 j n : ℕ) (f : ℕ → ℕ)
      → Frame bytes mem j f mem'
      → v1 + 64 * n < 2 ^ 32
      → ((i : ℕ) → i < 64 * n → mem' (v1 + i) ≡ bytes (64 * j + i))
      → Frame bytes mem (j + n) f (fn6 mem' 65384 v1 n)
  fn6-Frame mem mem' v1 j n f h low here =
      let run = fn6_lem bytes bytes_lt initial initial-IsWords mem' v1 j n low here h.digest in
      record {
        digest = run.0;
        buffer = λ i l. run.1 (65472 + i) (omega arith) ∙ h.buffer i l;
        above = λ b l. run.1 b (omega (arith, l)) ∙ h.above b l;
      }

  -- The block in the buffer.
  pub flush-Frame :
      (mem mem' : Memory) (j : ℕ) (f : ℕ → ℕ)
      → Frame bytes mem j f mem'
      → ((i : ℕ) → i < 64 → f i ≡ bytes (64 * j + i))
      → Frame bytes mem (j + 1) f (flush mem' 65376)
  flush-Frame mem mem' j f h full =
      let low : (i : ℕ) → i < 64 → mem' (65472 + i) < 256 =
        λ i l. omega (arith, h.buffer i l, full i l, bytes_lt (64 * j + i)) in
      let moved = copied mem' 65408 65472 64 in
      let outside : (b : ℕ) → 65472 ≤ b → moved b ≡ mem' b = λ b l. ground arith in
      let frame : Frame bytes mem j f moved = record {
        digest = digest_same mem' moved (λ b l k. ground arith) ∙ h.digest;
        buffer = λ i l. outside (65472 + i) (omega arith) ∙ h.buffer i l;
        above = λ b l. outside b (omega (arith, l)) ∙ h.above b l;
      } in
      let here : (i : ℕ) → i < 64 * 1 → moved (65408 + i) ≡ bytes (64 * j + i) = λ i l.
        let inside : moved (65408 + i) ≡ mem' (65472 + i) = ground (arith, ap mem' (sub_add i)) in
        inside ∙ h.buffer i (omega (arith, l)) ∙ full i (omega (arith, l)) in
      subst (λ (t : Memory). Frame bytes mem (j + 1) f t) (sym (copy_buffer mem' low))
        (fn6-Frame mem moved 65408 j 1 f frame (omega arith) here)
    where
      sub_add : (i : ℕ) → 65472 + (65408 + i - 65408) ≡ 65472 + i
      sub_add i = omega arith
