-- ===== src/Memory/Ranges.antt =====
-- Stores of 64 bits as writes of eight bytes.
use mathlib.Core.Path.{fun_ext}
use hyper_uuid.Prelude.{
  ℕ, zero, suc, inl, inr, ◌⊎◌, Bool-cases, leb→le, not-leb→lt, ◌+◌, ◌-◌, ◌*◌, ◌/◌, ◌%◌, ◌^◌, ◌<◌,
  ◌≤◌, ◌≡◌, ap, ◌∙◌, arith, leb,
}
use hyper_uuid.Memory.{Memory, load32, load64, store64, write_range}

pub le_or_gt : (a b : ℕ) → (a ≤ b) ⊎ (b < a)
le_or_gt a b = elim (Bool-cases (leb a b)) [
  | inl e ↦ inl (leb→le a b e)
  | inr n ↦ inr (not-leb→lt a b n)
]

zero64_at : (mem : Memory) (a b : ℕ) → store64 mem a 0 b ≡ write_range mem a 8 (λ i. 0) b
zero64_at mem a b = ground arith

pub zero64 : (mem : Memory) (a : ℕ) → store64 mem a 0 ≡ write_range mem a 8 (λ i. 0)
zero64 mem a = fun_ext (zero64_at mem a)

module _ (src : Memory) (s : ℕ) (low : (i : ℕ) → i < 8 → src (s + i) < 256) where
  read_value :
      load64 src s
      ≡ src s
        + src (s + 1) * 2 ^ 8
        + src (s + 2) * 2 ^ 16
        + src (s + 3) * 2 ^ 24
        + src (s + 4) * 2 ^ 32
        + src (s + 5) * 2 ^ 40
        + src (s + 6) * 2 ^ 48
        + src (s + 7) * 2 ^ 56
  read_value =
      let e3 : src (s + 2 + 1) ≡ src (s + 3) = ap src (omega arith) in
      let e5 : src (s + 4 + 1) ≡ src (s + 5) = ap src (omega arith) in
      let e6 : src (s + 4 + 2) ≡ src (s + 6) = ap src (omega arith) in
      let e7 : src (s + 4 + 2 + 1) ≡ src (s + 7) = ap src (omega arith) in omega arith

  first : src s < 256
  first = let e : src (s + 0) ≡ src s = ap src (omega arith) in omega (arith, low 0 (omega arith))

  -- The bytes of a word that was read are those that stood there.
  read_byte : (k : ℕ) → k < 8 → load64 src s / 2 ^ (8 * k) % 2 ^ 8 ≡ src (s + k)
  read_byte zero h =
      let e : src (s + 0) ≡ src s = ap src (omega arith) in
      omega (arith, read_value, first, low 1, low 2, low 3, low 4, low 5, low 6, low 7)
  read_byte (suc zero) h =
      omega (arith, read_value, first, low 1, low 2, low 3, low 4, low 5, low 6, low 7)
  read_byte (suc (suc zero)) h =
      omega (arith, read_value, first, low 1, low 2, low 3, low 4, low 5, low 6, low 7)
  read_byte (suc (suc (suc zero))) h =
      omega (arith, read_value, first, low 1, low 2, low 3, low 4, low 5, low 6, low 7)
  read_byte (suc (suc (suc (suc zero)))) h =
      omega (arith, read_value, first, low 1, low 2, low 3, low 4, low 5, low 6, low 7)
  read_byte (suc (suc (suc (suc (suc zero))))) h =
      omega (arith, read_value, first, low 1, low 2, low 3, low 4, low 5, low 6, low 7)
  read_byte (suc (suc (suc (suc (suc (suc zero)))))) h =
      omega (arith, read_value, first, low 1, low 2, low 3, low 4, low 5, low 6, low 7)
  read_byte (suc (suc (suc (suc (suc (suc (suc zero))))))) h =
      omega (arith, read_value, first, low 1, low 2, low 3, low 4, low 5, low 6, low 7)
  read_byte (suc (suc (suc (suc (suc (suc (suc (suc k)))))))) h = absurd (omega arith)

store64_inside :
    (mem : Memory) (a v k : ℕ) → k < 8 → store64 mem a v (a + k) ≡ v / 2 ^ (8 * k) % 2 ^ 8
store64_inside mem a v zero h = ground arith
store64_inside mem a v (suc zero) h = ground arith
store64_inside mem a v (suc (suc zero)) h = ground arith
store64_inside mem a v (suc (suc (suc zero))) h = ground arith
store64_inside mem a v (suc (suc (suc (suc zero)))) h = ground arith
store64_inside mem a v (suc (suc (suc (suc (suc zero))))) h = ground arith
store64_inside mem a v (suc (suc (suc (suc (suc (suc zero)))))) h = ground arith
store64_inside mem a v (suc (suc (suc (suc (suc (suc (suc zero))))))) h = ground arith
store64_inside mem a v (suc (suc (suc (suc (suc (suc (suc (suc k)))))))) h = absurd (omega arith)

pub store64_range :
    (mem : Memory) (a v : ℕ) → store64 mem a v ≡ write_range mem a 8 (λ i. v / 2 ^ (8 * i) % 2 ^ 8)
store64_range mem a v = fun_ext at
  where
    at : (b : ℕ) → store64 mem a v b ≡ write_range mem a 8 (λ i. v / 2 ^ (8 * i) % 2 ^ 8) b
    at b = elim (le_or_gt a b) [
      | inr below ↦ ground arith
      | inl from ↦ elim (le_or_gt (a + 8) b) [
        | inl above ↦ ground arith
        | inr inside ↦
            let e : b ≡ a + (b - a) = omega (arith, from) in
            ap (store64 mem a v) e ∙ store64_inside mem a v (b - a) (omega arith) ∙ ground arith
      ]
    ]

-- Eight bytes from one place to another.
pub copy64 :
    (mem src : Memory) (a s : ℕ)
    → ((i : ℕ) → i < 8 → src (s + i) < 256)
    → (b : ℕ) → store64 mem a (load64 src s) b ≡ write_range mem a 8 (λ i. src (s + i)) b
copy64 mem src a s low b =
    ap (λ (t : Memory). t b) (store64_range mem a (load64 src s)) ∙ elim (le_or_gt a b) [
      | inr below ↦ ground arith
      | inl from ↦ elim (le_or_gt (a + 8) b) [
        | inl above ↦ ground arith
        | inr inside ↦ ground (arith, read_byte src s low (b - a) (omega arith))
      ]
    ]

-- Runs of such stores, downwards and upwards.
abbrev pub zeros : Memory → ℕ → ℕ → Memory
zeros mem a n = write_range mem a n (λ i. 0)

abbrev pub copied : Memory → ℕ → ℕ → ℕ → Memory
copied mem a s n = write_range mem a n (λ i. mem (s + i))

module _ (mem : Memory) {mem' : Memory} where
  pub zero_down : (a n : ℕ) → mem' ≡ zeros mem (a + 8) n → store64 mem' a 0 ≡ zeros mem a (n + 8)
  zero_down a n e = zero64 mem' a ∙ fun_ext λ b. ap (λ (t : Memory). zeros t a 8 b) e ∙ ground arith

  pub zero_up : (a n : ℕ) → mem' ≡ zeros mem a n → store64 mem' (a + n) 0 ≡ zeros mem a (n + 8)
  zero_up a n e =
      zero64 mem' (a + n) ∙ fun_ext λ b. ap (λ (t : Memory). zeros t (a + n) 8 b) e ∙ ground arith

  -- The word at s, which stands above what has been written.
  pub copy_down :
      (a s n : ℕ)
      → a + 8 + n ≤ s
      → ((i : ℕ) → i < 8 → mem (s + i) < 256)
      → mem' ≡ copied mem (a + 8) (s + 8) n
      → store64 mem' a (load64 mem' s) ≡ copied mem a s (n + 8)
  copy_down a s n apart low e =
      let same : (i : ℕ) → mem' (s + i) ≡ mem (s + i) =
        λ i. ap (λ (t : Memory). t (s + i)) e ∙ ground arith in
      let bounded : (i : ℕ) → i < 8 → mem' (s + i) < 256 = λ i h. omega (arith, same i, low i h) in
      fun_ext λ b. copy64 mem' mem' a s bounded b ∙ elim (le_or_gt a b) [
        | inr below ↦ ap (λ (t : Memory). copied t a s 8 b) e ∙ ground arith
        | inl from ↦ elim (le_or_gt (a + 8) b) [
          | inl above ↦
              let there : s + (b - a) ≡ s + 8 + (b - (a + 8)) = omega (arith, from, above) in
              ap (λ (t : Memory). copied t a s 8 b) e ∙ ground (arith, ap mem there)
          | inr inside ↦ ground (arith, same (b - a))
        ]
      ]

-- A word reads the same where its bytes are the same.
pub load32_same :
    (mem mem' : Memory) (a : ℕ)
    → ((b : ℕ) → a ≤ b → b < a + 4 → mem' b ≡ mem b)
    → load32 mem' a ≡ load32 mem a
load32_same mem mem' a e =
    let e0 = e a (omega arith) (omega arith) in
    let e1 = e (a + 1) (omega arith) (omega arith) in
    let e2 = e (a + 2) (omega arith) (omega arith) in
    let e3 = e (a + 2 + 1) (omega arith) (omega arith) in omega (arith, e0, e1, e2, e3)

pub load64_same :
    (mem mem' : Memory) (a : ℕ)
    → ((b : ℕ) → a ≤ b → b < a + 8 → mem' b ≡ mem b)
    → load64 mem' a ≡ load64 mem a
load64_same mem mem' a e =
    let high : load32 mem' (a + 4) ≡ load32 mem (a + 4) =
      load32_same mem mem' (a + 4) (λ b l u. e b (omega (arith, l)) (omega (arith, u))) in
    omega (arith, load32_same mem mem' a (λ b l u. e b l (omega (arith, u))), high)
