-- ===== src/Bits.antt =====
-- Go's `&`, `|` and `^` on unsigned words as arithmetic: fields that do not overlap add up, a
-- mask keeps a field.
mod Digit
pub mod Algebra
use Digit.{bit_or_digit, bit_and_digit, bit_xor_digit}
use Prim.Native.Nat.{differ, bit_or-bitwise, bit_xor-bitwise}
use native.Mathlib.Nat.{pow-suc, one-le-pow, div-add-mod', div-div-eq-div-mul}
use hyper_uuid.Prelude.{ℕ, zero, suc, ◌+◌, ◌-◌, ◌*◌, ◌/◌, ◌%◌, ◌^◌, ◌≤◌, ◌<◌}
use hyper_uuid.Prelude.{bit_and, bit_or, bit_xor, ◌≡◌, refl, ap, ◌∙◌, arith}

bit_or-zero_upto : (n a : ℕ) → a ≤ n → bit_or a 0 ≡ a
bit_or-zero_upto n zero h = refl
bit_or-zero_upto zero (suc a) h = absurd (omega arith)
bit_or-zero_upto (suc n) (suc a) h =
    omega (arith, bit_or_digit (suc a) 0, bit_or-zero_upto n (suc a / 2) (omega arith))

bit_and-zero_upto : (n a : ℕ) → a ≤ n → bit_and a 0 ≡ 0
bit_and-zero_upto n zero h = refl
bit_and-zero_upto zero (suc a) h = absurd (omega arith)
bit_and-zero_upto (suc n) (suc a) h =
    omega (arith, bit_and_digit (suc a) 0, bit_and-zero_upto n (suc a / 2) (omega arith))

pub bit_or-zero : (a : ℕ) → bit_or a 0 ≡ a
bit_or-zero a = bit_or-zero_upto a a (omega arith)

pub zero-bit_or : (a : ℕ) → bit_or 0 a ≡ a
zero-bit_or a = bit_or-bitwise 0 a

pub bit_and-zero : (a : ℕ) → bit_and a 0 ≡ 0
bit_and-zero a = bit_and-zero_upto a a (omega arith)

twice_power : (q k : ℕ) → q * 2 ^ suc k ≡ 2 * (q * 2 ^ k)
twice_power q k = omega (arith, ap (λ (t : ℕ). q * t) (pow-suc 2 k))

high_or_low : (k q r : ℕ) → r < 2 ^ k → bit_or (q * 2 ^ k) r ≡ q * 2 ^ k + r
high_or_low zero q r h = ground (arith, bit_or-zero q)
high_or_low (suc k) q r h =
    ground (
      arith,
      bit_or_digit (q * 2 ^ suc k) r,
      twice_power q k,
      high_or_low k q (r / 2) (omega arith),
    )

low_or_high : (k q r : ℕ) → r < 2 ^ k → bit_or r (q * 2 ^ k) ≡ q * 2 ^ k + r
low_or_high zero q r h = ground (arith, zero-bit_or q)
low_or_high (suc k) q r h =
    ground (
      arith,
      bit_or_digit r (q * 2 ^ suc k),
      twice_power q k,
      low_or_high k q (r / 2) (omega arith),
    )

-- `x | y` is a sum when `x` has nothing below bit `k` and `y` nothing from it on.
pub or_add : (k x y : ℕ) → x % 2 ^ k ≡ 0 → y < 2 ^ k → bit_or x y ≡ x + y
or_add k x y clear low =
    let whole : x ≡ x / 2 ^ k * 2 ^ k = omega (arith, div-add-mod' x (2 ^ k)) in
    omega (arith, high_or_low k (x / 2 ^ k) y low, ap (λ (t : ℕ). bit_or t y) whole)

pub add_or : (k x y : ℕ) → y % 2 ^ k ≡ 0 → x < 2 ^ k → bit_or x y ≡ x + y
add_or k x y clear low =
    let whole : y ≡ y / 2 ^ k * 2 ^ k = omega (arith, div-add-mod' y (2 ^ k)) in
    omega (arith, low_or_high k (y / 2 ^ k) x low, ap (λ (t : ℕ). bit_or x t) whole)

low_field : (k q r : ℕ) → r < 2 ^ k → bit_and (q * 2 ^ k + r) (2 ^ k - 1) ≡ r
low_field zero q r h = rw bit_and-zero (omega arith)
low_field (suc k) q r h = ground (
  arith,
  bit_and_digit (q * 2 ^ suc k + r) (2 ^ suc k - 1),
  twice_power q k,
  pow-suc 2 k,
  one-le-pow k 2,
  low_field k q (r / 2) (omega arith),
)

-- A mask of the `k` low bits is the remainder by `2 ^ k`.
pub and_mask : (k a : ℕ) → bit_and a (2 ^ k - 1) ≡ a % 2 ^ k
and_mask k a = ground (arith, one-le-pow k 2, low_field k (a / 2 ^ k) (a % 2 ^ k))

and_double : (a b : ℕ) → bit_and a (2 * b) ≡ 2 * bit_and (a / 2) b
and_double a b =
    let half : 2 * b / 2 ≡ b = omega arith in
    omega (arith, bit_and_digit a (2 * b), ap (λ (t : ℕ). bit_and (a / 2) t) half)

shift_suc : (s a : ℕ) → a / 2 / 2 ^ s ≡ a / 2 ^ suc s
shift_suc s a = div-div-eq-div-mul a 2 (2 ^ s) ∙ ap (λ (t : ℕ). a / t) (omega (arith, pow-suc 2 s))

-- A mask of `k` bits from bit `s` on keeps that field where it stands.
pub and_field : (s k a : ℕ) → bit_and a ((2 ^ k - 1) * 2 ^ s) ≡ a / 2 ^ s % 2 ^ k * 2 ^ s
and_field zero k a = ground (arith, and_mask k a)
and_field (suc s) k a =
    rw (twice_power (2 ^ k - 1) s, and_double, and_field s k (a / 2), shift_suc)
      (omega (arith, twice_power (a / 2 ^ suc s % 2 ^ k) s))

-- A byte may be written where the number has eight clear bits.
pub or_byte : (k x y b : ℕ) → y ≡ b * 2 ^ k → x / 2 ^ k % 2 ^ 8 ≡ 0 → b < 2 ^ 8 → bit_or x y ≡ x + y
or_byte zero x y b at clear low = or_add 8 x y (omega arith) (omega arith)
or_byte (suc k) x y b at clear low =
    let here : y ≡ 2 * (b * 2 ^ k) = omega (arith, twice_power b k) in
    let rest : bit_or (x / 2) (y / 2) ≡ x / 2 + y / 2 =
      or_byte k (x / 2) (y / 2) b (omega arith) (rw shift_suc clear) low in
    omega (arith, bit_or_digit x y, rest)

pub bit_or-lt : (k x y : ℕ) → x < 2 ^ k → y < 2 ^ k → bit_or x y < 2 ^ k
bit_or-lt zero x y p q =
    let x0 : x ≡ 0 = omega arith in
    let y0 : y ≡ 0 = omega arith in
    omega (arith, ap (λ (t : ℕ). bit_or t y) x0, ap (λ (t : ℕ). bit_or 0 t) y0, bit_or-zero 0)
bit_or-lt (suc k) x y p q = omega (
  arith,
  bit_or_digit x y,
  pow-suc 2 k,
  bit_or-lt k (x / 2) (y / 2) (omega (arith, pow-suc 2 k)) (omega (arith, pow-suc 2 k)),
)

pub xor_zero : (x : ℕ) → bit_xor 0 x ≡ x
xor_zero x = omega (arith, bit_xor-bitwise 0 x)

-- Exclusive or with k ones is the complement to them.
differ_one : (x : ℕ) → x < 2 → differ x 1 ≡ 1 - x
differ_one zero h = refl
differ_one (suc zero) h = refl
differ_one (suc (suc x)) h = absurd (omega arith)

pub xor_ones : (k x : ℕ) → x < 2 ^ k → bit_xor x (2 ^ k - 1) ≡ 2 ^ k - 1 - x
xor_ones zero x h =
    let none_set : x ≡ 0 = omega arith in
    omega (arith, ap (λ (t : ℕ). bit_xor t 0) none_set, bit_xor-bitwise 0 0)
xor_ones (suc k) x h =
    let half : (2 ^ suc k - 1) / 2 ≡ 2 ^ k - 1 = omega (arith, pow-suc 2 k) in
    let odd : (2 ^ suc k - 1) % 2 ≡ 1 = omega (arith, pow-suc 2 k, one-le-pow k 2) in
    omega (
      arith,
      bit_xor_digit x (2 ^ suc k - 1),
      ap (λ (t : ℕ). bit_xor (x / 2) t) half,
      ap (λ (t : ℕ). differ (x % 2) t) odd,
      differ_one (x % 2) (omega arith),
      pow-suc 2 k,
      xor_ones k (x / 2) (omega (arith, pow-suc 2 k)),
    )

-- `&` acts on the bits from k on and below k apart.
pub and_split :
    (k q r c d : ℕ)
    → r < 2 ^ k
    → d < 2 ^ k
    → bit_and (q * 2 ^ k + r) (c * 2 ^ k + d) ≡ bit_and q c * 2 ^ k + bit_and r d
and_split zero q r c d h hd =
    let last_q : q * 1 + r ≡ q = omega arith in
    let last_c : c * 1 + d ≡ c = omega arith in
    let r0 : r ≡ 0 = omega arith in
    let d0 : d ≡ 0 = omega arith in
    omega (
      arith,
      ap (λ (t : ℕ). bit_and t (c * 1 + d)) last_q,
      ap (λ (t : ℕ). bit_and q t) last_c,
      ap (λ (t : ℕ). bit_and t d) r0,
      ap (λ (t : ℕ). bit_and 0 t) d0,
      bit_and-zero 0,
    )
and_split (suc k) q r c d h hd = ground (
  arith,
  bit_and_digit (q * 2 ^ suc k + r) (c * 2 ^ suc k + d),
  bit_and_digit r d,
  twice_power q k,
  twice_power c k,
  twice_power (bit_and q c) k,
  pow-suc 2 k,
  and_split k q (r / 2) c (d / 2) (omega (arith, pow-suc 2 k)) (omega (arith, pow-suc 2 k)),
)

-- `|` acts on the bits from k on and below k apart.
pub or_split :
    (k q r c d : ℕ)
    → r < 2 ^ k
    → d < 2 ^ k
    → bit_or (q * 2 ^ k + r) (c * 2 ^ k + d) ≡ bit_or q c * 2 ^ k + bit_or r d
or_split zero q r c d h hd =
    let last_q : q * 1 + r ≡ q = omega arith in
    let last_c : c * 1 + d ≡ c = omega arith in
    let r0 : r ≡ 0 = omega arith in
    let d0 : d ≡ 0 = omega arith in
    omega (
      arith,
      ap (λ (t : ℕ). bit_or t (c * 1 + d)) last_q,
      ap (λ (t : ℕ). bit_or q t) last_c,
      ap (λ (t : ℕ). bit_or t d) r0,
      ap (λ (t : ℕ). bit_or 0 t) d0,
      bit_or-zero 0,
    )
or_split (suc k) q r c d h hd = ground (
  arith,
  bit_or_digit (q * 2 ^ suc k + r) (c * 2 ^ suc k + d),
  bit_or_digit r d,
  twice_power q k,
  twice_power c k,
  twice_power (bit_or q c) k,
  pow-suc 2 k,
  or_split k q (r / 2) c (d / 2) (omega (arith, pow-suc 2 k)) (omega (arith, pow-suc 2 k)),
)
