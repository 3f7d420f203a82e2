-- ===== src/Bits/Algebra.antt =====
-- The laws of `^` and `&` on numbers, by induction on their binary digits.
use Prim.Native.Nat.{differ}
use native.Mathlib.Nat.{pow-suc}
use hyper_uuid.Prelude.{
  ℕ, zero, suc, ◌+◌, ◌-◌, ◌*◌, ◌/◌, ◌%◌, ◌^◌, ◌≤◌, ◌<◌, bit_and, bit_xor, ◌≡◌, refl, ap, sym, ◌∙◌,
  arith,
}
use hyper_uuid.Bits.Digit.{bit_and_digit, bit_xor_digit}

differ_mod : (a b : ℕ) → a < 2 → b < 2 → differ a b ≡ (a + b) % 2
differ_mod zero zero h k = refl
differ_mod zero (suc zero) h k = refl
differ_mod (suc zero) zero h k = refl
differ_mod (suc zero) (suc zero) h k = refl
differ_mod zero (suc (suc b)) h k = absurd (omega arith)
differ_mod (suc zero) (suc (suc b)) h k = absurd (omega arith)
differ_mod (suc (suc a)) b h k = absurd (omega arith)

-- A number is its half and its lowest digit.
pub xor_step : (x y : ℕ) → bit_xor x y ≡ bit_xor (x / 2) (y / 2) * 2 + (x % 2 + y % 2) % 2
xor_step x y =
    omega (arith, bit_xor_digit x y, differ_mod (x % 2) (y % 2) (omega arith) (omega arith))

xor_half : (x y : ℕ) → bit_xor x y / 2 ≡ bit_xor (x / 2) (y / 2)
xor_half x y = omega (arith, xor_step x y)

and_half : (x y : ℕ) → bit_and x y / 2 ≡ bit_and (x / 2) (y / 2)
and_half x y = omega (arith, bit_and_digit x y)

xor_comm_to : (n x y : ℕ) → x + y ≤ n → bit_xor x y ≡ bit_xor y x
xor_comm_to zero x y h =
    let x0 : x ≡ 0 = omega arith in let y0 : y ≡ 0 = omega arith in rw (x0, y0) refl
xor_comm_to (suc n) x y h =
    omega (arith, xor_step x y, xor_step y x, xor_comm_to n (x / 2) (y / 2) (omega arith))

pub xor_comm : (x y : ℕ) → bit_xor x y ≡ bit_xor y x
xor_comm x y = xor_comm_to (x + y) x y (omega arith)

and_comm_to : (n x y : ℕ) → x + y ≤ n → bit_and x y ≡ bit_and y x
and_comm_to zero x y h =
    let x0 : x ≡ 0 = omega arith in let y0 : y ≡ 0 = omega arith in rw (x0, y0) refl
and_comm_to (suc n) x y h =
    omega (arith, bit_and_digit x y, bit_and_digit y x, and_comm_to n (x / 2) (y / 2) (omega arith))

pub and_comm : (x y : ℕ) → bit_and x y ≡ bit_and y x
and_comm x y = and_comm_to (x + y) x y (omega arith)

xor_assoc_to : (n x y z : ℕ) → x + y + z ≤ n → bit_xor (bit_xor x y) z ≡ bit_xor x (bit_xor y z)
xor_assoc_to zero x y z h =
    let x0 : x ≡ 0 = omega arith in
    let y0 : y ≡ 0 = omega arith in let z0 : z ≡ 0 = omega arith in rw (x0, y0, z0) refl
xor_assoc_to (suc n) x y z h = omega (
  arith,
  xor_step (bit_xor x y) z,
  xor_step x (bit_xor y z),
  xor_step x y,
  xor_step y z,
  ap (λ (t : ℕ). bit_xor t (z / 2)) (xor_half x y),
  ap (bit_xor (x / 2)) (xor_half y z),
  xor_assoc_to n (x / 2) (y / 2) (z / 2) (omega arith),
)

pub xor_assoc : (x y z : ℕ) → bit_xor (bit_xor x y) z ≡ bit_xor x (bit_xor y z)
xor_assoc x y z = xor_assoc_to (x + y + z) x y z (omega arith)

pub xor_left_comm : (x y z : ℕ) → bit_xor x (bit_xor y z) ≡ bit_xor y (bit_xor x z)
xor_left_comm x y z =
    sym (xor_assoc x y z) ∙ ap (λ (t : ℕ). bit_xor t z) (xor_comm x y) ∙ xor_assoc y x z

and_xor_to :
    (n x y z : ℕ) → x + y + z ≤ n → bit_and x (bit_xor y z) ≡ bit_xor (bit_and x y) (bit_and x z)
and_xor_to zero x y z h =
    let x0 : x ≡ 0 = omega arith in
    let y0 : y ≡ 0 = omega arith in let z0 : z ≡ 0 = omega arith in rw (x0, y0, z0) refl
and_xor_to (suc n) x y z h = omega (
  arith,
  bit_and_digit x (bit_xor y z),
  xor_step (bit_and x y) (bit_and x z),
  xor_step y z,
  bit_and_digit x y,
  bit_and_digit x z,
  ap (bit_and (x / 2)) (xor_half y z),
  ap (λ (t : ℕ). bit_xor t (bit_and x z / 2)) (and_half x y),
  ap (bit_xor (bit_and (x / 2) (y / 2))) (and_half x z),
  and_xor_to n (x / 2) (y / 2) (z / 2) (omega arith),
)

pub and_xor : (x y z : ℕ) → bit_and x (bit_xor y z) ≡ bit_xor (bit_and x y) (bit_and x z)
and_xor x y z = and_xor_to (x + y + z) x y z (omega arith)

twice : (q k : ℕ) → q * 2 ^ suc k ≡ 2 * (q * 2 ^ k)
twice q k = omega (arith, ap (λ (t : ℕ). q * t) (pow-suc 2 k))

-- The complement to k ones under a mask of k digits.
pub and_not :
    (k x z : ℕ) → x < 2 ^ k → z < 2 ^ k → bit_and (2 ^ k - 1 - x) z ≡ bit_xor (bit_and x z) z
and_not zero x z h l =
    let x0 : x ≡ 0 = omega arith in let z0 : z ≡ 0 = omega arith in rw (x0, z0) refl
and_not (suc k) x z h l =
    let half : (2 ^ suc k - 1 - x) / 2 ≡ 2 ^ k - 1 - x / 2 = omega (arith, pow-suc 2 k) in
    omega (
      arith,
      bit_and_digit (2 ^ suc k - 1 - x) z,
      bit_and_digit x z,
      xor_step (bit_and x z) z,
      ap (λ (t : ℕ). bit_and t (z / 2)) half,
      ap (λ (t : ℕ). bit_xor t (z / 2)) (and_half x z),
      pow-suc 2 k,
      and_not k (x / 2) (z / 2) (omega (arith, pow-suc 2 k)) (omega (arith, pow-suc 2 k)),
    )

pub bit_xor-lt : (k x y : ℕ) → x < 2 ^ k → y < 2 ^ k → bit_xor x y < 2 ^ k
bit_xor-lt zero x y h l =
    let x0 : x ≡ 0 = omega arith in let y0 : y ≡ 0 = omega arith in rw (x0, y0) (omega arith)
bit_xor-lt (suc k) x y h l = omega (
  arith,
  xor_step x y,
  pow-suc 2 k,
  bit_xor-lt k (x / 2) (y / 2) (omega (arith, pow-suc 2 k)) (omega (arith, pow-suc 2 k)),
)

-- `^` acts on the bits from k on and below k apart.
pub xor_split :
    (k q r c d : ℕ)
    → r < 2 ^ k
    → d < 2 ^ k
    → bit_xor (q * 2 ^ k + r) (c * 2 ^ k + d) ≡ bit_xor q c * 2 ^ k + bit_xor r d
xor_split zero q r c d h l =
    let last_q : q * 1 + r ≡ q = omega arith in
    let last_c : c * 1 + d ≡ c = omega arith in
    let r0 : r ≡ 0 = omega arith in
    let d0 : d ≡ 0 = omega arith in rw (last_q, last_c, r0, d0) (omega arith)
xor_split (suc k) q r c d h l =
    let half_q : (q * 2 ^ suc k + r) / 2 ≡ q * 2 ^ k + r / 2 = omega (arith, twice q k) in
    let half_c : (c * 2 ^ suc k + d) / 2 ≡ c * 2 ^ k + d / 2 = omega (arith, twice c k) in
    omega (
      arith,
      xor_step (q * 2 ^ suc k + r) (c * 2 ^ suc k + d),
      xor_step r d,
      twice q k,
      twice c k,
      twice (bit_xor q c) k,
      pow-suc 2 k,
      ap (λ (t : ℕ). bit_xor t ((c * 2 ^ suc k + d) / 2)) half_q,
      ap (bit_xor (q * 2 ^ k + r / 2)) half_c,
      xor_split k q (r / 2) c (d / 2) (omega (arith, pow-suc 2 k)) (omega (arith, pow-suc 2 k)),
    )

pub xor_self : (x : ℕ) → bit_xor x x ≡ 0
xor_self x = xor_self_to x x (omega arith)
  where
    xor_self_to : (n x : ℕ) → x ≤ n → bit_xor x x ≡ 0
    xor_self_to zero x h = let x0 : x ≡ 0 = omega arith in rw x0 refl
    xor_self_to (suc n) x h = omega (arith, xor_step x x, xor_self_to n (x / 2) (omega arith))

-- Orders a combination of words.
pub ruleset bit_order = (xor_assoc, xor_comm, xor_left_comm, and_comm)
