-- ===== src/Sha.antt =====
-- SHA-1 as FIPS 180-4 describes it: the functions and constants of section 4, the message schedule
-- and the rounds of section 6.1, and the padding of section 5. It stands apart from the code of
-- go/internal/core/core.go, which unrolls the rounds.
pub mod Sequence
pub mod Forms
pub mod Padding
use hyper_uuid.Prelude.{ℕ, zero, suc, ◌+◌, ◌-◌, ◌*◌, ◌/◌, ◌%◌, ◌^◌, ltb, ◌==◌, if◌then◌else◌}
use hyper_uuid.Word.{◌and◌, ◌xor◌, u32, byte, add32, rotl32}

-- Ch, Parity and Maj.
unfoldable pub ch : ℕ → ℕ → ℕ → ℕ
ch x y z = x and y xor (2 ^ 32 - 1 - x) and z

unfoldable pub parity : ℕ → ℕ → ℕ → ℕ
parity x y z = x xor y xor z

unfoldable pub maj : ℕ → ℕ → ℕ → ℕ
maj x y z = x and y xor x and z xor y and z

-- The function and the constant of round t.
unfoldable pub mix : ℕ → ℕ → ℕ → ℕ → ℕ
mix t x y z =
    if ltb t 20
    then ch x y z
    else if ltb t 40
    then parity x y z
    else if ltb t 60
    then maj x y z
    else parity x y z

unfoldable pub constant : ℕ → ℕ
constant t =
    if ltb t 20
    then 0x5a827999
    else if ltb t 40
    then 0x6ed9eba1
    else if ltb t 60
    then 0x8f1bbcdc
    else 0xca62c1d6

-- The message schedule: the sixteen words of the block, then one word from four earlier ones.
unfoldable pub schedule : (ℕ → ℕ) → ℕ → ℕ
schedule m
      (suc (
        suc
          (suc (suc (suc (suc (suc (suc (suc (suc (suc (suc (suc (suc (suc (suc t)))))))))))))))) =
    rotl32
      (schedule m (suc (suc (suc (suc (suc (suc (suc (suc (suc (suc (suc (suc (suc t)))))))))))))
        xor schedule m (suc (suc (suc (suc (suc (suc (suc (suc t))))))))
        xor schedule m (suc (suc t))
        xor schedule m t)
      1
schedule m t = m t

-- The five words of a hash value, and the working variables of the rounds.
pub record Digest : Type 0 where
  pub a : ℕ
  pub b : ℕ
  pub c : ℕ
  pub d : ℕ
  pub e : ℕ

unfoldable pub initial : Digest
initial = record { a = 0x67452301; b = 0xefcdab89; c = 0x98badcfe; d = 0x10325476; e = 0xc3d2e1f0 }

unfoldable pub round : (ℕ → ℕ) → ℕ → Digest → Digest
round w t s = record {
  a = u32 (rotl32 s.a 5 + mix t s.b s.c s.d + s.e + constant t + w t);
  b = s.a;
  c = rotl32 s.b 30;
  d = s.c;
  e = s.d;
}

unfoldable pub rounds : (ℕ → ℕ) → ℕ → Digest → Digest
rounds w zero s = s
rounds w (suc t) s = round w t (rounds w t s)

-- One block: the eighty rounds, added to the value before them.
unfoldable pub compress : (ℕ → ℕ) → Digest → Digest
compress m s =
    let r = rounds (schedule m) 80 s in
    record {
      a = add32 r.a s.a;
      b = add32 r.b s.b;
      c = add32 r.c s.c;
      d = add32 r.d s.d;
      e = add32 r.e s.e;
    }

-- Word t of block j of a byte string: big-endian.
unfoldable pub word_at : (ℕ → ℕ) → ℕ → ℕ → ℕ
word_at bytes j t =
    let i = 64 * j + 4 * t in
    bytes i * 2 ^ 24 + bytes (i + 1) * 2 ^ 16 + bytes (i + 2) * 2 ^ 8 + bytes (i + 3)

-- The value after the first n blocks of a byte string.
unfoldable pub absorb : (ℕ → ℕ) → ℕ → Digest → Digest
absorb bytes zero s = s
absorb bytes (suc n) s = compress (word_at bytes n) (absorb bytes n s)

-- The padding of a message of n bytes: 0x80, zeros, and the count of bits in the last eight bytes.
unfoldable pub block_count : ℕ → ℕ
block_count n = (n + 8) / 64 + 1

unfoldable pub padded : (ℕ → ℕ) → ℕ → ℕ → ℕ
padded bytes n i =
    let total = 64 * block_count n in
    if ltb i n
    then bytes i
    else if i == n
    then 0x80
    else if ltb i (total - 8)
    then 0
    else byte (8 * n / 2 ^ (8 * (total - 1 - i)))

unfoldable pub sha1 : (ℕ → ℕ) → ℕ → Digest
sha1 bytes n = absorb (padded bytes n) (block_count n) initial
