-- ===== src/Uuid/Layout.antt =====
-- The version 7 that a position of the stream is stamped on (RFC 9562 §5.7 and §6.2, method 1): the
-- millisecond, the 20-bit step, six low counter bits and six random bytes.
use hyper_uuid.Prelude.{ℕ, ◌+◌, ◌*◌, ◌/◌, ◌%◌, ◌^◌, ◌≤◌, ◌<◌, ◌≡◌, arith}
use hyper_uuid.Uuid.{Uuid, IsBytes, value, unix_ts_ms}

abbrev pub v7_layout : ℕ → ℕ → ℕ → ℕ → ℕ → ℕ → ℕ → ℕ → Uuid
v7_layout position low r0 r1 r2 r3 r4 r5 =
    let ms = position / 2 ^ 20 in
    let step = position % 2 ^ 20 in
    record {
      b0 = ms / 2 ^ 40;
      b1 = ms / 2 ^ 32 % 256;
      b2 = ms / 2 ^ 24 % 256;
      b3 = ms / 2 ^ 16 % 256;
      b4 = ms / 2 ^ 8 % 256;
      b5 = ms % 256;
      b6 = 112 + step / 2 ^ 16;
      b7 = step / 2 ^ 8 % 256;
      b8 = 128 + step / 4 % 64;
      b9 = step % 4 * 64 + low % 64;
      b10 = r0;
      b11 = r1;
      b12 = r2;
      b13 = r3;
      b14 = r4;
      b15 = r5;
    }

-- The position that a version 7 shows: its timestamp and the upper 20 bits of its counter.
abbrev pub position : Uuid → ℕ
position u = unix_ts_ms u * 2 ^ 20 + (u.b6 % 16 * 2 ^ 16 + u.b7 * 2 ^ 8 + u.b8 % 64 * 4 + u.b9 / 64)

-- A version 7 UUID whose bytes are bytes.
pub record IsV7 (u : Uuid) : Type 0 where
  pub bytes : IsBytes u
  pub version : u.b6 / 16 ≡ 7
  pub variant_from : 128 ≤ u.b8
  pub variant_to : u.b8 < 192

module _ (p low r0 r1 r2 r3 r4 r5 : ℕ) (hp : p < 2 ^ 68) (h0 : r0 < 256) (h1 : r1 < 256)
    (h2 : r2 < 256) (h3 : r3 < 256) (h4 : r4 < 256) (h5 : r5 < 256) where
  pub v7_layout-IsV7 : IsV7 (v7_layout p low r0 r1 r2 r3 r4 r5)
  v7_layout-IsV7 = omega arith

  pub position-v7_layout : position (v7_layout p low r0 r1 r2 r3 r4 r5) ≡ p
  position-v7_layout = omega arith

  pub unix_ts_ms-v7_layout : unix_ts_ms (v7_layout p low r0 r1 r2 r3 r4 r5) ≡ p / 2 ^ 20
  unix_ts_ms-v7_layout = omega arith

-- Version 7 UUIDs sort by position.
pub value-lt_of_position :
    (u w : Uuid) → IsV7 u → IsV7 w → position u < position w → value u < value w
value-lt_of_position u w hu hw h = omega arith
