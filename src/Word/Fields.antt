-- ===== src/Word/Fields.antt =====
-- Six bytes joined by shifts and `|`, in the four orders in which go/internal/core/core.go joins
-- them, are the 48-bit number that they spell.
use hyper_uuid.Prelude.{ℕ, ◌+◌, ◌*◌, ◌^◌, ◌<◌, ◌≡◌, arith}
use hyper_uuid.Bits.{or_byte}
use hyper_uuid.Word.{◌or◌, shl64}

-- Six bytes as a number, the first the highest.
abbrev pub six_bytes : ℕ → ℕ → ℕ → ℕ → ℕ → ℕ → ℕ
six_bytes a b c d e f = a * 2 ^ 40 + b * 2 ^ 32 + c * 2 ^ 24 + d * 2 ^ 16 + e * 2 ^ 8 + f

module _ (a b c d e f : ℕ) (ha : a < 256) (hb : b < 256) (hc : c < 256) (hd : d < 256)
    (he : e < 256) (hf : f < 256) where
  -- as `Xuuid_v7_unix_millis` joins them
  pub join_high :
      (shl64 b 32 or shl64 a 40 or shl64 c 24 or shl64 d 16 or shl64 e 8 or f)
      ≡ six_bytes a b c d e f
  join_high =
      let A = shl64 a 40 in
      let B = shl64 b 32 in
      let C = shl64 c 24 in
      let D = shl64 d 16 in
      let E = shl64 e 8 in
      rw
        (
          or_byte 40 B A a (omega arith) (omega arith) ha,
          or_byte 24 (B + A) C c (omega arith) (omega arith) hc,
          or_byte 16 (B + A + C) D d (omega arith) (omega arith) hd,
          or_byte 8 (B + A + C + D) E e (omega arith) (omega arith) he,
          or_byte 0 (B + A + C + D + E) f f (omega arith) (omega arith) hf,
        )
        (omega arith)

  -- as `Xuuid_v7_unix_millis_in` joins them
  pub join_in :
      (shl64 e 8 or f or shl64 d 16 or shl64 c 24 or shl64 b 32 or shl64 a 40)
      ≡ six_bytes a b c d e f
  join_in =
      let A = shl64 a 40 in
      let B = shl64 b 32 in
      let C = shl64 c 24 in
      let D = shl64 d 16 in
      let E = shl64 e 8 in
      rw
        (
          or_byte 0 E f f (omega arith) (omega arith) hf,
          or_byte 16 (E + f) D d (omega arith) (omega arith) hd,
          or_byte 24 (E + f + D) C c (omega arith) (omega arith) hc,
          or_byte 32 (E + f + D + C) B b (omega arith) (omega arith) hb,
          or_byte 40 (E + f + D + C + B) A a (omega arith) (omega arith) ha,
        )
        (omega arith)

  -- the first five, as `Xuuid_get_timestamp` joins them
  pub join_five :
      (shl64 d 16 or shl64 e 8 or shl64 c 24 or shl64 b 32 or shl64 a 40) ≡ six_bytes a b c d e 0
  join_five =
      let A = shl64 a 40 in
      let B = shl64 b 32 in
      let C = shl64 c 24 in
      let D = shl64 d 16 in
      let E = shl64 e 8 in
      rw
        (
          or_byte 8 D E e (omega arith) (omega arith) he,
          or_byte 24 (D + E) C c (omega arith) (omega arith) hc,
          or_byte 32 (D + E + C) B b (omega arith) (omega arith) hb,
          or_byte 40 (D + E + C + B) A a (omega arith) (omega arith) ha,
        )
        (omega arith)

  -- the last five, as `Xuuid_v7_to_sql_order` joins them
  pub join_low : (f or shl64 e 8 or shl64 d 16 or shl64 c 24 or shl64 b 32) ≡ six_bytes 0 b c d e f
  join_low =
      let B = shl64 b 32 in
      let C = shl64 c 24 in
      let D = shl64 d 16 in
      let E = shl64 e 8 in
      rw
        (
          or_byte 8 f E e (omega arith) (omega arith) he,
          or_byte 16 (f + E) D d (omega arith) (omega arith) hd,
          or_byte 24 (f + E + D) C c (omega arith) (omega arith) hc,
          or_byte 32 (f + E + D + C) B b (omega arith) (omega arith) hb,
        )
        (omega arith)
