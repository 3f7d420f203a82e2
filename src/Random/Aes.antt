-- ===== src/Random/Aes.antt =====
-- The AES-256-CTR stream of go/random_aes.go. `read` is `io.ReadFull` on the operating system's
-- reader and `clock` is `time.Now` in nanoseconds, over a state of the world; `ctr` is what
-- `aes.NewCipher` and `cipher.NewCTR` make of a 32-byte key with the counter at zero: the
-- keystream, or an error. `none` is a panic.
use hyper_uuid.Prelude.{
  ℕ, zero, suc, ◌+◌, ◌-◌, ◌^◌, ◌==◌, ◌&&◌, ltb, leb, if◌then◌else◌, min, bit_xor, Bool, true, false,
  not, Option, none, some,
}
use hyper_uuid.Core.Module.{Draw}
use hyper_uuid.Random.{Reading, wasi_eio}

abbrev pub key_budget : ℕ
key_budget = 2 ^ 20

abbrev pub key_lifetime : ℕ
key_lifetime = 10 ^ 9

abbrev pub buf_size : ℕ
buf_size = 512

-- A `cipher.Stream`: the keystream of its key and how much of it is used.
pub record CtrStream : Type 0 where
  pub keystream : ℕ → ℕ
  pub position : ℕ

pub record AesSource (W : Type 0) : Type 0 where
  pub world : W
  pub key : ℕ → ℕ
  pub stream : Option CtrStream
  pub keyed_at : ℕ
  pub generated : ℕ
  pub buf : ℕ → ℕ
  pub off : ℕ

unfoldable pub new_aes_source : {W : Type 0} → W → AesSource W
new_aes_source world = record {
  world = world;
  key = λ i. 0;
  stream = none;
  keyed_at = 0;
  generated = 0;
  buf = λ i. 0;
  off = buf_size;
}

-- The `n` bytes from `from` on XORed with the keystream from `position` on.
abbrev pub xor_range : (ℕ → ℕ) → ℕ → ℕ → (ℕ → ℕ) → ℕ → ℕ → ℕ
xor_range dst from n keystream position i =
    if leb from i && ltb i (from + n)
    then bit_xor (dst i) (keystream (position + (i - from)))
    else dst i

-- `copy(dst, src)` of so many bytes
abbrev pub copy_range : (ℕ → ℕ) → ℕ → (ℕ → ℕ) → ℕ → ℕ
copy_range dst n src i = if ltb i n then src i else dst i

-- The bytes and the code after `generate`, and the source.
pub record Generated (W : Type 0) : Type 0 where
  pub code : ℕ
  pub dst : ℕ → ℕ
  pub source : AesSource W

module _ {W : Type 0} (read : ℕ → W → Reading W) (clock : W → ℕ × W)
    (ctr : (ℕ → ℕ) → Option (ℕ → ℕ)) where
  -- `rekey` from `aes.NewCipher` on.
  unfoldable pub rekey_cipher : AesSource W → Option (ℕ → ℕ) → AesSource W × Bool
  rekey_cipher s none = (s, false)
  rekey_cipher s (some keystream) =
      let (t, world) = clock s.world in
      (
        record s {
          stream = some (record { keystream = keystream; position = 0 });
          keyed_at = t;
          world = world;
        },
        true,
      )

  unfoldable pub rekey : AesSource W → AesSource W × Bool
  rekey s =
      let s = record s { stream = none; off = buf_size; generated = 0 } in
      let r = read 32 s.world in
      let s = record s { key = copy_range s.key r.copied r.bytes; world = r.next } in
      if not r.full then (s, false) else rekey_cipher s (ctr s.key)

  -- `s.stream.XORKeyStream(dst[:n], dst[:n])` and what follows it in the round.
  unfoldable pub xor_key_stream :
      AesSource W → (ℕ → ℕ) → ℕ → ℕ → Option CtrStream → Option (ℕ × Generated W)
  xor_key_stream s dst from n none = none
  xor_key_stream s dst from n (some c) = some (
    n,
    record {
      code = 0;
      dst = xor_range dst from n c.keystream c.position;
      source = record s {
        stream = some (record c { position = c.position + n });
        generated = s.generated + n;
      };
    },
  )

  -- One round of the loop of `generate`, for `left` bytes of `dst` from `from` on, with the number of
  -- bytes that it takes.
  unfoldable pub generate_round : AesSource W → (ℕ → ℕ) → ℕ → ℕ → Option (ℕ × Generated W)
  generate_round s dst from left =
      let (s, keyed) = if leb key_budget s.generated then rekey s else (s, true) in
      if not keyed
      then some (0, record { code = wasi_eio; dst = dst; source = s })
      else xor_key_stream s dst from (min left (key_budget - s.generated)) s.stream

  -- The loop, with fuel; a round takes the bytes that the budget leaves, one at least.
  unfoldable pub generate : ℕ → AesSource W → (ℕ → ℕ) → ℕ → ℕ → Option (Generated W)
  generate zero s dst from left = none
  generate (suc rounds) s dst from left = elim (left == 0) [
    | true ↦ some (record { code = 0; dst = dst; source = s })
    | false ↦ elim (generate_round s dst from left) [
      | none ↦ none
      | some (n, g) ↦ elim (g.code == 0) [
        | false ↦ some g
        | true ↦ generate rounds g.source g.dst (from + n) (left - n)
      ]
    ]
  ]

  -- `s.stream == nil || s.now().Sub(s.keyedAt) >= keyLifetime`
  unfoldable pub needs_key : AesSource W → Option CtrStream → AesSource W × Bool
  needs_key s none = (s, true)
  needs_key s (some c) =
      let (t, world) = clock s.world in
      (record s { world = world }, leb (s.keyed_at + key_lifetime) t)

  -- A direct generation into the destination, behind the c bytes served from the buffer.
  unfoldable pub fill_direct : ℕ → ℕ → (ℕ → ℕ) → Option (Generated W) → Option (Draw (AesSource W))
  fill_direct n c served none = none
  fill_direct n c served (some g) = some (record {
    errno = g.code;
    written = n;
    bytes = λ i. if ltb i c then served i else g.dst (i - c);
    next = g.source;
  })

  -- A refill of the buffer.
  unfoldable pub fill_refilled :
      ℕ → ℕ → (ℕ → ℕ) → Option (Generated W) → Option (Draw (AesSource W))
  fill_refilled n c served none = none
  fill_refilled n c served (some g) =
      if not (g.code == 0)
      then some (record {
        errno = g.code;
        written = c;
        bytes = served;
        next = record g.source { buf = g.dst; off = buf_size };
      })
      else some (record {
        errno = 0;
        written = n;
        bytes = λ i. if ltb i c then served i else g.dst (i - c);
        next = record g.source { buf = g.dst; off = n - c };
      })

  -- `fill` once there is a key: an `off` past the buffer would be a slice out of range. A round of
  -- `generate` takes a byte at least, so one round more than there are bytes is enough.
  unfoldable pub fill_keyed : ℕ → AesSource W → Option (Draw (AesSource W))
  fill_keyed n s =
      if ltb buf_size s.off
      then none
      else (let c = min n (buf_size - s.off) in
          let served : ℕ → ℕ = λ i. s.buf (s.off + i) in
          let s = record s { off = s.off + c } in
          let left = n - c in
          if leb buf_size left
          then fill_direct n c served (generate (left + 1) s (λ i. 0) 0 left)
          else if ltb 0 left
          then fill_refilled n c served (generate (buf_size + 1) s (λ i. 0) 0 buf_size)
          else some (record { errno = 0; written = n; bytes = served; next = s }))

  unfoldable pub fill : ℕ → AesSource W → Option (Draw (AesSource W))
  fill n s =
      if n == 0
      then some (record { errno = 0; written = 0; bytes = λ i. 0; next = s })
      else (let (s, old) = needs_key s s.stream in
          let (s, keyed) = if old then rekey s else (s, true) in
          if not keyed
          then some (record { errno = wasi_eio; written = 0; bytes = λ i. 0; next = s })
          else fill_keyed n s)
