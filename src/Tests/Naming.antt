-- ===== src/Tests/Naming.antt =====
-- Version 5 UUIDs: published hashes and an example of RFC 9562, and the theorems at concrete inputs.
use hyper_uuid.Prelude.{ℕ, ◌+◌, ◌*◌, ◌%◌, ◌<◌, ◌≡◌, refl, ap, arith, List, [], ◌∷◌, get_or}
use hyper_uuid.Word.{rotl32}
use hyper_uuid.Uuid.{Uuid, from_list}
use hyper_uuid.Sha.{
  ch, parity, maj, mix, constant, schedule, initial, round, rounds, compress, word_at, absorb,
  block_count, padded, sha1,
}
use hyper_uuid.Core.V5.Block.Words.{part_1}
use hyper_uuid.Core.V5.Absorbs.{block-compress}
use hyper_uuid.Core.V5.Frame.{initial-IsWords}
use hyper_uuid.Memory.{Memory}
use hyper_uuid.Core.V5.Block.{store_digest}
use hyper_uuid.Core.V5.Layout.{v5_layout}
use hyper_uuid.Api.Name.Answers.{message}

-- FIPS 180-4's example: the message "abc".
sha1_abc :
    sha1 (λ i. get_or (0x61 ∷ 0x62 ∷ 0x63 ∷ []) i 0) 3
    ≡ record { a = 0xa9993e36; b = 0x4706816a; c = 0xba3e2571; d = 0x7850c26c; e = 0x9cd0d89d }
unfolding ch parity maj mix constant schedule initial round rounds compress word_at absorb
    block_count padded sha1 rotl32
sha1_abc = refl

-- The namespace for DNS names and the name of RFC 9562, appendix A.4.
abbrev dns : Uuid
dns = from_list (
    0x6b ∷ 0xa7 ∷ 0xb8 ∷ 0x10 ∷ 0x9d ∷ 0xad ∷ 0x11 ∷ 0xd1 ∷ 0x80 ∷ 0xb4 ∷ 0x00 ∷ 0xc0 ∷ 0x4f ∷ 0xd4
    ∷ 0x30 ∷ 0xc8 ∷ [])

abbrev www_example_com : List ℕ
www_example_com =
    0x77 ∷ 0x77 ∷ 0x77 ∷ 0x2e ∷ 0x65 ∷ 0x78 ∷ 0x61 ∷ 0x6d ∷ 0x70 ∷ 0x6c ∷ 0x65 ∷ 0x2e ∷ 0x63 ∷ 0x6f
    ∷ 0x6d ∷ []

v5_of_rfc :
    v5_layout (sha1 (message dns www_example_com) 31)
    ≡ from_list (
        0x2e ∷ 0xd6 ∷ 0x65 ∷ 0x7d ∷ 0xe9 ∷ 0x27 ∷ 0x56 ∷ 0x8b ∷ 0x95 ∷ 0xe1 ∷ 0x26 ∷ 0x65 ∷ 0xa8
        ∷ 0xae ∷ 0xa6 ∷ 0xa2 ∷ [])
unfolding ch parity maj mix constant schedule initial round rounds compress word_at absorb
    block_count padded sha1 rotl32
v5_of_rfc = refl

abbrev counted : ℕ → ℕ
counted i = i % 256

counted_lt : (i : ℕ) → counted i < 256
counted_lt i = omega arith

counted_here : (i : ℕ) → i < 64 → counted (0 + i) ≡ counted (64 * 0 + i)
counted_here i h = ap counted (omega arith)

block-compress_example :
    part_1 counted 0 0x98badcfe 0xc3d2e1f0 0x10325476 0xefcdab89 0x67452301
    ≡ compress (word_at counted 0) initial
unfolding initial
block-compress_example =
    block-compress counted counted_lt counted 0 0 (omega arith) counted_here initial initial-IsWords

-- Two blocks at address 0, and the initial state in the frame.
abbrev two_blocks : Memory
two_blocks = store_digest counted 65384 initial
