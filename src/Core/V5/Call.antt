-- ===== src/Core/V5/Call.antt =====
-- The whole call `Xuuid_new_v5`, with the namespace, the result and the name in the scratch.
use hyper_uuid.Prelude.{
  ℕ, ◌+◌, ◌%◌, ◌^◌, ◌<◌, ◌≤◌, ◌≡◌, refl, ◌∙◌, arith, ◌==◌, if◌then◌else◌, ne→not-==, false,
}
use hyper_uuid.Memory.{Memory}
use hyper_uuid.Memory.Ranges.{load32_same, load64_same}
use hyper_uuid.Uuid.{read_uuid}
use hyper_uuid.Stream.{Stream}
use hyper_uuid.Sha.{Digest, padded, block_count, initial, sha1}
use hyper_uuid.Sha.Forms.{IsWords}
use hyper_uuid.Sha.Padding.{padded_lt}
use hyper_uuid.Core.Module.{Module}
use hyper_uuid.Core.V5.{open_frame, take_name, close_message, close_block, put_v5, uuid_new_v5}
use hyper_uuid.Core.V5.Absorbs.{absorb-IsWords}
use hyper_uuid.Core.V5.Frame.{initial-IsWords}
use hyper_uuid.Core.V5.Message.{take_name-Frame, pending_lem}
use hyper_uuid.Core.V5.Closing.{Hashed, close-Hashed}
use hyper_uuid.Core.V5.Layout.{v5_layout, put_v5-layout, put_v5-outside}
use hyper_uuid.Core.V7.Call.{same_module}
use hyper_uuid.Core.V7.Contract.{Holds}

pub sha1-IsWords : (msg : ℕ → ℕ) → ((i : ℕ) → msg i < 256) → (n : ℕ) → IsWords (sha1 msg n)
unfolding sha1
sha1-IsWords msg msg_lt n =
    absorb-IsWords (padded msg n) (padded_lt msg n msg_lt) (block_count n) initial initial-IsWords

-- What a call returns: the version 5 UUID of a hash, and a module with the same stream.
pub record Hashes {S : Type 0} (digest : Digest) (s : Stream) (r : Module S × ℕ) : Type 0 where
  pub code : r.1 ≡ 0
  pub uuid : read_uuid r.0.memory 131088 ≡ v5_layout digest
  pub holds : Holds r.0 s

module _ {S : Type 0} (m : Module S) (s : Stream) (h : Holds m s) (msg : ℕ → ℕ)
    (msg_lt : (i : ℕ) → msg i < 256) (n : ℕ) (short : n < 2 ^ 31)
    (namespace_at : (i : ℕ) → i < 16 → m.memory (131072 + i) ≡ msg i)
    (name_at : (i : ℕ) → i < n → m.memory (131104 + i) ≡ msg (16 + i)) where
  abbrev name_pointer : ℕ
  name_pointer = if n == 0 then 1 else 131104

  -- The memory with the hash in the frame.
  abbrev hashed : Memory
  hashed =
      let mem = open_frame m.memory 65376 131072 in
      close_block (close_message (take_name mem 65376 name_pointer n) 65376 ((n + 16) % 64)) 65376 n

  hashed-Hashed : Hashed msg msg_lt n short m.memory hashed
  hashed-Hashed =
      let placed : 0 < n → name_pointer ≡ 131104 = λ l.
        (let nonzero : (n == 0) ≡ false = ne→not-== n 0 (λ e. omega (arith, l)) in
          rw nonzero refl) in
      close-Hashed msg msg_lt n short m.memory
        (take_name (open_frame m.memory 65376 131072) 65376 name_pointer n)
        (take_name-Frame msg msg_lt n short m.memory
          (record { ab = h.hash_ab; cd = h.hash_cd; e = h.hash_e }) namespace_at name_at
          name_pointer placed)

  returns :
      uuid_new_v5 (record m { g0 = 65536 }) 131072 131104 n 131088
      ≡ (record m { memory = put_v5 hashed 65376 131088; g0 = 65536 }, 0)
  unfolding uuid_new_v5
  returns = rw (pending_lem n short) refl

  kept : (b : ℕ) → 65536 ≤ b → b < 131088 → put_v5 hashed 65376 131088 b ≡ m.memory b
  kept b l u = put_v5-outside hashed b u ∙ hashed-Hashed.above b l

  -- The call hashes the namespace and the name, and leaves the module as it needs it.
  pub uuid_new_v5-Hashes : Hashes (sha1 msg (n + 16)) s (uuid_new_v5 m 131072 131104 n 131088)
  uuid_new_v5-Hashes =
      let mem = put_v5 hashed 65376 131088 in
      rw (same_module m h.stack, returns)
        (record {
          code = refl;
          uuid =
              put_v5-layout hashed (sha1 msg (n + 16)) (sha1-IsWords msg msg_lt (n + 16))
                hashed-Hashed.digest;
          holds = record {
            stack = refl;
            word =
                load64_same m.memory mem 65560
                  (λ b l u. kept b (omega (arith, l)) (omega (arith, u)))
                ∙ h.word;
            valid = h.valid;
            t0 = kept 65556 (omega arith) (omega arith) ∙ h.t0;
            t1 = kept 65557 (omega arith) (omega arith) ∙ h.t1;
            t2 = kept 65558 (omega arith) (omega arith) ∙ h.t2;
            hash_ab =
                load64_same m.memory mem 65536
                  (λ b l u. kept b (omega (arith, l)) (omega (arith, u)))
                ∙ h.hash_ab;
            hash_cd =
                load64_same m.memory mem 65544
                  (λ b l u. kept b (omega (arith, l)) (omega (arith, u)))
                ∙ h.hash_cd;
            hash_e =
                load32_same m.memory mem 65552
                  (λ b l u. kept b (omega (arith, l)) (omega (arith, u)))
                ∙ h.hash_e;
          };
        })

  pub uuid_new_v5-size : (uuid_new_v5 m 131072 131104 n 131088).0.size ≡ m.size
  unfolding uuid_new_v5
  uuid_new_v5-size = refl

  pub uuid_new_v5-src : (uuid_new_v5 m 131072 131104 n 131088).0.src ≡ m.src
  unfolding uuid_new_v5
  uuid_new_v5-src = refl
