-- ===== src/Api/Name/Answers.antt =====
-- What `NewV5` answers: the version 5 UUID of the SHA-1 of the namespace and the name, or that the name is
-- too long.
use mathlib.Core.Path.{subst}
use hyper_uuid.Prelude.{
  ℕ, zero, suc, ◌+◌, ◌-◌, ◌^◌, ◌<◌, ◌≤◌, ◌≡◌, refl, sym, ap, ◌∙◌, arith, inl, inr, ltb, leb,
  if◌then◌else◌, List, [], ◌∷◌, ◌++◌, length, get_or, Result, ok, err, name_too_long, none, some,
  true, false, Bool-cases, not-ltb→le,
}
use hyper_uuid.Word.{u32}
use hyper_uuid.Memory.{Memory, write_range}
use hyper_uuid.Memory.Ranges.{le_or_gt}
use hyper_uuid.Uuid.{Uuid, IsBytes, IsRfcUuid, write_uuid, to_list}
use hyper_uuid.Stream.{Stream, fresh}
use hyper_uuid.Sha.{Digest, sha1}
use hyper_uuid.Core.V5.{uuid_new_v5}
use hyper_uuid.Core.V5.Call.{Hashes, uuid_new_v5-Hashes, uuid_new_v5-size}
use hyper_uuid.Core.V5.Layout.{v5_layout}
use hyper_uuid.Core.V7.Contract.{Holds}
use hyper_uuid.Instance.{Instance}
use hyper_uuid.Instance.Ready.{IsReady}
use hyper_uuid.Instance.Scratch.{pages_for, scratch_pages_for-some}
use hyper_uuid.Api.Inspect.Answers.{Gives}
use hyper_uuid.Api.Name.{max_v5_name, check_v5_name, v5, v5_result, make_v5, new_v5}
use hyper_uuid.Api.Name.OneOff.{sized_for, new_instance_with-sized_for, sized_for-IsReady}

-- The bytes that are hashed: the namespace's, then the name's.
abbrev pub message : Uuid → List ℕ → ℕ → ℕ
message ns name i = get_or (to_list ns ++ name) i 0

-- RFC 9562 §5.5 on FIPS 180-4, with the limit on the name.
abbrev pub v5_answer : Uuid → List ℕ → Result Uuid
v5_answer ns name =
    if ltb max_v5_name (length name)
    then err name_too_long
    else ok (v5_layout (sha1 (message ns name) (length name + 16)))

v5_layout-IsRfcUuid : (s : Digest) → IsRfcUuid 5 (v5_layout s)
v5_layout-IsRfcUuid s = omega arith

get_or-append : (xs ys : List ℕ) (i : ℕ) → get_or (xs ++ ys) (length xs + i) 0 ≡ get_or ys i 0
get_or-append [] ys i = ap (λ (t : ℕ). get_or ys t 0) (omega arith)
get_or-append (x ∷ xs) ys i =
    let next : suc (length xs) + i ≡ suc (length xs + i) = omega arith in
    ap (λ (t : ℕ). get_or (x ∷ (xs ++ ys)) t 0) next ∙ get_or-append xs ys i

module _ (ns : Uuid) (bytes : IsBytes ns) (name : List ℕ)
    (name_lt : (i : ℕ) → get_or name i 0 < 256) where
  message_past : (i : ℕ) → message ns name (16 + i) ≡ get_or name i 0
  message_past i = get_or-append (to_list ns) name i

  namespace_lt : (i : ℕ) → i < 16 → message ns name i < 256
  namespace_lt zero h = bytes.b0
  namespace_lt (suc zero) h = bytes.b1
  namespace_lt (suc (suc zero)) h = bytes.b2
  namespace_lt (suc (suc (suc zero))) h = bytes.b3
  namespace_lt (suc (suc (suc (suc zero)))) h = bytes.b4
  namespace_lt (suc (suc (suc (suc (suc zero))))) h = bytes.b5
  namespace_lt (suc (suc (suc (suc (suc (suc zero)))))) h = bytes.b6
  namespace_lt (suc (suc (suc (suc (suc (suc (suc zero))))))) h = bytes.b7
  namespace_lt (suc (suc (suc (suc (suc (suc (suc (suc zero)))))))) h = bytes.b8
  namespace_lt (suc (suc (suc (suc (suc (suc (suc (suc (suc zero))))))))) h = bytes.b9
  namespace_lt (suc (suc (suc (suc (suc (suc (suc (suc (suc (suc zero)))))))))) h = bytes.b10
  namespace_lt (suc (suc (suc (suc (suc (suc (suc (suc (suc (suc (suc zero))))))))))) h = bytes.b11
  namespace_lt (suc (suc (suc (suc (suc (suc (suc (suc (suc (suc (suc (suc zero)))))))))))) h =
      bytes.b12
  namespace_lt (suc (suc (suc (suc (suc (suc (suc (suc (suc (suc (suc (suc (suc zero)))))))))))))
        h =
      bytes.b13
  namespace_lt
        (suc (suc (suc (suc (suc (suc (suc (suc (suc (suc (suc (suc (suc (suc zero)))))))))))))) h =
      bytes.b14
  namespace_lt
        (suc
          (suc (suc (suc (suc (suc (suc (suc (suc (suc (suc (suc (suc (suc (suc zero)))))))))))))))
        h =
      bytes.b15
  namespace_lt
        (suc (
          suc
            (suc (suc (suc (suc (suc (suc (suc (suc (suc (suc (suc (suc (suc (suc i))))))))))))))))
        h =
      absurd (omega arith)

  message_lt : (i : ℕ) → message ns name i < 256
  message_lt i = elim (le_or_gt 16 i) [
    | inr within ↦ namespace_lt i within
    | inl past ↦
        let e : 16 + (i - 16) ≡ i = omega (arith, past) in
        subst (λ (t : ℕ). message ns name t < 256) e
          (omega (arith, message_past (i - 16), name_lt (i - 16)))
  ]

  module _ {S : Type 0} (self : Instance S) (s : Stream) (ready : IsReady self s)
      (short : length name < 2 ^ 31) where
    abbrev loaded : Memory
    loaded =
        write_range (write_uuid self.m.memory 131072 ns) 131104 (length name) (λ i. get_or name i 0)

    namespace_loaded : (i : ℕ) → i < 16 → loaded (131072 + i) ≡ message ns name i
    namespace_loaded zero h = refl
    namespace_loaded (suc zero) h = refl
    namespace_loaded (suc (suc zero)) h = refl
    namespace_loaded (suc (suc (suc zero))) h = refl
    namespace_loaded (suc (suc (suc (suc zero)))) h = refl
    namespace_loaded (suc (suc (suc (suc (suc zero))))) h = refl
    namespace_loaded (suc (suc (suc (suc (suc (suc zero)))))) h = refl
    namespace_loaded (suc (suc (suc (suc (suc (suc (suc zero))))))) h = refl
    namespace_loaded (suc (suc (suc (suc (suc (suc (suc (suc zero)))))))) h = refl
    namespace_loaded (suc (suc (suc (suc (suc (suc (suc (suc (suc zero))))))))) h = refl
    namespace_loaded (suc (suc (suc (suc (suc (suc (suc (suc (suc (suc zero)))))))))) h = refl
    namespace_loaded (suc (suc (suc (suc (suc (suc (suc (suc (suc (suc (suc zero))))))))))) h = refl
    namespace_loaded (suc (suc (suc (suc (suc (suc (suc (suc (suc (suc (suc (suc zero))))))))))))
          h =
        refl
    namespace_loaded
          (suc (suc (suc (suc (suc (suc (suc (suc (suc (suc (suc (suc (suc zero))))))))))))) h =
        refl
    namespace_loaded
          (suc (suc (suc (suc (suc (suc (suc (suc (suc (suc (suc (suc (suc (suc zero))))))))))))))
          h =
        refl
    namespace_loaded
          (suc (
            suc (suc (suc (suc (suc (suc (suc (suc (suc (suc (suc (suc (suc (suc zero)))))))))))))))
          h =
        refl
    namespace_loaded
          (suc (
            suc (
              suc (suc (suc (suc (suc (suc (suc (suc (suc (suc (suc (suc (suc (suc i))))))))))))))))
          h =
        absurd (omega arith)

    name_loaded : (i : ℕ) → i < length name → loaded (131104 + i) ≡ message ns name (16 + i)
    name_loaded i h =
        let at : 131104 + i - 131104 ≡ i = omega arith in
        let read : loaded (131104 + i) ≡ get_or name (131104 + i - 131104) 0 = ground arith in
        read ∙ ap (λ (t : ℕ). get_or name t 0) at ∙ sym (message_past i)

    loaded_Holds : Holds (record self.m { memory = loaded }) s
    loaded_Holds = record {
      stack = ready.holds.stack;
      word = ready.holds.word;
      valid = ready.holds.valid;
      t0 = ready.holds.t0;
      t1 = ready.holds.t1;
      t2 = ready.holds.t2;
      hash_ab = ready.holds.hash_ab;
      hash_cd = ready.holds.hash_cd;
      hash_e = ready.holds.hash_e;
    }

    abbrev pub hash : Digest
    hash = sha1 (message ns name) (length name + 16)

    core :
        Hashes hash s
          (uuid_new_v5 (record self.m { memory = loaded }) 131072 131104 (length name) 131088)
    core =
        uuid_new_v5-Hashes (record self.m { memory = loaded }) s loaded_Holds (message ns name)
          message_lt (length name) short namespace_loaded name_loaded

    pub v5-Gives : Gives s (v5_result (v5 self ns name)) (ok (v5_layout hash))
    unfolding v5 v5_result
    v5-Gives =
        let small : u32 (length name) ≡ length name = omega (arith, short) in
        rw (ready.placed, small)
          (rw core.code (
            ap ok core.uuid,
            record {
              holds = core.holds;
              placed = refl;
              paged = ready.paged;
              sized =
                  uuid_new_v5-size (record self.m { memory = loaded }) s loaded_Holds
                    (message ns name) message_lt (length name) short namespace_loaded name_loaded
                  ∙ ready.sized;
            },
          ))

  module _ {S : Type 0} (self : Instance S) (s : Stream) (ready : IsReady self s) (os : S) where
    -- A name that one page holds, and a longer one.
    make_v5-Gives :
        length name ≤ max_v5_name
        → Gives s
            (make_v5 self os ns name)
            (ok (v5_layout (sha1 (message ns name) (length name + 16))))
    unfolding make_v5
    make_v5-Gives fits =
        let short : length name < 2 ^ 31 = omega (arith, fits) in
        elim (Bool-cases (leb (length name + 32) 65536)) [
          | inl e ↦ rw e (v5-Gives self s ready short)
          | inr n ↦
              let positive : 0 < pages_for (length name + 32) = omega arith in
              let own = sized_for os (pages_for (length name + 32)) positive in
              let served =
                v5-Gives own fresh (sized_for-IsReady os (pages_for (length name + 32)) positive)
                  short in
              rw (n, scratch_pages_for-some (length name + 32) (omega (arith, short)), make_v5)
                (rw
                  (
                    new_instance_with-sized_for os (pages_for (length name + 32)) positive
                        (omega (arith, short)),
                    make_v5,
                  )
                  (served.0, ready))
        ]

    check_long :
        ltb max_v5_name (length name) ≡ true → check_v5_name (length name) ≡ some name_too_long
    unfolding check_v5_name
    check_long e = rw e refl

    check_short : ltb max_v5_name (length name) ≡ false → check_v5_name (length name) ≡ none
    unfolding check_v5_name
    check_short e = rw e refl

    pub new_v5-Gives :
        Gives s (new_v5 self os ns name) (v5_answer ns name)
        × IsRfcUuid 5 (v5_layout (sha1 (message ns name) (length name + 16)))
    unfolding new_v5
    new_v5-Gives = (
      elim (Bool-cases (ltb max_v5_name (length name))) [
        | inl e ↦ rw (check_long e, new_v5) (rw e (refl, ready))
        | inr n ↦
            rw (check_short n, new_v5)
              (rw n (make_v5-Gives (not-ltb→le max_v5_name (length name) n)))
      ],
      v5_layout-IsRfcUuid (sha1 (message ns name) (length name + 16)),
    )
