-- ===== src/Sha/Forms.antt =====
-- The rounds in the forms that compiled code computes them in: Ch and Maj with one `&` less, each
-- range of rounds with its own function and constant.
use hyper_uuid.Prelude.{ℕ, zero, suc, ◌+◌, ◌-◌, ◌*◌, ◌/◌, ◌^◌, ◌≤◌, ◌<◌, ◌≡◌, refl, sym, ◌∙◌, arith}
use hyper_uuid.Prelude.{bit_and, bit_xor}
use hyper_uuid.Word.{u32, add32, rotl32}
use hyper_uuid.Bits.{bit_or-lt}
use hyper_uuid.Bits.Algebra.{and_not, and_xor, xor_assoc}
use hyper_uuid.Sha.{ch, parity, maj, mix, constant, schedule, Digest, round, rounds, compress}
use hyper_uuid.Sha.Sequence.{word, turned, word_step, rounds_b, rounds_c, rounds_d, rounds_e}

pub ch_form : (x y z : ℕ) → x < 2 ^ 32 → z < 2 ^ 32 → ch x y z ≡ bit_xor (bit_and x (bit_xor y z)) z
unfolding ch
ch_form x y z h l =
    rw (and_not 32 x z h l, and_xor x y z) (sym (xor_assoc (bit_and x y) (bit_and x z) z))

pub maj_form : (x y z : ℕ) → maj x y z ≡ bit_xor (bit_and x (bit_xor y z)) (bit_and y z)
unfolding maj
maj_form x y z = rw (and_xor x y z) refl

pub rotl32-lt : (x k : ℕ) → x < 2 ^ 32 → rotl32 x k < 2 ^ 32
unfolding rotl32
rotl32-lt x k h = bit_or-lt 32 (u32 (x * 2 ^ k)) (x / 2 ^ (32 - k)) (omega arith) (omega arith)

-- The words of the schedule after the first sixteen, from the four words combined in any order.
pub expand :
    (m : ℕ → ℕ) (t : ℕ) {x : ℕ}
    → x
      ≡ bit_xor
          (bit_xor
            (bit_xor
              (schedule m
                (suc (suc (suc (suc (suc (suc (suc (suc (suc (suc (suc (suc (suc t))))))))))))))
              (schedule m (suc (suc (suc (suc (suc (suc (suc (suc t))))))))))
            (schedule m (suc (suc t))))
          (schedule m t)
    → rotl32 x 1
      ≡ schedule m (
          suc (
            suc (
              suc (suc (suc (suc (suc (suc (suc (suc (suc (suc (suc (suc (suc (suc t))))))))))))))))
unfolding schedule
expand m t e = rw e refl

pub compress_words :
    (m : ℕ → ℕ) (s : Digest)
    → compress m s ≡ record {
      a = add32 (word m s 84) (word m s 4);
      b = add32 (word m s 83) (word m s 3);
      c = add32 (turned m s 82) (turned m s 2);
      d = add32 (turned m s 81) (turned m s 1);
      e = add32 (turned m s 80) (turned m s 0);
    }
unfolding compress word rounds
compress_words m s = rw (rounds_b m s 80, rounds_c m s 80, rounds_d m s 80, rounds_e m s 80) refl

pub record IsWords (s : Digest) : Type 0 where
  pub a_lt : s.a < 2 ^ 32
  pub b_lt : s.b < 2 ^ 32
  pub c_lt : s.c < 2 ^ 32
  pub d_lt : s.d < 2 ^ 32
  pub e_lt : s.e < 2 ^ 32

module _ (m : ℕ → ℕ) (s : Digest) (h : IsWords s) where
  pub word_lt : (t : ℕ) → word m s (suc (suc (suc t))) < 2 ^ 32
  unfolding word rounds round
  word_lt zero = h.b_lt
  word_lt (suc zero) = h.a_lt
  word_lt (suc (suc t)) = omega arith

  pub turned_lt : (t : ℕ) → turned m s t < 2 ^ 32
  turned_lt zero = h.e_lt
  turned_lt (suc zero) = h.d_lt
  turned_lt (suc (suc zero)) = h.c_lt
  turned_lt (suc (suc (suc t))) = rotl32-lt (word m s (suc (suc (suc t)))) 30 (word_lt t)

  pub chosen_step :
      (t : ℕ)
      → t < 20
      → word m s (suc (suc (suc (suc (suc t)))))
        ≡ u32 (
            rotl32 (word m s (suc (suc (suc (suc t))))) 5
            + bit_xor
                (bit_and
                  (word m s (suc (suc (suc t))))
                  (bit_xor (turned m s (suc (suc t))) (turned m s (suc t))))
                (turned m s (suc t))
            + turned m s t
            + 0x5a827999
            + schedule m t)
  unfolding mix constant
  chosen_step t low =
      word_step m s t
      ∙ ground (
        arith,
        ch_form (word m s (suc (suc (suc t)))) (turned m s (suc (suc t))) (turned m s (suc t))
            (word_lt t) (turned_lt (suc t)),
      )

  pub second_step :
      (t : ℕ)
      → 20 ≤ t
      → t < 40
      → word m s (suc (suc (suc (suc (suc t)))))
        ≡ u32 (
            rotl32 (word m s (suc (suc (suc (suc t))))) 5
            + bit_xor
                (bit_xor (word m s (suc (suc (suc t)))) (turned m s (suc (suc t))))
                (turned m s (suc t))
            + turned m s t
            + 0x6ed9eba1
            + schedule m t)
  unfolding mix constant parity
  second_step t low high = word_step m s t ∙ ground arith

  pub majority_step :
      (t : ℕ)
      → 40 ≤ t
      → t < 60
      → word m s (suc (suc (suc (suc (suc t)))))
        ≡ u32 (
            rotl32 (word m s (suc (suc (suc (suc t))))) 5
            + bit_xor
                (bit_and
                  (word m s (suc (suc (suc t))))
                  (bit_xor (turned m s (suc (suc t))) (turned m s (suc t))))
                (bit_and (turned m s (suc (suc t))) (turned m s (suc t)))
            + turned m s t
            + 0x8f1bbcdc
            + schedule m t)
  unfolding mix constant
  majority_step t low high =
      word_step m s t
      ∙ ground (
        arith,
        maj_form (word m s (suc (suc (suc t)))) (turned m s (suc (suc t))) (turned m s (suc t)),
      )

  pub fourth_step :
      (t : ℕ)
      → 60 ≤ t
      → word m s (suc (suc (suc (suc (suc t)))))
        ≡ u32 (
            rotl32 (word m s (suc (suc (suc (suc t))))) 5
            + bit_xor
                (bit_xor (word m s (suc (suc (suc t)))) (turned m s (suc (suc t))))
                (turned m s (suc t))
            + turned m s t
            + 0xca62c1d6
            + schedule m t)
  unfolding mix constant parity
  fourth_step t low = word_step m s t ∙ ground arith
