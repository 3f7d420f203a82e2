-- ===== src/Sha/Sequence.antt =====
-- The working variables of all rounds as one sequence of words: what enters round t as a is the
-- word t + 4, and what leaves it as a the word t + 5.
use hyper_uuid.Prelude.{ℕ, zero, suc, ◌+◌, ◌≡◌, refl}
use hyper_uuid.Word.{u32, rotl32}
use hyper_uuid.Sha.{mix, constant, schedule, Digest, round, rounds}

module _ (m : ℕ → ℕ) (s : Digest) where
  unfoldable pub word : ℕ → ℕ
  word (suc (suc (suc (suc t)))) = (rounds (schedule m) t s).a
  word (suc (suc (suc zero))) = s.b
  word t = 0

  -- The word t after its rotation by 30; the first three enter the rounds rotated.
  abbrev pub turned : ℕ → ℕ
  turned (suc (suc (suc t))) = rotl32 (word (suc (suc (suc t)))) 30
  turned (suc (suc zero)) = s.c
  turned (suc zero) = s.d
  turned zero = s.e

  pub rounds_b : (t : ℕ) → (rounds (schedule m) t s).b ≡ word (suc (suc (suc t)))
  unfolding word rounds round
  rounds_b zero = refl
  rounds_b (suc t) = refl

  pub rounds_c : (t : ℕ) → (rounds (schedule m) t s).c ≡ turned (suc (suc t))
  unfolding word rounds round
  rounds_c zero = refl
  rounds_c (suc t) = rw (rounds_b t) refl

  pub rounds_d : (t : ℕ) → (rounds (schedule m) t s).d ≡ turned (suc t)
  unfolding word rounds round
  rounds_d zero = refl
  rounds_d (suc t) = rounds_c t

  pub rounds_e : (t : ℕ) → (rounds (schedule m) t s).e ≡ turned t
  unfolding word rounds round
  rounds_e zero = refl
  rounds_e (suc t) = rounds_d t

  pub word_step :
      (t : ℕ)
      → word (suc (suc (suc (suc (suc t)))))
        ≡ u32 (
            rotl32 (word (suc (suc (suc (suc t))))) 5
            + mix t (word (suc (suc (suc t)))) (turned (suc (suc t))) (turned (suc t))
            + turned t
            + constant t
            + schedule m t)
  unfolding word rounds round
  word_step t = rw (rounds_b t, rounds_c t, rounds_d t, rounds_e t) refl
