-- ===== src/Core/V5/Rounds.antt =====
-- The words of the schedule and of the rounds, in the order in which core.go combines them.
use hyper_uuid.Prelude.{ℕ, suc, ◌≤◌, ◌<◌, ◌≡◌, arith, bit_and, bit_xor}
use hyper_uuid.Bits.Algebra.{bit_order}
use hyper_uuid.Word.{neg32, add32, rotl32}
use hyper_uuid.Sha.{Digest, schedule}
use hyper_uuid.Sha.Sequence.{word, turned}
use hyper_uuid.Sha.Forms.{IsWords, expand, chosen_step, second_step, majority_step, fourth_step}

module _ (m : ℕ → ℕ) where
  abbrev w : ℕ → ℕ
  w t = schedule m t

  pub schedule_sum :
      (t : ℕ)
      → rotl32
          (bit_xor
            (bit_xor
              (bit_xor (w (suc (suc t))) (w t))
              (w (suc (suc (suc (suc (suc (suc (suc (suc t))))))))))
            (w (suc (suc (suc (suc (suc (suc (suc (suc (suc (suc (suc (suc (suc t)))))))))))))))
          1
        ≡ w (
            suc (
              suc (
                suc
                  (suc (suc (suc (suc (suc (suc (suc (suc (suc (suc (suc (suc (suc t))))))))))))))))
  schedule_sum t = expand m t (simp bit_order)

module _ (m : ℕ → ℕ) (s : Digest) (h : IsWords s) where
  abbrev v : ℕ → ℕ
  v t = schedule m t

  abbrev x : ℕ → ℕ
  x t = word m s t

  abbrev r : ℕ → ℕ
  r t = turned m s t

  pub chosen_sum_1 :
      (t : ℕ)
      → t < 20
      → add32
          (add32
            (add32
              (add32 (r t) (
                bit_xor
                  (bit_and (bit_xor (r (suc (suc t))) (r (suc t))) (x (suc (suc (suc t)))))
                  (r (suc t))))
              (rotl32 (x (suc (suc (suc (suc t))))) 5))
            (v t))
          0x5a827999
        ≡ x (suc (suc (suc (suc (suc t)))))
  chosen_sum_1 t low =
      let mixed : bit_xor (bit_and (bit_xor (r (suc (suc t))) (r (suc t))) (x (suc (suc (suc t)))))
            (r (suc t))
          ≡ bit_xor (bit_and (x (suc (suc (suc t)))) (bit_xor (r (suc (suc t))) (r (suc t))))
              (r (suc t)) =
        simp bit_order in
      omega (arith, chosen_step m s h t low)

  pub chosen_sum_2 :
      (t : ℕ)
      → t < 20
      → add32
          (add32
            (add32
              (add32 (r t) (
                bit_xor
                  (bit_and (bit_xor (r (suc (suc t))) (r (suc t))) (x (suc (suc (suc t)))))
                  (r (suc t))))
              (v t))
            (rotl32 (x (suc (suc (suc (suc t))))) 5))
          0x5a827999
        ≡ x (suc (suc (suc (suc (suc t)))))
  chosen_sum_2 t low =
      let mixed : bit_xor (bit_and (bit_xor (r (suc (suc t))) (r (suc t))) (x (suc (suc (suc t)))))
            (r (suc t))
          ≡ bit_xor (bit_and (x (suc (suc (suc t)))) (bit_xor (r (suc (suc t))) (r (suc t))))
              (r (suc t)) =
        simp bit_order in
      omega (arith, chosen_step m s h t low)

  pub chosen_sum_3 :
      (t : ℕ)
      → t < 20
      → add32
          (add32
            (add32 (add32 (r t) (v t)) (
              bit_xor
                (bit_and (x (suc (suc (suc t)))) (bit_xor (r (suc (suc t))) (r (suc t))))
                (r (suc t))))
            (rotl32 (x (suc (suc (suc (suc t))))) 5))
          0x5a827999
        ≡ x (suc (suc (suc (suc (suc t)))))
  chosen_sum_3 t low = omega (arith, chosen_step m s h t low)

  pub chosen_sum_4 :
      (t : ℕ)
      → t < 20
      → add32
          (add32
            (add32 (add32 (r t) (v t)) (
              bit_xor
                (bit_and (bit_xor (r (suc (suc t))) (r (suc t))) (x (suc (suc (suc t)))))
                (r (suc t))))
            (rotl32 (x (suc (suc (suc (suc t))))) 5))
          0x5a827999
        ≡ x (suc (suc (suc (suc (suc t)))))
  chosen_sum_4 t low =
      let mixed : bit_xor (bit_and (bit_xor (r (suc (suc t))) (r (suc t))) (x (suc (suc (suc t)))))
            (r (suc t))
          ≡ bit_xor (bit_and (x (suc (suc (suc t)))) (bit_xor (r (suc (suc t))) (r (suc t))))
              (r (suc t)) =
        simp bit_order in
      omega (arith, chosen_step m s h t low)

  pub chosen_sum_5 :
      (t : ℕ)
      → t < 20
      → add32
          (add32
            (add32 (add32 (v t) (r t)) (
              bit_xor
                (bit_and (bit_xor (r (suc (suc t))) (r (suc t))) (x (suc (suc (suc t)))))
                (r (suc t))))
            (rotl32 (x (suc (suc (suc (suc t))))) 5))
          0x5a827999
        ≡ x (suc (suc (suc (suc (suc t)))))
  chosen_sum_5 t low =
      let mixed : bit_xor (bit_and (bit_xor (r (suc (suc t))) (r (suc t))) (x (suc (suc (suc t)))))
            (r (suc t))
          ≡ bit_xor (bit_and (x (suc (suc (suc t)))) (bit_xor (r (suc (suc t))) (r (suc t))))
              (r (suc t)) =
        simp bit_order in
      omega (arith, chosen_step m s h t low)

  pub chosen_sum_6 :
      (t : ℕ)
      → t < 20
      → add32
          (add32
            (add32 (add32 (v t) (r t)) (
              bit_xor
                (bit_and (x (suc (suc (suc t)))) (bit_xor (r (suc (suc t))) (r (suc t))))
                (r (suc t))))
            (rotl32 (x (suc (suc (suc (suc t))))) 5))
          0x5a827999
        ≡ x (suc (suc (suc (suc (suc t)))))
  chosen_sum_6 t low = omega (arith, chosen_step m s h t low)

  pub second_sum :
      (t : ℕ)
      → 20 ≤ t
      → t < 40
      → add32
          (add32
            (add32
              (add32 (v t) (r t))
              (bit_xor (bit_xor (r (suc (suc t))) (r (suc t))) (x (suc (suc (suc t))))))
            (rotl32 (x (suc (suc (suc (suc t))))) 5))
          1859775393
        ≡ x (suc (suc (suc (suc (suc t)))))
  second_sum t low high =
      let mixed : bit_xor (bit_xor (r (suc (suc t))) (r (suc t))) (x (suc (suc (suc t))))
          ≡ bit_xor (bit_xor (x (suc (suc (suc t)))) (r (suc (suc t)))) (r (suc t)) =
        simp bit_order in
      omega (arith, second_step m s h t low high)

  pub majority_sum_1 :
      (t : ℕ)
      → 40 ≤ t
      → t < 60
      → add32
          (add32
            (add32 (add32 (v t) (r t)) (
              bit_xor
                (bit_and (bit_xor (r (suc (suc t))) (r (suc t))) (x (suc (suc (suc t)))))
                (bit_and (r (suc (suc t))) (r (suc t)))))
            (rotl32 (x (suc (suc (suc (suc t))))) 5))
          (neg32 1894007588)
        ≡ x (suc (suc (suc (suc (suc t)))))
  majority_sum_1 t low high =
      let mixed : bit_xor (bit_and (bit_xor (r (suc (suc t))) (r (suc t))) (x (suc (suc (suc t)))))
            (bit_and (r (suc (suc t))) (r (suc t)))
          ≡ bit_xor (bit_and (x (suc (suc (suc t)))) (bit_xor (r (suc (suc t))) (r (suc t))))
              (bit_and (r (suc (suc t))) (r (suc t))) =
        simp bit_order in
      omega (arith, majority_step m s h t low high)

  pub majority_sum_2 :
      (t : ℕ)
      → 40 ≤ t
      → t < 60
      → add32
          (add32
            (add32 (add32 (v t) (r t)) (
              bit_xor
                (bit_and (x (suc (suc (suc t)))) (bit_xor (r (suc (suc t))) (r (suc t))))
                (bit_and (r (suc (suc t))) (r (suc t)))))
            (rotl32 (x (suc (suc (suc (suc t))))) 5))
          (neg32 1894007588)
        ≡ x (suc (suc (suc (suc (suc t)))))
  majority_sum_2 t low high = omega (arith, majority_step m s h t low high)

  pub fourth_sum :
      (t : ℕ)
      → 60 ≤ t
      → add32
          (add32
            (add32
              (add32 (v t) (r t))
              (bit_xor (bit_xor (r (suc (suc t))) (r (suc t))) (x (suc (suc (suc t))))))
            (rotl32 (x (suc (suc (suc (suc t))))) 5))
          (neg32 899497514)
        ≡ x (suc (suc (suc (suc (suc t)))))
  fourth_sum t low =
      let mixed : bit_xor (bit_xor (r (suc (suc t))) (r (suc t))) (x (suc (suc (suc t))))
          ≡ bit_xor (bit_xor (x (suc (suc (suc t)))) (r (suc (suc t)))) (r (suc t)) =
        simp bit_order in
      omega (arith, fourth_step m s h t low)
