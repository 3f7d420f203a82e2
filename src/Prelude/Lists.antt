-- ===== src/Prelude/Lists.antt =====
-- Lists measured and indexed by native numbers, under the library's names.
use Prim.Native.Nat.{ℕ, zero, suc, ◌+◌, ◌<◌}
use mathlib.Core.Path.{◌≡◌, refl}
use mathlib.Core.List.{List, [], ◌∷◌, ◌++◌}
use native.Mathlib.Omega.{arith}

module _ {ℓ} {A : Type ℓ} where
  abbrev pub length : List A → ℕ
  length [] = 0
  length (x ∷ xs) = suc (length xs)

  abbrev pub get_or : List A → ℕ → A → A
  get_or [] i d = d
  get_or (x ∷ xs) zero d = x
  get_or (x ∷ xs) (suc i) d = get_or xs i d

  pub length-append : (xs ys : List A) → length (xs ++ ys) ≡ length xs + length ys
  length-append [] ys = omega arith
  length-append (x ∷ xs) ys = omega (arith, length-append xs ys)

  -- f 0, f 1 and so on, n of them.
  abbrev pub tabulate : (ℕ → A) → ℕ → List A
  tabulate f zero = []
  tabulate f (suc n) = f 0 ∷ tabulate (λ i. f (suc i)) n

  pub tabulate-eq :
      (f g : ℕ → A) (n : ℕ) → ((i : ℕ) → i < n → f i ≡ g i) → tabulate f n ≡ tabulate g n
  tabulate-eq f g zero h = refl
  tabulate-eq f g (suc n) h =
      rw
        (
          h 0 (omega arith),
          tabulate-eq (λ i. f (suc i)) (λ i. g (suc i)) n (λ i hi. h (suc i) (omega arith)),
        )
        refl

  pub length-tabulate : (f : ℕ → A) (n : ℕ) → length (tabulate f n) ≡ n
  length-tabulate f zero = refl
  length-tabulate f (suc n) = omega (arith, length-tabulate (λ i. f (suc i)) n)

  pub tabulate-at :
      (f g : ℕ → A) (n : ℕ) → tabulate f n ≡ tabulate g n → (i : ℕ) → i < n → f i ≡ g i
  tabulate-at f g zero e i h = absurd (omega arith)
  tabulate-at f g (suc n) e zero h = cc
  tabulate-at f g (suc n) e (suc i) h =
      tabulate-at (λ j. f (suc j)) (λ j. g (suc j)) n (cc) i (omega arith)
