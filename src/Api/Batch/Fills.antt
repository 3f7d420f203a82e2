-- ===== src/Api/Batch/Fills.antt =====
-- `FillV7At`, `FillV7BytesAt` and `NewV7BatchAt` of go/uuidgen.go, on every branch.
use mathlib.Core.Path.{subst}
use hyper_uuid.Prelude.{
  ℕ, ◌^◌, ◌≤◌, ◌≡◌, ◌≢◌, refl, arith, ◌==◌, ltb, List, [], length, tabulate, length-tabulate,
  Option, some, Bool-cases, inl, inr,
}
use hyper_uuid.Prelude.{not-==→ne, le→not-ltb, not-ltb→le}
use hyper_uuid.Prelude.{ℤ, pos, negsuc, Result, ok, err, negative_count}
use hyper_uuid.Uuid.{Uuid, read_uuids, zero_uuid}
use hyper_uuid.Stream.{Stream, aside, full, granted}
use hyper_uuid.Core.Module.{Draw, IsSource}
use hyper_uuid.Core.V7.Batch.Call.{
  Verdict, too_late, empty, too_large, undrawn, minted, block, supply,
}
use hyper_uuid.Instance.{Instance}
use hyper_uuid.Instance.Ready.{IsReady}
use hyper_uuid.Api.Batch.{fill_uuids, fill_v7_at, new_v7_batch_at, or_error}
use hyper_uuid.Api.Batch.Answers.{
  filling, left, Yields, mint_verdict, fill_verdict, mint_verdict-ne-empty, new_v7_batch-Mints,
}

-- The list of n UUIDs that a batch makes.
abbrev pub batch_of : ℕ → (ℕ → ℕ) → ℕ → List Uuid
batch_of n noise p = block noise p n

-- The list of a new batch, or the error.
abbrev pub batch_answer : List Uuid × Result (Unit {0}) → Result (List Uuid)
batch_answer (us, ok u) = ok us
batch_answer (us, err e) = err e

-- A call that does not panic gives a result and a ready instance.
abbrev pub Returns : {S A : Type 0} → Stream → Option (Instance S × A) → A → Type 0
Returns {S} t r x = (self : Instance S) × (r ≡ some (self, x)) × IsReady self t

module _ {S : Type 0} (fill : ℕ → S → Draw S) (self : Instance S) (s : Stream) (now : ℕ) where
  -- What a fill of n owes on this instance.
  abbrev pub owed : ℕ → Verdict
  owed n = fill_verdict now n (supply fill n self.m.src) s

  -- What a destination holds after a fill that owes v, and the error.
  abbrev pub filled_with : List Uuid → Verdict → List Uuid × Result (Unit {0})
  filled_with dst v =
      filling (batch_of (length dst)) v now (length dst) (supply fill (length dst) self.m.src) dst

  abbrev pub new_batch : ℕ → Verdict → Result (List Uuid)
  new_batch n v = batch_answer (filling (batch_of n) v now n (supply fill n self.m.src) [])

  -- What a count asks for, and the stream after it.
  abbrev pub asked : ℤ → Result (List Uuid)
  asked (negsuc k) = err negative_count
  asked (pos n) = new_batch n (owed n)

  abbrev pub asked_stream : ℤ → Stream
  asked_stream (negsuc k) = s
  asked_stream (pos n) = left (owed n) s

module _ {S : Type 0} (fill : ℕ → S → Draw S) (ok_fill : IsSource fill) (self : Instance S)
    (s : Stream) (ready : IsReady self s) (now : ℕ) where
  abbrev Fills :
      {A : Type 0}
      → ((ℕ → ℕ) → ℕ → A)
      → A
      → ℕ
      → Verdict
      → Option (Instance S × A × Result (Unit {0}))
      → Type 0
  Fills made dst n v r = Yields (left v s) r (filling made v now n (supply fill n self.m.src) dst)

  fill_v7_at-Fills :
      (dst : List Uuid)
      → (n : ℕ) → length dst ≡ n
      → Fills
          (batch_of n)
          dst
          n
          (fill_verdict now n (supply fill n self.m.src) s)
          (fill_v7_at fill self dst now)
  unfolding fill_v7_at fill_uuids
  fill_v7_at-Fills dst n e = rw e (elim (Bool-cases (ltb (2 ^ 26) n)) [
    | inl l ↦ rw l (self, refl, ready)
    | inr g ↦ elim (Bool-cases (n == 0)) [
      | inl z ↦ rw (g, z) (self, refl, ready)
      | inr k ↦
          let small : n ≤ 2 ^ 26 = not-ltb→le (2 ^ 26) n g in
          rw (g, k, le→not-ltb 4294967295 n (omega arith))
            (new_v7_batch-Mints fill ok_fill read_uuids (batch_of n) dst now n
              (omega (arith, not-==→ne n 0 k)) small (λ noise mem p h. h) self s ready)
    ]
  ])

  or_error-Returns :
      (t : Stream) (r : Option (Instance S × List Uuid × Result (Unit {0})))
      (x : List Uuid × Result (Unit {0}))
      → Yields t r x
      → Returns t (or_error fill r) (batch_answer x)
  unfolding or_error
  or_error-Returns t r (us, ok u) (self', e, h) = rw e (self', refl, h)
  or_error-Returns t r (us, err x) (self', e, h) = rw e (self', refl, h)

  forget :
      (v : Verdict) (n : ℕ) (dst : List Uuid)
      → v ≢ empty
      → batch_answer (filling (batch_of n) v now n (supply fill n self.m.src) dst)
        ≡ new_batch fill self s now n v
  forget too_late n dst k = refl
  forget empty n dst k = absurd (k refl)
  forget too_large n dst k = refl
  forget undrawn n dst k = refl
  forget (minted aside) n dst k = refl
  forget (minted full) n dst k = refl
  forget (minted (granted f l)) n dst k = refl

  pub new_v7_batch_at-Returns :
      (count : ℤ)
      → Returns
          (asked_stream fill self s now count)
          (new_v7_batch_at fill self count now)
          (asked fill self s now count)
  unfolding new_v7_batch_at
  new_v7_batch_at-Returns (negsuc k) = (self, refl, ready)
  new_v7_batch_at-Returns (pos n) = elim (Bool-cases (ltb (2 ^ 26) n)) [
    | inl l ↦ rw l (self, refl, ready)
    | inr g ↦ elim (Bool-cases (n == 0)) [
      | inl z ↦ rw (g, z) (self, refl, ready)
      | inr k ↦
          let d = supply fill n self.m.src in
          let v = mint_verdict now n d s in
          let zeros = tabulate (λ i. zero_uuid) n in
          let owes : fill_verdict now n d s ≡ v = rw (g, k) refl in
          let filled = fill_v7_at-Fills zeros n (length-tabulate (λ i. zero_uuid) n) in
          rw (g, k)
            (subst (Returns (left v s) (or_error fill (fill_v7_at fill self zeros now)))
              (forget v n zeros (mint_verdict-ne-empty now n d s))
              (or_error-Returns (left v s) (fill_v7_at fill self zeros now)
                (filling (batch_of n) v now n d zeros)
                (subst (λ w. Fills (batch_of n) zeros n w (fill_v7_at fill self zeros now)) owes
                  filled)))
    ]
  ]
