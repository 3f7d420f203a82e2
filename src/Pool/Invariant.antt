-- ===== src/Pool/Invariant.antt =====
-- The instances of go/core_pool.go under the interleavings of calls.
use mathlib.Core.Path.{subst}
use hyper_uuid.Prelude.{
  ℕ, ◌+◌, ◌≡◌, refl, ap, sym, ◌∙◌, arith, ◌==◌, ==_iff, Bool-cases, inl, inr, List, [], ◌∷◌, ◌++◌,
  Option, none, some, ℤ, Result,
}
use hyper_uuid.Stream.{Stream, fresh}
use hyper_uuid.Core.Module.{Draw, IsSource}
use hyper_uuid.Instance.{Instance}
use hyper_uuid.Instance.Ready.{IsReady, started, new_instance_with-IsReady}
use hyper_uuid.Api.Inspect.Answers.{
  version_in-Gives, variant-Gives, is_rfc_in-Gives, v7_unix_millis_in-Gives,
}
use hyper_uuid.Api.Inspect.Times.{get_timestamp_in-Gives}
use hyper_uuid.Api.Sql.Answers.{v7_to_sql_order-Gives, v7_from_sql_order-Gives}
use hyper_uuid.Api.Generate.Random.{new_v4-Gives}
use hyper_uuid.Api.Generate.Answers.{new_v7_at-Gives}
use hyper_uuid.Api.Batch.Fills.{asked_stream, new_v7_batch_at-Returns}
use hyper_uuid.Api.Batch.{new_v7_batch_at}
use hyper_uuid.Uuid.{Uuid}
use hyper_uuid.Api.Name.Answers.{new_v5-Gives}
use hyper_uuid.Pool.{
  Held, locked, pooled, Package, acquire, release, Call, version_call, variant_call, is_rfc_call,
  millis_call, timestamp_call, to_sql_call, from_sql_call, v4_call, v5_call, Step, take_primary,
  take_pooled, take_new, call_locked, call_pooled, give_back, mint, mint_batch, collect, Reach,
  here, next,
}

abbrev pub Each : {A : Type 0} → (A → Type 0) → List A → Type 0
Each P [] = Unit {0}
Each P (x ∷ xs) = P x × Each P xs

some_parts : {A : Type 0} {a b : A} → some a ≡ some b → a ≡ b
some_parts h = cc

module _ {A : Type 0} (P : A → Type 0) where
  Each-at : (xs ys : List A) (x : A) → Each P (xs ++ x ∷ ys) → P x
  Each-at [] ys x h = h.0
  Each-at (z ∷ xs) ys x h = Each-at xs ys x h.1

  Each-without : (xs ys : List A) (x : A) → Each P (xs ++ x ∷ ys) → Each P (xs ++ ys)
  Each-without [] ys x h = h.1
  Each-without (z ∷ xs) ys x h = (h.0, Each-without xs ys x h.1)

  Each-with : (xs ys : List A) (x : A) → P x → Each P (xs ++ ys) → Each P (xs ++ x ∷ ys)
  Each-with [] ys x p h = (p, h)
  Each-with (z ∷ xs) ys x p h = (h.0, Each-with xs ys x p h.1)

module _ {S : Type 0} where
  -- The primary holds some stream; an instance of the pool holds none, in a call and out of it, and
  -- goes back with one page of scratch.
  abbrev pub HasStream : Instance S → Type 0
  HasStream self = (s : Stream) × IsReady self s

  abbrev pub IsKept : Instance S → Type 0
  IsKept self = IsReady self fresh × (self.pages ≡ 1)

  abbrev pub IsUsable : Held S → Type 0
  IsUsable (locked self) = HasStream self
  IsUsable (pooled self) = IsReady self fresh

  abbrev pub IsFree : Option (Instance S) → Type 0
  IsFree none = Unit {0}
  IsFree (some self) = HasStream self

  -- How many primaries there are, with the lock and without.
  abbrev pub unlocked : Option (Instance S) → ℕ
  unlocked none = 0
  unlocked (some self) = 1

  abbrev pub lock : Held S → ℕ
  lock (locked self) = 1
  lock (pooled self) = 0

  abbrev pub locks : List (Held S) → ℕ
  locks [] = 0
  locks (h ∷ hs) = lock h + locks hs

  pub record IsSound (p : Package S) : Type 0 where
    pub free : IsFree p.primary
    pub kept : Each IsKept p.pool
    pub usable : Each IsUsable p.held
    pub one : unlocked p.primary + locks p.held ≡ 1

  locks-middle :
      (xs ys : List (Held S)) (h : Held S) → locks (xs ++ h ∷ ys) ≡ lock h + locks (xs ++ ys)
  locks-middle [] ys h = refl
  locks-middle (x ∷ xs) ys h = omega (arith, locks-middle xs ys h)

  release-IsSound :
      (p : Package S) (h : Held S)
      → IsFree p.primary
      → Each IsKept p.pool
      → Each IsUsable p.held
      → IsUsable h
      → unlocked p.primary + (lock h + locks p.held) ≡ 1
      → IsSound (release p h)
  unfolding release
  release-IsSound p (locked self) f k u h one = record {
    free = h;
    kept = k;
    usable = u;
    one = omega arith;
  }
  release-IsSound p (pooled self) f k u h one = elim (Bool-cases (self.pages == 1)) [
    | inl e ↦ rw e (record {
      free = f;
      kept = ((h, (==_iff self.pages 1).0 e), k);
      usable = u;
      one = omega arith;
    })
    | inr n ↦ rw n (record { free = f; kept = k; usable = u; one = omega arith })
  ]

  module _ (fill : ℕ → S → Draw S) (ok_fill : IsSource fill) where
    Call-IsReady :
        (self self' : Instance S) (s : Stream)
        → Call fill self self'
        → IsReady self s
        → IsReady self' s
    Call-IsReady self self' s (version_call id layout b) r =
        (version_in-Gives self s r id b layout).1
    Call-IsReady self self' s (variant_call id b) r = (variant-Gives self s r id b).1
    Call-IsReady self self' s (is_rfc_call id version layout b) r =
        (is_rfc_in-Gives self s r id b version layout).1
    Call-IsReady self self' s (millis_call id layout b) r =
        (v7_unix_millis_in-Gives self s r id b layout).1
    Call-IsReady self self' s (timestamp_call id layout b) r =
        (get_timestamp_in-Gives self s r id b layout).1
    Call-IsReady self self' s (to_sql_call id b) r = (v7_to_sql_order-Gives self s r id b).1
    Call-IsReady self self' s (from_sql_call id b) r = (v7_from_sql_order-Gives self s r id b).1
    Call-IsReady self self' s v4_call r = (new_v4-Gives fill ok_fill self s r).0.1
    Call-IsReady self self' s (v5_call os ns name b l) r =
        (new_v5-Gives ns b name l self s r os).0.1

    minted_batch :
        (self self' : Instance S) (s : Stream) (count : ℤ) (now : ℕ) (r : Result (List Uuid))
        → IsReady self s
        → new_v7_batch_at fill self count now ≡ some (self', r)
        → HasStream self'
    minted_batch self self' s count now r ready k =
        let owed = new_v7_batch_at-Returns fill ok_fill self s ready now count in
        let same = some_parts (sym owed.1 ∙ k) in
        (
          asked_stream fill self s now count,
          subst (λ (x : Instance S). IsReady x (asked_stream fill self s now count))
              (ap (λ x. x.0) same) owed.2,
        )

    Step-IsSound : (p q : Package S) → Step fill p q → IsSound p → IsSound q
    unfolding acquire
    Step-IsSound p q (take_primary self got e) h = rw e (record {
      free = tt;
      kept = h.kept;
      usable = (rw e at h.free, h.usable);
      one = omega (arith, rw e at h.one);
    })
    Step-IsSound p q (take_pooled xs ys got k) h =
        let kept = rw k at h.kept in
        record {
          free = h.free;
          kept = Each-without IsKept xs ys got kept;
          usable = ((Each-at IsKept xs ys got kept).0, h.usable);
          one = omega (arith, h.one);
        }
    Step-IsSound p q (take_new src got k) h =
        let new = new_instance_with-IsReady src in
        let same : started src ≡ got = some_parts (sym new.0 ∙ k) in
        record {
          free = h.free;
          kept = h.kept;
          usable = (subst (λ x. IsReady x fresh) same new.1, h.usable);
          one = omega (arith, h.one);
        }
    Step-IsSound p q (call_locked xs ys self self' e c) h =
        let usable = rw e at h.usable in
        let (s, ready) = Each-at IsUsable xs ys (locked self) usable in
        record {
          free = h.free;
          kept = h.kept;
          usable =
              Each-with IsUsable xs ys (locked self') (s, Call-IsReady self self' s c ready)
                (Each-without IsUsable xs ys (locked self) usable);
          one = omega (
            arith,
            rw e at h.one,
            locks-middle xs ys (locked self),
            locks-middle xs ys (locked self'),
          );
        }
    Step-IsSound p q (call_pooled xs ys self self' e c) h =
        let usable = rw e at h.usable in
        let ready = Each-at IsUsable xs ys (pooled self) usable in
        record {
          free = h.free;
          kept = h.kept;
          usable =
              Each-with IsUsable xs ys (pooled self') (Call-IsReady self self' fresh c ready)
                (Each-without IsUsable xs ys (pooled self) usable);
          one = omega (
            arith,
            rw e at h.one,
            locks-middle xs ys (pooled self),
            locks-middle xs ys (pooled self'),
          );
        }
    Step-IsSound p q (give_back xs ys x e) h =
        let usable = rw e at h.usable in
        release-IsSound (record p { held = xs ++ ys }) x h.free h.kept
          (Each-without IsUsable xs ys x usable) (Each-at IsUsable xs ys x usable)
          (omega (arith, rw e at h.one, locks-middle xs ys x))
    Step-IsSound p q (mint self now e) h =
        let (s, ready) = rw e at h.free in
        record {
          free = (_, (new_v7_at-Gives fill ok_fill self s ready now).1);
          kept = h.kept;
          usable = h.usable;
          one = omega (arith, rw e at h.one);
        }
    Step-IsSound p q (mint_batch self self' count now r e k) h =
        let (s, ready) = rw e at h.free in
        record {
          free = minted_batch self self' s count now r ready k;
          kept = h.kept;
          usable = h.usable;
          one = omega (arith, rw e at h.one);
        }
    Step-IsSound p q (collect xs ys dropped e) h = record {
      free = h.free;
      kept = Each-without IsKept xs ys dropped (rw e at h.kept);
      usable = h.usable;
      one = h.one;
    }

    -- From a package with one primary that is ready, and a pool and calls in progress whose
    -- instances are ready with a fresh stream, every interleaving of acquisitions, inspections,
    -- conversions, version 4 and version 5 calls, releases, version 7 calls and batches on the
    -- primary and collections of the pool leads to such a package again: there is one primary,
    -- locked by one call or free, and no instance of the pool ever holds a version 7 stream or
    -- more than a page of scratch. The random source keeps its contract.
    pub Reach-IsSound : (p q : Package S) → Reach fill p q → IsSound p → IsSound q
    Reach-IsSound p q here h = h
    Reach-IsSound p q (next {q = m} r st) h = Step-IsSound m q st (Reach-IsSound p m r h)
