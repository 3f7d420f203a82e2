-- ===== src/Pool.antt =====
-- The pool of instances of go/core_pool.go: `acquire` and `release`, and the steps of the package on
-- its instances. `sync.Pool` is a parameter: what it keeps is a list from which it may hand out or
-- drop any instance, and where it makes a new one it calls `newInstance(basePages)`.
pub mod Invariant
use hyper_uuid.Prelude.{
  ℕ, ◌≡◌, ◌==◌, if◌then◌else◌, ℤ, List, [], ◌∷◌, ◌++◌, ◌<◌, get_or, Option, none, some, Result,
}
use hyper_uuid.Uuid.{Uuid, IsBytes}
use hyper_uuid.Core.Module.{Draw}
use hyper_uuid.Instance.{Instance, new_instance_with, base_pages}
use hyper_uuid.Api.Inspect.{version_in, variant, is_rfc_in, v7_unix_millis_in, get_timestamp_in}
use hyper_uuid.Api.Sql.{v7_to_sql_order, v7_from_sql_order}
use hyper_uuid.Api.Name.{new_v5}
use hyper_uuid.Api.Generate.{new_v4, new_v7_at}
use hyper_uuid.Api.Batch.{new_v7_batch_at}

-- What `acquire` gives a call: the primary, locked, or a pooled instance.
pub data Held (S : Type 0) : Type 0 where
  locked pooled : Instance S → Held S

-- The primary while nobody has its lock, the instances in the pool, and those in a call.
pub record Package (S : Type 0) : Type 0 where
  pub primary : Option (Instance S)
  pub pool : List (Instance S)
  pub held : List (Held S)

module _ {S : Type 0} where
  -- `acquire`, where `TryLock` got the primary with its lock or nothing, and `got` is what the pool
  -- would give.
  unfoldable pub acquire : Option (Instance S) → Instance S → Held S
  acquire (some p) got = locked p
  acquire none got = pooled got

  unfoldable pub release : Package S → Held S → Package S
  release p (locked self) = record p { primary = some self }
  release p (pooled self) =
      if self.pages == base_pages then record p { pool = self ∷ p.pool } else p

  module _ (fill : ℕ → S → Draw S) where
    -- The calls that an acquired instance serves.
    pub data Call (self : Instance S) : Instance S → Type 0 where
      version_call : (id : Uuid) (layout : ℕ) → IsBytes id → Call self (version_in self id layout).0
      variant_call : (id : Uuid) → IsBytes id → Call self (variant self id).0
      is_rfc_call :
          (id : Uuid) (version : ℤ) (layout : ℕ)
          → IsBytes id
          → Call self (is_rfc_in self id version layout).0
      millis_call :
          (id : Uuid) (layout : ℕ) → IsBytes id → Call self (v7_unix_millis_in self id layout).0
      timestamp_call :
          (id : Uuid) (layout : ℕ) → IsBytes id → Call self (get_timestamp_in self id layout).0
      to_sql_call : (id : Uuid) → IsBytes id → Call self (v7_to_sql_order self id).0
      from_sql_call : (id : Uuid) → IsBytes id → Call self (v7_from_sql_order self id).0
      v4_call : Call self (new_v4 fill self).0
      v5_call :
          (os : S) (ns : Uuid) (name : List ℕ)
          → IsBytes ns
          → ((i : ℕ) → get_or name i 0 < 256)
          → Call self (new_v5 self os ns name).0

    -- One step of any goroutine. `TryLock` may fail although nobody holds the lock, so an instance of the
    -- pool, or a new one, is taken whether or not the primary is free. A version 7 call takes the primary's lock, waiting for it if need be,
    -- and leaves it at its end; the collector may drop what the pool keeps.
    pub data Step (p : Package S) : Package S → Type 0 where
      take_primary :
          (self got : Instance S)
          → p.primary ≡ some self
          → Step p (record p { primary = none; held = acquire p.primary got ∷ p.held })
      take_pooled :
          (xs ys : List (Instance S)) (got : Instance S)
          → p.pool ≡ xs ++ got ∷ ys
          → Step p (record p { pool = xs ++ ys; held = acquire none got ∷ p.held })
      take_new :
          (src : S) (got : Instance S)
          → new_instance_with base_pages src ≡ some got
          → Step p (record p { held = acquire none got ∷ p.held })
      call_locked :
          (xs ys : List (Held S)) (self self' : Instance S)
          → p.held ≡ xs ++ locked self ∷ ys
          → Call self self'
          → Step p (record p { held = xs ++ locked self' ∷ ys })
      call_pooled :
          (xs ys : List (Held S)) (self self' : Instance S)
          → p.held ≡ xs ++ pooled self ∷ ys
          → Call self self'
          → Step p (record p { held = xs ++ pooled self' ∷ ys })
      give_back :
          (xs ys : List (Held S)) (h : Held S)
          → p.held ≡ xs ++ h ∷ ys
          → Step p (release (record p { held = xs ++ ys }) h)
      mint :
          (self : Instance S) (now : ℕ)
          → p.primary ≡ some self
          → Step p (record p { primary = some (new_v7_at fill self now).0 })
      mint_batch :
          (self self' : Instance S) (count : ℤ) (now : ℕ) (r : Result (List Uuid))
          → p.primary ≡ some self
          → new_v7_batch_at fill self count now ≡ some (self', r)
          → Step p (record p { primary = some self' })
      collect :
          (xs ys : List (Instance S)) (dropped : Instance S)
          → p.pool ≡ xs ++ dropped ∷ ys
          → Step p (record p { pool = xs ++ ys })

    pub data Reach (p : Package S) : Package S → Type 0 where
      here : Reach p p
      next : {q r : Package S} → Reach p q → Step q r → Reach p r
