-- ===== src/Api/Generate/Ascent.antt =====
-- The order of one call of `NewV7At` after another.
use hyper_uuid.Prelude.{ℕ, ◌+◌, ◌≤◌, ◌<◌, ◌≡◌, ◌⊎◌, inl, inr, refl, sym, arith, ◌==◌}
use hyper_uuid.Prelude.{Bool-cases, le→not-ltb, Option, none, some, List, [], ◌∷◌}
use hyper_uuid.Prelude.{Result, ok, err, counter_exhausted, random_source}
use hyper_uuid.Uuid.{Uuid, value}
use hyper_uuid.Uuid.Layout.{IsV7, position, value-lt_of_position}
use hyper_uuid.Stream
use hyper_uuid.Stream.{Stream, fresh, last, Outcome, aside, full, granted, IsStream, last_milli}
use hyper_uuid.Stream.Laws.{IsNear, reserve-IsNear, IsWithin, IsOrdered, reserve-IsOrdered, next}
use hyper_uuid.Core.Module.{Draw, IsSource}
use hyper_uuid.Core.V7.Contract.{minted, verdict, draw_seed}
use hyper_uuid.Instance.{Instance}
use hyper_uuid.Instance.Ready.{IsReady}
use hyper_uuid.Api.Generate.{mint_all}
use hyper_uuid.Api.Generate.Answers.{answer, left, new_v7_at-Gives}
use hyper_uuid.Api.Generate.Order.{draw_seed-lt, stamp-IsV7, stamp-position}

-- Results whose UUIDs have rising positions, from n on; the errors are the two of the stream.
abbrev Rising : ℕ → List (Result Uuid) → Type 0
Rising n [] = Unit {0}
Rising n (ok u ∷ rs) = IsV7 u × (n ≤ position u) × Rising (position u + 1) rs
Rising n (err e ∷ rs) = ((e ≡ counter_exhausted) ⊎ (e ≡ random_source)) × Rising n rs

-- Results whose UUIDs are version 7 and strictly increasing, above `lower`; an error is the counter's
-- exhaustion or a failure of the random source.
abbrev pub Ascends : Option Uuid → List (Result Uuid) → Type 0
Ascends lower [] = Unit {0}
Ascends lower (err e ∷ rs) = ((e ≡ counter_exhausted) ⊎ (e ≡ random_source)) × Ascends lower rs
Ascends none (ok u ∷ rs) = IsV7 u × Ascends (some u) rs
Ascends (some w) (ok u ∷ rs) = IsV7 u × (value w < value u) × Ascends (some u) rs

Rising-Ascends :
    (w : Uuid)
    → IsV7 w
    → (rs : List (Result Uuid)) → Rising (position w + 1) rs
    → Ascends (some w) rs
Rising-Ascends w hw [] h = tt
Rising-Ascends w hw (ok u ∷ rs) h =
    (h.0, value-lt_of_position w u hw h.0 (omega (arith, h.1)), Rising-Ascends u h.0 rs h.2)
Rising-Ascends w hw (err e ∷ rs) h = (h.0, Rising-Ascends w hw rs h.1)

Rising-none : (n : ℕ) (rs : List (Result Uuid)) → Rising n rs → Ascends none rs
Rising-none n [] h = tt
Rising-none n (ok u ∷ rs) h = (h.0, Rising-Ascends u h.0 rs h.2)
Rising-none n (err e ∷ rs) h = (h.0, Rising-none n rs h.1)

-- Timestamps of the ten seconds from `base`.
abbrev pub AreWithin : ℕ → List ℕ → Type 0
AreWithin base [] = Unit {0}
AreWithin base (t ∷ ts) = (base ≤ t) × (t ≤ base + 10000) × AreWithin base ts

module _ {S : Type 0} (fill : ℕ → S → Draw S) (ok_fill : IsSource fill) (base : ℕ)
    (hb : base + 10000 ≤ last_milli) where
  Rising-minted :
      (src : S) (s : Stream) (now : ℕ) (o : Outcome)
      → IsNear o now
      → IsOrdered o base s
      → (rs : List (Result Uuid)) → Rising (next (Stream.after o s)) rs
      → Rising (next s) (answer (minted o) now (fill 11 src) ∷ rs)
  unfolding Stream.after
  Rising-minted src s now aside near o rs h = elim o [ ]
  Rising-minted src s now full near o rs h = (inl refl, h)
  Rising-minted src s now (granted f l) near o rs h = (
    stamp-IsV7 fill ok_fill src f (omega arith),
    rw (stamp-position fill ok_fill src f (omega arith)) o.1,
    rw (stamp-position fill ok_fill src f (omega arith), sym o.0) h,
  )

  IsWithin-minted :
      (s : Stream) (o : Outcome)
      → IsWithin base s
      → IsOrdered o base s
      → IsWithin base (Stream.after o s)
  unfolding Stream.after
  IsWithin-minted s aside w o = elim o [ ]
  IsWithin-minted s full w o = w
  IsWithin-minted s (granted f l) w o = o.2

  module _ (src : S) (s : Stream) (v : IsStream s) (w : IsWithin base s) (now : ℕ)
      (from : base ≤ now) (to : now ≤ base + 10000) where
    outcome-IsOrdered : IsOrdered (Stream.reserve now 1 (draw_seed (fill 11 src)) s) base s
    outcome-IsOrdered =
        reserve-IsOrdered base now (draw_seed (fill 11 src)) s w from to hb
          (draw_seed-lt fill ok_fill src)

    step :
        (IsWithin base (left (verdict now (fill 11 src) s) s))
        × ((rs : List (Result Uuid))
            → Rising (next (left (verdict now (fill 11 src) s) s)) rs
            → Rising (next s) (answer (verdict now (fill 11 src) s) now (fill 11 src) ∷ rs))
    step =
        rw (le→not-ltb 253402300799999 now (omega arith))
          (elim (Bool-cases ((fill 11 src).errno == 0)) [
            | inl e ↦ rw e (
              IsWithin-minted s _ w outcome-IsOrdered,
              Rising-minted src s now _
                  (reserve-IsNear now (draw_seed (fill 11 src)) s v (draw_seed-lt fill ok_fill src))
                  outcome-IsOrdered,
            )
            | inr n ↦ rw n (w, λ rs h. (inr refl, h))
          ])

  mint_all-Rising :
      (ts : List ℕ) (self : Instance S) (s : Stream)
      → IsReady self s
      → IsWithin base s
      → AreWithin base ts
      → Rising (next s) (mint_all fill self ts).1
  unfolding mint_all
  mint_all-Rising [] self s ready w h = tt
  mint_all-Rising (t ∷ ts) self s ready w h =
      let made = new_v7_at-Gives fill ok_fill self s ready t in
      let went = step self.m.src s ready.holds.valid w t h.0 h.1 in
      rw made.0 (went.1 _ (mint_all-Rising ts _ _ made.1 went.0 h.2))

  -- On a ready instance whose stream is at most 11 s past `base`, with a source that keeps its
  -- contract, calls of `NewV7At` one after another, at timestamps in any order within the ten
  -- seconds from `base` and up to 2^44 - 2, return version 7 UUIDs that are strictly increasing
  -- as byte strings; a call that returns none fails with the exhaustion error or the random-
  -- source error.
  pub mint_all-Ascends :
      (ts : List ℕ) (self : Instance S) (s : Stream)
      → IsReady self s
      → IsWithin base s
      → AreWithin base ts
      → Ascends none (mint_all fill self ts).1
  mint_all-Ascends ts self s ready w h =
      Rising-none (next s) _ (mint_all-Rising ts self s ready w h)
