-- ===== src/Api/Generate/Order.antt =====
-- What `NewV7At` documents of the UUIDs that it returns: their form, their timestamps, their order.
use hyper_uuid.Prelude.{ℕ, ◌+◌, ◌*◌, ◌/◌, ◌^◌, ◌≤◌, ◌<◌, ◌≡◌, ◌⊎◌, inl, inr, refl, arith, ltb, ◌==◌}
use hyper_uuid.Prelude.{Bool-cases, ltb→lt, not-ltb→le}
use hyper_uuid.Prelude.{Result, ok, err, counter_exhausted, random_source, timestamp_out_of_range}
use hyper_uuid.Uuid.{Uuid, unix_ts_ms}
use hyper_uuid.Uuid.Layout.{
  IsV7, v7_layout-IsV7, position, position-v7_layout, unix_ts_ms-v7_layout,
}
use hyper_uuid.Stream
use hyper_uuid.Stream.{Stream, fresh, last, Outcome, aside, full, granted, IsStream, last_milli}
use hyper_uuid.Stream.Laws.{IsNear, reserve-IsNear}
use hyper_uuid.Core.Module.{Draw, IsSource}
use hyper_uuid.Core.V7.Contract.{minted, verdict, stamp, draw_seed}
use hyper_uuid.Instance.{Instance}
use hyper_uuid.Instance.Ready.{IsReady}
use hyper_uuid.Api.Generate.{new_v7_at}
use hyper_uuid.Api.Generate.Answers.{answer, new_v7_at-Gives}

module _ {S : Type 0} (fill : ℕ → S → Draw S) (ok_fill : IsSource fill) (src : S) where
  pub draw_seed-lt : draw_seed (fill 11 src) < 2 ^ 19
  draw_seed-lt =
      omega (arith, ok_fill.bytes_lt 11 src 1, ok_fill.bytes_lt 11 src 2, ok_fill.bytes_lt 11 src 3)

  module _ (p : ℕ) (h : p < 2 ^ 68) where
    pub stamp-IsV7 : IsV7 (stamp (fill 11 src) p)
    stamp-IsV7 =
        v7_layout-IsV7 p _ _ _ _ _ _ _ h (ok_fill.bytes_lt 11 src 5) (ok_fill.bytes_lt 11 src 6)
          (ok_fill.bytes_lt 11 src 7) (ok_fill.bytes_lt 11 src 8) (ok_fill.bytes_lt 11 src 9)
          (ok_fill.bytes_lt 11 src 10)

    pub stamp-position : position (stamp (fill 11 src) p) ≡ p
    stamp-position =
        position-v7_layout p _ _ _ _ _ _ _ h (ok_fill.bytes_lt 11 src 5) (ok_fill.bytes_lt 11 src 6)
          (ok_fill.bytes_lt 11 src 7) (ok_fill.bytes_lt 11 src 8) (ok_fill.bytes_lt 11 src 9)
          (ok_fill.bytes_lt 11 src 10)

    stamp-unix_ts_ms : unix_ts_ms (stamp (fill 11 src) p) ≡ p / 2 ^ 20
    stamp-unix_ts_ms =
        unix_ts_ms-v7_layout p ((fill 11 src).bytes 4) _ _ _ _ _ _ h (ok_fill.bytes_lt 11 src 5)
          (ok_fill.bytes_lt 11 src 6) (ok_fill.bytes_lt 11 src 7) (ok_fill.bytes_lt 11 src 8)
          (ok_fill.bytes_lt 11 src 9) (ok_fill.bytes_lt 11 src 10)

-- A version 7 whose timestamp is `now` or at most 11 s later.
abbrev pub IsMintedAt : ℕ → Uuid → Type 0
IsMintedAt now u = IsV7 u × (now ≤ unix_ts_ms u) × (unix_ts_ms u ≤ now + 11000)

-- What holds of every result at `now`: a UUID minted at it, the refusal of a late timestamp, or one
-- of the two other errors.
abbrev pub IsSound : ℕ → Result Uuid → Type 0
IsSound now (ok u) = (now ≤ 253402300799999) × IsMintedAt now u
IsSound now (err e) =
    ((e ≡ timestamp_out_of_range) × (253402300799999 < now))
    ⊎ ((e ≡ counter_exhausted) ⊎ (e ≡ random_source))

module _ {S : Type 0} (fill : ℕ → S → Draw S) (ok_fill : IsSource fill) (src : S) (now : ℕ) where
  stamp-IsMintedAt :
      (p : ℕ)
      → p < 2 ^ 68
      → now ≤ p / 2 ^ 20
      → p / 2 ^ 20 ≤ now + 11000
      → IsMintedAt now (stamp (fill 11 src) p)
  stamp-IsMintedAt p h from to =
      rw (stamp-unix_ts_ms fill ok_fill src p h) (stamp-IsV7 fill ok_fill src p h, from, to)

  minted-IsSound :
      (o : Outcome)
      → IsNear o now
      → now ≤ 253402300799999
      → IsSound now (answer (minted o) now (fill 11 src))
  minted-IsSound aside h early =
      let small : draw_seed (fill 11 src) < 2 ^ 19 = draw_seed-lt fill ok_fill src in
      (
        early,
        stamp-IsMintedAt (now * 2 ^ 20 + draw_seed (fill 11 src)) (omega arith) (omega arith)
            (omega arith),
      )
  minted-IsSound full h early = inr (inl refl)
  minted-IsSound (granted f l) h early = (early, stamp-IsMintedAt f (omega arith) h.0 h.1)

  answer-IsSound :
      (s : Stream)
      → IsStream s
      → IsSound now (answer (verdict now (fill 11 src) s) now (fill 11 src))
  answer-IsSound s v = elim (Bool-cases (ltb 253402300799999 now)) [
    | inl e ↦ rw e (inl (refl, ltb→lt 253402300799999 now e))
    | inr n ↦ elim (Bool-cases ((fill 11 src).errno == 0)) [
      | inl e ↦
          rw (n, e)
            (minted-IsSound (Stream.reserve now 1 (draw_seed (fill 11 src)) s)
              (reserve-IsNear now (draw_seed (fill 11 src)) s v (draw_seed-lt fill ok_fill src))
              (not-ltb→le 253402300799999 now n))
      | inr m ↦ rw (n, m) (inr (inr refl))
    ]
  ]

module _ {S : Type 0} (fill : ℕ → S → Draw S) (ok_fill : IsSource fill) (self : Instance S)
    (s : Stream) (ready : IsReady self s) where
  -- On a ready instance, with a source that keeps its contract, a UUID that `NewV7At` returns has
  -- version 7 and the RFC variant, and its timestamp is the one asked for or at most 11 s later;
  -- the out-of-range error comes only past 253402300799999, where no UUID is returned, and any
  -- other error is exhaustion or the random source's.
  pub new_v7_at-IsSound : (now : ℕ) → IsSound now (new_v7_at fill self now).1
  new_v7_at-IsSound now =
      rw (new_v7_at-Gives fill ok_fill self s ready now).0
        (answer-IsSound fill ok_fill self.m.src now s ready.holds.valid)
