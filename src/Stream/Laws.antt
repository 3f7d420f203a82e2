-- ===== src/Stream/Laws.antt =====
-- What follows from the rules of the stream.
use hyper_uuid.Prelude.{ℕ, ◌+◌, ◌-◌, ◌/◌, ◌^◌, ◌<◌, ◌≤◌, ◌≡◌, arith}
use hyper_uuid.Stream.{
  Stream, fresh, last, Outcome, aside, full, granted, encode, IsStream, reserve, after, last_milli,
}

-- A reservation leaves a stream that fits its word.
pub after-IsStream :
    (now n seed : ℕ) (s : Stream)
    → IsStream s
    → 0 < n
    → seed + n ≤ 2 ^ 20
    → IsStream (after (reserve now n seed s) s)
unfolding reserve after
after-IsStream now n seed fresh v h k = ground arith
after-IsStream now n seed (last p) v h k = ground arith

-- The word of the stream never falls, and a grant is past all that was reserved before: it has n
-- positions, from above the last one on.
abbrev pub IsPast : Outcome → Stream → ℕ → Type 0
IsPast aside s n = Unit {0}
IsPast full s n = Unit {0}
IsPast (granted f l) s n = (encode s ≤ f + 2 ^ 20 - 1) × (f + n ≡ l + 1)

pub reserve-IsPast : (now n seed : ℕ) (s : Stream) → 0 < n → IsPast (reserve now n seed s) s n
unfolding reserve
reserve-IsPast now n seed fresh h = ground arith
reserve-IsPast now n seed (last p) h = ground arith

-- A grant starts in the timestamp's millisecond or in a later one, at most 11 s ahead.
abbrev pub IsNear : Outcome → ℕ → Type 0
IsNear aside now = Unit {0}
IsNear full now = Unit {0}
IsNear (granted f l) now = (now ≤ f / 2 ^ 20) × (f / 2 ^ 20 ≤ now + 11000) × (f < 2 ^ 65)

pub reserve-IsNear :
    (now seed : ℕ) (s : Stream) → IsStream s → seed < 2 ^ 19 → IsNear (reserve now 1 seed s) now
unfolding reserve
reserve-IsNear now seed fresh v h = ground arith
reserve-IsNear now seed (last p) v h = ground arith

-- The first position that the stream has not reserved.
abbrev pub next : Stream → ℕ
next fresh = 0
next (last p) = p + 1

-- The stream is at most 11 s past `base`.
abbrev pub IsWithin : ℕ → Stream → Type 0
IsWithin base fresh = Unit {0}
IsWithin base (last p) = p / 2 ^ 20 ≤ base + 11000

-- The stream grants the next position or a later one, and stays within 11 s, or it is exhausted; it
-- does not turn the call aside.
abbrev pub IsOrdered : Outcome → ℕ → Stream → Type 0
IsOrdered aside base s = ⊥
IsOrdered full base s = Unit {0}
IsOrdered (granted f l) base s = (l ≡ f) × (next s ≤ f) × (l / 2 ^ 20 ≤ base + 11000)

-- That holds for the timestamps of ten seconds: a second more for the milliseconds that run out makes
-- the eleven after which a call is turned aside.
pub reserve-IsOrdered :
    (base now seed : ℕ) (s : Stream)
    → IsWithin base s
    → base ≤ now
    → now ≤ base + 10000
    → base + 10000 ≤ last_milli
    → seed < 2 ^ 19
    → IsOrdered (reserve now 1 seed s) base s
unfolding reserve
reserve-IsOrdered base now seed fresh w a b c h = ground arith
reserve-IsOrdered base now seed (last p) w a b c h = ground arith
