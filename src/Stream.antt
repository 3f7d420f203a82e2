-- ===== src/Stream.antt =====
-- What the version 7 stream promises, on positions: a position is a millisecond times 2 ^ 20 plus a
-- step, so positions are the order in which the stream's UUIDs sort. README.md, "v7 ordering,
-- precisely", and go/uuidgen.go, `NewV7At`, state the rules.
pub mod Laws
use hyper_uuid.Prelude.{
  ℕ, ◌+◌, ◌-◌, ◌*◌, ◌/◌, ◌%◌, ◌^◌, ◌≤◌, ◌<◌, ltb, leb, ◌&&◌, ◌||◌, ◌==◌, if◌then◌else◌,
}

-- The last position that the stream has reserved.
pub data Stream : Type 0 where
  fresh : Stream
  last : ℕ → Stream

-- A reservation is granted from one position to another, or the call is minted aside, at its own
-- timestamp, or the stream is exhausted.
pub data Outcome : Type 0 where
  aside full : Outcome
  granted : ℕ → ℕ → Outcome

-- Steps in a millisecond, and the last millisecond that the stream holds.
abbrev pub steps : ℕ
steps = 2 ^ 20

abbrev pub last_milli : ℕ
last_milli = 2 ^ 44 - 2

abbrev pub advance : ℕ → ℕ → ℕ → Outcome
advance now n seed = granted (now * steps + seed) (now * steps + seed + n - 1)

-- The stream goes on from its last position p: within its millisecond, or into the next one if that
-- is at most a second ahead of `now` and not past the last.
abbrev pub continue : ℕ → ℕ → ℕ → Outcome
continue now n p =
    if leb (p % steps + n) (steps - 1)
    then granted (p + 1) (p + n)
    else if ltb last_milli (p / steps + 1)
    then full
    else if ltb (now + 1000) (p / steps + 1)
    then full
    else granted (p + 1) (p + n)

-- A reservation of n steps at `now`: past the last millisecond or more than 11 s behind the stream it
-- is aside, ahead of the stream it starts at the seed.
unfoldable pub reserve : ℕ → ℕ → ℕ → Stream → Outcome
reserve now n seed fresh = if ltb last_milli now then aside else advance now n seed
reserve now n seed (last p) =
    if ltb last_milli now
    then aside
    else if ltb (p / steps) now
    then advance now n seed
    else if ltb (now + 11000) (p / steps)
    then aside
    else continue now n p

-- The stream after a reservation.
unfoldable pub after : Outcome → Stream → Stream
after aside s = s
after full s = s
after (granted f l) s = last l

-- The 64-bit word that holds a stream.
abbrev pub encode : Stream → ℕ
encode fresh = 0
encode (last p) = p + 2 ^ 20

-- The positions that fit the word.
abbrev pub IsStream : Stream → Type 0
IsStream fresh = Unit {0}
IsStream (last p) = p < 2 ^ 64 - 2 ^ 20
