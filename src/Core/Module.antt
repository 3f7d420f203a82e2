-- ===== src/Core/Module.antt =====
-- The translated module of go/internal/core/core.go: `Module`, `New`, `fn0`, `memory_grow` and
-- `memory_init`. The random source behind `fn0` is the instance's (go/random.go): a state and a
-- `fill` that the definitions take as a parameter.
use hyper_uuid.Prelude.{
  ℕ, ◌+◌, ◌-◌, ◌*◌, ◌/◌, ◌^◌, ◌≤◌, ◌<◌, ◌≡◌, List, [], ◌∷◌, get_or, Option, none, some, ltb, ◌==◌,
  if◌then◌else◌, min,
}
use hyper_uuid.Memory.{Memory, write_range}

-- What one call of a source's `fill` on n bytes does: the bytes it wrote, from the first on, the
-- errno it returned, and the source afterwards.
pub record Draw (S : Type 0) : Type 0 where
  pub errno : ℕ
  pub written : ℕ
  pub bytes : ℕ → ℕ
  pub next : S

-- The contract of `source` in go/random.go: never 0 over bytes that it did not write, and never
-- more than it was asked for.
pub record IsSource {S : Type 0} (fill : ℕ → S → Draw S) : Type 0 where
  pub complete : (n : ℕ) (s : S) → (fill n s).errno ≡ 0 → (fill n s).written ≡ n
  pub within : (n : ℕ) (s : S) → (fill n s).written ≤ n
  pub bytes_lt : (n : ℕ) (s : S) (i : ℕ) → (fill n s).bytes i < 256

pub record Module (S : Type 0) : Type 0 where
  pub memory : Memory
  pub size : ℕ
  pub g0 : ℕ
  pub src : S

-- `data0`
abbrev pub data0 : List ℕ
data0 =
    0x01 ∷ 0x23 ∷ 0x45 ∷ 0x67 ∷ 0x89 ∷ 0xab ∷ 0xcd ∷ 0xef ∷ 0xfe ∷ 0xdc ∷ 0xba ∷ 0x98 ∷ 0x76 ∷ 0x54
    ∷ 0x32 ∷ 0x10 ∷ 0xf0 ∷ 0xe1 ∷ 0xd2 ∷ 0xc3 ∷ 0x02 ∷ 0x02 ∷ 0x03 ∷ []

-- `memory_init(mem, data, dest, 0, len(data))`
unfoldable pub memory_init : Memory → (ℕ → ℕ) → ℕ → ℕ → Memory
memory_init mem bytes dest n = write_range mem dest n bytes

unfoldable pub new : {S : Type 0} → S → Module S
unfolding memory_init
new src = record {
  memory = memory_init (λ a. 0) (λ i. get_or data0 i 0) 65536 23;
  size = 0x20000;
  g0 = 65536;
  src = src;
}

-- `memory_grow`: the old page count with the memory extended by zeros, or -1 (`none`). `max_int`
-- is the host's `math.MaxInt`; delta and max are not negative at any call.
unfoldable pub memory_grow : {S : Type 0} → ℕ → Module S → ℕ → ℕ → Option (Module S × ℕ)
memory_grow max_int m delta max =
    let old = m.size / 2 ^ 16 in
    if delta == 0
    then some (m, old)
    else if ltb (min max (max_int / 2 ^ 16)) (old + delta)
    then none
    else some (
      record m {
        memory = write_range m.memory m.size ((old + delta) * 2 ^ 16 - m.size) (λ i. 0);
        size = (old + delta) * 2 ^ 16;
      },
      old,
    )

-- `fn0`, the import `random_get`: `fill` on the n bytes at ptr, and its errno.
unfoldable pub fn0 : {S : Type 0} → (ℕ → S → Draw S) → Module S → ℕ → ℕ → Module S × ℕ
fn0 fill m ptr n =
    let draw = fill n m.src in
    (
      record m { memory = write_range m.memory ptr draw.written draw.bytes; src = draw.next },
      draw.errno,
    )
