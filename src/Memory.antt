-- ===== src/Memory.antt =====
-- The linear memory of the translated module and the accessors of go/internal/core/core.go.
-- A memory is a total map from addresses to bytes: all accesses of the modelled calls lie in the
-- guest's frame, its data or the scratch, below the size of every instance. All accesses are
-- little-endian on every host, which is what the three variants of the accessors there ensure.
pub mod Ranges
use hyper_uuid.Prelude.{ℕ, ◌+◌, ◌-◌, ◌*◌, ◌/◌, ◌^◌, ◌&&◌, ltb, leb, ◌==◌, if◌then◌else◌}
use hyper_uuid.Word.{byte}

abbrev pub Memory : Type 0
Memory = ℕ → ℕ

-- `mem[a] = v` for a byte v
abbrev pub store8 : Memory → ℕ → ℕ → Memory
store8 mem a v b = if a == b then v else mem b

abbrev pub load16 : Memory → ℕ → ℕ
load16 mem a = mem a + mem (a + 1) * 2 ^ 8

abbrev pub load32 : Memory → ℕ → ℕ
load32 mem a = load16 mem a + load16 mem (a + 2) * 2 ^ 16

abbrev pub load64 : Memory → ℕ → ℕ
load64 mem a = load32 mem a + load32 mem (a + 4) * 2 ^ 32

abbrev pub store16 : Memory → ℕ → ℕ → Memory
store16 mem a v = store8 (store8 mem a (byte v)) (a + 1) (byte (v / 2 ^ 8))

abbrev pub store32 : Memory → ℕ → ℕ → Memory
store32 mem a v = store16 (store16 mem a v) (a + 2) (v / 2 ^ 16)

abbrev pub store64 : Memory → ℕ → ℕ → Memory
store64 mem a v = store32 (store32 mem a v) (a + 4) (v / 2 ^ 32)

-- `copy(mem[a : a+n], …)` where the source is given as a function of the index
abbrev pub write_range : Memory → ℕ → ℕ → (ℕ → ℕ) → Memory
write_range mem a n f b = if leb a b && ltb b (a + n) then f (b - a) else mem b
