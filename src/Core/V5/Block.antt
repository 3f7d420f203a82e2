-- ===== src/Core/V5/Block.antt =====
-- `fn6` of go/internal/core/core.go: SHA-1 over whole blocks, in place.
pub mod Words
pub mod Schedule
pub mod Switch
pub mod Early
pub mod Parity
pub mod Majority
pub mod Late
use hyper_uuid.Prelude.{ℕ, zero, suc, ◌+◌, ◌*◌, ◌%◌, ◌^◌, ◌==◌, if◌then◌else◌}
use hyper_uuid.Word.{add32, shl32}
use hyper_uuid.Memory.{Memory, load32, store32}
use hyper_uuid.Sha.{Digest}
use hyper_uuid.Core.V5.Block.Words.{part_1}

-- l1: one block after another up to v3. The fuel is the count of blocks: every pass moves v1 on by
-- one block. The words of the state are v7, v6, v2, v5 and v4.
unfoldable pub fn6_loop : ℕ → Memory → ℕ → ℕ → Digest → Digest
fn6_loop zero mem v1 v3 s = s
fn6_loop (suc fuel) mem v1 v3 s =
    let s = part_1 mem v1 s.c s.e s.d s.b s.a in
    let v1 = add32 v1 64 in let rest = fn6_loop fuel mem v1 v3 s in if v1 == v3 then s else rest

abbrev pub load_digest : Memory → ℕ → Digest
load_digest mem v0 = record {
  a = load32 mem v0;
  b = load32 mem (v0 + 4);
  c = load32 mem (v0 + 8);
  d = load32 mem (v0 + 12);
  e = load32 mem (v0 + 16);
}

abbrev pub store_digest : Memory → ℕ → Digest → Memory
store_digest mem v0 s =
    let mem = store32 mem (v0 + 16) s.e in
    let mem = store32 mem (v0 + 12) s.d in
    let mem = store32 mem (v0 + 8) s.c in let mem = store32 mem (v0 + 4) s.b in store32 mem v0 s.a

unfoldable pub fn6 : Memory → ℕ → ℕ → ℕ → Memory
fn6 mem v0 v1 v2 =
    if v2 == 0
    then mem
    else let v3 = add32 v1 (shl32 v2 6) in
      store_digest mem v0 (fn6_loop v2 mem v1 v3 (load_digest mem v0))
