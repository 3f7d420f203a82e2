-- ===== src/Core/V4.antt =====
-- `Xuuid_new_v4` of go/internal/core/core.go.
pub mod Call
use hyper_uuid.Prelude.{ℕ, ◌+◌, ◌==◌, if◌then◌else◌}
use hyper_uuid.Word.{◌and◌, ◌or◌, byte, u16, add32, sub32, shl32}
use hyper_uuid.Memory.{Memory, load16, load32, store8, store16, store32, store64}
use hyper_uuid.Core.Module.{Draw, Module, fn0}

-- From l0 on: the 16 random bytes at v1 + 16 go to v0 with the version and the variant in them.
pub v4_steps : Memory → ℕ → ℕ → Memory
v4_steps mem v1 v0 =
    let v2 = mem (v1 + 18) in
    let mem = store8 mem (v1 + 14) (byte v2) in
    let v3 = load16 mem (v1 + 16) in
    let mem = store16 mem (v1 + 12) (u16 v3) in
    let v4 = mem (v1 + 22) in
    let v5 = load16 mem (v1 + 19) in
    let v6 = mem (v1 + 21) in
    let v7 = mem (v1 + 23) in
    let v8 = mem (v1 + 24) in
    let t11 = load32 mem (v1 + 28) in
    let mem = store32 mem (v1 + 7) t11 in
    let t12 = load32 mem (v1 + 25) in
    let mem = store32 mem (v1 + 4) t12 in
    let mem = store8 mem (v0 + 2) (byte v2) in
    let mem = store16 mem v0 (u16 v3) in
    let mem = store8 mem (v0 + 8) (byte (v8 and 63 or 128)) in
    let mem = store8 mem (v0 + 7) (byte v7) in
    let mem = store32 mem (v0 + 3) (shl32 (v4 and 15) 24 or (v5 or shl32 v6 16) or 0x40000000) in
    let t13 = load32 mem (v1 + 4) in
    let mem = store32 mem (v0 + 9) t13 in let t14 = load32 mem (v1 + 7) in store32 mem (v0 + 12) t14

module _ {S : Type 0} (fill : ℕ → S → Draw S) where
  unfoldable pub uuid_new_v4 : Module S → ℕ → Module S × ℕ
  unfolding v4_steps fn0
  uuid_new_v4 m v0 =
      let v1 = sub32 m.g0 32 in
      let mem = store64 (store64 m.memory (v1 + 24) 0) (v1 + 16) 0 in
      let (drawn, t1) = fn0 fill (record m { memory = mem; g0 = v1 }) (add32 v1 16) 16 in
      if t1 == 0
      then (record drawn { memory = v4_steps drawn.memory v1 v0; g0 = add32 v1 32 }, 0)
      else (record drawn { g0 = add32 v1 32 }, 1)
