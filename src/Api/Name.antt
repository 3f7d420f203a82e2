-- ===== src/Api/Name.antt =====
-- `NewV5` and `NewV5String` of go/uuidgen.go, and `checkV5Name`, `newV5` and `v5` of go/core.go under
-- them. A byte slice, and a string, is the list of its bytes.
pub mod OneOff
pub mod Answers
use hyper_uuid.Prelude.{
  ℕ, ◌+◌, ◌-◌, ◌*◌, ◌^◌, min, ltb, leb, ◌==◌, if◌then◌else◌, List, length, get_or, Option, none,
  some,
}
use hyper_uuid.Prelude.{Result, ok, err, ApiError, name_too_long, other}
use hyper_uuid.Word.{u32, add32}
use hyper_uuid.Memory.{write_range}
use hyper_uuid.Uuid.{Uuid, write_uuid, read_uuid, zero_uuid}
use hyper_uuid.Core.V5.{uuid_new_v5}
use hyper_uuid.Instance.{
  Instance, page_size, base_pages, host_max_pages, scratch_pages_for, new_instance_with,
}
use hyper_uuid.Api.Sql.{checked}

-- `MaxV5Name`, on a 64-bit host
abbrev pub max_v5_name : ℕ
max_v5_name = min (2 ^ 31 - 1) (host_max_pages * page_size - 2 * page_size - 32)

unfoldable pub check_v5_name : ℕ → Option ApiError
check_v5_name n = if ltb max_v5_name n then some name_too_long else none

abbrev pub v5_name_offset : ℕ
v5_name_offset = 32

module _ {S : Type 0} where
  -- `v5`, on an instance whose scratch holds the name.
  unfoldable pub v5 : Instance S → Uuid → List ℕ → Instance S × Uuid × ℕ
  v5 self ns name =
      let mem = write_uuid self.m.memory self.scratch ns in
      let mem =
        write_range mem (self.scratch + v5_name_offset) (length name) (λ i. get_or name i 0) in
      let s = self.scratch in
      let (m, rc) =
        uuid_new_v5 (record self.m { memory = mem }) s (add32 s v5_name_offset) (u32 (length name))
          (add32 s 16) in
      (record self { m = m }, read_uuid m.memory (self.scratch + 16), rc)

  -- `if rc != 0 { return uuid.UUID{}, … }`
  unfoldable pub v5_result : Instance S × Uuid × ℕ → Instance S × Result Uuid
  v5_result (self, out, rc) = if rc == 0 then (self, ok out) else (self, err (other rc))

  -- `newV5`: a name that one page does not hold runs on an instance of its own, over `os`, the
  -- operating system's source.
  unfoldable pub make_v5 : Instance S → S → Uuid → List ℕ → Instance S × Result Uuid
  unfolding v5 v5_result check_v5_name
  make_v5 self os ns name =
      let need = length name + v5_name_offset in
      if leb need (base_pages * page_size)
      then v5_result (v5 self ns name)
      else elim (scratch_pages_for need) [
        | none ↦ (self, checked zero_uuid (check_v5_name (length name)))
        | some pages ↦ elim (new_instance_with pages os) [
          | none ↦ (self, err name_too_long)
          | some own ↦ (self, (v5_result (v5 own ns name)).1)
        ]
      ]

  unfoldable pub new_v5 : Instance S → S → Uuid → List ℕ → Instance S × Result Uuid
  unfolding check_v5_name make_v5
  new_v5 self os ns name = elim (check_v5_name (length name)) [
    | some e ↦ (self, err e)
    | none ↦ make_v5 self os ns name
  ]

  unfoldable pub new_v5_string : Instance S → S → Uuid → List ℕ → Instance S × Result Uuid
  unfolding new_v5
  new_v5_string self os ns name = new_v5 self os ns name
