-- ===== src/Instance.antt =====
-- go/core.go: an instance of the core, the copies into and out of its scratch, and the calls that
-- the rest of the package makes on an acquired instance. `fill` is the source's.
pub mod Ready
pub mod Scratch
use hyper_uuid.Prelude.{
  ℕ, ◌+◌, ◌-◌, ◌*◌, ◌/◌, ◌%◌, ◌^◌, ltb, leb, not, ◌==◌, if◌then◌else◌, Bool, true, false,
}
use hyper_uuid.Prelude.{Option, none, some}
use hyper_uuid.Memory.{Memory, load64}
use hyper_uuid.Uuid.{Uuid, write_uuid, read_uuid}
use hyper_uuid.Core.Module.{Draw, Module, new, memory_grow}
use hyper_uuid.Core.Inspect.{
  uuid_version, uuid_variant, uuid_is_rfc, uuid_v7_unix_millis, uuid_v7_unix_millis_in,
  uuid_get_timestamp,
}
use hyper_uuid.Core.Sql.{uuid_v7_to_sql_order, uuid_v7_to_rfc_order}
use hyper_uuid.Core.V4.{uuid_new_v4}
use hyper_uuid.Core.V7.{uuid_new_v7}
use hyper_uuid.Core.V7.Batch.{uuid_new_v7_batch}

pub record Instance (S : Type 0) : Type 0 where
  pub m : Module S
  pub scratch : ℕ
  pub pages : ℕ

abbrev pub page_size : ℕ
page_size = 65536

-- A 64-bit host: `math.MaxInt` is 2 ^ 63 - 1 and `hostMaxPages` 65536.
abbrev pub max_int : ℕ
max_int = 2 ^ 63 - 1

abbrev pub host_max_pages : ℕ
host_max_pages = 65536

abbrev pub base_pages : ℕ
base_pages = 1

-- The pages that hold so many bytes, if an instance can hold them beside its two.
unfoldable pub scratch_pages_for : ℕ → Option ℕ
scratch_pages_for bytes =
    let need = if bytes % page_size == 0 then bytes / page_size else bytes / page_size + 1 in
    if ltb host_max_pages (need + 2) then none else some need

module _ {S : Type 0} where
  -- `newInstanceWith`; `none` where the growth is refused.
  unfoldable pub new_instance_with : ℕ → S → Option (Instance S)
  unfolding new memory_grow
  new_instance_with pages src = elim (memory_grow max_int (new src) pages host_max_pages) [
    | none ↦ none
    | some (m, old) ↦ some (record { m = m; scratch = old * page_size; pages = pages })
  ]

  -- `ensureScratch`: the instance, grown if need be, and whether it holds the bytes.
  unfoldable pub ensure_scratch : Instance S → ℕ → Instance S × Bool
  ensure_scratch self bytes = elim (scratch_pages_for bytes) [
    | none ↦ (self, false)
    | some need ↦
        if leb need self.pages
        then (self, true)
        else elim (memory_grow max_int self.m (need - self.pages) host_max_pages) [
          | none ↦ (self, false)
          | some (m, old) ↦ (record self { m = m; pages = need }, true)
        ]
  ]

  -- `load`: id into the scratch.
  unfoldable pub load : Instance S → Uuid → Instance S
  load self id = record self {
    m = record self.m { memory = write_uuid self.m.memory self.scratch id };
  }

  -- `result`: the 16 bytes at the scratch.
  unfoldable pub result : Instance S → Uuid
  result self = read_uuid self.m.memory self.scratch

  unfoldable pub v7_unix_millis : Instance S → Uuid → Instance S × ℕ
  unfolding load
  v7_unix_millis self id =
      let self = load self id in (self, uuid_v7_unix_millis self.m.memory self.scratch)

  unfoldable pub v7_unix_millis_in : Instance S → Uuid → ℕ → Instance S × ℕ
  unfolding load
  v7_unix_millis_in self id layout =
      let self = load self id in (self, uuid_v7_unix_millis_in self.m.memory self.scratch layout)

  unfoldable pub version : Instance S → Uuid → ℕ → Instance S × ℕ
  unfolding load
  version self id layout =
      let self = load self id in (self, uuid_version self.m.memory self.scratch layout)

  unfoldable pub variant : Instance S → Uuid → Instance S × ℕ
  unfolding load
  variant self id = let self = load self id in (self, uuid_variant self.m.memory self.scratch)

  unfoldable pub is_rfc : Instance S → Uuid → ℕ → ℕ → Instance S × Bool
  unfolding load
  is_rfc self id n layout =
      let self = load self id in (self, not (uuid_is_rfc self.m.memory self.scratch n layout == 0))

  -- The version answer and the milliseconds read back from behind the UUID.
  unfoldable pub get_timestamp : Instance S → Uuid → ℕ → Instance S × ℕ × ℕ
  unfolding load
  get_timestamp self id layout =
      let self = load self id in
      let (mem, ver) = uuid_get_timestamp self.m.memory self.scratch layout (self.scratch + 16) in
      (record self { m = record self.m { memory = mem } }, ver, load64 mem (self.scratch + 16))

  unfoldable pub v7_to_sql_order : Instance S → Uuid → Instance S × Uuid × ℕ
  unfolding load result
  v7_to_sql_order self id =
      let self = load self id in
      let (mem, rc) = uuid_v7_to_sql_order self.m.memory self.scratch in
      let self = record self { m = record self.m { memory = mem } } in (self, result self, rc)

  unfoldable pub v7_to_rfc_order : Instance S → Uuid → Instance S × Uuid × ℕ
  unfolding load result
  v7_to_rfc_order self id =
      let self = load self id in
      let (mem, rc) = uuid_v7_to_rfc_order self.m.memory self.scratch in
      let self = record self { m = record self.m { memory = mem } } in (self, result self, rc)

module _ {S : Type 0} (fill : ℕ → S → Draw S) where
  unfoldable pub new_v4 : Instance S → Instance S × Uuid × ℕ
  unfolding result
  new_v4 self =
      let (m, rc) = uuid_new_v4 fill self.m self.scratch in
      let self = record self { m = m } in (self, result self, rc)

  -- On the primary, under its lock.
  unfoldable pub new_v7 : Instance S → ℕ → Instance S × Uuid × ℕ
  unfolding result
  new_v7 self unix_millis =
      let (m, rc) = uuid_new_v7 fill self.m unix_millis self.scratch in
      let self = record self { m = m } in (self, result self, rc)

  -- `newV7Batch` on the primary: `copied` is what the destination holds once so many UUIDs of the
  -- memory are copied over it, and `out` what it held before.
  unfoldable pub batch_result :
      {A : Type 0}
      → (Memory → ℕ → ℕ → A)
      → Instance S
      → ℕ
      → A
      → Option (Module S × ℕ)
      → Option (Instance S × A × ℕ)
  batch_result copied self count out none = none
  batch_result copied self count out (some (m, rc)) =
      let self = record self { m = m } in
      if rc == 0 then some (self, copied m.memory self.scratch count, rc) else some (self, out, rc)

  unfoldable pub new_v7_batch :
      {A : Type 0} → (Memory → ℕ → ℕ → A) → Instance S → ℕ → ℕ → A → Option (Instance S × A × ℕ)
  unfolding batch_result ensure_scratch
  new_v7_batch copied self unix_millis count out =
      let (self, fits) = ensure_scratch self (count * 16) in
      if fits
      then batch_result copied self count out
          (uuid_new_v7_batch fill self.m unix_millis count self.scratch)
      else some (self, out, 3)
