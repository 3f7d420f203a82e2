-- ===== src/Api/Version.antt =====
-- The version of the core: `Xhyperuuid_version` of go/internal/core/core.go, `packedVersion` of
-- go/core.go and the three numbers that `NativeVersion` prints.
use hyper_uuid.Prelude.{ℕ, ◌≡◌, refl}
use hyper_uuid.Word.{◌and◌, shr, u32}
use hyper_uuid.Instance.{Instance}
use hyper_uuid.Core.Module.{Module}

module _ {S : Type 0} where
  unfoldable pub hyperuuid_version : Module S → ℕ
  hyperuuid_version m = 65792

  -- On the instance that the call acquires.
  unfoldable pub packed_version : Instance S → ℕ
  unfolding hyperuuid_version
  packed_version self = u32 (hyperuuid_version self.m)

  unfoldable pub native_version : Instance S → ℕ × ℕ × ℕ
  unfolding packed_version
  native_version self = let v = packed_version self in (shr v 16, shr v 8 and 0xff, v and 0xff)

  native_version_lem : (self : Instance S) → native_version self ≡ (1, 1, 0)
  unfolding native_version packed_version hyperuuid_version
  native_version_lem self = refl
