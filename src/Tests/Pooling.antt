-- ===== src/Tests/Pooling.antt =====
-- A run of two overlapping calls: the first has the primary, the second a new instance.
use hyper_uuid.Prelude.{ℕ, refl, [], ◌∷◌, some}
use hyper_uuid.Instance.Ready.{new_instance_with-IsReady}
use hyper_uuid.Api.Generate.{new_v4, new_v7_at}
use hyper_uuid.Pool.{
  locked, pooled, Package, acquire, release, variant_call, v4_call, take_primary, take_new,
  call_locked, call_pooled, give_back, mint, Reach, here, next,
}
use hyper_uuid.Pool.Invariant.{IsSound, Reach-IsSound}
use hyper_uuid.Stream.{fresh}
use hyper_uuid.Api.Inspect.{variant}
use hyper_uuid.Tests.Source.{
  first_instance, second_instance, first-IsReady, counting, counting-IsSource, sample,
  sample-IsBytes,
}

abbrev at_first : Package ℕ
at_first = record { primary = some first_instance; pool = []; held = [] }

at_first-IsSound : IsSound at_first
at_first-IsSound = record { free = (fresh, first-IsReady); kept = tt; usable = tt; one = refl }

abbrev at_last : Package ℕ
at_last = record {
  primary = some (new_v7_at counting (new_v4 counting first_instance).0 1645557742000).0;
  pool = [];
  held = pooled (variant second_instance sample).0 ∷ [];
}

run : Reach counting at_first at_last
unfolding acquire release
run =
    next
      (next
        (next
          (next
            (next (next here (take_primary first_instance first_instance refl))
              (take_new 6 second_instance (new_instance_with-IsReady 6).0))
            (call_locked (pooled second_instance ∷ []) [] first_instance
              (new_v4 counting first_instance).0 refl v4_call))
          (call_pooled [] (locked (new_v4 counting first_instance).0 ∷ []) second_instance
            (variant second_instance sample).0 refl (variant_call sample sample-IsBytes)))
        (give_back (pooled (variant second_instance sample).0 ∷ []) []
          (locked (new_v4 counting first_instance).0) refl))
      (mint (new_v4 counting first_instance).0 1645557742000 refl)

Reach-IsSound_example : IsSound at_last
Reach-IsSound_example =
    Reach-IsSound counting counting-IsSource at_first at_last run at_first-IsSound
