-- ===== src/Tests/Generation.antt =====
-- Minting on a new instance.
use hyper_uuid.Prelude.{ℕ, ◌+◌, ◌-◌, ◌*◌, ◌^◌, ◌≡◌, arith, [], ◌∷◌, none, some}
use hyper_uuid.Stream
use hyper_uuid.Stream.{fresh, last, encode}
use hyper_uuid.Core.Module.{new}
use hyper_uuid.Core.Stream.{decide_one, decide_batch}
use hyper_uuid.Core.Stream.Refines.{settle, decide_one-reserve, decide_batch-reserve}
use hyper_uuid.Core.V7.Contract.{verdict}
use hyper_uuid.Instance.{new_instance_with, base_pages}
use hyper_uuid.Instance.Ready.{IsReady, started, new_instance_with-IsReady}
use hyper_uuid.Api.Inspect.Answers.{Gives}
use hyper_uuid.Api.Generate.{new_v7_at, mint_all}
use hyper_uuid.Api.Generate.Answers.{answer, left, new_v7_at-Gives}
use hyper_uuid.Api.Generate.Order.{IsSound, new_v7_at-IsSound}
use hyper_uuid.Api.Generate.Ascent.{Ascends, mint_all-Ascends}
use hyper_uuid.Prelude.{true}
use hyper_uuid.Uuid.{IsRfcUuid}
use hyper_uuid.Core.V4.Call.{v4_layout}
use hyper_uuid.Api.Generate.{new_v4}
use hyper_uuid.Api.Generate.Random.{random_answer, new_v4-Gives}
use hyper_uuid.Prelude.{leb}
use hyper_uuid.Instance.{ensure_scratch}
use hyper_uuid.Instance.Scratch.{Provides, ensure_scratch-Provides}
use hyper_uuid.Prelude.{pos}
use hyper_uuid.Api.Generate.{new_v7_at_time}
use hyper_uuid.Api.Generate.Clock.{SettlesAt, new_v7_at_time-SettlesAt}
use hyper_uuid.Tests.Source.{first_instance, first-IsReady, counting, counting-IsSource}

new_v7_at-Gives_example :
    Gives
      (left (verdict 1645557742000 (counting 11 5) fresh) fresh)
      (new_v7_at counting first_instance 1645557742000)
      (answer (verdict 1645557742000 (counting 11 5) fresh) 1645557742000 (counting 11 5))
unfolding started new
new_v7_at-Gives_example =
    new_v7_at-Gives counting counting-IsSource first_instance fresh first-IsReady 1645557742000

new_v7_at-IsSound_example :
    IsSound 1645557742000 (new_v7_at counting first_instance 1645557742000).1
new_v7_at-IsSound_example =
    new_v7_at-IsSound counting counting-IsSource first_instance fresh first-IsReady 1645557742000

mint_all-Ascends_example :
    Ascends none
      (mint_all counting first_instance (1645557742000 ∷ 1645557741000 ∷ 1645557742001 ∷ [])).1
mint_all-Ascends_example =
    mint_all-Ascends counting counting-IsSource 1645557740000 (omega arith)
      (1645557742000 ∷ 1645557741000 ∷ 1645557742001 ∷ []) first_instance fresh first-IsReady tt
      (omega arith)

decide_one-reserve_example :
    settle (decide_one 1000 77 ((1000 + 1) * 2 ^ 20 + 77) (encode (last (1000 * 2 ^ 20 + 0xfffff))))
    ≡ Stream.reserve 1000 1 77 (last (1000 * 2 ^ 20 + 0xfffff))
decide_one-reserve_example =
    decide_one-reserve 1000 77 (last (1000 * 2 ^ 20 + 0xfffff)) (omega arith) (omega arith)
      (omega arith)

decide_batch-reserve_example :
    settle (
      decide_batch 1000 9 77
        ((1000 + 1) * 2 ^ 20 + (77 + 9 - 1))
        (encode (last (1000 * 2 ^ 20 + 0xffffc))))
    ≡ Stream.reserve 1000 9 77 (last (1000 * 2 ^ 20 + 0xffffc))
decide_batch-reserve_example =
    decide_batch-reserve 1000 9 77 (last (1000 * 2 ^ 20 + 0xffffc)) (omega arith) (omega arith)
      (omega arith) (omega arith)

new_instance_with-IsReady_example :
    (new_instance_with {S = ℕ} base_pages 5 ≡ some first_instance) × IsReady first_instance fresh
new_instance_with-IsReady_example = new_instance_with-IsReady 5

new_v4-Gives_example :
    Gives fresh (new_v4 counting first_instance) (random_answer true (counting 16 5))
    × IsRfcUuid 4 (v4_layout (counting 16 5).bytes)
unfolding started new
new_v4-Gives_example = new_v4-Gives counting counting-IsSource first_instance fresh first-IsReady

ensure_scratch-Provides_example :
    Provides (leb 1000000 4294836224) first_instance 1000000 (ensure_scratch first_instance 1000000)
    × IsReady (ensure_scratch first_instance 1000000).0 fresh
ensure_scratch-Provides_example = ensure_scratch-Provides first_instance fresh first-IsReady 1000000

new_v7_at_time-SettlesAt_example :
    SettlesAt
      (pos 1645557742000123456)
      first_instance
      (new_v7_at_time counting first_instance (pos 1645557742000123456))
new_v7_at_time-SettlesAt_example =
    new_v7_at_time-SettlesAt counting counting-IsSource first_instance fresh first-IsReady
      (pos 1645557742000123456)
