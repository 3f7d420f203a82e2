-- ===== src/Tests/Randomness.antt =====
-- The random sources over a counted world: the reader, the clock and the cipher are concrete.
use mathlib.Core.Path.{subst}
use hyper_uuid.Prelude.{
  ℕ, ◌+◌, ◌*◌, ◌%◌, ◌<◌, ◌≡◌, ◌≢◌, ◌⊎◌, ◌≤◌, refl, arith, ◌∷◌, [], Option, none, some, true, false,
}
use hyper_uuid.Random.{Reading, IsReader}
use hyper_uuid.Random.Aes.{AesSource, new_aes_source, fill}
use hyper_uuid.Random.Rounds.{IsCipher}
use hyper_uuid.Random.Contract.{Draws, new_aes_source-IsValid, fill-Draws}
use hyper_uuid.Random.Keystream.{IsServing, Serves, fill-Serves, fill-from-keyless}
use hyper_uuid.Random.Choice.{Fit, aes, source_fill, Agrees, source_fill-Agrees}
use hyper_uuid.Random.Minting.{new_instance, new_instance-Ascends}
use hyper_uuid.Instance.{Instance, base_pages}
use hyper_uuid.Api.Generate.{mint_all}
use hyper_uuid.Api.Generate.Ascent.{Ascends}

-- The world counts the calls; every call fills its buffer.
abbrev reads : ℕ → ℕ → Reading ℕ
reads n w = record { full = true; copied = n; bytes = λ i. (w * 3 + i) % 256; next = w + 1 }

reads-IsReader : IsReader reads
reads-IsReader = record {
  complete = λ n w e. refl;
  within = λ n w. omega arith;
  bytes_lt = λ n w i. omega arith;
}

-- No call fills its buffer.
abbrev falls_short : ℕ → ℕ → Reading ℕ
falls_short n w = record { full = false; copied = 0; bytes = λ i. 0; next = w + 1 }

abbrev ticks : ℕ → ℕ × ℕ
ticks w = (w, w + 1)

abbrev shifts : (ℕ → ℕ) → Option (ℕ → ℕ)
shifts key = some (λ i. (key 0 + i) % 256)

some_parts : {A : Type 0} {a b : A} → some a ≡ some b → a ≡ b
some_parts h = cc

shifts-IsCipher : IsCipher shifts
shifts-IsCipher key ks e i =
    let same = some_parts e in subst (λ (f : ℕ → ℕ). f i < 256) same (omega arith)

fill-Draws_example : Draws 6004 (fill reads ticks shifts 6004 (new_aes_source 7))
fill-Draws_example =
    fill-Draws reads ticks shifts shifts-IsCipher 6004 (new_aes_source 7) (new_aes_source-IsValid 7)

-- A key of which 1000 bytes are used, 100 of them unserved.
abbrev halfway : AesSource ℕ
halfway = record {
  world = 7;
  key = λ i. 0;
  stream = some (record { keystream = λ i. i % 256; position = 1000 });
  keyed_at = 5;
  generated = 1000;
  buf = λ i. (i + 488) % 256;
  off = 412;
}

halfway-IsServing : IsServing (λ i. i % 256) 900 halfway
halfway-IsServing = record { keyed = refl; unserved = refl; reached = refl; within = omega arith }

fill-Serves_example : Serves (λ i. i % 256) 900 300 (fill reads ticks shifts 300 halfway)
fill-Serves_example =
    fill-Serves reads ticks shifts (λ i. i % 256) 900 halfway halfway-IsServing (omega arith) 300
      (omega arith) (omega arith)

fill-from-keyless_example :
    Serves (λ i. (21 + i) % 256) 0 600 (fill reads ticks shifts 600 (new_aes_source 7))
unfolding new_aes_source
fill-from-keyless_example =
    fill-from-keyless reads ticks shifts (new_aes_source 7) refl refl (λ i. (21 + i) % 256) refl 600
      (omega arith) (omega arith)

abbrev stream_source : Fit ℕ
stream_source = (aes (new_aes_source 7), new_aes_source-IsValid 7)

source_fill-Agrees_example :
    Agrees reads reads-IsReader ticks shifts shifts-IsCipher 300 stream_source.0
      (source_fill reads reads-IsReader ticks shifts shifts-IsCipher 300 stream_source)
    × (((source_fill reads reads-IsReader ticks shifts shifts-IsCipher 300 stream_source).errno ≢ 0)
        ⊎ ((source_fill reads reads-IsReader ticks shifts shifts-IsCipher 300 stream_source).written
            ≡ 300))
    × ((source_fill reads reads-IsReader ticks shifts shifts-IsCipher 300 stream_source).written
        ≤ 300)
source_fill-Agrees_example =
    source_fill-Agrees reads reads-IsReader ticks shifts shifts-IsCipher 300 stream_source

new_instance-Ascends_example :
    (primary : Instance (Fit ℕ)) × (new_instance true false 7 base_pages ≡ some primary)
    × Ascends none
        (mint_all
          (source_fill reads reads-IsReader ticks shifts shifts-IsCipher)
          primary
          (1645557742000 ∷ 1645557741000 ∷ [])).1
new_instance-Ascends_example =
    new_instance-Ascends reads reads-IsReader ticks shifts shifts-IsCipher true false 7
      1645557740000 (omega arith) (1645557742000 ∷ 1645557741000 ∷ []) (omega arith)
