-- ===== src/Random/Minting.antt =====
-- Version 7 from a new instance on the source that `newSource` picks: go/core.go, `newInstance`.
use hyper_uuid.Prelude.{ℕ, ◌+◌, ◌≤◌, ◌≡◌, Bool, List, none, some, Option}
use hyper_uuid.Stream.{fresh, last_milli}
use hyper_uuid.Random.{Reading, IsReader}
use hyper_uuid.Random.Rounds.{IsCipher}
use hyper_uuid.Random.Choice.{Fit, new_source, new_source-IsFit, source_fill, source_fill-IsSource}
use hyper_uuid.Instance.{Instance, new_instance_with, base_pages}
use hyper_uuid.Instance.Ready.{started, new_instance_with-IsReady}
use hyper_uuid.Api.Generate.{mint_all}
use hyper_uuid.Api.Generate.Ascent.{Ascends, AreWithin, mint_all-Ascends}

-- `newInstance(pages)`: the source that is picked for this host, over the world.
unfoldable pub new_instance : {W : Type 0} → Bool → Bool → W → ℕ → Option (Instance (Fit W))
new_instance accelerated fips world pages =
    new_instance_with pages
      (new_source accelerated fips world, new_source-IsFit accelerated fips world)

module _ {W : Type 0} (read : ℕ → W → Reading W) (reader : IsReader read) (clock : W → ℕ × W)
    (ctr : (ℕ → ℕ) → Option (ℕ → ℕ)) (cipher : IsCipher ctr) (accelerated fips : Bool)
    (world : W) where
  -- On every host, accelerated or not and in FIPS mode or not, the primary instance is created on
  -- the source that is picked, and calls of `NewV7At` on it one after another, at timestamps in
  -- any order within the ten seconds from `base`, return version 7 UUIDs that are strictly
  -- increasing, errors of exhaustion or of the random source aside. The reader keeps the contract
  -- of `io.ReadFull`, keystreams are bytes, and `base` is ten seconds before the end of the
  -- stream or earlier.
  pub new_instance-Ascends :
      (base : ℕ)
      → base + 10000 ≤ last_milli
      → (ts : List ℕ) → AreWithin base ts
      → (primary : Instance (Fit W)) × (new_instance accelerated fips world base_pages
          ≡ some primary)
        × Ascends none (mint_all (source_fill read reader clock ctr cipher) primary ts).1
  unfolding new_instance
  new_instance-Ascends base h ts within =
      let src : Fit W =
        (new_source accelerated fips world, new_source-IsFit accelerated fips world) in
      let ready = new_instance_with-IsReady src in
      (
        started src,
        ready.0,
        mint_all-Ascends (source_fill read reader clock ctr cipher)
            (source_fill-IsSource read reader clock ctr cipher) base h ts (started src) fresh
            ready.1 tt within,
      )
