-- ===== src/Api/Name/OneOff.antt =====
-- An instance made for one long name.
use hyper_uuid.Prelude.{
  ℕ, ◌+◌, ◌-◌, ◌*◌, ◌^◌, ◌<◌, ◌≤◌, ◌≡◌, refl, arith, some, ne→not-==, le→not-ltb,
}
use hyper_uuid.Memory.{write_range}
use hyper_uuid.Stream.{fresh}
use hyper_uuid.Core.Module.{new, memory_grow}
use hyper_uuid.Instance.{Instance, new_instance_with, max_int, host_max_pages}
use hyper_uuid.Instance.Ready.{IsReady}

module _ {S : Type 0} (src : S) (pages : ℕ) (positive : 0 < pages) where
  -- A new instance with so many pages of scratch.
  unfoldable pub sized_for : Instance S
  sized_for = record {
    m = record (new src) {
      memory = write_range (new src).memory 131072 ((2 + pages) * 2 ^ 16 - 131072) (λ i. 0);
      size = (2 + pages) * 2 ^ 16;
    };
    scratch = 131072;
    pages = pages;
  }

  memory_grow-sized_for :
      2 + pages ≤ 65536 → memory_grow max_int (new src) pages host_max_pages ≡ some (sized_for.m, 2)
  unfolding memory_grow sized_for new
  memory_grow-sized_for room =
      rw (ne→not-== pages 0 (λ e. omega (arith, positive)), le→not-ltb 65536 (2 + pages) room) refl

  pub new_instance_with-sized_for : 2 + pages ≤ 65536 → new_instance_with pages src ≡ some sized_for
  unfolding new_instance_with sized_for
  new_instance_with-sized_for room = rw (memory_grow-sized_for room, new_instance_with) refl

  pub sized_for-IsReady : IsReady sized_for fresh
  unfolding sized_for new
  sized_for-IsReady = record {
    holds = record {
      stack = refl;
      word = refl;
      valid = tt;
      t0 = refl;
      t1 = refl;
      t2 = refl;
      hash_ab = refl;
      hash_cd = refl;
      hash_e = refl;
    };
    placed = refl;
    paged = positive;
    sized = refl;
  }
