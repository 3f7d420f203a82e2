-- ===== src/Instance/Ready.antt =====
-- Instances between two calls, and what loading a UUID into one leaves alone.
use hyper_uuid.Prelude.{◌+◌, ◌*◌, ◌^◌, ◌≤◌, ◌≡◌, refl, some, arith}
use hyper_uuid.Uuid.{Uuid}
use hyper_uuid.Stream.{Stream, fresh}
use hyper_uuid.Core.Module.{new}
use hyper_uuid.Core.V7.Contract.{Holds}
use hyper_uuid.Memory.{write_range}
use hyper_uuid.Instance.{Instance, new_instance_with, base_pages, load}

-- The module holds the stream; the scratch is behind its two pages and has at least one.
pub record IsReady {S : Type 0} (self : Instance S) (s : Stream) : Type 0 where
  pub holds : Holds self.m s
  pub placed : self.scratch ≡ 131072
  pub paged : 1 ≤ self.pages
  pub sized : self.m.size ≡ (2 + self.pages) * 2 ^ 16

module _ {S : Type 0} where
  pub load-IsReady :
      (self : Instance S) (s : Stream) (id : Uuid) → IsReady self s → IsReady (load self id) s
  unfolding load
  load-IsReady self s id h = record {
    holds = rw h.placed (record {
      stack = h.holds.stack;
      word = h.holds.word;
      valid = h.holds.valid;
      t0 = h.holds.t0;
      t1 = h.holds.t1;
      t2 = h.holds.t2;
      hash_ab = h.holds.hash_ab;
      hash_cd = h.holds.hash_cd;
      hash_e = h.holds.hash_e;
    });
    placed = h.placed;
    paged = h.paged;
    sized = h.sized;
  }

  -- A new instance with one page of scratch.
  unfoldable pub started : S → Instance S
  started src = record {
    m = record (new src) {
      memory = write_range (new src).memory 131072 65536 (λ i. 0);
      size = 196608;
    };
    scratch = 131072;
    pages = 1;
  }

  pub started-IsReady : (src : S) → IsReady (started src) fresh
  unfolding started new
  started-IsReady src = record {
    holds = record {
      stack = refl;
      word = refl;
      valid = tt;
      t0 = refl;
      t1 = refl;
      t2 = refl;
      hash_ab = refl;
      hash_cd = refl;
      hash_e = refl;
    };
    placed = refl;
    paged = omega arith;
    sized = refl;
  }

  -- With any source, a new instance with one page of scratch exists; its memory has three pages
  -- with the scratch behind the first two, and it is ready, its stream fresh.
  pub new_instance_with-IsReady :
      (src : S)
      → (new_instance_with base_pages src ≡ some (started src)) × IsReady (started src) fresh
  unfolding new_instance_with started
  new_instance_with-IsReady src = (refl, started-IsReady src)
