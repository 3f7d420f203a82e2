-- ===== src/Tests/Source.antt =====
-- A random source for the runs: it counts its calls, and its bytes depend on the count.
use hyper_uuid.Prelude.{ℕ, ◌+◌, ◌*◌, ◌%◌, refl, arith}
use hyper_uuid.Uuid.{Uuid, IsBytes}
use hyper_uuid.Core.Module.{Draw, IsSource}
use hyper_uuid.Stream.{fresh}
use hyper_uuid.Instance.{Instance}
use hyper_uuid.Instance.Ready.{IsReady, started, started-IsReady}

abbrev pub counting : ℕ → ℕ → Draw ℕ
counting n calls = record {
  errno = 0;
  written = n;
  bytes = λ i. (calls * 31 + i * 7) % 256;
  next = calls + 1;
}

pub counting-IsSource : IsSource counting
counting-IsSource = record {
  complete = λ n s e. refl;
  within = λ n s. omega arith;
  bytes_lt = λ n s i. omega arith;
}

-- A version 7 of the RFC's appendix A.6, and what it is in SQL Server order.
abbrev pub sample : Uuid
sample = record {
  b0 = 0x01;
  b1 = 0x7f;
  b2 = 0x22;
  b3 = 0xe2;
  b4 = 0x79;
  b5 = 0xb0;
  b6 = 0x7c;
  b7 = 0xc3;
  b8 = 0x98;
  b9 = 0xc4;
  b10 = 0xdc;
  b11 = 0x0c;
  b12 = 0x0c;
  b13 = 0x07;
  b14 = 0x39;
  b15 = 0x8f;
}

abbrev pub later_sample : Uuid
later_sample = record sample { b5 = 0xb1 }

pub sample-IsBytes : IsBytes sample
sample-IsBytes = omega arith

pub later_sample-IsBytes : IsBytes later_sample
later_sample-IsBytes = omega arith

-- Two new instances.
abbrev pub first_instance : Instance ℕ
first_instance = started 5

abbrev pub second_instance : Instance ℕ
second_instance = started 6

pub first-IsReady : IsReady first_instance fresh
first-IsReady = started-IsReady 5

pub second-IsReady : IsReady second_instance fresh
second-IsReady = started-IsReady 6
