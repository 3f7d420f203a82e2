-- ===== src/Tests/Inspection.antt =====
-- The readers on the RFC's sample.
use hyper_uuid.Prelude.{◌&&◌, if◌then◌else◌, negsuc}
use hyper_uuid.Uuid.{version_nibble, unix_ts_ms}
use hyper_uuid.Stream.{fresh}
use hyper_uuid.Core.Inspect.Reads.{has_version, has_sql_marks, variant_code}
use hyper_uuid.Api.Inspect.{version_in, variant, is_rfc_in, get_timestamp_in}
use hyper_uuid.Api.Inspect.Answers.{
  Gives, by_layout, has_version_at, is_seven, version_in-Gives, variant-Gives, is_rfc_in-Gives,
}
use hyper_uuid.Api.Inspect.Times.{time_of, get_timestamp_in-Gives}
use hyper_uuid.Prelude.{pos, ◌/◌}
use hyper_uuid.Uuid.{to_list}
use hyper_uuid.Api.Inspect.{version_bytes, is_rfc_bytes}
use hyper_uuid.Api.Inspect.Buffers.{by_buffer, version_bytes-Gives, is_rfc_bytes-Gives}
use hyper_uuid.Tests.Source.{first_instance, first-IsReady, sample, sample-IsBytes}

version_in-Gives_example :
    Gives fresh
      (version_in first_instance sample 2)
      (by_layout 2 (version_nibble sample) (if has_sql_marks sample then 7 else 0))
version_in-Gives_example =
    version_in-Gives first_instance fresh first-IsReady sample sample-IsBytes 2

variant-Gives_example : Gives fresh (variant first_instance sample) (variant_code 0x98)
variant-Gives_example = variant-Gives first_instance fresh first-IsReady sample sample-IsBytes

is_rfc_in-Gives_example :
    Gives fresh
      (is_rfc_in first_instance sample (negsuc 8) 1)
      (by_layout 1 (has_version_at (negsuc 8) sample) (is_seven (negsuc 8) && has_sql_marks sample))
is_rfc_in-Gives_example =
    is_rfc_in-Gives first_instance fresh first-IsReady sample sample-IsBytes (negsuc 8) 1

get_timestamp_in-Gives_example :
    Gives fresh
      (get_timestamp_in first_instance sample 1)
      (time_of (has_version 7 sample) (unix_ts_ms sample))
get_timestamp_in-Gives_example =
    get_timestamp_in-Gives first_instance fresh first-IsReady sample sample-IsBytes 1

version_bytes-Gives_example :
    Gives fresh
      (version_bytes first_instance (to_list sample) 1)
      (by_buffer 1 (to_list sample) (sample.b6 / 16) (if has_sql_marks sample then 7 else 0))
version_bytes-Gives_example =
    version_bytes-Gives first_instance fresh first-IsReady (to_list sample) sample-IsBytes 1

is_rfc_bytes-Gives_example : Gives fresh (is_rfc_bytes first_instance (to_list sample) (pos 7) 1) (
    by_buffer 1
      (to_list sample)
      (has_version_at (pos 7) sample)
      (is_seven (pos 7) && has_sql_marks sample))
is_rfc_bytes-Gives_example =
    is_rfc_bytes-Gives first_instance fresh first-IsReady (to_list sample) sample-IsBytes (pos 7) 1
