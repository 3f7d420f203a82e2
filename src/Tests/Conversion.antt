-- ===== src/Tests/Conversion.antt =====
-- The SQL Server order of the RFC's sample.
use hyper_uuid.Prelude.{◌<◌, ◌↔◌, arith, true, ok}
use hyper_uuid.Uuid.{IsBytes, value, sql_key, unix_ts_ms, to_list}
use hyper_uuid.Stream.{fresh}
use hyper_uuid.Core.Inspect.Reads.{has_version, has_sql_marks}
use hyper_uuid.Core.Sql.Bytes.{sql_layout}
use hyper_uuid.Core.Sql.Back.{rfc_layout}
use hyper_uuid.Api.Inspect.{version_in, get_timestamp_in}
use hyper_uuid.Api.Inspect.Answers.{Gives}
use hyper_uuid.Api.Inspect.Times.{time_of}
use hyper_uuid.Api.Sql.{
  v7_to_sql_order, v7_from_sql_order, v7_to_sql_order_bytes, v7_from_sql_order_bytes,
}
use hyper_uuid.Api.Sql.Answers.{converted, v7_to_sql_order-Gives, v7_from_sql_order-Gives}
use hyper_uuid.Api.Sql.InPlace.{
  rewritten, v7_to_sql_order_bytes-rewritten, v7_from_sql_order_bytes-rewritten,
}
use hyper_uuid.Api.Sql.RoundTrip.{
  and_then, from-to_sql_order, to-from_sql_order, version_in-to_sql_order,
  get_timestamp_in-to_sql_order, to_sql_order-sorts,
}
use hyper_uuid.Tests.Source.{
  second_instance, second-IsReady, first_instance, first-IsReady, sample, later_sample,
  sample-IsBytes, later_sample-IsBytes,
}

sql_sample-IsBytes : IsBytes (sql_layout sample)
sql_sample-IsBytes = omega arith

v7_to_sql_order-Gives_example :
    Gives fresh
      (v7_to_sql_order first_instance sample)
      (converted (has_version 7 sample) (sql_layout sample))
v7_to_sql_order-Gives_example =
    v7_to_sql_order-Gives first_instance fresh first-IsReady sample sample-IsBytes

v7_from_sql_order-Gives_example :
    Gives fresh
      (v7_from_sql_order first_instance sample)
      (converted (has_sql_marks sample) (rfc_layout sample))
v7_from_sql_order-Gives_example =
    v7_from_sql_order-Gives first_instance fresh first-IsReady sample sample-IsBytes

from-to_sql_order_example :
    Gives fresh (and_then (v7_to_sql_order first_instance sample) v7_from_sql_order) (ok sample)
from-to_sql_order_example =
    from-to_sql_order first_instance fresh first-IsReady sample sample-IsBytes (omega arith)

to-from_sql_order_example :
    Gives fresh
      (and_then (v7_from_sql_order first_instance (sql_layout sample)) v7_to_sql_order)
      (ok (sql_layout sample))
to-from_sql_order_example =
    to-from_sql_order first_instance fresh first-IsReady (sql_layout sample) sql_sample-IsBytes
      (omega arith)

version_in-to_sql_order_example :
    Gives fresh
      (and_then (v7_to_sql_order first_instance sample) λ self w. version_in self w 2)
      (ok 7)
version_in-to_sql_order_example =
    version_in-to_sql_order first_instance fresh first-IsReady sample sample-IsBytes (omega arith)

get_timestamp_in-to_sql_order_example :
    Gives fresh
      (and_then (v7_to_sql_order first_instance sample) λ self w. get_timestamp_in self w 2)
      (time_of true (unix_ts_ms sample))
get_timestamp_in-to_sql_order_example =
    get_timestamp_in-to_sql_order first_instance fresh first-IsReady sample sample-IsBytes
      (omega arith)

to_sql_order-sorts_example :
    (value sample < value later_sample)
    ↔ (sql_key (sql_layout sample) < sql_key (sql_layout later_sample))
to_sql_order-sorts_example =
    to_sql_order-sorts first_instance second_instance fresh fresh first-IsReady second-IsReady
      sample later_sample (sql_layout sample) (sql_layout later_sample) sample-IsBytes
      later_sample-IsBytes (omega arith) (omega arith)
      (v7_to_sql_order-Gives first_instance fresh first-IsReady sample sample-IsBytes).0
      (v7_to_sql_order-Gives second_instance fresh second-IsReady later_sample
        later_sample-IsBytes).0

v7_to_sql_order_bytes-rewritten_example :
    Gives fresh
      (v7_to_sql_order_bytes first_instance (to_list sample))
      (rewritten (to_list sample) (has_version 7 sample) (sql_layout sample))
v7_to_sql_order_bytes-rewritten_example =
    v7_to_sql_order_bytes-rewritten first_instance fresh first-IsReady (to_list sample)
      sample-IsBytes

v7_from_sql_order_bytes-rewritten_example :
    Gives fresh
      (v7_from_sql_order_bytes first_instance (to_list sample))
      (rewritten (to_list sample) (has_sql_marks sample) (rfc_layout sample))
v7_from_sql_order_bytes-rewritten_example =
    v7_from_sql_order_bytes-rewritten first_instance fresh first-IsReady (to_list sample)
      sample-IsBytes
