-- ===== src/Tests/Statuses.antt =====
-- Source/CBLStatus.m: statuses at concrete inputs.
use couchbase_lite_ios.Base.{ℕ, ◌≡◌, refl, not, some, ltb, if◌then◌else◌}
use couchbase_lite_ios.Base.Bytes.{codes}
use couchbase_lite_ios.Base.Int.{pos, negsuc}
use couchbase_lite_ios.Status.{
  Foundation, code, is_error, db_busy, canceled, timed_out, NsError, to_http_status, find_status,
  from_ns_error, map_error, to_out_ns_error,
}
use couchbase_lite_ios.Base.Bytes.{equal}
use couchbase_lite_ios.Status.Laws.{from_ns_error-to_out_ns_error}

abbrev foundation : Foundation
foundation = record {
  Url = ℕ;
  Info = ℕ;
  make_info = λ url reason extra. 0;
  localized_string = λ status. codes "unknown";
  url_domain = codes "NSURLErrorDomain";
  cocoa_domain = codes "NSCocoaErrorDomain";
  bad_url = negsuc 999;
  user_cancelled_authentication = negsuc 1011;
  user_authentication_required = negsuc 1012;
  cannot_find_host = negsuc 1002;
  redirect_to_non_existent_location = negsuc 1009;
  unsupported_url = negsuc 1001;
  app_transport_security_requires_secure_connection = negsuc 1021;
  resource_unavailable = negsuc 1007;
  cannot_connect_to_host = negsuc 1003;
  network_connection_lost = negsuc 1004;
  dns_lookup_failed = negsuc 1005;
  not_connected_to_internet = negsuc 1008;
  url_timed_out = negsuc 1000;
  unknown = negsuc 0;
  cancelled = negsuc 998;
  file_read_no_permission = pos 257;
  file_write_no_permission = pos 513;
  feature_unsupported = pos 3328;
}

abbrev time_out : NsError foundation
time_out = record { domain = codes "NSURLErrorDomain"; error_code = negsuc 1000; user_info = 0 }

status_run :
    (to_http_status foundation (code db_busy) ≡ (500, codes "Database locked"))
    × (to_http_status foundation (code canceled) ≡ (596, codes "unknown"))
    × (from_ns_error foundation (some time_out) (pos 0) ≡ pos (code timed_out))
unfolding to_http_status find_status from_ns_error map_error equal
status_run = (refl, refl, refl)

from_ns_error-to_out_ns_error_example :
    (from_ns_error foundation (to_out_ns_error foundation 404).1 (pos 7)
      ≡ pos (if ltb 404 300 then 200 else (to_http_status foundation 404).0))
    × ((to_out_ns_error foundation 404).0 ≡ not (is_error (to_http_status foundation 404).0))
from_ns_error-to_out_ns_error_example = from_ns_error-to_out_ns_error foundation 404 (pos 7)
