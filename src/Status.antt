-- ===== src/Status.antt =====
-- Source/CBLStatus.h and Source/CBLStatus.m: status codes, and the errors of Foundation that stand for
-- them. The strings and error codes of Foundation, and its dictionaries, are parameters.
pub mod Laws
use couchbase_lite_ios.Base.{
  ℕ, ◌≡◌, Bool, true, false, Option, none, some, List, [], ◌∷◌, ◌==◌, leb, ltb, not, if◌then◌else◌,
}
use couchbase_lite_ios.Base.Bytes.{Bytes, codes, equal}
use couchbase_lite_ios.Base.Int.{ℤ, pos, eq_ℤ}

pub data Status : Type 0 where
  ok created accepted not_modified bad_request unauthorized forbidden not_found : Status
  method_not_allowed not_acceptable conflict gone duplicate unsupported_type server_error : Status
  not_implemented service_unavailable timed_out bad_encoding bad_attachment : Status
  attachment_not_found bad_json bad_id bad_param deleted invalid_storage_type filesystem_locked :
      Status
  bad_changes_feed changes_feed_truncated upstream_error db_error corrupt_error : Status
  attachment_error callback_error exception db_busy canceled : Status

abbrev pub code : Status → ℕ
code ok = 200
code created = 201
code accepted = 202
code not_modified = 304
code bad_request = 400
code unauthorized = 401
code forbidden = 403
code not_found = 404
code method_not_allowed = 405
code not_acceptable = 406
code conflict = 409
code gone = 410
code duplicate = 412
code unsupported_type = 415
code server_error = 500
code not_implemented = 501
code service_unavailable = 503
code timed_out = 504
code bad_encoding = 490
code bad_attachment = 491
code attachment_not_found = 492
code bad_json = 493
code bad_id = 494
code bad_param = 495
code deleted = 496
code invalid_storage_type = 497
code filesystem_locked = 498
code bad_changes_feed = 587
code changes_feed_truncated = 588
code upstream_error = 589
code db_error = 590
code corrupt_error = 591
code attachment_error = 592
code callback_error = 593
code exception = 594
code db_busy = 595
code canceled = 596

-- `CBLStatusIsError`; a status is any number, whether the enumeration names it or not.
abbrev pub is_error : ℕ → Bool
is_error status = leb 400 status

pub record StatusMapEntry : Type 0 where
  pub status : ℕ
  pub http_status : ℕ
  pub message : Bytes

abbrev pub entry : Status → ℕ → Bytes → StatusMapEntry
entry status http_status message = record {
  status = code status;
  http_status = http_status;
  message = message;
}

abbrev pub status_map : List StatusMapEntry
status_map =
    entry bad_request 400 (codes "bad_request")
    ∷ entry unauthorized 401 (codes "unauthorized")
    ∷ entry not_found 404 (codes "not_found")
    ∷ entry forbidden 403 (codes "forbidden")
    ∷ entry method_not_allowed 405 (codes "method_not_allowed")
    ∷ entry not_acceptable 406 (codes "not_acceptable")
    ∷ entry conflict 409 (codes "conflict")
    ∷ entry duplicate 412 (codes "file_exists")
    ∷ entry unsupported_type 415 (codes "bad_content_type")
    ∷ entry bad_encoding 400 (codes "Bad data encoding")
    ∷ entry bad_attachment 400 (codes "Invalid attachment")
    ∷ entry attachment_not_found 404 (codes "Attachment not found")
    ∷ entry bad_json 400 (codes "Invalid JSON")
    ∷ entry bad_id 400 (codes "Invalid database/document/revision ID")
    ∷ entry bad_param 400 (codes "Invalid parameter in HTTP query or JSON body")
    ∷ entry deleted 404 (codes "not_found")
    ∷ entry invalid_storage_type 406 (codes "Can't open database in that storage format")
    ∷ entry upstream_error 502 (codes "Invalid response from remote replication server")
    ∷ entry bad_changes_feed 502 (codes "Server changes feed parse error")
    ∷ entry changes_feed_truncated 502 (codes "Server changes feed truncated")
    ∷ entry db_error 500 (codes "Database error!")
    ∷ entry corrupt_error 500 (codes "Invalid data in database")
    ∷ entry attachment_error 500 (codes "Attachment store error")
    ∷ entry callback_error 500 (codes "Application callback block failed")
    ∷ entry exception 500 (codes "Internal error")
    ∷ entry db_busy 500 (codes "Database locked")
    ∷ entry filesystem_locked 500 (codes "Device locked, file unavailable")
    ∷ []

-- Foundation: its error codes and domains, the text for an HTTP status, and the dictionary of an
-- error made of a URL, a reason and more entries.
pub record Foundation : Type 1 where
  pub Url : Type 0
  pub Info : Type 0
  pub make_info : Option Url → Bytes → Option Info → Info
  pub localized_string : ℕ → Bytes
  pub url_domain : Bytes
  pub cocoa_domain : Bytes
  pub bad_url : ℤ
  pub user_cancelled_authentication : ℤ
  pub user_authentication_required : ℤ
  pub cannot_find_host : ℤ
  pub redirect_to_non_existent_location : ℤ
  pub unsupported_url : ℤ
  pub app_transport_security_requires_secure_connection : ℤ
  pub resource_unavailable : ℤ
  pub cannot_connect_to_host : ℤ
  pub network_connection_lost : ℤ
  pub dns_lookup_failed : ℤ
  pub not_connected_to_internet : ℤ
  pub url_timed_out : ℤ
  pub unknown : ℤ
  pub cancelled : ℤ
  pub file_read_no_permission : ℤ
  pub file_write_no_permission : ℤ
  pub feature_unsupported : ℤ

abbrev pub http_domain : Bytes
http_domain = codes "CBLHTTP"

-- The loop of `CBLStatusToHTTPStatus`.
unfoldable pub find_status : List StatusMapEntry → ℕ → Bytes → ℕ × Bytes
find_status [] status message = (status, message)
find_status (e ∷ rest) status message =
    let later = find_status rest status message in
    if e.status == status then (e.http_status, e.message) else later

module _ (foundation : Foundation) where
  open foundation use {Url, Info, make_info, localized_string, url_domain, cocoa_domain}

  pub record NsError : Type 0 where
    pub domain : Bytes
    pub error_code : ℤ
    pub user_info : Info

  -- The status, and what is stored at `outMessage`.
  unfoldable pub to_http_status : ℕ → ℕ × Bytes
  unfolding find_status
  to_http_status status = find_status status_map status (localized_string status)

  unfoldable pub to_ns_error_with_info : ℕ → Option Bytes → Option Url → Option Info → NsError
  unfolding to_http_status
  to_ns_error_with_info status reason url extra_info =
      let (http_status, status_message) = to_http_status status in
      let reason' : Bytes = elim reason [ none ↦ status_message | some text ↦ text ] in
      record {
        domain = http_domain;
        error_code = pos http_status;
        user_info = make_info url reason' extra_info;
      }

  unfoldable pub to_ns_error : ℕ → NsError
  unfolding to_ns_error_with_info
  to_ns_error status = to_ns_error_with_info status none none none

  -- The result, and what is stored at `outError`.
  unfoldable pub to_out_ns_error : ℕ → Bool × Option NsError
  unfolding to_ns_error
  to_out_ns_error status =
      (not (is_error status), (if ltb status 300 then none else some (to_ns_error status)))

  -- A code of 0 ends the table.
  unfoldable pub map_error : ℤ → List (ℤ × ℕ) → ℕ → ℕ
  map_error error_code [] default_status = default_status
  map_error error_code ((key, status) ∷ rest) default_status =
      let later = map_error error_code rest default_status in
      if eq_ℤ key (pos 0) then default_status else if eq_ℤ key error_code then status else later

  abbrev pub url_error_to_status_map : List (ℤ × ℕ)
  url_error_to_status_map =
      (foundation.bad_url, code bad_request)
      ∷ (foundation.user_cancelled_authentication, code unauthorized)
      ∷ (foundation.user_authentication_required, code unauthorized)
      ∷ (foundation.cannot_find_host, code not_found)
      ∷ (foundation.redirect_to_non_existent_location, code not_found)
      ∷ (foundation.unsupported_url, code not_implemented)
      ∷ (foundation.app_transport_security_requires_secure_connection, code forbidden)
      ∷ (foundation.resource_unavailable, code service_unavailable)
      ∷ (foundation.cannot_connect_to_host, code service_unavailable)
      ∷ (foundation.network_connection_lost, code service_unavailable)
      ∷ (foundation.dns_lookup_failed, code service_unavailable)
      ∷ (foundation.not_connected_to_internet, code service_unavailable)
      ∷ (foundation.network_connection_lost, code service_unavailable)
      ∷ (foundation.url_timed_out, code timed_out)
      ∷ (foundation.unknown, code server_error)
      ∷ (foundation.cancelled, code canceled)
      ∷ (pos 0, 0)
      ∷ []

  abbrev pub cocoa_error_to_status_map : List (ℤ × ℕ)
  cocoa_error_to_status_map =
      (foundation.file_read_no_permission, code filesystem_locked)
      ∷ (foundation.file_write_no_permission, code filesystem_locked)
      ∷ (foundation.feature_unsupported, code not_implemented)
      ∷ (pos 0, 0)
      ∷ []

  unfoldable pub from_ns_error : Option NsError → ℤ → ℤ
  unfolding map_error
  from_ns_error none default_status = pos (code ok)
  from_ns_error (some error) default_status =
      if equal error.domain http_domain
      then error.error_code
      else if equal error.domain url_domain
      then pos (map_error error.error_code url_error_to_status_map (code upstream_error))
      else if equal error.domain cocoa_domain
      then pos (map_error error.error_code cocoa_error_to_status_map (code server_error))
      else default_status
