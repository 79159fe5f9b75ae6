-- ===== src/Errors.antt =====
-- apps/api/plimsoll_api/errors.py and middleware.py: what a raised exception becomes on the wire.
pub mod Statuses
mod Tests
use bonerepo.Prelude.{ℕ, Option, none, some, List, ◌==◌, if◌then◌else◌}
use bonerepo.Prelude.Texts.{Text, is_empty}
use bonerepo.Contracts.Errors.{
  ErrorCode, validation_failed, unauthenticated, permission_denied, not_found, method_not_allowed,
  conflict, rate_limited, internal, Details, fields, ErrorEnvelope, envelope_of,
  http_status_for_code,
}

pub record PlimsollError : Type 0 where
  pub code : ErrorCode
  pub details : Option Details

-- What may reach a registered handler: `except Exception` takes the rest.
pub data Raised : Type 0 where
  plimsoll : PlimsollError → Raised
  http_exception : ℕ → Raised
  request_validation : List Text → Raised
  unhandled : Raised

-- `_STATUS_TO_CODE.get(status, ErrorCode.INTERNAL)`
unfoldable pub status_to_code : ℕ → ErrorCode
status_to_code status =
    if status == 401
    then unauthenticated
    else if status == 403
    then permission_denied
    else if status == 404
    then not_found
    else if status == 405
    then method_not_allowed
    else if status == 409
    then conflict
    else if status == 422
    then validation_failed
    else if status == 429
    then rate_limited
    else internal

-- `_request_id`: the scope's value if it is a text that is not empty, else the context variable's.
unfoldable pub request_id_of : Option Text → Text → Text
request_id_of none context = context
request_id_of (some scoped) context = if is_empty scoped then context else scoped

pub record JsonResponse : Type 0 where
  pub status_code : ℕ
  pub content : ErrorEnvelope

-- `_envelope`
unfoldable pub envelope : Text → ErrorCode → Option Details → JsonResponse
unfolding envelope_of http_status_for_code
envelope request_id code details = record {
  status_code = http_status_for_code code;
  content = envelope_of code request_id details;
}

-- The four handlers of `register_error_handlers`.
unfoldable pub handle_raised : Text → Raised → JsonResponse
unfolding envelope status_to_code
handle_raised rid (plimsoll e) = envelope rid e.code e.details
handle_raised rid (http_exception status) = envelope rid (status_to_code status) none
handle_raised rid (request_validation problems) =
    envelope rid validation_failed (some (fields problems))
handle_raised rid unhandled = envelope rid internal none

-- `request_id_middleware`: the header if it is there and not empty, else a fresh identifier.
unfoldable pub choose_request_id : Option Text → Text → Text
choose_request_id none fresh = fresh
choose_request_id (some given) fresh = if is_empty given then fresh else given
