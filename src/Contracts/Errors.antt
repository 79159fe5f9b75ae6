-- ===== src/Contracts/Errors.antt =====
-- plimsoll_contracts/errors.py. The prose of a message is not modelled, `details` is.
use bonerepo.Prelude.{ℕ, Option, List}
use bonerepo.Prelude.Texts.{Text}

pub data ErrorCode : Type 0 where
  validation_failed unauthenticated permission_denied not_found method_not_allowed conflict :
      ErrorCode
  resource_in_use idempotency_key_reused test_not_runnable target_not_allowed : ErrorCode
  insufficient_capacity repo_unreachable rate_limited internal : ErrorCode

unfoldable pub http_status_for_code : ErrorCode → ℕ
http_status_for_code validation_failed = 422
http_status_for_code unauthenticated = 401
http_status_for_code permission_denied = 403
http_status_for_code not_found = 404
http_status_for_code method_not_allowed = 405
http_status_for_code conflict = 409
http_status_for_code resource_in_use = 409
http_status_for_code idempotency_key_reused = 409
http_status_for_code test_not_runnable = 422
http_status_for_code target_not_allowed = 422
http_status_for_code insufficient_capacity = 422
http_status_for_code repo_unreachable = 422
http_status_for_code rate_limited = 429
http_status_for_code internal = 500

-- The dictionaries that the services put under `details`, a constructor for each shape.
pub data Details : Type 0 where
  entry : Text → Details
  credential_id : ℕ → Details
  expected_version : ℕ → Details
  script_repos : List Text → Details
  -- `generatorPoolId` and `scriptRepoIds`
  references : Option ℕ → List ℕ → Details
  ref : Text → Details
  -- the field paths of a request that does not validate
  fields : List Text → Details

pub record ErrorBody : Type 0 where
  pub code : ErrorCode
  pub details : Option Details
  pub request_id : Text

pub record ErrorEnvelope : Type 0 where
  pub error : ErrorBody

-- ErrorEnvelope.of
unfoldable pub envelope_of : ErrorCode → Text → Option Details → ErrorEnvelope
envelope_of code request_id details = record {
  error = record { code = code; details = details; request_id = request_id };
}
