-- ===== src/Errors/Response.antt =====
-- backend/src/middleware/error.ts: the central error handler.
use transhub.Prelude.{ℕ, ◌≤◌, ◌≡◌, ◌⊎◌, Option, none, some, arith, ◌==◌, leb, if◌then◌else◌}
use transhub.Errors.{
  AppError, unauthorized_error, forbidden_error, ErrorCode, conflict_of, payload_too_large,
  bad_request, internal_code, conflict, status_code, error_code, Thrown, app, unique_violation,
  foreign_key_violation, prisma_fault, body_parser, other, issue_reported,
}

pub data Category : Type 0 where
  auth authorization internal database api : Category

pub data Level : Type 0 where
  warning error : Level

pub record Response : Type 0 where
  pub status : ℕ
  pub code : ErrorCode
  pub captured : Option (Category × Level)

-- What is sent to Sentry for an AppError, by its status.
capture : ℕ → Option (Category × Level)
capture status =
    if status == 401
    then some (auth, warning)
    else if status == 403
    then some (authorization, warning)
    else if leb 500 status
    then some (internal, error)
    else none

pub error_handler : Thrown → Response
unfolding capture
error_handler (app e) = record {
  status = status_code e;
  code = error_code e;
  captured = capture (status_code e);
}
error_handler unique_violation = record {
  status = 409;
  code = conflict_of conflict;
  captured = none;
}
error_handler foreign_key_violation = record {
  status = 409;
  code = conflict_of conflict;
  captured = none;
}
error_handler (body_parser status) = record {
  status = status;
  code = if status == 413 then payload_too_large else bad_request;
  captured = none;
}
error_handler prisma_fault = record {
  status = 500;
  code = internal_code;
  captured = some (database, error);
}
error_handler (issue_reported e) = error_handler e
error_handler other = record { status = 500; code = internal_code; captured = some (api, error) }

-- Every AppError is answered with a status from 400 to 429, and one that is reported is a 401 or a 403,
-- as a warning; what is answered as an internal error is always reported, as an error.
pub error_handler_reports :
    (e : Thrown) (a : AppError)
    → ((400 ≤ (error_handler (app a)).status) × ((error_handler (app a)).status ≤ 429))
      × (((a ≡ unauthorized_error) × ((error_handler (app a)).captured ≡ some (auth, warning)))
          ⊎ ((a ≡ forbidden_error)
              × ((error_handler (app a)).captured ≡ some (authorization, warning)))
          ⊎ ((error_handler (app a)).captured ≡ none))
      × ((error_handler e).code ≡ internal_code
          → ((error_handler e).captured ≡ some (database, error))
            ⊎ ((error_handler e).captured ≡ some (api, error)))
unfolding error_handler status_code error_code
error_handler_reports (issue_reported e) a = error_handler_reports e a
error_handler_reports (app b) a = ground arith
error_handler_reports unique_violation a = ground arith
error_handler_reports foreign_key_violation a = ground arith
error_handler_reports prisma_fault a = ground arith
error_handler_reports (body_parser status) a = ground arith
error_handler_reports other a = ground arith
