-- ===== src/Api/Tests.antt =====
-- The verification of a payment of which the first attempt meets a server that restarts.
use transhub.Prelude.{
  ℕ, ◌≤◌, ◌≡◌, refl, true, false, none, some, List, [], ◌∷◌, arith, if◌then◌else◌, ◌==◌,
}
use transhub.Api.{
  undefined, text, object, field, end, get, post, Config, Response, Outcome, Effect, sent, reported,
  rejects, api_failure, message, network_error, key_error, key_message, key_code, Page, Attempt,
  succeeds, fails, api, capture_api_failure, on_failure, retried,
}
use transhub.Api.Retry.{count_sent, api_ends}

abbrev page : Page
page = record { is_authenticated = true; is_login_page = false }

abbrev verify : Config
verify = record { method = some get; path = 70; query = 0; retry_count = none }

-- A body with a field named 9, the booking.
abbrev ticket : Response
ticket = record { status = 200; body = object (field 9 (text 5) end) }

abbrev down : Response
down = record { status = 503; body = undefined }

abbrev restarts : ℕ → Attempt
restarts k = if k == 0 then fails (some down) else succeeds ticket

-- A conflict is not retried; its message, code and status reach the caller.
conflict : Response
conflict = record {
  status = 409;
  body =
      object
        (field key_error (object (field key_code (text 3) (field key_message (text 4) end))) end);
}

conflict_reaches :
    api page (λ k. fails (some conflict)) 3 0 verify
    ≡ some (
      rejects (api_failure (record { message = message 4; code = some 3; status = some 409 })),
      sent ∷ [],
    )
unfolding api on_failure capture_api_failure retried conflict
conflict_reaches = refl

-- A write is not sent again.
write_once :
    api page restarts 3 0 (record verify { method = some post })
    ≡ some (
      rejects (api_failure (record { message = network_error; code = none; status = some 503 })),
      sent ∷ reported post (some 70) (some 503) ∷ [],
    )
unfolding api on_failure capture_api_failure retried
write_once = refl

api_ends_example :
    (r : Outcome × List Effect) × (api page restarts 3 0 verify ≡ some r)
    × (1 ≤ count_sent r.1)
    × (count_sent r.1 ≤ 3)
api_ends_example = api_ends page restarts 3 0 verify (omega arith)
