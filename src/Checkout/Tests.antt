-- ===== src/Checkout/Tests.antt =====
-- A payment whose booking is there at the second poll.
use transhub.Prelude.{ℕ, ◌+◌, ◌≡◌, refl, true, false, none, some, ◌==◌, if◌then◌else◌}
use transhub.Api.{
  text, object, field, end, get, Config, Response, Page, Attempt, succeeds, fails, ApiFailure,
  network_error,
}
use transhub.Checkout.{
  Reply, verified, threw, success, pending, on_pending, waybill_poll, key_booking,
}

abbrev settles_late : ℕ → Reply
settles_late k = if k == 3 then verified (success (text 5)) else verified pending

forbidden : ApiFailure
forbidden = record { message = network_error; code = none; status = some 403 }

-- A reference that belongs to another user: the page of a waybill polls on and says pending.
refused_is_pending : waybill_poll (λ k. threw (some forbidden)) 6 ≡ some on_pending
unfolding waybill_poll
refused_is_pending = refl

abbrev page : Page
page = record { is_authenticated = true; is_login_page = false }

abbrev verify : Config
verify = record { method = some get; path = 70; query = 0; retry_count = none }

abbrev ticket : Response
ticket = record { status = 200; body = object (field key_booking (text 5) end) }

-- The server restarts during the first poll.
abbrev restarts : ℕ → ℕ → Attempt
restarts k i = if k + i == 0 then fails none else succeeds ticket
