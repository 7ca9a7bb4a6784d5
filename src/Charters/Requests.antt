-- ===== src/Charters/Requests.antt =====
-- The requests of charters.controller.ts and the webhook, one after the other, and the table that they lead to.
-- The guards by role and the schemas of the bodies stand before the handlers.
pub mod Invariant
pub mod Webhook
pub mod Handlers
pub mod Lifecycle
mod Tests
use transhub.Prelude.{ℕ, ◌≤◌, Option, none, some, List, [], ◌∷◌, is_some}
use transhub.Errors.{Result, returns, throws}
use transhub.Errors.{unique_violation}
use transhub.Paystack.{VerifiedTransaction}
use transhub.Roles.{Role, passenger, admin, require_role}
use transhub.Charters.{Charter, CreateCharterInput, SendQuoteInput, ConfirmBookingInput, find_by_id}
use transhub.Charters.Payment.{alone}
use transhub.Charters.Service.{
  Answer, request_charter, send_quote, accept_quote, reject_quote, initiate_payment,
  process_webhook_payment, verify_payment, admin_confirm_booking, complete_charter, cancel_charter,
}

-- What comes with a request: the role and the user of its token, the clock, and what is looked up.
pub data Request : Type 0 where
  create : Option Role → ℕ → ℕ → ℕ → ℕ → CreateCharterInput → Request
  quote : Option Role → ℕ → SendQuoteInput → Request
  accept reject : Option Role → ℕ → ℕ → Request
  pay : Option Role → (Charter → Result (ℕ × ℕ)) → ℕ → ℕ → Request
  webhook : ℕ → ℕ → ℕ → Request
  verify : Option Role → (ℕ → Result (Option VerifiedTransaction)) → ℕ → ℕ → ℕ → Request
  confirm_booking : Option Role → ℕ → ConfirmBookingInput → Request
  complete : Option Role → ℕ → ℕ → Request
  cancel : ℕ → ℕ → Role → Request

-- The table once a handler is done; one that throws has written nothing.
abbrev pub table_after : {A : Type 0} → List Charter → Answer A → List Charter
table_after cs (throws e) = cs
table_after cs (returns r) = r.1

-- The primary key refuses an id that is taken.
abbrev pub create_new :
    ℕ → ℕ → ℕ → ℕ → CreateCharterInput → List Charter → Option Charter → Answer Charter
unfolding request_charter
create_new now i number user d cs (some c) = throws unique_violation
create_new now i number user d cs none = request_charter now i number user d cs

-- One request, with no other in the meantime.
unfoldable pub serve : (ℕ → Option ℕ) → List Charter → Request → List Charter
unfolding find_by_id create_new send_quote accept_quote reject_quote initiate_payment
    process_webhook_payment verify_payment admin_confirm_booking complete_charter cancel_charter
    require_role
serve to_kobo cs (create role now i number user d) =
    table_after cs
      (require_role (passenger ∷ []) role (create_new now i number user d cs (find_by_id i cs)))
serve to_kobo cs (quote role i d) =
    table_after cs (require_role (admin ∷ []) role (send_quote alone i d cs))
serve to_kobo cs (accept role i user) =
    table_after cs (require_role (passenger ∷ []) role (accept_quote alone i user cs))
serve to_kobo cs (reject role i user) =
    table_after cs (require_role (passenger ∷ []) role (reject_quote alone i user cs))
serve to_kobo cs (pay role initialize i user) =
    table_after cs
      (require_role (passenger ∷ []) role (initiate_payment alone initialize i user cs))
serve to_kobo cs (webhook i paid_at received) =
    (process_webhook_payment to_kobo alone i paid_at received cs).0
serve to_kobo cs (verify role lookup now i user) =
    table_after cs
      (require_role (passenger ∷ []) role (verify_payment to_kobo alone lookup now i user cs))
serve to_kobo cs (confirm_booking role i d) =
    table_after cs (require_role (admin ∷ []) role (admin_confirm_booking alone i d cs))
serve to_kobo cs (complete role now i) =
    table_after cs (require_role (admin ∷ []) role (complete_charter alone now i cs))
serve to_kobo cs (cancel i user role) = table_after cs (cancel_charter alone i user role cs)

unfoldable pub serve_all : (ℕ → Option ℕ) → List Charter → List Request → List Charter
unfolding serve
serve_all to_kobo cs [] = cs
serve_all to_kobo cs (r ∷ rs) = serve_all to_kobo (serve to_kobo cs r) rs
