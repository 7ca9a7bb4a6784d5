-- ===== src/Checkout.antt =====
-- The pages that wait for a payment (frontend/src/app/(passenger)/checkout/page.js and
-- frontend/src/app/(waybill)/pay-success/page.js) and the service that they ask
-- (frontend/src/services/payments.ts). The replies to the polls are a function of their number.
pub mod Polls
mod Tests
use transhub.Prelude.{
  ℕ, zero, suc, ◌+◌, Bool, true, false, ◌&&◌, Option, none, some, List, [], ◌∷◌, ◌==◌, leb, ltb,
  if◌then◌else◌,
}
use transhub.Api.{
  Json, undefined, text, object, Fields, end, field, property_of, is_nullish, ApiFailure,
  api_failure, Message, Outcome, resolves, rejects,
}

abbrev pub key_booking : ℕ
key_booking = 4

abbrev pub key_status : ℕ
key_status = 5

abbrev pub key_reason : ℕ
key_reason = 6

-- The text "failed".
abbrev pub text_failed : ℕ
text_failed = 7

-- `k in v` of an object.
abbrev pub has_key : ℕ → Fields → Bool
has_key k end = false
has_key k (field j v fs) = if j == k then true else has_key k fs

abbrev pub is_text : ℕ → Json → Bool
is_text n (text m) = m == n
is_text n v = false

-- The reason of the server, or "Your payment could not be completed."
abbrev pub given_reason : Json → Option Json
given_reason v = if is_nullish v then none else some v

pub data VerifyResult : Type 0 where
  success : Json → VerifyResult
  pending : VerifyResult
  failed : Option Json → VerifyResult

-- A result, or what is thrown: a failure of the client, or an error of another kind.
pub data Reply : Type 0 where
  verified : VerifyResult → Reply
  threw : Option ApiFailure → Reply

-- `in` throws where the value is not an object.
unfoldable pub verify_payment : Outcome → Reply
verify_payment (resolves (object fs)) =
    if has_key key_booking fs
    then verified (success (property_of key_booking fs))
    else if is_text text_failed (property_of key_status fs)
    then verified (failed (given_reason (property_of key_reason fs)))
    else verified pending
verify_payment (resolves v) = threw none
verify_payment (rejects (api_failure f)) = threw (some f)
verify_payment (rejects r) = threw none

-- Where the checkout ends up: the page of the booking, an error, or the note that it takes longer.
pub data Verdict : Type 0 where
  booked : Json → Verdict
  not_completed : Option Json → Verdict
  not_verified : Message → Verdict
  timed_out : Verdict

abbrev pub is_client_error : Option ℕ → Bool
is_client_error none = false
is_client_error (some s) = leb 400 s && ltb s 500

-- What one poll decides; nothing if the next poll is to be made.
unfoldable pub decided : Reply → Option Verdict
decided (verified (success b)) = some (booked b)
decided (verified (failed reason)) = some (not_completed reason)
decided (verified pending) = none
decided (threw none) = none
decided (threw (some f)) = if is_client_error f.status then some (not_verified f.message) else none

-- Both pages poll alike: after `count` polls the next is made, with fuel; what it decides is the end,
-- and after the last poll the page gives up.
unfoldable pub polling : {V : Type 0} → (ℕ → Option V) → ℕ → V → ℕ → ℕ → Option V
polling decides most last zero count = none
polling decides most last (suc fuel) count = elim (decides count) [
  | some v ↦ some v
  | none ↦ elim (leb most (count + 1)) [
    | true ↦ some last
    | false ↦ polling decides most last fuel (count + 1)
  ]
]

abbrev pub max_polls : ℕ
max_polls = 15

-- `poll` of the PaymentVerifier.
unfoldable pub poll : (ℕ → Reply) → ℕ → Option Verdict
unfolding polling decided
poll replies fuel = polling (λ k. decided (replies k)) max_polls timed_out fuel 0

-- The booking in progress is dropped when the server has answered.
abbrev pub clears_booking : Verdict → Bool
clears_booking (booked b) = true
clears_booking (not_completed reason) = true
clears_booking v = false

-- The page of a waybill's payment.
pub data PageStatus : Type 0 where
  on_success on_failed on_pending : PageStatus

abbrev pub max_waybill_polls : ℕ
max_waybill_polls = 6

-- Whatever is thrown is caught, and the next poll is made.
unfoldable pub waybill_decided : Reply → Option PageStatus
waybill_decided (verified (success b)) = some on_success
waybill_decided (verified (failed reason)) = some on_failed
waybill_decided (verified pending) = none
waybill_decided (threw f) = none

-- `poll` of the page.
unfoldable pub waybill_poll : (ℕ → Reply) → ℕ → Option PageStatus
unfolding polling waybill_decided
waybill_poll replies fuel =
    polling (λ k. waybill_decided (replies k)) max_waybill_polls on_pending fuel 0
