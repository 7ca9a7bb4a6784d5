-- ===== src/Paystack.antt =====
-- What the payments module sees of Paystack (backend/src/modules/payments/payments.service.ts): the
-- outcome of one HTTP call is an argument of the functions that make it.
use transhub.Prelude.{
  refl, inr, inl, ◌⊎◌, ◌≡◌, ℕ, Bool, ◌&&◌, ◌||◌, Option, none, some, List, leb, ◌==◌, if◌then◌else◌,
}
use transhub.Errors.{Result, returns, throws, app, conflict_error, conflict, other}

-- `metadata.type`.
pub data Kind : Type 0 where
  charter waybill : Kind
  other_kind : ℕ → Kind

-- The metadata that webhookBodySchema lets through.
pub record Metadata : Type 0 where
  pub type : Option Kind
  pub charter_id : Option ℕ
  pub waybill_id : Option ℕ
  pub trip_id : Option ℕ
  pub seat_ids : Option (List ℕ)
  pub user_id : Option ℕ

pub data RawStatus : Type 0 where
  raw_success raw_failed raw_abandoned raw_reversed : RawStatus
  raw_other : ℕ → RawStatus

-- The `data` of a verify response; metadata of another shape counts as absent.
pub record VerifyData : Type 0 where
  pub status : Option RawStatus
  pub amount : Option ℕ
  pub metadata : Option Metadata

-- A parsed verify response.
pub record VerifyBody : Type 0 where
  pub status : Bool
  pub data_field : Option VerifyData

-- A network failure or timeout, or a response with its HTTP status; the body is `none` if it is not
-- JSON.
pub data Reply (A : Type 0) : Type 0 where
  unreachable : Reply A
  reply : ℕ → Option A → Reply A

abbrev pub is_ok : ℕ → Bool
is_ok status = leb 200 status && leb status 299

-- `paystackPost`: a body that is not JSON makes `res.json()` throw.
unfoldable pub paystack_post : {A : Type 0} → Reply A → Result A
paystack_post unreachable = throws (app (conflict_error conflict))
paystack_post (reply status none) =
    if is_ok status then throws other else throws (app (conflict_error conflict))
paystack_post (reply status (some body)) =
    if is_ok status then returns body else throws (app (conflict_error conflict))

-- `paystackGet`: `none` stands for the empty object that a body which is not JSON becomes.
unfoldable pub paystack_get : {A : Type 0} → Reply A → Result (Option A)
paystack_get unreachable = throws (app (conflict_error conflict))
paystack_get (reply status body) =
    if is_ok status || (status == 400 || status == 404)
    then returns body
    else throws (app (conflict_error conflict))

pub data TxState : Type 0 where
  tx_success tx_failed tx_pending : TxState

pub record VerifiedTransaction : Type 0 where
  pub state : TxState
  pub amount_kobo : ℕ
  pub metadata : Option Metadata

unfoldable pub tx_state : Option RawStatus → TxState
tx_state (some raw_success) = tx_success
tx_state (some raw_failed) = tx_failed
tx_state (some raw_abandoned) = tx_failed
tx_state (some raw_reversed) = tx_failed
tx_state (some (raw_other n)) = tx_pending
tx_state none = tx_pending

abbrev or_zero : Option ℕ → ℕ
or_zero none = 0
or_zero (some n) = n

verified : VerifyBody → Option VerifiedTransaction
unfolding tx_state
verified b = elim b.data_field [
  | none ↦ none
  | some d ↦
      if b.status
      then some (record {
        state = tx_state d.status;
        amount_kobo = or_zero d.amount;
        metadata = d.metadata;
      })
      else none
]

unfoldable pub verify_with_paystack : Reply VerifyBody → Result (Option VerifiedTransaction)
unfolding paystack_get verified
verify_with_paystack r = elim (paystack_get r) [
  | throws e ↦ throws e
  | returns none ↦ returns none
  | returns (some b) ↦ returns (verified b)
]

pub TxState-cases : (s : TxState) → (s ≡ tx_success) ⊎ ((s ≡ tx_failed) ⊎ (s ≡ tx_pending))
TxState-cases tx_success = inl refl
TxState-cases tx_failed = inr (inl refl)
TxState-cases tx_pending = inr (inr refl)
