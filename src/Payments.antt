-- ===== src/Payments.antt =====
-- The payments of bookings (backend/src/modules/payments/payments.service.ts): the charge that the
-- webhook and the verify endpoint settle, and the dispatch of the webhook. The passengers that
-- `initialize` has cached are the argument `cached`, the check of the signature is `signed`.
pub mod Settle
pub mod Initialize
pub mod Charges
mod Tests
use transhub.Prelude.{
  ℕ, zero, suc, ◌+◌, ◌-◌, ◌*◌, ◌/◌, ◌%◌, ◌<◌, ◌≤◌, ◌≡◌, ◌≢◌, ◌↔◌, refl, sym, ap, ◌∙◌, ◌⊎◌, inl, inr,
  subst, Bool, true, false, not, ◌&&◌, ◌||◌, Option, none, some, List, [], ◌∷◌, ◌++◌, ◌==◌, ltb,
  leb, if◌then◌else◌, is_some, is, includes, length, arith, Bool-cases, Option-cases, ==_iff,
  ==_refl, update_many, count_where, find_first, find_first-some,
}
use transhub.Errors.{Result, returns, throws, ◌>>=◌, throw_if, Ensures}
use transhub.Errors.{Thrown, app, issue_reported, is_conflict, unauthorized_error, forbidden_error}
use transhub.Paystack.{
  Metadata, Kind, charter, waybill, other_kind, VerifiedTransaction, TxState, tx_success, tx_failed,
  tx_pending,
}
use transhub.Bookings.{Booking, Db, ConfirmInput, Emission, Passenger, find_by_payment_ref, confirm}
use transhub.Trips.{Trip, find_trip}

-- Why a charge is not settled.
pub data SettleCode : Type 0 where
  meta trip amount seats_gone : SettleCode

pub data SettleResult : Type 0 where
  settled : Booking → SettleResult
  refused : SettleCode → SettleResult

-- What a payment makes known: an event of a booking, an issue for Sentry, or the events that the
-- charters and the waybills module take up.
pub data Notice : Type 0 where
  sent : Emission → Notice
  issue : SettleCode → Notice
  charter_succeeded : ℕ → ℕ → ℕ → Notice
  waybill_succeeded : ℕ → ℕ → Notice

abbrev pub sent_all : List Emission → List Notice
sent_all [] = []
sent_all (e ∷ es) = sent e ∷ sent_all es

-- The fields that a booking's charge needs: the trip, at least one seat, and the user.
unfoldable pub booking_fields : Option Metadata → Option (ℕ × List ℕ × ℕ)
booking_fields none = none
booking_fields (some m) = elim m.trip_id [
  | none ↦ none
  | some t ↦ elim m.seat_ids [
    | none ↦ none
    | some ss ↦
        if length ss == 0 then none else elim m.user_id [ none ↦ none | some u ↦ some (t, ss, u) ]
  ]
]

abbrev pub or_empty : Option (List Passenger) → List Passenger
or_empty none = []
or_empty (some ps) = ps

-- The last step of `settleBookingCharge`, with its `catch`: a conflict is reported and answered, and any
-- other error is reported and thrown on.
unfoldable pub confirm_charge :
    (Db → Db)
    → (Db → Db)
    → Bool
    → ℕ
    → ConfirmInput
    → ℕ
    → Db
    → Result (SettleResult × Db × List Notice)
unfolding confirm is_conflict
confirm_charge before after redis_up i d user db =
    elim (confirm before after redis_up i d user db) [
      | returns r ↦ returns (settled r.0, r.1, sent_all r.2)
      | throws t ↦
          if is_conflict t
          then returns (refused seats_gone, after (before db), issue seats_gone ∷ [])
          else throws (issue_reported t)
    ]

unfoldable pub settle_booking_charge :
    (Db → Db)
    → (Db → Db)
    → Bool
    → Option (List Passenger)
    → ℕ
    → ℕ
    → ℕ
    → Option Metadata
    → Db
    → Result (SettleResult × Db × List Notice)
unfolding find_by_payment_ref find_trip booking_fields confirm_charge
settle_booking_charge before after redis_up cached i ref paid_kobo metadata db =
    elim (find_by_payment_ref ref db.bookings) [
      | some b ↦ returns (settled b, db, [])
      | none ↦ elim (booking_fields metadata) [
        | none ↦ returns (refused meta, db, issue meta ∷ [])
        | some (trip_id, seat_ids, user) ↦ elim (find_trip trip_id db.trips) [
          | none ↦ returns (refused trip, db, issue trip ∷ [])
          | some t ↦
              if not (paid_kobo == length seat_ids * t.price * 100)
              then returns (refused amount, db, issue amount ∷ [])
              else confirm_charge before after redis_up i
                  (record {
                    payment_ref = ref;
                    trip_id = trip_id;
                    seat_ids = seat_ids;
                    passengers = or_empty cached;
                  })
                  user db
        ]
      ]
    ]

-- A parsed webhook; whether its event is `charge.success` and its status `success` are Booleans.
pub record WebhookBody : Type 0 where
  pub is_charge_success : Bool
  pub is_success : Bool
  pub reference : ℕ
  pub amount : ℕ
  pub metadata : Option Metadata

abbrev pub kind_of : Option Metadata → Option Kind
kind_of none = none
kind_of (some m) = m.type

abbrev charter_id_of : Option Metadata → Option ℕ
charter_id_of none = none
charter_id_of (some m) = m.charter_id

abbrev waybill_id_of : Option Metadata → Option ℕ
waybill_id_of none = none
waybill_id_of (some m) = m.waybill_id

-- `handleWebhook`; the body is `none` if it is not JSON or not of the schema.
unfoldable pub handle_webhook :
    (Db → Db)
    → (Db → Db)
    → Bool
    → Option (List Passenger)
    → ℕ
    → Bool
    → Option WebhookBody
    → Db
    → Result (Db × List Notice)
unfolding settle_booking_charge
handle_webhook before after redis_up cached i signed none db =
    throw_if (not signed) unauthorized_error (returns (db, []))
handle_webhook before after redis_up cached i signed (some w) db =
    throw_if (not signed) unauthorized_error (
      if not w.is_charge_success
      then returns (db, [])
      else if not w.is_success
      then returns (db, [])
      else elim (kind_of w.metadata) [
        | some charter ↦ elim (charter_id_of w.metadata) [
          | none ↦ returns (db, [])
          | some c ↦ returns (db, charter_succeeded c w.reference w.amount ∷ [])
        ]
        | some waybill ↦ elim (waybill_id_of w.metadata) [
          | none ↦ returns (db, [])
          | some b ↦ returns (db, waybill_succeeded b w.amount ∷ [])
        ]
        | some (other_kind k) ↦ do
          r ←
              settle_booking_charge before after redis_up cached i w.reference w.amount w.metadata
                db
          returns (r.1, r.2)
        | none ↦ do
          r ←
              settle_booking_charge before after redis_up cached i w.reference w.amount w.metadata
                db
          returns (r.1, r.2)
      ])

-- What the verify endpoint answers; reasons are left out.
pub data VerifyOutcome : Type 0 where
  success : Booking → VerifyOutcome
  failed pending : VerifyOutcome

abbrev pub outcome_of : SettleResult → VerifyOutcome
outcome_of (settled b) = success b
outcome_of (refused c) = failed

abbrev pub user_of : Option Metadata → Option ℕ
user_of none = none
user_of (some m) = m.user_id

-- `tx.metadata?.userId && tx.metadata.userId !== userId`.
abbrev pub is_of_other : Option ℕ → ℕ → Bool
is_of_other none user = false
is_of_other (some u) user = not (u == user)

unfoldable pub verify_outcome :
    (Db → Db)
    → (Db → Db)
    → Bool
    → Option (List Passenger)
    → ℕ
    → ℕ
    → ℕ
    → Option VerifiedTransaction
    → Db
    → Result (VerifyOutcome × Db × List Notice)
unfolding settle_booking_charge
verify_outcome before after redis_up cached i ref user none db = returns (failed, db, [])
verify_outcome before after redis_up cached i ref user (some tx) db = elim tx.state [
  | tx_pending ↦ returns (pending, db, [])
  | tx_failed ↦ returns (failed, db, [])
  | tx_success ↦ throw_if (is_of_other (user_of tx.metadata) user) forbidden_error do
    r ← settle_booking_charge before after redis_up cached i ref tx.amount_kobo tx.metadata db
    returns (outcome_of r.0, r.1, r.2)
]

unfoldable pub verify_payment :
    (Db → Db)
    → (Db → Db)
    → Bool
    → Option (List Passenger)
    → (ℕ → Result (Option VerifiedTransaction))
    → ℕ
    → ℕ
    → ℕ
    → Db
    → Result (VerifyOutcome × Db × List Notice)
unfolding find_by_payment_ref verify_outcome
verify_payment before after redis_up cached lookup i ref user db =
    elim (find_by_payment_ref ref db.bookings) [
      | some b ↦ throw_if (not (b.user_id == user)) forbidden_error (returns (success b, db, []))
      | none ↦ do tx ← lookup ref; verify_outcome before after redis_up cached i ref user tx db
    ]
