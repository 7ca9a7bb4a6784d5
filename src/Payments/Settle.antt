-- ===== src/Payments/Settle.antt =====
-- What becomes of a charge.
use transhub.Prelude.{
  ==_ne, ℕ, ◌*◌, true, false, subst, arith, ◌≡◌, ◌≢◌, refl, ap, ◌∙◌, inl, inr, Bool, Option, none,
  some, List, [], ◌∷◌, ◌==◌, length, Bool-cases, Option-cases, ==_iff, ==_refl,
}
use transhub.Errors.{Ensures-map, forbidden_error, Result, returns, throws, ◌>>=◌, Ensures}
use transhub.Errors.{Thrown, app, issue_reported, is_conflict, Result-cases, Ensures-returns}
use transhub.Paystack.{Metadata, VerifiedTransaction, TxState-cases}
use transhub.Bookings.{Booking, Db, Emission, ConfirmInput, Passenger, find_by_payment_ref, confirm}
use transhub.Trips.{Trip, find_trip}
use transhub.Bookings.Confirm.{IsRecorded, confirm-IsRecorded}
use transhub.Payments.{
  user_of, outcome_of, is_of_other, SettleResult, settled, refused, SettleCode, Notice, issue, meta,
  trip, amount, seats_gone, booking_fields, confirm_charge, settle_booking_charge, VerifyOutcome,
  success, verify_outcome, verify_payment,
}

-- What the confirm of a booking comes to, for what is to be confirmed and its user.
abbrev pub Confirmation : Type 0
Confirmation = ConfirmInput → ℕ → Result (Booking × Db × List Emission)

module _ (ref paid_kobo : ℕ) (metadata : Option Metadata) (db : Db)
    (confirmation : Confirmation) where
  -- The charge pays exactly, in kobo, for the seats that its metadata names.
  pub data IsPriced : ConfirmInput → ℕ → Type 0 where
    priced :
        {d : ConfirmInput} {user : ℕ} (t : Trip)
        → booking_fields metadata ≡ some (d.trip_id, d.seat_ids, user)
        → find_trip d.trip_id db.trips ≡ some t
        → paid_kobo ≡ length d.seat_ids * t.price * 100
        → d.payment_ref ≡ ref
        → IsPriced d user

  -- Why a charge is refused.
  pub data IsRefused : SettleCode → Type 0 where
    no_fields : booking_fields metadata ≡ none → IsRefused meta
    no_trip :
        (trip_id user : ℕ) (seat_ids : List ℕ)
        → booking_fields metadata ≡ some (trip_id, seat_ids, user)
        → find_trip trip_id db.trips ≡ none
        → IsRefused trip
    wrong_amount :
        (trip_id user : ℕ) (seat_ids : List ℕ) (t : Trip)
        → booking_fields metadata ≡ some (trip_id, seat_ids, user)
        → find_trip trip_id db.trips ≡ some t
        → paid_kobo ≢ length seat_ids * t.price * 100
        → IsRefused amount
    lost_seats :
        (d : ConfirmInput) (user : ℕ) (e : Thrown)
        → IsPriced d user
        → confirmation d user ≡ throws e
        → is_conflict e ≡ true
        → IsRefused seats_gone

  -- What an answer says: the charge was settled before, and nothing changes; or its booking is made; or it
  -- is refused for a reason that holds, and that is reported.
  pub data Accounted : SettleResult × Db × List Notice → Type 0 where
    already :
        (b : Booking) → find_by_payment_ref ref db.bookings ≡ some b → Accounted (settled b, db, [])
    made :
        (d : ConfirmInput) (user : ℕ) (b : Booking) (db' : Db) (out : List Notice)
        → IsPriced d user
        → find_by_payment_ref ref db'.bookings ≡ some b
        → Accounted (settled b, db', out)
    reported : (c : SettleCode) (db' : Db) → IsRefused c → Accounted (refused c, db', issue c ∷ [])

  -- What a charge comes to: an answer, or an error of the confirm that is no conflict, thrown on once it
  -- is reported.
  pub data Outcome : Result (SettleResult × Db × List Notice) → Type 0 where
    answered : {r : SettleResult × Db × List Notice} → Accounted r → Outcome (returns r)
    passed_on :
        (d : ConfirmInput) (user : ℕ) (e : Thrown)
        → IsPriced d user
        → confirmation d user ≡ throws e
        → is_conflict e ≡ false
        → Outcome (throws (issue_reported e))

  Outcome-Ensures : (m : Result (SettleResult × Db × List Notice)) → Outcome m → Ensures Accounted m
  Outcome-Ensures _ (answered a) = a
  Outcome-Ensures _ (passed_on d user e p f c) = tt

confirm_charge-Outcome :
    (before after : Db → Db) (redis_up : Bool) (i ref : ℕ) (d : ConfirmInput) (user paid_kobo : ℕ)
    (metadata : Option Metadata) (db : Db)
    → IsPriced ref paid_kobo metadata db (λ c u. confirm before after redis_up i c u db) d user
    → Outcome ref paid_kobo metadata db
        (λ c u. confirm before after redis_up i c u db)
        (confirm_charge before after redis_up i d user db)
unfolding confirm_charge
confirm_charge-Outcome before after redis_up i ref d user paid_kobo metadata db (priced t m f k p) =
    elim (Result-cases (confirm before after redis_up i d user db)) [
      | inl (x, h) ↦
          rw (confirm_charge, h)
            (elim (Bool-cases (is_conflict x)) [
              | inl b ↦ rw b (
                  answered (
                    reported seats_gone (after (before db))
                      (lost_seats d user x (priced t m f k p) h b)))
              | inr b ↦ rw b (passed_on d user x (priced t m f k p) h b)
            ])
      | inr (r, h) ↦
          rw (confirm_charge, h)
            (answered (
              made d user r.0 r.1 _ (priced t m f k p) (
                subst (λ n. find_by_payment_ref n r.1.bookings ≡ some r.0) p
                  (Ensures-returns (IsRecorded d.payment_ref) _ r h
                    (confirm-IsRecorded before after redis_up i d user db)))))
    ]

-- Every charge of a booking is accounted for, whatever other requests do in the meantime. It is answered:
-- its booking was recorded before, and nothing changes; or its booking is recorded, and the charge pays
-- exactly for the seats that it names; or it is refused for a reason that holds, and the reason is
-- reported: no fields, no trip, another amount, or a confirm of the seats that ends in a conflict. Or the
-- confirm of the seats that it pays for fails with an error that is no conflict: the error is reported and
-- thrown on.
pub settle_booking_charge_lem :
    (before after : Db → Db) (redis_up : Bool) (cached : Option (List Passenger))
    (i ref paid_kobo : ℕ) (metadata : Option Metadata) (db : Db)
    → Outcome ref paid_kobo metadata db
        (λ d user. confirm before after redis_up i d user db)
        (settle_booking_charge before after redis_up cached i ref paid_kobo metadata db)
unfolding settle_booking_charge
settle_booking_charge_lem before after redis_up cached i ref paid_kobo metadata db =
    elim (Option-cases (find_by_payment_ref ref db.bookings)) [
      | inr (b, e) ↦ rw (settle_booking_charge, e) (answered (already b e))
      | inl e ↦
          rw (settle_booking_charge, e)
            (elim (Option-cases (booking_fields metadata)) [
              | inl m ↦ rw m (answered (reported meta db (no_fields m)))
              | inr ((trip_id, seat_ids, user), m) ↦
                  rw m (elim (Option-cases (find_trip trip_id db.trips)) [
                    | inl f ↦ rw f (answered (reported trip db (no_trip trip_id user seat_ids m f)))
                    | inr (t, f) ↦
                        rw f (elim (Bool-cases (paid_kobo == length seat_ids * t.price * 100)) [
                          | inr k ↦ rw k (
                              answered (
                                reported amount db
                                  (wrong_amount trip_id user seat_ids t m f (ground (arith, k)))))
                          | inl k ↦ rw k (
                              confirm_charge-Outcome before after redis_up i ref _ user paid_kobo
                                metadata db (priced t m f ((==_iff _ _).0 k) refl))
                        ])
                  ])
            ])
    ]

-- The payment's reference finds the booking of a settled charge.
abbrev IsSettled : ℕ → SettleResult × Db × List Notice → Type 0
IsSettled ref r = (b : Booking) → r.0 ≡ settled b → find_by_payment_ref ref r.1.bookings ≡ some b

settled_injective : {a b : Booking} → settled a ≡ settled b → a ≡ b
settled_injective same = cc

Accounted-IsSettled :
    (ref paid_kobo : ℕ) (metadata : Option Metadata) (db : Db) (confirmation : Confirmation)
    (r : SettleResult × Db × List Notice)
    → Accounted ref paid_kobo metadata db confirmation r
    → IsSettled ref r
Accounted-IsSettled ref paid_kobo metadata db k _ (already b e) c h =
    e ∙ ap some (settled_injective h)
Accounted-IsSettled ref paid_kobo metadata db k _ (made d u b db' out p e) c h =
    e ∙ ap some (settled_injective h)
Accounted-IsSettled ref paid_kobo metadata db k _ (reported c db' p) b h = cc

settle-recorded :
    (before after : Db → Db) (redis_up : Bool) (cached : Option (List Passenger))
    (i ref paid_kobo : ℕ) (metadata : Option Metadata) (db db' : Db) (b : Booking)
    (out : List Notice)
    → settle_booking_charge before after redis_up cached i ref paid_kobo metadata db
      ≡ returns (settled b, db', out)
    → find_by_payment_ref ref db'.bookings ≡ some b
settle-recorded before after redis_up cached i ref paid_kobo metadata db db' b out e =
    let confirmation : Confirmation = λ d user. confirm before after redis_up i d user db in
    Accounted-IsSettled ref paid_kobo metadata db confirmation (settled b, db', out)
      (Ensures-returns (Accounted ref paid_kobo metadata db confirmation) _ _ e (
        Outcome-Ensures ref paid_kobo metadata db confirmation _
          (settle_booking_charge_lem before after redis_up cached i ref paid_kobo metadata db)))
      b refl

-- Once a charge is settled, whichever of the webhook and the verify endpoint came first: settling it
-- again, with any amount and metadata, changes nothing and makes nothing known; the verify endpoint
-- gives the booking to the user who has it, without asking Paystack, and forbids it to any other.
settled_once :
    (before after before' after' : Db → Db) (redis_up : Bool) (cached : Option (List Passenger))
    (i ref paid_kobo other_kobo user : ℕ) (metadata metadata' : Option Metadata)
    (lookup : ℕ → Result (Option VerifiedTransaction)) (db db' : Db) (b : Booking)
    (out : List Notice)
    → settle_booking_charge before after redis_up cached i ref paid_kobo metadata db
      ≡ returns (settled b, db', out)
    → (settle_booking_charge before' after' redis_up cached i ref other_kobo metadata' db'
        ≡ returns (settled b, db', []))
      × (verify_payment before' after' redis_up cached lookup i ref b.user_id db'
          ≡ returns (success b, db', []))
      × (b.user_id ≢ user
          → verify_payment before' after' redis_up cached lookup i ref user db'
            ≡ throws (app forbidden_error))
unfolding settle_booking_charge verify_payment
settled_once before after before' after' redis_up cached i ref paid_kobo other_kobo user metadata
      metadata' lookup db db' b out e =
    (
      rw (settle_booking_charge, found) refl,
      rw (verify_payment, found, ==_refl b.user_id) refl,
      λ n. rw (verify_payment, found, ==_ne b.user_id user n) refl,
    )
  where
    found : find_by_payment_ref ref db'.bookings ≡ some b
    found = settle-recorded before after redis_up cached i ref paid_kobo metadata db db' b out e

-- An answer of success names the booking that the reference finds.
abbrev pub IsFound : ℕ → VerifyOutcome × Db × List Notice → Type 0
IsFound ref r = (b : Booking) → r.0 ≡ success b → find_by_payment_ref ref r.1.bookings ≡ some b

success_injective : {a b : Booking} → success a ≡ success b → a ≡ b
success_injective same = cc

answered-IsFound :
    (ref : ℕ) (m : Result (SettleResult × Db × List Notice))
    → Ensures (IsSettled ref) m
    → Ensures (IsFound ref) (m >>= λ r. returns (outcome_of r.0, r.1, r.2))
answered-IsFound ref (throws e) h = tt
answered-IsFound ref (returns (settled a, db, out)) h =
    λ b e. h b (ap settled (success_injective e))
answered-IsFound ref (returns (refused c, db, out)) h = λ b e. cc

outcome-IsFound :
    (before after : Db → Db) (redis_up : Bool) (cached : Option (List Passenger)) (i ref user : ℕ)
    (tx : Option VerifiedTransaction) (db : Db)
    → Ensures (IsFound ref) (verify_outcome before after redis_up cached i ref user tx db)
unfolding verify_outcome
outcome-IsFound before after redis_up cached i ref user none db = λ b e. cc
outcome-IsFound before after redis_up cached i ref user (some tx) db =
    elim (TxState-cases tx.state) [
      | inl e ↦
          rw (verify_outcome, e)
            (elim (Bool-cases (is_of_other (user_of tx.metadata) user)) [
              | inl o ↦ rw o tt
              | inr o ↦ rw o (
                  answered-IsFound ref _ (
                    Ensures-map _ (Accounted-IsSettled ref tx.amount_kobo tx.metadata db _) (
                      Outcome-Ensures ref tx.amount_kobo tx.metadata db
                        (λ d u. confirm before after redis_up i d u db) _
                        (settle_booking_charge_lem before after redis_up cached i ref tx.amount_kobo
                          tx.metadata db))))
            ])
      | inr (inl e) ↦ rw (verify_outcome, e) (λ b h. cc)
      | inr (inr e) ↦ rw (verify_outcome, e) (λ b h. cc)
    ]

-- The verify endpoint answers success only with a recorded booking of the payment, whatever Paystack
-- replies and whatever other requests do in the meantime.
pub verify_payment_recorded :
    (before after : Db → Db) (redis_up : Bool) (cached : Option (List Passenger))
    (lookup : ℕ → Result (Option VerifiedTransaction)) (i ref user : ℕ) (db : Db)
    → Ensures (IsFound ref) (verify_payment before after redis_up cached lookup i ref user db)
unfolding verify_payment verify_outcome
verify_payment_recorded before after redis_up cached lookup i ref user db =
    elim (Option-cases (find_by_payment_ref ref db.bookings)) [
      | inr (b, e) ↦
          rw (verify_payment, e)
            (elim (Bool-cases (b.user_id == user)) [
              | inl u ↦ rw u (λ c h. e ∙ ap some (success_injective h))
              | inr u ↦ rw u tt
            ])
      | inl e ↦
          rw (verify_payment, e)
            (elim (Result-cases (lookup ref)) [
              | inl (x, l) ↦ rw l tt
              | inr (tx, l) ↦ rw l (outcome-IsFound before after redis_up cached i ref user tx db)
            ])
    ]
