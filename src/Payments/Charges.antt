-- ===== src/Payments/Charges.antt =====
-- `initializeWaybillPayment` and `initializeCharterPayment` of
-- backend/src/modules/payments/payments.service.ts. A fee or a price is in hundredths; the float product
-- with 100 is the argument `to_kobo`, none if it does not come to a whole number.
use transhub.Prelude.{
  ℕ, ◌≡◌, refl, sym, subst, ◌∙◌, Bool, true, false, Option, none, some, List, [], ◌∷◌, ◌==◌,
  ==_refl, ==_iff, update_many, find_first-some, find_first-update_many, arith,
}
use transhub.Errors.{Result, returns, throws, ◌>>=◌, throw_if}
use transhub.Errors.{app, conflict_error, conflict, invalid_price, charter_no_price}
use transhub.Paystack.{Metadata, Reply, charter, waybill, paystack_post}
use transhub.Waybills.{
  Waybill, WaybillStatus, quote_sent, same_status, find_by_id, has_id, paid_row,
}
use transhub.Waybills.Service.{initiate_pay, handle_payment_confirmed, alone}
use transhub.Waybills.Steps.{pay_started}
use transhub.Waybills.Lifecycle.{TableInv, Step-TableInv}
use transhub.Waybills.Payment.{paid_once}
use transhub.Charters.{Charter}
use transhub.Bookings.{Db, Passenger}
use transhub.Payments.{Notice, waybill_succeeded, WebhookBody, handle_webhook}
use transhub.Payments.Initialize.{InitializeBody}

-- What is posted for a shipment or a charter.
pub record ShipmentCharge : Type 0 where
  pub email : ℕ
  pub amount_kobo : Option ℕ
  pub reference : ℕ
  pub metadata : Metadata

unfoldable pub waybill_charge : (ℕ → Option ℕ) → ℕ → ℕ → Waybill → ShipmentCharge
waybill_charge to_kobo email ref w = record {
  email = email;
  amount_kobo = to_kobo w.fee;
  reference = ref;
  metadata = record {
    type = some waybill;
    charter_id = none;
    waybill_id = some w.id;
    trip_id = none;
    seat_ids = none;
    user_id = none;
  };
}

-- The address and the reference, if the reply has an address.
abbrev pub started : ℕ → InitializeBody → Result (ℕ × ℕ)
started ref body = elim body.authorization_url [
  | none ↦ throws (app (conflict_error conflict))
  | some url ↦ returns (url, ref)
]

unfoldable pub initialize_waybill_payment :
    (ℕ → Option ℕ) → (ShipmentCharge → Reply InitializeBody) → ℕ → ℕ → Waybill → Result (ℕ × ℕ)
unfolding waybill_charge
initialize_waybill_payment to_kobo post ref email w =
    throw_if (w.fee == 0) (conflict_error invalid_price)
      do body ← paystack_post (post (waybill_charge to_kobo email ref w)); started ref body

unfoldable pub charter_charge : (ℕ → Option ℕ) → ℕ → ℕ → ℕ → Charter → ShipmentCharge
charter_charge to_kobo email ref price c = record {
  email = email;
  amount_kobo = to_kobo price;
  reference = ref;
  metadata = record {
    type = some charter;
    charter_id = some c.id;
    waybill_id = none;
    trip_id = none;
    seat_ids = none;
    user_id = none;
  };
}

unfoldable pub initialize_charter_payment :
    (ℕ → Option ℕ) → (ShipmentCharge → Reply InitializeBody) → ℕ → ℕ → Charter → Result (ℕ × ℕ)
unfolding charter_charge
initialize_charter_payment to_kobo post ref email c = elim c.quoted_price [
  | none ↦ throws (app (conflict_error charter_no_price))
  | some price ↦
      throw_if (price == 0) (conflict_error invalid_price)
        do body ← paystack_post (post (charter_charge to_kobo email ref price c)); started ref body
]

abbrev pub with_ref : ℕ → Waybill → Waybill
with_ref ref w = record w { payment_ref = some ref }

-- The waybill of a started payment, in a table that is still in order.
referenced :
    (ref i : ℕ) (ws : List Waybill) (w : Waybill)
    → TableInv ws
    → find_by_id i ws ≡ some w
    → w.status ≡ quote_sent
    → (w.fee == 0) ≡ false
    → TableInv (update_many (has_id i) (with_ref ref) ws)
      × (find_by_id i (update_many (has_id i) (with_ref ref) ws) ≡ some (with_ref ref w))
unfolding find_by_id
referenced ref i ws w t e s priced = (
  Step-TableInv ws _ (pay_started w i ref e s (ground arith)) t,
  find_first-update_many (has_id i) (has_id i) (with_ref ref) ws w (λ x. refl) e
      ∙ rw (find_first-some (has_id i) ws w e).1 refl,
)

initialize_returns :
    (to_kobo : ℕ → Option ℕ) (post : ShipmentCharge → Reply InitializeBody) (ref email url : ℕ)
    (w : Waybill)
    → (w.fee == 0) ≡ false
    → paystack_post (post (waybill_charge to_kobo email ref w))
      ≡ returns (record { authorization_url = some url })
    → initialize_waybill_payment to_kobo post ref email w ≡ returns (url, ref)
unfolding initialize_waybill_payment
initialize_returns to_kobo post ref email url w priced reply = rw (priced, reply) refl

row_id : (i : ℕ) (ws : List Waybill) (w : Waybill) → find_by_id i ws ≡ some w → w.id ≡ i
unfolding find_by_id
row_id i ws w e = (==_iff w.id i).0 (find_first-some (has_id i) ws w e).1

is_quoted : (s : WaybillStatus) → s ≡ quote_sent → same_status s quote_sent ≡ true
is_quoted s e = rw e refl

-- The listener of `payment.waybill.succeeded` (waybills/index.ts), on what a webhook makes known.
unfoldable pub hear : (ℕ → Option ℕ) → ℕ → List Notice → List Waybill → List Waybill
unfolding handle_payment_confirmed
hear email_of paid_at [] ws = ws
hear email_of paid_at (waybill_succeeded b amount ∷ ns) ws =
    hear email_of paid_at ns (handle_payment_confirmed alone email_of b paid_at amount ws).0
hear email_of paid_at (n ∷ ns) ws = hear email_of paid_at ns ws

-- The webhook of a charge that succeeded, as Paystack sends it back.
abbrev pub charge_success : ShipmentCharge → ℕ → WebhookBody
charge_success c amount = record {
  is_charge_success = true;
  is_success = true;
  reference = c.reference;
  amount = amount;
  metadata = some c.metadata;
}

-- A quoted waybill that its customer pays for, where the product of its fee comes to that fee in kobo
-- and Paystack answers with an address: the request returns the address, and the charge that was posted
-- asks for the fee. The signed webhook of that charge, with its metadata and amount, changes no booking,
-- and what it makes known leads the listener to pay the waybill.
pub waybill_charge_settles :
    (to_kobo : ℕ → Option ℕ) (post : ShipmentCharge → Reply InitializeBody)
    (email_of : ℕ → Option ℕ) (ref email i url paid_at : ℕ) (ws : List Waybill) (w : Waybill)
    (before between : Db → Db) (redis_up : Bool) (cached : Option (List Passenger)) (j : ℕ)
    (db : Db)
    → TableInv ws
    → find_by_id i ws ≡ some w
    → w.status ≡ quote_sent
    → (w.fee == 0) ≡ false
    → to_kobo w.fee ≡ some w.fee
    → paystack_post (post (waybill_charge to_kobo email ref w))
      ≡ returns (record { authorization_url = some url })
    → let charge = waybill_charge to_kobo email ref w in
      (after : List Waybill) × (out : List Notice) × (initiate_pay alone
          (initialize_waybill_payment to_kobo post ref email)
          i
          w.user_id
          ws
        ≡ returns (url, after, []))
      × (charge.amount_kobo ≡ some w.fee)
      × (handle_webhook before between redis_up cached j true
            (some (charge_success charge w.fee))
            db
          ≡ returns (db, out))
      × (find_by_id i (hear email_of paid_at out after) ≡ some (paid_row paid_at (with_ref ref w)))
unfolding initiate_pay waybill_charge handle_webhook hear
waybill_charge_settles to_kobo post email_of ref email i url paid_at ws w before between redis_up
      cached j db t e s priced whole reply =
    let (t', e') = referenced ref i ws w t e s priced in
    let paid_now = (paid_once i _ (with_ref ref w) t' e' s email_of paid_at paid_at 0).0 in
    (
      update_many (has_id i) (with_ref ref) ws,
      waybill_succeeded w.id w.fee ∷ [],
      rw
          (
            initiate_pay,
            e,
            ==_refl w.user_id,
            is_quoted w.status s,
            priced,
            initialize_returns to_kobo post ref email url w priced reply,
          )
          refl,
      whole,
      refl,
      subst
          (λ k.
            find_by_id i
              (handle_payment_confirmed alone email_of k paid_at w.fee
                (update_many (has_id i) (with_ref ref) ws)).0
            ≡ some (paid_row paid_at (with_ref ref w)))
          (sym (row_id i ws w e)) paid_now,
    )
