-- ===== src/Waybills/Tests.antt =====
-- Two shipments, and the theorems at work on them.
use transhub.Paystack.{Reply, reply, paystack_post}
use transhub.Bookings.{Db}
use transhub.Payments.{Notice, handle_webhook}
use transhub.Payments.Initialize.{InitializeBody}
use transhub.Payments.Charges.{
  ShipmentCharge, waybill_charge, initialize_waybill_payment, waybill_charge_settles, with_ref,
  hear, charge_success,
}
use transhub.Waybills.Service.{initiate_pay}
use transhub.Waybills.Lifecycle.{serve_all-TableInv, TableInv}
use transhub.Paystack.{tx_success, VerifiedTransaction}
use transhub.Waybills.Access.{as_operator, MayMove}
use transhub.Waybills.Payment.{paid_once}
use transhub.Waybills.Payment.Lasting.{serve_all-PaidAt, PaidAt}
use transhub.Prelude.{
  false, is_some, ℕ, ◌≡◌, ◌==◌, refl, true, Option, none, some, List, [], ◌∷◌, arith, find_first,
}
use transhub.Errors.{Result, returns}
use transhub.Roles.{admin, operator}
use transhub.Waybills.{
  stamp, same_status, Waybill, new_waybill, quoted, quote_sent, dropped_off, cancelled,
  CreateWaybillInput, find_by_id, find_by_payment_ref, allows, paid_row, flip, with_paid_event,
  moved,
}
use transhub.Waybills.Service.{
  is_update_status, move, webhook, pay, serve_all, quote, handle_payment_confirmed, create, alone,
  Requester, Request,
}
use transhub.Waybills.Invariant.{moved-Inv, Inv, new_waybill-Inv, quoted-Inv, ref-Inv}

abbrev parcel : CreateWaybillInput
parcel = record {
  trip_id = none;
  sender_name = 1;
  sender_phone = 2;
  recipient_name = 3;
  recipient_phone = 4;
  from_location = 5;
  to_location = 6;
  description = 7;
  weight_kg = some 12;
  declared_value = none;
}

-- A quoted shipment of user 42 with the reference 88, and a new one of user 43.
abbrev priced : Waybill
priced = record (quoted 100 250000 7 none (new_waybill 1 901 42 parcel)) { payment_ref = some 88 }

abbrev table : List Waybill
table = new_waybill 2 902 43 parcel ∷ priced ∷ []

abbrev email_of : ℕ → Option ℕ
email_of u = some u

table-TableInv : TableInv table
unfolding quoted new_waybill
table-TableInv = record {
  rows = (
    new_waybill-Inv 2 902 43 parcel,
    (ref-Inv 88 _ (quoted-Inv _ first 100 250000 7 none refl), tt),
  );
  keyed = ((refl, tt), (tt, tt));
}
  where
    first : Inv (new_waybill 1 901 42 parcel)
    first = new_waybill-Inv 1 901 42 parcel

table-priced : find_by_id 1 table ≡ some priced
unfolding find_by_id find_first quoted new_waybill
table-priced = refl

priced-status : priced.status ≡ quote_sent
unfolding quoted
priced-status = refl

-- From the empty table: two shipments are made, one is quoted, paid for and dropped off.
abbrev day : List Request
day =
    create 1 901 902 42 parcel
    ∷ create 2 902 903 43 parcel
    ∷ quote (some admin) 100 1 7 25000000 none
    ∷ pay (λ w. returns (5, 88)) 1 42
    ∷ webhook 1 200 250000
    ∷ move (record { role = operator; operator_id = some 7 }) 300 1 dropped_off none none
    ∷ []

serve_all-TableInv_example : TableInv (serve_all email_of table day)
serve_all-TableInv_example = serve_all-TableInv email_of day table table-TableInv

paid_once_example :
    let after = (handle_payment_confirmed alone email_of 1 200 priced.fee table).0 in
    (find_by_id 1 after ≡ some (paid_row 200 priced))
    × (handle_payment_confirmed alone email_of 1 300 5 after ≡ (after, []))
    × (handle_payment_confirmed
          (λ x. (handle_payment_confirmed alone email_of 1 200 priced.fee x).0)
          email_of
          1
          300
          priced.fee
          table
        ≡ (after, []))
paid_once_example =
    paid_once 1 table priced table-TableInv table-priced priced-status email_of 200 300 5

-- What Paystack says of the reference 88.
abbrev charged : VerifiedTransaction
charged = record { state = tx_success; amount_kobo = 250000; metadata = none }

abbrev lookup : ℕ → Result (Option VerifiedTransaction)
lookup ref = returns (some charged)

table-ref : find_by_payment_ref 88 table ≡ some priced
unfolding find_by_payment_ref find_first quoted new_waybill
table-ref = refl

abbrev settled_table : List Waybill
settled_table = paid_row 200 priced ∷ []

settled-PaidAt : PaidAt 1 200 settled_table
unfolding find_by_id find_first paid_row flip with_paid_event quoted new_waybill
settled-PaidAt = (paid_row 200 priced, refl, refl)

serve_all-PaidAt_example :
    PaidAt 1 200 (serve_all email_of settled_table (webhook 1 300 250000 ∷ day))
serve_all-PaidAt_example =
    serve_all-PaidAt email_of 1 200 (webhook 1 300 250000 ∷ day) settled_table settled-PaidAt

abbrev agent : Requester
agent = record { role = operator; operator_id = some 7 }

agent-MayMove : MayMove agent (paid_row 200 priced) dropped_off
unfolding paid_row flip with_paid_event quoted
agent-MayMove = as_operator 7 refl refl refl (λ h. ground arith)

paid_drops : allows (paid_row 200 priced).status dropped_off ≡ true
unfolding paid_row flip with_paid_event allows
paid_drops = refl

-- The quoted shipment, cancelled before its payment arrives.
abbrev withdrawn : Waybill
withdrawn = moved 150 cancelled none none priced

priced_cancels : allows priced.status cancelled ≡ true
unfolding allows quoted
priced_cancels = refl

cancels : is_update_status cancelled ≡ true
unfolding is_update_status
cancels = refl

withdrawn-TableInv : TableInv (withdrawn ∷ [])
withdrawn-TableInv = record {
  rows =
      (moved-Inv priced table-TableInv.rows.1.0 150 cancelled none none priced_cancels cancels, tt);
  keyed = (tt, tt);
}

withdrawn-found : find_by_id 1 (withdrawn ∷ []) ≡ some withdrawn
unfolding find_by_id find_first moved stamp quoted new_waybill
withdrawn-found = refl

withdrawn-unpaid :
    (is_some withdrawn.paid_at ≡ false) × (same_status withdrawn.status quote_sent ≡ false)
unfolding moved stamp quoted new_waybill
withdrawn-unpaid = (refl, refl)

-- Paystack that answers with an address.
abbrev answering : ShipmentCharge → Reply InitializeBody
answering c = reply 200 (some (record { authorization_url = some 999 }))

priced-fee : (priced.fee == 0) ≡ false
unfolding quoted
priced-fee = refl

answers :
    paystack_post (answering (waybill_charge some 420 89 priced))
    ≡ returns (record { authorization_url = some 999 })
unfolding paystack_post
answers = refl

-- No trips and no bookings.
abbrev no_bookings : Db
no_bookings = record {
  bookings = [];
  store = record { seats = []; cache = []; jobs = [] };
  trips = [];
}

waybill_charge_settles_example :
    let charge = waybill_charge some 420 89 priced in
    (after : List Waybill) × (out : List Notice) × (initiate_pay alone
        (initialize_waybill_payment some answering 89 420)
        1
        priced.user_id
        table
      ≡ returns (999, after, []))
    × (charge.amount_kobo ≡ some priced.fee)
    × (handle_webhook
          (λ d. d)
          (λ d. d)
          true
          none
          6
          true
          (some (charge_success charge priced.fee))
          no_bookings
        ≡ returns (no_bookings, out))
    × (find_by_id 1 (hear email_of 300 out after) ≡ some (paid_row 300 (with_ref 89 priced)))
waybill_charge_settles_example =
    waybill_charge_settles some answering email_of 89 420 1 999 300 table priced (λ d. d) (λ d. d)
      true none 6 no_bookings table-TableInv table-priced priced-status priced-fee refl answers
