-- ===== src/Charters/Tests.antt =====
-- A charter that awaits its payment, and the theorems at work on it.
use transhub.Prelude.{
  ℕ, ◌≡◌, refl, false, Option, none, some, List, [], ◌∷◌, is_some, update_many, find_first,
}
use transhub.Errors.{Result, returns}
use transhub.Paystack.{VerifiedTransaction, tx_success}
use transhub.Charters.{
  Charter, CreateCharterInput, SendQuoteInput, awaiting_payment, cancelled, new_charter, quoted,
  paid_charter, is_payable, find_by_id,
}
use transhub.Charters.Service.{process_webhook_payment, charter_confirmed}
use transhub.Charters.Payment.{HasKeys, alone}
use transhub.Charters.Charges.{charter_paid_once}

abbrev trip_input : CreateCharterInput
trip_input = record {
  vehicle_type = 1;
  from_location = 2;
  to_location = 3;
  departure_at = 90000000;
  return_at = none;
  passenger_count = 30;
  notes = none;
  contact_name = none;
  contact_phone = none;
  contact_email = none;
}

abbrev offer : SendQuoteInput
offer = record {
  operator_name = 4;
  operator_cost = 15000000;
  service_fee = 500000;
  quoted_price = 20000000;
  admin_notes = none;
}

-- Charter 1 of user 42, accepted at 200,000 naira, and the same when it is cancelled.
abbrev accepted : Charter
accepted = record (quoted offer (new_charter 1 55 42 trip_input)) {
  status = awaiting_payment;
  payment_ref = some 88;
}

abbrev dropped : Charter
dropped = record accepted { status = cancelled }

abbrev charters : List Charter
charters = accepted ∷ []

-- A product that is exact, and one that is never a whole number.
abbrev exact : ℕ → Option ℕ
exact n = some n

charters-HasKeys : HasKeys charters
charters-HasKeys = (tt, tt)

charters-accepted : find_by_id 1 charters ≡ some accepted
unfolding find_by_id find_first quoted new_charter
charters-accepted = refl

accepted-unpaid : is_some accepted.paid_at ≡ false
unfolding quoted new_charter
accepted-unpaid = refl

accepted-price : accepted.quoted_price ≡ some 20000000
unfolding quoted
accepted-price = refl

charter_paid_once_example :
    let after = update_many (is_payable 1) (paid_charter 100 20000000) charters in
    (process_webhook_payment exact alone 1 100 20000000 charters
      ≡ (after, charter_confirmed 1 20000000 ∷ []))
    × (process_webhook_payment exact alone 1 200 20000000 after ≡ (after, []))
    × (process_webhook_payment exact
          (λ x. (process_webhook_payment exact alone 1 100 20000000 x).0)
          1
          200
          20000000
          charters
        ≡ (after, []))
charter_paid_once_example =
    charter_paid_once exact 1 charters accepted 100 200 20000000 20000000 charters-HasKeys
      charters-accepted refl accepted-unpaid accepted-price refl

dropped-found : find_by_id 1 (dropped ∷ []) ≡ some dropped
unfolding find_by_id find_first quoted new_charter
dropped-found = refl

abbrev lookup : ℕ → Result (Option VerifiedTransaction)
lookup ref = returns (some (record { state = tx_success; amount_kobo = 20000000; metadata = none }))
