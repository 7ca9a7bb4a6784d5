-- ===== src/Payments/Tests.antt =====
-- A charge for the two seats of Bookings/Tests, settled and asked for again.
use transhub.Prelude.{
  map, ℕ, ◌≡◌, refl, true, false, Option, none, some, List, [], ◌∷◌, find_many, update_many,
  count_where, find_first,
}
use transhub.Errors.{Result, returns}
use transhub.Inventory.{Seat, held, lock_and_mark_booked, book}
use transhub.Inventory.Service.{release_hold_keys}
use transhub.Paystack.{Metadata, VerifiedTransaction, tx_success}
use transhub.Bookings.{
  Db, Booking, confirmed, confirm, find_by_payment_ref, confirm_transaction, create_booking_record,
  booking_confirmed, booking_created,
}
use transhub.Trips.{scheduled, find_trip}
use transhub.Roles.{passenger}
use transhub.Accounts.{User, find_user}
use transhub.Inventory.{held_seat_ids}
use transhub.Paystack.{Reply, reply, paystack_post}
use transhub.Bookings.{Passenger}
use transhub.Trips.{Trip}
use transhub.Prelude.{◌*◌, refl}
use transhub.Payments.Initialize.{
  ChargeRequest, InitializeBody, booking_charge, initialize, initialized_charge_settles,
}
use transhub.Payments.{settle_booking_charge, settled, booking_fields, confirm_charge, Notice, sent}
use transhub.Payments.Settle.{Outcome, settle_booking_charge_lem}

abbrev held_seat : ℕ → Seat
held_seat i = record {
  id = i;
  trip_id = 5;
  label = i;
  status = held;
  held_until = some 900;
  held_by = some 42;
}

abbrev the_trip : Trip
the_trip = record {
  id = 5;
  operator_id = 7;
  origin = 1;
  destination = 2;
  departure_time = 100000;
  arrival_time = none;
  price = 3000;
  total_seats = 2;
  vehicle_type = 1;
  driver_id = none;
  park_name = none;
  amenities = [];
  status = scheduled;
  is_active = true;
  is_full = false;
  offline_count = 0;
}

abbrev db : Db
db = record {
  trips = the_trip ∷ [];
  bookings = [];
  store = record { seats = held_seat 1 ∷ held_seat 2 ∷ []; cache = []; jobs = [] };
}

abbrev metadata : Option Metadata
metadata = some (record {
  type = none;
  charter_id = none;
  waybill_id = none;
  trip_id = some 5;
  seat_ids = some (1 ∷ 2 ∷ []);
  user_id = some 42;
})

abbrev ticket : Booking
ticket = record {
  id = 9;
  user_id = 42;
  trip_id = 5;
  seat_ids = 1 ∷ 2 ∷ [];
  passengers = [];
  status = confirmed;
  total_amount = 6000;
  payment_ref = some 77;
}

abbrev sold : Db
sold = record db {
  bookings = ticket ∷ [];
  store = record { seats = map book (held_seat 1 ∷ held_seat 2 ∷ []); cache = []; jobs = [] };
}

abbrev news : List Notice
news = sent (booking_confirmed 9 42 5 (1 ∷ 2 ∷ []) 6000 77) ∷ sent (booking_created 7 9 5) ∷ []

charge_settles :
    settle_booking_charge (λ x. x) (λ x. x) true none 9 77 600000 metadata db
    ≡ returns (settled ticket, sold, news)
unfolding settle_booking_charge booking_fields confirm_charge confirm find_by_payment_ref find_trip
    find_first confirm_transaction lock_and_mark_booked create_booking_record release_hold_keys
    count_where update_many find_many
charge_settles = refl

settle_booking_charge_lem_example :
    Outcome 77 600000 metadata db
      (λ d user. confirm (λ x. x) (λ x. x) true 9 d user db)
      (settle_booking_charge (λ x. x) (λ x. x) true none 9 77 600000 metadata db)
settle_booking_charge_lem_example =
    settle_booking_charge_lem (λ x. x) (λ x. x) true none 9 77 600000 metadata db

abbrev lookup : ℕ → Result (Option VerifiedTransaction)
lookup ref =
    returns (some (record { state = tx_success; amount_kobo = 600000; metadata = metadata }))

abbrev payer : User
payer = record {
  id = 42;
  email = 420;
  password = 1;
  full_name = 2;
  phone = 3;
  role = passenger;
  operator_id = none;
}

-- Paystack that answers with an address.
abbrev answering : ChargeRequest → Reply InitializeBody
answering c = reply 200 (some (record { authorization_url = some 999 }))

initialized_charge_settles_example :
    let charge = booking_charge 420 77 5 the_trip (1 ∷ 2 ∷ []) 42 in
    (cached : Option (List Passenger)) × (b : Booking) × (db' : Db) × (out : List Notice)
    × (initialize answering true 100 77 42 (record { trip_id = 5; passengers = [] }) (payer ∷ []) db
        ≡ returns (999, 77, cached))
    × (settle_booking_charge
          (λ x. x)
          (λ x. x)
          true
          cached
          9
          77
          charge.amount_kobo
          (some charge.metadata)
          db
        ≡ returns (settled b, db', out))
    × (b.user_id ≡ 42)
    × (b.trip_id ≡ 5)
    × (b.seat_ids ≡ 1 ∷ 2 ∷ [])
    × (b.total_amount * 100 ≡ charge.amount_kobo)
unfolding held_seat_ids find_trip find_user find_first find_many find_by_payment_ref paystack_post
initialized_charge_settles_example =
    initialized_charge_settles answering true 100 77 42 9 999
      (record { trip_id = 5; passengers = [] }) (payer ∷ []) db the_trip payer (1 ∷ 2 ∷ []) refl
      refl refl refl refl (refl, (refl, tt)) refl refl refl
