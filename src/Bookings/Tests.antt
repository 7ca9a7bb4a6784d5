-- ===== src/Bookings/Tests.antt =====
-- Two confirms of one payment on a bus with two seats that are held, and holds on free ones.
use transhub.Prelude.{
  map, ℕ, ◌≡◌, refl, true, false, none, some, List, [], ◌∷◌, arith, update_many, count_where,
  find_first, find_many,
}
use transhub.Errors.{returns}
use transhub.Inventory.{Seat, held, lock_and_mark_booked, book}
use transhub.Inventory.Service.{release_hold_keys}
use transhub.Bookings.{
  booking_created, booking_confirmed, Db, ConfirmInput, Booking, confirmed, confirm,
  find_by_payment_ref, confirm_transaction, create_booking_record, Emission,
}
use transhub.Inventory.{available}
use transhub.Trips.{CreateTripInput, Trip, scheduled, find_trip}
use transhub.Bookings.Race.{confirm_raced}
use transhub.Trips.Search.{SearchTripsQuery, departure}

abbrev held_seat : ℕ → Seat
held_seat i = record {
  id = i;
  trip_id = 5;
  label = i;
  status = held;
  held_until = some 900;
  held_by = some 42;
}

abbrev db : Db
db = record {
  trips =
      record {
        id = 5;
        operator_id = 7;
        origin = 1;
        destination = 2;
        departure_time = 100000;
        arrival_time = none;
        price = 3000;
        total_seats = 2;
        vehicle_type = 1;
        driver_id = none;
        park_name = none;
        amenities = [];
        status = scheduled;
        is_active = true;
        is_full = false;
        offline_count = 0;
      }
      ∷ [];
  bookings = [];
  store = record { seats = held_seat 1 ∷ held_seat 2 ∷ []; cache = []; jobs = [] };
}

abbrev order : ConfirmInput
order = record { payment_ref = 77; trip_id = 5; seat_ids = 1 ∷ 2 ∷ []; passengers = [] }

abbrev trip_five : Trip
trip_five = record {
  id = 5;
  operator_id = 7;
  origin = 1;
  destination = 2;
  departure_time = 100000;
  arrival_time = none;
  price = 3000;
  total_seats = 2;
  vehicle_type = 1;
  driver_id = none;
  park_name = none;
  amenities = [];
  status = scheduled;
  is_active = true;
  is_full = false;
  offline_count = 0;
}

abbrev ticket : Booking
ticket = record {
  id = 9;
  user_id = 42;
  trip_id = 5;
  seat_ids = 1 ∷ 2 ∷ [];
  passengers = [];
  status = confirmed;
  total_amount = 6000;
  payment_ref = some 77;
}

abbrev bought : Booking × Db × List Emission
bought = (
  ticket,
  record db {
    bookings = ticket ∷ [];
    store = record { seats = map book (held_seat 1 ∷ held_seat 2 ∷ []); cache = []; jobs = [] };
  },
  booking_confirmed 9 42 5 (1 ∷ 2 ∷ []) 6000 77 ∷ booking_created 7 9 5 ∷ [],
)

confirm_runs : confirm (λ x. x) (λ x. x) true 9 order 42 db ≡ returns bought
unfolding confirm find_by_payment_ref find_trip find_first confirm_transaction lock_and_mark_booked
    create_booking_record release_hold_keys count_where update_many find_many
confirm_runs = refl

no_booking : find_by_payment_ref 77 db.bookings ≡ none
unfolding find_by_payment_ref find_first
no_booking = refl

the_trip : find_trip 5 db.trips ≡ some trip_five
unfolding find_trip find_first
the_trip = refl

confirm_raced_example :
    confirm (λ x. bought.1) (λ x. x) true 10 order 42 db ≡ returns (bought.0, bought.1, [])
confirm_raced_example =
    confirm_raced true true 9 10 order 42 db trip_five bought no_booking the_trip (omega arith)
      confirm_runs

-- Two seats that are free, of which one is kept for a walk-in.
abbrev free_seat : ℕ → Seat
free_seat i = record {
  id = i;
  trip_id = 5;
  label = i;
  status = available;
  held_until = none;
  held_by = none;
}

abbrev walk_in_trip : Trip
walk_in_trip = record trip_five { offline_count = 1 }

abbrev walk_in_db : Db
walk_in_db = record {
  trips = walk_in_trip ∷ [];
  bookings = [];
  store = record { seats = free_seat 1 ∷ free_seat 2 ∷ []; cache = []; jobs = [] };
}

abbrev trip_input : CreateTripInput
trip_input = record {
  origin = 1;
  destination = 2;
  departure_time = 100000;
  arrival_time = none;
  price = 3000;
  total_seats = 4;
  vehicle_type = 1;
  driver_id = none;
  park_name = none;
  amenities = [];
}

abbrev no_trips : Db
no_trips = record {
  trips = [];
  bookings = [];
  store = record { seats = []; cache = []; jobs = [] };
}

-- Two passengers look for a bus on day 1.
abbrev two_to_go : SearchTripsQuery
two_to_go = record {
  origin = 1;
  destination = 2;
  date = 1;
  passengers = 2;
  vehicle_type = none;
  min_price = none;
  max_price = none;
  amenities = [];
  operator_id = none;
  sort = departure;
  page = 1;
  limit = 20;
}

abbrev morning_bus : Trip
morning_bus = record walk_in_trip {
  origin = 1;
  destination = 2;
  departure_time = 90000000;
  offline_count = 0;
}

abbrev morning_db : Db
morning_db = record walk_in_db { trips = morning_bus ∷ [] }
