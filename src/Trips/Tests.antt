-- ===== src/Trips/Tests.antt =====
-- A bus with two seats, its company and another.
use transhub.Prelude.{
  ℕ, In, refl, inl, count_where, ◌≡◌, true, false, none, some, List, [], ◌∷◌, map, All, arith,
}
use transhub.Roles.{operator}
use transhub.Accounts.{AuthUser}
use transhub.Inventory.{Seat, available}
use transhub.Trips.{Trip, TripDto, count_available_seats, scheduled, generate_seat_labels}
use transhub.Trips.Labels.{generate_seat_labels_lem, IsAscending, IsLabel, place_of, range_from}
use transhub.Trips.Search.Wanted.{search_sound, search_complete, IsWanted, Matches, Shows}
use transhub.Trips.Search.{SearchTripsQuery, price_asc, search_trips}

generate_seat_labels_lem_example :
    (map place_of (generate_seat_labels 18) ≡ range_from 0 18)
    × IsAscending (generate_seat_labels 18)
    × All IsLabel (generate_seat_labels 18)
generate_seat_labels_lem_example = generate_seat_labels_lem 18 (omega arith)

abbrev lagos_abuja : ℕ → Trip
lagos_abuja company = record {
  id = 5;
  origin = 1;
  destination = 2;
  departure_time = 100000;
  arrival_time = none;
  price = 3000;
  total_seats = 2;
  vehicle_type = 1;
  driver_id = none;
  park_name = none;
  amenities = [];
  status = scheduled;
  is_active = true;
  is_full = false;
  offline_count = 0;
  operator_id = company;
}

abbrev seat : ℕ → Seat
seat i = record {
  id = i;
  trip_id = 5;
  label = i;
  status = available;
  held_until = none;
  held_by = none;
}

abbrev caller : AuthUser
caller = record {
  id = 70;
  email = some 71;
  full_name = 72;
  phone = 73;
  role = operator;
  operator_id = some 7;
}

abbrev trips : List Trip
trips = lagos_abuja 7 ∷ []

abbrev seats : List Seat
seats = seat 1 ∷ seat 2 ∷ []

-- The bus on day 1, by the number of passengers.
abbrev day_one : ℕ → SearchTripsQuery
day_one passengers = record {
  origin = 1;
  destination = 2;
  date = 1;
  passengers = passengers;
  vehicle_type = none;
  min_price = none;
  max_price = some 3000;
  amenities = [];
  operator_id = none;
  sort = price_asc;
  page = 1;
  limit = 20;
}

abbrev morning_bus : Trip
morning_bus = record (lagos_abuja 7) { departure_time = 90000000 }

search_sound_example :
    All
      (IsWanted (day_one 2) (morning_bus ∷ trips) seats)
      (search_trips (day_one 2) (morning_bus ∷ trips) seats).0
search_sound_example = search_sound (day_one 2) (morning_bus ∷ trips) seats (omega arith)

morning_bus-Matches : Matches (day_one 2) morning_bus
morning_bus-Matches = record {
  leaves_from = refl;
  goes_to = refl;
  on_day = refl;
  to_be_run = inl refl;
  listed = refl;
  not_full = refl;
  of_type = λ v e. cc;
  not_cheaper = λ n e. cc;
  not_dearer = λ n e. ground (arith, e);
  amenities = λ a m. cc;
  of_company = λ o e. cc;
}

search_complete_example :
    (d : TripDto) × In d (search_trips (day_one 2) (morning_bus ∷ trips) seats).0
    × Shows seats morning_bus d
unfolding count_available_seats count_where
search_complete_example =
    search_complete (day_one 2) (morning_bus ∷ trips) seats morning_bus (omega arith) refl
      (omega arith) (omega arith) (inl refl) morning_bus-Matches (omega arith)
