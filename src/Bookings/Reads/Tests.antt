-- ===== src/Bookings/Reads/Tests.antt =====
-- Two bookings of a trip by one passenger and a cancelled one of another, read by the passenger and the driver.
use transhub.Prelude.{
  ℕ, ◌≡◌, ◌≢◌, ◌⊎◌, refl, inl, true, false, none, some, List, [], ◌∷◌, find_many, order_by,
}
use transhub.Errors.{returns, throws}
use transhub.Errors.{app, forbidden_error}
use transhub.Roles.{passenger, operator, require_role}
use transhub.Pagination.{PaginationQuery}
use transhub.Trips.{Trip, scheduled}
use transhub.Bookings.{Booking, BookingStatus, confirmed, cancelled}
use transhub.Bookings.Reads.{
  BookingListFilter, Tables, list, list_bookings, get_booking, listed, page_of, find_by_user,
  build_booking_where,
}
use transhub.Bookings.Reads.Opened.{listed_then_opened}

abbrev booked : ℕ → ℕ → BookingStatus → Booking
booked i user s = record {
  id = i;
  user_id = user;
  trip_id = 5;
  seat_ids = i ∷ [];
  passengers = [];
  status = s;
  total_amount = 3000;
  payment_ref = some i;
}

abbrev bookings : List Booking
bookings = booked 1 42 confirmed ∷ booked 2 43 cancelled ∷ booked 3 42 confirmed ∷ []

abbrev trip : Trip
trip = record {
  id = 5;
  origin = 1;
  destination = 2;
  departure_time = 100000;
  arrival_time = none;
  price = 3000;
  total_seats = 2;
  vehicle_type = 1;
  driver_id = some 90;
  park_name = none;
  amenities = [];
  status = scheduled;
  is_active = true;
  is_full = false;
  offline_count = 0;
  operator_id = 7;
}

abbrev tables : Tables
tables = record { trips = trip ∷ []; created_at = λ i. i; is_match = λ q b. true }

abbrev dear : BookingListFilter
dear = record {
  status = some confirmed;
  operator_id = some 8;
  min_amount = some 2000;
  max_amount = none;
  date_from = none;
  date_to = none;
  search = none;
}

abbrev first_page : PaginationQuery
first_page = record { page = 1; limit = 1 }

-- The newest of the passenger's bookings is the second one of the table; the operator asked for is ignored.
listed_then_opened_example :
    ((passenger ≢ operator)
      × (get_booking 3 42 passenger bookings ≡ returns (booked 3 42 confirmed)))
    ⊎ ((passenger ≡ operator)
        × (get_booking 3 42 passenger bookings ≡ throws (app forbidden_error)))
unfolding list_bookings require_role list listed page_of find_by_user build_booking_where find_many
    order_by
listed_then_opened_example =
    listed_then_opened 42 passenger none dear first_page tables bookings
      (list 42 passenger none dear first_page tables bookings) (booked 3 42 confirmed)
      ((refl, (refl, tt)), ((refl, tt), (tt, tt))) refl (inl refl)
