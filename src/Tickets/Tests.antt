-- ===== src/Tickets/Tests.antt =====
-- One passenger with and without the bookings of another.
use transhub.Prelude.{ℕ, ◌+◌, ◌≡◌, refl, some, [], ◌∷◌, find_first}
use transhub.Errors.{throws}
use transhub.Errors.{app, not_found_error}
use transhub.Bookings.{Booking, confirmed}
use transhub.Tickets.{Tables, get_ticket}

abbrev booked : ℕ → ℕ → Booking
booked i user = record {
  id = i;
  user_id = user;
  trip_id = 5;
  seat_ids = i ∷ [];
  passengers = [];
  status = confirmed;
  total_amount = 3000;
  payment_ref = some (800 + i);
}

abbrev tables : Tables
tables = record { users = []; operators = []; trips = []; created_at = λ i. i }

-- The ticket of another passenger.
foreign_ticket :
    get_ticket 2 42 tables (booked 1 42 ∷ booked 2 43 ∷ []) ≡ throws (app not_found_error)
unfolding get_ticket find_first
foreign_ticket = refl
