-- ===== src/Analytics/Tests.antt =====
-- Bookings of two companies, and one that is only held.
use transhub.Prelude.{
  true, false, ℕ, ◌+◌, ◌-◌, ◌*◌, ◌==◌, if◌then◌else◌, ◌≡◌, refl, none, some, List, [], ◌∷◌,
  find_many, count_where, find_first, sum_by, arith,
}
use transhub.Accounts.{Operator, approved, find_operator}
use transhub.Trips.{Trip, scheduled, find_trip}
use transhub.Bookings.{Booking, BookingStatus, confirmed, pending}
use transhub.Analytics.{
  Group, get_revenue_by_day, get_bookings_by_operator, get_summary, revenue, group_by,
}
use transhub.Analytics.Totals.{
  charted_from_one, companies_earn_total, earned, is_day, is_confirmed_on,
}

abbrev sold : ℕ → ℕ → BookingStatus → ℕ → Booking
sold i trip status amount = record {
  id = i;
  user_id = 42;
  trip_id = trip;
  seat_ids = i ∷ [];
  passengers = [];
  status = status;
  total_amount = amount;
  payment_ref = some (800 + i);
}

abbrev bookings : List Booking
bookings =
    sold 1 5 confirmed 3000
    ∷ sold 2 6 confirmed 4000
    ∷ sold 3 5 pending 900
    ∷ sold 4 5 confirmed 200
    ∷ []

abbrev day : ℕ
day = 86400000

-- At 23:30 UTC of the day 100, which is 00:30 of the next in Lagos, and a day later the last one.
abbrev created_at : ℕ → ℕ
created_at i = if i == 4 then 102 * day - 1800000 else 101 * day - 1800000

charted_from_one_example :
    sum_by (earned (is_day 100)) (get_revenue_by_day created_at (102 * day) 3 bookings)
    ≡ revenue (find_many (is_confirmed_on created_at 100) bookings)
charted_from_one_example =
    charted_from_one created_at (102 * day) 3 100 bookings (omega arith) (omega arith)

abbrev trip : ℕ → ℕ → Trip
trip i company = record {
  id = i;
  origin = 1;
  destination = 2;
  departure_time = 100000;
  arrival_time = none;
  price = 3000;
  total_seats = 2;
  vehicle_type = 1;
  driver_id = none;
  park_name = none;
  amenities = [];
  status = scheduled;
  is_active = true;
  is_full = false;
  offline_count = 0;
  operator_id = company;
}

abbrev company : ℕ → Operator
company i = record {
  id = i;
  company_name = i;
  contact_name = 2;
  email = 30 + i;
  phone = 4;
  city = 5;
  fleet_size = 6;
  vehicle_types = [];
  routes = 8;
  years_in_operation = 9;
  cac_number = 10;
  additional_info = none;
  status = approved;
  reviewed_at = none;
}

companies_earn_total_example :
    sum_by
      (λ (g : Group). g.revenue)
      (get_bookings_by_operator 20 (company 7 ∷ company 8 ∷ []) (trip 5 7 ∷ trip 6 8 ∷ []) bookings)
    ≡ (get_summary bookings (trip 5 7 ∷ trip 6 8 ∷ [])).total_revenue
unfolding find_many find_first find_trip find_operator count_where group_by
companies_earn_total_example =
    companies_earn_total 20 (company 7 ∷ company 8 ∷ []) (trip 5 7 ∷ trip 6 8 ∷ []) bookings refl
      (omega arith)
