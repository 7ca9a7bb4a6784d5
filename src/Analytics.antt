-- ===== src/Analytics.antt =====
-- The aggregates of backend/src/modules/analytics/analytics.repository.ts, over the rows of bookings,
-- trips, vehicles and companies. When a booking was created is an argument. A sum over no rows is 0.
pub mod Totals
mod Tests
use transhub.Prelude.{
  ℕ, zero, suc, ◌+◌, ◌-◌, ◌*◌, ◌/◌, Bool, true, false, not, ◌&&◌, ◌||◌, Option, none, some, List,
  [], ◌∷◌, ◌==◌, leb, is, if◌then◌else◌, includes, count_where, find_many, order_by, sum_by, take,
}
use transhub.Accounts.{Operator, find_operator}
use transhub.ListQuery.{day_ms, wat_offset_ms}
use transhub.Trips.{Trip, is_open, find_trip}
use transhub.Bookings.{Booking, BookingStatus, confirmed}
use transhub.Vehicles.{Vehicle}

abbrev pub is_confirmed_status : BookingStatus → Bool
is_confirmed_status confirmed = true
is_confirmed_status s = false

abbrev pub is_confirmed : Booking → Bool
is_confirmed b = is_confirmed_status b.status

-- `SUM("totalAmount")`.
abbrev pub revenue : List Booking → ℕ
revenue = sum_by (λ (b : Booking). b.total_amount)

-- `COUNT(DISTINCT "userId")`.
abbrev pub distinct_users : List ℕ → List Booking → ℕ
distinct_users known [] = 0
distinct_users known (b ∷ bs) =
    (if includes known b.user_id then 0 else 1) + distinct_users (b.user_id ∷ known) bs

pub record AnalyticsSummary : Type 0 where
  pub total_revenue : ℕ
  pub total_bookings : ℕ
  pub total_passengers : ℕ
  pub active_trips : ℕ

unfoldable pub get_summary : List Booking → List Trip → AnalyticsSummary
get_summary bookings trips = record {
  total_revenue = revenue (find_many is_confirmed bookings);
  total_bookings = count_where is_confirmed bookings;
  total_passengers = distinct_users [] (find_many is_confirmed bookings);
  active_trips = count_where (λ (t : Trip). is_open t.status) trips;
}

-- One row of a GROUP BY; a route is a pair of cities, another key a pair with 0.
abbrev pub Key : Type 0
Key = ℕ × ℕ

abbrev pub same_key : Key → Key → Bool
same_key k j = k.0 == j.0 && k.1 == j.1

pub record Group : Type 0 where
  pub key : Key
  pub bookings : ℕ
  pub revenue : ℕ

-- A booking joins the group of its key, or is the first of it.
abbrev pub add_to : Key → ℕ → List Group → List Group
add_to k amount [] = record { key = k; bookings = 1; revenue = amount } ∷ []
add_to k amount (g ∷ gs) =
    let rest = add_to k amount gs in
    if same_key k g.key
    then record g { bookings = g.bookings + 1; revenue = amount + g.revenue } ∷ gs
    else g ∷ rest

-- A booking that the joins drop has no key.
abbrev pub add_row : Option Key → ℕ → List Group → List Group
add_row none amount gs = gs
add_row (some k) amount gs = add_to k amount gs

-- GROUP BY.
unfoldable pub group_by : (Booking → Option Key) → List Booking → List Group
group_by key [] = []
group_by key (b ∷ bs) = add_row (key b) b.total_amount (group_by key bs)

-- `DATE("createdAt" AT TIME ZONE 'Africa/Lagos')`: the column is a TIMESTAMP without a zone, in UTC, so it is
-- read as Lagos time, which is an hour before the instant, and the day is that of the session's zone, UTC.
abbrev pub day_of : (ℕ → ℕ) → Booking → Option Key
day_of created_at b = some ((created_at b.id - wat_offset_ms) / day_ms, 0)

abbrev pub is_recent : (ℕ → ℕ) → ℕ → Booking → Bool
is_recent created_at cutoff b = is_confirmed b && leb cutoff (created_at b.id)

abbrev pub revenue_cutoff : ℕ → ℕ → ℕ
revenue_cutoff now days = now - (days * day_ms + 60 * 60 * 1000)

unfoldable pub get_revenue_by_day : (ℕ → ℕ) → ℕ → ℕ → List Booking → List Group
unfolding group_by
get_revenue_by_day created_at now days bookings =
    order_by (λ (g h : Group). leb (g.key.0) (h.key.0))
      (group_by (day_of created_at)
        (find_many (is_recent created_at (revenue_cutoff now days)) bookings))

abbrev pub route_key : Option Trip → Option Key
route_key none = none
route_key (some t) = some (t.origin, t.destination)

abbrev pub route_of : List Trip → Booking → Option Key
unfolding find_trip
route_of trips b = route_key (find_trip b.trip_id trips)

abbrev pub earns_more : Group → Group → Bool
earns_more g h = leb h.revenue g.revenue

unfoldable pub get_top_routes : ℕ → List Trip → List Booking → List Group
unfolding group_by
get_top_routes limit trips bookings =
    take limit (order_by earns_more (group_by (route_of trips) (find_many is_confirmed bookings)))

abbrev pub company_key : Option Operator → Option Key
company_key none = none
company_key (some o) = some (o.company_name, 0)

abbrev pub company_of_trip : List Operator → Option Trip → Option Key
unfolding find_operator
company_of_trip operators none = none
company_of_trip operators (some t) = company_key (find_operator t.operator_id operators)

abbrev pub company_of : List Operator → List Trip → Booking → Option Key
unfolding find_trip
company_of operators trips b = company_of_trip operators (find_trip b.trip_id trips)

unfoldable pub get_bookings_by_operator : ℕ → List Operator → List Trip → List Booking → List Group
unfolding group_by
get_bookings_by_operator limit operators trips bookings =
    take limit (
      order_by earns_more (group_by (company_of operators trips) (find_many is_confirmed bookings)))

pub record OperatorStats : Type 0 where
  pub total_bookings : ℕ
  pub revenue : ℕ
  pub active_trips : ℕ
  pub total_vehicles : ℕ

abbrev pub is_trip_of : ℕ → Option Trip → Bool
is_trip_of operator none = false
is_trip_of operator (some t) = t.operator_id == operator

abbrev pub is_sold_by : ℕ → List Trip → Booking → Bool
unfolding find_trip
is_sold_by operator trips b = is_trip_of operator (find_trip b.trip_id trips)

unfoldable pub get_operator_stats :
    (ℕ → ℕ) → ℕ → ℕ → List Trip → List Vehicle → List Booking → OperatorStats
get_operator_stats created_at now operator trips vehicles bookings =
    let sold =
      find_many (λ b. is_sold_by operator trips b && is_recent created_at (now - 30 * day_ms) b)
        bookings in
    record {
      total_bookings =
          count_where
            (λ b. is_sold_by operator trips b && is_recent created_at (now - 30 * day_ms) b)
            bookings;
      revenue = revenue sold;
      active_trips =
          count_where (λ (t : Trip). t.operator_id == operator && is_open t.status) trips;
      total_vehicles =
          count_where (λ (v : Vehicle). v.operator_id == operator && v.is_active) vehicles;
    }
