-- ===== src/Trips.antt =====
-- The trips module (backend/src/modules/trips): the rows, their seats and the writes of
-- trips.repository.ts. An instant is a number of milliseconds; the name of the company, which a reply
-- joins to a trip, is left out.
pub mod Service
pub mod Labels
pub mod Capacity
pub mod Search
pub mod Cities
pub mod Lists
mod Tests
use transhub.Prelude.{
  ℕ, zero, suc, ◌+◌, ◌-◌, ◌*◌, ◌/◌, ◌%◌, ◌<◌, ◌≤◌, ◌≡◌, ◌≢◌, ◌↔◌, refl, sym, ap, ◌∙◌, ◌⊎◌, inl, inr,
  subst, Bool, true, false, not, ◌&&◌, ◌||◌, Option, none, some, List, [], ◌∷◌, ◌++◌, ◌==◌, ltb,
  leb, if◌then◌else◌, is_some, is, find_many, length, map, arith, Bool-cases, Option-cases, ==_iff,
  ==_refl, update_many, count_where, find_first, find_first-some,
}
use transhub.Errors.{Result, returns, throws, ◌>>=◌, throw_if, Ensures}
use transhub.Errors.{Thrown, app, foreign_key_violation}
use transhub.Inventory.{Seat, SeatStatus, available, is_available}

-- The enum TripStatus.
pub data TripStatus : Type 0 where
  scheduled active trip_completed trip_cancelled : TripStatus

-- `status: { in: ["scheduled", "active"] }`.
abbrev pub is_open : TripStatus → Bool
is_open scheduled = true
is_open active = true
is_open trip_completed = false
is_open trip_cancelled = false

pub record Trip : Type 0 where
  pub id : ℕ
  pub origin : ℕ
  pub destination : ℕ
  pub departure_time : ℕ
  pub arrival_time : Option ℕ
  pub price : ℕ
  pub total_seats : ℕ
  pub vehicle_type : ℕ
  pub driver_id : Option ℕ
  pub park_name : Option ℕ
  pub amenities : List ℕ
  pub status : TripStatus
  pub is_active : Bool
  pub is_full : Bool
  pub offline_count : ℕ
  pub operator_id : ℕ

-- What createTripSchema lets through, the instants parsed.
pub record CreateTripInput : Type 0 where
  pub origin : ℕ
  pub destination : ℕ
  pub departure_time : ℕ
  pub arrival_time : Option ℕ
  pub price : ℕ
  pub total_seats : ℕ
  pub vehicle_type : ℕ
  pub driver_id : Option ℕ
  pub park_name : Option ℕ
  pub amenities : List ℕ

-- The reply: `driver_id` is there only for operators and admins.
pub record TripDto : Type 0 where
  pub id : ℕ
  pub origin : ℕ
  pub destination : ℕ
  pub departure_time : ℕ
  pub arrival_time : Option ℕ
  pub operator_id : ℕ
  pub price : ℕ
  pub total_seats : ℕ
  pub available_seats : ℕ
  pub vehicle_type : ℕ
  pub driver_id : Option (Option ℕ)
  pub park_name : Option ℕ
  pub amenities : List ℕ
  pub status : TripStatus
  pub is_active : Bool
  pub is_full : Bool
  pub offline_count : ℕ

unfoldable pub base_dto : Trip → ℕ → Bool → TripDto
base_dto t available_seats expose_driver = record {
  id = t.id;
  origin = t.origin;
  destination = t.destination;
  departure_time = t.departure_time;
  arrival_time = t.arrival_time;
  operator_id = t.operator_id;
  price = t.price;
  total_seats = t.total_seats;
  available_seats = available_seats;
  vehicle_type = t.vehicle_type;
  driver_id = if expose_driver then some t.driver_id else none;
  park_name = t.park_name;
  amenities = t.amenities;
  status = t.status;
  is_active = t.is_active;
  is_full = t.is_full;
  offline_count = t.offline_count;
}

abbrev pub is_available_of : ℕ → Seat → Bool
is_available_of trip s = s.trip_id == trip && is_available s.status

unfoldable pub count_available_seats : ℕ → List Seat → ℕ
count_available_seats trip = count_where (is_available_of trip)

-- `Math.max(0, seats - offlineCount)`: a difference on ℕ stops at 0.
unfoldable pub to_list_dto : List Seat → Bool → Trip → TripDto
unfolding base_dto count_available_seats
to_list_dto seats expose_driver t =
    base_dto t (count_available_seats t.id seats - t.offline_count) expose_driver

-- A label of two characters, by their codes; its order is the order of the strings.
abbrev pub two_chars : ℕ → ℕ → ℕ
two_chars a b = a * 256 + b

unfoldable pub seat_label : ℕ → ℕ
seat_label i = two_chars (65 + i / 4) (48 + (i % 4 + 1))

-- `Array.from({ length: count }, (_, i) => ...)`, from `i` on.
unfoldable pub labels_from : ℕ → ℕ → List ℕ
unfolding seat_label
labels_from i zero = []
labels_from i (suc n) = seat_label i ∷ labels_from (suc i) n

unfoldable pub generate_seat_labels : ℕ → List ℕ
unfolding labels_from
generate_seat_labels count = labels_from 0 count

-- `seats: { createMany }`: `seat_id` gives the id that the database draws for a label.
unfoldable pub new_seats : (ℕ → ℕ) → ℕ → List ℕ → List Seat
new_seats seat_id trip [] = []
new_seats seat_id trip (l ∷ ls) =
    record {
      id = seat_id l;
      trip_id = trip;
      label = l;
      status = available;
      held_until = none;
      held_by = none;
    }
    ∷ new_seats seat_id trip ls

unfoldable pub new_trip : ℕ → ℕ → CreateTripInput → Trip
new_trip i operator d = record {
  id = i;
  origin = d.origin;
  destination = d.destination;
  departure_time = d.departure_time;
  arrival_time = d.arrival_time;
  price = d.price;
  total_seats = d.total_seats;
  vehicle_type = d.vehicle_type;
  driver_id = d.driver_id;
  park_name = d.park_name;
  amenities = d.amenities;
  status = scheduled;
  is_active = true;
  is_full = false;
  offline_count = 0;
  operator_id = operator;
}

unfoldable pub find_trip : ℕ → List Trip → Option Trip
find_trip i = find_first (λ t. t.id == i)

-- `create`: the reply and the two tables.
unfoldable pub create :
    ℕ → (ℕ → ℕ) → ℕ → CreateTripInput → List Trip → List Seat → TripDto × List Trip × List Seat
unfolding new_trip new_seats generate_seat_labels to_list_dto
create i seat_id operator d trips seats =
    let t = new_trip i operator d in
    let more = new_seats seat_id i (generate_seat_labels d.total_seats) in
    (to_list_dto (more ++ seats) true t, t ∷ trips, more ++ seats)

-- The WHERE of a write by its owner: `{ id }`, `{ id, operatorId }` or `{ id, driverId }`.
pub data OwnerFilter : Type 0 where
  anyone : OwnerFilter
  of_operator of_driver : Option ℕ → OwnerFilter

-- A key that is undefined filters nothing.
abbrev pub is_if_given : Option ℕ → Option ℕ → Bool
is_if_given none column = true
is_if_given (some v) column = is column v

abbrev pub is_owned : OwnerFilter → Trip → Bool
is_owned anyone t = true
is_owned (of_operator o) t = is_if_given o (some t.operator_id)
is_owned (of_driver d) t = is_if_given d t.driver_id

abbrev pub is_own_trip : ℕ → OwnerFilter → Trip → Bool
is_own_trip i owner t = t.id == i && is_owned owner t

-- `updateMany`, and the row that is read back if the count is not 0.
unfoldable pub update_own :
    ℕ → OwnerFilter → (Trip → Trip) → List Trip → List Seat → Option TripDto × List Trip
unfolding find_trip to_list_dto
update_own i owner f trips seats =
    let rows = update_many (is_own_trip i owner) f trips in
    if count_where (is_own_trip i owner) trips == 0
    then (none, trips)
    else elim (find_trip i rows) [
      | none ↦ (none, rows)
      | some t ↦ (some (to_list_dto seats true t), rows)
    ]

unfoldable pub toggle_active : ℕ → ℕ → Bool → List Trip → List Seat → Option TripDto × List Trip
unfolding update_own
toggle_active i operator is_active =
    update_own i (of_operator (some operator)) (λ t. record t { is_active = is_active })

unfoldable pub mark_full :
    ℕ → OwnerFilter → Bool → List Trip → List Seat → Option TripDto × List Trip
unfolding update_own
mark_full i owner is_full = update_own i owner (λ t. record t { is_full = is_full })

abbrev pub counted : ℕ → Bool → Trip → Trip
counted offline auto_full t = record t {
  offline_count = offline;
  is_full = if auto_full then true else t.is_full;
}

unfoldable pub set_offline_count :
    ℕ → OwnerFilter → ℕ → Bool → List Trip → List Seat → Option TripDto × List Trip
unfolding update_own
set_offline_count i owner offline auto_full = update_own i owner (counted offline auto_full)
