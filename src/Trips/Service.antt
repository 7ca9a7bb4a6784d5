-- ===== src/Trips/Service.antt =====
-- The handlers of the trips module that write (backend/src/modules/trips/trips.service.ts), with the
-- guards of trips.controller.ts. The events go to the sockets of those who look at a trip.
use transhub.Prelude.{
  ℕ, Bool, not, ◌&&◌, ◌||◌, Option, none, some, List, [], ◌∷◌, ◌==◌, ltb, leb, if◌then◌else◌,
  is_some, find_many, count_where, find_first,
}
use transhub.Errors.{Result, returns, throws, ◌>>=◌, throw_if}
use transhub.Errors.{
  app, foreign_key_violation, forbidden_error, not_found_error, conflict_error, conflict,
}
use transhub.Roles.{admin, driver, same_role}
use transhub.Accounts.{Accounts, Driver, AuthUser, is_approved, find_operator}
use transhub.Inventory.{Seat}
use transhub.Trips.{
  Trip, TripDto, CreateTripInput, OwnerFilter, anyone, of_operator, of_driver, find_trip, create,
  toggle_active, mark_full, set_offline_count, count_available_seats, is_own_trip,
}

pub data Event : Type 0 where
  capacity_changed : ℕ → Bool → ℕ → Event

-- `driversService.getById`, scoped to the company.
unfoldable pub find_driver : ℕ → ℕ → List Driver → Option Driver
find_driver i company = find_first (λ d. d.id == i && d.operator_id == company)

-- The check of a driver that the input names.
unfoldable pub driver_allowed : {A : Type 0} → Option ℕ → ℕ → List Driver → Result A → Result A
unfolding find_driver
driver_allowed none company drivers rest = rest
driver_allowed (some i) company drivers rest = elim (find_driver i company drivers) [
  | none ↦ throws (app not_found_error)
  | some d ↦ throw_if (not d.is_active) (conflict_error conflict) rest
]

unfoldable pub create_trip :
    ℕ
    → (ℕ → ℕ)
    → CreateTripInput
    → ℕ
    → Accounts
    → List Trip
    → List Seat
    → Result (TripDto × List Trip × List Seat)
unfolding find_operator driver_allowed create
create_trip i seat_id d company accounts trips seats =
    elim (find_operator company accounts.operators) [
      | none ↦ throws (app not_found_error)
      | some o ↦ throw_if (not (is_approved o.status)) (conflict_error conflict) (
          driver_allowed d.driver_id company accounts.drivers
            (returns (create i seat_id company d trips seats)))
    ]

-- The guard of a route for operators.
abbrev pub with_operator_id : {A : Type 0} → AuthUser → (ℕ → Result A) → Result A
with_operator_id caller next = elim caller.operator_id [
  | none ↦ throws (app forbidden_error)
  | some company ↦ next company
]

unfoldable pub create_request :
    ℕ
    → (ℕ → ℕ)
    → CreateTripInput
    → AuthUser
    → Accounts
    → List Trip
    → List Seat
    → Result (TripDto × List Trip × List Seat)
unfolding create_trip
create_request i seat_id d caller accounts trips seats =
    with_operator_id caller (λ company. create_trip i seat_id d company accounts trips seats)

-- `null` becomes NotFoundError.
abbrev pub found_or_throw : {A B : Type 0} → Option A × B → Result (A × B)
found_or_throw (none, b) = throws (app not_found_error)
found_or_throw (some a, b) = returns (a, b)

unfoldable pub toggle_request :
    ℕ → Bool → AuthUser → List Trip → List Seat → Result (TripDto × List Trip)
unfolding toggle_active
toggle_request i is_active caller trips seats =
    with_operator_id caller
      (λ company. found_or_throw (toggle_active i company is_active trips seats))

-- `deleteMany`: the seats go with the trip, and a booking of the trip, `has_bookings`, stops it.
unfoldable pub delete_request :
    (ℕ → Bool) → ℕ → AuthUser → List Trip → List Seat → Result (List Trip × List Seat)
delete_request has_bookings i caller trips seats = with_operator_id caller (λ company.
    if count_where (is_own_trip i (of_operator (some company))) trips == 0
    then throws (app not_found_error)
    else if has_bookings i
    then throws foreign_key_violation
    else returns (
      find_many (λ t. not (is_own_trip i (of_operator (some company)) t)) trips,
      find_many (λ s. not (s.trip_id == i)) seats,
    ))

-- Whom a write of the capacity is scoped to, and the guard of the controller.
abbrev pub owner_filter : AuthUser → OwnerFilter
owner_filter caller =
    if same_role caller.role admin
    then anyone
    else if same_role caller.role driver
    then of_driver (some caller.id)
    else of_operator caller.operator_id

abbrev pub may_set_capacity : AuthUser → Bool
may_set_capacity caller =
    same_role caller.role admin || same_role caller.role driver || is_some caller.operator_id

unfoldable pub mark_full_request :
    ℕ → Bool → AuthUser → List Trip → List Seat → Result (TripDto × List Trip × List Event)
unfolding mark_full
mark_full_request i is_full caller trips seats =
    throw_if (not (may_set_capacity caller)) forbidden_error (do
      r ← found_or_throw (mark_full i (owner_filter caller) is_full trips seats)
      returns (r.0, r.1, capacity_changed i is_full (r.0).offline_count ∷ []))

-- The difference of the available seats and the walk-ins is not above 0.
unfoldable pub auto_full : ℕ → ℕ → Trip → List Seat → Bool
unfolding count_available_seats
auto_full i offline current seats =
    leb (count_available_seats i seats) offline && not current.is_full

unfoldable pub set_offline_count_request :
    ℕ → ℕ → AuthUser → List Trip → List Seat → Result (TripDto × List Trip × List Event)
unfolding find_trip set_offline_count auto_full
set_offline_count_request i offline caller trips seats =
    throw_if (not (may_set_capacity caller)) forbidden_error (elim (find_trip i trips) [
      | none ↦ throws (app not_found_error)
      | some current ↦ throw_if (ltb current.total_seats offline) (conflict_error conflict) (do
        r ← found_or_throw (
            set_offline_count i (owner_filter caller) offline (auto_full i offline current seats)
              trips seats)
        returns (r.0, r.1, capacity_changed i (r.0).is_full offline ∷ []))
    ])
