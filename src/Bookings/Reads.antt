-- ===== src/Bookings/Reads.antt =====
-- The reads of backend/src/modules/bookings: the lists of a role, a single booking and the passengers of a
-- trip, with the guards of bookings.routes.ts for the first two. A row stands for its DTO; when it was
-- created and how a text matches a row are arguments.
pub mod Opened
mod Tests
use transhub.Prelude.{
  ℕ, Bool, true, false, not, ◌&&◌, ◌||◌, Option, none, some, List, [], ◌∷◌, ◌==◌, leb, length, is,
  is_some, find_many, find_first, order_by, if◌then◌else◌, map,
}
use transhub.Errors.{Result, returns, throws, throw_if}
use transhub.Errors.{app, not_found_error, forbidden_error}
use transhub.Roles.{Role, passenger, admin, operator, driver, same_role, require_role}
use transhub.Accounts.{User}
use transhub.ListQuery.{Range, to_date_range, to_number_range, is_in_range}
use transhub.Pagination.{PaginationQuery, PageMeta, to_skip_take, page_meta, items}
use transhub.Trips.{Trip, find_trip}
use transhub.Bookings.{Booking, BookingStatus, Passenger, pending, confirmed, cancelled, refunded}

pub record BookingListFilter : Type 0 where
  pub status : Option BookingStatus
  pub operator_id : Option ℕ
  pub min_amount : Option ℕ
  pub max_amount : Option ℕ
  pub date_from : Option ℕ
  pub date_to : Option ℕ
  pub search : Option ℕ

-- The trips that the rows join, when a booking was created, and whether a text matches a row.
pub record Tables : Type 0 where
  pub trips : List Trip
  pub created_at : ℕ → ℕ
  pub is_match : ℕ → Booking → Bool

abbrev pub has_id : ℕ → Booking → Bool
has_id i b = b.id == i

abbrev pub same_status : BookingStatus → BookingStatus → Bool
same_status pending pending = true
same_status confirmed confirmed = true
same_status cancelled cancelled = true
same_status refunded refunded = true
same_status _ _ = false

abbrev pub has_status : Option BookingStatus → Booking → Bool
has_status none b = true
has_status (some s) b = same_status s b.status

abbrev pub runs : ℕ → Option Trip → Bool
runs o none = false
runs o (some t) = t.operator_id == o

-- `trip: { operatorId }`.
abbrev pub is_of_operator : Tables → ℕ → Booking → Bool
unfolding find_trip
is_of_operator db o b = runs o (find_trip b.trip_id db.trips)

abbrev pub has_operator : Tables → Option ℕ → Booking → Bool
has_operator db none b = true
has_operator db (some o) b = is_of_operator db o b

abbrev pub is_searched : Tables → Option ℕ → Booking → Bool
is_searched db none b = true
is_searched db (some q) b = db.is_match q b

unfoldable pub build_booking_where : Tables → BookingListFilter → Booking → Bool
unfolding to_number_range to_date_range is_in_range
build_booking_where db f b =
    has_status f.status b
    && has_operator db f.operator_id b
    && is_in_range (to_number_range f.min_amount f.max_amount) b.total_amount
    && is_in_range (to_date_range f.date_from f.date_to) (db.created_at b.id)
    && is_searched db f.search b

abbrev pub is_newer : Tables → Booking → Booking → Bool
is_newer db b c = leb (db.created_at c.id) (db.created_at b.id)

-- A page of the rows that a WHERE selects, newest first, with their number.
abbrev pub page_of : (Booking → Bool) → PaginationQuery → Tables → List Booking → List Booking × ℕ
unfolding to_skip_take
page_of is_selected p db bookings =
    let found = find_many is_selected bookings in
    (items (to_skip_take p) (order_by (is_newer db) found), length found)

abbrev pub without_operator : BookingListFilter → BookingListFilter
without_operator f = record f { operator_id = none }

unfoldable pub find_all :
    BookingListFilter → PaginationQuery → Tables → List Booking → List Booking × ℕ
unfolding build_booking_where
find_all f p db = page_of (build_booking_where db f) p db

unfoldable pub find_by_operator :
    ℕ → BookingListFilter → PaginationQuery → Tables → List Booking → List Booking × ℕ
unfolding build_booking_where
find_by_operator o f p db =
    page_of (λ b. is_of_operator db o b && build_booking_where db (without_operator f) b) p db

unfoldable pub find_by_user :
    ℕ → BookingListFilter → PaginationQuery → Tables → List Booking → List Booking × ℕ
unfolding build_booking_where
find_by_user user f p db =
    page_of (λ b. b.user_id == user && build_booking_where db (without_operator f) b) p db

-- `list`, up to the place of the page.
abbrev pub listed :
    ℕ
    → Role
    → Option ℕ
    → BookingListFilter
    → PaginationQuery
    → Tables
    → List Booking
    → List Booking × ℕ
unfolding find_all find_by_operator find_by_user
listed user admin company f p db bookings = find_all f p db bookings
listed user operator (some o) f p db bookings = find_by_operator o f p db bookings
listed user role company f p db bookings = find_by_user user f p db bookings

unfoldable pub list :
    ℕ
    → Role
    → Option ℕ
    → BookingListFilter
    → PaginationQuery
    → Tables
    → List Booking
    → List Booking × PageMeta
unfolding page_meta
list user role company f p db bookings =
    let found = listed user role company f p db bookings in (found.0, page_meta found.1 p)

abbrev pub opened : ℕ → Role → Option Booking → Result Booking
opened user role none = throws (app not_found_error)
opened user role (some b) =
    throw_if (not (same_role role admin) && not (b.user_id == user)) forbidden_error (returns b)

unfoldable pub get_by_id : ℕ → ℕ → Role → List Booking → Result Booking
get_by_id i user role bookings = opened user role (find_first (has_id i) bookings)

-- `GET /bookings` and `GET /bookings/:id`, of a user who is logged in.
unfoldable pub list_bookings :
    ℕ
    → Role
    → Option ℕ
    → BookingListFilter
    → PaginationQuery
    → Tables
    → List Booking
    → Result (List Booking × PageMeta)
unfolding require_role list
list_bookings user role company f p db bookings =
    require_role (passenger ∷ admin ∷ operator ∷ []) (some role)
      (returns (list user role company f p db bookings))

unfoldable pub get_booking : ℕ → ℕ → Role → List Booking → Result Booking
unfolding require_role get_by_id
get_booking i user role bookings =
    require_role (passenger ∷ admin ∷ []) (some role) (get_by_id i user role bookings)

pub record TripPassengerDto : Type 0 where
  pub booking_id : ℕ
  pub seat_count : ℕ
  pub status : BookingStatus
  pub passengers : List Passenger

abbrev pub passenger_dto : Booking → TripPassengerDto
passenger_dto b = record {
  booking_id = b.id;
  seat_count = length b.seat_ids;
  status = b.status;
  passengers = b.passengers;
}

abbrev pub is_boarding : ℕ → Booking → Bool
is_boarding trip b = b.trip_id == trip && same_status confirmed b.status

unfoldable pub find_passengers_by_trip_id : ℕ → Tables → List Booking → List TripPassengerDto
find_passengers_by_trip_id trip db bookings =
    map passenger_dto (order_by (λ b c. is_newer db c b) (find_many (is_boarding trip) bookings))

-- The account that is linked to the operator of a trip.
abbrev pub is_linked : ℕ → User → Bool
is_linked o u = is u.operator_id o

abbrev pub is_user : ℕ → Option User → Bool
is_user i none = false
is_user i (some u) = u.id == i

abbrev pub may_board : List User → Trip → ℕ → Role → Bool
may_board users t requester role =
    is_user requester (find_first (is_linked t.operator_id) users)
    || (same_role role driver && is t.driver_id requester)
    || same_role role admin

abbrev pub if_may_board : {A : Type 0} → List User → ℕ → Role → A → Option Trip → Result A
if_may_board users requester role dtos none = throws (app not_found_error)
if_may_board users requester role dtos (some t) =
    throw_if (not (may_board users t requester role)) forbidden_error (returns dtos)

unfoldable pub get_passengers_by_trip_id :
    ℕ → ℕ → Role → List User → Tables → List Booking → Result (List TripPassengerDto)
unfolding find_trip find_passengers_by_trip_id
get_passengers_by_trip_id trip requester role users db bookings =
    if_may_board users requester role (find_passengers_by_trip_id trip db bookings)
      (find_trip trip db.trips)
