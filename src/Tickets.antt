-- ===== src/Tickets.antt =====
-- The tickets of a passenger (backend/src/modules/tickets). When a booking was created and how a text
-- matches are arguments; the list is of the rows whose trips a reply joins.
pub mod Unseen
mod Tests
use transhub.Prelude.{
  ℕ, Bool, true, false, not, ◌&&◌, Option, none, some, List, ◌==◌, leb, length, is_some, find_many,
  find_first, order_by, if◌then◌else◌,
}
use transhub.Errors.{Result, returns, throws, throw_if}
use transhub.Errors.{app, not_found_error, prisma_fault}
use transhub.Accounts.{User, Operator, find_user, find_operator}
use transhub.Pagination.{PaginationQuery, PageMeta, to_skip_take, page_meta, items}
use transhub.Trips.{Trip, find_trip}
use transhub.Bookings.{Booking, BookingStatus, confirmed}

pub record Tables : Type 0 where
  pub users : List User
  pub operators : List Operator
  pub trips : List Trip
  pub created_at : ℕ → ℕ

pub record TicketDto : Type 0 where
  pub booking_id : ℕ
  pub payment_ref : Option ℕ
  pub status : BookingStatus
  pub passenger_name : ℕ
  pub passenger_phone : ℕ
  pub origin : ℕ
  pub destination : ℕ
  pub departure_time : ℕ
  pub arrival_time : Option ℕ
  pub operator : ℕ
  pub vehicle_type : ℕ
  pub seat_count : ℕ
  pub total_amount : ℕ
  pub booked_at : ℕ

abbrev pub has_id : ℕ → Booking → Bool
has_id i b = b.id == i

abbrev pub is_confirmed : BookingStatus → Bool
is_confirmed confirmed = true
is_confirmed s = false

-- The joins; the foreign keys make every one of them find its row.
unfoldable pub ticket_of : Tables → Booking → Result TicketDto
unfolding find_user find_operator find_trip
ticket_of db b = elim (find_trip b.trip_id db.trips) [
  | none ↦ throws prisma_fault
  | some t ↦ elim (find_user b.user_id db.users) [
    | none ↦ throws prisma_fault
    | some u ↦ elim (find_operator t.operator_id db.operators) [
      | none ↦ throws prisma_fault
      | some o ↦ returns (record {
        booking_id = b.id;
        payment_ref = b.payment_ref;
        status = b.status;
        passenger_name = u.full_name;
        passenger_phone = u.phone;
        origin = t.origin;
        destination = t.destination;
        departure_time = t.departure_time;
        arrival_time = t.arrival_time;
        operator = o.company_name;
        vehicle_type = t.vehicle_type;
        seat_count = length b.seat_ids;
        total_amount = b.total_amount;
        booked_at = db.created_at b.id;
      })
    ]
  ]
]

-- `findById` and `getTicket`: a booking that is not there and one of another user are answered alike.
unfoldable pub get_ticket : ℕ → ℕ → Tables → List Booking → Result TicketDto
unfolding ticket_of
get_ticket i user db bookings = elim (find_first (has_id i) bookings) [
  | none ↦ throws (app not_found_error)
  | some b ↦ if not (b.user_id == user) then throws (app not_found_error) else ticket_of db b
]

abbrev pub is_own : ℕ → Booking → Bool
is_own user b = b.user_id == user

abbrev pub matches : (ℕ → Booking → Bool) → Option ℕ → Booking → Bool
matches ilike none b = true
matches ilike (some q) b = ilike q b

-- The WHERE of `findByUser`.
abbrev pub is_listed : (ℕ → Booking → Bool) → Option ℕ → ℕ → Booking → Bool
is_listed ilike search user b = is_own user b && is_confirmed b.status && matches ilike search b

abbrev pub is_newer : Tables → Booking → Booking → Bool
is_newer db b c = leb (db.created_at c.id) (db.created_at b.id)

-- `listTickets`, the rows of the page and its place.
unfoldable pub list_tickets :
    (ℕ → Booking → Bool)
    → Option ℕ
    → ℕ
    → PaginationQuery
    → Tables
    → List Booking
    → List Booking × PageMeta
unfolding to_skip_take page_meta
list_tickets ilike search user p db bookings =
    let found = find_many (is_listed ilike search user) bookings in
    (items (to_skip_take p) (order_by (is_newer db) found), page_meta (length found) p)
