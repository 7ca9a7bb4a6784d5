-- ===== src/Bookings.antt =====
-- The bookings module (backend/src/modules/bookings): the rows of bookings, the hold of
-- bookings.service.ts and its confirm. What other requests do to the database before the transaction
-- of a confirm, and after it has failed, are arguments, and so is whether Redis answers.
pub mod Confirm
pub mod Race
pub mod Capacity
pub mod Found
pub mod Reads
mod Tests
use transhub.Prelude.{
  ℕ, zero, suc, ◌+◌, ◌-◌, ◌*◌, ◌/◌, ◌%◌, ◌<◌, ◌≤◌, ◌≡◌, ◌≢◌, ◌↔◌, refl, sym, ap, ◌∙◌, ◌⊎◌, inl, inr,
  subst, Bool, true, false, not, ◌&&◌, ◌||◌, Option, none, some, List, [], ◌∷◌, ◌++◌, ◌==◌, ltb,
  leb, if◌then◌else◌, is_some, is, includes, length, arith, Bool-cases, Option-cases, ==_iff,
  ==_refl, update_many, count_where, find_first, find_first-some,
}
use transhub.Errors.{Result, returns, throws, ◌>>=◌, throw_if, Ensures}
use transhub.Errors.{
  Thrown, app, not_found_error, conflict_error, trip_unavailable, trip_full, unique_violation,
  is_conflict,
}
use transhub.Trips.{Trip, is_open, find_trip}
use transhub.Inventory.{lock_and_mark_booked}
use transhub.Inventory.Service.{Store, HoldResult, hold_seats, release_hold_keys}

-- One passenger of passengerInfoSchema.
pub record Passenger : Type 0 where
  pub full_name : ℕ
  pub phone : ℕ
  pub email : Option ℕ
  pub next_of_kin_name : ℕ
  pub next_of_kin_phone : ℕ
  pub special_needs : Option ℕ

pub data BookingStatus : Type 0 where
  pending confirmed cancelled refunded : BookingStatus

-- A booking with the seats of its `booked_seats` rows.
pub record Booking : Type 0 where
  pub id : ℕ
  pub user_id : ℕ
  pub trip_id : ℕ
  pub seat_ids : List ℕ
  pub passengers : List Passenger
  pub status : BookingStatus
  pub total_amount : ℕ
  pub payment_ref : Option ℕ

pub record Db : Type 0 where
  pub trips : List Trip
  pub bookings : List Booking
  pub store : Store

-- confirmSchema.
pub record ConfirmInput : Type 0 where
  pub payment_ref : ℕ
  pub trip_id : ℕ
  pub seat_ids : List ℕ
  pub passengers : List Passenger

pub data Emission : Type 0 where
  booking_confirmed : ℕ → ℕ → ℕ → List ℕ → ℕ → ℕ → Emission
  booking_created : ℕ → ℕ → ℕ → Emission

unfoldable pub find_by_payment_ref : ℕ → List Booking → Option Booking
find_by_payment_ref ref = find_first (λ b. is b.payment_ref ref)

-- `findTripBookingState` is a read of the trip.
-- `hold`: Redis and the queue may be down, `now` and `later` are two readings of the clock, and
-- `locked` are the rows that other transactions have locked.
unfoldable pub hold : Bool → Bool → ℕ → ℕ → List ℕ → ℕ → ℕ → ℕ → Db → Result (HoldResult × Db)
unfolding find_trip hold_seats
hold redis_up queue_up now later locked trip quantity user db = elim (find_trip trip db.trips) [
  | none ↦ throws (app not_found_error)
  | some t ↦ throw_if (not (is_open t.status)) (conflict_error trip_unavailable) (
      throw_if (not t.is_active) (conflict_error trip_unavailable) (
        throw_if t.is_full (conflict_error trip_full) do
          r ← hold_seats redis_up queue_up now later locked trip quantity user db.store
          returns (r.0, record db { store = r.1 })))
]

-- The unique index on `booked_seats.seatId` and the one on `bookings.paymentRef`.
abbrev pub clashes : List ℕ → List ℕ → Bool
clashes [] taken = false
clashes (s ∷ ss) taken = includes taken s || clashes ss taken

abbrev pub has_twice : List ℕ → Bool
has_twice [] = false
has_twice (s ∷ ss) = includes ss s || has_twice ss

abbrev pub is_taken : List ℕ → List Booking → Bool
is_taken seat_ids [] = false
is_taken seat_ids (b ∷ bs) = clashes seat_ids b.seat_ids || is_taken seat_ids bs

-- `createBookingRecord`, in the transaction whose rows are `db`.
unfoldable pub create_booking_record : ℕ → ConfirmInput → ℕ → ℕ → Db → Result (Booking × Db)
unfolding find_by_payment_ref
create_booking_record i d user total db =
    let b : Booking = record {
      id = i;
      user_id = user;
      trip_id = d.trip_id;
      seat_ids = d.seat_ids;
      passengers = d.passengers;
      status = confirmed;
      total_amount = total;
      payment_ref = some d.payment_ref;
    } in
    if is_some (find_by_payment_ref d.payment_ref db.bookings)
      || is_taken d.seat_ids db.bookings
      || has_twice d.seat_ids
    then throws unique_violation
    else returns (b, record db { bookings = b ∷ db.bookings })

-- The transaction of `confirm`; what it throws rolls it back.
unfoldable pub confirm_transaction : ℕ → ConfirmInput → ℕ → ℕ → Db → Result (Booking × Db)
unfolding lock_and_mark_booked create_booking_record
confirm_transaction i d user total db = do
  seats ← lock_and_mark_booked d.trip_id d.seat_ids user db.store.seats
  create_booking_record i d user total (record db { store = record db.store { seats = seats } })

-- What is emitted once the booking is made.
confirm_emissions : ConfirmInput → ℕ → ℕ → Booking → Option Trip → List Emission
confirm_emissions d user total b none =
    booking_confirmed b.id user d.trip_id d.seat_ids total d.payment_ref ∷ []
confirm_emissions d user total b (some t) =
    booking_confirmed b.id user d.trip_id d.seat_ids total d.payment_ref
    ∷ booking_created t.operator_id b.id d.trip_id
    ∷ []

-- The `catch` of `confirm`: a conflict is looked up again by the payment's reference.
unfoldable pub confirm_caught : Thrown → ConfirmInput → Db → Result (Booking × Db × List Emission)
unfolding find_by_payment_ref is_conflict
confirm_caught e d db =
    if is_conflict e
    then elim (find_by_payment_ref d.payment_ref db.bookings) [
      | none ↦ throws e
      | some b ↦ returns (b, db, [])
    ]
    else throws e

unfoldable pub confirm :
    (Db → Db) → (Db → Db) → Bool → ℕ → ConfirmInput → ℕ → Db → Result (Booking × Db × List Emission)
unfolding find_by_payment_ref find_trip confirm_transaction release_hold_keys confirm_emissions
    confirm_caught
confirm before after redis_up i d user db = elim (find_by_payment_ref d.payment_ref db.bookings) [
  | some b ↦ returns (b, db, [])
  | none ↦ elim (find_trip d.trip_id db.trips) [
    | none ↦ throws (app not_found_error)
    | some t ↦
        let total = length d.seat_ids * t.price in
        elim (confirm_transaction i d user total (before db)) [
          | throws e ↦ confirm_caught e d (after (before db))
          | returns r ↦ returns (
            r.0,
            record r.1 { store = release_hold_keys redis_up d.trip_id d.seat_ids user r.1.store },
            confirm_emissions d user total r.0 (find_trip d.trip_id r.1.trips),
          )
        ]
  ]
]
