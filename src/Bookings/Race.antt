-- ===== src/Bookings/Race.antt =====
-- Two deliveries of the same payment at once.
use transhub.Prelude.{
  lt→ltb, ℕ, ◌*◌, ◌<◌, ◌≡◌, refl, inl, inr, subst, Bool, ◌||◌, none, some, List, [], ltb, is_some,
  includes, length, count_where-erased, arith, Bool-cases, update_many, count_where,
}
use transhub.Errors.{returns, throws, Ensures}
use transhub.Errors.{
  app, is_conflict, hold_expired_error, Result-cases, Ensures-returns, returns_injective,
}
use transhub.Inventory.{Seat, lock_and_mark_booked, book, is_bookable}
use transhub.Inventory.Service.{release_hold_keys}
use transhub.Bookings.{
  has_twice, is_taken, Booking, Db, ConfirmInput, Emission, find_by_payment_ref,
  create_booking_record, confirm_transaction, confirm_caught, confirm,
}
use transhub.Trips.{find_trip, Trip}
use transhub.Bookings.Confirm.{IsRecorded, confirm-IsRecorded}

gone :
    (trip user : ℕ) (seat_ids : List ℕ) (seats : List Seat)
    → 0 < length seat_ids
    → lock_and_mark_booked trip seat_ids user (update_many (λ s. includes seat_ids s.id) book seats)
      ≡ throws (app hold_expired_error)
unfolding lock_and_mark_booked book
gone trip user seat_ids seats h =
    rw
      (
        count_where-erased (is_bookable trip seat_ids user) (λ s. includes seat_ids s.id) book seats
            (λ x m. ground arith),
        lt→ltb 0 (length seat_ids) h,
      )
      refl

-- Seats that were just booked cannot be locked again.
lock_again :
    (trip user : ℕ) (seat_ids : List ℕ) (seats seats' : List Seat)
    → 0 < length seat_ids
    → lock_and_mark_booked trip seat_ids user seats ≡ returns seats'
    → lock_and_mark_booked trip seat_ids user seats' ≡ throws (app hold_expired_error)
unfolding lock_and_mark_booked
lock_again trip user seat_ids seats seats' h e =
    elim (Bool-cases (ltb (count_where (is_bookable trip seat_ids user) seats) (length seat_ids))) [
      | inl b ↦ cc (rw b at e)
      | inr b ↦
          subst (λ x. lock_and_mark_booked trip seat_ids user x ≡ throws (app hold_expired_error))
            (returns_injective (rw b at e)) (gone trip user seat_ids seats h)
    ]

transaction-seats :
    (i : ℕ) (d : ConfirmInput) (user total : ℕ) (db : Db)
    → Ensures
        (λ q.
          lock_and_mark_booked d.trip_id d.seat_ids user db.store.seats ≡ returns q.1.store.seats)
        (confirm_transaction i d user total db)
unfolding confirm_transaction create_booking_record
transaction-seats i d user total db =
    elim (Result-cases (lock_and_mark_booked d.trip_id d.seat_ids user db.store.seats)) [
      | inl (t, e) ↦ rw e tt
      | inr (seats, e) ↦
          rw e
            (elim (Bool-cases (
              is_some (find_by_payment_ref d.payment_ref db.bookings)
              || is_taken d.seat_ids db.bookings
              || has_twice d.seat_ids)) [ inl b ↦ rw b tt | inr b ↦ rw b refl ])
    ]

-- A transaction on a database whose seats are those of an earlier one of the same kind.
transaction_again :
    (i : ℕ) (d : ConfirmInput) (user total : ℕ) (db after : Db)
    → 0 < length d.seat_ids
    → lock_and_mark_booked d.trip_id d.seat_ids user db.store.seats ≡ returns after.store.seats
    → confirm_transaction i d user total after ≡ throws (app hold_expired_error)
unfolding confirm_transaction
transaction_again i d user total db after h e =
    rw (lock_again d.trip_id user d.seat_ids db.store.seats after.store.seats h e) refl

-- The seats after a confirm that has made a booking.
confirm-seats :
    (redis_up : Bool) (i : ℕ) (d : ConfirmInput) (user : ℕ) (db : Db) (t : Trip)
    → find_by_payment_ref d.payment_ref db.bookings ≡ none
    → find_trip d.trip_id db.trips ≡ some t
    → Ensures
        (λ r.
          lock_and_mark_booked d.trip_id d.seat_ids user db.store.seats ≡ returns r.1.store.seats)
        (confirm (λ x. x) (λ x. x) redis_up i d user db)
unfolding confirm release_hold_keys confirm_caught
confirm-seats redis_up i d user db t e g =
    rw (confirm, e, g)
      (elim (Result-cases (confirm_transaction i d user (length d.seat_ids * t.price) db)) [
        | inl (x, h) ↦ rw h (elim (Bool-cases (is_conflict x)) [
          | inl b ↦ rw (confirm_caught, b, e) tt
          | inr b ↦ rw (confirm_caught, b) tt
        ])
        | inr (q, h) ↦ rw h (
            Ensures-returns
              (λ y.
                lock_and_mark_booked d.trip_id d.seat_ids user db.store.seats
                ≡ returns y.1.store.seats)
              _ q h (transaction-seats i d user (length d.seat_ids * t.price) db))
      ])

-- Two deliveries of one payment that both find no booking yet: the one that comes second to its
-- transaction finds the seats gone, looks the payment up again and gives the booking of the first, with
-- the database as the first has left it and nothing more emitted.
pub confirm_raced :
    (redis_up redis_up' : Bool) (i i' : ℕ) (d : ConfirmInput) (user : ℕ) (db : Db) (t : Trip)
    (r : Booking × Db × List Emission)
    → find_by_payment_ref d.payment_ref db.bookings ≡ none
    → find_trip d.trip_id db.trips ≡ some t
    → 0 < length d.seat_ids
    → confirm (λ x. x) (λ x. x) redis_up i d user db ≡ returns r
    → confirm (λ x. r.1) (λ x. x) redis_up' i' d user db ≡ returns (r.0, r.1, [])
unfolding confirm confirm_caught is_conflict
confirm_raced redis_up redis_up' i i' d user db t r e g h c =
    rw (confirm, e, g, lost, confirm_caught, recorded) refl
  where
    recorded : find_by_payment_ref d.payment_ref r.1.bookings ≡ some r.0
    recorded =
        Ensures-returns (IsRecorded d.payment_ref) _ r c
          (confirm-IsRecorded (λ x. x) (λ x. x) redis_up i d user db)

    lost :
        confirm_transaction i' d user (length d.seat_ids * t.price) r.1
        ≡ throws (app hold_expired_error)
    lost = transaction_again i' d user (length d.seat_ids * t.price) db r.1 h (
        Ensures-returns
          (λ y.
            lock_and_mark_booked d.trip_id d.seat_ids user db.store.seats ≡ returns y.1.store.seats)
          _ r c (confirm-seats redis_up i d user db t e g))
