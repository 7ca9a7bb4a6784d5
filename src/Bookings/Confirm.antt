-- ===== src/Bookings/Confirm.antt =====
-- The confirm of a booking, when the same payment arrives more than once.
use transhub.Prelude.{
  ℕ, ◌*◌, ◌≡◌, refl, inl, inr, Bool, true, ◌||◌, some, List, [], is_some, is, length, Bool-cases,
  Option-cases, ==_refl, find_first,
}
use transhub.Errors.{returns, Ensures}
use transhub.Errors.{Thrown, is_conflict, Result-cases, Ensures-returns}
use transhub.Inventory.{lock_and_mark_booked}
use transhub.Bookings.{
  has_twice, is_taken, Booking, Db, ConfirmInput, Emission, find_by_payment_ref,
  create_booking_record, confirm_transaction, confirm_caught, confirm,
}
use transhub.Trips.{find_trip}

-- The payment's reference finds the booking that is returned.
abbrev pub IsRecorded : ℕ → Booking × Db × List Emission → Type 0
IsRecorded ref r = find_by_payment_ref ref r.1.bookings ≡ some r.0

is_refl : (n : ℕ) → is (some n) n ≡ true
is_refl n = rw (==_refl n) refl

create-recorded :
    (i : ℕ) (d : ConfirmInput) (user total : ℕ) (db : Db)
    → Ensures
        (λ r. find_by_payment_ref d.payment_ref r.1.bookings ≡ some r.0)
        (create_booking_record i d user total db)
unfolding create_booking_record find_by_payment_ref find_first
create-recorded i d user total db =
    elim (Bool-cases (
      is_some (find_by_payment_ref d.payment_ref db.bookings)
      || is_taken d.seat_ids db.bookings
      || has_twice d.seat_ids)) [ inl e ↦ rw e tt | inr e ↦ rw e (rw (==_refl d.payment_ref) refl) ]

transaction-recorded :
    (i : ℕ) (d : ConfirmInput) (user total : ℕ) (db : Db)
    → Ensures
        (λ r. find_by_payment_ref d.payment_ref r.1.bookings ≡ some r.0)
        (confirm_transaction i d user total db)
unfolding confirm_transaction
transaction-recorded i d user total db =
    elim (Result-cases (lock_and_mark_booked d.trip_id d.seat_ids user db.store.seats)) [
      | inl (t, e) ↦ rw e tt
      | inr (seats, e) ↦ rw e (create-recorded i d user total _)
    ]

caught-IsRecorded :
    (t : Thrown) (d : ConfirmInput) (db : Db)
    → Ensures (IsRecorded d.payment_ref) (confirm_caught t d db)
unfolding confirm_caught
caught-IsRecorded t d db = elim (Bool-cases (is_conflict t)) [
  | inl e ↦ rw e (elim (Option-cases (find_by_payment_ref d.payment_ref db.bookings)) [
    | inl f ↦ rw f tt
    | inr (b, f) ↦ rw (confirm_caught, f) f
  ])
  | inr e ↦ rw e tt
]

-- A confirm that returns gives the booking that the payment's reference finds from then on, whatever
-- other requests do before its transaction and after it has failed.
pub confirm-IsRecorded :
    (before after : Db → Db) (redis_up : Bool) (i : ℕ) (d : ConfirmInput) (user : ℕ) (db : Db)
    → Ensures (IsRecorded d.payment_ref) (confirm before after redis_up i d user db)
unfolding confirm
confirm-IsRecorded before after redis_up i d user db =
    elim (Option-cases (find_by_payment_ref d.payment_ref db.bookings)) [
      | inr (b, e) ↦ rw (confirm, e) e
      | inl e ↦
          rw (confirm, e)
            (elim (Option-cases (find_trip d.trip_id db.trips)) [
              | inl g ↦ rw g tt
              | inr (t, g) ↦
                  rw g
                    (elim (Result-cases
                      (confirm_transaction i d user (length d.seat_ids * t.price) (before db))) [
                        | inl (x, h) ↦ rw h (caught-IsRecorded x d (after (before db)))
                        | inr (r, h) ↦ rw h (
                            Ensures-returns
                              (λ y. find_by_payment_ref d.payment_ref y.1.bookings ≡ some y.0) _ r h
                              (transaction-recorded i d user (length d.seat_ids * t.price)
                                (before db)))
                      ])
            ])
    ]

-- A payment that has led to a booking leads to that booking again, and to nothing else: a later confirm
-- with the same reference writes nothing and emits nothing, whatever else it asks for.
confirm_again :
    (before after before' after' : Db → Db) (redis_up redis_up' : Bool) (i i' : ℕ)
    (d d' : ConfirmInput) (user user' : ℕ) (db : Db) (r : Booking × Db × List Emission)
    → confirm before after redis_up i d user db ≡ returns r
    → d'.payment_ref ≡ d.payment_ref
    → confirm before' after' redis_up' i' d' user' r.1 ≡ returns (r.0, r.1, [])
unfolding confirm
confirm_again before after before' after' redis_up redis_up' i i' d d' user user' db r e p =
    rw (confirm, p, recorded) refl
  where
    recorded : find_by_payment_ref d.payment_ref r.1.bookings ≡ some r.0
    recorded =
        Ensures-returns (IsRecorded d.payment_ref) _ r e
          (confirm-IsRecorded before after redis_up i d user db)
