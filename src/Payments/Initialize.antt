-- ===== src/Payments/Initialize.antt =====
-- `initialize` of backend/src/modules/payments/payments.service.ts: the charge of the seats that a user
-- holds, up to its settlement.
use transhub.Prelude.{
  ℕ, ◌*◌, ◌≡◌, refl, ap, inl, inr, subst, Bool, false, ◌&&◌, Option, none, some, List, [], ◌∷◌,
  ◌==◌, if◌then◌else◌, is_after, length, find_many, In-find_many, arith, ==_refl,
}
use transhub.Errors.{Result, returns, throws, ◌>>=◌, throw_if}
use transhub.Errors.{
  app, Ensures-returns, Result-cases, not_found_error, conflict_error, conflict, invalid_price,
}
use transhub.Accounts.{User, find_user}
use transhub.Inventory.{Seat, is_held_by, ids, held_seat_ids}
use transhub.Inventory.Rows.{Unique, includes-In, find_many-Unique}
use transhub.Inventory.Booked.{Covered, is_sellable, lock_and_mark_booked_decides}
use transhub.Paystack.{Metadata, Reply, paystack_post}
use transhub.Trips.{Trip, find_trip}
use transhub.Bookings.{
  Emission, Db, Booking, Passenger, ConfirmInput, confirmed, find_by_payment_ref,
  create_booking_record, confirm_transaction, confirm, has_twice, is_taken,
}
use transhub.Payments.{
  sent_all, or_empty, settle_booking_charge, booking_fields, confirm_charge, settled, Notice,
}

-- initializeSchema.
pub record InitializeInput : Type 0 where
  pub trip_id : ℕ
  pub passengers : List Passenger

-- What is posted to /transaction/initialize.
pub record ChargeRequest : Type 0 where
  pub email : ℕ
  pub amount_kobo : ℕ
  pub reference : ℕ
  pub metadata : Metadata

-- `data.authorization_url` of the reply.
pub record InitializeBody : Type 0 where
  pub authorization_url : Option ℕ

unfoldable pub booking_metadata : ℕ → List ℕ → ℕ → Metadata
booking_metadata trip seat_ids user = record {
  type = none;
  charter_id = none;
  waybill_id = none;
  trip_id = some trip;
  seat_ids = some seat_ids;
  user_id = some user;
}

unfoldable pub booking_charge : ℕ → ℕ → ℕ → Trip → List ℕ → ℕ → ChargeRequest
unfolding booking_metadata
booking_charge email ref trip t seat_ids user = record {
  email = email;
  amount_kobo = length seat_ids * t.price * 100;
  reference = ref;
  metadata = booking_metadata trip seat_ids user;
}

-- The passengers go to Redis, if it is up. Paystack is the function `post`. The result is the address
-- to pay at, the reference and what Redis has of the passengers.
unfoldable pub initialize :
    (ChargeRequest → Reply InitializeBody)
    → Bool
    → ℕ
    → ℕ
    → ℕ
    → InitializeInput
    → List User
    → Db
    → Result (ℕ × ℕ × Option (List Passenger))
unfolding held_seat_ids find_trip find_user booking_charge
initialize post redis_up now ref user d users db =
    let seat_ids = held_seat_ids d.trip_id user now db.store.seats in
    throw_if (length seat_ids == 0) (conflict_error conflict) (elim (find_trip d.trip_id db.trips) [
      | none ↦ throws (app not_found_error)
      | some t ↦
          throw_if (t.price == 0) (conflict_error invalid_price) (elim (find_user user users) [
            | none ↦ throws (app not_found_error)
            | some u ↦ do
              body ← paystack_post (post (booking_charge u.email ref d.trip_id t seat_ids user))
              elim body.authorization_url [
                | none ↦ throws (app (conflict_error conflict))
                | some url ↦ returns (url, ref, if redis_up then some d.passengers else none)
              ]
          ])
    ])

held-Covered :
    (trip user now : ℕ) (seats : List Seat)
    → Covered (is_sellable trip user) seats (held_seat_ids trip user now seats)
unfolding held_seat_ids
held-Covered trip user now seats a h =
    let (s, m, e) =
      includes-In a (find_many (λ s. is_held_by trip user s && is_after s.held_until now) seats)
        h in
    let (own, p) =
      In-find_many (λ s. is_held_by trip user s && is_after s.held_until now) seats s m in
    (s, own, e, ground (arith, p))

has_twice-Unique : (xs : List ℕ) → Unique xs → has_twice xs ≡ false
has_twice-Unique [] u = refl
has_twice-Unique (x ∷ xs) u = rw (u.0) (has_twice-Unique xs u.1)

module _ (i user total : ℕ) (d : ConfirmInput) where
  -- The booking that the confirm makes.
  abbrev booking_made : Booking
  booking_made = record {
    id = i;
    user_id = user;
    trip_id = d.trip_id;
    seat_ids = d.seat_ids;
    passengers = d.passengers;
    status = confirmed;
    total_amount = total;
    payment_ref = some d.payment_ref;
  }

  create_booking_record_returns :
      (db : Db)
      → find_by_payment_ref d.payment_ref db.bookings ≡ none
      → is_taken d.seat_ids db.bookings ≡ false
      → has_twice d.seat_ids ≡ false
      → create_booking_record i d user total db
        ≡ returns (booking_made, record db { bookings = booking_made ∷ db.bookings })
  unfolding create_booking_record
  create_booking_record_returns db fresh free once =
      rw (create_booking_record, fresh, free, once) refl

  -- The transaction of a confirm of seats that the user holds.
  confirm_transaction_returns :
      (now : ℕ) (db : Db)
      → held_seat_ids d.trip_id user now db.store.seats ≡ d.seat_ids
      → Unique (ids db.store.seats)
      → find_by_payment_ref d.payment_ref db.bookings ≡ none
      → is_taken d.seat_ids db.bookings ≡ false
      → (db' : Db) × (confirm_transaction i d user total db ≡ returns (booking_made, db'))
  unfolding confirm_transaction held_seat_ids
  confirm_transaction_returns now db same unique fresh free =
      let distinct = subst Unique same (
        find_many-Unique (λ s. is_held_by d.trip_id user s && is_after s.held_until now)
          db.store.seats unique) in
      let covered =
        subst (Covered (is_sellable d.trip_id user) db.store.seats) same
          (held-Covered d.trip_id user now db.store.seats) in
      let (seats, locked) =
        (lock_and_mark_booked_decides d.trip_id d.seat_ids user db.store.seats unique).0
          (distinct, covered) in
      let between = record db { store = record db.store { seats = seats } } in
      (
        record between { bookings = booking_made ∷ db.bookings },
        rw
            (
              confirm_transaction,
              locked,
              create_booking_record_returns between fresh free
                  (has_twice-Unique d.seat_ids distinct),
            )
            refl,
      )

-- The confirm, and the charge, of seats that the user holds.
module _ (redis_up : Bool) (i now user : ℕ) (d : ConfirmInput) (db : Db) (t : Trip) where
  abbrev ticket : Booking
  ticket = booking_made i user (length d.seat_ids * t.price) d

  confirm_returns :
      find_trip d.trip_id db.trips ≡ some t
      → held_seat_ids d.trip_id user now db.store.seats ≡ d.seat_ids
      → Unique (ids db.store.seats)
      → find_by_payment_ref d.payment_ref db.bookings ≡ none
      → is_taken d.seat_ids db.bookings ≡ false
      → (r : Booking × Db × List Emission) × (confirm (λ x. x) (λ x. x) redis_up i d user db
          ≡ returns r)
        × (r.0 ≡ ticket)
  unfolding confirm
  confirm_returns found same unique fresh free =
      let m = confirm (λ x. x) (λ x. x) redis_up i d user db in
      let (db', made) =
        confirm_transaction_returns i user (length d.seat_ids * t.price) d now db same unique fresh
          free in
      elim (Result-cases m) [
        | inl (x, e) ↦ cc (rw (confirm, fresh, found, made) at e)
        | inr (r, e) ↦ (
          r,
          e,
          Ensures-returns (λ (x : Booking × Db × List Emission). x.0 ≡ ticket) m r e
              (rw (confirm, fresh, found, made) refl),
        )
      ]

-- A user who holds seats of a trip with a price, and a Paystack that answers the charge of exactly
-- those seats with an address: `initialize` returns the address; and while the hold stands and nobody
-- has a booking of the seats or the reference, the charge with the amount and the metadata that were
-- posted settles, with a booking of those seats by the user for that amount.
pub initialized_charge_settles :
    (post : ChargeRequest → Reply InitializeBody) (redis_up : Bool) (now ref user i url : ℕ)
    (d : InitializeInput) (users : List User) (db : Db) (t : Trip) (u : User) (seat_ids : List ℕ)
    → held_seat_ids d.trip_id user now db.store.seats ≡ seat_ids
    → (length seat_ids == 0) ≡ false
    → find_trip d.trip_id db.trips ≡ some t
    → (t.price == 0) ≡ false
    → find_user user users ≡ some u
    → Unique (ids db.store.seats)
    → is_taken seat_ids db.bookings ≡ false
    → find_by_payment_ref ref db.bookings ≡ none
    → paystack_post (post (booking_charge u.email ref d.trip_id t seat_ids user))
      ≡ returns (record { authorization_url = some url })
    → let charge = booking_charge u.email ref d.trip_id t seat_ids user in
      (cached : Option (List Passenger)) × (b : Booking) × (db' : Db) × (out : List Notice)
      × (initialize post redis_up now ref user d users db ≡ returns (url, ref, cached))
      × (settle_booking_charge
            (λ x. x)
            (λ x. x)
            redis_up
            cached
            i
            ref
            charge.amount_kobo
            (some charge.metadata)
            db
          ≡ returns (settled b, db', out))
      × (b.user_id ≡ user)
      × (b.trip_id ≡ d.trip_id)
      × (b.seat_ids ≡ seat_ids)
      × (b.total_amount * 100 ≡ charge.amount_kobo)
unfolding initialize settle_booking_charge booking_fields confirm_charge booking_charge
    booking_metadata
initialized_charge_settles post redis_up now ref user i url d users db t u seat_ids same some_seats
      found price known unique free fresh reply =
    let cached : Option (List Passenger) = if redis_up then some d.passengers else none in
    let order : ConfirmInput = record {
      payment_ref = ref;
      trip_id = d.trip_id;
      seat_ids = seat_ids;
      passengers = or_empty cached;
    } in
    let (r, e, made) =
      confirm_returns redis_up i now user order db t found same unique fresh free in
    (
      cached,
      r.0,
      r.1,
      sent_all r.2,
      rw (initialize, same, some_seats, found, price, known, same, reply) refl,
      rw
          (
            settle_booking_charge,
            fresh,
            booking_fields,
            some_seats,
            found,
            ==_refl (length seat_ids * t.price * 100),
            confirm_charge,
            e,
          )
          refl,
      ap (λ (b : Booking). b.user_id) made,
      ap (λ (b : Booking). b.trip_id) made,
      ap (λ (b : Booking). b.seat_ids) made,
      ap (λ (b : Booking). b.total_amount * 100) made,
    )
