-- ===== src/Bookings/Capacity.antt =====
-- The seats that a trip can sell: those of a new trip, those held, and the walk-ins.
use transhub.Prelude.{
  ℕ, zero, suc, ◌+◌, ◌-◌, ◌*◌, ◌≤◌, ◌≡◌, refl, ap, inl, inr, Bool, true, false, some, List, [], ap,
  zero, suc, count_where_mono, arith, count_where,
}
use transhub.Errors.{Result-cases, returns}
use transhub.Errors.{Ensures-returns}
use transhub.Inventory.{Seat, is_held_by, ids}
use transhub.Inventory.Rows.{Unique}
use transhub.Inventory.Claim.{
  hold_transaction, hold_transaction_decides, hold_transaction_lem, is_within_reach,
}
use transhub.Inventory.Service.{HoldResult, Store, hold_seats, hold_ttl_sec}
use transhub.Trips.{
  Trip, is_open, find_trip, count_available_seats, is_available_of, to_list_dto, base_dto,
}
use transhub.Bookings.{Db, hold}

available_reach :
    (trip user : ℕ) (seats : List Seat)
    → count_available_seats trip seats ≤ count_where (is_within_reach trip user []) seats
unfolding count_available_seats
available_reach trip user seats =
    count_where_mono (is_available_of trip) (is_within_reach trip user []) seats
      (λ s h. ground (arith, h))

-- What `hold_seats` makes of a transaction that returns.
hold_seats_lem :
    (redis_up queue_up : Bool) (now later trip quantity user : ℕ) (store : Store)
    (q : List ℕ × List Seat)
    → hold_transaction trip quantity user (now + hold_ttl_sec * 1000) [] store.seats ≡ returns q
    → (r : HoldResult × Store) × (hold_seats redis_up queue_up now later [] trip quantity user store
        ≡ returns r)
      × ((r.1).seats ≡ q.1)
unfolding hold_seats
hold_seats_lem redis_up queue_up now later trip quantity user store q held =
    let m = hold_seats redis_up queue_up now later [] trip quantity user store in
    let same_seats = λ (x : HoldResult × Store). (x.1).seats ≡ q.1 in
    elim (Result-cases m) [
      | inl (t, e) ↦ cc (rw (hold_seats, held) at e)
      | inr (r, e) ↦ (r, e, Ensures-returns same_seats m r e (rw (hold_seats, held) refl))
    ]

-- A trip that is open and not full, and as many seats as are wanted available and not locked: the hold
-- returns, with exactly that many seats held by the user on the trip. How many walk-ins the trip counts
-- does not matter to it, though they are subtracted from the available seats that a reply gives.
pub hold_available :
    (redis_up queue_up b : Bool) (now later trip quantity user : ℕ) (db : Db) (t : Trip)
    → find_trip trip db.trips ≡ some t
    → is_open t.status ≡ true
    → t.is_active ≡ true
    → t.is_full ≡ false
    → Unique (ids db.store.seats)
    → quantity ≤ count_available_seats trip db.store.seats
    → ((r : HoldResult × Db) × (hold redis_up queue_up now later [] trip quantity user db
          ≡ returns r)
        × (count_where (is_held_by trip user) (r.1).store.seats ≡ quantity))
      × ((to_list_dto db.store.seats b t).available_seats
          ≡ count_available_seats t.id db.store.seats - t.offline_count)
unfolding hold hold_seats to_list_dto base_dto
hold_available redis_up queue_up b now later trip quantity user db t found sells active notfull
      unique enough =
    let seats = db.store.seats in
    let until = now + hold_ttl_sec * 1000 in
    let reach = available_reach trip user seats in
    let held = (hold_transaction_decides trip quantity user until [] seats).1 (omega arith) in
    let (r, e, same) =
      hold_seats_lem redis_up queue_up now later trip quantity user db.store _ held in
    (
      (
        (r.0, record db { store = r.1 }),
        rw (hold, found, sells, active, notfull, e) refl,
        rw same (hold_transaction_lem trip quantity user until [] seats unique held).0,
      ),
      refl,
    )
