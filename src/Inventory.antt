-- ===== src/Inventory.antt =====
-- The inventory module (backend/src/modules/inventory): the seats table, whose only writer it is,
-- the Redis hold keys and the hold-expiry jobs. This file is inventory.repository.ts.
-- Ids are uuid strings that are only compared, so they are numbers here; an instant is a number of
-- milliseconds; a label is its rank in the order of the database.
pub mod Rows
pub mod Claim
pub mod Booked
pub mod Service
pub mod Expiry
mod Tests
use transhub.Prelude.{
  ℕ, zero, suc, ◌+◌, ◌*◌, ◌≤◌, Bool, true, false, not, ◌&&◌, ◌||◌, Option, none, some, List, [],
  ◌∷◌, map, ltb, leb, ◌==◌, if◌then◌else◌, is, is_before, is_after, length, take, includes,
  update_many, count_where, find_many,
}
use transhub.Errors.{
  Result, returns, throws, Thrown, app, insufficient_seats_error, hold_expired_error, prisma_fault,
}

pub data SeatStatus : Type 0 where
  available held booked : SeatStatus

abbrev pub is_available : SeatStatus → Bool
is_available available = true
is_available _ = false

abbrev pub is_held : SeatStatus → Bool
is_held held = true
is_held _ = false

abbrev pub is_booked : SeatStatus → Bool
is_booked booked = true
is_booked _ = false

pub record Seat : Type 0 where
  pub id : ℕ
  pub trip_id : ℕ
  pub label : ℕ
  pub status : SeatStatus
  pub held_until : Option ℕ
  pub held_by : Option ℕ

abbrev pub ids : List Seat → List ℕ
ids [] = []
ids (s ∷ ss) = s.id ∷ ids ss

-- The three updates that the repository makes of a seat.
unfoldable pub release : Seat → Seat
release s = record s { status = available; held_until = none; held_by = none }

unfoldable pub hold : ℕ → ℕ → Seat → Seat
hold user until s = record s { status = held; held_until = some until; held_by = some user }

unfoldable pub book : Seat → Seat
book s = record s { status = booked; held_until = none; held_by = none }

-- `{ tripId, status: "held", heldBy: userId }`.
abbrev pub is_held_by : ℕ → ℕ → Seat → Bool
is_held_by trip user s = s.trip_id == trip && is_held s.status && is s.held_by user

unfoldable pub release_user_holds_for_trip : ℕ → ℕ → List Seat → List Seat
release_user_holds_for_trip trip user = update_many (is_held_by trip user) release

-- What `claimSeats` selects: a row that another transaction has locked is skipped.
abbrev pub is_free : ℕ → List ℕ → Seat → Bool
is_free trip locked s = s.trip_id == trip && is_available s.status && not (includes locked s.id)

insert_by_label : Seat → List Seat → List Seat
insert_by_label s [] = s ∷ []
insert_by_label s (t ∷ ts) = if leb s.label t.label then s ∷ t ∷ ts else t ∷ insert_by_label s ts

-- ORDER BY label.
pub order_by_label : List Seat → List Seat
unfolding insert_by_label
order_by_label [] = []
order_by_label (s ∷ ss) = insert_by_label s (order_by_label ss)

-- The SELECT of `claimSeats`, with the ids that other transactions have locked.
pub select_free : ℕ → ℕ → List ℕ → List Seat → List Seat
unfolding order_by_label
select_free trip quantity locked seats =
    take quantity (order_by_label (find_many (is_free trip locked) seats))

unfoldable pub claim_seats : ℕ → ℕ → ℕ → ℕ → List ℕ → List Seat → Result (List ℕ × List Seat)
unfolding select_free
claim_seats trip quantity user until locked seats =
    let rows = select_free trip quantity locked seats in
    if ltb (length rows) quantity
    then throws (app insufficient_seats_error)
    else returns (ids rows, update_many (λ s. includes (ids rows) s.id) (hold user until) seats)

-- The WHERE of the SELECT ... FOR UPDATE of `lockAndMarkBooked`.
abbrev pub is_bookable : ℕ → List ℕ → ℕ → Seat → Bool
is_bookable trip seat_ids user s =
    s.trip_id == trip
    && includes seat_ids s.id
    && (is_available s.status || (is_held s.status && is s.held_by user))

unfoldable pub lock_and_mark_booked : ℕ → List ℕ → ℕ → List Seat → Result (List Seat)
lock_and_mark_booked trip seat_ids user seats =
    if ltb (count_where (is_bookable trip seat_ids user) seats) (length seat_ids)
    then throws (app hold_expired_error)
    else returns (update_many (λ s. includes seat_ids s.id) book seats)

unfoldable pub held_seat_ids : ℕ → ℕ → ℕ → List Seat → List ℕ
held_seat_ids trip user now seats =
    ids (find_many (λ s. is_held_by trip user s && is_after s.held_until now) seats)

abbrev pub is_specific_hold : List ℕ → ℕ → ℕ → Seat → Bool
is_specific_hold seat_ids trip user s = includes seat_ids s.id && is_held_by trip user s

-- The count and the rows afterwards.
unfoldable pub release_specific_hold : List ℕ → ℕ → ℕ → List Seat → ℕ × List Seat
release_specific_hold seat_ids trip user seats = (
  count_where (is_specific_hold seat_ids trip user) seats,
  update_many (is_specific_hold seat_ids trip user) release seats,
)

abbrev pub is_lapsed : ℕ → Seat → Bool
is_lapsed now s = is_held s.status && is_before s.held_until now

-- The retry loop of `sweepExpiredHolds`, with the attempts left and the number of this one. Whether
-- the database answers an attempt is `up`.
sweep_attempts : (ℕ → Bool) → ℕ → ℕ → ℕ → List Seat → Result (ℕ × List Seat)
sweep_attempts up zero attempt now seats = throws prisma_fault
sweep_attempts up (suc left) attempt now seats =
    let rest = sweep_attempts up left (attempt + 1) now seats in
    if up attempt
    then returns (count_where (is_lapsed now) seats, update_many (is_lapsed now) release seats)
    else rest

abbrev pub max_attempts : ℕ
max_attempts = 3

unfoldable pub sweep_expired_holds : (ℕ → Bool) → ℕ → List Seat → Result (ℕ × List Seat)
unfolding sweep_attempts
sweep_expired_holds up now seats = sweep_attempts up max_attempts 1 now seats
