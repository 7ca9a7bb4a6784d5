-- ===== src/Inventory/Tests.antt =====
-- Runs of the inventory operations, and the theorems at concrete tables.
use transhub.Prelude.{
  ℕ, ◌==◌, ◌+◌, ◌≡◌, refl, true, none, some, List, [], ◌∷◌, arith, includes, In, EachRow,
  count_where, update_many, find_many,
}
use transhub.Errors.{returns, throws, app, insufficient_seats_error}
use transhub.Inventory.{
  Seat, available, held, booked, ids, release, hold, book, release_user_holds_for_trip, claim_seats,
  lock_and_mark_booked, held_seat_ids, sweep_expired_holds,
}
use transhub.Inventory.Rows.{Unique}
use transhub.Inventory.Claim.{is_live, Held, hold_transaction, hold_transaction_lem}
use transhub.Inventory.Booked.{lock_and_mark_booked_lem, BookMove, count_booked}
use transhub.Inventory.Service.{Store, HoldExpiryJob}
use transhub.Inventory.Expiry.{sweep_expired_holds_lem, Swept}

abbrev seat : ℕ → ℕ → Seat
seat i l = record {
  id = i;
  trip_id = 7;
  label = l;
  status = available;
  held_until = none;
  held_by = none;
}

-- Four seats of trip 7; seat 13 is held by user 2 until 900, seat 14 is booked.
abbrev bus : List Seat
bus =
    seat 11 2
    ∷ seat 12 1
    ∷ record (seat 13 3) { status = held; held_until = some 900; held_by = some 2 }
    ∷ record (seat 14 4) { status = booked }
    ∷ []

abbrev bus_after_hold : List Seat
bus_after_hold =
    record (seat 11 2) { status = held; held_until = some 500; held_by = some 1 }
    ∷ record (seat 12 1) { status = held; held_until = some 500; held_by = some 1 }
    ∷ record (seat 13 3) { status = held; held_until = some 900; held_by = some 2 }
    ∷ record (seat 14 4) { status = booked }
    ∷ []

-- The seats are claimed in the order of their labels.
hold_two : hold_transaction 7 2 1 500 [] bus ≡ returns (12 ∷ 11 ∷ [], bus_after_hold)
unfolding hold_transaction release_user_holds_for_trip claim_seats release hold find_many
    update_many
hold_two = refl

hold_locked : hold_transaction 7 2 1 500 (11 ∷ []) bus ≡ throws (app insufficient_seats_error)
unfolding hold_transaction release_user_holds_for_trip claim_seats release hold find_many
    update_many
hold_locked = refl

bus-Unique : Unique (ids bus)
bus-Unique = (refl, (refl, (refl, (refl, tt))))

hold_transaction_lem_example : Held 7 2 1 500 bus (12 ∷ 11 ∷ [], bus_after_hold)
hold_transaction_lem_example = hold_transaction_lem 7 2 1 500 [] bus bus-Unique hold_two

lock_and_mark_booked_lem_example :
    let ss = update_many (λ s. includes (13 ∷ 11 ∷ []) s.id) book bus in
    Unique (13 ∷ 11 ∷ [])
    × (count_booked ss ≡ count_booked bus + 2)
    × EachRow (BookMove 7 (13 ∷ 11 ∷ []) 2) bus ss
unfolding lock_and_mark_booked count_where
lock_and_mark_booked_lem_example = lock_and_mark_booked_lem 7 (13 ∷ 11 ∷ []) 2 bus bus-Unique refl

-- The database answers the second attempt; the hold of seat 13 ended at 900.
sweep_expired_holds_lem_example :
    (r : ℕ × List Seat) × (sweep_expired_holds (λ n. n == 2) 950 bus ≡ returns r) × Swept 950 bus r
sweep_expired_holds_lem_example = (sweep_expired_holds_lem (λ n. n == 2) 950 bus).0 refl

-- User 1 holds both seats of a trip at time 0, and again at 300000; the first job runs at 600000.
abbrev pair : Store
pair = record { seats = seat 11 1 ∷ seat 12 2 ∷ []; cache = []; jobs = [] }

abbrev held_again : Store
held_again = record pair { seats = hold 1 900000 (seat 11 1) ∷ hold 1 900000 (seat 12 2) ∷ [] }

abbrev first_job : HoldExpiryJob
first_job = record { user_id = 1; trip_id = 7; seat_ids = 11 ∷ 12 ∷ []; delay = 600000 }

named_by_first :
    (s : Seat)
    → In s held_again.seats
    → is_live 7 1 600000 s ≡ true
    → includes first_job.seat_ids s.id ≡ true
unfolding hold
named_by_first s m h = ground arith

second_hold_live : held_seat_ids 7 1 600000 held_again.seats ≡ 11 ∷ 12 ∷ []
unfolding held_seat_ids hold find_many
second_hold_live = refl
