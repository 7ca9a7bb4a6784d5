-- ===== src/Trips/Capacity.antt =====
-- Who may set the capacity of a trip, and what the reply and the rows are then.
use transhub.Prelude.{
  ==_ne, ℕ, ◌-◌, ◌≤◌, ◌≡◌, ◌≢◌, refl, ◌∙◌, ◌⊎◌, inl, inr, Bool, true, false, not, ◌&&◌, ◌||◌, none,
  some, List, [], ◌∷◌, ◌==◌, leb, if◌then◌else◌, ==_ne, IsKeyed, EachRow, update_many-EachRow,
  count_where-guarded, find_first-update, le→ltb, arith, Bool-cases, ==_iff, update_many,
  count_where, find_first-some,
}
use transhub.Errors.{returns, throws}
use transhub.Errors.{app, not_found_error}
use transhub.Roles.{operator}
use transhub.Accounts.{AuthUser}
use transhub.Inventory.{Seat}
use transhub.Trips.{
  Trip, TripDto, OwnerFilter, of_operator, find_trip, toggle_active, mark_full, set_offline_count,
  count_available_seats, is_own_trip, is_owned, update_own, to_list_dto, base_dto, counted,
}
use transhub.Trips.Service.{
  capacity_changed, toggle_request, delete_request, owner_filter, may_set_capacity,
  mark_full_request, auto_full, set_offline_count_request,
}

own_id :
    (i : ℕ) (owner : OwnerFilter) (t : Trip) → is_own_trip i owner t ≡ true → (t.id == i) ≡ true
own_id i owner t h = ground arith

not_own :
    (i : ℕ) (owner : OwnerFilter) (t : Trip)
    → is_owned owner t ≡ false
    → is_own_trip i owner t ≡ false
not_own i owner t h = ground (arith, h)

-- A write by its owner to a trip that is there.
module _ (i : ℕ) (owner : OwnerFilter) (f : Trip → Trip) (trips : List Trip) (seats : List Seat)
    (t : Trip) where
  update_own_lem :
      ((x : Trip) → (f x).id ≡ x.id)
      → IsKeyed (λ (x : Trip). x.id) trips
      → find_trip i trips ≡ some t
      → is_owned owner t ≡ true
      → (update_own i owner f trips seats
          ≡ (some (to_list_dto seats true (f t)), update_many (is_own_trip i owner) f trips))
        × (find_trip i (update_many (is_own_trip i owner) f trips) ≡ some (f t))
  unfolding update_own find_trip
  update_own_lem ids keyed found mine =
      let b = (find_first-some (λ (x : Trip). x.id == i) trips t found).1 in
      let one =
        count_where-guarded (λ (x : Trip). x.id) i (is_own_trip i owner) trips t (own_id i owner)
          keyed found in
      let read =
        find_first-update (λ (x : Trip). x.id) i (is_own_trip i owner) f trips t ids found
        ∙ rw (b, mine) refl in
      (rw (update_own, one, b, mine, read) refl, read)

  update_own_refused :
      IsKeyed (λ (x : Trip). x.id) trips
      → find_trip i trips ≡ some t
      → is_owned owner t ≡ false
      → update_own i owner f trips seats ≡ (none, trips)
  unfolding update_own find_trip
  update_own_refused keyed found other =
      let none_of =
        count_where-guarded (λ (x : Trip). x.id) i (is_own_trip i owner) trips t (own_id i owner)
          keyed found in
      rw (update_own, none_of, not_own i owner t other) refl

-- A row is another trip's, or is as it was.
abbrev pub OthersKept : ℕ → Trip → Trip → Type 0
OthersKept i x y = ((x.id == i) ≡ true) ⊎ (y ≡ x)

others_kept :
    (i : ℕ) (owner : OwnerFilter) (f : Trip → Trip) (trips : List Trip)
    → EachRow (OthersKept i) trips (update_many (is_own_trip i owner) f trips)
others_kept i owner f trips =
    update_many-EachRow (OthersKept i) (is_own_trip i owner) f trips (λ x m.
      elim (Bool-cases (is_own_trip i owner x)) [
        | inl e ↦ inl (own_id i owner x e)
        | inr e ↦ inr (rw e refl)
      ])

full_after :
    (c offline : ℕ) (full : Bool)
    → (if leb c offline && not full then true else full) ≡ (leb c offline || full)
full_after c offline full = ground arith

-- A count of walk-ins up to the size of the bus, by a caller to whom the trip is open: the request
-- returns; the trip has that count, and is full if it was or if no more seats are available than there
-- are walk-ins, never reopened; the reply gives the available seats less the walk-ins, from 0 up; the
-- event tells the same; no other trip changes.
set_offline_count_lem :
    (i offline : ℕ) (caller : AuthUser) (trips : List Trip) (seats : List Seat) (t : Trip)
    → IsKeyed (λ (x : Trip). x.id) trips
    → find_trip i trips ≡ some t
    → may_set_capacity caller ≡ true
    → is_owned (owner_filter caller) t ≡ true
    → offline ≤ t.total_seats
    → let full = leb (count_available_seats i seats) offline || t.is_full in
      (dto : TripDto) × (rows : List Trip) × (set_offline_count_request i offline caller trips seats
        ≡ returns (dto, rows, capacity_changed i full offline ∷ []))
      × (find_trip i rows ≡ some (record t { offline_count = offline; is_full = full }))
      × (dto.available_seats ≡ count_available_seats i seats - offline)
      × (dto.is_full ≡ full)
      × EachRow (OthersKept i) trips rows
unfolding set_offline_count_request set_offline_count auto_full to_list_dto base_dto find_trip
set_offline_count_lem i offline caller trips seats t keyed found may mine fits =
    let auto = auto_full i offline t seats in
    let f = counted offline auto in
    let written =
      update_own_lem i (owner_filter caller) f trips seats t (λ x. refl) keyed found mine in
    let full = full_after (count_available_seats i seats) offline t.is_full in
    let own = (==_iff t.id i).0 (find_first-some (λ (x : Trip). x.id == i) trips t found).1 in
    (
      to_list_dto seats true (f t),
      update_many (is_own_trip i (owner_filter caller)) f trips,
      rw
          (
            set_offline_count_request,
            may,
            found,
            le→ltb t.total_seats offline fits,
            set_offline_count,
            written.0,
            full,
          )
          refl,
      written.1 ∙ rw full refl,
      rw own refl,
      full,
      others_kept i (owner_filter caller) f trips,
    )

-- Another company's trip is to an operator as a trip that is not there: with a count of walk-ins up to
-- the size of the bus, all four writes of the operator give NotFoundError.
foreign_trip_not_found :
    (has_bookings : ℕ → Bool) (i offline : ℕ) (flag : Bool) (caller : AuthUser) (company : ℕ)
    (trips : List Trip) (seats : List Seat) (t : Trip)
    → IsKeyed (λ (x : Trip). x.id) trips
    → find_trip i trips ≡ some t
    → caller.role ≡ operator
    → caller.operator_id ≡ some company
    → t.operator_id ≢ company
    → offline ≤ t.total_seats
    → (toggle_request i flag caller trips seats ≡ throws (app not_found_error))
      × (delete_request has_bookings i caller trips seats ≡ throws (app not_found_error))
      × (mark_full_request i flag caller trips seats ≡ throws (app not_found_error))
      × (set_offline_count_request i offline caller trips seats ≡ throws (app not_found_error))
unfolding toggle_request delete_request mark_full_request set_offline_count_request toggle_active
    mark_full set_offline_count find_trip
foreign_trip_not_found has_bookings i offline flag caller company trips seats t keyed found role
      link other fits =
    let owner = of_operator (some company) in
    let foreign : is_owned owner t ≡ false = ==_ne t.operator_id company other in
    let unmatched : count_where (is_own_trip i owner) trips ≡ 0 =
      count_where-guarded (λ (x : Trip). x.id) i (is_own_trip i owner) trips t (own_id i owner)
        keyed found
      ∙ rw (not_own i owner t foreign) refl in
    let refused =
      λ (f : Trip → Trip). update_own_refused i owner f trips seats t keyed found foreign in
    let may : may_set_capacity caller ≡ true = rw (role, link) refl in
    let closed : is_owned (owner_filter caller) t ≡ false = rw (role, link) foreign in
    let scoped = λ (f : Trip → Trip).
      update_own_refused i (owner_filter caller) f trips seats t keyed found closed in
    (
      rw (toggle_request, link, toggle_active, refused (λ x. record x { is_active = flag })) refl,
      rw (delete_request, link, unmatched) refl,
      rw (mark_full_request, may, mark_full, scoped (λ x. record x { is_full = flag })) refl,
      rw
          (
            set_offline_count_request,
            may,
            found,
            le→ltb t.total_seats offline fits,
            set_offline_count,
            scoped (counted offline (auto_full i offline t seats)),
          )
          refl,
    )
