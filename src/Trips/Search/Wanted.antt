-- ===== src/Trips/Search/Wanted.antt =====
-- What a search shows, by what the passenger asks for, against the WHERE of `search`.
use transhub.Prelude.{
  ℕ, ◌+◌, ◌-◌, ◌*◌, ◌/◌, ◌≤◌, ◌≡◌, ◌↔◌, ◌⊎◌, inl, inr, refl, ap, sym, subst, true, false, Option,
  none, some, List, [], ◌∷◌, ◌==◌, ==_iff, ==_refl, leb, includes, length, length-map, map, take,
  drop, In, All, All-of_In, arith, find_many, order_by, length-order_by, count_where-le,
  length-find_many, Bool-cases, In-of_find_many, In-of_order_by, In-of_map,
}
use transhub.Pagination.{to_skip_take, take_all}
use transhub.ListQuery.{
  day_ms, wat_offset_ms, start_of_day, end_of_day, to_number_range, is_in_range,
}
use transhub.Inventory.{Seat}
use transhub.Trips.{
  Trip, TripDto, TripStatus, scheduled, active, trip_completed, trip_cancelled, is_open,
  to_list_dto, base_dto, count_available_seats,
}
use transhub.Trips.Search.{
  SearchTripsQuery, has_every, is_if_given, is_found, comes_before, search_cap, filtered,
  search_trips, IsShown, page-IsShown,
}

-- A trip that the passenger asks for: of the route, on the day in West Africa Time, still to be run, not
-- taken off or full, of the type, within the prices, with the amenities and of the company that are asked
-- for, if any are.
pub record Matches (q : SearchTripsQuery) (t : Trip) : Type 0 where
  pub leaves_from : t.origin ≡ q.origin
  pub goes_to : t.destination ≡ q.destination
  pub on_day : (t.departure_time + wat_offset_ms) / day_ms ≡ q.date
  pub to_be_run : (t.status ≡ scheduled) ⊎ (t.status ≡ active)
  pub listed : t.is_active ≡ true
  pub not_full : t.is_full ≡ false
  pub of_type : (v : ℕ) → q.vehicle_type ≡ some v → t.vehicle_type ≡ v
  pub not_cheaper : (n : ℕ) → q.min_price ≡ some n → n ≤ t.price
  pub not_dearer : (n : ℕ) → q.max_price ≡ some n → t.price ≤ n
  pub amenities : (a : ℕ) → includes q.amenities a ≡ true → includes t.amenities a ≡ true
  pub of_company : (o : ℕ) → q.operator_id ≡ some o → t.operator_id ≡ o

some_injective : {a b : ℕ} → some a ≡ some b → a ≡ b
some_injective same = cc

given_iff : (o : Option ℕ) (n : ℕ) → (is_if_given o n ≡ true) ↔ ((k : ℕ) → o ≡ some k → n ≡ k)
given_iff none n = (λ h k e. cc, λ h. refl)
given_iff (some j) n = (λ h k e. cc ((==_iff n j).0 h), λ h. (==_iff n j).1 (h j refl))

range_iff :
    (a b : Option ℕ) (n : ℕ)
    → (is_in_range (to_number_range a b) n ≡ true)
      ↔ (((k : ℕ) → a ≡ some k → k ≤ n) × ((k : ℕ) → b ≡ some k → n ≤ k))
unfolding is_in_range to_number_range
range_iff none none n = (λ h. (λ k e. cc, λ k e. cc), λ h. refl)
range_iff (some a) none n = (
  λ h. (λ k e. subst (λ o. o ≤ n) (some_injective e) (ground (arith, h)), λ k e. cc),
  λ h. ground (arith, h.0 a refl),
)
range_iff none (some b) n = (
  λ h. (λ k e. cc, λ k e. subst (λ o. n ≤ o) (some_injective e) (ground (arith, h))),
  λ h. ground (arith, h.1 b refl),
)
range_iff (some a) (some b) n = (
  λ h. (
    λ k e. subst (λ o. o ≤ n) (some_injective e) (ground (arith, h)),
    λ k e. subst (λ o. n ≤ o) (some_injective e) (ground (arith, h)),
  ),
  λ h. ground (arith, h.0 a refl, h.1 b refl),
)

every_iff :
    (wanted offered : List ℕ)
    → (has_every wanted offered ≡ true)
      ↔ ((a : ℕ) → includes wanted a ≡ true → includes offered a ≡ true)
every_iff [] offered = (λ h a m. cc, λ h. refl)
every_iff (w ∷ ws) offered = (
  λ h a m. elim (Bool-cases (w == a)) [
    | inl e ↦ subst (λ x. includes offered x ≡ true) ((==_iff w a).0 e) (ground (arith, h))
    | inr e ↦ (every_iff ws offered).0 (ground (arith, h)) a (ground (arith, m, e))
  ],
  λ h.
      ground (
        arith,
        h w (rw (==_refl w) refl),
        (every_iff ws offered).1 (λ a m. h a (ground (arith, m))),
      ),
)

open_iff : (s : TripStatus) → (is_open s ≡ true) ↔ ((s ≡ scheduled) ⊎ (s ≡ active))
open_iff scheduled = (λ h. inl refl, λ h. refl)
open_iff active = (λ h. inr refl, λ h. refl)
open_iff trip_completed = (λ h. cc, λ h. elim h [ inl e ↦ cc | inr e ↦ cc ])
open_iff trip_cancelled = (λ h. cc, λ h. elim h [ inl e ↦ cc | inr e ↦ cc ])

day_iff :
    (day instant : ℕ)
    → 1 ≤ day
    → ((start_of_day day ≤ instant) × (instant ≤ end_of_day day))
      ↔ ((instant + wat_offset_ms) / day_ms ≡ day)
day_iff day instant later = (λ h. omega arith, λ h. (omega arith, omega arith))

-- The tests of the WHERE, apart.
abbrev Tests : SearchTripsQuery → Trip → Type 0
Tests q t =
    (t.origin ≡ q.origin)
    × (t.destination ≡ q.destination)
    × ((start_of_day q.date ≤ t.departure_time) × (t.departure_time ≤ end_of_day q.date))
    × (is_open t.status ≡ true)
    × (t.is_active ≡ true)
    × (t.is_full ≡ false)
    × (is_if_given q.vehicle_type t.vehicle_type ≡ true)
    × (is_in_range (to_number_range q.min_price q.max_price) t.price ≡ true)
    × (has_every q.amenities t.amenities ≡ true)
    × (is_if_given q.operator_id t.operator_id ≡ true)

found_iff : (q : SearchTripsQuery) (t : Trip) → (is_found q t ≡ true) ↔ Tests q t
unfolding is_found
found_iff q t = (λ h. ground (arith, h), λ h. ground (arith, h))

is_found-Matches :
    (q : SearchTripsQuery) (t : Trip) → 1 ≤ q.date → (is_found q t ≡ true) ↔ Matches q t
is_found-Matches q t later = (
  λ h.
      let (a, b, c, d, e, f, v, p, m, o) = (found_iff q t).0 h in
      record {
        leaves_from = a;
        goes_to = b;
        on_day = (day_iff q.date t.departure_time later).0 c;
        to_be_run = (open_iff t.status).0 d;
        listed = e;
        not_full = f;
        of_type = (given_iff q.vehicle_type t.vehicle_type).0 v;
        not_cheaper = ((range_iff q.min_price q.max_price t.price).0 p).0;
        not_dearer = ((range_iff q.min_price q.max_price t.price).0 p).1;
        amenities = (every_iff q.amenities t.amenities).0 m;
        of_company = (given_iff q.operator_id t.operator_id).0 o;
      },
  λ m. (found_iff q t).1 (
    m.leaves_from,
    m.goes_to,
    (day_iff q.date t.departure_time later).1 m.on_day,
    (open_iff t.status).1 m.to_be_run,
    m.listed,
    m.not_full,
    (given_iff q.vehicle_type t.vehicle_type).1 m.of_type,
    (range_iff q.min_price q.max_price t.price).1 (m.not_cheaper, m.not_dearer),
    (every_iff q.amenities t.amenities).1 m.amenities,
    (given_iff q.operator_id t.operator_id).1 m.of_company,
  ),
)

-- The seats of a trip that a search counts: those available, less the walk-ins.
abbrev pub seats_left : List Seat → Trip → ℕ
unfolding count_available_seats
seats_left seats t = count_available_seats t.id seats - t.offline_count

-- The reply `d` shows the trip, without its driver.
abbrev pub Shows : List Seat → Trip → TripDto → Type 0
Shows seats t d =
    (d.id ≡ t.id)
    × (d.origin ≡ t.origin)
    × (d.destination ≡ t.destination)
    × (d.departure_time ≡ t.departure_time)
    × (d.price ≡ t.price)
    × (d.available_seats ≡ seats_left seats t)
    × (d.driver_id ≡ none)

to_list_dto-Shows : (seats : List Seat) (t : Trip) → Shows seats t (to_list_dto seats false t)
unfolding to_list_dto base_dto
to_list_dto-Shows seats t = (refl, refl, refl, refl, refl, refl, refl)

-- A reply of the page is a trip that the passenger asks for.
abbrev pub IsWanted : SearchTripsQuery → List Trip → List Seat → TripDto → Type 0
IsWanted q trips seats d =
    (t : Trip) × In t trips × Matches q t × (q.passengers ≤ seats_left seats t) × Shows seats t d

shown-IsWanted :
    (q : SearchTripsQuery) (trips : List Trip) (seats : List Seat) (d : TripDto)
    → 1 ≤ q.date
    → IsShown q trips seats d
    → IsWanted q trips seats d
unfolding to_list_dto base_dto
shown-IsWanted q trips seats d later (t, here, wanted, e) = (
  t,
  here,
  (is_found-Matches q t later).0 (ground (arith, wanted)),
  ground (arith, wanted),
  subst (Shows seats t) (sym e) (to_list_dto-Shows seats t),
)

-- With no more trips than the cap, none is cut off.
uncut :
    (q : SearchTripsQuery) (trips : List Trip)
    → length trips ≤ search_cap
    → let ordered = order_by (comes_before q.sort) (find_many (is_found q) trips) in
      take search_cap ordered ≡ ordered
uncut q trips few = take_all search_cap _ (
    omega (
      arith,
      few,
      length-order_by (comes_before q.sort) (find_many (is_found q) trips),
      length-find_many (is_found q) trips,
      count_where-le (is_found q) trips,
    ))

In-of_filtered :
    (q : SearchTripsQuery) (trips : List Trip) (seats : List Seat) (t : Trip)
    → length trips ≤ search_cap
    → In t trips
    → is_found q t ≡ true
    → leb q.passengers (to_list_dto seats false t).available_seats ≡ true
    → In (to_list_dto seats false t) (filtered q trips seats)
unfolding filtered
In-of_filtered q trips seats t few here found fits =
    In-of_find_many (λ (d : TripDto). leb q.passengers d.available_seats) _ _
      (In-of_map (to_list_dto seats false) _ t (
        subst (In t) (sym (uncut q trips few)) (
          In-of_order_by (comes_before q.sort) t _
            (In-of_find_many (is_found q) trips t here found))))
      fits

length-filtered :
    (q : SearchTripsQuery) (trips : List Trip) (seats : List Seat)
    → length trips ≤ search_cap
    → length (filtered q trips seats) ≤ length trips
unfolding filtered
length-filtered q trips seats few =
    let fits = λ (d : TripDto). leb q.passengers d.available_seats in
    let ordered = order_by (comes_before q.sort) (find_many (is_found q) trips) in
    let shown = map (to_list_dto seats false) (take search_cap ordered) in
    omega (
      arith,
      length-find_many fits shown,
      count_where-le fits shown,
      length-map (to_list_dto seats false) (take search_cap ordered),
      ap length (uncut q trips few),
      length-order_by (comes_before q.sort) (find_many (is_found q) trips),
      length-find_many (is_found q) trips,
      count_where-le (is_found q) trips,
    )

none_skipped : (page limit : ℕ) → page ≡ 1 → (page - 1) * limit ≡ 0
none_skipped page limit first = subst (λ p. (p - 1) * limit ≡ 0) (sym first) (omega arith)

-- Every item of a search's page is a trip that the passenger asks for, with seats left for the passengers.
pub search_sound :
    (q : SearchTripsQuery) (trips : List Trip) (seats : List Seat)
    → 1 ≤ q.date
    → All (IsWanted q trips seats) (search_trips q trips seats).0
search_sound q trips seats later =
    All-of_In (IsWanted q trips seats) _
      (λ d m. shown-IsWanted q trips seats d later (page-IsShown q trips seats d m))

-- Where the trips are no more than five hundred and fit the first page: every trip that the passenger asks
-- for, with seats left for the passengers, is an item of it.
pub search_complete :
    (q : SearchTripsQuery) (trips : List Trip) (seats : List Seat) (t : Trip)
    → 1 ≤ q.date
    → q.page ≡ 1
    → length trips ≤ q.limit
    → length trips ≤ search_cap
    → In t trips
    → Matches q t
    → q.passengers ≤ seats_left seats t
    → (d : TripDto) × In d (search_trips q trips seats).0 × Shows seats t d
unfolding search_trips to_skip_take to_list_dto base_dto
search_complete q trips seats t later first roomy few here m fits = (
  to_list_dto seats false t,
  subst (λ k. In (to_list_dto seats false t) (take q.limit (drop k (filtered q trips seats))))
      (sym (none_skipped q.page q.limit first))
      (subst (In (to_list_dto seats false t))
        (sym (
          take_all q.limit (filtered q trips seats)
            (omega (arith, length-filtered q trips seats few, roomy))))
        (In-of_filtered q trips seats t few here ((is_found-Matches q t later).1 m)
          (ground (arith, fits)))),
  to_list_dto-Shows seats t,
)
