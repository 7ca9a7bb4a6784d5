-- ===== src/Trips/Search.antt =====
-- The passenger search (`search` of backend/src/modules/trips/trips.repository.ts) and the reads of one
-- trip and of a driver's trips.
pub mod Wanted
use transhub.Prelude.{
  ℕ, ◌-◌, ◌*◌, All, All-of_In, ◌≤◌, ◌≡◌, ap, ◌∙◌, subst, Bool, true, false, not, ◌&&◌, Option, none,
  some, List, [], ◌∷◌, ◌==◌, ltb, leb, if◌then◌else◌, includes, is, length, map, take, In, arith,
  find_many, count_where, order_by, count_where-order_by, length-order_by, count_where-map,
  count_where-find_many, length-find_many, In-order_by, In-map, In-find_many, In-take, In-drop,
}
use transhub.Errors.{Result, returns, throws}
use transhub.Errors.{app, not_found_error}
use transhub.Pagination.{PaginationQuery, PageMeta, to_skip_take, page_meta, items, take_all}
use transhub.ListQuery.{to_number_range, start_of_day, end_of_day, is_in_range}
use transhub.Inventory.{Seat}
use transhub.Trips.{Trip, TripDto, is_open, find_trip, to_list_dto}

pub data Sort : Type 0 where
  departure price_asc price_desc : Sort

-- searchTripsQuerySchema, the date as its day.
pub record SearchTripsQuery : Type 0 where
  pub origin : ℕ
  pub destination : ℕ
  pub date : ℕ
  pub passengers : ℕ
  pub vehicle_type : Option ℕ
  pub min_price : Option ℕ
  pub max_price : Option ℕ
  pub amenities : List ℕ
  pub operator_id : Option ℕ
  pub sort : Sort
  pub page : ℕ
  pub limit : ℕ

-- `hasEvery`.
abbrev pub has_every : List ℕ → List ℕ → Bool
has_every [] offered = true
has_every (a ∷ wanted) offered = includes offered a && has_every wanted offered

abbrev pub is_if_given : Option ℕ → ℕ → Bool
is_if_given none n = true
is_if_given (some k) n = n == k

-- `where`.
unfoldable pub is_found : SearchTripsQuery → Trip → Bool
unfolding is_in_range to_number_range
is_found q t =
    t.origin == q.origin
    && t.destination == q.destination
    && leb (start_of_day q.date) t.departure_time
    && leb t.departure_time (end_of_day q.date)
    && is_open t.status
    && t.is_active
    && not t.is_full
    && is_if_given q.vehicle_type t.vehicle_type
    && is_in_range (to_number_range q.min_price q.max_price) t.price
    && has_every q.amenities t.amenities
    && is_if_given q.operator_id t.operator_id

-- `orderBy`.
abbrev pub comes_before : Sort → Trip → Trip → Bool
comes_before departure t u = leb t.departure_time u.departure_time
comes_before price_asc t u =
    if t.price == u.price then leb t.departure_time u.departure_time else ltb t.price u.price
comes_before price_desc t u =
    if t.price == u.price then leb t.departure_time u.departure_time else ltb u.price t.price

abbrev pub search_cap : ℕ
search_cap = 500

-- What is left after the filter by seats.
unfoldable pub filtered : SearchTripsQuery → List Trip → List Seat → List TripDto
filtered q trips seats =
    find_many (λ d. leb q.passengers d.available_seats)
      (map (to_list_dto seats false)
        (take search_cap (order_by (comes_before q.sort) (find_many (is_found q) trips))))

abbrev pub page_of : SearchTripsQuery → PaginationQuery
page_of q = record { page = q.page; limit = q.limit }

-- `search`: the items and the total, which the service turns into the pages.
unfoldable pub search_trips : SearchTripsQuery → List Trip → List Seat → List TripDto × PageMeta
unfolding filtered page_meta to_skip_take
search_trips q trips seats = (
  items (to_skip_take (page_of q)) (filtered q trips seats),
  page_meta (length (filtered q trips seats)) (page_of q),
)

-- `getById`.
unfoldable pub get_by_id : ℕ → List Trip → List Seat → Result TripDto
unfolding find_trip to_list_dto
get_by_id i trips seats = elim (find_trip i trips) [
  | none ↦ throws (app not_found_error)
  | some t ↦ returns (to_list_dto seats false t)
]

abbrev pub is_drivers : ℕ → ℕ → ℕ → Trip → Bool
is_drivers driver from to t =
    is t.driver_id driver && leb from t.departure_time && leb t.departure_time to

-- `listByDriver`, from four hours ago to the end of the day, which the host's clock gives.
unfoldable pub list_by_driver : ℕ → ℕ → ℕ → List Trip → List Seat → List TripDto
list_by_driver driver now end_of_today trips seats = map (to_list_dto seats true) (
    order_by (comes_before departure)
      (find_many (is_drivers driver (now - 4 * 60 * 60 * 1000) end_of_today) trips))

-- What a search shows is a trip of the table that the filters hold of and that has the seats.
pub In-filtered :
    (q : SearchTripsQuery) (trips : List Trip) (seats : List Seat) (d : TripDto)
    → In d (filtered q trips seats)
    → (t : Trip) × In t trips
      × (is_found q t ≡ true)
      × (d ≡ to_list_dto seats false t)
      × (leb q.passengers d.available_seats ≡ true)
unfolding filtered
In-filtered q trips seats d m =
    let fits = In-find_many (λ e. leb q.passengers e.available_seats) _ d m in
    let (t, taken, e) = In-map (to_list_dto seats false) _ d fits.0 in
    let ordered =
      In-order_by (comes_before q.sort) t (find_many (is_found q) trips)
        (In-take search_cap t _ taken) in
    let found = In-find_many (is_found q) trips t ordered in (t, found.0, found.1, e, fits.1)

-- The trips that a search is for: the filters hold of them, and they have the seats.
abbrev pub is_wanted : SearchTripsQuery → List Seat → Trip → Bool
is_wanted q seats t = is_found q t && leb q.passengers (to_list_dto seats false t).available_seats

abbrev pub IsShown : SearchTripsQuery → List Trip → List Seat → TripDto → Type 0
IsShown q trips seats d =
    (t : Trip) × In t trips × (is_wanted q seats t ≡ true) × (d ≡ to_list_dto seats false t)

filtered-IsShown :
    (q : SearchTripsQuery) (trips : List Trip) (seats : List Seat) (d : TripDto)
    → In d (filtered q trips seats)
    → IsShown q trips seats d
filtered-IsShown q trips seats d m =
    let (t, here, found, e, fits) = In-filtered q trips seats d m in
    let has_seats = subst (λ x. leb q.passengers x.available_seats ≡ true) e fits in
    (t, here, rw found has_seats, e)

pub page-IsShown :
    (q : SearchTripsQuery) (trips : List Trip) (seats : List Seat) (d : TripDto)
    → In d (search_trips q trips seats).0
    → IsShown q trips seats d
unfolding search_trips to_skip_take
page-IsShown q trips seats d m =
    filtered-IsShown q trips seats d (In-drop ((q.page - 1) * q.limit) d _ (In-take q.limit d _ m))
