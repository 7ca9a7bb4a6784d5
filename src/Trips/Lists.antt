-- ===== src/Trips/Lists.antt =====
-- The list of trips for an admin or a company: `findAll` of trips.repository.ts and `list` of the controller. Whether
-- the name of a city contains a text is an argument.
use transhub.Prelude.{
  ℕ, Bool, true, ◌&&◌, ◌||◌, Option, none, some, List, ◌==◌, leb, length, map, find_many, order_by,
}
use transhub.Errors.{Result, returns, throws}
use transhub.Errors.{app, forbidden_error}
use transhub.Roles.{Role, operator}
use transhub.Accounts.{AuthUser}
use transhub.Pagination.{PaginationQuery, PageMeta, to_skip_take, page_meta, items}
use transhub.Inventory.{Seat}
use transhub.Trips.{Trip, TripDto, to_list_dto}

pub record TripFilter : Type 0 where
  pub operator_id : Option ℕ
  pub search : Option ℕ

abbrev pub runs : Option ℕ → Trip → Bool
runs none t = true
runs (some company) t = t.operator_id == company

abbrev pub is_city_match : (ℕ → ℕ → Bool) → Option ℕ → Trip → Bool
is_city_match contains none t = true
is_city_match contains (some q) t = contains q t.origin || contains q t.destination

abbrev pub is_listed : (ℕ → ℕ → Bool) → TripFilter → Trip → Bool
is_listed contains f t = runs f.operator_id t && is_city_match contains f.search t

abbrev pub leaves_later : Trip → Trip → Bool
leaves_later t u = leb u.departure_time t.departure_time

unfoldable pub find_all :
    (ℕ → ℕ → Bool) → TripFilter → PaginationQuery → List Trip → List Seat → List TripDto × ℕ
unfolding to_skip_take to_list_dto
find_all contains f p trips seats =
    let found = find_many (is_listed contains f) trips in
    (
      map (to_list_dto seats true) (items (to_skip_take p) (order_by leaves_later found)),
      length found,
    )

-- Whose trips a caller lists.
abbrev pub listed_company : Role → Option ℕ → Option ℕ → Result (Option ℕ)
listed_company operator none asked = throws (app forbidden_error)
listed_company operator (some company) asked = returns (some company)
listed_company role company asked = returns asked

unfoldable pub list :
    (ℕ → ℕ → Bool)
    → TripFilter
    → PaginationQuery
    → AuthUser
    → List Trip
    → List Seat
    → Result (List TripDto × PageMeta)
unfolding find_all page_meta
list contains f p caller trips seats =
    elim (listed_company caller.role caller.operator_id f.operator_id) [
      | throws e ↦ throws e
      | returns company ↦
          let r = find_all contains (record f { operator_id = company }) p trips seats in
          returns (r.0, page_meta r.1 p)
    ]
