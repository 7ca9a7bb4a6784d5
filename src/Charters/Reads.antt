-- ===== src/Charters/Reads.antt =====
-- The reads of backend/src/modules/charters, with what chartersController leaves out for a passenger: a key that
-- is left out of the reply is none. When a charter was created and whether a text contains another are arguments.
pub mod Costs
mod Tests
use transhub.Prelude.{
  ℕ, Bool, true, false, not, ◌&&◌, ◌||◌, Option, none, some, List, [], ◌∷◌, ◌==◌, leb, length, map,
  find_many, find_first, order_by,
}
use transhub.Errors.{Result, returns, throws, throw_if}
use transhub.Errors.{app, not_found_error, forbidden_error}
use transhub.Roles.{Role, passenger, same_role}
use transhub.Accounts.{User, find_user}
use transhub.ListQuery.{to_date_range, is_in_range}
use transhub.Pagination.{PaginationQuery, PageMeta, to_skip_take, page_meta, items}
use transhub.Charters.{Charter, CharterStatus, same_status, has_id}

pub record CharterListFilter : Type 0 where
  pub status : Option CharterStatus
  pub passenger_id : Option ℕ
  pub date_from : Option ℕ
  pub date_to : Option ℕ
  pub search : Option ℕ

pub record Tables : Type 0 where
  pub users : List User
  pub created_at : ℕ → ℕ
  pub contains : ℕ → ℕ → Bool

abbrev pub has_status : Option CharterStatus → Charter → Bool
has_status none c = true
has_status (some s) c = same_status s c.status

abbrev pub is_of : Option ℕ → Charter → Bool
is_of none c = true
is_of (some user) c = c.passenger_id == user

abbrev pub contains_in : Tables → ℕ → Option ℕ → Bool
contains_in db q none = false
contains_in db q (some column) = db.contains q column

abbrev pub is_user_match : Tables → ℕ → Option User → Bool
is_user_match db q none = false
is_user_match db q (some u) =
    db.contains q u.full_name || db.contains q u.email || db.contains q u.phone

abbrev pub is_match : Tables → Option ℕ → Charter → Bool
unfolding find_user
is_match db none c = true
is_match db (some q) c =
    db.contains q c.reference_no
    || db.contains q c.from_location
    || db.contains q c.to_location
    || contains_in db q c.contact_name
    || contains_in db q c.contact_phone
    || is_user_match db q (find_user c.passenger_id db.users)

unfoldable pub build_charter_where : Tables → CharterListFilter → Charter → Bool
unfolding is_match to_date_range is_in_range
build_charter_where db f c =
    has_status f.status c
    && is_of f.passenger_id c
    && is_in_range (to_date_range f.date_from f.date_to) (db.created_at c.id)
    && is_match db f.search c

abbrev pub is_newer : Tables → Charter → Charter → Bool
is_newer db c d = leb (db.created_at d.id) (db.created_at c.id)

unfoldable pub find_all :
    CharterListFilter → PaginationQuery → Tables → List Charter → List Charter × ℕ
unfolding build_charter_where to_skip_take
find_all f p db charters =
    let found = find_many (build_charter_where db f) charters in
    (items (to_skip_take p) (order_by (is_newer db) found), length found)

abbrev pub list :
    CharterListFilter → PaginationQuery → Tables → List Charter → List Charter × PageMeta
unfolding find_all page_meta
list f p db charters = let r = find_all f p db charters in (r.0, page_meta r.1 p)

-- `getAllCharters`, and `getMyCharters` with the owner put in the filter.
unfoldable pub get_all_charters :
    CharterListFilter → PaginationQuery → Tables → List Charter → List Charter × PageMeta
unfolding list
get_all_charters f p db charters = list f p db charters

unfoldable pub get_my_charters :
    ℕ → CharterListFilter → PaginationQuery → Tables → List Charter → List Charter × PageMeta
unfolding list
get_my_charters user f p db charters = list (record f { passenger_id = some user }) p db charters

abbrev pub opened : ℕ → Role → Option Charter → Result Charter
opened user role none = throws (app not_found_error)
opened user role (some c) =
    throw_if (same_role role passenger && not (c.passenger_id == user)) forbidden_error (returns c)

unfoldable pub get_charter_by_id : ℕ → ℕ → Role → List Charter → Result Charter
get_charter_by_id i user role charters = opened user role (find_first (has_id i) charters)

-- The controller.
abbrev pub for_passenger : Charter → Charter
for_passenger c = record c { operator_name = none; operator_cost = none; service_fee = none }

unfoldable pub list_my_charters :
    ℕ → CharterListFilter → PaginationQuery → Tables → List Charter → List Charter × PageMeta
unfolding get_my_charters
list_my_charters user f p db charters =
    let r = get_my_charters user f p db charters in (map for_passenger r.0, r.1)

abbrev pub shown_to : Role → Result Charter → Result Charter
shown_to passenger (returns c) = returns (for_passenger c)
shown_to role r = r

unfoldable pub get_charter : ℕ → ℕ → Role → List Charter → Result Charter
unfolding get_charter_by_id
get_charter i user role charters = shown_to role (get_charter_by_id i user role charters)
