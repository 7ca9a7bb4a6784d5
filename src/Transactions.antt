-- ===== src/Transactions.antt =====
-- The feed of payments (backend/src/modules/transactions): one read over bookings, charters and
-- waybills. When a row was created, how a text matches and how a status is spelled are arguments.
pub mod Scope
mod Tests
use transhub.Prelude.{
  ℕ, ◌+◌, Bool, true, false, ◌&&◌, Option, none, some, List, [], ◌∷◌, ◌++◌, ◌==◌, leb,
  if◌then◌else◌, is, length, find_many, order_by,
}
use transhub.Errors.{Result, returns, throws}
use transhub.Errors.{app, forbidden_error}
use transhub.Roles.{Role, admin, operator, passenger, driver}
use transhub.Accounts.{User, find_user}
use transhub.Pagination.{PaginationQuery, PageMeta, to_skip_take, page_meta, items}
use transhub.ListQuery.{Range, to_number_range, to_date_range, is_in_range}
use transhub.Trips.{Trip, find_trip}
use transhub.Bookings.{Booking, BookingStatus}
use transhub.Charters.{Charter, CharterStatus}
use transhub.Waybills.{Waybill, WaybillStatus}

pub data TransactionType : Type 0 where
  booking charter waybill : TransactionType

abbrev pub same_type : TransactionType → TransactionType → Bool
same_type booking booking = true
same_type charter charter = true
same_type waybill waybill = true
same_type t u = false

pub data Status : Type 0 where
  of_booking : BookingStatus → Status
  of_charter : CharterStatus → Status
  of_waybill : WaybillStatus → Status

-- A route, or "Trip booking".
pub data Description : Type 0 where
  route : ℕ → ℕ → Description
  trip_booking : Description

pub record TransactionRow : Type 0 where
  pub reference : ℕ
  pub kind : TransactionType
  pub amount : ℕ
  pub status : Status
  pub created_at : ℕ
  pub related_id : ℕ
  pub customer_name : ℕ
  pub customer_email : ℕ
  pub description : Description
  pub operator_id : Option ℕ
  pub user_id : ℕ

-- The tables, and when the row with an id was created.
pub record Tables : Type 0 where
  pub users : List User
  pub trips : List Trip
  pub bookings : List Booking
  pub charters : List Charter
  pub waybills : List Waybill
  pub booking_created_at : ℕ → ℕ
  pub charter_created_at : ℕ → ℕ
  pub waybill_created_at : ℕ → ℕ

-- The row of a record that has a reference and whose user is there.
abbrev pub joined : Option ℕ → Option User → (ℕ → User → TransactionRow) → List TransactionRow
joined none u row = []
joined (some ref) none row = []
joined (some ref) (some u) row = row ref u ∷ []

abbrev pub trip_route : Option Trip → Description
trip_route none = trip_booking
trip_route (some t) = route t.origin t.destination

abbrev pub trip_operator : Option Trip → Option ℕ
trip_operator none = none
trip_operator (some t) = some t.operator_id

abbrev pub booking_rows : Tables → List Booking → List TransactionRow
unfolding find_trip find_user
booking_rows db [] = []
booking_rows db (b ∷ bs) =
    joined b.payment_ref (find_user b.user_id db.users) (λ ref u. record {
      reference = ref;
      kind = booking;
      amount = b.total_amount;
      status = of_booking b.status;
      created_at = db.booking_created_at b.id;
      related_id = b.id;
      customer_name = u.full_name;
      customer_email = u.email;
      description = trip_route (find_trip b.trip_id db.trips);
      operator_id = trip_operator (find_trip b.trip_id db.trips);
      user_id = b.user_id;
    })
    ++ booking_rows db bs

-- `COALESCE(paidAmount, quotedPrice, 0)`.
abbrev pub charter_amount : Option ℕ → Option ℕ → ℕ
charter_amount (some paid) quoted = paid
charter_amount none (some quoted) = quoted
charter_amount none none = 0

abbrev pub charter_rows : Tables → List Charter → List TransactionRow
unfolding find_user
charter_rows db [] = []
charter_rows db (c ∷ cs) =
    joined c.payment_ref (find_user c.passenger_id db.users) (λ ref u. record {
      reference = ref;
      kind = charter;
      amount = charter_amount c.paid_amount c.quoted_price;
      status = of_charter c.status;
      created_at = db.charter_created_at c.id;
      related_id = c.id;
      customer_name = u.full_name;
      customer_email = u.email;
      description = route c.from_location c.to_location;
      operator_id = none;
      user_id = c.passenger_id;
    })
    ++ charter_rows db cs

abbrev pub waybill_rows : Tables → List Waybill → List TransactionRow
unfolding find_user
waybill_rows db [] = []
waybill_rows db (w ∷ ws) =
    joined w.payment_ref (find_user w.user_id db.users) (λ ref u. record {
      reference = ref;
      kind = waybill;
      amount = w.fee;
      status = of_waybill w.status;
      created_at = db.waybill_created_at w.id;
      related_id = w.id;
      customer_name = u.full_name;
      customer_email = u.email;
      description = route w.from_location w.to_location;
      operator_id = w.assigned_operator_id;
      user_id = w.user_id;
    })
    ++ waybill_rows db ws

-- `UNION`.
unfoldable pub union : Tables → List TransactionRow
unfolding booking_rows charter_rows waybill_rows
union db = booking_rows db db.bookings ++ charter_rows db db.charters ++ waybill_rows db db.waybills

pub record TransactionFilter : Type 0 where
  pub kind : Option TransactionType
  pub status : Option ℕ
  pub operator_id : Option ℕ
  pub user_id : Option ℕ
  pub min_amount : Option ℕ
  pub max_amount : Option ℕ
  pub date_from : Option ℕ
  pub date_to : Option ℕ
  pub search : Option ℕ

-- How statuses are spelled, and ILIKE on the reference, the customer and the description.
pub record Texts : Type 0 where
  pub status_text : Status → ℕ
  pub ilike : ℕ → TransactionRow → Bool

abbrev pub type_is : Option TransactionType → TransactionType → Bool
type_is none t = true
type_is (some k) t = same_type t k

abbrev pub id_is : Option ℕ → ℕ → Bool
id_is none i = true
id_is (some k) i = i == k

-- An operator of NULL is equal to none.
abbrev pub operator_is : Option ℕ → Option ℕ → Bool
operator_is none o = true
operator_is (some k) o = is o k

abbrev pub matches : Texts → Option ℕ → TransactionRow → Bool
matches texts none r = true
matches texts (some q) r = texts.ilike q r

-- `buildConditions`.
unfoldable pub meets : Texts → TransactionFilter → TransactionRow → Bool
unfolding is_in_range to_number_range to_date_range
meets texts f r =
    type_is f.kind r.kind
    && id_is f.status (texts.status_text r.status)
    && operator_is f.operator_id r.operator_id
    && id_is f.user_id r.user_id
    && is_in_range (to_number_range f.min_amount f.max_amount) r.amount
    && is_in_range (to_date_range f.date_from f.date_to) r.created_at
    && matches texts f.search r

abbrev pub is_newer : TransactionRow → TransactionRow → Bool
is_newer r s = leb s.created_at r.created_at

-- `findAll`: the items and the total.
unfoldable pub find_all :
    Texts → TransactionFilter → PaginationQuery → List TransactionRow → List TransactionRow × ℕ
unfolding meets to_skip_take
find_all texts f p rows =
    let found = find_many (meets texts f) rows in
    (items (to_skip_take p) (order_by is_newer found), length found)

pub record Requester : Type 0 where
  pub id : ℕ
  pub role : Role
  pub operator_id : Option ℕ

-- The scope of a role, over what the client asks for.
abbrev pub scoped : Role → Requester → TransactionFilter → TransactionFilter
scoped operator r f = record f { operator_id = r.operator_id }
scoped passenger r f = record f { user_id = some r.id; operator_id = none }
scoped role r f = f

unfoldable pub list :
    Texts
    → TransactionFilter
    → Requester
    → PaginationQuery
    → List TransactionRow
    → List TransactionRow × PageMeta
unfolding find_all page_meta
list texts f r p rows =
    let found = find_all texts (scoped r.role r f) p rows in (found.0, page_meta found.1 p)

-- The guards of the route and of the controller.
unfoldable pub list_request :
    Texts
    → TransactionFilter
    → Requester
    → PaginationQuery
    → Tables
    → Result (List TransactionRow × PageMeta)
unfolding list union
list_request texts f r p db = elim r.role [
  | driver ↦ throws (app forbidden_error)
  | operator ↦ elim r.operator_id [
    | none ↦ throws (app forbidden_error)
    | some o ↦ returns (list texts f r p (union db))
  ]
  | passenger ↦ returns (list texts f r p (union db))
  | admin ↦ returns (list texts f r p (union db))
]
