-- ===== src/Waybills/Reads.antt =====
-- The reads of backend/src/modules/waybills: the lists and the public view by the number of a waybill. When a waybill
-- was created and whether a text contains another are arguments.
pub mod Private
mod Tests
use transhub.Prelude.{
  ℕ, Bool, true, false, not, ◌&&◌, ◌||◌, Option, none, some, List, [], ◌∷◌, ◌==◌, leb, is, length,
  find_many, find_first, order_by,
}
use transhub.Errors.{Result, returns, throws}
use transhub.Errors.{app, not_found_error}
use transhub.Roles.{Role, operator, same_role}
use transhub.ListQuery.{to_date_range, is_in_range}
use transhub.Pagination.{PaginationQuery, PageMeta, to_skip_take, page_meta, items}
use transhub.Waybills.{Waybill, WaybillStatus, WaybillEvent, same_status}
use transhub.Waybills.Service.{Requester}

pub record PublicWaybill : Type 0 where
  pub waybill_no : ℕ
  pub status : WaybillStatus
  pub from_location : ℕ
  pub to_location : ℕ
  pub sender_name : ℕ
  pub recipient_name : ℕ
  pub description : ℕ
  pub weight_kg : Option ℕ
  pub fee : ℕ
  pub assigned_operator : Option ℕ
  pub quote_sent_at : Option ℕ
  pub paid_at : Option ℕ
  pub dropped_off_at : Option ℕ
  pub picked_up_at : Option ℕ
  pub in_transit_at : Option ℕ
  pub arrived_at : Option ℕ
  pub completed_at : Option ℕ
  pub events : List WaybillEvent

abbrev pub to_public_view : Waybill → PublicWaybill
to_public_view w = record {
  waybill_no = w.waybill_no;
  status = w.status;
  from_location = w.from_location;
  to_location = w.to_location;
  sender_name = w.sender_name;
  recipient_name = w.recipient_name;
  description = w.description;
  weight_kg = w.weight_kg;
  fee = w.fee;
  assigned_operator = w.assigned_operator_id;
  quote_sent_at = w.quote_sent_at;
  paid_at = w.paid_at;
  dropped_off_at = w.dropped_off_at;
  picked_up_at = w.picked_up_at;
  in_transit_at = w.in_transit_at;
  arrived_at = w.arrived_at;
  completed_at = w.completed_at;
  events = w.events;
}

abbrev pub has_no : ℕ → Waybill → Bool
has_no n w = w.waybill_no == n

abbrev pub tracked : Option Waybill → Result PublicWaybill
tracked none = throws (app not_found_error)
tracked (some w) = returns (to_public_view w)

-- `findByNo` and `trackWaybill`.
unfoldable pub track_waybill : ℕ → List Waybill → Result PublicWaybill
track_waybill n ws = tracked (find_first (has_no n) ws)

pub record WaybillListFilter : Type 0 where
  pub status : Option WaybillStatus
  pub trip_id : Option ℕ
  pub assigned_operator_id : Option ℕ
  pub user_id : Option ℕ
  pub date_from : Option ℕ
  pub date_to : Option ℕ
  pub search : Option ℕ

pub record Tables : Type 0 where
  pub created_at : ℕ → ℕ
  pub contains : ℕ → ℕ → Bool

abbrev pub has_status : Option WaybillStatus → Waybill → Bool
has_status none w = true
has_status (some s) w = same_status s w.status

-- A column that may be null against a value of the filter, if there is one.
abbrev pub is_same : Option ℕ → Option ℕ → Bool
is_same none column = true
is_same (some a) column = is column a

abbrev pub is_match : Tables → Option ℕ → Waybill → Bool
is_match db none w = true
is_match db (some q) w =
    db.contains q w.waybill_no
    || db.contains q w.sender_name
    || db.contains q w.sender_phone
    || db.contains q w.recipient_name
    || db.contains q w.recipient_phone
    || db.contains q w.from_location
    || db.contains q w.to_location
    || db.contains q w.description

unfoldable pub build_waybill_where : Tables → WaybillListFilter → Waybill → Bool
unfolding to_date_range is_in_range
build_waybill_where db f w =
    has_status f.status w
    && is_same f.trip_id w.trip_id
    && is_same f.assigned_operator_id w.assigned_operator_id
    && is_same f.user_id (some w.user_id)
    && is_in_range (to_date_range f.date_from f.date_to) (db.created_at w.id)
    && is_match db f.search w

abbrev pub is_newer : Tables → Waybill → Waybill → Bool
is_newer db w v = leb (db.created_at v.id) (db.created_at w.id)

-- `findAll` and the place of its page.
unfoldable pub find_all :
    WaybillListFilter → PaginationQuery → Tables → List Waybill → List Waybill × PageMeta
unfolding build_waybill_where to_skip_take page_meta
find_all f p db ws =
    let found = find_many (build_waybill_where db f) ws in
    (items (to_skip_take p) (order_by (is_newer db) found), page_meta (length found) p)

unfoldable pub list_my_waybills :
    ℕ → WaybillListFilter → PaginationQuery → Tables → List Waybill → List Waybill × PageMeta
unfolding find_all
list_my_waybills user f p db ws = find_all (record f { user_id = some user }) p db ws

abbrev pub listed :
    Role
    → Option ℕ
    → WaybillListFilter
    → PaginationQuery
    → Tables
    → List Waybill
    → List Waybill × PageMeta
unfolding find_all page_meta
listed operator none f p db ws = ([], page_meta 0 p)
listed operator (some company) f p db ws =
    find_all (record f { assigned_operator_id = some company }) p db ws
listed role company f p db ws = find_all f p db ws

unfoldable pub list_waybills :
    WaybillListFilter
    → Requester
    → PaginationQuery
    → Tables
    → List Waybill
    → List Waybill × PageMeta
unfolding listed
list_waybills f requester p db ws = listed requester.role requester.operator_id f p db ws
