-- ===== src/Charters.antt =====
-- The charters module (backend/src/modules/charters): the rows, and the writes of
-- charters.repository.ts. Money is in hundredths, the precision of a Decimal(12, 2) column.
pub mod Service
pub mod Payment
pub mod Charges
pub mod Verify
pub mod Requests
pub mod Reads
mod Tests
use transhub.Prelude.{
  ℕ, zero, suc, ◌+◌, ◌-◌, ◌*◌, ◌/◌, ◌%◌, ◌<◌, ◌≤◌, ◌≡◌, ◌≢◌, ◌↔◌, refl, sym, ap, ◌∙◌, ◌⊎◌, inl, inr,
  subst, Bool, true, false, not, ◌&&◌, ◌||◌, Option, none, some, List, [], ◌∷◌, ◌++◌, ◌==◌, ltb,
  leb, if◌then◌else◌, is_some, is, includes, length, arith, Bool-cases, Option-cases, ==_iff,
  ==_refl, update_many, count_where, find_first, find_first-some,
}
use transhub.Errors.{prisma_fault, Result, returns, throws, ◌>>=◌, throw_if, Ensures}

pub data CharterStatus : Type 0 where
  pending quote_sent awaiting_payment confirmed completed cancelled : CharterStatus

abbrev pub same_status : CharterStatus → CharterStatus → Bool
same_status pending pending = true
same_status quote_sent quote_sent = true
same_status awaiting_payment awaiting_payment = true
same_status confirmed confirmed = true
same_status completed completed = true
same_status cancelled cancelled = true
same_status _ _ = false

pub record Charter : Type 0 where
  pub id : ℕ
  pub reference_no : ℕ
  pub passenger_id : ℕ
  pub vehicle_type : ℕ
  pub from_location : ℕ
  pub to_location : ℕ
  pub departure_at : ℕ
  pub return_at : Option ℕ
  pub passenger_count : ℕ
  pub notes : Option ℕ
  pub contact_name : Option ℕ
  pub contact_phone : Option ℕ
  pub contact_email : Option ℕ
  pub status : CharterStatus
  pub quoted_price : Option ℕ
  pub operator_name : Option ℕ
  pub operator_cost : Option ℕ
  pub service_fee : Option ℕ
  pub admin_notes : Option ℕ
  pub payment_ref : Option ℕ
  pub paid_at : Option ℕ
  pub paid_amount : Option ℕ
  pub assigned_operator : Option ℕ
  pub pickup_info : Option ℕ
  pub travel_info : Option ℕ
  pub completed_at : Option ℕ

-- createCharterSchema, sendQuoteSchema and confirmBookingSchema.
pub record CreateCharterInput : Type 0 where
  pub vehicle_type : ℕ
  pub from_location : ℕ
  pub to_location : ℕ
  pub departure_at : ℕ
  pub return_at : Option ℕ
  pub passenger_count : ℕ
  pub notes : Option ℕ
  pub contact_name : Option ℕ
  pub contact_phone : Option ℕ
  pub contact_email : Option ℕ

pub record SendQuoteInput : Type 0 where
  pub operator_name : ℕ
  pub operator_cost : ℕ
  pub service_fee : ℕ
  pub quoted_price : ℕ
  pub admin_notes : Option ℕ

pub record ConfirmBookingInput : Type 0 where
  pub assigned_operator : ℕ
  pub pickup_info : ℕ
  pub travel_info : ℕ

abbrev pub has_id : ℕ → Charter → Bool
has_id i c = c.id == i

unfoldable pub find_by_id : ℕ → List Charter → Option Charter
find_by_id i = find_first (has_id i)

-- The row of `create`, with its id and its reference number.
unfoldable pub new_charter : ℕ → ℕ → ℕ → CreateCharterInput → Charter
new_charter i number user d = record {
  id = i;
  reference_no = number;
  passenger_id = user;
  vehicle_type = d.vehicle_type;
  from_location = d.from_location;
  to_location = d.to_location;
  departure_at = d.departure_at;
  return_at = d.return_at;
  passenger_count = d.passenger_count;
  notes = d.notes;
  contact_name = d.contact_name;
  contact_phone = d.contact_phone;
  contact_email = d.contact_email;
  status = pending;
  quoted_price = none;
  operator_name = none;
  operator_cost = none;
  service_fee = none;
  admin_notes = none;
  payment_ref = none;
  paid_at = none;
  paid_amount = none;
  assigned_operator = none;
  pickup_info = none;
  travel_info = none;
  completed_at = none;
}

-- The rows that the writes put in place of a row.
abbrev pub with_status : CharterStatus → Charter → Charter
with_status s c = record c { status = s }

unfoldable pub quoted : SendQuoteInput → Charter → Charter
quoted d c = record c {
  status = quote_sent;
  quoted_price = some d.quoted_price;
  operator_name = some d.operator_name;
  operator_cost = some d.operator_cost;
  service_fee = some d.service_fee;
  admin_notes = d.admin_notes;
}

unfoldable pub paid_charter : ℕ → ℕ → Charter → Charter
paid_charter paid_at paid_amount c = record c {
  paid_at = some paid_at;
  paid_amount = some paid_amount;
  status = confirmed;
}

unfoldable pub with_booking : ConfirmBookingInput → Charter → Charter
with_booking d c = record c {
  assigned_operator = some d.assigned_operator;
  pickup_info = some d.pickup_info;
  travel_info = some d.travel_info;
}

abbrev pub done : ℕ → Charter → Charter
done now c = record c { status = completed; completed_at = some now }

-- `confirmPayment`: the WHERE of its `updateMany`, and whether a row was changed.
abbrev pub is_payable : ℕ → Charter → Bool
is_payable i c = has_id i c && not (is_some c.paid_at) && same_status c.status awaiting_payment

unfoldable pub confirm_payment : ℕ → ℕ → ℕ → List Charter → Bool × List Charter
unfolding paid_charter
confirm_payment i paid_at paid_amount cs =
    if count_where (is_payable i) cs == 0
    then (false, cs)
    else (true, update_many (is_payable i) (paid_charter paid_at paid_amount) cs)

-- `update` by id and the read of the row that it returns; a row that is not there is a fault.
unfoldable pub update_row : ℕ → (Charter → Charter) → List Charter → Result (Charter × List Charter)
unfolding find_by_id
update_row i f cs = elim (find_by_id i (update_many (has_id i) f cs)) [
  | none ↦ throws prisma_fault
  | some c ↦ returns (c, update_many (has_id i) f cs)
]
