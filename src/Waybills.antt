-- ===== src/Waybills.antt =====
-- The waybills module (backend/src/modules/waybills): parcel shipments. This file has the statuses of
-- waybills.schema.ts and the repository; ids, references, texts and instants are numbers, and money
-- is in kobo, the hundredths that a Decimal(12, 2) column holds.
pub mod Service
pub mod Invariant
pub mod Steps
pub mod Lifecycle
pub mod Payment
pub mod Access
pub mod Reads
mod Tests
use transhub.Prelude.{
  ℕ, zero, suc, ◌+◌, ◌/◌, ◌≡◌, Bool, true, false, not, ◌&&◌, ◌||◌, Option, none, some, List, [],
  ◌∷◌, ◌==◌, if◌then◌else◌, is, is_some, length, update_many, count_where, find_first,
}
use transhub.Errors.{Result, returns, throws, prisma_fault}

pub data WaybillStatus : Type 0 where
  pending quote_sent paid dropped_off picked_up in_transit arrived_at_hub : WaybillStatus
  completed cancelled : WaybillStatus

abbrev pub status_no : WaybillStatus → ℕ
status_no pending = 0
status_no quote_sent = 1
status_no paid = 2
status_no dropped_off = 3
status_no picked_up = 4
status_no in_transit = 5
status_no arrived_at_hub = 6
status_no completed = 7
status_no cancelled = 8

-- `===` on statuses.
abbrev pub same_status : WaybillStatus → WaybillStatus → Bool
same_status s t = status_no s == status_no t

unfoldable pub valid_transitions : WaybillStatus → List WaybillStatus
valid_transitions pending = quote_sent ∷ cancelled ∷ []
valid_transitions quote_sent = paid ∷ cancelled ∷ []
valid_transitions paid = dropped_off ∷ cancelled ∷ []
valid_transitions dropped_off = picked_up ∷ []
valid_transitions picked_up = in_transit ∷ []
valid_transitions in_transit = arrived_at_hub ∷ []
valid_transitions arrived_at_hub = completed ∷ []
valid_transitions completed = []
valid_transitions cancelled = []

abbrev pub includes_status : List WaybillStatus → WaybillStatus → Bool
includes_status [] s = false
includes_status (t ∷ ts) s = same_status t s || includes_status ts s

unfoldable pub allows : WaybillStatus → WaybillStatus → Bool
unfolding valid_transitions
allows s t = includes_status (valid_transitions s) t

-- A note is a text of the user, or one of the three that the repository writes.
pub data Note : Type 0 where
  text : ℕ → Note
  request_submitted quote_sent_by_admin payment_confirmed : Note

pub record WaybillEvent : Type 0 where
  pub status : WaybillStatus
  pub location : Option ℕ
  pub note : Option Note

-- `events` stands with the newest first.
pub record Waybill : Type 0 where
  pub id : ℕ
  pub waybill_no : ℕ
  pub user_id : ℕ
  pub trip_id : Option ℕ
  pub assigned_operator_id : Option ℕ
  pub sender_name : ℕ
  pub sender_phone : ℕ
  pub recipient_name : ℕ
  pub recipient_phone : ℕ
  pub from_location : ℕ
  pub to_location : ℕ
  pub description : ℕ
  pub weight_kg : Option ℕ
  pub declared_value : Option ℕ
  pub fee : ℕ
  pub quote_note : Option Note
  pub status : WaybillStatus
  pub payment_ref : Option ℕ
  pub paid_at : Option ℕ
  pub quote_sent_at : Option ℕ
  pub dropped_off_at : Option ℕ
  pub picked_up_at : Option ℕ
  pub in_transit_at : Option ℕ
  pub arrived_at : Option ℕ
  pub completed_at : Option ℕ
  pub events : List WaybillEvent

-- createWaybillSchema.
pub record CreateWaybillInput : Type 0 where
  pub trip_id : Option ℕ
  pub sender_name : ℕ
  pub sender_phone : ℕ
  pub recipient_name : ℕ
  pub recipient_phone : ℕ
  pub from_location : ℕ
  pub to_location : ℕ
  pub description : ℕ
  pub weight_kg : Option ℕ
  pub declared_value : Option ℕ

abbrev pub has_id : ℕ → Waybill → Bool
has_id i w = w.id == i

-- The new row, with its first event.
unfoldable pub new_waybill : ℕ → ℕ → ℕ → CreateWaybillInput → Waybill
new_waybill i number user d = record {
  id = i;
  waybill_no = number;
  user_id = user;
  trip_id = d.trip_id;
  assigned_operator_id = none;
  sender_name = d.sender_name;
  sender_phone = d.sender_phone;
  recipient_name = d.recipient_name;
  recipient_phone = d.recipient_phone;
  from_location = d.from_location;
  to_location = d.to_location;
  description = d.description;
  weight_kg = d.weight_kg;
  declared_value = d.declared_value;
  fee = 0;
  quote_note = none;
  status = pending;
  payment_ref = none;
  paid_at = none;
  quote_sent_at = none;
  dropped_off_at = none;
  picked_up_at = none;
  in_transit_at = none;
  arrived_at = none;
  completed_at = none;
  events = record { status = pending; location = none; note = some request_submitted } ∷ [];
}

unfoldable pub find_by_id : ℕ → List Waybill → Option Waybill
find_by_id i = find_first (has_id i)

unfoldable pub find_by_payment_ref : ℕ → List Waybill → Option Waybill
find_by_payment_ref ref = find_first (λ w. is w.payment_ref ref)

-- `findUniqueOrThrow`.
unfoldable pub find_or_throw : ℕ → List Waybill → Result Waybill
unfolding find_by_id
find_or_throw i ws = elim (find_by_id i ws) [ none ↦ throws prisma_fault | some w ↦ returns w ]

-- What a Decimal(12, 2) column stores of an amount in ten-thousandths: its hundredths, rounded half up.
abbrev pub to_decimal : ℕ → ℕ
to_decimal amount = (amount + 50) / 100

-- The rows that the repository's writes put in place of a row.
unfoldable pub quoted : ℕ → ℕ → ℕ → Option Note → Waybill → Waybill
quoted now fee company remark w = record w {
  fee = fee;
  assigned_operator_id = some company;
  quote_note = remark;
  status = quote_sent;
  quote_sent_at = some now;
  events =
      record {
        status = quote_sent;
        location = none;
        note = elim remark [ none ↦ some quote_sent_by_admin | some n ↦ some n ];
      }
      ∷ w.events;
}

unfoldable pub flip : ℕ → Waybill → Waybill
flip paid_at w = record w { status = paid; paid_at = some paid_at }

unfoldable pub with_paid_event : Waybill → Waybill
with_paid_event w = record w {
  events = record { status = paid; location = none; note = some payment_confirmed } ∷ w.events;
}

unfoldable pub paid_row : ℕ → Waybill → Waybill
unfolding flip with_paid_event
paid_row paid_at w = with_paid_event (flip paid_at w)

-- The column that `stageField` names for a status, stamped with the time.
unfoldable pub stamp : ℕ → WaybillStatus → Waybill → Waybill
stamp now dropped_off w = record w { dropped_off_at = some now }
stamp now picked_up w = record w { picked_up_at = some now }
stamp now in_transit w = record w { in_transit_at = some now }
stamp now arrived_at_hub w = record w { arrived_at = some now }
stamp now completed w = record w { completed_at = some now }
stamp now _ w = w

unfoldable pub moved : ℕ → WaybillStatus → Option ℕ → Option Note → Waybill → Waybill
unfolding stamp
moved now s location remark w = stamp now s (record w {
  status = s;
  events = record { status = s; location = location; note = remark } ∷ w.events;
})

-- `confirmPayment`: the WHERE of its `updateMany`, and whether a row was changed. The event is created by
-- a second write, outside a transaction; here no other request comes between the two.
abbrev pub is_payable : ℕ → Waybill → Bool
is_payable i w = has_id i w && not (is_some w.paid_at) && same_status w.status quote_sent

unfoldable pub confirm_payment : ℕ → ℕ → List Waybill → Bool × List Waybill
unfolding flip with_paid_event
confirm_payment i paid_at ws = if count_where (is_payable i) ws == 0 then (false, ws) else (
  true,
  update_many (has_id i) with_paid_event (update_many (is_payable i) (flip paid_at) ws),
)
