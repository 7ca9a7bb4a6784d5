-- ===== src/Waybills/Invariant.antt =====
-- What holds of every waybill row between two requests, and the writes that keep it.
use transhub.Prelude.{
  ℕ, ◌≡◌, refl, Bool, true, false, not, ◌&&◌, Option, some, List, [], ◌∷◌, leb, is_some, arith,
}
use transhub.Waybills.{
  Waybill, WaybillStatus, pending, quote_sent, cancelled, WaybillEvent, Note, CreateWaybillInput,
  new_waybill, same_status, status_no, allows, quoted, moved, stamp, paid_row, flip,
  with_paid_event,
}
use transhub.Waybills.Service.{is_update_status}

-- The events record the statuses that the waybill went through, the current one first: it began as
-- `pending`, and each step is in VALID_TRANSITIONS.
pub data IsHistory : WaybillStatus → List WaybillEvent → Type 0 where
  begun : (e : WaybillEvent) → e.status ≡ pending → IsHistory pending (e ∷ [])
  went :
      {s t : WaybillStatus} {es : List WaybillEvent} (e : WaybillEvent)
      → e.status ≡ t
      → allows s t ≡ true
      → IsHistory s es
      → IsHistory t (e ∷ es)

abbrev pub is_cancelled : WaybillStatus → Bool
is_cancelled s = same_status s cancelled

-- Stage `k` of the way is behind a waybill that was not cancelled.
abbrev pub has_reached : ℕ → WaybillStatus → Bool
has_reached k s = not (is_cancelled s) && leb k (status_no s)

pub record Inv (w : Waybill) : Type 0 where
  pub history : IsHistory w.status w.events
  pub quote_stamp : has_reached 1 w.status ≡ true → is_some w.quote_sent_at ≡ true
  pub assigned : has_reached 1 w.status ≡ true → is_some w.assigned_operator_id ≡ true
  pub paid_stamp : is_cancelled w.status ≡ false → is_some w.paid_at ≡ has_reached 2 w.status
  pub dropped_off_stamp : is_some w.dropped_off_at ≡ has_reached 3 w.status
  pub picked_up_stamp : is_some w.picked_up_at ≡ has_reached 4 w.status
  pub in_transit_stamp : is_some w.in_transit_at ≡ has_reached 5 w.status
  pub arrived_stamp : is_some w.arrived_at ≡ has_reached 6 w.status
  pub completed_stamp : is_some w.completed_at ≡ has_reached 7 w.status

pub new_waybill-Inv :
    (i number user : ℕ) (d : CreateWaybillInput) → Inv (new_waybill i number user d)
unfolding new_waybill
new_waybill-Inv i number user d = record {
  history = begun _ refl;
  quote_stamp = ground arith;
  assigned = ground arith;
  paid_stamp = ground arith;
  dropped_off_stamp = refl;
  picked_up_stamp = refl;
  in_transit_stamp = refl;
  arrived_stamp = refl;
  completed_stamp = refl;
}

-- A stamp changes neither the status, nor the events, nor the id.
pub stamp_keeps :
    (now : ℕ) (t : WaybillStatus) (w : Waybill)
    → ((stamp now t w).status ≡ w.status)
      × ((stamp now t w).events ≡ w.events)
      × ((stamp now t w).id ≡ w.id)
unfolding stamp
stamp_keeps now t w = ground arith

module _ (w : Waybill) (v : Inv w) where
  pub quoted-Inv :
      (now fee company : ℕ) (remark : Option Note)
      → w.status ≡ pending
      → Inv (quoted now fee company remark w)
  unfolding quoted allows
  quoted-Inv now fee company remark p = record {
    history = went _ refl (rw p) v.history;
    quote_stamp = λ h. refl;
    assigned = λ h. refl;
    paid_stamp = ground (arith, v.paid_stamp);
    dropped_off_stamp = ground arith;
    picked_up_stamp = ground arith;
    in_transit_stamp = ground arith;
    arrived_stamp = ground arith;
    completed_stamp = ground arith;
  }

  pub paid_row-Inv : (paid_at : ℕ) → w.status ≡ quote_sent → Inv (paid_row paid_at w)
  unfolding paid_row flip with_paid_event allows
  paid_row-Inv paid_at p = record {
    history = went _ refl (rw p) v.history;
    quote_stamp = λ h. v.quote_stamp (ground arith);
    assigned = λ h. v.assigned (ground arith);
    paid_stamp = λ h. refl;
    dropped_off_stamp = ground arith;
    picked_up_stamp = ground arith;
    in_transit_stamp = ground arith;
    arrived_stamp = ground arith;
    completed_stamp = ground arith;
  }

  moved-IsHistory :
      (now : ℕ) (t : WaybillStatus) (location : Option ℕ) (remark : Option Note)
      → allows w.status t ≡ true
      → IsHistory (moved now t location remark w).status (moved now t location remark w).events
  unfolding moved
  moved-IsHistory now t location remark p =
      rw ((stamp_keeps now t _).0, (stamp_keeps now t _).1) (went _ refl p v.history)

  pub moved-Inv :
      (now : ℕ) (t : WaybillStatus) (location : Option ℕ) (remark : Option Note)
      → allows w.status t ≡ true
      → is_update_status t ≡ true
      → Inv (moved now t location remark w)
  unfolding moved allows is_update_status stamp
  moved-Inv now t location remark p q = record {
    history = moved-IsHistory now t location remark p;
    quote_stamp = ground (arith, v.quote_stamp);
    assigned = ground (arith, v.assigned);
    paid_stamp = ground (arith, v.paid_stamp);
    dropped_off_stamp = ground arith;
    picked_up_stamp = ground arith;
    in_transit_stamp = ground arith;
    arrived_stamp = ground arith;
    completed_stamp = ground arith;
  }

pub moved-id :
    (now : ℕ) (t : WaybillStatus) (location : Option ℕ) (remark : Option Note) (w : Waybill)
    → (moved now t location remark w).id ≡ w.id
unfolding moved
moved-id now t location remark w = (stamp_keeps now t _).2

pub ref-Inv : (ref : ℕ) (w : Waybill) → Inv w → Inv (record w { payment_ref = some ref })
ref-Inv ref w v = record {
  history = v.history;
  quote_stamp = v.quote_stamp;
  assigned = v.assigned;
  paid_stamp = v.paid_stamp;
  dropped_off_stamp = v.dropped_off_stamp;
  picked_up_stamp = v.picked_up_stamp;
  in_transit_stamp = v.in_transit_stamp;
  arrived_stamp = v.arrived_stamp;
  completed_stamp = v.completed_stamp;
}
