-- ===== src/Waybills/Access.antt =====
-- Who may move a waybill, and where to.
use transhub.Prelude.{ℕ, ◌≡◌, ◌≢◌, true, false, not, ◌&&◌, Option, some, List, update_many}
use transhub.Roles.{operator, admin}
use transhub.Waybills.Service.{Requester}
use transhub.Waybills.{
  update_many, true, some, false, ◌&&◌, Option, ℕ, ◌≡◌, not, List, Waybill, WaybillStatus,
  cancelled,
}

-- An administrator moves every waybill; an operator one that is assigned to its own company, and never
-- to `cancelled`.
pub data MayMove : Requester → Waybill → WaybillStatus → Type 0 where
  as_admin : {r : Requester} {w : Waybill} {s : WaybillStatus} → r.role ≡ admin → MayMove r w s
  as_operator :
      {r : Requester} {w : Waybill} {s : WaybillStatus} (company : ℕ)
      → r.role ≡ operator
      → r.operator_id ≡ some company
      → w.assigned_operator_id ≡ some company
      → s ≢ cancelled
      → MayMove r w s
