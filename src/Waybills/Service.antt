-- ===== src/Waybills/Service.antt =====
-- waybills.service.ts. What other requests do to the table between a handler's read and its write is
-- the argument `meanwhile`; the clock, the lookup of a user's email (none if it fails) and the calls
-- of the payments module are arguments too. A handler returns its value, the table and what it emits.
use transhub.Prelude.{
  ℕ, Bool, true, false, not, ◌&&◌, ◌||◌, Option, none, some, List, [], ◌∷◌, ◌==◌, if◌then◌else◌, is,
  is_some, update_many, find_first,
}
use transhub.Errors.{
  Result, returns, throws, ◌>>=◌, throw_if, app, not_found_error, forbidden_error, conflict_error,
  invalid_status_transition, no_quote, unique_violation, validation_error,
}
use transhub.Paystack.{VerifiedTransaction, TxState, tx_success, tx_failed, tx_pending}
use transhub.Roles.{Role, operator, admin, same_role, require_role}
use transhub.Waybills.{
  Waybill, WaybillStatus, pending, quote_sent, paid, completed, cancelled, WaybillEvent, Note,
  CreateWaybillInput, new_waybill, same_status, allows, has_id, find_by_id, find_by_payment_ref,
  find_or_throw, to_decimal, quoted, moved, confirm_payment,
}

pub record Requester : Type 0 where
  pub role : Role
  pub operator_id : Option ℕ

-- What is put on the event bus, and what is reported to Sentry as a payment issue.
pub data Emission : Type 0 where
  tracking_updated : ℕ → WaybillStatus → List WaybillEvent → Emission
  quote_ready : ℕ → Option ℕ → ℕ → Emission
  delivered : ℕ → Emission
  paid_notice : ℕ → Option ℕ → Emission
  amount_mismatch : ℕ → ℕ → ℕ → Emission

abbrev pub Answer : Type 0 → Type 0
Answer A = Result (A × List Waybill × List Emission)

emit_tracking_update : Waybill → Emission
emit_tracking_update w = tracking_updated w.waybill_no w.status w.events

-- `throw new NotFoundError` unless the row is there.
abbrev pub or_not_found : Option Waybill → Result Waybill
or_not_found none = throws (app not_found_error)
or_not_found (some w) = returns w

-- `generateWaybillNo`: a second number is tried if the first is taken, and a second collision
-- passes the violation on. The id that the database makes is `i`.
unfoldable pub create_waybill : ℕ → ℕ → ℕ → ℕ → CreateWaybillInput → List Waybill → Answer Waybill
unfolding new_waybill
create_waybill i first second user d ws =
    let insert = λ (n : ℕ). returns (new_waybill i n user d, new_waybill i n user d ∷ ws, []) in
    let taken =
      λ (n : ℕ). is_some (find_by_id i ws) || is_some (find_first (λ w. w.waybill_no == n) ws) in
    if not (taken first)
    then insert first
    else if not (taken second)
    then insert second
    else throws unique_violation

-- The amount is in ten-thousandths; the event carries it as it was sent, the row as it is stored.
unfoldable pub send_quote :
    (List Waybill → List Waybill)
    → (ℕ → Option ℕ)
    → ℕ
    → ℕ
    → ℕ
    → ℕ
    → Option Note
    → List Waybill
    → Answer Waybill
unfolding emit_tracking_update
send_quote meanwhile email_of now i company amount remark ws = do
  w ← or_not_found (find_by_id i ws)
  throw_if (not (same_status w.status pending)) (conflict_error invalid_status_transition) do
    let ws' = update_many (has_id i) (quoted now (to_decimal amount) company remark) (meanwhile ws)
    updated ← find_or_throw i ws'
    returns (
      updated,
      ws',
      emit_tracking_update updated ∷ quote_ready updated.id (email_of updated.user_id) amount ∷ [],
    )

-- The payment is started by `initialize`, which gives the URL and the reference.
unfoldable pub initiate_pay :
    (List Waybill → List Waybill) → (Waybill → Result (ℕ × ℕ)) → ℕ → ℕ → List Waybill → Answer ℕ
initiate_pay meanwhile initialize i user ws = do
  w ← or_not_found (find_by_id i ws)
  throw_if (not (w.user_id == user)) forbidden_error (
      throw_if (not (same_status w.status quote_sent)) (conflict_error invalid_status_transition) (
        throw_if (w.fee == 0) (conflict_error no_quote) do
          started ← initialize w
          returns (
            started.0,
            update_many (has_id i) (λ x. record x { payment_ref = some started.1 }) (meanwhile ws),
            [],
          )))

-- `!requester.operatorId || waybill.assignedOperatorId !== requester.operatorId`.
abbrev pub not_assigned : Option ℕ → Option ℕ → Bool
not_assigned none assigned = true
not_assigned (some o) assigned = not (is assigned o)

unfoldable pub update_waybill_status :
    (List Waybill → List Waybill)
    → ℕ
    → ℕ
    → Requester
    → WaybillStatus
    → Option ℕ
    → Option Note
    → List Waybill
    → Answer Waybill
unfolding emit_tracking_update
update_waybill_status meanwhile now i requester status location remark ws = do
  w ← or_not_found (find_by_id i ws)
  throw_if (not (same_role requester.role admin) && not (same_role requester.role operator))
      forbidden_error
      (throw_if
        (same_role requester.role operator
          && not_assigned requester.operator_id w.assigned_operator_id)
        forbidden_error
        (throw_if (same_role requester.role operator && same_status status cancelled)
          forbidden_error
          (throw_if (not (allows w.status status)) (conflict_error invalid_status_transition) do
            let ws' = update_many (has_id i) (moved now status location remark) (meanwhile ws)
            updated ← find_or_throw i ws'
            returns (
              updated,
              ws',
              emit_tracking_update updated
                  ∷ (if same_status status completed then delivered updated.id ∷ [] else []),
            ))))

-- `Math.round(Number(waybill.fee) * 100)`: a fee of hundredths is a whole number of kobo.
abbrev pub expected_kobo : Waybill → ℕ
expected_kobo w = w.fee

-- What is emitted once the flip is done.
unfoldable pub confirmation : (ℕ → Option ℕ) → ℕ → ℕ → Option Waybill → List Emission
unfolding emit_tracking_update
confirmation email_of i user none = paid_notice i (email_of user) ∷ []
confirmation email_of i user (some w) = emit_tracking_update w ∷ paid_notice i (email_of user) ∷ []

unfoldable pub handle_payment_confirmed :
    (List Waybill → List Waybill)
    → (ℕ → Option ℕ)
    → ℕ
    → ℕ
    → ℕ
    → List Waybill
    → List Waybill × List Emission
unfolding confirmation
handle_payment_confirmed meanwhile email_of i paid_at amount ws = elim (find_by_id i ws) [
  | none ↦ (ws, [])
  | some w ↦
      if is_some w.paid_at
      then (ws, [])
      else if not (amount == expected_kobo w)
      then (ws, amount_mismatch i (expected_kobo w) amount ∷ [])
      else let (confirmed, ws') = confirm_payment i paid_at (meanwhile ws) in
        if confirmed then (ws', confirmation email_of i w.user_id (find_by_id i ws')) else (ws', [])
]

-- Where the outcome is settled: what Paystack says of a waybill that is still to be paid.
unfoldable pub settle_verified :
    (List Waybill → List Waybill)
    → (ℕ → Option ℕ)
    → ℕ
    → Waybill
    → Option VerifiedTransaction
    → List Waybill
    → Answer (TxState × Waybill)
unfolding handle_payment_confirmed
settle_verified meanwhile email_of now w none ws = returns ((tx_failed, w), ws, [])
settle_verified meanwhile email_of now w (some tx) ws = elim tx.state [
  | tx_pending ↦ returns ((tx_pending, w), ws, [])
  | tx_failed ↦ returns ((tx_failed, w), ws, [])
  | tx_success ↦
      (let (ws', out) = handle_payment_confirmed meanwhile email_of w.id now tx.amount_kobo ws in
        let updated : Waybill = elim (find_by_id w.id ws') [ none ↦ w | some u ↦ u ] in
        returns ((if is_some updated.paid_at then tx_success else tx_failed, updated), ws', out))
]

unfoldable pub verify_payment :
    (List Waybill → List Waybill)
    → (ℕ → Option ℕ)
    → (ℕ → Result (Option VerifiedTransaction))
    → ℕ
    → ℕ
    → ℕ
    → List Waybill
    → Answer (TxState × Waybill)
unfolding settle_verified
verify_payment meanwhile email_of lookup now ref user ws = do
  w ← or_not_found (find_by_payment_ref ref ws)
  throw_if (not (w.user_id == user)) forbidden_error (
      if is_some w.paid_at
      then returns ((tx_success, w), ws, [])
      else if not (same_status w.status quote_sent)
      then returns ((tx_pending, w), ws, [])
      else do tx ← lookup ref; settle_verified meanwhile email_of now w tx ws)

-- The requests that the routes let through to the handlers: the roles of waybills.routes.ts, the
-- schemas of waybills.schema.ts and the webhook's event.
pub data Request : Type 0 where
  create : ℕ → ℕ → ℕ → ℕ → CreateWaybillInput → Request
  quote : Option Role → ℕ → ℕ → ℕ → ℕ → Option Note → Request
  pay : (Waybill → Result (ℕ × ℕ)) → ℕ → ℕ → Request
  move : Requester → ℕ → ℕ → WaybillStatus → Option ℕ → Option Note → Request
  webhook : ℕ → ℕ → ℕ → Request
  verify : (ℕ → Result (Option VerifiedTransaction)) → ℕ → ℕ → ℕ → Request

-- The enum of updateStatusSchema.
unfoldable pub is_update_status : WaybillStatus → Bool
is_update_status pending = false
is_update_status quote_sent = false
is_update_status paid = false
is_update_status _ = true

-- The table once a handler is done; one that throws has written nothing.
abbrev pub table_after : {A : Type 0} → List Waybill → Answer A → List Waybill
table_after ws (throws e) = ws
table_after ws (returns r) = r.1

abbrev pub alone : List Waybill → List Waybill
alone ws = ws

-- One request, with no other in the meantime.
unfoldable pub serve : (ℕ → Option ℕ) → List Waybill → Request → List Waybill
unfolding create_waybill send_quote initiate_pay update_waybill_status handle_payment_confirmed
    verify_payment is_update_status require_role
serve email_of ws (create i first second user d) =
    table_after ws (create_waybill i first second user d ws)
serve email_of ws (quote role now i company amount remark) = table_after ws (
    require_role (admin ∷ []) role (
      throw_if (amount == 0) validation_error
        (send_quote alone email_of now i company amount remark ws)))
serve email_of ws (pay initialize i user) = table_after ws (initiate_pay alone initialize i user ws)
serve email_of ws (move requester now i status location remark) = table_after ws (
    require_role (admin ∷ operator ∷ []) (some requester.role) (
      throw_if (not (is_update_status status)) validation_error
        (update_waybill_status alone now i requester status location remark ws)))
serve email_of ws (webhook i paid_at amount) =
    (handle_payment_confirmed alone email_of i paid_at amount ws).0
serve email_of ws (verify lookup now ref user) =
    table_after ws (verify_payment alone email_of lookup now ref user ws)

unfoldable pub serve_all : (ℕ → Option ℕ) → List Waybill → List Request → List Waybill
unfolding serve
serve_all email_of ws [] = ws
serve_all email_of ws (r ∷ rs) = serve_all email_of (serve email_of ws r) rs
