-- ===== src/Waybills/Payment.antt =====
-- The money of a waybill: what a delivery of the webhook does whatever other requests do at the same
-- time, and what the verify endpoint answers.
pub mod Verify
pub mod Lasting
use transhub.Prelude.{
  ==_ne, In, All-In, ℕ, zero, suc, ◌+◌, ◌<◌, ◌≤◌, ◌≡◌, ◌≢◌, refl, sym, ◌∙◌, ◌⊎◌, inl, inr, subst,
  Bool, true, false, not, ◌&&◌, ◌||◌, Option, none, some, List, [], ◌∷◌, ◌==◌, if◌then◌else◌,
  is_some, arith, Bool-cases, Option-cases, ==_iff, ==_refl, update_many, count_where, find_first,
  find_first-some, find_first-update, count_where-guarded,
}
use transhub.Errors.{Result, returns, throws, returns_injective, ◌>>=◌, throw_if}
use transhub.Paystack.{VerifiedTransaction, TxState, tx_success, tx_failed, tx_pending}
use transhub.Roles.{Role, admin, operator}
use transhub.Waybills.{
  Waybill, WaybillStatus, quote_sent, paid, cancelled, same_status, Note, has_id, find_by_id,
  find_by_payment_ref, find_or_throw, moved, paid_row, flip, with_paid_event, confirm_payment,
  is_payable, stamp, allows,
}
use transhub.Waybills.Service.{
  Emission, paid_notice, amount_mismatch, handle_payment_confirmed, settle_verified, verify_payment,
  update_waybill_status, alone, Requester, table_after, confirmation, tracking_updated, Answer,
  or_not_found,
}
use transhub.Waybills.Invariant.{Inv, moved-id, stamp_keeps}
use transhub.Waybills.Steps.{handle_payment-Step}
use transhub.Waybills.Lifecycle.{Step-TableInv, TableInv, confirm_payment-paid_row}

-- `confirmPayment` on a row that a read finds: it is the flip of that row, if it is payable.
module _ (i : ℕ) (ws : List Waybill) (w : Waybill) (t : TableInv ws)
    (e : find_by_id i ws ≡ some w) where
  count-payable : count_where (is_payable i) ws ≡ (if is_payable i w then 1 else 0)
  unfolding find_by_id
  count-payable =
      count_where-guarded (λ x. x.id) i (is_payable i) ws w (λ x h. ground arith) t.keyed e

  pub confirm_payment_flips :
      (paid_at : ℕ)
      → is_payable i w ≡ true
      → confirm_payment i paid_at ws ≡ (true, update_many (is_payable i) (paid_row paid_at) ws)
  confirm_payment_flips paid_at h =
      confirm_payment-paid_row ws i paid_at t.keyed ∙ rw count-payable (rw h refl)

  pub confirm_payment_refuses :
      (paid_at : ℕ) → is_payable i w ≡ false → confirm_payment i paid_at ws ≡ (false, ws)
  unfolding confirm_payment
  confirm_payment_refuses paid_at h = rw count-payable (rw h refl)

  pub find-flipped :
      (paid_at : ℕ)
      → is_payable i w ≡ true
      → find_by_id i (update_many (is_payable i) (paid_row paid_at) ws) ≡ some (paid_row paid_at w)
  unfolding find_by_id paid_row flip with_paid_event
  find-flipped paid_at h =
      find_first-update (λ x. x.id) i (is_payable i) (paid_row paid_at) ws w (λ x. refl) e
      ∙ rw h refl

  pub payable_status : is_payable i w ≡ true → (is_some w.paid_at ≡ false) × (w.status ≡ quote_sent)
  payable_status h = ground arith

  -- A payment in full of a payable waybill, with no other request in the meantime, flips it.
  pub handle_payment_flips :
      (email_of : ℕ → Option ℕ) (paid_at : ℕ)
      → is_payable i w ≡ true
      → handle_payment_confirmed alone email_of i paid_at w.fee ws ≡ (
        update_many (is_payable i) (paid_row paid_at) ws,
        confirmation email_of i w.user_id (some (paid_row paid_at w)),
      )
  unfolding handle_payment_confirmed
  handle_payment_flips email_of paid_at h =
      rw
        (
          handle_payment_confirmed,
          e,
          (payable_status h).0,
          ==_refl w.fee,
          confirm_payment_flips paid_at h,
          find-flipped paid_at h,
        )
        refl

  pub found_row : In w ws × (has_id i w ≡ true)
  unfolding find_by_id
  found_row = find_first-some (has_id i) ws w e

  -- A quoted waybill is payable.
  pub quoted_payable : w.status ≡ quote_sent → is_payable i w ≡ true
  quoted_payable s = ground (arith, found_row.1, (All-In Inv ws w t.rows found_row.0).paid_stamp)

-- A delivery that reads a paid waybill, and one whose write comes too late.
module _ (meanwhile : List Waybill → List Waybill) (i : ℕ) (ws : List Waybill) (w : Waybill)
    (e : find_by_id i ws ≡ some w) where
  handle_payment_paid :
      (email_of : ℕ → Option ℕ) (paid_at amount : ℕ)
      → is_some w.paid_at ≡ true
      → handle_payment_confirmed meanwhile email_of i paid_at amount ws ≡ (ws, [])
  unfolding handle_payment_confirmed
  handle_payment_paid email_of paid_at amount h = rw (handle_payment_confirmed, e, h) refl

  pub handle_payment_mismatch :
      (email_of : ℕ → Option ℕ) (paid_at amount : ℕ)
      → is_some w.paid_at ≡ false
      → amount ≢ w.fee
      → handle_payment_confirmed meanwhile email_of i paid_at amount ws
        ≡ (ws, amount_mismatch i w.fee amount ∷ [])
  unfolding handle_payment_confirmed
  handle_payment_mismatch email_of paid_at amount h n =
      rw (handle_payment_confirmed, e, h, ==_ne amount w.fee n) refl

  pub handle_payment_late :
      (email_of : ℕ → Option ℕ) (paid_at : ℕ)
      → is_some w.paid_at ≡ false
      → confirm_payment i paid_at (meanwhile ws) ≡ (false, meanwhile ws)
      → handle_payment_confirmed meanwhile email_of i paid_at w.fee ws ≡ (meanwhile ws, [])
  unfolding handle_payment_confirmed
  handle_payment_late email_of paid_at h g =
      rw (handle_payment_confirmed, e, h, ==_refl w.fee, g) refl

-- A payment delivered twice: the first delivery pays the waybill, and a second one writes nothing and
-- sends nothing. It may come later, with any amount, or at once, so that it read the waybill before the
-- first wrote it.
pub paid_once :
    (i : ℕ) (ws : List Waybill) (w : Waybill)
    → TableInv ws
    → find_by_id i ws ≡ some w
    → w.status ≡ quote_sent
    → (email_of : ℕ → Option ℕ) (first second amount : ℕ)
    → let after = (handle_payment_confirmed alone email_of i first w.fee ws).0 in
      (find_by_id i after ≡ some (paid_row first w))
      × (handle_payment_confirmed alone email_of i second amount after ≡ (after, []))
      × (handle_payment_confirmed
            (λ x. (handle_payment_confirmed alone email_of i first w.fee x).0)
            email_of
            i
            second
            w.fee
            ws
          ≡ (after, []))
unfolding paid_row flip with_paid_event
paid_once i ws w t e s email_of first second amount = (found, later, at_once)
  where
    h : is_payable i w ≡ true
    h = quoted_payable i ws w t e s

    after : List Waybill
    after = (handle_payment_confirmed alone email_of i first w.fee ws).0

    found : find_by_id i after ≡ some (paid_row first w)
    found =
        subst (λ x. find_by_id i x.0 ≡ some (paid_row first w))
          (sym (handle_payment_flips i ws w t e email_of first h)) (find-flipped i ws w t e first h)

    lost : confirm_payment i second after ≡ (false, after)
    lost =
        confirm_payment_refuses i after (paid_row first w)
          (Step-TableInv ws after (handle_payment-Step ws email_of i first w.fee) t) found second
          (ground arith)

    later : handle_payment_confirmed alone email_of i second amount after ≡ (after, [])
    later = handle_payment_paid alone i after (paid_row first w) found email_of second amount refl

    at_once :
        handle_payment_confirmed
          (λ x. (handle_payment_confirmed alone email_of i first w.fee x).0)
          email_of
          i
          second
          w.fee
          ws
        ≡ (after, [])
    at_once =
        handle_payment_late (λ x. (handle_payment_confirmed alone email_of i first w.fee x).0) i ws
          w e email_of second (payable_status i ws w t e h).0 lost
