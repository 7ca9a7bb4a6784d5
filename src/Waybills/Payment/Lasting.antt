-- ===== src/Waybills/Payment/Lasting.antt =====
-- A payment is never taken back by a request, nor is it made twice; but a cancellation that races with
-- it wins the status.
use transhub.Waybills.Payment.{
  confirm_payment_refuses, handle_payment_late, alone, handle_payment_confirmed, found_row,
  confirm_payment_flips, find-flipped, quoted_payable,
}
use transhub.Prelude.{
  false, ℕ, ◌≡◌, refl, sym, ◌∙◌, inl, inr, subst, Bool, true, Option, none, some, List, [], ◌∷◌,
  ◌==◌, if◌then◌else◌, is_some, arith, Bool-cases, ==_iff, update_many, count_where, find_first,
  find_first-update,
}
use transhub.Roles.{admin}
use transhub.Waybills.{
  same_status, quoted, new_waybill, Waybill, WaybillStatus, quote_sent, cancelled, Note, has_id,
  find_by_id, find_or_throw, to_decimal, moved, paid_row, flip, with_paid_event, confirm_payment,
  is_payable, stamp, allows,
}
use transhub.Waybills.Service.{serve, Request, serve_all, update_waybill_status, table_after}
use transhub.Waybills.Invariant.{moved-id}
use transhub.Waybills.Steps.{
  Step, unchanged, inserted, quote_given, pay_started, status_moved, flipped, serve-Step,
  serve-Step, Step,
}
use transhub.Waybills.Lifecycle.{TableInv}

-- Waybill `i` is there, and has `p` for its payment time.
abbrev pub PaidAt : ℕ → ℕ → List Waybill → Type 0
PaidAt i p ws = (w : Waybill) × (find_by_id i ws ≡ some w) × (w.paid_at ≡ some p)

-- A write keeps it that changes the payment time of no row that has one.
update-PaidAt :
    (i p : ℕ) (q : Waybill → Bool) (f : Waybill → Waybill) (ws : List Waybill)
    → ((x : Waybill) → (f x).id ≡ x.id)
    → ((x : Waybill) → q x ≡ true → is_some x.paid_at ≡ true → (f x).paid_at ≡ x.paid_at)
    → PaidAt i p ws
    → PaidAt i p (update_many q f ws)
unfolding find_by_id
update-PaidAt i p q f ws k h (w, e, a) =
    ((if q w then f w else w), find_first-update (λ x. x.id) i q f ws w k e, ground (arith, h w, a))

moved_paid :
    (now : ℕ) (t : WaybillStatus) (location : Option ℕ) (remark : Option Note) (w : Waybill)
    → (moved now t location remark w).paid_at ≡ w.paid_at
unfolding moved stamp
moved_paid now t location remark w = ground arith

confirm_payment-PaidAt :
    (i p j paid_at : ℕ) (ws : List Waybill)
    → PaidAt i p ws
    → PaidAt i p (confirm_payment j paid_at ws).1
unfolding confirm_payment flip with_paid_event
confirm_payment-PaidAt i p j paid_at ws a = elim (Bool-cases (count_where (is_payable j) ws == 0)) [
  | inl e ↦ rw e a
  | inr e ↦ rw e (
      update-PaidAt i p (has_id j) with_paid_event _ (λ x. refl) (λ x h g. refl)
        (update-PaidAt i p (is_payable j) (flip paid_at) ws (λ x. refl) (ground arith) a))
]

Step-PaidAt : (i p : ℕ) (ws ws' : List Waybill) → Step ws ws' → PaidAt i p ws → PaidAt i p ws'
unfolding find_by_id new_waybill quoted find_first
Step-PaidAt i p ws _ unchanged a = a
Step-PaidAt i p ws _ (inserted j number user d e) (w, f, a) = (
  w,
  elim (Bool-cases (j == i)) [
    | inl b ↦ cc (subst (λ n. find_by_id n ws ≡ none) ((==_iff j i).0 b) e)
    | inr b ↦ rw b f
  ],
  a,
)
Step-PaidAt i p ws _ (quote_given w now j company amount remark e s h) a =
    update-PaidAt i p _ (quoted now (to_decimal amount) company remark) ws (λ x. refl)
      (λ x _ _. refl) a
Step-PaidAt i p ws _ (pay_started w j ref e s h) a =
    update-PaidAt i p _ (λ x. record x { payment_ref = some ref }) ws (λ x. refl) (λ x _ _. refl) a
Step-PaidAt i p ws _ (status_moved w now j status location remark e b h) a =
    update-PaidAt i p _ (moved now status location remark) ws (moved-id now status location remark)
      (λ x _ _. moved_paid now status location remark x) a
Step-PaidAt i p ws _ (flipped w j paid_at e b) a = confirm_payment-PaidAt i p j paid_at ws a

-- The time of a payment lasts: no sequence of requests changes it or takes the waybill away.
pub serve_all-PaidAt :
    (email_of : ℕ → Option ℕ) (i p : ℕ) (rs : List Request) (ws : List Waybill)
    → PaidAt i p ws
    → PaidAt i p (serve_all email_of ws rs)
unfolding serve_all
serve_all-PaidAt email_of i p [] ws a = a
serve_all-PaidAt email_of i p (r ∷ rs) ws a =
    serve_all-PaidAt email_of i p rs (serve email_of ws r)
      (Step-PaidAt i p ws _ (serve-Step ws email_of r) a)

quoted_cancels : (w : Waybill) → w.status ≡ quote_sent → allows w.status cancelled ≡ true
unfolding allows
quoted_cancels w s = rw s refl

cancelled_row :
    (now paid_at : ℕ) (w : Waybill)
    → ((moved now cancelled none none (paid_row paid_at w)).status ≡ cancelled)
      × ((moved now cancelled none none (paid_row paid_at w)).paid_at ≡ some paid_at)
unfolding moved stamp paid_row flip with_paid_event
cancelled_row now paid_at w = (refl, refl)

-- The row after a payment and then a write by id.
find-after_payment :
    (ws : List Waybill) (i paid_at : ℕ) (w : Waybill) (f : Waybill → Waybill)
    → ((x : Waybill) → (f x).id ≡ x.id)
    → TableInv ws
    → find_by_id i ws ≡ some w
    → w.status ≡ quote_sent
    → find_by_id i (update_many (has_id i) f (confirm_payment i paid_at ws).1)
      ≡ some (f (paid_row paid_at w))
unfolding find_by_id paid_row flip with_paid_event
find-after_payment ws i paid_at w f k t e s =
    find_first-update (λ x. x.id) i (has_id i) f _ (paid_row paid_at w) k paid_found
    ∙ rw (found_row i ws w t e).1 refl
  where
    h : is_payable i w ≡ true
    h = quoted_payable i ws w t e s

    paid_found : find_by_id i (confirm_payment i paid_at ws).1 ≡ some (paid_row paid_at w)
    paid_found =
        subst (λ x. find_by_id i x.1 ≡ some (paid_row paid_at w))
          (sym (confirm_payment_flips i ws w t e paid_at h)) (find-flipped i ws w t e paid_at h)

-- A race that the code loses: `updateWaybillStatus` checks the transition on the row that it read and
-- writes by id alone. If the payment is confirmed between the two, an administrator's cancellation of
-- the quoted waybill goes through, although the waybill is paid by then.
cancel_races_payment :
    (ws : List Waybill) (i now paid_at : ℕ) (w : Waybill) (company : Option ℕ)
    → TableInv ws
    → find_by_id i ws ≡ some w
    → w.status ≡ quote_sent
    → (u : Waybill) × (find_by_id i (
          table_after ws (
            update_waybill_status
              (λ x. (confirm_payment i paid_at x).1)
              now
              i
              (record { role = admin; operator_id = company })
              cancelled
              none
              none
              ws))
        ≡ some u)
      × (u.status ≡ cancelled)
      × (u.paid_at ≡ some paid_at)
unfolding update_waybill_status find_or_throw
cancel_races_payment ws i now paid_at w company t e s = (
  moved now cancelled none none (paid_row paid_at w),
  written,
  (cancelled_row now paid_at w).0,
  (cancelled_row now paid_at w).1,
)
  where
    after :
        find_by_id i
          (update_many (has_id i) (moved now cancelled none none) (confirm_payment i paid_at ws).1)
        ≡ some (moved now cancelled none none (paid_row paid_at w))
    after =
        find-after_payment ws i paid_at w (moved now cancelled none none)
          (moved-id now cancelled none none) t e s

    written :
        find_by_id i (
          table_after ws (
            update_waybill_status
              (λ x. (confirm_payment i paid_at x).1)
              now
              i
              (record { role = admin; operator_id = company })
              cancelled
              none
              none
              ws))
        ≡ some (moved now cancelled none none (paid_row paid_at w))
    written = rw (e, quoted_cancels w s, find_or_throw, after) after

-- The exact payment of a waybill that is not quoted any more, such as one that was cancelled while the
-- customer paid, is dropped: no row changes, and neither a confirmation nor an issue is emitted.
pub payment_dropped :
    (email_of : ℕ → Option ℕ) (i paid_at : ℕ) (ws : List Waybill) (w : Waybill)
    → TableInv ws
    → find_by_id i ws ≡ some w
    → is_some w.paid_at ≡ false
    → same_status w.status quote_sent ≡ false
    → handle_payment_confirmed alone email_of i paid_at w.fee ws ≡ (ws, [])
payment_dropped email_of i paid_at ws w t e p s =
    handle_payment_late alone i ws w e email_of paid_at p
      (confirm_payment_refuses i ws w t e paid_at (ground arith))
