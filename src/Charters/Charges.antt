-- ===== src/Charters/Charges.antt =====
-- The payment of a charter: deliveries of the webhook, and a cancellation that races with one.
use transhub.Charters.Payment.{
  paid_already, not_paid, found_id, find-flipped, confirm_payment_refuses, paid_late, flips,
  awaiting_payable, confirm_payment_flips, alone, HasKeys,
}
use transhub.Roles.{passenger}
use transhub.Prelude.{
  ℕ, ◌≡◌, refl, sym, ap, ◌∙◌, subst, true, false, Option, some, List, [], ◌∷◌, is_some, arith,
  ==_refl, update_many,
}
use transhub.Errors.{returns}
use transhub.Prelude.{update_many-IsKeyed, find_first-update}
use transhub.Charters.{
  Charter, awaiting_payment, cancelled, has_id, find_by_id, with_status, paid_charter,
  confirm_payment, is_payable, update_row,
}
use transhub.Charters.Service.{
  is_cancellable, write, charter_confirmed, process_webhook_payment, cancel_charter,
}

-- A payment of a charter that is delivered twice: the first delivery confirms the charter, and a second
-- one writes nothing and emits nothing, whether it comes later or has read the charter before the first
-- one wrote it.
pub charter_paid_once :
    (to_kobo : ℕ → Option ℕ) (i : ℕ) (cs : List Charter) (c : Charter)
    (first second price received : ℕ)
    → HasKeys cs
    → find_by_id i cs ≡ some c
    → c.status ≡ awaiting_payment
    → is_some c.paid_at ≡ false
    → c.quoted_price ≡ some price
    → to_kobo price ≡ some received
    → let after = update_many (is_payable i) (paid_charter first price) cs in
      (process_webhook_payment to_kobo alone i first received cs
        ≡ (after, charter_confirmed i price ∷ []))
      × (process_webhook_payment to_kobo alone i second received after ≡ (after, []))
      × (process_webhook_payment to_kobo
            (λ x. (process_webhook_payment to_kobo alone i first received x).0)
            i
            second
            received
            cs
          ≡ (after, []))
unfolding paid_charter
charter_paid_once to_kobo i cs c first second price received k e s p q h = (
  flip,
  paid_already to_kobo alone i after (paid_charter first price c) found second received refl,
  at_once,
)
  where
    after : List Charter
    after = update_many (is_payable i) (paid_charter first price) cs

    flip :
        process_webhook_payment to_kobo alone i first received cs
        ≡ (after, charter_confirmed i price ∷ [])
    flip = flips i cs c k e to_kobo first price received s p q h

    found : find_by_id i after ≡ some (paid_charter first price c)
    found = find-flipped i cs c k e first price (awaiting_payable i cs c k e s p)

    after_keyed : HasKeys after
    after_keyed =
        update_many-IsKeyed (λ x. x.id) (is_payable i) (paid_charter first price) cs (λ x. refl) k

    meanwhile : List Charter → List Charter
    meanwhile x = (process_webhook_payment to_kobo alone i first received x).0

    committed : meanwhile cs ≡ after
    committed = ap (λ x. x.0) flip

    refused : confirm_payment i second price (meanwhile cs) ≡ (false, meanwhile cs)
    refused =
        subst (λ x. confirm_payment i second price x ≡ (false, x)) (sym committed)
          (confirm_payment_refuses i after (paid_charter first price c) after_keyed found second
            price (ground arith))

    at_once : process_webhook_payment to_kobo meanwhile i second received cs ≡ (after, [])
    at_once =
        paid_late to_kobo meanwhile i cs c e second price received (not_paid c s) q h refused
        ∙ ap (λ x. (x, [])) committed

-- A race that the code loses: `cancelCharter` asks for the status of the row that it read and writes by
-- id alone. If the payment is confirmed between the two, the owner's cancellation goes through and the
-- charter is cancelled although it is paid.
pub cancel_charter_races :
    (i : ℕ) (cs : List Charter) (c : Charter) (paid_at price : ℕ)
    → HasKeys cs
    → find_by_id i cs ≡ some c
    → c.status ≡ awaiting_payment
    → is_some c.paid_at ≡ false
    → let lost = with_status cancelled (paid_charter paid_at price c) in
      (lost.paid_at ≡ some paid_at)
      × ((table : List Charter) × (cancel_charter
              (λ x. (confirm_payment i paid_at price x).1)
              i
              c.passenger_id
              passenger
              cs
            ≡ returns (lost, table, [])))
unfolding cancel_charter paid_charter update_row write find_by_id
cancel_charter_races i cs c paid_at price k e s p = (
  refl,
  (
    update_many (has_id i) (with_status cancelled) (confirm_payment i paid_at price cs).1,
    rw (e, ==_refl c.passenger_id, cancellable, write, update_row, written) refl,
  ),
)
  where
    cancellable : is_cancellable c.status ≡ true
    cancellable = rw s refl

    flipped :
        find_by_id i (confirm_payment i paid_at price cs).1 ≡ some (paid_charter paid_at price c)
    flipped =
        subst (λ x. find_by_id i x.1 ≡ some (paid_charter paid_at price c))
          (sym (confirm_payment_flips i cs c k e paid_at price (awaiting_payable i cs c k e s p)))
          (find-flipped i cs c k e paid_at price (awaiting_payable i cs c k e s p))

    written :
        find_by_id i
          (update_many (has_id i) (with_status cancelled) (confirm_payment i paid_at price cs).1)
        ≡ some (with_status cancelled (paid_charter paid_at price c))
    written =
        find_first-update (λ x. x.id) i (has_id i) (with_status cancelled) _
          (paid_charter paid_at price c) (λ x. refl) flipped
        ∙ rw (found_id i cs c k e) refl
