-- ===== src/Charters/Payment.antt =====
-- The flip of a charter to `confirmed`, and a delivery of the webhook that does it or finds it done.

use transhub.Prelude.{
  ℕ, ◌≡◌, refl, ◌∙◌, true, false, Option, some, List, [], ◌∷◌, if◌then◌else◌, is_some, arith,
  ==_refl, update_many, count_where, find_first-some,
}
use transhub.Prelude.{IsKeyed, count_where-guarded, find_first-update}
use transhub.Charters.{
  Charter, awaiting_payment, has_id, find_by_id, paid_charter, confirm_payment, is_payable,
}
use transhub.Charters.Service.{charter_confirmed, is_expected, is_paid, process_webhook_payment}

-- The table has unique ids.
abbrev pub HasKeys : List Charter → Type 0
HasKeys cs = IsKeyed (λ c. c.id) cs

abbrev pub alone : List Charter → List Charter
alone cs = cs

expected_exact :
    (to_kobo : ℕ → Option ℕ) (price received : ℕ)
    → to_kobo price ≡ some received
    → is_expected to_kobo price received ≡ true
expected_exact to_kobo price received h = rw (is_expected, h, ==_refl received) refl

pub not_paid : (c : Charter) → c.status ≡ awaiting_payment → is_paid c.status ≡ false
not_paid c s = rw s refl

module _ (i : ℕ) (cs : List Charter) (c : Charter) (k : HasKeys cs)
    (e : find_by_id i cs ≡ some c) where
  count-payable : count_where (is_payable i) cs ≡ (if is_payable i c then 1 else 0)
  unfolding find_by_id
  count-payable = count_where-guarded (λ x. x.id) i (is_payable i) cs c (λ x h. ground arith) k e

  pub confirm_payment_flips :
      (paid_at price : ℕ)
      → is_payable i c ≡ true
      → confirm_payment i paid_at price cs
        ≡ (true, update_many (is_payable i) (paid_charter paid_at price) cs)
  unfolding confirm_payment
  confirm_payment_flips paid_at price h = rw count-payable (rw h refl)

  pub confirm_payment_refuses :
      (paid_at price : ℕ)
      → is_payable i c ≡ false
      → confirm_payment i paid_at price cs ≡ (false, cs)
  unfolding confirm_payment
  confirm_payment_refuses paid_at price h = rw count-payable (rw h refl)

  pub find-flipped :
      (paid_at price : ℕ)
      → is_payable i c ≡ true
      → find_by_id i (update_many (is_payable i) (paid_charter paid_at price) cs)
        ≡ some (paid_charter paid_at price c)
  unfolding find_by_id paid_charter
  find-flipped paid_at price h =
      find_first-update (λ x. x.id) i (is_payable i) (paid_charter paid_at price) cs c (λ x. refl) e
      ∙ rw h refl

  pub found_id : has_id i c ≡ true
  unfolding find_by_id
  found_id = (find_first-some (has_id i) cs c e).1

  pub awaiting_payable :
      c.status ≡ awaiting_payment → is_some c.paid_at ≡ false → is_payable i c ≡ true
  awaiting_payable s p = rw (found_id, p, s) refl

  pub flips :
      (to_kobo : ℕ → Option ℕ) (paid_at price received : ℕ)
      → c.status ≡ awaiting_payment
      → is_some c.paid_at ≡ false
      → c.quoted_price ≡ some price
      → to_kobo price ≡ some received
      → process_webhook_payment to_kobo alone i paid_at received cs ≡ (
        update_many (is_payable i) (paid_charter paid_at price) cs,
        charter_confirmed i price ∷ [],
      )
  unfolding process_webhook_payment
  flips to_kobo paid_at price received s p q h =
      rw
        (
          process_webhook_payment,
          e,
          not_paid c s,
          q,
          expected_exact to_kobo price received h,
          confirm_payment_flips paid_at price (awaiting_payable s p),
        )
        refl

-- A delivery that comes after the confirmation, and one whose write does.
module _ (to_kobo : ℕ → Option ℕ) (meanwhile : List Charter → List Charter) (i : ℕ)
    (cs : List Charter) (c : Charter) (e : find_by_id i cs ≡ some c) where
  pub paid_already :
      (paid_at received : ℕ)
      → is_paid c.status ≡ true
      → process_webhook_payment to_kobo meanwhile i paid_at received cs ≡ (cs, [])
  unfolding process_webhook_payment
  paid_already paid_at received h = rw (process_webhook_payment, e, h) refl

  pub paid_late :
      (paid_at price received : ℕ)
      → is_paid c.status ≡ false
      → c.quoted_price ≡ some price
      → to_kobo price ≡ some received
      → confirm_payment i paid_at price (meanwhile cs) ≡ (false, meanwhile cs)
      → process_webhook_payment to_kobo meanwhile i paid_at received cs ≡ (meanwhile cs, [])
  unfolding process_webhook_payment
  paid_late paid_at price received s q h g =
      rw (process_webhook_payment, e, s, q, expected_exact to_kobo price received h, g) refl
