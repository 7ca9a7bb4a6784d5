-- ===== src/Charters/Requests/Webhook.antt =====
-- The flip of a charter by a payment keeps the table in order.
use transhub.Prelude.{
  ℕ, ◌≡◌, refl, ap, ◌∙◌, inl, inr, Option, some, List, ◌==◌, arith, Bool-cases, Option-cases,
  count_where, All-updated, found_unique, update_many-IsKeyed,
}
use transhub.Charters.{Charter, find_by_id, paid_charter, is_payable, confirm_payment}
use transhub.Charters.Service.{is_expected, is_paid, process_webhook_payment}
use transhub.Charters.Requests.Invariant.{TableInv, Inv, paid_charter-Inv}
use transhub.Charters.Payment.{alone}

module _ (cs : List Charter) (t : TableInv cs) where
  confirm_payment-TableInv :
      (i paid_at price : ℕ) (c : Charter)
      → find_by_id i cs ≡ some c
      → c.quoted_price ≡ some price
      → TableInv (confirm_payment i paid_at price cs).1
  unfolding confirm_payment paid_charter find_by_id
  confirm_payment-TableInv i paid_at price c e q =
      elim (Bool-cases (count_where (is_payable i) cs == 0)) [
        | inl none_payable ↦ rw none_payable t
        | inr payable ↦ rw payable (record {
          rows =
              All-updated Inv Inv (is_payable i) (paid_charter paid_at price) cs
                (λ x m v. elim (Bool-cases (is_payable i x)) [
                  | inl g ↦
                      let same : x ≡ c =
                        found_unique (λ y. y.id) i cs c x t.keyed e m (ground (arith, g)) in
                      rw g (
                        paid_charter-Inv x v paid_at price
                          (ap (λ (y : Charter). y.quoted_price) same ∙ q) (ground (arith, g)))
                  | inr g ↦ rw g v
                ])
                t.rows;
          keyed =
              update_many-IsKeyed (λ x. x.id) (is_payable i) (paid_charter paid_at price) cs
                (λ x. refl) t.keyed;
        })
      ]

  pub webhook-TableInv :
      (to_kobo : ℕ → Option ℕ) (i paid_at received : ℕ)
      → TableInv (process_webhook_payment to_kobo alone i paid_at received cs).0
  unfolding process_webhook_payment
  webhook-TableInv to_kobo i paid_at received = elim (Option-cases (find_by_id i cs)) [
    | inl e ↦ rw (process_webhook_payment, e) t
    | inr (c, e) ↦
        rw (process_webhook_payment, e)
          (elim (Bool-cases (is_paid c.status)) [
            | inl g ↦ rw g t
            | inr g ↦ rw g (elim (Option-cases c.quoted_price) [
              | inl n ↦ rw n t
              | inr (price, q) ↦ rw q (elim (Bool-cases (is_expected to_kobo price received)) [
                | inr x ↦ rw x t
                | inl x ↦ rw x (elim (Bool-cases (confirm_payment i paid_at price cs).0) [
                  | inl b ↦ rw b (confirm_payment-TableInv i paid_at price c e q)
                  | inr b ↦ rw b (confirm_payment-TableInv i paid_at price c e q)
                ])
              ])
            ])
          ])
  ]
