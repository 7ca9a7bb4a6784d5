-- ===== src/Waybills/Lifecycle.antt =====
-- The waybills table through any sequence of requests.
use transhub.Prelude.{
  ℕ, ◌≡◌, refl, ap, true, false, if◌then◌else◌, update_many-twice, inl, inr, Option, some, List, [],
  ◌∷◌, ◌==◌, arith, Bool-cases, update_many, count_where, find_first-some, All, All-In,
  All-update_many, IsKeyed, Absent-of_find, update_many-IsKeyed, update_by_key-All,
}
use transhub.Waybills.{
  Waybill, new_waybill, has_id, find_by_id, to_decimal, quoted, moved, paid_row, flip,
  with_paid_event, confirm_payment, is_payable,
}
use transhub.Waybills.Service.{Request, serve, serve_all}
use transhub.Waybills.Invariant.{
  Inv, new_waybill-Inv, quoted-Inv, paid_row-Inv, moved-Inv, moved-id, ref-Inv,
}
use transhub.Waybills.Steps.{
  Step, unchanged, inserted, quote_given, pay_started, status_moved, flipped, serve-Step,
}

-- What holds of the table.
pub record TableInv (ws : List Waybill) : Type 0 where
  pub rows : All Inv ws
  pub keyed : IsKeyed (λ w. w.id) ws

-- A write of the row that a read has found.
pub write_found :
    (i : ℕ) (f : Waybill → Waybill) (ws : List Waybill) (w : Waybill)
    → TableInv ws
    → find_by_id i ws ≡ some w
    → ((x : Waybill) → (f x).id ≡ x.id)
    → (Inv w → Inv (f w))
    → TableInv (update_many (has_id i) f ws)
unfolding find_by_id
write_found i f ws w t e k h = record {
  rows =
      update_by_key-All (λ x. x.id) Inv i f ws w t.keyed e
        (h (All-In Inv ws w t.rows (find_first-some (has_id i) ws w e).0)) t.rows;
  keyed = update_many-IsKeyed (λ x. x.id) (has_id i) f ws k t.keyed;
}

-- The two writes of a payment come to one where ids are unique.
pub confirm_payment-paid_row :
    (ws : List Waybill) (i paid_at : ℕ)
    → IsKeyed (λ w. w.id) ws
    → confirm_payment i paid_at ws ≡ (
        if count_where (is_payable i) ws == 0
        then (false, ws)
        else (true, update_many (is_payable i) (paid_row paid_at) ws))
unfolding confirm_payment paid_row flip
confirm_payment-paid_row ws i paid_at u = elim (Bool-cases (count_where (is_payable i) ws == 0)) [
  | inl e ↦ rw e refl
  | inr e ↦ rw e (
      ap (λ (x : List Waybill). (true, x))
        (update_many-twice (λ x. x.id) i (is_payable i) (flip paid_at) with_paid_event ws
          (λ x h. ground arith) (λ x. refl) u e))
]

confirm_payment-TableInv :
    (ws : List Waybill) (i paid_at : ℕ) → TableInv ws → TableInv (confirm_payment i paid_at ws).1
unfolding paid_row flip with_paid_event
confirm_payment-TableInv ws i paid_at t = elim (Bool-cases (count_where (is_payable i) ws == 0)) [
  | inl e ↦ rw (confirm_payment-paid_row ws i paid_at t.keyed, e) t
  | inr e ↦
      rw (confirm_payment-paid_row ws i paid_at t.keyed, e)
        (record {
          rows =
              All-update_many Inv (is_payable i) (paid_row paid_at) ws
                (λ x h v. paid_row-Inv x v paid_at (ground arith)) t.rows;
          keyed =
              update_many-IsKeyed (λ x. x.id) (is_payable i) (paid_row paid_at) ws (λ x. refl)
                t.keyed;
        })
]

pub Step-TableInv : (ws ws' : List Waybill) → Step ws ws' → TableInv ws → TableInv ws'
unfolding find_by_id new_waybill quoted
Step-TableInv ws _ unchanged t = t
Step-TableInv ws _ (inserted i number user d e) t = record {
  rows = (new_waybill-Inv i number user d, t.rows);
  keyed = (Absent-of_find (λ w. w.id) i ws e, t.keyed);
}
Step-TableInv ws _ (quote_given w now i company amount remark e s h) t =
    write_found i (quoted now (to_decimal amount) company remark) ws w t e (λ x. refl)
      (λ v. quoted-Inv w v now (to_decimal amount) company remark s)
Step-TableInv ws _ (pay_started w i ref e s h) t =
    write_found i (λ x. record x { payment_ref = some ref }) ws w t e (λ x. refl) (ref-Inv ref w)
Step-TableInv ws _ (status_moved w now i status location remark e a h) t =
    write_found i (moved now status location remark) ws w t e (moved-id now status location remark)
      (λ v. moved-Inv w v now status location remark a h)
Step-TableInv ws _ (flipped w i paid_at e a) t = confirm_payment-TableInv ws i paid_at t

-- From a table in order, such as the empty one, every sequence of requests leads to a table in order:
-- ids are unique, and of every waybill the events are a path through VALID_TRANSITIONS from `pending`
-- to its status; past `pending` a waybill that is not cancelled has an operator and the time of its
-- quote; it has a payment time exactly if its status is `paid` or later; and each
-- stage's timestamp is set exactly if the stage is reached.
pub serve_all-TableInv :
    (email_of : ℕ → Option ℕ) (rs : List Request) (ws : List Waybill)
    → TableInv ws
    → TableInv (serve_all email_of ws rs)
unfolding serve_all
serve_all-TableInv email_of [] ws t = t
serve_all-TableInv email_of (r ∷ rs) ws t =
    serve_all-TableInv email_of rs (serve email_of ws r)
      (Step-TableInv ws _ (serve-Step ws email_of r) t)
