-- ===== src/Charters/Verify.antt =====
-- GET /charters/:id/pay/verify: what it answers.
use transhub.Prelude.{
  ℕ, ◌≡◌, inl, inr, true, Option, none, some, List, ◌==◌, if◌then◌else◌, Bool-cases, Option-cases,
}
use transhub.Errors.{Result, Ensures}
use transhub.Errors.{Result-cases}
use transhub.Paystack.{VerifiedTransaction, TxState, tx_success, tx_failed, TxState-cases}
use transhub.Charters.{Charter, awaiting_payment, same_status, find_by_id}
use transhub.Charters.Service.{
  Emission, is_paid, process_webhook_payment, settle_verified, verify_payment,
}

-- An answer of success comes with a charter that is confirmed or completed.
abbrev pub IsPaidIfSuccess : (TxState × Charter) × List Charter × List Emission → Type 0
IsPaidIfSuccess r = r.0.0 ≡ tx_success → is_paid r.0.1.status ≡ true

if_success :
    (u : Charter)
    → (if is_paid u.status then tx_success else tx_failed) ≡ tx_success
    → is_paid u.status ≡ true
if_success u h = elim (Bool-cases (is_paid u.status)) [ inl b ↦ b | inr b ↦ cc (rw b at h) ]

module _ (to_kobo : ℕ → Option ℕ) (meanwhile : List Charter → List Charter) (now : ℕ) (c : Charter)
    (cs : List Charter) where
  reported :
      (after : List Charter × List Emission)
      → let updated : Charter = elim (find_by_id c.id after.0) [ none ↦ c | some u ↦ u ] in
        (if is_paid updated.status then tx_success else tx_failed) ≡ tx_success
        → is_paid updated.status ≡ true
  reported after = if_success (elim (find_by_id c.id after.0) [ none ↦ c | some u ↦ u ])

  settle-IsPaidIfSuccess :
      (tx : Option VerifiedTransaction)
      → Ensures IsPaidIfSuccess (settle_verified to_kobo meanwhile now c tx cs)
  unfolding settle_verified
  settle-IsPaidIfSuccess none = λ h. cc
  settle-IsPaidIfSuccess (some tx) = elim (TxState-cases tx.state) [
    | inl e ↦ rw e (reported (process_webhook_payment to_kobo meanwhile c.id now tx.amount_kobo cs))
    | inr (inl e) ↦ rw e (λ h. cc)
    | inr (inr e) ↦ rw e (λ h. cc)
  ]

-- The verify endpoint of a charter answers success only with one that is confirmed or completed,
-- whatever Paystack replies and whatever other requests do in the meantime.
pub charter_verify_success :
    (to_kobo : ℕ → Option ℕ) (meanwhile : List Charter → List Charter)
    (lookup : ℕ → Result (Option VerifiedTransaction)) (now i user : ℕ) (cs : List Charter)
    → Ensures IsPaidIfSuccess (verify_payment to_kobo meanwhile lookup now i user cs)
unfolding verify_payment
charter_verify_success to_kobo meanwhile lookup now i user cs =
    elim (Option-cases (find_by_id i cs)) [
      | inl e ↦ rw e tt
      | inr (c, e) ↦ rw e (elim (Bool-cases (c.passenger_id == user)) [
        | inr a ↦ rw a tt
        | inl a ↦ rw a (elim (Bool-cases (is_paid c.status)) [
          | inl b ↦ rw b (λ h. b)
          | inr b ↦ rw b (elim (Option-cases c.payment_ref) [
            | inl p ↦ rw p (λ h. cc)
            | inr (ref, p) ↦ rw p (elim (Bool-cases (same_status c.status awaiting_payment)) [
              | inr s ↦ rw s (λ h. cc)
              | inl s ↦ rw s (elim (Result-cases (lookup ref)) [
                | inl (x, l) ↦ rw l tt
                | inr (tx, l) ↦ rw l (settle-IsPaidIfSuccess to_kobo meanwhile now c cs tx)
              ])
            ])
          ])
        ])
      ])
    ]
