-- ===== src/Waybills/Payment/Verify.antt =====
-- GET /waybills/pay/verify: what it answers, and how long a payment lasts.
use transhub.Waybills.Payment.{
  handle_payment_mismatch, find-flipped, handle_payment_flips, payable_status, quoted_payable,
}
use transhub.Prelude.{
  ap, is, find_first-of_In, ℕ, ◌≡◌, ◌≢◌, refl, sym, ◌∙◌, inl, inr, subst, true, false, Option, none,
  some, List, [], ◌∷◌, ◌==◌, if◌then◌else◌, is_some, arith, Bool-cases, Option-cases, ==_refl,
  update_many, find_first-some,
}
use transhub.Errors.{Ensures, Result, returns, throws, ◌>>=◌}
use transhub.Paystack.{TxState-cases, VerifiedTransaction, TxState, tx_success, tx_failed}
use transhub.Waybills.{
  Waybill, quote_sent, same_status, find_by_id, find_by_payment_ref, paid_row, is_payable,
}
use transhub.Waybills.Service.{
  Emission, amount_mismatch, handle_payment_confirmed, settle_verified, verify_payment, alone,
  confirmation, Answer,
}
use transhub.Waybills.Lifecycle.{TableInv}

-- An answer of success comes with a waybill that has its payment time.
abbrev pub IsPaidIfSuccess : (TxState × Waybill) × List Waybill × List Emission → Type 0
IsPaidIfSuccess r = r.0.0 ≡ tx_success → is_some r.0.1.paid_at ≡ true

module _ (meanwhile : List Waybill → List Waybill) (email_of : ℕ → Option ℕ)
    (ws : List Waybill) where
  settle_success :
      (now : ℕ) (w : Waybill) (tx : Option VerifiedTransaction)
      → Ensures IsPaidIfSuccess (settle_verified meanwhile email_of now w tx ws)
  unfolding settle_verified
  settle_success now w none = ground arith
  settle_success now w (some tx) = elim (TxState-cases tx.state) [
    | inl e ↦
        rw e (reported (handle_payment_confirmed meanwhile email_of w.id now tx.amount_kobo ws))
    | inr (inl e) ↦ rw e (ground arith)
    | inr (inr e) ↦ rw e (ground arith)
  ]
    where
      reported :
          (after : List Waybill × List Emission)
          → let updated : Waybill = elim (find_by_id w.id after.0) [ none ↦ w | some u ↦ u ] in
            (if is_some updated.paid_at then tx_success else tx_failed) ≡ tx_success
            → is_some updated.paid_at ≡ true
      reported after = ground arith

  looked_up_success :
      (now : ℕ) (w : Waybill) (m : Result (Option VerifiedTransaction))
      → Ensures IsPaidIfSuccess (m >>= λ tx. settle_verified meanwhile email_of now w tx ws)
  looked_up_success now w (throws e) = tt
  looked_up_success now w (returns tx) = settle_success now w tx

-- The verify endpoint answers success only with a waybill that has its payment time, whatever other
-- requests do between its reads and its writes.
pub verify_payment_success :
    (meanwhile : List Waybill → List Waybill) (email_of : ℕ → Option ℕ)
    (lookup : ℕ → Result (Option VerifiedTransaction)) (now ref user : ℕ) (ws : List Waybill)
    → Ensures IsPaidIfSuccess (verify_payment meanwhile email_of lookup now ref user ws)
unfolding verify_payment
verify_payment_success meanwhile email_of lookup now ref user ws =
    elim (Option-cases (find_by_payment_ref ref ws)) [
      | inl e ↦ rw e tt
      | inr (w, e) ↦ rw e (elim (Bool-cases (w.user_id == user)) [
        | inr a ↦ rw a tt
        | inl a ↦ rw a (elim (Bool-cases (is_some w.paid_at)) [
          | inl b ↦ rw b (λ s. b)
          | inr b ↦ rw b (elim (Bool-cases (same_status w.status quote_sent)) [
            | inr c ↦ rw c (ground arith)
            | inl c ↦ rw c (looked_up_success meanwhile email_of ws now w (lookup ref))
          ])
        ])
      ])
    ]

-- What the verify endpoint comes to once Paystack has answered for a quoted waybill of the user.
verify_reaches :
    (email_of : ℕ → Option ℕ) (lookup : ℕ → Result (Option VerifiedTransaction)) (now ref : ℕ)
    (ws : List Waybill) (w : Waybill) (tx : VerifiedTransaction)
    → find_by_payment_ref ref ws ≡ some w
    → is_some w.paid_at ≡ false
    → same_status w.status quote_sent ≡ true
    → lookup ref ≡ returns (some tx)
    → verify_payment alone email_of lookup now ref w.user_id ws
      ≡ settle_verified alone email_of now w (some tx) ws
unfolding verify_payment
verify_reaches email_of lookup now ref ws w tx e p s l = rw (e, ==_refl w.user_id, p, s, l) refl

abbrev answered : Waybill → List Waybill × List Emission → Answer (TxState × Waybill)
answered u after =
    returns ((if is_some u.paid_at then tx_success else tx_failed, u), after.0, after.1)

-- A successful transaction is answered by the row that the flip has left.
settled :
    (email_of : ℕ → Option ℕ) (now : ℕ) (w u : Waybill) (tx : VerifiedTransaction)
    (ws : List Waybill) (after : List Waybill × List Emission)
    → tx.state ≡ tx_success
    → handle_payment_confirmed alone email_of w.id now tx.amount_kobo ws ≡ after
    → find_by_id w.id after.0 ≡ some u
    → settle_verified alone email_of now w (some tx) ws ≡ answered u after
unfolding settle_verified
settled email_of now w u tx ws after d h f = rw d (
    subst
      (λ x. answered (elim (find_by_id w.id x.0) [ none ↦ w | some y ↦ y ]) x ≡ answered u after)
      (sym h) (rw f refl))

-- The owner of a quoted waybill, whose reference Paystack says is charged, gets the waybill paid if the
-- amount is its exact fee; for another amount the table stays as it is, the mismatch is reported and
-- the answer is `failed`.
verify_payment_settles :
    (email_of : ℕ → Option ℕ) (lookup : ℕ → Result (Option VerifiedTransaction)) (now ref : ℕ)
    (ws : List Waybill) (w : Waybill) (tx : VerifiedTransaction)
    → TableInv ws
    → find_by_payment_ref ref ws ≡ some w
    → w.status ≡ quote_sent
    → lookup ref ≡ returns (some tx)
    → tx.state ≡ tx_success
    → (tx.amount_kobo ≡ w.fee
        → verify_payment alone email_of lookup now ref w.user_id ws
          ≡ returns (
            (tx_success, paid_row now w),
            update_many (is_payable w.id) (paid_row now) ws,
            confirmation email_of w.id w.user_id (some (paid_row now w)),
          ))
      × (tx.amount_kobo ≢ w.fee
          → verify_payment alone email_of lookup now ref w.user_id ws
            ≡ returns ((tx_failed, w), ws, amount_mismatch w.id w.fee tx.amount_kobo ∷ []))
unfolding find_by_payment_ref find_by_id paid_row
verify_payment_settles email_of lookup now ref ws w tx t e s l d = (in_full, short)
  where
    found : find_by_id w.id ws ≡ some w
    found =
        find_first-of_In (λ x. x.id) ws w t.keyed
          (find_first-some (λ x. is x.payment_ref ref) ws w e).0

    h : is_payable w.id w ≡ true
    h = quoted_payable w.id ws w t found s

    unpaid : is_some w.paid_at ≡ false
    unpaid = (payable_status w.id ws w t found h).0

    reached :
        verify_payment alone email_of lookup now ref w.user_id ws
        ≡ settle_verified alone email_of now w (some tx) ws
    reached =
        verify_reaches email_of lookup now ref ws w tx e (payable_status w.id ws w t found h).0
          (ground arith) l

    in_full :
        tx.amount_kobo ≡ w.fee
        → verify_payment alone email_of lookup now ref w.user_id ws
          ≡ returns (
            (tx_success, paid_row now w),
            update_many (is_payable w.id) (paid_row now) ws,
            confirmation email_of w.id w.user_id (some (paid_row now w)),
          )
    in_full a =
        reached
        ∙ settled email_of now w (paid_row now w) tx ws _ d
            (ap (λ n. handle_payment_confirmed alone email_of w.id now n ws) a
              ∙ handle_payment_flips w.id ws w t found email_of now h)
            (find-flipped w.id ws w t found now h)

    short :
        tx.amount_kobo ≢ w.fee
        → verify_payment alone email_of lookup now ref w.user_id ws
          ≡ returns ((tx_failed, w), ws, amount_mismatch w.id w.fee tx.amount_kobo ∷ [])
    short a =
        reached
        ∙ (settled email_of now w w tx ws _ d
              (handle_payment_mismatch alone w.id ws w found email_of now tx.amount_kobo unpaid a)
              found
            ∙ rw unpaid refl)
