-- ===== src/Waybills/Steps.antt =====
-- The writes of the waybills module as a relation between tables, and that every request is one of
-- them: what the handlers check before they write.
use transhub.Prelude.{
  false, ℕ, ◌<◌, ◌≡◌, inl, inr, true, not, ◌&&◌, Option, none, some, List, [], ◌∷◌, ◌==◌, is_some,
  arith, Bool-cases, Option-cases, update_many, find_first,
}
use transhub.Roles.{Role, admin, operator, same_role, includes_role, require_role}
use transhub.Errors.{Result, returns, throws, ◌>>=◌}
use transhub.Paystack.{TxState-cases, VerifiedTransaction}
use transhub.Waybills.{
  Waybill, WaybillStatus, pending, quote_sent, cancelled, Note, CreateWaybillInput, new_waybill,
  same_status, allows, has_id, find_by_id, find_by_payment_ref, to_decimal, quoted, moved,
  confirm_payment,
}
use transhub.Waybills.Service.{
  expected_kobo, Request, create, quote, pay, move, webhook, verify, serve, is_update_status,
  table_after, alone, Answer, Emission, create_waybill, send_quote, initiate_pay,
  update_waybill_status, handle_payment_confirmed, verify_payment, settle_verified, Requester,
  not_assigned,
}

pub data Step (ws : List Waybill) : List Waybill → Type 0 where
  unchanged : Step ws ws
  inserted :
      (i number user : ℕ) (d : CreateWaybillInput)
      → find_by_id i ws ≡ none
      → Step ws (new_waybill i number user d ∷ ws)
  quote_given :
      (w : Waybill) (now i company amount : ℕ) (remark : Option Note)
      → find_by_id i ws ≡ some w
      → w.status ≡ pending
      → 0 < amount
      → Step ws (update_many (has_id i) (quoted now (to_decimal amount) company remark) ws)
  pay_started :
      (w : Waybill) (i ref : ℕ)
      → find_by_id i ws ≡ some w
      → w.status ≡ quote_sent
      → 0 < w.fee
      → Step ws (update_many (has_id i) (λ x. record x { payment_ref = some ref }) ws)
  status_moved :
      (w : Waybill) (now i : ℕ) (status : WaybillStatus) (location : Option ℕ)
      (remark : Option Note)
      → find_by_id i ws ≡ some w
      → allows w.status status ≡ true
      → is_update_status status ≡ true
      → Step ws (update_many (has_id i) (moved now status location remark) ws)
  flipped :
      (w : Waybill) (i paid_at : ℕ)
      → find_by_id i ws ≡ some w
      → is_some w.paid_at ≡ false
      → Step ws (confirm_payment i paid_at ws).1

-- A handler that ends by reading the row back.
pub read_back :
    {A B : Type 0} (P : List Waybill → Type 0) (ws ws' : List Waybill) (m : Result B) (f : B → A)
    (g : B → List Emission)
    → P ws
    → P ws'
    → P (table_after ws (m >>= λ u. returns (f u, ws', g u)))
read_back P ws ws' (throws e) f g p q = p
read_back P ws ws' (returns u) f g p q = q

module _ (ws : List Waybill) where
  create-Step :
      (i first second user : ℕ) (d : CreateWaybillInput)
      → Step ws (table_after ws (create_waybill i first second user d ws))
  unfolding create_waybill
  create-Step i first second user d = elim (Option-cases (find_by_id i ws)) [
    | inr (w, e) ↦ rw e unchanged
    | inl e ↦ rw e (elim (Bool-cases (is_some (find_first (λ w. w.waybill_no == first) ws))) [
      | inl b ↦ rw b (elim (Bool-cases (is_some (find_first (λ w. w.waybill_no == second) ws))) [
        | inl c ↦ rw c unchanged
        | inr c ↦ rw c (inserted i second user d e)
      ])
      | inr b ↦ rw b (inserted i first user d e)
    ])
  ]

  send_quote-Step :
      (email_of : ℕ → Option ℕ) (now i company amount : ℕ) (remark : Option Note)
      → 0 < amount
      → Step ws (table_after ws (send_quote alone email_of now i company amount remark ws))
  unfolding send_quote quoted
  send_quote-Step email_of now i company amount remark h = elim (Option-cases (find_by_id i ws)) [
    | inl e ↦ rw e unchanged
    | inr (w, e) ↦ rw e (elim (Bool-cases (same_status w.status pending)) [
      | inl s ↦ rw s (
          read_back (Step ws) ws _ _ _ _ unchanged
            (quote_given w now i company amount remark e (ground arith) h))
      | inr s ↦ rw s unchanged
    ])
  ]

  started :
      (i : ℕ) (w : Waybill) (m : Result (ℕ × ℕ))
      → find_by_id i ws ≡ some w
      → w.status ≡ quote_sent
      → 0 < w.fee
      → Step ws (
          table_after ws (
            m >>= λ r.
            returns
              (r.0, update_many (has_id i) (λ x. record x { payment_ref = some r.1 }) ws, [])))
  started i w (throws x) e s h = unchanged
  started i w (returns r) e s h = pay_started w i r.1 e s h

  initiate_pay-Step :
      (initialize : Waybill → Result (ℕ × ℕ)) (i user : ℕ)
      → Step ws (table_after ws (initiate_pay alone initialize i user ws))
  unfolding initiate_pay
  initiate_pay-Step initialize i user = elim (Option-cases (find_by_id i ws)) [
    | inl e ↦ rw e unchanged
    | inr (w, e) ↦ rw e (elim (Bool-cases (w.user_id == user)) [
      | inr a ↦ rw a unchanged
      | inl a ↦ rw a (elim (Bool-cases (same_status w.status quote_sent)) [
        | inr b ↦ rw b unchanged
        | inl b ↦ rw b (elim (Bool-cases (w.fee == 0)) [
          | inl c ↦ rw c unchanged
          | inr c ↦ rw c (started i w (initialize w) e (ground arith) (ground arith))
        ])
      ])
    ])
  ]

  update_status-Step :
      (now i : ℕ) (requester : Requester) (status : WaybillStatus) (location : Option ℕ)
      (remark : Option Note)
      → is_update_status status ≡ true
      → Step ws
          (table_after ws (update_waybill_status alone now i requester status location remark ws))
  unfolding update_waybill_status
  update_status-Step now i requester status location remark h =
      elim (Option-cases (find_by_id i ws)) [
        | inl e ↦ rw e unchanged
        | inr (w, e) ↦
            rw e
              (elim (Bool-cases
                (not (same_role requester.role admin) && not (same_role requester.role operator))) [
                  | inl b ↦ rw b unchanged
                  | inr b ↦
                      rw b
                        (elim (Bool-cases (
                          same_role requester.role operator
                          && not_assigned requester.operator_id w.assigned_operator_id)) [
                            | inl c ↦ rw c unchanged
                            | inr c ↦
                                rw c
                                  (elim (Bool-cases (
                                    same_role requester.role operator
                                    && same_status status cancelled)) [
                                      | inl d ↦ rw d unchanged
                                      | inr d ↦ rw d (elim (Bool-cases (allows w.status status)) [
                                        | inr a ↦ rw a unchanged
                                        | inl a ↦ rw a (
                                            read_back (Step ws) ws _ _ _ _ unchanged
                                              (status_moved w now i status location remark e a h))
                                      ])
                                    ])
                          ])
                ])
      ]

  pub handle_payment-Step :
      (email_of : ℕ → Option ℕ) (i paid_at amount : ℕ)
      → Step ws (handle_payment_confirmed alone email_of i paid_at amount ws).0
  unfolding handle_payment_confirmed
  handle_payment-Step email_of i paid_at amount = elim (Option-cases (find_by_id i ws)) [
    | inl e ↦ rw (handle_payment_confirmed, e) unchanged
    | inr (w, e) ↦
        rw (handle_payment_confirmed, e)
          (elim (Bool-cases (is_some w.paid_at)) [
            | inl a ↦ rw a unchanged
            | inr a ↦ rw a (elim (Bool-cases (amount == expected_kobo w)) [
              | inr b ↦ rw b unchanged
              | inl b ↦ rw b (elim (Bool-cases (confirm_payment i paid_at ws).0) [
                | inl c ↦ rw c (flipped w i paid_at e a)
                | inr c ↦ rw c (flipped w i paid_at e a)
              ])
            ])
          ])
  ]

  settle-Step :
      (email_of : ℕ → Option ℕ) (now : ℕ) (w : Waybill) (tx : Option VerifiedTransaction)
      → Step ws (table_after ws (settle_verified alone email_of now w tx ws))
  unfolding settle_verified
  settle-Step email_of now w none = unchanged
  settle-Step email_of now w (some tx) = elim (TxState-cases tx.state) [
    | inl e ↦ rw e (handle_payment-Step email_of w.id now tx.amount_kobo)
    | inr (inl e) ↦ rw e unchanged
    | inr (inr e) ↦ rw e unchanged
  ]

  looked_up :
      (email_of : ℕ → Option ℕ) (now : ℕ) (w : Waybill) (m : Result (Option VerifiedTransaction))
      → Step ws (table_after ws (m >>= λ tx. settle_verified alone email_of now w tx ws))
  looked_up email_of now w (throws e) = unchanged
  looked_up email_of now w (returns tx) = settle-Step email_of now w tx

  verify-Step :
      (email_of : ℕ → Option ℕ) (lookup : ℕ → Result (Option VerifiedTransaction))
      (now ref user : ℕ)
      → Step ws (table_after ws (verify_payment alone email_of lookup now ref user ws))
  unfolding verify_payment
  verify-Step email_of lookup now ref user = elim (Option-cases (find_by_payment_ref ref ws)) [
    | inl e ↦ rw e unchanged
    | inr (w, e) ↦ rw e (elim (Bool-cases (w.user_id == user)) [
      | inr a ↦ rw a unchanged
      | inl a ↦ rw a (elim (Bool-cases (is_some w.paid_at)) [
        | inl b ↦ rw b unchanged
        | inr b ↦ rw b (elim (Bool-cases (same_status w.status quote_sent)) [
          | inr c ↦ rw c unchanged
          | inl c ↦ rw c (looked_up email_of now w (lookup ref))
        ])
      ])
    ])
  ]

  required :
      {A : Type 0} (roles : List Role) (role : Option Role) (rest : Answer A)
      → Step ws (table_after ws rest)
      → Step ws (table_after ws (require_role roles role rest))
  unfolding require_role
  required roles none rest p = unchanged
  required roles (some r) rest p = elim (Bool-cases (includes_role roles r)) [
    | inl e ↦ rw e p
    | inr e ↦ rw e unchanged
  ]

  pub serve-Step : (email_of : ℕ → Option ℕ) (r : Request) → Step ws (serve email_of ws r)
  unfolding serve
  serve-Step email_of (create i first second user d) = create-Step i first second user d
  serve-Step email_of (quote role now i company amount remark) =
      required (admin ∷ []) role _ (elim (Bool-cases (amount == 0)) [
        | inl e ↦ rw e unchanged
        | inr e ↦ rw e (send_quote-Step email_of now i company amount remark (ground arith))
      ])
  serve-Step email_of (pay initialize i user) = initiate_pay-Step initialize i user
  serve-Step email_of (move requester now i status location remark) =
      required (admin ∷ operator ∷ []) (some requester.role) _
        (elim (Bool-cases (is_update_status status)) [
          | inr e ↦ rw e unchanged
          | inl e ↦ rw e (update_status-Step now i requester status location remark e)
        ])
  serve-Step email_of (webhook i paid_at amount) = handle_payment-Step email_of i paid_at amount
  serve-Step email_of (verify lookup now ref user) = verify-Step email_of lookup now ref user
