-- ===== src/Charters/Requests/Handlers.antt =====
-- Each handler of charters.service.ts leaves the table in order.
use transhub.Prelude.{
  ℕ, ◌≡◌, refl, ◌+◌, ltb, sym, inl, inr, Bool, true, false, not, ◌&&◌, Option, none, some, List, [],
  ◌==◌, if◌then◌else◌, is_some, arith, Option-cases, update_many, find_first-some, All-In, subst,
  sym, Absent-of_find, update_many-IsKeyed, update_by_key-All,
}
use transhub.Errors.{Result, returns, throws, ◌>>=◌, throw_if, AppError, prisma_fault}
use transhub.Paystack.{VerifiedTransaction, TxState, tx_success, tx_failed, tx_pending}
use transhub.Roles.{Role, passenger, same_role, require_role}
use transhub.Charters.{
  Charter, CharterStatus, pending, quote_sent, awaiting_payment, confirmed, cancelled, same_status,
  CreateCharterInput, SendQuoteInput, ConfirmBookingInput, has_id, find_by_id, with_status, quoted,
  with_booking, done, update_row,
}
use transhub.Charters.Service.{
  Answer, Emission, request_charter, found, write, send_quote, answer_quote, initiate_payment,
  is_paid, process_webhook_payment, settle_verified, verify_payment, admin_confirm_booking,
  complete_charter, cancel_charter, is_cancellable, min_lead_time_ms, is_before_departure,
}
use transhub.Charters.Requests.{table_after, create_new}
use transhub.Charters.Requests.Invariant.{
  TableInv, Inv, new_charter-Inv, quoted-Inv, cancelled-Inv, ref-Inv, with_booking-Inv, done-Inv,
}
use transhub.Charters.Payment.{alone}
use transhub.Charters.Requests.Webhook.{webhook-TableInv}

module _ (cs : List Charter) (t : TableInv cs) where
  -- The handler leaves a table in order.
  pub record Keeps (A : Type 0) (m : Answer A) : Type 0 where
    pub kept : TableInv (table_after cs m)

  unchanged : {A : Type 0} {m : Answer A} → table_after cs m ≡ cs → Keeps A m
  unchanged e = record { kept = subst TableInv (sym e) t }

  throw_if-Keeps :
      {A : Type 0} (b : Bool) (e : AppError) (rest : Answer A)
      → (b ≡ false → Keeps A rest)
      → Keeps A (throw_if b e rest)
  throw_if-Keeps true e rest h = unchanged refl
  throw_if-Keeps false e rest h = h refl

  pub require_role-Keeps :
      {A : Type 0} (roles : List Role) (role : Option Role) (next : Answer A)
      → Keeps A next
      → Keeps A (require_role roles role next)
  unfolding require_role
  require_role-Keeps roles none next h = unchanged refl
  require_role-Keeps roles (some r) next h = throw_if-Keeps _ _ next (λ e. h)

  found-Keeps :
      {A : Type 0} (o : Option Charter) (next : Charter → Answer A)
      → ((c : Charter) → o ≡ some c → Keeps A (next c))
      → Keeps A (found o >>= next)
  found-Keeps none next h = unchanged refl
  found-Keeps (some c) next h = h c refl

  write_found :
      (i : ℕ) (f : Charter → Charter) (c : Charter)
      → find_by_id i cs ≡ some c
      → ((x : Charter) → (f x).id ≡ x.id)
      → (Inv c → Inv (f c))
      → TableInv (update_many (has_id i) f cs)
  unfolding find_by_id
  write_found i f c e k h = record {
    rows =
        update_by_key-All (λ x. x.id) Inv i f cs c t.keyed e
          (h (All-In Inv cs c t.rows (find_first-some (has_id i) cs c e).0)) t.rows;
    keyed = update_many-IsKeyed (λ x. x.id) (has_id i) f cs k t.keyed;
  }

  after_update :
      {A : Type 0} (o : Option Charter) (cs' : List Charter)
      (next : Charter × List Charter → Answer A)
      → TableInv cs'
      → ((r : Charter × List Charter) → r.1 ≡ cs' → table_after cs (next r) ≡ cs')
      → Keeps A (
          elim o as (λ x. Result (Charter × List Charter)) [
            | none ↦ throws prisma_fault
            | some c ↦ returns (c, cs')
          ]
          >>= next)
  after_update none cs' next h k = unchanged refl
  after_update (some c) cs' next h k = record { kept = subst TableInv (sym (k (c, cs') refl)) h }

  write-Keeps :
      (i : ℕ) (f : Charter → Charter) (emitted : Charter → List Emission) (c : Charter)
      → find_by_id i cs ≡ some c
      → ((x : Charter) → (f x).id ≡ x.id)
      → (Inv c → Inv (f c))
      → Keeps Charter (write i f emitted cs)
  unfolding write update_row
  write-Keeps i f emitted c e k h =
      after_update (find_by_id i (update_many (has_id i) f cs)) _ _ (write_found i f c e k h)
        (λ r same. same)

  negated : (b : Bool) → not b ≡ false → b ≡ true
  negated true e = refl
  negated false e = ground (arith, e)

  -- A status that a handler asks for before it writes by id.
  checked-Keeps :
      (i : ℕ) (f : Charter → Charter) (emitted : Charter → List Emission) (c : Charter) (b : Bool)
      (e : AppError)
      → find_by_id i cs ≡ some c
      → ((x : Charter) → (f x).id ≡ x.id)
      → (b ≡ true → Inv c → Inv (f c))
      → Keeps Charter (throw_if (not b) e (write i f emitted cs))
  checked-Keeps i f emitted c b e found k h =
      throw_if-Keeps (not b) e (write i f emitted cs)
        (λ g. write-Keeps i f emitted c found k (h (negated b g)))

  pub answer_quote-Keeps :
      (s : CharterStatus) (i user : ℕ)
      → ((c : Charter) → same_status c.status quote_sent ≡ true → Inv c → Inv (with_status s c))
      → Keeps Charter (answer_quote s alone i user cs)
  unfolding answer_quote
  answer_quote-Keeps s i user h = found-Keeps (find_by_id i cs) _ (λ c e.
      throw_if-Keeps (not (c.passenger_id == user)) _ _ (λ own.
        checked-Keeps i (with_status s) _ c (same_status c.status quote_sent) _ e (λ x. refl)
          (h c)))

  pub send_quote-Keeps : (i : ℕ) (d : SendQuoteInput) → Keeps Charter (send_quote alone i d cs)
  unfolding send_quote quoted
  send_quote-Keeps i d = found-Keeps (find_by_id i cs) _ (λ c e.
      checked-Keeps i (quoted d) _ c (same_status c.status pending) _ e (λ x. refl)
        (λ g v. quoted-Inv c v d g))

  pub confirm_booking-Keeps :
      (i : ℕ) (d : ConfirmBookingInput) → Keeps Charter (admin_confirm_booking alone i d cs)
  unfolding admin_confirm_booking with_booking
  confirm_booking-Keeps i d = found-Keeps (find_by_id i cs) _ (λ c e.
      checked-Keeps i (with_booking d) _ c (same_status c.status confirmed) _ e (λ x. refl)
        (λ g v. with_booking-Inv c v d g))

  pub complete-Keeps : (now i : ℕ) → Keeps Charter (complete_charter alone now i cs)
  unfolding complete_charter
  complete-Keeps now i = found-Keeps (find_by_id i cs) _ (λ c e.
      checked-Keeps i (done now) _ c (same_status c.status confirmed) _ e (λ x. refl)
        (λ g v. done-Inv c v now g))

  pub cancel-Keeps :
      (i user : ℕ) (role : Role) → Keeps Charter (cancel_charter alone i user role cs)
  unfolding cancel_charter
  cancel-Keeps i user role = found-Keeps (find_by_id i cs) _ (λ c e.
      throw_if-Keeps (same_role role passenger && not (c.passenger_id == user)) _ _ (λ own.
        checked-Keeps i (with_status cancelled) _ c (is_cancellable c.status) _ e (λ x. refl)
          (λ g v. cancelled-Inv c v g)))

  bind-Keeps :
      {A B : Type 0} (m : Result B) (next : B → Answer A)
      → ((b : B) → Keeps A (next b))
      → Keeps A (m >>= next)
  bind-Keeps (throws e) next h = unchanged refl
  bind-Keeps (returns b) next h = h b

  pub initiate-Keeps :
      (initialize : Charter → Result (ℕ × ℕ)) (i user : ℕ)
      → Keeps ℕ (initiate_payment alone initialize i user cs)
  unfolding initiate_payment update_row
  initiate-Keeps initialize i user = found-Keeps (find_by_id i cs) _ (λ c e.
      throw_if-Keeps (not (c.passenger_id == user)) _ _ (λ own.
        throw_if-Keeps (not (same_status c.status awaiting_payment)) _ _ (λ g.
          throw_if-Keeps (not (is_some c.quoted_price)) _ _ (λ p.
            bind-Keeps (initialize c) _ (λ started.
              after_update
                (find_by_id i
                  (update_many (has_id i) (λ x. record x { payment_ref = some started.1 }) cs))
                _ _
                (write_found i (λ x. record x { payment_ref = some started.1 }) c e (λ x. refl)
                  (λ v. ref-Inv c v started.1))
                (λ r same. same))))))

  settle-Keeps :
      (to_kobo : ℕ → Option ℕ) (now : ℕ) (c : Charter) (tx : Option VerifiedTransaction)
      → Keeps (TxState × Charter) (settle_verified to_kobo alone now c tx cs)
  unfolding settle_verified
  settle-Keeps to_kobo now c none = unchanged refl
  settle-Keeps to_kobo now c (some tx) =
      elim tx.state
        as (λ s. Keeps (TxState × Charter) (elim s [
          | tx_pending ↦ returns ((tx_pending, c), cs, [])
          | tx_failed ↦ returns ((tx_failed, c), cs, [])
          | tx_success ↦
              (let (cs', out) = process_webhook_payment to_kobo alone c.id now tx.amount_kobo cs in
                let updated : Charter = elim (find_by_id c.id cs') [ none ↦ c | some u ↦ u ] in
                returns
                  ((if is_paid updated.status then tx_success else tx_failed, updated), cs', out))
        ])) [
          | tx_pending ↦ unchanged refl
          | tx_failed ↦ unchanged refl
          | tx_success ↦ record { kept = webhook-TableInv cs t to_kobo c.id now tx.amount_kobo }
        ]

  if-Keeps :
      {A : Type 0} (b : Bool) (x y : Answer A)
      → Keeps A x
      → Keeps A y
      → Keeps A (if b then x else y)
  if-Keeps true x y h k = h
  if-Keeps false x y h k = k

  pub verify-Keeps :
      (to_kobo : ℕ → Option ℕ) (lookup : ℕ → Result (Option VerifiedTransaction)) (now i user : ℕ)
      → Keeps (TxState × Charter) (verify_payment to_kobo alone lookup now i user cs)
  unfolding verify_payment
  verify-Keeps to_kobo lookup now i user = found-Keeps (find_by_id i cs) _ (λ c e.
      throw_if-Keeps (not (c.passenger_id == user)) _ _ (λ own.
        if-Keeps (is_paid c.status) _ _ (unchanged refl)
          (elim c.payment_ref
            as (λ r. Keeps (TxState × Charter) (elim r [
              | none ↦ returns ((tx_pending, c), cs, [])
              | some ref ↦
                  if not (same_status c.status awaiting_payment)
                  then returns ((tx_pending, c), cs, [])
                  else do tx ← lookup ref; settle_verified to_kobo alone now c tx cs
            ])) [
              | none ↦ unchanged refl
              | some ref ↦
                  if-Keeps (not (same_status c.status awaiting_payment)) _ _ (unchanged refl)
                    (bind-Keeps (lookup ref) _ (settle-Keeps to_kobo now c))
            ])))

  pub create-Keeps :
      (now i number user : ℕ) (d : CreateCharterInput)
      → Keeps Charter (create_new now i number user d cs (find_by_id i cs))
  unfolding create_new request_charter find_by_id
  create-Keeps now i number user d = elim (Option-cases (find_by_id i cs)) [
    | inr (c, e) ↦ rw e (unchanged refl)
    | inl e ↦ rw e (
        throw_if-Keeps (ltb d.departure_at (now + min_lead_time_ms)) _ _ (λ early.
          throw_if-Keeps (is_before_departure d.return_at d.departure_at) _ _ (λ before. record {
            kept = record {
              rows = (new_charter-Inv i number user d, t.rows);
              keyed = (Absent-of_find (λ c. c.id) i cs e, t.keyed);
            };
          })))
  ]
