-- ===== src/Charters/Service.antt =====
-- charters.service.ts. What other requests do to the table between a handler's read and its write is
-- the argument `meanwhile`; the clock, the start of a payment and the lookup of a transaction are
-- arguments too.
use transhub.Prelude.{
  ℕ, ◌+◌, ◌*◌, Bool, false, not, ◌&&◌, ◌||◌, Option, none, some, List, [], ◌∷◌, ◌==◌, ltb, leb,
  if◌then◌else◌, is_some,
}
use transhub.Errors.{Result, returns, throws, ◌>>=◌, throw_if}
use transhub.Errors.{
  app, not_found_error, forbidden_error, conflict_error, charter_invalid_status, charter_no_price,
  charter_lead_time, charter_return_before_dep,
}
use transhub.Paystack.{VerifiedTransaction, TxState, tx_success, tx_failed, tx_pending}
use transhub.Roles.{Role, passenger, same_role}
use transhub.Charters.{
  Charter, CharterStatus, pending, quote_sent, awaiting_payment, confirmed, completed, cancelled,
  same_status, CreateCharterInput, SendQuoteInput, ConfirmBookingInput, find_by_id, new_charter,
  with_status, quoted, with_booking, done, confirm_payment, update_row,
}

-- What is put on the event bus, and what is reported as a payment issue.
pub data Emission : Type 0 where
  requested : ℕ → Emission
  charter_quoted : ℕ → ℕ → Emission
  charter_confirmed : ℕ → ℕ → Emission
  booking_confirmed : ℕ → ConfirmBookingInput → Emission
  charter_completed : ℕ → Emission
  no_price : ℕ → Emission
  amount_mismatch : ℕ → ℕ → Emission

abbrev pub Answer : Type 0 → Type 0
Answer A = Result (A × List Charter × List Emission)

-- 24 hours in milliseconds.
abbrev pub min_lead_time_ms : ℕ
min_lead_time_ms = 24 * 60 * 60 * 1000

abbrev pub is_before_departure : Option ℕ → ℕ → Bool
is_before_departure none departure = false
is_before_departure (some r) departure = leb r departure

-- `departure - now < lead` on integers, which is the same with the subtraction on the other side.
unfoldable pub request_charter : ℕ → ℕ → ℕ → ℕ → CreateCharterInput → List Charter → Answer Charter
unfolding new_charter
request_charter now i number user d cs =
    throw_if (ltb d.departure_at (now + min_lead_time_ms)) (conflict_error charter_lead_time) (
      throw_if (is_before_departure d.return_at d.departure_at)
        (conflict_error charter_return_before_dep)
        (returns (new_charter i number user d, new_charter i number user d ∷ cs, requested i ∷ [])))

-- `if (!charter) throw new NotFoundError`.
abbrev pub found : Option Charter → Result Charter
found none = throws (app not_found_error)
found (some c) = returns c

-- A write by id, and what is emitted of the row that it returns.
unfoldable pub write :
    ℕ → (Charter → Charter) → (Charter → List Emission) → List Charter → Answer Charter
unfolding update_row
write i f emitted cs = do r ← update_row i f cs; returns (r.0, r.1, emitted r.0)

unfoldable pub send_quote :
    (List Charter → List Charter) → ℕ → SendQuoteInput → List Charter → Answer Charter
unfolding find_by_id write quoted
send_quote meanwhile i d cs = do
  c ← found (find_by_id i cs)
  throw_if (not (same_status c.status pending)) (conflict_error charter_invalid_status)
      (write i (quoted d) (λ u. charter_quoted u.id d.quoted_price ∷ []) (meanwhile cs))

-- What `acceptQuote` and `rejectQuote` share: the owner's answer to a quote.
unfoldable pub answer_quote :
    CharterStatus → (List Charter → List Charter) → ℕ → ℕ → List Charter → Answer Charter
unfolding find_by_id write
answer_quote s meanwhile i user cs = do
  c ← found (find_by_id i cs)
  throw_if (not (c.passenger_id == user)) forbidden_error (
      throw_if (not (same_status c.status quote_sent)) (conflict_error charter_invalid_status)
        (write i (with_status s) (λ u. []) (meanwhile cs)))

unfoldable pub accept_quote : (List Charter → List Charter) → ℕ → ℕ → List Charter → Answer Charter
unfolding answer_quote
accept_quote = answer_quote awaiting_payment

unfoldable pub reject_quote : (List Charter → List Charter) → ℕ → ℕ → List Charter → Answer Charter
unfolding answer_quote
reject_quote = answer_quote cancelled

unfoldable pub initiate_payment :
    (List Charter → List Charter) → (Charter → Result (ℕ × ℕ)) → ℕ → ℕ → List Charter → Answer ℕ
unfolding find_by_id update_row
initiate_payment meanwhile initialize i user cs = do
  c ← found (find_by_id i cs)
  throw_if (not (c.passenger_id == user)) forbidden_error (
      throw_if (not (same_status c.status awaiting_payment)) (conflict_error charter_invalid_status)
        (throw_if (not (is_some c.quoted_price)) (conflict_error charter_no_price) do
          started ← initialize c
          r ← update_row i (λ x. record x { payment_ref = some started.1 }) (meanwhile cs)
          returns (started.0, r.1, [])))

-- The float product `Number(charter.quotedPrice) * 100` of a price in hundredths is the argument
-- `to_kobo`: the whole number that it comes to, or none if it is not whole.
abbrev pub is_expected : (ℕ → Option ℕ) → ℕ → ℕ → Bool
is_expected to_kobo price received = elim (to_kobo price) [ none ↦ false | some k ↦ received == k ]

abbrev pub is_paid : CharterStatus → Bool
is_paid s = same_status s confirmed || same_status s completed

unfoldable pub process_webhook_payment :
    (ℕ → Option ℕ)
    → (List Charter → List Charter)
    → ℕ
    → ℕ
    → ℕ
    → List Charter
    → List Charter × List Emission
unfolding find_by_id confirm_payment
process_webhook_payment to_kobo meanwhile i paid_at received cs = elim (find_by_id i cs) [
  | none ↦ (cs, [])
  | some c ↦ if is_paid c.status then (cs, []) else elim c.quoted_price [
    | none ↦ (cs, no_price i ∷ [])
    | some price ↦
        if not (is_expected to_kobo price received)
        then (cs, amount_mismatch i received ∷ [])
        else let (flipped, cs') = confirm_payment i paid_at price (meanwhile cs) in
          if flipped then (cs', charter_confirmed i price ∷ []) else (cs', [])
  ]
]

-- What a successful transaction comes to.
unfoldable pub settle_verified :
    (ℕ → Option ℕ)
    → (List Charter → List Charter)
    → ℕ
    → Charter
    → Option VerifiedTransaction
    → List Charter
    → Answer (TxState × Charter)
unfolding process_webhook_payment
settle_verified to_kobo meanwhile now c none cs = returns ((tx_failed, c), cs, [])
settle_verified to_kobo meanwhile now c (some tx) cs = elim tx.state [
  | tx_pending ↦ returns ((tx_pending, c), cs, [])
  | tx_failed ↦ returns ((tx_failed, c), cs, [])
  | tx_success ↦
      (let (cs', out) = process_webhook_payment to_kobo meanwhile c.id now tx.amount_kobo cs in
        let updated : Charter = elim (find_by_id c.id cs') [ none ↦ c | some u ↦ u ] in
        returns ((if is_paid updated.status then tx_success else tx_failed, updated), cs', out))
]

unfoldable pub verify_payment :
    (ℕ → Option ℕ)
    → (List Charter → List Charter)
    → (ℕ → Result (Option VerifiedTransaction))
    → ℕ
    → ℕ
    → ℕ
    → List Charter
    → Answer (TxState × Charter)
unfolding find_by_id settle_verified
verify_payment to_kobo meanwhile lookup now i user cs = do
  c ← found (find_by_id i cs)
  throw_if (not (c.passenger_id == user)) forbidden_error (
      if is_paid c.status then returns ((tx_success, c), cs, []) else elim c.payment_ref [
        | none ↦ returns ((tx_pending, c), cs, [])
        | some ref ↦
            if not (same_status c.status awaiting_payment)
            then returns ((tx_pending, c), cs, [])
            else do tx ← lookup ref; settle_verified to_kobo meanwhile now c tx cs
      ])

unfoldable pub admin_confirm_booking :
    (List Charter → List Charter) → ℕ → ConfirmBookingInput → List Charter → Answer Charter
unfolding find_by_id write with_booking
admin_confirm_booking meanwhile i d cs = do
  c ← found (find_by_id i cs)
  throw_if (not (same_status c.status confirmed)) (conflict_error charter_invalid_status)
      (write i (with_booking d) (λ u. booking_confirmed u.id d ∷ []) (meanwhile cs))

unfoldable pub complete_charter :
    (List Charter → List Charter) → ℕ → ℕ → List Charter → Answer Charter
unfolding find_by_id write
complete_charter meanwhile now i cs = do
  c ← found (find_by_id i cs)
  throw_if (not (same_status c.status confirmed)) (conflict_error charter_invalid_status)
      (write i (done now) (λ u. charter_completed u.id ∷ []) (meanwhile cs))

abbrev pub is_cancellable : CharterStatus → Bool
is_cancellable s =
    same_status s pending || same_status s quote_sent || same_status s awaiting_payment

unfoldable pub cancel_charter :
    (List Charter → List Charter) → ℕ → ℕ → Role → List Charter → Answer Charter
unfolding find_by_id write
cancel_charter meanwhile i user role cs = do
  c ← found (find_by_id i cs)
  throw_if (same_role role passenger && not (c.passenger_id == user)) forbidden_error (
      throw_if (not (is_cancellable c.status)) (conflict_error charter_invalid_status)
        (write i (with_status cancelled) (λ u. []) (meanwhile cs)))
