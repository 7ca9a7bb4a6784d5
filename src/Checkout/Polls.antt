-- ===== src/Checkout/Polls.antt =====
-- What the polls come to: the first reply that decides, or the note that it takes longer.
use transhub.Prelude.{
  ℕ, zero, suc, ◌+◌, ◌≤◌, ◌≡◌, refl, ap, ◌∙◌, true, Option, none, some, List, arith,
}
use transhub.Api.{
  object, undefined, Fields, property_of, key_data, is_idempotent, method_of, Config, Response,
  Page, Attempt, succeeds, fails, is_retryable_status, api, Outcome, Effect,
}
use transhub.Api.Retry.{retried_reply_lost}
use transhub.Checkout.{
  verify_payment, threw, booked, has_key, key_booking, Reply, timed_out, decided, max_polls, poll,
  on_pending, waybill_decided, max_waybill_polls, waybill_poll, polling,
}

-- The first of the replies from `k` on, of which there are `n`, that decides.
abbrev pub first_decided : {V : Type 0} → (ℕ → Option V) → ℕ → ℕ → V → V
first_decided decides zero k last = last
first_decided decides (suc n) k last = elim (decides k) [
  | some v ↦ v
  | none ↦ first_decided decides n (k + 1) last
]

polling_from :
    {V : Type 0} (decides : ℕ → Option V) (most : ℕ) (last : V) (n fuel k : ℕ)
    → suc n ≤ fuel
    → k + suc n ≡ most
    → polling decides most last fuel k ≡ some (first_decided decides (suc n) k last)
unfolding polling
polling_from decides most last n zero k h e = absurd (omega arith)
polling_from decides most last zero (suc fuel) k h e = ground arith
polling_from decides most last (suc n) (suc fuel) k h e =
    ground (arith, polling_from decides most last n fuel (k + 1))

-- With the fuel of fifteen polls the checkout ends, and it ends as the first of the fifteen replies
-- says that decides; it times out if none does.
poll_lem :
    (replies : ℕ → Reply) (fuel : ℕ)
    → max_polls ≤ fuel
    → poll replies fuel ≡ some (first_decided (λ k. decided (replies k)) max_polls 0 timed_out)
unfolding poll
poll_lem replies fuel h =
    polling_from (λ k. decided (replies k)) max_polls timed_out 14 fuel 0 h refl

-- So does the page of a waybill, with six polls; it says success or failure only if the server does.
waybill_poll_lem :
    (replies : ℕ → Reply) (fuel : ℕ)
    → max_waybill_polls ≤ fuel
    → waybill_poll replies fuel
      ≡ some (first_decided (λ k. waybill_decided (replies k)) max_waybill_polls 0 on_pending)
unfolding waybill_poll
waybill_poll_lem replies fuel h =
    polling_from (λ k. waybill_decided (replies k)) max_waybill_polls on_pending 5 fuel 0 h refl

-- The reply to a poll that goes through the client.
abbrev pub reply_of : Option (Outcome × List Effect) → Reply
unfolding verify_payment
reply_of none = threw none
reply_of (some (o, es)) = verify_payment o

first_decided-second :
    {V : Type 0} (decides : ℕ → Option V) (n : ℕ) (last v : V)
    → decides 0 ≡ none
    → decides 1 ≡ some v
    → first_decided decides (suc (suc n)) 0 last ≡ v
first_decided-second decides n last v e f = ground (arith, e, f)

-- A server that replies with the booking at once.
reply-booked :
    (page : Page) (c : Config) (server : ℕ → Attempt) (r : Response) (fs : Fields)
    → server 0 ≡ succeeds r
    → r.body ≡ object fs
    → has_key key_booking fs ≡ true
    → decided (reply_of (api page server 3 0 c)) ≡ some (booked (property_of key_booking fs))
unfolding decided verify_payment api
reply-booked page c server r fs now body has = ground (arith, now, body, has)

-- The first poll meets a server that fails at first and then replies with the booking; the second
-- gets the booking at once. The first reply decides nothing, although it has the booking, and the
-- second leads to the page of the booking.
restart_costs_a_poll :
    (page : Page) (c : Config) (first : Option Response) (servers : ℕ → ℕ → Attempt) (r : Response)
    (fs : Fields) (fuel : ℕ)
    → is_idempotent (method_of c) ≡ true
    → c.retry_count ≡ none
    → is_retryable_status first ≡ true
    → servers 0 0 ≡ fails first
    → servers 0 1 ≡ succeeds r
    → servers 1 0 ≡ succeeds r
    → r.body ≡ object fs
    → property_of key_data fs ≡ undefined
    → has_key key_booking fs ≡ true
    → max_polls ≤ fuel
    → (decided (reply_of (api page (servers 0) 3 0 c)) ≡ none)
      × (poll (λ k. reply_of (api page (servers k) 3 0 c)) fuel
          ≡ some (booked (property_of key_booking fs)))
unfolding decided verify_payment
restart_costs_a_poll page c first servers r fs fuel safe fresh down lost again now body no_data has
      h =
    let twice =
      (retried_reply_lost page c first (servers 0) safe fresh down lost r fs again body
        no_data).1 in
    let replies = λ (k : ℕ). reply_of (api page (servers k) 3 0 c) in
    let idle : decided (replies 0) ≡ none = rw twice refl in
    (
      idle,
      poll_lem replies fuel h
          ∙ ap some (
              first_decided-second (λ k. decided (replies k)) 13 timed_out
                (booked (property_of key_booking fs)) idle
                (reply-booked page c (servers 1) r fs now body has)),
    )
