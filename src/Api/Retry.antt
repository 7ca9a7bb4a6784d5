-- ===== src/Api/Retry.antt =====
-- How often the client sends a request, and what the interceptors make of a reply to a retry.
use transhub.Prelude.{
  ℕ, zero, suc, ◌+◌, ◌-◌, ◌*◌, ◌≤◌, ◌≡◌, refl, ◌∙◌, ◌⊎◌, inl, inr, true, Option, none, some, List,
  [], ◌∷◌, ◌++◌, max, if◌then◌else◌, arith, Option-cases,
}
use transhub.Api.{
  undefined, object, Fields, property_of, key_data, is_idempotent, Config, method_of,
  retry_count_of, Response, AxiosError, api_failure, axios_error, Reason, type_error, Outcome,
  resolves, rejects, Effect, sent, waited, token_cleared, logged_out, redirected, Page, Attempt,
  succeeds, fails, is_retryable_status, is_status, status_of, retried, on_failure, relayed, api,
  capture_api_failure,
}

abbrev pub is_sent : Effect → ℕ
is_sent sent = 1
is_sent e = 0

abbrev pub count_sent : List Effect → ℕ
count_sent [] = 0
count_sent (e ∷ es) = is_sent e + count_sent es

-- The attempts that a configuration is good for.
abbrev pub attempts_left : Config → ℕ
attempts_left c = if is_idempotent (method_of c) then max 1 (3 - retry_count_of c) else 1

count_sent-append : (xs ys : List Effect) → count_sent (xs ++ ys) ≡ count_sent xs + count_sent ys
count_sent-append [] ys = omega arith
count_sent-append (x ∷ xs) ys = omega (arith, count_sent-append xs ys)

-- A handler of a failure sends nothing.
capture-quiet : (r : Reason) → count_sent (capture_api_failure r) ≡ 0
unfolding capture_api_failure
capture-quiet (axios_error e) = ground arith
capture-quiet (api_failure f) = refl
capture-quiet type_error = refl

abbrev ended : Page → Option ℕ → List Effect
ended page status =
    if is_status 401 status
    then token_cleared ∷ (if page.is_authenticated then logged_out ∷ [] else [])
      ++ (if page.is_login_page then [] else redirected ∷ [])
    else []

ended-quiet : (page : Page) (status : Option ℕ) → count_sent (ended page status) ≡ 0
ended-quiet page status = ground arith

on_failure-quiet : (page : Page) (r : Reason) → count_sent (on_failure page r).1 ≡ 0
unfolding on_failure
on_failure-quiet page r = omega (
  arith,
  capture-quiet r,
  count_sent-append (ended page (status_of r)) (capture_api_failure r),
  ended-quiet page (status_of r),
)

-- A retry lowers the attempts that are left by one.
retried-attempts :
    (e : AxiosError) (c : Config)
    → retried e ≡ some c
    → attempts_left e.config ≡ attempts_left c + 1
unfolding retried
retried-attempts e c h = ground (arith, h)

not_retried-attempts : (c : Config) → 1 ≤ attempts_left c
not_retried-attempts c = ground arith

relayed-sent :
    (page : Page) (o : Outcome) (es : List Effect)
    → count_sent (relayed page (o, es)).1 ≡ count_sent es
unfolding relayed
relayed-sent page (resolves v) es = ground arith
relayed-sent page (rejects r) es =
    omega (arith, count_sent-append es (on_failure page r).1, on_failure-quiet page r)

Attempt-cases :
    (a : Attempt) → ((r : Response) × (a ≡ succeeds r)) ⊎ ((r : Option Response) × (a ≡ fails r))
Attempt-cases (succeeds r) = inl (r, refl)
Attempt-cases (fails r) = inr (r, refl)

abbrev failed : Config → Option Response → AxiosError
failed c r = record { config = c; response = r }

-- With the attempts as fuel a request comes to an end; it is sent at least once and at most that often.
api_sends :
    (page : Page) (server : ℕ → Attempt) (fuel k : ℕ) (c : Config)
    → attempts_left c ≤ fuel
    → (r : Outcome × List Effect) × (api page server fuel k c ≡ some r)
      × (1 ≤ count_sent r.1)
      × (count_sent r.1 ≤ attempts_left c)
unfolding api
api_sends page server zero k c h = absurd (omega (arith, not_retried-attempts c))
api_sends page server (suc fuel) k c h = elim (Attempt-cases (server k)) [
  | inl (r, e) ↦ (
    (resolves r.body, sent ∷ []),
    rw (api, e) refl,
    omega arith,
    omega (arith, not_retried-attempts c),
  )
  | inr (r, e) ↦ elim (Option-cases (retried (failed c r))) [
    | inl last ↦
        let f = on_failure page (axios_error (failed c r)) in
        let quiet = on_failure-quiet page (axios_error (failed c r)) in
        (
          (f.0, sent ∷ f.1),
          rw (api, e, last) refl,
          omega (arith, quiet),
          omega (arith, quiet, not_retried-attempts c),
        )
    | inr (c', again) ↦
        let fewer = retried-attempts (failed c r) c' again in
        let (rest, ends, least, most) =
          api_sends page server fuel (k + 1) c' (omega (arith, fewer)) in
        let f = relayed page rest in
        let same = relayed-sent page rest.0 rest.1 in
        (
          (f.0, sent ∷ waited (retry_count_of c' * 1000) ∷ f.1),
          rw (api, e, again, ends) refl,
          omega (arith, same),
          omega (arith, same, fewer),
        )
  ]
]

-- A request ends: it is sent at least once, at most three times if its method is idempotent, and once
-- if it is not, whatever the server answers.
pub api_ends :
    (page : Page) (server : ℕ → Attempt) (fuel k : ℕ) (c : Config)
    → 3 ≤ fuel
    → (r : Outcome × List Effect) × (api page server fuel k c ≡ some r)
      × (1 ≤ count_sent r.1)
      × (count_sent r.1 ≤ (if is_idempotent (method_of c) then 3 else 1))
api_ends page server fuel k c h =
    let (r, ends, least, most) = api_sends page server fuel k c (ground arith) in
    (r, ends, least, ground (arith, most))

module _ (page : Page) (c : Config) (first : Option Response) (server : ℕ → Attempt)
    (safe : is_idempotent (method_of c) ≡ true) (fresh : c.retry_count ≡ none)
    (down : is_retryable_status first ≡ true) (lost : server 0 ≡ fails first) where
  again : retried (failed c first) ≡ some (record c { retry_count = some 1 })
  unfolding retried
  again = ground (arith, safe, fresh, down)

  -- A retry of a request that was not sent before waits a second and is sent again.
  once_more :
      (o : Outcome) (es : List Effect)
      → api page server 2 1 (record c { retry_count = some 1 }) ≡ some (o, es)
      → api page server 3 0 c
        ≡ some ((relayed page (o, es)).0, sent ∷ waited 1000 ∷ (relayed page (o, es)).1)
  unfolding api
  once_more o es h = rw (api, lost, again, h) refl

  -- A reply of 2xx with an object that has no field `data`, to a request that may be retried: at once it
  -- gives the object; after one attempt that fails with a 5xx or without a reply, the retry gives
  -- undefined, since the reply is unwrapped twice.
  pub retried_reply_lost :
      (r : Response) (fs : Fields)
      → server 1 ≡ succeeds r
      → r.body ≡ object fs
      → property_of key_data fs ≡ undefined
      → (api page (λ k. succeeds r) 3 0 c ≡ some (resolves (object fs), sent ∷ []))
        × (api page server 3 0 c ≡ some (resolves undefined, sent ∷ waited 1000 ∷ sent ∷ []))
  unfolding api
  retried_reply_lost r fs e body no_data = (
    rw body refl,
    once_more (resolves (object fs)) (sent ∷ []) (rw (api, e, body) refl)
        ∙ rw (relayed, no_data) refl,
  )
