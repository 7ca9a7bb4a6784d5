-- ===== src/Api.antt =====
-- The HTTP client of the frontend (frontend/src/lib/api.ts): the two interceptors of a reply, and what
-- a request leads to. The server is the function from an attempt to its answer; texts are numbers.
pub mod Retry
mod Tests
use transhub.Prelude.{
  ℕ, zero, suc, ◌+◌, ◌*◌, Bool, true, false, not, ◌&&◌, ◌||◌, Option, none, some, List, [], ◌∷◌,
  ◌++◌, ◌==◌, ltb, leb, if◌then◌else◌,
}

-- A value of JavaScript, as far as a body goes.
mutual
  pub data Json : Type 0 where
    undefined : Json
    null : Json
    text : ℕ → Json
    number : ℕ → Json
    object : Fields → Json

  pub data Fields : Type 0 where
    end : Fields
    field : ℕ → Json → Fields → Fields

-- The names of the fields that are read.
abbrev pub key_data : ℕ
key_data = 0

abbrev pub key_error : ℕ
key_error = 1

abbrev pub key_message : ℕ
key_message = 2

abbrev pub key_code : ℕ
key_code = 3

abbrev pub property_of : ℕ → Fields → Json
property_of k end = undefined
property_of k (field j v fs) = if j == k then v else property_of k fs

-- `v[k]` of a value that has properties, or none.
abbrev pub property : ℕ → Json → Json
property k (object fs) = property_of k fs
property k v = undefined

abbrev pub is_nullish : Json → Bool
is_nullish undefined = true
is_nullish null = true
is_nullish v = false

pub data Method : Type 0 where
  get head options post put patch delete : Method

-- `IDEMPOTENT_METHODS`.
abbrev pub is_idempotent : Method → Bool
is_idempotent get = true
is_idempotent head = true
is_idempotent options = true
is_idempotent m = false

pub record Config : Type 0 where
  pub method : Option Method
  pub path : ℕ
  pub query : ℕ
  pub retry_count : Option ℕ

abbrev pub method_of : Config → Method
method_of c = elim c.method [ none ↦ get | some m ↦ m ]

abbrev pub retry_count_of : Config → ℕ
retry_count_of c = elim c.retry_count [ none ↦ 0 | some n ↦ n ]

pub record Response : Type 0 where
  pub status : ℕ
  pub body : Json

pub record AxiosError : Type 0 where
  pub config : Config
  pub response : Option Response

pub data Message : Type 0 where
  network_error : Message
  message : ℕ → Message

-- What the client rejects with.
pub record ApiFailure : Type 0 where
  pub message : Message
  pub code : Option ℕ
  pub status : Option ℕ

pub data Reason : Type 0 where
  axios_error : AxiosError → Reason
  api_failure : ApiFailure → Reason
  type_error : Reason

pub data Outcome : Type 0 where
  resolves : Json → Outcome
  rejects : Reason → Outcome

pub data Effect : Type 0 where
  sent : Effect
  waited : ℕ → Effect
  token_cleared logged_out redirected : Effect
  reported : Method → Option ℕ → Option ℕ → Effect

-- The page on which a request is made.
pub record Page : Type 0 where
  pub is_authenticated : Bool
  pub is_login_page : Bool

pub data Attempt : Type 0 where
  succeeds : Response → Attempt
  fails : Option Response → Attempt

-- `!status || (status >= 500 && status < 600)`
abbrev pub is_retryable_status : Option Response → Bool
is_retryable_status none = true
is_retryable_status (some r) = (r.status == 0) || (leb 500 r.status && ltb r.status 600)

-- The configuration of the next attempt, if there is one.
unfoldable pub retried : AxiosError → Option Config
retried e =
    if is_idempotent (method_of e.config)
      && is_retryable_status e.response
      && ltb (retry_count_of e.config) 2
    then some (record (e.config) { retry_count = some (retry_count_of e.config + 1) })
    else none

abbrev pub response_of : Reason → Option Response
response_of (axios_error e) = e.response
response_of r = none

abbrev pub status_of : Reason → Option ℕ
status_of r = elim (response_of r) [ none ↦ none | some a ↦ some a.status ]

abbrev pub body_of : Reason → Json
body_of r = elim (response_of r) [ none ↦ undefined | some a ↦ a.body ]

-- `captureApiFailure`: the method, the path and the status; the query is left out.
unfoldable pub capture_api_failure : Reason → List Effect
capture_api_failure (axios_error e) = elim e.response [
  | none ↦ reported (method_of e.config) (some e.config.path) none ∷ []
  | some a ↦
      if ltb a.status 500
      then []
      else reported (method_of e.config) (some e.config.path) (some a.status) ∷ []
]
capture_api_failure r = reported get none none ∷ []

-- The first of two fields that is a text.
abbrev pub text_or : Json → Json → Option ℕ
text_or (text n) w = some n
text_or v (text n) = some n
text_or v w = none

unfoldable pub message_of : Json → Message
message_of v =
    elim (text_or (property key_message (property key_error v)) (property key_message v)) [
      | none ↦ network_error
      | some n ↦ message n
    ]

unfoldable pub code_of : Json → Option ℕ
code_of v = text_or (property key_code (property key_error v)) (property key_code v)

abbrev pub is_status : ℕ → Option ℕ → Bool
is_status n none = false
is_status n (some s) = s == n

-- The handler of a failure, of which a 401 ends the session.
unfoldable pub on_failure : Page → Reason → Outcome × List Effect
unfolding capture_api_failure message_of code_of
on_failure page r =
    let ended =
      if is_status 401 (status_of r)
      then token_cleared ∷ (if page.is_authenticated then logged_out ∷ [] else [])
        ++ (if page.is_login_page then [] else redirected ∷ [])
      else [] in
    (
      rejects (
          api_failure (record {
            message = message_of (body_of r);
            code = code_of (body_of r);
            status = status_of r;
          })),
      ended ++ capture_api_failure r,
    )

-- The second interceptor after a retry: its argument is what the retry has unwrapped already. To read
-- a field of undefined or null throws.
unfoldable pub relayed : Page → Outcome × List Effect → Outcome × List Effect
unfolding on_failure
relayed page (resolves v, es) =
    if is_nullish v then (rejects type_error, es) else (resolves (property key_data v), es)
relayed page (rejects r, es) = let f = on_failure page r in (f.0, es ++ f.1)

-- A request from the attempt `k` on, with fuel for its attempts.
unfoldable pub api : Page → (ℕ → Attempt) → ℕ → ℕ → Config → Option (Outcome × List Effect)
unfolding retried relayed on_failure
api page server zero k c = none
api page server (suc fuel) k c = elim (server k) [
  | succeeds r ↦ some (resolves r.body, sent ∷ [])
  | fails r ↦
      let e : AxiosError = record { config = c; response = r } in
      elim (retried e) [
        | none ↦ let f = on_failure page (axios_error e) in some (f.0, sent ∷ f.1)
        | some c' ↦ elim (api page server fuel (k + 1) c') [
          | none ↦ none
          | some (o, es) ↦
              let f = relayed page (o, es) in
              some (f.0, sent ∷ waited (retry_count_of c' * 1000) ∷ f.1)
        ]
      ]
]
