-- ===== src/Errors.antt =====
-- backend/src/shared/errors/index.ts: the typed application errors, and what a handler can throw.
-- Messages and details are left out: no code reads them back.
pub mod Response
use transhub.Prelude.{◌⊎◌, inl, inr, subst, ℕ, Bool, true, false, ◌≡◌, refl}

-- The machine-readable codes that a ConflictError carries in the modules modelled.
pub data ConflictCode : Type 0 where
  conflict trip_unavailable trip_full invalid_price no_quote : ConflictCode
  invalid_status_transition insufficient_seats hold_expired : ConflictCode
  charter_invalid_status charter_no_price charter_lead_time : ConflictCode
  charter_return_before_dep : ConflictCode

-- A constructor for each class below AppError; the classes below ConflictError stand for themselves.
pub data AppError : Type 0 where
  validation_error unauthorized_error forbidden_error not_found_error : AppError
  conflict_error : ConflictCode → AppError
  insufficient_seats_error hold_expired_error : AppError
  too_many_requests_error : ℕ → AppError

-- The code that a response carries.
pub data ErrorCode : Type 0 where
  validation_code unauthorized_code forbidden_code not_found_code rate_limited : ErrorCode
  conflict_of : ConflictCode → ErrorCode
  payload_too_large bad_request internal_code : ErrorCode

unfoldable pub status_code : AppError → ℕ
status_code validation_error = 400
status_code unauthorized_error = 401
status_code forbidden_error = 403
status_code not_found_error = 404
status_code (conflict_error c) = 409
status_code insufficient_seats_error = 409
status_code hold_expired_error = 409
status_code (too_many_requests_error n) = 429

unfoldable pub error_code : AppError → ErrorCode
error_code validation_error = validation_code
error_code unauthorized_error = unauthorized_code
error_code forbidden_error = forbidden_code
error_code not_found_error = not_found_code
error_code (conflict_error c) = conflict_of c
error_code insufficient_seats_error = conflict_of insufficient_seats
error_code hold_expired_error = conflict_of hold_expired
error_code (too_many_requests_error n) = rate_limited

-- What a handler throws: an AppError, a Prisma fault, a body-parser error with its status, or
-- anything else; `issue_reported e` is the error `e` thrown on after it was reported to Sentry as a
-- payment issue.
pub data Thrown : Type 0 where
  app : AppError → Thrown
  unique_violation foreign_key_violation prisma_fault : Thrown
  body_parser : ℕ → Thrown
  other : Thrown
  issue_reported : Thrown → Thrown

-- `throws instanceof ConflictError`.
unfoldable pub is_conflict : Thrown → Bool
is_conflict (app (conflict_error c)) = true
is_conflict (app insufficient_seats_error) = true
is_conflict (app hold_expired_error) = true
is_conflict (issue_reported e) = is_conflict e
is_conflict _ = false

-- What an async function comes to: it returns, or it throws.
pub data Result (A : Type 0) : Type 0 where
  throws : Thrown → Result A
  returns : A → Result A

pub returns_injective : {A : Type 0} {a b : A} → returns a ≡ returns b → a ≡ b
returns_injective same = cc

-- `await`: what is thrown passes through.
infixl 5 ◌>>=◌
abbrev pub ◌>>=◌ : {A B : Type 0} → Result A → (A → Result B) → Result B
throws t >>= next = throws t
returns a >>= next = next a

-- `if (test) throw e;` before the rest of a function.
abbrev pub throw_if : {A : Type 0} → Bool → AppError → Result A → Result A
throw_if true e rest = throws (app e)
throw_if false e rest = rest

-- What is returned satisfies `P`, if anything is.
abbrev pub Ensures : {A : Type 0} → (A → Type 0) → Result A → Type 0
Ensures P (throws t) = Unit {0}
Ensures P (returns a) = P a

pub Result-cases :
    {A : Type 0} (m : Result A) → ((t : Thrown) × (m ≡ throws t)) ⊎ ((a : A) × (m ≡ returns a))
Result-cases (throws t) = inl (t, refl)
Result-cases (returns a) = inr (a, refl)

pub Ensures-returns :
    {A : Type 0} (P : A → Type 0) (m : Result A) (a : A) → m ≡ returns a → Ensures P m → P a
Ensures-returns P m a e h = subst (Ensures P) e h

pub Ensures-map :
    {A : Type 0} {P Q : A → Type 0} (m : Result A)
    → ((a : A) → P a → Q a)
    → Ensures P m
    → Ensures Q m
Ensures-map (throws t) f h = tt
Ensures-map (returns a) f h = f a h

-- What the rest of a function makes of a value that satisfies `P`.
pub Ensures-bind :
    {A B : Type 0} (P : A → Type 0) (Q : B → Type 0) (m : Result A) (next : A → Result B)
    → Ensures P m
    → ((a : A) → P a → Ensures Q (next a))
    → Ensures Q (m >>= next)
Ensures-bind P Q (throws t) next h f = tt
Ensures-bind P Q (returns a) next h f = f a h
