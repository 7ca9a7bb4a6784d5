-- ===== src/Auth.antt =====
-- The auth module (backend/src/modules/auth/auth.service.ts). Hashes, tokens and clocks are arguments;
-- a token is the identity that it carries. What other requests do between a read and a write is the
-- argument `meanwhile`.
pub mod Tests
pub mod Session
pub mod Reset
use transhub.Prelude.{
  ℕ, zero, suc, ◌+◌, ◌-◌, ◌*◌, ◌/◌, ◌%◌, ◌<◌, ◌≤◌, ◌≡◌, ◌≢◌, ◌↔◌, refl, sym, ap, ◌∙◌, ◌⊎◌, inl, inr,
  subst, Bool, true, false, not, ◌&&◌, ◌||◌, Option, none, some, List, [], ◌∷◌, ◌++◌, ◌==◌, ltb,
  leb, if◌then◌else◌, is_some, is, arith, Bool-cases, Option-cases, ==_iff, ==_refl, update_many,
  count_where, find_first, find_first-some,
}
use transhub.Errors.{Result, returns, throws, ◌>>=◌, throw_if, Ensures}
use transhub.Errors.{
  Thrown, prisma_fault, unique_violation, app, unauthorized_error, validation_error, conflict_error,
  conflict,
}
use transhub.Roles.{Role, passenger, driver}
use transhub.Accounts.{
  Accounts, User, Driver, ResetToken, AuthUser, to_auth_user, find_user_by_email, find_user,
  create_user, update_password, find_reset_token_by_hash, delete_reset_tokens_for_user,
  create_reset_token,
}
use transhub.Accounts.Hashing.{Hashing, Digest}

pub record RegisterInput : Type 0 where
  pub full_name : ℕ
  pub email : ℕ
  pub phone : ℕ
  pub password : ℕ

-- A violation of a unique index becomes the conflict that the check before it gives.
abbrev pub as_conflict : {A : Type 0} → Result A → Result A
as_conflict (returns a) = returns a
as_conflict (throws unique_violation) = throws (app (conflict_error conflict))
as_conflict (throws t) = throws t

-- The identity of a driver.
abbrev pub driver_identity : Driver → AuthUser
driver_identity d = record {
  id = d.id;
  email = none;
  full_name = d.full_name;
  phone = d.phone;
  role = driver;
  operator_id = some d.operator_id;
}

unfoldable pub find_driver_by_phone : ℕ → List Driver → Option Driver
find_driver_by_phone phone = find_first (λ d. d.phone == phone)

module _ (h : Hashing) where
  unfoldable pub register :
      (List User → List User) → ℕ → ℕ → RegisterInput → Accounts → Result (AuthUser × Accounts)
  unfolding find_user_by_email create_user to_auth_user
  register meanwhile salt i d accounts =
      if is_some (find_user_by_email d.email accounts.users)
      then throws (app (conflict_error conflict))
      else do
        r ← as_conflict (
            create_user
              (record {
                id = i;
                email = d.email;
                password = h.hash salt d.password;
                full_name = d.full_name;
                phone = d.phone;
                role = passenger;
                operator_id = none;
              })
              (meanwhile accounts.users))
        returns (to_auth_user r.0, record accounts { users = r.1 })

  -- `dummy` is the hash that is verified if no account has the email.
  unfoldable pub login : ℕ → ℕ → ℕ → Accounts → Result AuthUser
  unfolding find_user_by_email to_auth_user
  login dummy email password accounts = elim (find_user_by_email email accounts.users) [
    | none ↦ let valid = h.verify dummy password in throws (app unauthorized_error)
    | some u ↦
        if h.verify u.password password
        then returns (to_auth_user u)
        else throws (app unauthorized_error)
  ]

  -- `driversService.verifyCredentials`.
  unfoldable pub verify_credentials : ℕ → ℕ → Accounts → Result AuthUser
  unfolding find_driver_by_phone
  verify_credentials phone password accounts = elim (find_driver_by_phone phone accounts.drivers) [
    | none ↦ throws (app unauthorized_error)
    | some d ↦
        throw_if (not (h.verify d.password password)) unauthorized_error
          (throw_if (not d.is_active) unauthorized_error (returns (driver_identity d)))
  ]

  -- `usersService.resetPassword` and then the removal of the tokens; the lookup and the write are apart.
  unfoldable pub reset_password :
      Digest → (Accounts → Accounts) → ℕ → ℕ → ℕ → ℕ → Accounts → Result Accounts
  unfolding find_reset_token_by_hash update_password delete_reset_tokens_for_user find_user
  reset_password g meanwhile salt now raw new accounts =
      elim (find_reset_token_by_hash (g.digest raw) accounts.reset_tokens) [
        | none ↦ throws (app validation_error)
        | some t ↦ throw_if (is_some t.used_at) validation_error (
            throw_if (ltb t.expires_at now) validation_error (
              let between = meanwhile accounts in
              if is_some (find_user t.user_id between.users)
              then returns (record between {
                users = update_password t.user_id (h.hash salt new) between.users;
                reset_tokens = delete_reset_tokens_for_user t.user_id between.reset_tokens;
              })
              else throws prisma_fault))
      ]

-- `driversService.getAuthUserById`.
abbrev pub has_driver_id : ℕ → Driver → Bool
has_driver_id i d = d.id == i

unfoldable pub get_auth_user_by_id : ℕ → Accounts → Result AuthUser
get_auth_user_by_id i accounts = elim (find_first (has_driver_id i) accounts.drivers) [
  | none ↦ throws (app unauthorized_error)
  | some d ↦ throw_if (not d.is_active) unauthorized_error (returns (driver_identity d))
]

-- The role decides which table is read.
unfoldable pub me : ℕ → Role → Accounts → Result AuthUser
unfolding get_auth_user_by_id find_user to_auth_user
me i driver accounts = get_auth_user_by_id i accounts
me i _ accounts = elim (find_user i accounts.users) [
  | none ↦ throws (app unauthorized_error)
  | some u ↦ returns (to_auth_user u)
]

-- What a forgotten password sends: the address and the raw token.
pub data Mail : Type 0 where
  reset_link : ℕ → ℕ → Mail

-- An hour in milliseconds.
abbrev pub password_reset_ttl_ms : ℕ
password_reset_ttl_ms = 60 * 60 * 1000

unfoldable pub request_password_reset :
    Digest → ℕ → ℕ → ℕ → Accounts → Result (Accounts × List Mail)
unfolding find_user_by_email delete_reset_tokens_for_user create_reset_token
request_password_reset g now raw email accounts = elim (find_user_by_email email accounts.users) [
  | none ↦ returns (accounts, [])
  | some u ↦ do
    tokens ←
        create_reset_token
          (record {
            user_id = u.id;
            token_hash = g.digest raw;
            expires_at = now + password_reset_ttl_ms;
            used_at = none;
          })
          (delete_reset_tokens_for_user u.id accounts.reset_tokens)
    returns (record accounts { reset_tokens = tokens }, reset_link u.email raw ∷ [])
]
