-- ===== src/Accounts.antt =====
-- The rows of people and companies (the models User, Operator, Driver and PasswordResetToken of
-- backend/prisma/schema.prisma), and the writes of the users, operators, drivers and auth
-- repositories. Emails are as the schemas leave them, trimmed and in lower case.
pub mod Hashing
use transhub.Prelude.{
  ℕ, zero, suc, ◌+◌, ◌-◌, ◌*◌, ◌/◌, ◌%◌, ◌<◌, ◌≤◌, ◌≡◌, ◌≢◌, ◌↔◌, refl, sym, ap, ◌∙◌, ◌⊎◌, inl, inr,
  subst, Bool, true, false, not, ◌&&◌, ◌||◌, Option, none, some, List, [], ◌∷◌, ◌++◌, ◌==◌, ltb,
  leb, if◌then◌else◌, is_some, is, find_many, arith, Bool-cases, Option-cases, ==_iff, ==_refl,
  update_many, count_where, find_first, find_first-some,
}
use transhub.Errors.{Result, returns, throws, ◌>>=◌, throw_if, Ensures}
use transhub.Errors.{
  unique_violation, prisma_fault, app, unauthorized_error, forbidden_error, not_found_error,
  conflict_error, conflict,
}
use transhub.Roles.{Role}

pub record User : Type 0 where
  pub id : ℕ
  pub email : ℕ
  pub password : ℕ
  pub full_name : ℕ
  pub phone : ℕ
  pub role : Role
  pub operator_id : Option ℕ

pub data OperatorStatus : Type 0 where
  pending approved declined : OperatorStatus

abbrev pub is_pending : OperatorStatus → Bool
is_pending pending = true
is_pending _ = false

abbrev pub is_approved : OperatorStatus → Bool
is_approved approved = true
is_approved _ = false

pub record Operator : Type 0 where
  pub id : ℕ
  pub company_name : ℕ
  pub contact_name : ℕ
  pub email : ℕ
  pub phone : ℕ
  pub city : ℕ
  pub fleet_size : ℕ
  pub vehicle_types : List ℕ
  pub routes : ℕ
  pub years_in_operation : ℕ
  pub cac_number : ℕ
  pub additional_info : Option ℕ
  pub status : OperatorStatus
  pub reviewed_at : Option ℕ

pub record Driver : Type 0 where
  pub id : ℕ
  pub operator_id : ℕ
  pub full_name : ℕ
  pub phone : ℕ
  pub password : ℕ
  pub license_no : Option ℕ
  pub is_active : Bool

pub record ResetToken : Type 0 where
  pub user_id : ℕ
  pub token_hash : ℕ
  pub expires_at : ℕ
  pub used_at : Option ℕ

pub record Accounts : Type 0 where
  pub users : List User
  pub operators : List Operator
  pub drivers : List Driver
  pub reset_tokens : List ResetToken

-- The identity in a token.
pub record AuthUser : Type 0 where
  pub id : ℕ
  pub email : Option ℕ
  pub full_name : ℕ
  pub phone : ℕ
  pub role : Role
  pub operator_id : Option ℕ

unfoldable pub to_auth_user : User → AuthUser
to_auth_user u = record {
  id = u.id;
  email = some u.email;
  full_name = u.full_name;
  phone = u.phone;
  role = u.role;
  operator_id = u.operator_id;
}

abbrev pub has_email : ℕ → User → Bool
has_email email u = u.email == email

abbrev pub has_user_id : ℕ → User → Bool
has_user_id i u = u.id == i

unfoldable pub find_user_by_email : ℕ → List User → Option User
find_user_by_email email = find_first (has_email email)

unfoldable pub find_user : ℕ → List User → Option User
find_user i = find_first (has_user_id i)

-- Whether two users are linked to the same company.
abbrev pub same_link : Option ℕ → Option ℕ → Bool
same_link none p = false
same_link (some o) p = is p o

-- `create`, with the unique indexes on `email` and on `operatorId` and the primary key.
abbrev pub clashes_with : User → User → Bool
clashes_with u v = v.id == u.id || v.email == u.email || same_link u.operator_id v.operator_id

unfoldable pub create_user : User → List User → Result (User × List User)
create_user u users =
    if count_where (clashes_with u) users == 0
    then returns (u, u ∷ users)
    else throws unique_violation

unfoldable pub update_password : ℕ → ℕ → List User → List User
update_password i hash = update_many (has_user_id i) (λ u. record u { password = hash })

abbrev pub has_operator_id : ℕ → Operator → Bool
has_operator_id i o = o.id == i

unfoldable pub find_operator : ℕ → List Operator → Option Operator
find_operator i = find_first (has_operator_id i)

unfoldable pub find_operator_by_email : ℕ → List Operator → Option Operator
find_operator_by_email email = find_first (λ o. o.email == email)

-- `markReviewedIfPending`: the WHERE, the row that it writes, and the count with the rows afterwards.
abbrev pub is_reviewable : ℕ → Operator → Bool
is_reviewable i o = has_operator_id i o && is_pending o.status

abbrev pub reviewed : OperatorStatus → ℕ → Operator → Operator
reviewed status now o = record o { status = status; reviewed_at = some now }

unfoldable pub mark_reviewed_if_pending : ℕ → OperatorStatus → ℕ → List Operator → ℕ × List Operator
mark_reviewed_if_pending i status now operators = (
  count_where (is_reviewable i) operators,
  update_many (is_reviewable i) (reviewed status now) operators,
)

-- The reset tokens: the lookup by hash, the removal of a user's, and `createResetToken` with its unique
-- index.
unfoldable pub find_reset_token_by_hash : ℕ → List ResetToken → Option ResetToken
find_reset_token_by_hash hash = find_first (λ t. t.token_hash == hash)

unfoldable pub delete_reset_tokens_for_user : ℕ → List ResetToken → List ResetToken
delete_reset_tokens_for_user user = find_many (λ t. not (t.user_id == user))

unfoldable pub create_reset_token : ResetToken → List ResetToken → Result (List ResetToken)
unfolding find_reset_token_by_hash
create_reset_token t tokens =
    if is_some (find_reset_token_by_hash t.token_hash tokens)
    then throws unique_violation
    else returns (t ∷ tokens)
