-- ===== src/Operators.antt =====
-- Onboarding of companies (backend/src/modules/operators, the service and the repository): application,
-- approval, decline, profile. What other requests do between the checks of a handler and its
-- transaction is the argument `meanwhile`.
pub mod Linked
pub mod Requests
pub mod Approval
mod Tests
use transhub.Prelude.{
  ℕ, zero, suc, ◌+◌, ◌-◌, ◌*◌, ◌/◌, ◌%◌, ◌<◌, ◌≤◌, ◌≡◌, ◌≢◌, ◌↔◌, refl, sym, ap, ◌∙◌, ◌⊎◌, inl, inr,
  subst, Bool, true, false, not, ◌&&◌, ◌||◌, Option, none, some, List, [], ◌∷◌, ◌++◌, ◌==◌, ltb,
  leb, if◌then◌else◌, is_some, arith, Bool-cases, Option-cases, ==_iff, ==_refl, update_many,
  count_where, find_first, find_first-some,
}
use transhub.Errors.{Result, returns, throws, ◌>>=◌, throw_if, Ensures}
use transhub.Errors.{unique_violation, prisma_fault, app, not_found_error, conflict_error, conflict}
use transhub.Roles.{operator}
use transhub.Accounts.{
  User, Operator, OperatorStatus, pending, approved, declined, Accounts, create_user,
  find_user_by_email, find_operator, find_operator_by_email, is_pending, is_reviewable, reviewed,
  mark_reviewed_if_pending, has_operator_id,
}
use transhub.Accounts.Hashing.{Hashing}
use transhub.Auth.{as_conflict}

pub record RegisterOperatorInput : Type 0 where
  pub company_name : ℕ
  pub contact_name : ℕ
  pub email : ℕ
  pub phone : ℕ
  pub city : ℕ
  pub fleet_size : ℕ
  pub vehicle_types : List ℕ
  pub routes : ℕ
  pub years_in_operation : ℕ
  pub cac_number : ℕ
  pub additional_info : Option ℕ

pub record UpdateOperatorProfileInput : Type 0 where
  pub company_name : Option ℕ
  pub contact_name : Option ℕ
  pub phone : Option ℕ
  pub city : Option ℕ
  pub routes : Option ℕ
  pub fleet_size : Option ℕ

pub data Event : Type 0 where
  operator_approved : ℕ → ℕ → ℕ → ℕ → Event

unfoldable pub new_operator : ℕ → RegisterOperatorInput → Operator
new_operator i d = record {
  id = i;
  company_name = d.company_name;
  contact_name = d.contact_name;
  email = d.email;
  phone = d.phone;
  city = d.city;
  fleet_size = d.fleet_size;
  vehicle_types = d.vehicle_types;
  routes = d.routes;
  years_in_operation = d.years_in_operation;
  cac_number = d.cac_number;
  additional_info = d.additional_info;
  status = pending;
  reviewed_at = none;
}

-- `create`, with the primary key and the unique index on `email`.
unfoldable pub create_operator : Operator → List Operator → Result (List Operator)
unfolding find_operator find_operator_by_email
create_operator o operators =
    if is_some (find_operator o.id operators) || is_some (find_operator_by_email o.email operators)
    then throws unique_violation
    else returns (o ∷ operators)

unfoldable pub register_operator :
    (Accounts → Accounts) → ℕ → RegisterOperatorInput → Accounts → Result (Operator × Accounts)
unfolding find_operator_by_email create_operator new_operator
register_operator meanwhile i d accounts =
    if is_some (find_operator_by_email d.email accounts.operators)
    then throws (app (conflict_error conflict))
    else do
      let between = meanwhile accounts
      rows ← as_conflict (create_operator (new_operator i d) between.operators)
      returns (new_operator i d, record between { operators = rows })

-- The account that an approval creates.
unfoldable pub operator_user : ℕ → ℕ → Operator → User
operator_user i password o = record {
  id = i;
  email = o.email;
  password = password;
  full_name = o.contact_name;
  phone = o.phone;
  role = operator;
  operator_id = some o.id;
}

-- The transaction of an approval: a throw undoes the flip.
unfoldable pub approve_transaction : ℕ → ℕ → ℕ → Operator → Accounts → Result Accounts
unfolding mark_reviewed_if_pending create_user operator_user
approve_transaction user password now o accounts =
    let flip = mark_reviewed_if_pending o.id approved now accounts.operators in
    if flip.0 == 0 then throws (app (conflict_error conflict)) else do
      r ← create_user (operator_user user password o) accounts.users
      returns (record accounts { users = r.1; operators = flip.1 })

module _ (h : Hashing) where
  unfoldable pub approve :
      (Accounts → Accounts)
      → ℕ
      → ℕ
      → ℕ
      → ℕ
      → ℕ
      → Accounts
      → Result (Option Operator × Accounts × List Event)
  unfolding find_operator find_user_by_email approve_transaction
  approve meanwhile user salt temp now i accounts = elim (find_operator i accounts.operators) [
    | none ↦ throws (app not_found_error)
    | some o ↦ throw_if (not (is_pending o.status)) (conflict_error conflict) (
        throw_if (is_some (find_user_by_email o.email accounts.users)) (conflict_error conflict) (do
          after ← approve_transaction user (h.hash salt temp) now o (meanwhile accounts)
          returns (
            find_operator i after.operators,
            after,
            operator_approved o.email o.contact_name o.company_name temp ∷ [],
          )))
  ]

unfoldable pub decline :
    (Accounts → Accounts) → ℕ → ℕ → Accounts → Result (Option Operator × Accounts)
unfolding find_operator mark_reviewed_if_pending
decline meanwhile now i accounts = elim (find_operator i accounts.operators) [
  | none ↦ throws (app not_found_error)
  | some o ↦ throw_if (not (is_pending o.status)) (conflict_error conflict) (
      let between = meanwhile accounts in
      let flip = mark_reviewed_if_pending i declined now between.operators in
      throw_if (flip.0 == 0) (conflict_error conflict)
        (returns (find_operator i flip.1, record between { operators = flip.1 })))
]

-- A field that the input leaves out keeps its value.
abbrev or_else : Option ℕ → ℕ → ℕ
or_else none old = old
or_else (some new) old = new

unfoldable pub with_profile : UpdateOperatorProfileInput → Operator → Operator
with_profile d o = record o {
  company_name = or_else d.company_name o.company_name;
  contact_name = or_else d.contact_name o.contact_name;
  phone = or_else d.phone o.phone;
  city = or_else d.city o.city;
  routes = or_else d.routes o.routes;
  fleet_size = or_else d.fleet_size o.fleet_size;
}

unfoldable pub update_my_profile :
    ℕ → UpdateOperatorProfileInput → Accounts → Result (Operator × Accounts)
unfolding find_operator with_profile
update_my_profile i d accounts = elim (find_operator i accounts.operators) [
  | none ↦ throws (app not_found_error)
  | some o ↦ returns (
    with_profile d o,
    record accounts {
      operators = update_many (has_operator_id i) (with_profile d) accounts.operators;
    },
  )
]
