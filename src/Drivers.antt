-- ===== src/Drivers.antt =====
-- The drivers of the companies (backend/src/modules/drivers).
mod Tests
use transhub.Prelude.{
  ℕ, zero, suc, ◌+◌, ◌-◌, ◌*◌, ◌/◌, ◌%◌, ◌<◌, ◌≤◌, ◌≡◌, ◌≢◌, ◌↔◌, refl, sym, ap, ◌∙◌, ◌⊎◌, inl, inr,
  subst, Bool, true, false, not, ◌&&◌, ◌||◌, Option, none, some, List, [], ◌∷◌, ◌++◌, ◌==◌, ltb,
  leb, if◌then◌else◌, is_some, is, IsKeyed, find_first-update, find_first-update_many,
  count_where-guarded, find_many, arith, Bool-cases, Option-cases, ==_iff, ==_refl, update_many,
  count_where, find_first, find_first-some,
}
use transhub.Errors.{Result, returns, throws, ◌>>=◌, throw_if, Ensures}
use transhub.Errors.{
  Thrown, app, unique_violation, not_found_error, unauthorized_error, conflict_error, conflict,
}
use transhub.Accounts.{Accounts, Driver, AuthUser}
use transhub.Accounts.Hashing.{Hashing}
use transhub.Roles.{driver}
use transhub.Auth.{find_driver_by_phone, verify_credentials, me, get_auth_user_by_id, has_driver_id}

pub record CreateDriverInput : Type 0 where
  pub full_name : ℕ
  pub phone : ℕ
  pub password : ℕ
  pub license_no : Option ℕ

pub record UpdateDriverInput : Type 0 where
  pub full_name : Option ℕ
  pub license_no : Option ℕ
  pub is_active : Option Bool

unfoldable pub new_driver : ℕ → ℕ → ℕ → CreateDriverInput → Driver
new_driver i operator password d = record {
  id = i;
  operator_id = operator;
  full_name = d.full_name;
  phone = d.phone;
  password = password;
  license_no = d.license_no;
  is_active = true;
}

-- `create`, with the primary key and the unique index on `phone`; nothing catches the violation.
unfoldable pub create_driver :
    Hashing
    → (Accounts → Accounts)
    → ℕ
    → ℕ
    → ℕ
    → CreateDriverInput
    → Accounts
    → Result (Driver × Accounts)
unfolding find_driver_by_phone new_driver
create_driver h meanwhile salt i operator d accounts =
    if is_some (find_driver_by_phone d.phone accounts.drivers)
    then throws (app (conflict_error conflict))
    else let between = meanwhile accounts in
      let row = new_driver i operator (h.hash salt d.password) d in
      if is_some (find_first (has_driver_id i) between.drivers)
        || is_some (find_driver_by_phone d.phone between.drivers)
      then throws unique_violation
      else returns (row, record between { drivers = row ∷ between.drivers })

-- `{ id, operatorId }`.
abbrev pub is_own_driver : ℕ → ℕ → Driver → Bool
is_own_driver i operator d = d.id == i && d.operator_id == operator

abbrev pub or_else : {A : Type 0} → Option A → A → A
or_else none old = old
or_else (some new) old = new

abbrev pub or_kept : Option ℕ → Option ℕ → Option ℕ
or_kept none old = old
or_kept (some new) old = some new

unfoldable pub with_fields : UpdateDriverInput → Driver → Driver
with_fields d x = record x {
  full_name = or_else d.full_name x.full_name;
  license_no = or_kept d.license_no x.license_no;
  is_active = or_else d.is_active x.is_active;
}

-- `update`, and the row that is read back.
unfoldable pub update_driver : ℕ → ℕ → UpdateDriverInput → Accounts → Result (Driver × Accounts)
unfolding with_fields
update_driver i operator d accounts =
    let rows = update_many (is_own_driver i operator) (with_fields d) accounts.drivers in
    if count_where (is_own_driver i operator) accounts.drivers == 0
    then throws (app not_found_error)
    else elim (find_first (has_driver_id i) rows) [
      | none ↦ throws (app not_found_error)
      | some x ↦ returns (x, record accounts { drivers = rows })
    ]

unfoldable pub deactivate : ℕ → ℕ → Accounts → Result Accounts
deactivate i operator accounts =
    if count_where (is_own_driver i operator) accounts.drivers == 0
    then throws (app not_found_error)
    else returns (record accounts {
      drivers =
          update_many (is_own_driver i operator) (λ x. record x { is_active = false })
            accounts.drivers;
    })

own_driver_id :
    (i operator : ℕ) (d : Driver) → is_own_driver i operator d ≡ true → (d.id == i) ≡ true
own_driver_id i operator d h = ground arith

-- A company that deactivates a driver of its own: it returns, and from then on the driver's phone
-- number logs in with no password, and a session that the driver still has is refused when it is read
-- back. Ids are unique, and the phone number finds the driver.
deactivated_locked_out :
    (h : Hashing) (accounts : Accounts) (d : Driver)
    → IsKeyed (λ (x : Driver). x.id) accounts.drivers
    → find_first (has_driver_id d.id) accounts.drivers ≡ some d
    → find_driver_by_phone d.phone accounts.drivers ≡ some d
    → (after : Accounts) × (deactivate d.id d.operator_id accounts ≡ returns after)
      × ((password : ℕ)
          → verify_credentials h d.phone password after ≡ throws (app unauthorized_error))
      × (me d.id driver after ≡ throws (app unauthorized_error))
unfolding deactivate verify_credentials find_driver_by_phone me get_auth_user_by_id
deactivated_locked_out h accounts d keyed found phone =
    let own = is_own_driver d.id d.operator_id in
    let off = λ (x : Driver). record x { is_active = false } in
    let one =
      count_where-guarded (λ (x : Driver). x.id) d.id own accounts.drivers d
        (own_driver_id d.id d.operator_id) keyed found in
    let by_id =
      find_first-update_many (has_driver_id d.id) own off accounts.drivers d (λ x. refl) found in
    let by_phone =
      find_first-update_many (λ (x : Driver). x.phone == d.phone) own off accounts.drivers d
        (λ x. refl) phone in
    let mine : own d ≡ true = rw (==_refl d.id, ==_refl d.operator_id) refl in
    (
      record accounts { drivers = update_many own off accounts.drivers },
      rw (deactivate, one, mine) refl,
      λ password. elim (Bool-cases (h.verify d.password password)) [
        | inl v ↦ rw (verify_credentials, find_driver_by_phone, by_phone, mine, v) refl
        | inr v ↦ rw (verify_credentials, find_driver_by_phone, by_phone, mine, v) refl
      ],
      rw (me, get_auth_user_by_id, by_id, mine) refl,
    )
