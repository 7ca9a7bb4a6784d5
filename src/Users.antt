-- ===== src/Users.antt =====
-- The profile and the password of an account (backend/src/modules/users/users.service.ts). What other
-- requests do between a read and a write is the argument `meanwhile`.
mod Tests
use transhub.Prelude.{
  ℕ, ◌≡◌, ◌≢◌, refl, Bool, true, false, not, ◌&&◌, Option, none, some, List, ◌==◌, if◌then◌else◌,
  is_some, inl, inr, Bool-cases, find_first-update_many, arith, ==_refl, update_many, count_where,
  find_first, find_first-some,
}
use transhub.Errors.{Result, returns, throws, ◌>>=◌, throw_if}
use transhub.Errors.{
  app, prisma_fault, unique_violation, unauthorized_error, validation_error, not_found_error,
  conflict_error, conflict,
}
use transhub.Roles.{Role}
use transhub.Accounts.{
  Accounts, User, AuthUser, to_auth_user, find_user_by_email, find_user, update_password,
  has_user_id, has_email,
}
use transhub.Accounts.Hashing.{Hashing}
use transhub.Auth.{login}

-- The row without its password.
pub record SafeUser : Type 0 where
  pub id : ℕ
  pub email : ℕ
  pub full_name : ℕ
  pub phone : ℕ
  pub role : Role
  pub operator_id : Option ℕ

unfoldable pub to_safe_user : User → SafeUser
to_safe_user u = record {
  id = u.id;
  email = u.email;
  full_name = u.full_name;
  phone = u.phone;
  role = u.role;
  operator_id = u.operator_id;
}

pub record UpdateProfileInput : Type 0 where
  pub name : Option ℕ
  pub email : Option ℕ
  pub phone : Option ℕ

-- `data`, with the fields that are set.
pub record ProfileData : Type 0 where
  pub full_name : Option ℕ
  pub email : Option ℕ
  pub phone : Option ℕ

abbrev pub or_else : Option ℕ → ℕ → ℕ
or_else none old = old
or_else (some new) old = new

unfoldable pub with_profile : ProfileData → User → User
with_profile d u = record u {
  full_name = or_else d.full_name u.full_name;
  email = or_else d.email u.email;
  phone = or_else d.phone u.phone;
}

-- Another row has the email that is written.
abbrev pub is_taken_by : ℕ → Option ℕ → User → Bool
is_taken_by i none u = false
is_taken_by i (some email) u = not (u.id == i) && u.email == email

-- `updateProfile` of the repository, with the unique index on `email`.
unfoldable pub write_profile : ℕ → ProfileData → List User → Result (User × List User)
unfolding with_profile find_user
write_profile i d users = elim (find_user i users) [
  | none ↦ throws prisma_fault
  | some u ↦
      if count_where (is_taken_by i d.email) users == 0
      then returns (with_profile d u, update_many (has_user_id i) (with_profile d) users)
      else throws unique_violation
]

-- The email, if it is given and is not the one that the row has.
abbrev pub changed_email : Option ℕ → User → Option ℕ
changed_email none current = none
changed_email (some email) current = if email == current.email then none else some email

abbrev pub is_email_taken : Option ℕ → List User → Bool
unfolding find_user_by_email
is_email_taken none users = false
is_email_taken (some email) users = is_some (find_user_by_email email users)

unfoldable pub get_profile : ℕ → Accounts → Result SafeUser
unfolding find_user to_safe_user
get_profile i accounts = elim (find_user i accounts.users) [
  | none ↦ throws (app not_found_error)
  | some u ↦ returns (to_safe_user u)
]

unfoldable pub update_profile :
    (List User → List User)
    → ℕ
    → UpdateProfileInput
    → Accounts
    → Result ((SafeUser × AuthUser) × Accounts)
unfolding find_user write_profile to_safe_user to_auth_user
update_profile meanwhile i d accounts = elim (find_user i accounts.users) [
  | none ↦ throws (app not_found_error)
  | some u ↦
      let email = changed_email d.email u in
      throw_if (is_email_taken email accounts.users) (conflict_error conflict) (do
        r ←
            write_profile i (record { full_name = d.name; email = email; phone = d.phone })
              (meanwhile accounts.users)
        returns ((to_safe_user r.0, to_auth_user r.0), record accounts { users = r.1 }))
]

module _ (h : Hashing) where
  unfoldable pub change_password :
      (List User → List User) → ℕ → ℕ → ℕ → ℕ → Accounts → Result Accounts
  unfolding find_user update_password
  change_password meanwhile salt i current new accounts = elim (find_user i accounts.users) [
    | none ↦ throws (app not_found_error)
    | some u ↦ throw_if (not (h.verify u.password current)) validation_error (
        let between = meanwhile accounts.users in
        if is_some (find_user i between)
        then returns (record accounts { users = update_password i (h.hash salt new) between })
        else throws prisma_fault)
  ]

  -- Of a user whom the id and the email find: with a current password that the hash refuses the change
  -- is a bad request; with one that it verifies the change returns, and afterwards the new password
  -- logs the user in and every other password is refused.
  changed_password :
      (dummy salt current new : ℕ) (accounts : Accounts) (u : User)
      → find_user u.id accounts.users ≡ some u
      → find_user_by_email u.email accounts.users ≡ some u
      → (after : Accounts) × (change_password (λ x. x) salt u.id current new accounts
          ≡ (if h.verify u.password current then returns after else throws (app validation_error)))
        × (login h dummy u.email new after ≡ returns (to_auth_user u))
        × ((old : ℕ)
            → new ≢ old
            → login h dummy u.email old after ≡ throws (app unauthorized_error))
  unfolding change_password login find_user find_user_by_email update_password to_auth_user
  changed_password dummy salt current new accounts u found address =
      let set = λ (v : User). record v { password = h.hash salt new } in
      let read =
        find_first-update_many (has_email u.email) (has_user_id u.id) set accounts.users u
          (λ x. refl) address in
      (
        record accounts { users = update_many (has_user_id u.id) set accounts.users },
        elim (Bool-cases (h.verify u.password current)) [
          | inl v ↦ rw (change_password, found, v, found) refl
          | inr v ↦ rw (change_password, found, v) refl
        ],
        rw (login, read, ==_refl u.id, h.verify_own salt new) refl,
        λ old ne. rw (login, read, ==_refl u.id, h.verify_other salt new old ne) refl,
      )
