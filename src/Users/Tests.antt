-- ===== src/Users/Tests.antt =====
-- Two users, of whom one changes the profile and the password.
use transhub.Prelude.{ℕ, ◌+◌, ◌≡◌, refl, none, some, [], ◌∷◌, find_first, update_many, count_where}
use transhub.Errors.{returns, throws}
use transhub.Errors.{app, conflict_error, conflict}
use transhub.Roles.{passenger}
use transhub.Accounts.{Accounts, User, to_auth_user, find_user_by_email, find_user}
use transhub.Users.{to_safe_user, with_profile, update_profile, write_profile}

abbrev chika : ℕ → User
chika i = record {
  id = i;
  email = 10 + i;
  password = 5;
  full_name = 100 + i;
  phone = 200 + i;
  role = passenger;
  operator_id = none;
}

abbrev accounts : Accounts
accounts = record {
  users = chika 1 ∷ chika 2 ∷ [];
  operators = [];
  drivers = [];
  reset_tokens = [];
}

-- The email of another user is refused.
email_taken :
    update_profile (λ x. x) 2 (record { name = none; email = some 11; phone = none }) accounts
    ≡ throws (app (conflict_error conflict))
unfolding update_profile find_user find_user_by_email find_first
email_taken = refl

-- The name is changed; the email that is given is the user's own.
name_changed :
    update_profile (λ x. x) 2 (record { name = some 7; email = some 12; phone = none }) accounts
    ≡ returns (
      (
        to_safe_user (record (chika 2) { full_name = 7 }),
        to_auth_user (record (chika 2) { full_name = 7 }),
      ),
      record accounts { users = chika 1 ∷ record (chika 2) { full_name = 7 } ∷ [] },
    )
unfolding update_profile write_profile with_profile find_user find_user_by_email find_first
    update_many count_where
name_changed = refl
