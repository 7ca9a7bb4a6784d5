-- ===== src/Auth/Tests.antt =====
-- One user with a link that was sent before, one driver, and a hash that computes.
use transhub.Prelude.{
  ℕ, ◌+◌, ◌≡◌, ◌≢◌, refl, true, none, [], ◌∷◌, ◌==◌, ==_ne, arith, ==_refl, find_first,
}
use transhub.Errors.{returns, throws}
use transhub.Errors.{app, unauthorized_error, validation_error}
use transhub.Roles.{passenger}
use transhub.Accounts.{
  Accounts, User, Driver, ResetToken, to_auth_user, find_user_by_email, find_reset_token_by_hash,
}
use transhub.Accounts.Hashing.{Hashing, Digest}
use transhub.Auth.{login, reset_password, request_password_reset, reset_link}
use transhub.Auth.Reset.{forgotten_password}

abbrev pub toy_hashing : Hashing
toy_hashing = record {
  hash = λ salt password. password;
  verify = λ hash password. hash == password;
  verify_own = λ salt password. ==_refl password;
  verify_other = λ salt password other ne. ==_ne password other ne;
}

abbrev pub toy_digest : Digest
toy_digest = record { digest = λ raw. raw + 7 }

abbrev ada : User
ada = record {
  id = 1;
  email = 11;
  password = 5;
  full_name = 100;
  phone = 200;
  role = passenger;
  operator_id = none;
}

abbrev bello : Driver
bello = record {
  id = 1;
  operator_id = 3;
  full_name = 101;
  phone = 201;
  password = 6;
  license_no = none;
  is_active = true;
}

abbrev sent : ResetToken
sent = record { user_id = 1; token_hash = 47; expires_at = 5000; used_at = none }

abbrev accounts : Accounts
accounts = record {
  users = ada ∷ [];
  operators = [];
  drivers = bello ∷ [];
  reset_tokens = sent ∷ [];
}

login_wrong : login toy_hashing 0 11 4 accounts ≡ throws (app unauthorized_error)
unfolding login find_user_by_email find_first
login_wrong = refl

forgotten_password_example :
    (after : Accounts) × (final : Accounts) × (request_password_reset toy_digest 1000 50 11 accounts
      ≡ returns (after, reset_link 11 50 ∷ []))
    × (reset_password toy_hashing toy_digest (λ a. a) 9 2000 50 8 after ≡ returns final)
    × (login toy_hashing 0 11 8 final ≡ returns (to_auth_user ada))
    × ((old : ℕ) → 8 ≢ old → login toy_hashing 0 11 old final ≡ throws (app unauthorized_error))
    × ((salt2 later2 again : ℕ)
        → reset_password toy_hashing toy_digest (λ a. a) salt2 later2 50 again final
          ≡ throws (app validation_error))
unfolding find_user_by_email find_reset_token_by_hash find_first
forgotten_password_example =
    forgotten_password toy_hashing toy_digest 0 1000 2000 9 50 11 8 accounts ada refl refl
      (omega arith)
