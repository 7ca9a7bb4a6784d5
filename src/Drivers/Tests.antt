-- ===== src/Drivers/Tests.antt =====
-- Two drivers of one company, of whom one is deactivated.
use transhub.Prelude.{ℕ, ◌+◌, ◌≡◌, refl, true, none, [], ◌∷◌, find_first}
use transhub.Errors.{returns}
use transhub.Accounts.{Accounts, Driver}
use transhub.Auth.{find_driver_by_phone, verify_credentials, driver_identity}
use transhub.Auth.Tests.{toy_hashing}

abbrev musa : ℕ → Driver
musa i = record {
  id = i;
  operator_id = 3;
  full_name = 100 + i;
  phone = 200 + i;
  password = 6;
  license_no = none;
  is_active = true;
}

abbrev accounts : Accounts
accounts = record { users = []; operators = []; drivers = musa 1 ∷ musa 2 ∷ []; reset_tokens = [] }

-- Before, the driver logs in.
logs_in : verify_credentials toy_hashing 202 6 accounts ≡ returns (driver_identity (musa 2))
unfolding verify_credentials find_driver_by_phone find_first
logs_in = refl
