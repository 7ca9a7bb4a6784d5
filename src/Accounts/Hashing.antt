-- ===== src/Accounts/Hashing.antt =====
-- argon2 and SHA-256 as the code relies on them: interfaces of operations, and the laws of argon2.
use transhub.Prelude.{ℕ, ◌≡◌, ◌≢◌, Bool, true, false}

-- A password's hash is made with a salt; a hash verifies the password that it is made of and no other.
pub record Hashing : Type 0 where
  pub hash : ℕ → ℕ → ℕ
  pub verify : ℕ → ℕ → Bool
  pub verify_own : (salt password : ℕ) → verify (hash salt password) password ≡ true
  pub verify_other :
      (salt password other : ℕ) → password ≢ other → verify (hash salt password) other ≡ false

-- The digest of a reset token.
pub record Digest : Type 0 where
  pub digest : ℕ → ℕ
