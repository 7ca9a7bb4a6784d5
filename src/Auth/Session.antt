-- ===== src/Auth/Session.antt =====
-- A session from the login to the identity that is read back for it.
use transhub.Prelude.{
  In, ℕ, ◌≡◌, refl, ap, ◌∙◌, inl, inr, subst, Bool, true, false, some, ◌==◌, IsKeyed, In,
  find_first-of_In, Bool-cases, Option-cases, ==_iff, find_first-some,
}
use transhub.Errors.{returns}
use transhub.Accounts.{
  Accounts, User, Driver, AuthUser, has_email, find_user_by_email, find_user, to_auth_user,
}
use transhub.Accounts.Hashing.{Hashing}
use transhub.Roles.{Role, passenger, operator, admin, driver}
use transhub.Errors.{returns_injective}
use transhub.Auth.{
  login, verify_credentials, me, driver_identity, get_auth_user_by_id, find_driver_by_phone,
}

abbrev is_driver : Role → Bool
is_driver driver = true
is_driver _ = false

-- A role that is no driver's reads the users.
me_as :
    (accounts : Accounts) (u : User) (r : Role) (i : ℕ)
    → is_driver r ≡ false
    → find_user i accounts.users ≡ some u
    → me i r accounts ≡ returns (to_auth_user u)
unfolding me
me_as accounts u passenger i e found = rw (me, found) refl
me_as accounts u operator i e found = rw (me, found) refl
me_as accounts u admin i e found = rw (me, found) refl
me_as accounts u driver i e found = cc

module _ (h : Hashing) where
  login-found :
      (dummy email password : ℕ) (accounts : Accounts) (a : AuthUser)
      → login h dummy email password accounts ≡ returns a
      → (u : User) × In u accounts.users
        × (u.email ≡ email)
        × (h.verify u.password password ≡ true)
        × (to_auth_user u ≡ a)
  unfolding login find_user_by_email to_auth_user
  login-found dummy email password accounts a e =
      elim (Option-cases (find_user_by_email email accounts.users)) [
        | inl q ↦ cc (rw (login, q) at e)
        | inr (u, q) ↦ elim (Bool-cases (h.verify u.password password)) [
          | inl b ↦
              let known = find_first-some (has_email email) accounts.users u q in
              (
                u,
                known.0,
                (==_iff u.email email).0 known.1,
                b,
                returns_injective (rw (login, q, b) at e),
              )
          | inr b ↦ cc (rw (login, q, b) at e)
        ]
      ]

  verify_credentials-found :
      (phone password : ℕ) (accounts : Accounts) (a : AuthUser)
      → verify_credentials h phone password accounts ≡ returns a
      → (d : Driver) × In d accounts.drivers
        × (d.phone ≡ phone)
        × (h.verify d.password password ≡ true)
        × (d.is_active ≡ true)
        × (driver_identity d ≡ a)
  unfolding verify_credentials find_driver_by_phone
  verify_credentials-found phone password accounts a e =
      elim (Option-cases (find_driver_by_phone phone accounts.drivers)) [
        | inl q ↦ cc (rw (verify_credentials, q) at e)
        | inr (d, q) ↦ elim (Bool-cases (h.verify d.password password)) [
          | inl b ↦ elim (Bool-cases d.is_active) [
            | inl c ↦
                let known =
                  find_first-some (λ (x : Driver). x.phone == phone) accounts.drivers d q in
                (
                  d,
                  known.0,
                  (==_iff d.phone phone).0 known.1,
                  b,
                  c,
                  returns_injective (rw (verify_credentials, q, b, c) at e),
                )
            | inr c ↦ cc (rw (verify_credentials, q, b, c) at e)
          ]
          | inr b ↦ cc (rw (verify_credentials, q, b) at e)
        ]
      ]

  me_user :
      (accounts : Accounts) (u : User) (a : AuthUser)
      → IsKeyed (λ (v : User). v.id) accounts.users
      → In u accounts.users
      → to_auth_user u ≡ a
      → is_driver a.role ≡ false
      → me a.id a.role accounts ≡ returns a
  unfolding find_user to_auth_user
  me_user accounts u a keyed m same r =
      let role_of = ap (λ (b : AuthUser). is_driver b.role) same in
      subst (λ (b : AuthUser). me b.id b.role accounts ≡ returns b) same
        (me_as accounts u u.role u.id (role_of ∙ r)
          (find_first-of_In (λ (v : User). v.id) accounts.users u keyed m))

  me_driver :
      (accounts : Accounts) (d : Driver) (a : AuthUser)
      → IsKeyed (λ (v : Driver). v.id) accounts.drivers
      → In d accounts.drivers
      → d.is_active ≡ true
      → driver_identity d ≡ a
      → me a.id a.role accounts ≡ returns a
  unfolding me get_auth_user_by_id
  me_driver accounts d a keyed m active same =
      subst (λ (b : AuthUser). me b.id b.role accounts ≡ returns b) same
        (rw
          (
            get_auth_user_by_id,
            find_first-of_In (λ (v : Driver). v.id) accounts.drivers d keyed m,
            active,
          )
          refl)

  -- Where ids are unique: a login that returns an identity that is no driver's is of a user with the
  -- email whose hash verifies the password, and reading the session back returns the same identity.
  session_of_login :
      (dummy email password : ℕ) (accounts : Accounts) (a : AuthUser)
      → IsKeyed (λ (v : User). v.id) accounts.users
      → login h dummy email password accounts ≡ returns a
      → is_driver a.role ≡ false
      → ((u : User) × In u accounts.users
          × (u.email ≡ email)
          × (h.verify u.password password ≡ true))
        × (me a.id a.role accounts ≡ returns a)
  session_of_login dummy email password accounts a keyed e r =
      let (u, m, address, secret, same) = login-found dummy email password accounts a e in
      ((u, m, address, secret), me_user accounts u a keyed m same r)

  -- Where ids are unique: a driver's login that returns is of an active driver with the phone number
  -- whose hash verifies the password, and reading the session back returns the same identity.
  pub session_of_driver :
      (phone password : ℕ) (accounts : Accounts) (a : AuthUser)
      → IsKeyed (λ (d : Driver). d.id) accounts.drivers
      → verify_credentials h phone password accounts ≡ returns a
      → ((d : Driver) × In d accounts.drivers
          × (d.phone ≡ phone)
          × (h.verify d.password password ≡ true)
          × (d.is_active ≡ true))
        × (me a.id a.role accounts ≡ returns a)
  session_of_driver phone password accounts a keyed e =
      let (d, m, number, secret, active, same) =
        verify_credentials-found phone password accounts a e in
      ((d, m, number, secret, active), me_driver accounts d a keyed m active same)
