-- ===== src/Auth/Reset.antt =====
-- A forgotten password from the request of the link to the logins after it.
use transhub.Prelude.{
  ℕ, ◌+◌, ◌≤◌, ◌≡◌, ◌≢◌, refl, ◌∙◌, subst, true, false, not, none, some, [], ◌∷◌, ◌==◌,
  if◌then◌else◌, is_some, find_many, find_first-update_many, is_some-find_first, find_first-dropped,
  find_first-none, find_first-find_many-none, le→ltb, IsKeyed, In, arith, ==_refl, update_many,
  find_first, find_first-some,
}
use transhub.Errors.{returns, throws}
use transhub.Errors.{app, unauthorized_error, validation_error}
use transhub.Accounts.{
  Accounts, User, ResetToken, to_auth_user, find_user_by_email, find_user, update_password,
  find_reset_token_by_hash, delete_reset_tokens_for_user, create_reset_token, has_user_id,
  has_email,
}
use transhub.Accounts.Hashing.{Hashing, Digest}
use transhub.Auth.{login, reset_password, request_password_reset, reset_link, password_reset_ttl_ms}

-- The token that a request writes.
abbrev pub issued : Digest → ℕ → ℕ → User → ResetToken
issued g now raw u = record {
  user_id = u.id;
  token_hash = g.digest raw;
  expires_at = now + password_reset_ttl_ms;
  used_at = none;
}

abbrev pub requested : Digest → ℕ → ℕ → User → Accounts → Accounts
unfolding delete_reset_tokens_for_user
requested g now raw u accounts = record accounts {
  reset_tokens = issued g now raw u ∷ delete_reset_tokens_for_user u.id accounts.reset_tokens;
}

==_flip : (a b : ℕ) → (a == b) ≡ false → (b == a) ≡ false
==_flip a b h = ground (arith, h)

-- What a reset leaves.
abbrev pub reset_to : Hashing → ℕ → ℕ → ℕ → Accounts → Accounts
reset_to h salt i new accounts = record accounts {
  users = update_password i (h.hash salt new) accounts.users;
  reset_tokens = delete_reset_tokens_for_user i accounts.reset_tokens;
}

request_password_reset_lem :
    (g : Digest) (now raw email : ℕ) (accounts : Accounts) (u : User)
    → find_user_by_email email accounts.users ≡ some u
    → find_reset_token_by_hash (g.digest raw) accounts.reset_tokens ≡ none
    → request_password_reset g now raw email accounts
      ≡ returns (requested g now raw u accounts, reset_link u.email raw ∷ [])
unfolding request_password_reset create_reset_token find_reset_token_by_hash
    delete_reset_tokens_for_user
request_password_reset_lem g now raw email accounts u found fresh =
    let gone =
      find_first-find_many-none (λ t. t.token_hash == g.digest raw) (λ t. not (t.user_id == u.id))
        accounts.reset_tokens fresh in
    rw
      (
        request_password_reset, found, create_reset_token, find_reset_token_by_hash,
        delete_reset_tokens_for_user, gone,
      )
      refl

module _ (h : Hashing) (g : Digest) where
  -- A token that is known, unused and not expired, of a user who exists, is redeemed.
  reset_password_lem :
      (meanwhile : Accounts → Accounts) (salt now raw new : ℕ) (accounts : Accounts)
      (t : ResetToken)
      → find_reset_token_by_hash (g.digest raw) accounts.reset_tokens ≡ some t
      → t.used_at ≡ none
      → now ≤ t.expires_at
      → is_some (find_user t.user_id (meanwhile accounts).users) ≡ true
      → reset_password h g meanwhile salt now raw new accounts
        ≡ returns (reset_to h salt t.user_id new (meanwhile accounts))
  unfolding reset_password
  reset_password_lem meanwhile salt now raw new accounts t found unused live exists =
      rw (reset_password, found, unused, exists, le→ltb t.expires_at now live) refl

  -- A reset with a token that no row has.
  reset_password_unknown :
      (meanwhile : Accounts → Accounts) (salt now raw new : ℕ) (accounts : Accounts)
      → find_reset_token_by_hash (g.digest raw) accounts.reset_tokens ≡ none
      → reset_password h g meanwhile salt now raw new accounts ≡ throws (app validation_error)
  unfolding reset_password
  reset_password_unknown meanwhile salt now raw new accounts gone = rw (reset_password, gone) refl

  -- A login after a change of the password of the user that has the id.
  login_after :
      (dummy email salt new password : ℕ) (accounts : Accounts) (u : User)
      → find_user_by_email email accounts.users ≡ some u
      → login h dummy email password (reset_to h salt u.id new accounts) ≡ (
          if h.verify (h.hash salt new) password
          then returns (to_auth_user u)
          else throws (app unauthorized_error))
  unfolding login find_user_by_email update_password to_auth_user
  login_after dummy email salt new password accounts u found =
      let read =
        find_first-update_many (has_email email) (has_user_id u.id)
          (λ v. record v { password = h.hash salt new }) accounts.users u (λ x. refl) found in
      rw (login, find_user_by_email, update_password, read, ==_refl u.id) refl

  -- Once the tokens of the user are removed, no row has the digest.
  spent :
      (now raw : ℕ) (accounts : Accounts) (u : User)
      → find_reset_token_by_hash (g.digest raw) accounts.reset_tokens ≡ none
      → find_reset_token_by_hash
          (g.digest raw)
          (delete_reset_tokens_for_user u.id (requested g now raw u accounts).reset_tokens)
        ≡ none
  unfolding requested find_reset_token_by_hash delete_reset_tokens_for_user find_many
  spent now raw accounts u fresh =
      let theirs = λ (t : ResetToken). not (t.user_id == u.id) in
      let has_hash = λ (t : ResetToken). t.token_hash == g.digest raw in
      let left = find_many theirs accounts.reset_tokens in
      rw (==_refl u.id) (
        find_first-find_many-none has_hash theirs left
          (find_first-find_many-none has_hash theirs accounts.reset_tokens fresh))

  -- Of a user whose email is known and a raw token that no row has the digest of: the request returns
  -- and mails the token to the user's address; redeemed within the hour, it resets the password, after
  -- which the new password logs the user in, every other password is refused, and the token cannot be
  -- redeemed again.
  pub forgotten_password :
      (dummy now later salt raw email new : ℕ) (accounts : Accounts) (u : User)
      → find_user_by_email email accounts.users ≡ some u
      → find_reset_token_by_hash (g.digest raw) accounts.reset_tokens ≡ none
      → later ≤ now + password_reset_ttl_ms
      → (after : Accounts) × (final : Accounts) × (request_password_reset g now raw email accounts
          ≡ returns (after, reset_link u.email raw ∷ []))
        × (reset_password h g (λ a. a) salt later raw new after ≡ returns final)
        × (login h dummy email new final ≡ returns (to_auth_user u))
        × ((old : ℕ) → new ≢ old → login h dummy email old final ≡ throws (app unauthorized_error))
        × ((salt2 later2 again : ℕ)
            → reset_password h g (λ a. a) salt2 later2 raw again final
              ≡ throws (app validation_error))
  unfolding requested find_user_by_email find_user find_reset_token_by_hash
      delete_reset_tokens_for_user find_first
  forgotten_password dummy now later salt raw email new accounts u found fresh soon =
      let after = requested g now raw u accounts in
      let known = find_first-some (has_email email) accounts.users u found in
      (
        after,
        reset_to h salt u.id new after,
        request_password_reset_lem g now raw email accounts u found fresh,
        reset_password_lem (λ a. a) salt later raw new after (issued g now raw u)
            (rw (==_refl (g.digest raw)) refl) refl soon
            (is_some-find_first (has_user_id u.id) accounts.users u known.0 (==_refl u.id)),
        rw (login_after dummy email salt new new after u found, h.verify_own salt new) refl,
        λ old ne.
            rw (login_after dummy email salt new old after u found, h.verify_other salt new old ne)
              refl,
        λ salt2 later2 again.
            reset_password_unknown (λ a. a) salt2 later2 raw again (reset_to h salt u.id new after)
              (spent now raw accounts u fresh),
      )

  -- An older token of the user is not found after the request.
  superseded :
      (now raw older : ℕ) (accounts : Accounts) (u : User) (t : ResetToken)
      → find_reset_token_by_hash (g.digest raw) accounts.reset_tokens ≡ none
      → IsKeyed (λ (r : ResetToken). r.token_hash) accounts.reset_tokens
      → In t accounts.reset_tokens
      → t.user_id ≡ u.id
      → t.token_hash ≡ g.digest older
      → find_reset_token_by_hash (g.digest older) (requested g now raw u accounts).reset_tokens
        ≡ none
  unfolding requested find_reset_token_by_hash delete_reset_tokens_for_user find_first
  superseded now raw older accounts u t fresh keyed m own hash =
      let differs =
        find_first-none (λ (r : ResetToken). r.token_hash == g.digest raw) accounts.reset_tokens t
          fresh m in
      let theirs = λ (r : ResetToken). not (r.user_id == u.id) in
      let gone =
        find_first-dropped (λ (r : ResetToken). r.token_hash) theirs accounts.reset_tokens t keyed m
          (rw (own, ==_refl u.id) refl) in
      subst (λ k. find_reset_token_by_hash k (requested g now raw u accounts).reset_tokens ≡ none)
        hash (rw (==_flip t.token_hash (g.digest raw) differs) gone)

  -- A request for a user whose address has links already, with a token of another digest: it returns,
  -- and from then on every link that was sent to the user before is refused, whenever it is redeemed.
  newest_link_only :
      (now salt later raw older new email : ℕ) (accounts : Accounts) (u : User) (t : ResetToken)
      → find_user_by_email email accounts.users ≡ some u
      → find_reset_token_by_hash (g.digest raw) accounts.reset_tokens ≡ none
      → IsKeyed (λ (r : ResetToken). r.token_hash) accounts.reset_tokens
      → In t accounts.reset_tokens
      → t.user_id ≡ u.id
      → t.token_hash ≡ g.digest older
      → (after : Accounts) × (request_password_reset g now raw email accounts
          ≡ returns (after, reset_link u.email raw ∷ []))
        × (reset_password h g (λ a. a) salt later older new after ≡ throws (app validation_error))
  newest_link_only now salt later raw older new email accounts u t found fresh keyed m own hash =
      let after = requested g now raw u accounts in
      (
        after,
        request_password_reset_lem g now raw email accounts u found fresh,
        reset_password_unknown (λ a. a) salt later older new after
            (superseded now raw older accounts u t fresh keyed m own hash),
      )

  -- Two resets with one token that overlap, the second writing between the first's lookup and its
  -- write: both return, and the password is the first's. The token is not single use under a race.
  reset_raced :
      (salt salt2 now raw new other : ℕ) (accounts : Accounts) (t : ResetToken) (u : User)
      → find_reset_token_by_hash (g.digest raw) accounts.reset_tokens ≡ some t
      → t.used_at ≡ none
      → now ≤ t.expires_at
      → find_user t.user_id accounts.users ≡ some u
      → (second : Accounts) × (both : Accounts) × (reset_password h g
            (λ a. a)
            salt2
            now
            raw
            other
            accounts
          ≡ returns second)
        × (reset_password h g (λ a. second) salt now raw new accounts ≡ returns both)
        × (find_user t.user_id both.users ≡ some (record u { password = h.hash salt new }))
  unfolding find_user update_password
  reset_raced salt salt2 now raw new other accounts t u found unused live exists =
      let set = λ (s p : ℕ) (v : User). record v { password = h.hash s p } in
      let own = (find_first-some (has_user_id t.user_id) accounts.users u exists).1 in
      let read =
        find_first-update_many (has_user_id t.user_id) (has_user_id t.user_id) (set salt2 other)
          accounts.users u (λ x. refl) exists in
      let second = reset_to h salt2 t.user_id other accounts in
      (
        second,
        reset_to h salt t.user_id new second,
        reset_password_lem (λ a. a) salt2 now raw other accounts t found unused live
            (rw exists refl),
        reset_password_lem (λ a. second) salt now raw new accounts t found unused live
            (rw read refl),
        (find_first-update_many (has_user_id t.user_id) (has_user_id t.user_id) (set salt new)
              (update_many (has_user_id t.user_id) (set salt2 other) accounts.users)
              (set salt2 other u) (λ x. refl) (read ∙ rw own refl))
            ∙ rw own refl,
      )
