-- ===== src/Operators/Requests.antt =====
-- Sequences of requests to the companies and the accounts, and the link that they keep.
use transhub.Prelude.{
  ℕ, refl, sym, inl, inr, none, List, [], ◌∷◌, ◌==◌, ltb, is_some, count_where-update_many, arith,
  Bool-cases, Option-cases, count_where,
}
use transhub.Errors.{Result, returns, throws, Ensures}
use transhub.Errors.{Ensures-bind}
use transhub.Accounts.{
  Accounts, User, declined, is_pending, create_user, update_password, find_operator,
  find_operator_by_email, find_reset_token_by_hash, delete_reset_tokens_for_user, is_reviewable,
  reviewed, mark_reviewed_if_pending, has_operator_id, clashes_with, has_user_id, find_user,
  find_user_by_email,
}
use transhub.Accounts.Hashing.{Hashing, Digest}
use transhub.Auth.{RegisterInput, register, reset_password}
use transhub.Roles.{passenger}
use transhub.Operators.{
  RegisterOperatorInput, UpdateOperatorProfileInput, new_operator, create_operator, with_profile,
  approve_transaction, register_operator, operator_approved, approve, decline, update_my_profile,
}
use transhub.Operators.Linked.{
  IsLinked, links_to, approve_transaction-IsLinked, operators-IsLinked, users-IsLinked,
  application-IsLinked, pending_not_approved, reviewable_pending,
}

approve-IsLinked :
    (h : Hashing) (meanwhile : Accounts → Accounts) (user salt temp now i : ℕ) (accounts : Accounts)
    → IsLinked (meanwhile accounts)
    → Ensures (λ r. IsLinked r.1) (approve h meanwhile user salt temp now i accounts)
unfolding approve
approve-IsLinked h meanwhile user salt temp now i accounts ok =
    elim (Option-cases (find_operator i accounts.operators)) [
      | inl e ↦ rw (approve, e) tt
      | inr (o, e) ↦ elim (Bool-cases (is_pending o.status)) [
        | inr p ↦ rw (approve, e, p) tt
        | inl p ↦ elim (Bool-cases (is_some (find_user_by_email o.email accounts.users))) [
          | inl t ↦ rw (approve, e, p, t) tt
          | inr t ↦
              rw (approve, e, p, t)
                (Ensures-bind IsLinked (λ r. IsLinked r.1)
                  (approve_transaction user (h.hash salt temp) now o (meanwhile accounts))
                  (λ after. returns (
                    find_operator i after.operators,
                    after,
                    operator_approved o.email o.contact_name o.company_name temp ∷ [],
                  ))
                  (approve_transaction-IsLinked user (h.hash salt temp) now o (meanwhile accounts)
                    ok)
                  (λ after l. l))
        ]
      ]
    ]

decline-IsLinked :
    (meanwhile : Accounts → Accounts) (now i : ℕ) (accounts : Accounts)
    → IsLinked (meanwhile accounts)
    → Ensures (λ r. IsLinked r.1) (decline meanwhile now i accounts)
unfolding decline mark_reviewed_if_pending
decline-IsLinked meanwhile now i accounts ok =
    elim (Option-cases (find_operator i accounts.operators)) [
      | inl e ↦ rw (decline, e) tt
      | inr (o, e) ↦ elim (Bool-cases (is_pending o.status)) [
        | inr p ↦ rw (decline, e, p) tt
        | inl p ↦
            elim (Bool-cases (count_where (is_reviewable i) (meanwhile accounts).operators == 0)) [
              | inl c ↦ rw (decline, e, p, mark_reviewed_if_pending, c) tt
              | inr c ↦
                  rw (decline, e, p, mark_reviewed_if_pending, c)
                    (operators-IsLinked (is_reviewable i) (reviewed declined now)
                      (meanwhile accounts) (λ x. refl)
                      (λ x r. sym (pending_not_approved x.status (reviewable_pending i x r))) ok)
            ]
      ]
    ]

update_my_profile-IsLinked :
    (i : ℕ) (d : UpdateOperatorProfileInput) (accounts : Accounts)
    → IsLinked accounts
    → Ensures (λ r. IsLinked r.1) (update_my_profile i d accounts)
unfolding update_my_profile with_profile
update_my_profile-IsLinked i d accounts ok =
    elim (Option-cases (find_operator i accounts.operators)) [
      | inl e ↦ rw (update_my_profile, e) tt
      | inr (o, e) ↦
          rw (update_my_profile, e)
            (operators-IsLinked (has_operator_id i) (with_profile d) accounts (λ x. refl)
              (λ x r. refl) ok)
    ]

-- The rows stay as they are if the create fails, and get one more that no row has the key of if not.
register_operator-IsLinked :
    (meanwhile : Accounts → Accounts) (i : ℕ) (d : RegisterOperatorInput) (accounts : Accounts)
    → IsLinked (meanwhile accounts)
    → Ensures (λ r. IsLinked r.1) (register_operator meanwhile i d accounts)
unfolding register_operator create_operator new_operator
register_operator-IsLinked meanwhile i d accounts ok =
    let between = meanwhile accounts in
    elim (Bool-cases (is_some (find_operator_by_email d.email accounts.operators))) [
      | inl e ↦ rw (register_operator, e) tt
      | inr e ↦ elim (Option-cases (find_operator i between.operators)) [
        | inr (w, f) ↦ rw (register_operator, e, create_operator, new_operator, f) tt
        | inl f ↦ elim (Bool-cases (is_some (find_operator_by_email d.email between.operators))) [
          | inl g ↦ rw (register_operator, e, create_operator, new_operator, f, g) tt
          | inr g ↦
              rw (register_operator, e, create_operator, new_operator, f, g)
                (application-IsLinked (new_operator i d) between f refl ok)
        ]
      ]
    ]

abbrev new_user : ℕ → ℕ → RegisterInput → User
new_user password i d = record {
  id = i;
  email = d.email;
  password = password;
  full_name = d.full_name;
  phone = d.phone;
  role = passenger;
  operator_id = none;
}

register-IsLinked :
    (h : Hashing) (salt i : ℕ) (d : RegisterInput) (accounts : Accounts)
    → IsLinked accounts
    → Ensures (λ r. IsLinked r.1) (register h (λ users. users) salt i d accounts)
unfolding register create_user count_where
register-IsLinked h salt i d accounts ok =
    let u = new_user (h.hash salt d.password) i d in
    elim (Bool-cases (is_some (find_user_by_email d.email accounts.users))) [
      | inl e ↦ rw (register, e) tt
      | inr e ↦ elim (Bool-cases (count_where (clashes_with u) accounts.users == 0)) [
        | inr c ↦ rw (register, e, create_user, c) tt
        | inl c ↦
            rw (register, e, create_user, c)
              (users-IsLinked (u ∷ accounts.users) accounts.reset_tokens accounts (λ j. omega arith)
                ok)
      ]
    ]

reset_password-IsLinked :
    (h : Hashing) (g : Digest) (salt now raw new : ℕ) (accounts : Accounts)
    → IsLinked accounts
    → Ensures IsLinked (reset_password h g (λ a. a) salt now raw new accounts)
unfolding reset_password update_password
reset_password-IsLinked h g salt now raw new accounts ok =
    elim (Option-cases (find_reset_token_by_hash (g.digest raw) accounts.reset_tokens)) [
      | inl e ↦ rw (reset_password, e) tt
      | inr (t, e) ↦ elim (Bool-cases (is_some t.used_at)) [
        | inl u ↦ rw (reset_password, e, u) tt
        | inr u ↦ elim (Bool-cases (ltb t.expires_at now)) [
          | inl l ↦ rw (reset_password, e, u, l) tt
          | inr l ↦ elim (Bool-cases (is_some (find_user t.user_id accounts.users))) [
            | inr f ↦ rw (reset_password, e, u, l, f) tt
            | inl f ↦
                rw (reset_password, e, u, l, f)
                  (users-IsLinked (update_password t.user_id (h.hash salt new) accounts.users)
                    (delete_reset_tokens_for_user t.user_id accounts.reset_tokens) accounts
                    (λ i.
                      count_where-update_many (links_to i) (has_user_id t.user_id)
                        (λ v. record v { password = h.hash salt new }) accounts.users (λ x r. refl))
                    ok)
          ]
        ]
      ]
    ]

-- The requests that write companies or accounts, with what the server draws and reads for them.
pub data Request : Type 0 where
  apply : ℕ → RegisterOperatorInput → Request
  approval : ℕ → ℕ → ℕ → ℕ → ℕ → Request
  refusal : ℕ → ℕ → Request
  profile : ℕ → UpdateOperatorProfileInput → Request
  sign_up : ℕ → ℕ → RegisterInput → Request
  reset : ℕ → ℕ → ℕ → ℕ → Request

-- The state afterwards: a throw leaves it as it was.
abbrev state_after : {A : Type 0} → (A → Accounts) → Accounts → Result A → Accounts
state_after f old (throws t) = old
state_after f old (returns a) = f a

unfoldable pub serve : Hashing → Digest → Request → Accounts → Accounts
unfolding register_operator approve decline update_my_profile register reset_password
serve h g (apply i d) a = state_after (λ r. r.1) a (register_operator (λ s. s) i d a)
serve h g (approval user salt temp now i) a =
    state_after (λ r. r.1) a (approve h (λ s. s) user salt temp now i a)
serve h g (refusal now i) a = state_after (λ r. r.1) a (decline (λ s. s) now i a)
serve h g (profile i d) a = state_after (λ r. r.1) a (update_my_profile i d a)
serve h g (sign_up salt i d) a = state_after (λ r. r.1) a (register h (λ s. s) salt i d a)
serve h g (reset salt now raw new) a =
    state_after (λ r. r) a (reset_password h g (λ s. s) salt now raw new a)

unfoldable pub serve_all : Hashing → Digest → List Request → Accounts → Accounts
unfolding serve
serve_all h g [] a = a
serve_all h g (r ∷ rs) a = serve_all h g rs (serve h g r a)

state_after-IsLinked :
    {A : Type 0} (f : A → Accounts) (old : Accounts) (m : Result A)
    → IsLinked old
    → Ensures (λ r. IsLinked (f r)) m
    → IsLinked (state_after f old m)
state_after-IsLinked f old (throws t) ok h = ok
state_after-IsLinked f old (returns a) ok h = h

serve-IsLinked :
    (h : Hashing) (g : Digest) (r : Request) (a : Accounts) → IsLinked a → IsLinked (serve h g r a)
unfolding serve
serve-IsLinked h g (apply i d) a ok =
    state_after-IsLinked (λ r. r.1) a (register_operator (λ s. s) i d a) ok
      (register_operator-IsLinked (λ s. s) i d a ok)
serve-IsLinked h g (approval user salt temp now i) a ok =
    state_after-IsLinked (λ r. r.1) a (approve h (λ s. s) user salt temp now i a) ok
      (approve-IsLinked h (λ s. s) user salt temp now i a ok)
serve-IsLinked h g (refusal now i) a ok =
    state_after-IsLinked (λ r. r.1) a (decline (λ s. s) now i a) ok
      (decline-IsLinked (λ s. s) now i a ok)
serve-IsLinked h g (profile i d) a ok =
    state_after-IsLinked (λ r. r.1) a (update_my_profile i d a) ok
      (update_my_profile-IsLinked i d a ok)
serve-IsLinked h g (sign_up salt i d) a ok =
    state_after-IsLinked (λ r. r.1) a (register h (λ s. s) salt i d a) ok
      (register-IsLinked h salt i d a ok)
serve-IsLinked h g (reset salt now raw new) a ok =
    state_after-IsLinked (λ r. r) a (reset_password h g (λ s. s) salt now raw new a) ok
      (reset_password-IsLinked h g salt now raw new a ok)

-- From a state in which ids of companies are unique, each approved company has exactly one account
-- linked to it, each other company none, and no account is linked to a company that is not there,
-- every sequence of applications, approvals, refusals, profile changes, registrations and password
-- resets, whether they return or throw, leads to such a state again.
pub serve_all-IsLinked :
    (h : Hashing) (g : Digest) (rs : List Request) (a : Accounts)
    → IsLinked a
    → IsLinked (serve_all h g rs a)
unfolding serve_all
serve_all-IsLinked h g [] a ok = ok
serve_all-IsLinked h g (r ∷ rs) a ok =
    serve_all-IsLinked h g rs (serve h g r a) (serve-IsLinked h g r a ok)
