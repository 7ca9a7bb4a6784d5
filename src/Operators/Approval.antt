-- ===== src/Operators/Approval.antt =====
-- An approval from the review to the first login, and reviews that overlap.
use transhub.Prelude.{
  ℕ, ◌≡◌, refl, ◌∙◌, inl, inr, true, false, none, some, List, [], ◌∷◌, is_some, find_first-none,
  count_where-none, count_where-zero, IsKeyed, All-In, find_first-update, count_where-guarded,
  arith, Bool-cases, ==_refl, update_many, count_where, find_first, find_first-some,
}
use transhub.Errors.{Ensures-returns, returns, throws}
use transhub.Errors.{app, conflict_error, conflict}
use transhub.Accounts.{
  Accounts, Operator, approved, is_pending, create_user, find_operator, find_user,
  find_user_by_email, is_reviewable, reviewed, mark_reviewed_if_pending, has_operator_id,
  clashes_with, has_user_id, has_email, to_auth_user,
}
use transhub.Accounts.Hashing.{Hashing}
use transhub.Auth.{login}
use transhub.Operators.{operator_user, approve_transaction, operator_approved, approve, decline}
use transhub.Operators.Linked.{
  IsLinked, HasItsUser, links_to, pending_not_approved, reviewable_id, approve_transaction-IsLinked,
}

-- No account is in the way of the one that an approval creates.
no_clash :
    (user password : ℕ) (o : Operator) (accounts : Accounts)
    → IsLinked accounts
    → find_operator o.id accounts.operators ≡ some o
    → is_pending o.status ≡ true
    → find_user_by_email o.email accounts.users ≡ none
    → find_user user accounts.users ≡ none
    → count_where (clashes_with (operator_user user password o)) accounts.users ≡ 0
unfolding find_operator find_user_by_email find_user operator_user
no_clash user password o accounts ok found wait email id =
    let known = find_first-some (has_operator_id o.id) accounts.operators o found in
    let unlinked =
      rw (pending_not_approved o.status wait) at
        (All-In (HasItsUser accounts.users) accounts.operators o ok.linked known.0) in
    count_where-none (clashes_with (operator_user user password o)) accounts.users (λ v m.
      rw
        (
          find_first-none (has_user_id user) accounts.users v id m,
          find_first-none (has_email o.email) accounts.users v email m,
        )
        (count_where-zero (links_to o.id) accounts.users v unlinked m))

-- The state after an approval.
abbrev approved_to : ℕ → ℕ → ℕ → Operator → Accounts → Accounts
approved_to user password now o accounts = record accounts {
  users = operator_user user password o ∷ accounts.users;
  operators = update_many (is_reviewable o.id) (reviewed approved now) accounts.operators;
}

approve_transaction_lem :
    (user password now : ℕ) (o : Operator) (accounts : Accounts)
    → IsLinked accounts
    → find_operator o.id accounts.operators ≡ some o
    → is_pending o.status ≡ true
    → find_user_by_email o.email accounts.users ≡ none
    → find_user user accounts.users ≡ none
    → approve_transaction user password now o accounts
      ≡ returns (approved_to user password now o accounts)
unfolding approve_transaction mark_reviewed_if_pending create_user find_operator
approve_transaction_lem user password now o accounts ok found wait email id =
    let one =
      count_where-guarded (λ (y : Operator). y.id) o.id (is_reviewable o.id) accounts.operators o
        (reviewable_id o.id) ok.keyed found in
    let clear = no_clash user password o accounts ok found wait email id in
    rw (approve_transaction, mark_reviewed_if_pending, one, create_user, clear, ==_refl o.id, wait)
      refl

-- The company as a read finds it after the approval.
find_approved :
    (now : ℕ) (o : Operator) (operators : List Operator)
    → find_operator o.id operators ≡ some o
    → is_pending o.status ≡ true
    → find_operator o.id (update_many (is_reviewable o.id) (reviewed approved now) operators)
      ≡ some (reviewed approved now o)
unfolding find_operator
find_approved now o operators found wait =
    find_first-update (λ (y : Operator). y.id) o.id (is_reviewable o.id) (reviewed approved now)
      operators o (λ y. refl) found
    ∙ rw (==_refl o.id, wait) refl

-- A company that a read finds reviewed is not reviewed again.
approve_reviewed :
    (h : Hashing) (meanwhile : Accounts → Accounts) (user salt temp now i : ℕ) (o : Operator)
    (accounts : Accounts)
    → find_operator i accounts.operators ≡ some o
    → is_pending o.status ≡ false
    → approve h meanwhile user salt temp now i accounts ≡ throws (app (conflict_error conflict))
unfolding approve
approve_reviewed h meanwhile user salt temp now i o accounts found over =
    rw (approve, found, over) refl

decline_reviewed :
    (meanwhile : Accounts → Accounts) (now i : ℕ) (o : Operator) (accounts : Accounts)
    → find_operator i accounts.operators ≡ some o
    → is_pending o.status ≡ false
    → decline meanwhile now i accounts ≡ throws (app (conflict_error conflict))
unfolding decline
decline_reviewed meanwhile now i o accounts found over = rw (decline, found, over) refl

not_reviewable : (i : ℕ) (o : Operator) → is_pending o.status ≡ false → is_reviewable i o ≡ false
not_reviewable i o over = ground (arith, over)

module _ (h : Hashing) where
  -- A pending application of which neither the email nor the new id is an account's, in a state in which
  -- accounts and companies are linked: the approval returns the company as approved, mails the temporary
  -- password to its address, keeps the link, and leaves one account, as which the address logs in with
  -- that password, an operator of the company; a second approval and a refusal are conflicts.
  pub approve_then_login :
      (user salt temp now dummy : ℕ) (o : Operator) (accounts : Accounts)
      → IsLinked accounts
      → find_operator o.id accounts.operators ≡ some o
      → is_pending o.status ≡ true
      → find_user_by_email o.email accounts.users ≡ none
      → find_user user accounts.users ≡ none
      → (after : Accounts) × (approve h (λ s. s) user salt temp now o.id accounts
          ≡ returns (
            some (reviewed approved now o),
            after,
            operator_approved o.email o.contact_name o.company_name temp ∷ [],
          ))
        × IsLinked after
        × (login h dummy o.email temp after
            ≡ returns (to_auth_user (operator_user user (h.hash salt temp) o)))
        × ((user2 salt2 temp2 now2 : ℕ)
            → approve h (λ s. s) user2 salt2 temp2 now2 o.id after
              ≡ throws (app (conflict_error conflict)))
        × ((now2 : ℕ) → decline (λ s. s) now2 o.id after ≡ throws (app (conflict_error conflict)))
  unfolding approve approve_transaction mark_reviewed_if_pending create_user login find_operator
      find_user_by_email find_first
  approve_then_login user salt temp now dummy o accounts ok found wait email id =
      let password = h.hash salt temp in
      let after = approved_to user password now o accounts in
      let done = approve_transaction_lem user password now o accounts ok found wait email id in
      let read = find_approved now o accounts.operators found wait in
      (
        after,
        rw (approve, found, wait, email, done, read) refl,
        Ensures-returns IsLinked (approve_transaction user password now o accounts) after done
            (approve_transaction-IsLinked user password now o accounts ok),
        rw (login, ==_refl o.email, h.verify_own salt temp) refl,
        λ user2 salt2 temp2 now2.
            approve_reviewed h (λ s. s) user2 salt2 temp2 now2 o.id (reviewed approved now o) after
              read refl,
        λ now2. decline_reviewed (λ s. s) now2 o.id (reviewed approved now o) after read refl,
      )

  -- Reviews that overlap: if the company that a review has read is not pending any more when its
  -- transaction begins, the review is a conflict, approval or refusal, so no account is created.
  reviews_raced :
      (meanwhile : Accounts → Accounts) (user salt temp now : ℕ) (o o2 : Operator)
      (accounts : Accounts)
      → find_operator o.id accounts.operators ≡ some o
      → IsKeyed (λ (x : Operator). x.id) (meanwhile accounts).operators
      → find_operator o.id (meanwhile accounts).operators ≡ some o2
      → is_pending o2.status ≡ false
      → (approve h meanwhile user salt temp now o.id accounts
          ≡ throws (app (conflict_error conflict)))
        × (decline meanwhile now o.id accounts ≡ throws (app (conflict_error conflict)))
  unfolding approve decline approve_transaction mark_reviewed_if_pending find_operator
  reviews_raced meanwhile user salt temp now o o2 accounts found keyed later over =
      let zero_count : count_where (is_reviewable o.id) (meanwhile accounts).operators ≡ 0 =
        count_where-guarded (λ (x : Operator). x.id) o.id (is_reviewable o.id)
          (meanwhile accounts).operators o2 (reviewable_id o.id) keyed later
        ∙ rw (not_reviewable o.id o2 over) refl in
      elim (Bool-cases (is_pending o.status)) [
        | inr w ↦ (
          approve_reviewed h meanwhile user salt temp now o.id o accounts found w,
          decline_reviewed meanwhile now o.id o accounts found w,
        )
        | inl w ↦ (
          elim (Bool-cases (is_some (find_user_by_email o.email accounts.users))) [
            | inl t ↦ rw (approve, found, w, t) refl
            | inr t ↦
                rw (approve, found, w, t, approve_transaction, mark_reviewed_if_pending, zero_count)
                  refl
          ],
          rw (decline, found, w, mark_reviewed_if_pending, zero_count) refl,
        )
      ]
