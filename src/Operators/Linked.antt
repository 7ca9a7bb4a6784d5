-- ===== src/Operators/Linked.antt =====
-- The link between companies and accounts: each approved company has one account, any other none.
use transhub.Prelude.{
  ℕ, ◌≡◌, refl, sym, inl, inr, subst, Bool, true, false, none, some, List, ◌∷◌, ◌==◌, if◌then◌else◌,
  is, IsKeyed, In, All, All-updated, All-update_many, found_unique, find_first-update_none,
  count_where-unfound, count_where-guarded, All-map, Absent-of_find, update_many-IsKeyed, arith,
  Bool-cases, Option-cases, ==_iff, update_many, count_where, find_first,
}
use transhub.Errors.{Ensures}
use transhub.Accounts.{
  ResetToken, Accounts, User, Operator, pending, approved, declined, OperatorStatus, is_approved,
  is_pending, create_user, find_operator, is_reviewable, reviewed, mark_reviewed_if_pending,
  clashes_with,
}
use transhub.Operators.{operator_user, approve_transaction}

abbrev pub links_to : ℕ → User → Bool
links_to i u = is u.operator_id i

abbrev pub HasItsUser : List User → Operator → Type 0
HasItsUser users o = count_where (links_to o.id) users ≡ (if is_approved o.status then 1 else 0)

pub record IsLinked (accounts : Accounts) : Type 0 where
  pub keyed : IsKeyed (λ (o : Operator). o.id) accounts.operators
  pub linked : All (HasItsUser accounts.users) accounts.operators
  pub known :
      (i : ℕ)
      → find_operator i accounts.operators ≡ none
      → count_where (links_to i) accounts.users ≡ 0

pub reviewable_id : (i : ℕ) (o : Operator) → is_reviewable i o ≡ true → (o.id == i) ≡ true
reviewable_id i o r = ground arith

pub reviewable_pending :
    (i : ℕ) (o : Operator) → is_reviewable i o ≡ true → is_pending o.status ≡ true
reviewable_pending i o r = ground arith

-- A flip that counts has found the company, pending.
flip_found :
    (i now : ℕ) (operators : List Operator)
    → IsKeyed (λ (o : Operator). o.id) operators
    → (count_where (is_reviewable i) operators == 0) ≡ false
    → (w : Operator) × (find_operator i operators ≡ some w)
      × (is_pending w.status ≡ true)
      × ((w.id == i) ≡ true)
unfolding find_operator
flip_found i now operators u c = elim (Option-cases (find_operator i operators)) [
  | inl e ↦ cc (
      rw
        (count_where-unfound (λ (o : Operator). o.id) i (is_reviewable i) operators
          (reviewable_id i) e)
        at c)
  | inr (w, e) ↦ elim (Bool-cases (is_reviewable i w)) [
    | inl r ↦ (w, e, reviewable_pending i w r, reviewable_id i w r)
    | inr r ↦ cc (
        rw
          (
            count_where-guarded (λ (o : Operator). o.id) i (is_reviewable i) operators w
                (reviewable_id i) u e,
            r,
          )
          at c)
  ]
]

pub pending_not_approved : (s : OperatorStatus) → is_pending s ≡ true → is_approved s ≡ false
pending_not_approved pending h = refl
pending_not_approved approved h = cc
pending_not_approved declined h = refl

-- A company that gets its account: one more for it, for the others as before.
linked_by_approval :
    (i now : ℕ) (u : User) (users : List User) (x : Operator)
    → u.operator_id ≡ some i
    → ((x.id == i) ≡ true → is_pending x.status ≡ true)
    → HasItsUser users x
    → HasItsUser (u ∷ users) (if is_reviewable i x then reviewed approved now x else x)
unfolding count_where
linked_by_approval i now u users x link pend h =
    let Goal = λ (d : Bool). HasItsUser (u ∷ users) (if d then reviewed approved now x else x) in
    elim (Bool-cases (x.id == i)) [
      | inl b ↦
          let d : is_reviewable i x ≡ true = rw (b, pend b) refl in
          let still = rw (pending_not_approved x.status (pend b)) at h in
          subst Goal (sym d) (rw link (ground (arith, still, (==_iff x.id i).0 b)))
      | inr b ↦
          let d : is_reviewable i x ≡ false = rw b refl in
          subst Goal (sym d) (rw link (ground (arith, h)))
    ]

only_pending :
    (i now : ℕ) (accounts : Accounts) (x : Operator)
    → IsLinked accounts
    → (count_where (is_reviewable i) accounts.operators == 0) ≡ false
    → In x accounts.operators
    → (x.id == i) ≡ true
    → is_pending x.status ≡ true
unfolding find_operator
only_pending i now accounts x ok c m b =
    let (w, e, q, r) = flip_found i now accounts.operators ok.keyed c in
    subst (λ (y : Operator). is_pending y.status ≡ true)
      (sym (found_unique (λ (y : Operator). y.id) i accounts.operators w x ok.keyed e m b)) q

known_after :
    (i now : ℕ) (u : User) (accounts : Accounts)
    → IsLinked accounts
    → (count_where (is_reviewable i) accounts.operators == 0) ≡ false
    → u.operator_id ≡ some i
    → (j : ℕ)
    → find_operator j (update_many (is_reviewable i) (reviewed approved now) accounts.operators)
      ≡ none
    → count_where (links_to j) (u ∷ accounts.users) ≡ 0
unfolding find_operator count_where
known_after i now u accounts ok c link j gone =
    let before =
      find_first-update_none (λ (y : Operator). y.id) j (is_reviewable i) (reviewed approved now)
        accounts.operators (λ y. refl) gone in
    let (w, e, q, r) = flip_found i now accounts.operators ok.keyed c in
    elim (Bool-cases (i == j)) [
      | inl b ↦
          cc (before, subst (λ n. find_operator n accounts.operators ≡ some w) ((==_iff i j).0 b) e)
      | inr b ↦ rw (link, b) (omega (arith, ok.known j before))
    ]

pub approve_transaction-IsLinked :
    (user password now : ℕ) (o : Operator) (accounts : Accounts)
    → IsLinked accounts
    → Ensures IsLinked (approve_transaction user password now o accounts)
unfolding approve_transaction create_user mark_reviewed_if_pending operator_user
approve_transaction-IsLinked user password now o accounts ok =
    let u = operator_user user password o in
    elim (Bool-cases (count_where (is_reviewable o.id) accounts.operators == 0)) [
      | inl e ↦ rw (approve_transaction, e) tt
      | inr e ↦ elim (Bool-cases (count_where (clashes_with u) accounts.users == 0)) [
        | inr c ↦ rw (approve_transaction, e, create_user, c) tt
        | inl c ↦
            rw (approve_transaction, e, create_user, c)
              (record {
                keyed =
                    update_many-IsKeyed (λ (y : Operator). y.id) (is_reviewable o.id)
                      (reviewed approved now) accounts.operators (λ y. refl) ok.keyed;
                linked =
                    All-updated (HasItsUser accounts.users) (HasItsUser (u ∷ accounts.users))
                      (is_reviewable o.id) (reviewed approved now) accounts.operators
                      (λ y m.
                        linked_by_approval o.id now u accounts.users y refl
                          (only_pending o.id now accounts y ok e m))
                      ok.linked;
                known = known_after o.id now u accounts ok e refl;
              })
      ]
    ]

-- A write to companies that keeps ids and which of them are approved.
pub operators-IsLinked :
    (p : Operator → Bool) (f : Operator → Operator) (accounts : Accounts)
    → ((x : Operator) → (f x).id ≡ x.id)
    → ((x : Operator) → p x ≡ true → is_approved (f x).status ≡ is_approved x.status)
    → IsLinked accounts
    → IsLinked (record accounts { operators = update_many p f accounts.operators })
unfolding find_operator
operators-IsLinked p f accounts ids same ok = record {
  keyed = update_many-IsKeyed (λ (y : Operator). y.id) p f accounts.operators ids ok.keyed;
  linked =
      All-update_many (HasItsUser accounts.users) p f accounts.operators
        (λ y r h. rw (ids y, same y r) h) ok.linked;
  known = λ i gone.
      ok.known i
        (find_first-update_none (λ (y : Operator). y.id) i p f accounts.operators ids gone);
}

-- A write to users that changes no link.
pub users-IsLinked :
    (users : List User) (tokens : List ResetToken) (accounts : Accounts)
    → ((i : ℕ) → count_where (links_to i) users ≡ count_where (links_to i) accounts.users)
    → IsLinked accounts
    → IsLinked (record accounts { users = users; reset_tokens = tokens })
users-IsLinked users tokens accounts same ok = record {
  keyed = ok.keyed;
  linked = All-map (λ o h. rw (same o.id) h) accounts.operators ok.linked;
  known = λ i gone. rw (same i) (ok.known i gone);
}

-- A new application has no account.
pub application-IsLinked :
    (o : Operator) (accounts : Accounts)
    → find_operator o.id accounts.operators ≡ none
    → is_approved o.status ≡ false
    → IsLinked accounts
    → IsLinked (record accounts { operators = o ∷ accounts.operators })
unfolding find_operator find_first
application-IsLinked o accounts fresh not_yet ok = record {
  keyed = (Absent-of_find (λ (y : Operator). y.id) o.id accounts.operators fresh, ok.keyed);
  linked = (rw (not_yet) (ok.known o.id fresh), ok.linked);
  known = λ i gone. ok.known i (ground (arith, gone));
}
