-- ===== src/Operators/Tests.antt =====
-- One application that is pending, from nothing and through its review.
use transhub.Prelude.{ℕ, ◌≡◌, refl, none, some, List, [], ◌∷◌, count_where, find_first}
use transhub.Errors.{returns, throws}
use transhub.Errors.{app, conflict_error, conflict}
use transhub.Accounts.{
  Accounts, Operator, approved, find_operator, find_user, find_user_by_email, reviewed,
  to_auth_user,
}
use transhub.Auth.{login, RegisterInput}
use transhub.Auth.Tests.{toy_hashing, toy_digest}
use transhub.Operators.{
  operator_user, operator_approved, approve, decline, new_operator, RegisterOperatorInput,
}
use transhub.Operators.Linked.{IsLinked}
use transhub.Operators.Requests.{
  serve_all, serve_all-IsLinked, apply, approval, refusal, sign_up, Request,
}
use transhub.Operators.Approval.{approve_then_login}

abbrev lines : RegisterOperatorInput
lines = record {
  company_name = 1;
  contact_name = 2;
  email = 31;
  phone = 4;
  city = 5;
  fleet_size = 6;
  vehicle_types = 7 ∷ [];
  routes = 8;
  years_in_operation = 9;
  cac_number = 10;
  additional_info = none;
}

abbrev company : Operator
unfolding new_operator
company = new_operator 3 lines

abbrev accounts : Accounts
unfolding company
accounts = record { users = []; operators = company ∷ []; drivers = []; reset_tokens = [] }

abbrev no_accounts : Accounts
no_accounts = record { users = []; operators = []; drivers = []; reset_tokens = [] }

empty_IsLinked : IsLinked no_accounts
unfolding count_where
empty_IsLinked = record { keyed = tt; linked = tt; known = λ i e. refl }

abbrev ada : RegisterInput
ada = record { full_name = 100; email = 11; phone = 200; password = 5 }

abbrev requests : List Request
requests =
    apply 3 lines
    ∷ sign_up 7 1 ada
    ∷ approval 50 9 60 1000 3
    ∷ refusal 1001 3
    ∷ approval 51 9 61 1002 3
    ∷ []

serve_all-IsLinked_example : IsLinked (serve_all toy_hashing toy_digest requests no_accounts)
serve_all-IsLinked_example =
    serve_all-IsLinked toy_hashing toy_digest requests no_accounts empty_IsLinked

accounts-IsLinked : IsLinked accounts
unfolding company accounts new_operator find_operator find_first count_where
accounts-IsLinked = record { keyed = (tt, tt); linked = (refl, tt); known = λ i e. refl }

approve_then_login_example :
    (after : Accounts) × (approve toy_hashing (λ s. s) 50 9 60 1000 3 accounts
      ≡ returns (some (reviewed approved 1000 company), after, operator_approved 31 2 1 60 ∷ []))
    × IsLinked after
    × (login toy_hashing 0 31 60 after ≡ returns (to_auth_user (operator_user 50 60 company)))
    × ((user2 salt2 temp2 now2 : ℕ)
        → approve toy_hashing (λ s. s) user2 salt2 temp2 now2 3 after
          ≡ throws (app (conflict_error conflict)))
    × ((now2 : ℕ) → decline (λ s. s) now2 3 after ≡ throws (app (conflict_error conflict)))
unfolding company accounts new_operator find_operator find_user_by_email find_user find_first
approve_then_login_example =
    approve_then_login toy_hashing 50 9 60 1000 0 company accounts accounts-IsLinked refl refl refl
      refl
