-- ===== src/Transactions/Scope.antt =====
-- What a requester can learn from the feed: nothing of the rows of others, whatever is asked for.
use transhub.Prelude.{
  ℕ, ◌≡◌, refl, ap, Bool, true, false, Option, none, some, List, ◌==◌, is, arith, find_many,
  find_many-agrees, length, order_by,
}
use transhub.Roles.{Role, admin, operator, passenger, driver}
use transhub.Pagination.{PaginationQuery, page_meta, to_skip_take, items}
use transhub.Errors.{returns}
use transhub.Transactions.{
  TransactionRow, TransactionFilter, Texts, Requester, Tables, scoped, meets, list, list_request,
  union, find_all, is_newer,
}

-- The rows that a requester may see: a company its trips' bookings and its waybills, a passenger what
-- they pay for, an admin all.
abbrev pub may_see : Role → ℕ → Option ℕ → TransactionRow → Bool
may_see operator i none row = false
may_see operator i (some o) row = is row.operator_id o
may_see passenger i company row = row.user_id == i
may_see admin i company row = true
may_see driver i company row = false

abbrev asked_by : Role → ℕ → Option ℕ → Requester
asked_by role i company = record { id = i; role = role; operator_id = company }

-- Two feeds with the same rows that the filter lets through give the same reply.
list-agrees :
    (texts : Texts) (f : TransactionFilter) (r : Requester) (p : PaginationQuery)
    (rows rows' : List TransactionRow)
    → find_many (meets texts (scoped r.role r f)) rows
      ≡ find_many (meets texts (scoped r.role r f)) rows'
    → list texts f r p rows ≡ list texts f r p rows'
unfolding list find_all
list-agrees texts f r p rows rows' e =
    ap
      (λ (found : List TransactionRow).
        (items (to_skip_take p) (order_by is_newer found), page_meta (length found) p))
      e

seen :
    (texts : Texts) (f : TransactionFilter) (role : Role) (i : ℕ) (company : Option ℕ)
    (p : PaginationQuery) (db db' : Tables)
    → find_many (may_see role i company) (union db) ≡ find_many (may_see role i company) (union db')
    → list_request texts f (asked_by role i company) p db
      ≡ list_request texts f (asked_by role i company) p db'
unfolding list_request meets
seen texts f driver i company p db db' e = refl
seen texts f operator i none p db db' e = refl
seen texts f operator i (some o) p db db' e = ap returns (
    list-agrees texts f (asked_by operator i (some o)) p (union db) (union db') (
      find_many-agrees _ (may_see operator i (some o)) (union db) (union db')
        (λ row h. ground (arith, h)) e))
seen texts f passenger i company p db db' e = ap returns (
    list-agrees texts f (asked_by passenger i company) p (union db) (union db') (
      find_many-agrees _ (may_see passenger i company) (union db) (union db')
        (λ row h. ground (arith, h)) e))
seen texts f admin i company p db db' e = ap returns (
    list-agrees texts f (asked_by admin i company) p (union db) (union db')
      (find_many-agrees _ (may_see admin i company) (union db) (union db') (λ row h. refl) e))

-- Two databases whose payments differ only in rows that the requester may not see: the reply is the
-- same, whatever is asked for, the items, the total and the refusals.
pub foreign_rows_unseen :
    (texts : Texts) (f : TransactionFilter) (r : Requester) (p : PaginationQuery) (db db' : Tables)
    → find_many (may_see r.role r.id r.operator_id) (union db)
      ≡ find_many (may_see r.role r.id r.operator_id) (union db')
    → list_request texts f r p db ≡ list_request texts f r p db'
foreign_rows_unseen texts f r p db db' e = seen texts f r.role r.id r.operator_id p db db' e
