-- ===== src/Bookings/Reads/Opened.antt =====
-- What the lists of bookings.service.ts show, against what its other reads answer.
use transhub.Prelude.{
  ℕ, ◌-◌, ◌*◌, ◌≡◌, ◌≢◌, refl, sym, subst, ap, ◌∙◌, inl, inr, ◌⊎◌, Bool, true, false, not, ◌&&◌,
  Option, none, some, List, ◌==◌, is_some, arith, In, IsKeyed, find_first-of_In, In-find_many,
  In-order_by, In-take, In-drop,
}
use transhub.Errors.{returns, throws, returns_injective}
use transhub.Errors.{app, forbidden_error}
use transhub.Roles.{Role, admin, operator, passenger, driver, same_role, require_role}
use transhub.Pagination.{PaginationQuery, PageMeta, to_skip_take}
use transhub.Bookings.{Booking}
use transhub.Bookings.Reads.{
  BookingListFilter, Tables, page_of, is_newer, list, listed, find_all, find_by_operator,
  find_by_user, get_by_id, list_bookings, get_booking, opened,
}

In-page_of :
    (is_selected : Booking → Bool) (p : PaginationQuery) (db : Tables) (bookings : List Booking)
    (b : Booking)
    → In b (page_of is_selected p db bookings).0
    → In b bookings × (is_selected b ≡ true)
unfolding to_skip_take
In-page_of is_selected p db bookings b m =
    In-find_many is_selected bookings b
      (In-order_by (is_newer db) b _ (In-drop ((p.page - 1) * p.limit) b _ (In-take p.limit b _ m)))

-- The caller is not an operator with a company.
abbrev pub opens : Role → Option ℕ → Bool
opens role company = not (same_role role operator && is_some company)

listed-own :
    (user : ℕ) (role : Role) (company : Option ℕ) (f : BookingListFilter) (p : PaginationQuery)
    (db : Tables) (bookings : List Booking) (b : Booking)
    → opens role company ≡ true
    → In b (listed user role company f p db bookings).0
    → In b bookings × ((not (same_role role admin) && not (b.user_id == user)) ≡ false)
unfolding find_all find_by_operator find_by_user
listed-own user admin company f p db bookings b o m = ((In-page_of _ p db bookings b m).0, refl)
listed-own user operator (some c) f p db bookings b o m = ground (arith, o)
listed-own user operator none f p db bookings b o m =
    let (here, own) = In-page_of _ p db bookings b m in (here, ground (arith, own))
listed-own user passenger company f p db bookings b o m =
    let (here, own) = In-page_of _ p db bookings b m in (here, ground (arith, own))
listed-own user driver company f p db bookings b o m =
    let (here, own) = In-page_of _ p db bookings b m in (here, ground (arith, own))

opened_by :
    (user : ℕ) (role : Role) (company : Option ℕ) (f : BookingListFilter) (p : PaginationQuery)
    (db : Tables) (bookings : List Booking) (b : Booking)
    → IsKeyed (λ (c : Booking). c.id) bookings
    → opens role company ≡ true
    → In b (list user role company f p db bookings).0
    → get_by_id b.id user role bookings ≡ returns b
unfolding list get_by_id
opened_by user role company f p db bookings b keyed o m =
    let (here, own) = listed-own user role company f p db bookings b o m in
    ap (opened user role) (find_first-of_In (λ (c : Booking). c.id) bookings b keyed here)
    ∙ rw own refl

-- Where ids are unique, whatever the filter and the page: each booking that the list shows a passenger or an
-- admin can be opened by the same caller, as the row that was shown; an operator, whom the list shows
-- bookings too, is refused each of them.
pub listed_then_opened :
    (user : ℕ) (role : Role) (company : Option ℕ) (f : BookingListFilter) (p : PaginationQuery)
    (db : Tables) (bookings : List Booking) (shown : List Booking × PageMeta) (b : Booking)
    → IsKeyed (λ (c : Booking). c.id) bookings
    → list_bookings user role company f p db bookings ≡ returns shown
    → In b shown.0
    → ((role ≢ operator) × (get_booking b.id user role bookings ≡ returns b))
      ⊎ ((role ≡ operator) × (get_booking b.id user role bookings ≡ throws (app forbidden_error)))
unfolding list_bookings get_booking require_role
listed_then_opened user passenger company f p db bookings shown b keyed e m = inl (
  λ h. cc,
  opened_by user passenger company f p db bookings b keyed refl
      (subst (λ (r : List Booking × PageMeta). In b r.0) (sym (returns_injective e)) m),
)
listed_then_opened user admin company f p db bookings shown b keyed e m = inl (
  λ h. cc,
  opened_by user admin company f p db bookings b keyed refl
      (subst (λ (r : List Booking × PageMeta). In b r.0) (sym (returns_injective e)) m),
)
listed_then_opened user operator company f p db bookings shown b keyed e m = inr (refl, refl)
listed_then_opened user driver company f p db bookings shown b keyed e m = cc
