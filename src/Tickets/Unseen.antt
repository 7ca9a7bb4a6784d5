-- ===== src/Tickets/Unseen.antt =====
-- A passenger learns nothing of the bookings of others.
use transhub.Prelude.{
  ℕ, ◌≡◌, refl, subst, ap, sym, ◌∙◌, Bool, Option, none, some, List, [], ◌∷◌, ◌==◌, ==_iff, arith,
  find_many, find_first, find_many-agrees, IsKeyed, Absent-find_many, Bool-cases, inl, inr, length,
  order_by,
}
use transhub.Errors.{Result, throws}
use transhub.Errors.{app, not_found_error}
use transhub.Pagination.{PaginationQuery, page_meta, to_skip_take, items}
use transhub.Bookings.{Booking}
use transhub.Tickets.{
  TicketDto, Tables, get_ticket, ticket_of, has_id, is_own, is_listed, is_newer, list_tickets,
}

-- The ticket of a row that may be there.
abbrev answer : Tables → Option Booking → Result TicketDto
answer db none = throws (app not_found_error)
answer db (some b) = ticket_of db b

-- Where ids are unique, a ticket is looked up among the passenger's own rows.
get_ticket-own :
    (i user : ℕ) (db : Tables) (rows : List Booking)
    → IsKeyed (λ (b : Booking). b.id) rows
    → get_ticket i user db rows ≡ answer db (find_first (has_id i) (find_many (is_own user) rows))
unfolding get_ticket find_first find_many
get_ticket-own i user db [] k = refl
get_ticket-own i user db (b ∷ rows) k = elim (Bool-cases (b.id == i)) [
  | inl same ↦
      let gone : find_first (has_id i) (find_many (is_own user) rows) ≡ none =
        subst (λ j. find_first (has_id j) (find_many (is_own user) rows) ≡ none)
          ((==_iff b.id i).0 same)
          (Absent-find_many (λ (c : Booking). c.id) b.id (is_own user) rows k.0) in
      ground (arith, same, gone)
  | inr other ↦ ground (arith, other, get_ticket-own i user db rows k.1)
]

-- Two tables of bookings, with unique ids and joined to the same trips and users, that differ only in
-- the bookings of others: every ticket and every list that a passenger asks for is the same, the
-- refusals and the totals included.
foreign_bookings_unseen :
    (ilike : ℕ → Booking → Bool) (search : Option ℕ) (i user : ℕ) (p : PaginationQuery)
    (db : Tables) (rows rows' : List Booking)
    → IsKeyed (λ (b : Booking). b.id) rows
    → IsKeyed (λ (b : Booking). b.id) rows'
    → find_many (is_own user) rows ≡ find_many (is_own user) rows'
    → (get_ticket i user db rows ≡ get_ticket i user db rows')
      × (list_tickets ilike search user p db rows ≡ list_tickets ilike search user p db rows')
unfolding list_tickets
foreign_bookings_unseen ilike search i user p db rows rows' k k' e = (
  get_ticket-own i user db rows k
      ∙ ap (λ (own : List Booking). answer db (find_first (has_id i) own)) e
      ∙ sym (get_ticket-own i user db rows' k'),
  ap
      (λ (found : List Booking).
        (items (to_skip_take p) (order_by (is_newer db) found), page_meta (length found) p))
      (find_many-agrees (is_listed ilike search user) (is_own user) rows rows'
        (λ b h. ground (arith, h)) e),
)
