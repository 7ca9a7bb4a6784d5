-- ===== src/Transactions/Tests.antt =====
-- A feed with the payments of two passengers.
use transhub.Prelude.{ℕ, ◌+◌, ◌≡◌, refl, true, none, some, List, [], ◌∷◌, find_many}
use transhub.Roles.{passenger}
use transhub.Accounts.{User}
use transhub.Accounts.{find_user}
use transhub.Pagination.{PaginationQuery}
use transhub.Trips.{find_trip}
use transhub.Bookings.{Booking, confirmed}
use transhub.Transactions.{
  Tables, TransactionFilter, Texts, Requester, list_request, union, booking_rows, charter_rows,
  waybill_rows,
}
use transhub.Transactions.Scope.{foreign_rows_unseen}
use transhub.Prelude.{find_first}

abbrev customer : ℕ → User
customer i = record {
  id = i;
  email = 10 + i;
  password = 5;
  full_name = 100 + i;
  phone = 200 + i;
  role = passenger;
  operator_id = none;
}

abbrev ticket_of : ℕ → ℕ → Booking
ticket_of i user = record {
  id = i;
  user_id = user;
  trip_id = 5;
  seat_ids = i ∷ [];
  passengers = [];
  status = confirmed;
  total_amount = 3000;
  payment_ref = some (800 + i);
}

abbrev tables : List Booking → Tables
tables bookings = record {
  users = customer 42 ∷ customer 43 ∷ [];
  trips = [];
  bookings = bookings;
  charters = [];
  waybills = [];
  booking_created_at = λ i. i;
  charter_created_at = λ i. i;
  waybill_created_at = λ i. i;
}

-- Whatever the company and the customer that are asked for.
abbrev greedy : TransactionFilter
greedy = record {
  kind = none;
  status = none;
  operator_id = some 7;
  user_id = some 43;
  min_amount = none;
  max_amount = none;
  date_from = none;
  date_to = none;
  search = none;
}

abbrev texts : Texts
texts = record { status_text = λ s. 0; ilike = λ q row. true }

abbrev asker : Requester
asker = record { id = 42; role = passenger; operator_id = none }

abbrev first_page : PaginationQuery
first_page = record { page = 1; limit = 20 }

foreign_rows_unseen_example :
    list_request texts greedy asker first_page (tables (ticket_of 1 42 ∷ ticket_of 2 43 ∷ []))
    ≡ list_request texts greedy asker first_page (tables (ticket_of 1 42 ∷ []))
unfolding union booking_rows charter_rows waybill_rows find_many find_user find_trip find_first
foreign_rows_unseen_example =
    foreign_rows_unseen texts greedy asker first_page
      (tables (ticket_of 1 42 ∷ ticket_of 2 43 ∷ [])) (tables (ticket_of 1 42 ∷ [])) refl
