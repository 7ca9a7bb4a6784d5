-- ===== src/Charters/Reads/Tests.antt =====
-- The charters of a passenger before and after the costs of one are changed.
use transhub.Prelude.{ℕ, ◌≡◌, refl, none, some, List, [], ◌∷◌, ◌-◌, ◌==◌}
use transhub.Roles.{passenger}
use transhub.Charters.{Charter, CreateCharterInput, SendQuoteInput, new_charter, quoted}
use transhub.Charters.Reads.{CharterListFilter, Tables, list_my_charters, get_charter}
use transhub.Charters.Reads.Costs.{costs_unseen}

abbrev asked : CreateCharterInput
asked = record {
  vehicle_type = 1;
  from_location = 2;
  to_location = 3;
  departure_at = 90000000;
  return_at = none;
  passenger_count = 30;
  notes = none;
  contact_name = some 6;
  contact_phone = none;
  contact_email = none;
}

abbrev offer : ℕ → ℕ → SendQuoteInput
offer company cost = record {
  operator_name = company;
  operator_cost = cost;
  service_fee = 20000000 - cost;
  quoted_price = 20000000;
  admin_notes = none;
}

abbrev charters : ℕ → ℕ → List Charter
unfolding new_charter quoted
charters company cost =
    quoted (offer company cost) (new_charter 1 55 42 asked) ∷ new_charter 2 56 43 asked ∷ []

abbrev everything : CharterListFilter
everything = record {
  status = none;
  passenger_id = none;
  date_from = none;
  date_to = none;
  search = some 6;
}

abbrev tables : Tables
tables = record { users = []; created_at = λ i. i; contains = λ q column. q == column }

costs_unseen_example :
    (list_my_charters 42 everything (record { page = 1; limit = 10 }) tables (charters 4 15000000)
      ≡ list_my_charters 42 everything (record { page = 1; limit = 10 }) tables (charters 5 9))
    × (get_charter 1 42 passenger (charters 4 15000000) ≡ get_charter 1 42 passenger (charters 5 9))
unfolding charters
costs_unseen_example =
    costs_unseen 42 1 everything (record { page = 1; limit = 10 }) tables (charters 4 15000000)
      (charters 5 9) refl
