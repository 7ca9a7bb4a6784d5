-- ===== src/Charters/Requests/Tests.antt =====
-- A charter from its request to its end, with requests that are refused on the way.
use transhub.Prelude.{
  ℕ, ◌≡◌, refl, Option, none, some, List, [], ◌∷◌, map, find_first, update_many, count_where,
}
use transhub.Roles.{passenger, admin}
use transhub.Charters.{Charter, CharterStatus, CreateCharterInput, SendQuoteInput, completed}
use transhub.Charters.Requests.{
  Request, create, quote, accept, webhook, complete, cancel, serve_all,
}
use transhub.Charters.Requests.Invariant.{TableInv}
use transhub.Charters.Requests.Lifecycle.{charters_kept}

abbrev asked : CreateCharterInput
asked = record {
  vehicle_type = 1;
  from_location = 2;
  to_location = 3;
  departure_at = 90000000;
  return_at = none;
  passenger_count = 30;
  notes = none;
  contact_name = none;
  contact_phone = none;
  contact_email = none;
}

abbrev offer : SendQuoteInput
offer = record {
  operator_name = 4;
  operator_cost = 15000000;
  service_fee = 5000000;
  quoted_price = 20000000;
  admin_notes = none;
}

-- The webhook comes twice, and the passenger cancels too late.
abbrev requests : List Request
requests =
    create (some passenger) 0 1 55 42 asked
    ∷ quote (some passenger) 1 offer
    ∷ quote (some admin) 1 offer
    ∷ accept (some passenger) 1 42
    ∷ webhook 1 70000 20000000
    ∷ webhook 1 80000 20000000
    ∷ cancel 1 42 passenger
    ∷ complete (some admin) 95000000 1
    ∷ []

charters_kept_example : TableInv (serve_all (λ n. some n) [] requests)
charters_kept_example = charters_kept (λ n. some n) requests [] (record { rows = tt; keyed = tt })

-- The charter is completed, paid when the webhook first came.
served :
    map {B = CharterStatus × Option ℕ}
      (λ (c : Charter). (c.status, c.paid_at))
      (serve_all (λ n. some n) [] requests)
    ≡ (completed, some 70000) ∷ []
unfolding serve_all find_first update_many count_where
served = refl
