-- ===== src/ServiceWorker/Tests.antt =====
-- A search that is never stored, and a ticket that is.
use transhub.Prelude.{ℕ, ◌≡◌, refl, true, false, none, some, List, [], ◌∷◌, All}
use transhub.ServiceWorker.{
  chars, is_ticket_detail, is_static, Request, Network, caches_match, on_install, precache,
}
use transhub.ServiceWorker.Proper.{IsProper}
use transhub.ServiceWorker.Stored.{Event, fetched, activated, after, is_cacheable, never_stored}

abbrev trips : Request
trips = record {
  url = record { origin = 2; path = chars "/trips/search"; query = 7 };
  is_get = true;
  is_navigation = false;
  user = 42;
}

abbrev ticket : ℕ → Request
ticket user = record {
  url = record { origin = 2; path = chars "/tickets/9"; query = 0 };
  is_get = true;
  is_navigation = false;
  user = user;
}

abbrev online : Network
online r = some (record { is_ok = true; body = r.user })

abbrev offline : Network
offline r = none

abbrev events : List Event
events = fetched online trips ∷ activated ∷ fetched offline trips ∷ fetched online (ticket 42) ∷ []

never_stored_example :
    (caches_match trips (after 1 events (on_install 1 online precache [])) ≡ none)
    × All (IsProper 1) (after 1 events (on_install 1 online precache []))
unfolding is_cacheable is_ticket_detail is_static
never_stored_example = never_stored 1 online events trips refl
