-- ===== src/ServerList/Tests.antt =====
-- A list that is searched while the reply to its first page is on the way.
use transhub.Prelude.{◌≡◌, refl, inl, inr, true, false, none, some, List, [], ◌∷◌}
use transhub.ServerList.{
  absent, Filters, replied, Reply, Hook, Event, set_search_input, debounced, settled, mounted,
  settle, shown, fetch, step, rendered,
}
use transhub.ServerList.Latest.{Log, IsCurrent, run, run-IsCurrent}
use transhub.ServerList.Order.{settle_all, settle_all_comm}

abbrev no_filters : Filters
no_filters k = absent

abbrev all_rows : Reply
all_rows = replied (1 ∷ 2 ∷ []) none

abbrev found_rows : Reply
found_rows = replied (2 ∷ []) none

-- The reply to the search comes before the reply to the first page.
abbrev searched : List Event
searched = set_search_input (some 9) ∷ debounced ∷ settled 2 found_rows ∷ settled 1 all_rows ∷ []

abbrev start : Log
unfolding mounted fetch
start = record {
  hook = (mounted 20 no_filters none).0;
  sent = (mounted 20 no_filters none).1;
  replies = [];
}

-- The late reply to the first page does not show.
search_shows : (run 20 searched start).hook.items ≡ 2 ∷ []
unfolding run step rendered settle shown fetch mounted
search_shows = refl

run-IsCurrent_example : IsCurrent 20 (run 20 searched start)
unfolding mounted fetch
run-IsCurrent_example = run-IsCurrent 20 no_filters none searched

abbrev waits : Hook
waits = record {
  page = 1;
  filters = no_filters;
  search_input = some 9;
  search = some 9;
  items = [];
  pagination = none;
  loading = true;
  error = none;
  tick = 0;
  armed = false;
  req_id = 2;
}

settle_all_comm_example :
    (settle_all ((1, all_rows) ∷ (2, found_rows) ∷ []) waits
      ≡ settle_all ((2, found_rows) ∷ (1, all_rows) ∷ []) waits)
    × (settle_all ((1, all_rows) ∷ (2, found_rows) ∷ []) waits ≡ shown found_rows waits)
settle_all_comm_example =
    settle_all_comm ((1, all_rows) ∷ (2, found_rows) ∷ []) ((2, found_rows) ∷ (1, all_rows) ∷ [])
      found_rows waits ((refl, tt), (tt, tt)) ((refl, tt), (tt, tt)) (inr (inl refl)) (inl refl)
