-- ===== src/ServerList.antt =====
-- The lists of the dashboards (frontend/src/hooks/useServerList.ts): the state of the hook, what its
-- functions and effects do, and the replies, which come in any order. Rows are numbers.
pub mod Latest
pub mod Order
mod Tests
use transhub.Prelude.{
  ℕ, zero, suc, ◌+◌, Bool, true, false, not, ◌&&◌, ◌||◌, Option, none, some, List, [], ◌∷◌, ◌==◌,
  if◌then◌else◌,
}

-- A value in the filters; `clean` drops what is undefined or empty.
pub data FilterValue : Type 0 where
  absent blank : FilterValue
  given : ℕ → FilterValue

abbrev pub Filters : Type 0
Filters = ℕ → FilterValue

abbrev pub clean : FilterValue → Option ℕ
clean (given n) = some n
clean v = none

-- `{ ...filters, ...patch }`; the patch has an entry or none.
abbrev pub merged : Filters → (ℕ → Option FilterValue) → Filters
merged filters patch k = elim (patch k) [ none ↦ filters k | some v ↦ v ]

pub record PageMeta : Type 0 where
  pub page : ℕ
  pub limit : ℕ
  pub total : ℕ
  pub total_pages : ℕ

-- The search term is none if the box is empty. `search`, `page` and `limit` come after the filters.
pub record Query : Type 0 where
  pub filters : ℕ → Option ℕ
  pub search : Option ℕ
  pub page : ℕ
  pub limit : ℕ

pub data Reply : Type 0 where
  replied : List ℕ → Option PageMeta → Reply
  refused : ℕ → Reply

-- `armed` is the timer that commits the search box.
pub record Hook : Type 0 where
  pub page : ℕ
  pub filters : Filters
  pub search_input : Option ℕ
  pub search : Option ℕ
  pub items : List ℕ
  pub pagination : Option PageMeta
  pub loading : Bool
  pub error : Option ℕ
  pub tick : ℕ
  pub armed : Bool
  pub req_id : ℕ

abbrev pub query_of : ℕ → Hook → Query
query_of limit s = record {
  filters = λ k. clean (s.filters k);
  search = s.search;
  page = s.page;
  limit = limit;
}

-- The requests that are sent, with their number.
abbrev pub Requests : Type 0
Requests = List (ℕ × Query)

-- The effect that fetches.
unfoldable pub fetch : ℕ → Hook → Hook × Requests
fetch limit s =
    let s' : Hook = record s { req_id = s.req_id + 1; loading = true; error = none } in
    (s', (s'.req_id, query_of limit s') ∷ [])

-- The same search term.
abbrev pub same_term : Option ℕ → Option ℕ → Bool
same_term none none = true
same_term (some a) (some b) = a == b
same_term a b = false

-- The effects after a change: the timer is armed anew if the box changed, and the list is fetched if
-- the filters are another object, or the term, the page or the tick changed.
unfoldable pub rendered : ℕ → Bool → Hook → Hook → Hook × Requests
unfolding fetch
rendered limit new_filters old s =
    let s' : Hook = record s {
      armed = if same_term s.search_input old.search_input then s.armed else true;
    } in
    if new_filters
      || not (same_term s.search old.search)
      || not (s.page == old.page)
      || not (s.tick == old.tick)
    then fetch limit s'
    else (s', [])

-- `then`, `catch` and `finally` of the latest request.
unfoldable pub shown : Reply → Hook → Hook
shown (replied items pagination) s = record s {
  items = items;
  pagination = pagination;
  loading = false;
}
shown (refused message) s = record s {
  error = some message;
  items = [];
  pagination = none;
  loading = false;
}

-- A reply to a request that another has superseded is dropped.
unfoldable pub settle : ℕ → Reply → Hook → Hook
unfolding shown
settle i r s = if i == s.req_id then shown r s else s

pub data Event : Type 0 where
  set_page : ℕ → Event
  set_filter : (ℕ → Option FilterValue) → Event
  reset_filters : Filters → Event
  set_search_input : Option ℕ → Event
  debounced refetch : Event
  settled : ℕ → Reply → Event

unfoldable pub step : ℕ → Event → Hook → Hook × Requests
unfolding rendered settle
step limit (set_page p) s = rendered limit false s (record s { page = p })
step limit (set_filter patch) s =
    rendered limit true s (record s { page = 1; filters = merged s.filters patch })
step limit (reset_filters next) s =
    rendered limit true s
      (record s { page = 1; filters = next; search_input = none; search = none })
step limit (set_search_input v) s = rendered limit false s (record s { search_input = v })
step limit debounced s =
    if s.armed
    then rendered limit false s (record s { search = s.search_input; page = 1; armed = false })
    else (s, [])
step limit refetch s = rendered limit false s (record s { tick = s.tick + 1 })
step limit (settled i r) s = (settle i r s, [])

-- The hook when the page is mounted; the box starts with the search term of the filters.
unfoldable pub mounted : ℕ → Filters → Option ℕ → Hook × Requests
unfolding fetch
mounted limit filters term = fetch limit (record {
  page = 1;
  filters = filters;
  search_input = term;
  search = term;
  items = [];
  pagination = none;
  loading = true;
  error = none;
  tick = 0;
  armed = true;
  req_id = 0;
})
