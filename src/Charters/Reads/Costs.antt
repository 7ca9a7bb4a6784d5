-- ===== src/Charters/Reads/Costs.antt =====
-- A passenger learns nothing of what a charter costs inside.
use transhub.Prelude.{
  ℕ, ◌≡◌, refl, ap, sym, ◌∙◌, Option, none, some, List, [], ◌∷◌, length, map, find_many, find_first,
  order_by, take, drop, map-find_many, map-order_by, map-take, map-drop, length-map, ◌-◌, ◌*◌,
  arith,
}
use transhub.Roles.{passenger}
use transhub.Pagination.{PaginationQuery, PageMeta, page_meta, to_skip_take, items}
use transhub.Charters.{Charter, CharterStatus, has_id}
use transhub.Charters.Reads.{
  CharterListFilter, Tables, has_status, is_of, is_match, build_charter_where, is_newer, find_all,
  list, get_my_charters, opened, get_charter_by_id, for_passenger, list_my_charters, shown_to,
  get_charter,
}

match-blind :
    (db : Tables) (search : Option ℕ) (c : Charter)
    → is_match db search (for_passenger c) ≡ is_match db search c
unfolding is_match
match-blind db none c = refl
match-blind db (some q) c = refl

status-blind :
    (s : Option CharterStatus) (c : Charter) → has_status s (for_passenger c) ≡ has_status s c
status-blind none c = refl
status-blind (some s) c = refl

of-blind : (user : Option ℕ) (c : Charter) → is_of user (for_passenger c) ≡ is_of user c
of-blind none c = refl
of-blind (some user) c = refl

where-blind :
    (db : Tables) (f : CharterListFilter) (c : Charter)
    → build_charter_where db f (for_passenger c) ≡ build_charter_where db f c
unfolding build_charter_where
where-blind db f c =
    rw (match-blind db f.search c, status-blind f.status c, of-blind f.passenger_id c) refl

-- A page of the rows that are found.
page : PaginationQuery → Tables → List Charter → List Charter × PageMeta
unfolding to_skip_take
page p db found =
    (items (to_skip_take p) (order_by (is_newer db) found), page_meta (length found) p)

page-blind :
    (p : PaginationQuery) (db : Tables) (found : List Charter)
    → (map for_passenger (page p db found).0, (page p db found).1)
      ≡ page p db (map for_passenger found)
unfolding page
page-blind p db found =
    ap (λ (rows : List Charter). (rows, page_meta (length found) p))
      (map-take for_passenger p.limit _
        ∙ ap (take p.limit) (
            map-drop for_passenger ((p.page - 1) * p.limit) _
            ∙ ap (drop ((p.page - 1) * p.limit))
                (map-order_by for_passenger (is_newer db) (λ c d. refl) found)))
    ∙ ap
        (λ (n : ℕ). (
          items (to_skip_take p) (order_by (is_newer db) (map for_passenger found)),
          page_meta n p,
        ))
        (sym (length-map for_passenger found))

-- The page of rows from which the costs have been taken before the query.
list_my_charters-blind :
    (user : ℕ) (f : CharterListFilter) (p : PaginationQuery) (db : Tables) (cs : List Charter)
    → list_my_charters user f p db cs ≡ get_my_charters user f p db (map for_passenger cs)
unfolding list_my_charters get_my_charters list find_all page
list_my_charters-blind user f p db cs =
    let own = record f { passenger_id = some user } in
    page-blind p db (find_many (build_charter_where db own) cs)
    ∙ ap (page p db)
        (map-find_many for_passenger (build_charter_where db own) cs (where-blind db own))

abbrev stripped : Option Charter → Option Charter
stripped none = none
stripped (some c) = some (for_passenger c)

opened-blind :
    (user : ℕ) (o : Option Charter)
    → shown_to passenger (opened user passenger o) ≡ opened user passenger (stripped o)
opened-blind user none = refl
opened-blind user (some c) = ground arith

find_first-blind :
    (i : ℕ) (cs : List Charter)
    → stripped (find_first (has_id i) cs) ≡ find_first (has_id i) (map for_passenger cs)
unfolding find_first
find_first-blind i [] = refl
find_first-blind i (c ∷ cs) = ground (arith, find_first-blind i cs)

get_charter-blind :
    (i user : ℕ) (cs : List Charter)
    → get_charter i user passenger cs ≡ get_charter_by_id i user passenger (map for_passenger cs)
unfolding get_charter get_charter_by_id
get_charter-blind i user cs =
    opened-blind user (find_first (has_id i) cs)
    ∙ ap (opened user passenger) (find_first-blind i cs)

-- A charter without the company asked, its cost and the service fee.
abbrev pub without_costs : Charter → Charter
without_costs c = record c { operator_name = none; operator_cost = none; service_fee = none }

-- Two tables of charters that differ only in the company asked, its cost and the service fee: every list and every
-- charter that a passenger asks for is the same, the refusals and the totals included.
pub costs_unseen :
    (user i : ℕ) (f : CharterListFilter) (p : PaginationQuery) (db : Tables) (cs cs' : List Charter)
    → map without_costs cs ≡ map without_costs cs'
    → (list_my_charters user f p db cs ≡ list_my_charters user f p db cs')
      × (get_charter i user passenger cs ≡ get_charter i user passenger cs')
costs_unseen user i f p db cs cs' e = (
  list_my_charters-blind user f p db cs
      ∙ ap (get_my_charters user f p db) e
      ∙ sym (list_my_charters-blind user f p db cs'),
  get_charter-blind i user cs
      ∙ ap (get_charter_by_id i user passenger) e
      ∙ sym (get_charter-blind i user cs'),
)
