-- ===== src/Analytics/Totals.antt =====
-- That the groups of the aggregates add up to the bookings that they are of.
use transhub.Prelude.{
  ℕ, ◌+◌, ◌-◌, ◌*◌, ◌/◌, ◌<◌, ◌≤◌, leb, ltb, ◌≡◌, refl, inl, inr, ap, sym, ◌∙◌, Bool, true, false,
  not, ◌&&◌, Option, none, some, List, [], ◌∷◌, ◌==◌, if◌then◌else◌, length, count_where, find_many,
  order_by, length-order_by, sum_by, sum_by-order_by, is_some, Option-cases, arith,
}
use transhub.Accounts.{Operator}
use transhub.ListQuery.{day_ms, wat_offset_ms}
use transhub.Pagination.{take_all}
use transhub.Trips.{Trip}
use transhub.Bookings.{Booking}
use transhub.Analytics.{
  Key, same_key, Group, add_to, add_row, group_by, revenue, is_confirmed, is_recent, revenue_cutoff,
  day_of, get_revenue_by_day, get_summary, company_of, get_bookings_by_operator, earns_more,
}

-- What the groups that a test of keys selects come to.
abbrev pub earned : (Key → Bool) → Group → ℕ
earned p g = if p g.key then g.revenue else 0

abbrev pub has_key : (Key → Bool) → Option Key → Bool
has_key p none = false
has_key p (some k) = p k

-- The test does not tell keys apart that are the same.
abbrev Respects : (Key → Bool) → Type 0
Respects p = (k j : Key) → same_key k j ≡ true → p k ≡ p j

add_to-earned :
    (p : Key → Bool)
    → Respects p
    → (k : Key) (amount : ℕ) (gs : List Group)
    → sum_by (earned p) (add_to k amount gs) ≡ (if p k then amount else 0) + sum_by (earned p) gs
add_to-earned p r k amount [] = refl
add_to-earned p r k amount (g ∷ gs) = ground (arith, r k g.key, add_to-earned p r k amount gs)

add_row-earned :
    (p : Key → Bool)
    → Respects p
    → (k : Option Key) (amount : ℕ) (gs : List Group)
    → sum_by (earned p) (add_row k amount gs)
      ≡ (if has_key p k then amount else 0) + sum_by (earned p) gs
add_row-earned p r none amount gs = omega arith
add_row-earned p r (some k) amount gs = add_to-earned p r k amount gs

-- The revenue of the groups is that of the bookings with such a key.
group_by-earned :
    (p : Key → Bool)
    → Respects p
    → (key : Booking → Option Key) (bs : List Booking)
    → sum_by (earned p) (group_by key bs) ≡ revenue (find_many (λ b. has_key p (key b)) bs)
unfolding group_by find_many
group_by-earned p r key [] = refl
group_by-earned p r key (b ∷ bs) =
    ground (
      arith,
      add_row-earned p r (key b) b.total_amount (group_by key bs),
      group_by-earned p r key bs,
    )

-- Where a day of the chart begins: one hour after the midnight of UTC.
abbrev pub chart_start : ℕ → ℕ
chart_start day = day * day_ms + wat_offset_ms

abbrev pub is_confirmed_on : (ℕ → ℕ) → ℕ → Booking → Bool
is_confirmed_on created_at day b =
    is_confirmed b
    && leb (chart_start day) (created_at b.id)
    && ltb (created_at b.id) (chart_start (day + 1))

abbrev pub is_day : ℕ → Key → Bool
is_day day k = day == k.0

is_day-Respects : (day : ℕ) → Respects (is_day day)
is_day-Respects day k j same = ground (arith, same)

chart_window :
    (day instant : ℕ)
    → 0 < day
    → (day == (instant - wat_offset_ms) / day_ms)
      ≡ (leb (chart_start day) instant && ltb instant (chart_start (day + 1)))
chart_window day instant later = ground arith

-- A booking of a day that begins at the cutoff or later is a recent one.
not_cut_off :
    (created_at : ℕ → ℕ) (cutoff day : ℕ)
    → 0 < day
    → cutoff ≤ chart_start day
    → (bs : List Booking)
    → revenue (
        find_many
          (λ b. has_key (is_day day) (day_of created_at b))
          (find_many (is_recent created_at cutoff) bs))
      ≡ revenue (find_many (is_confirmed_on created_at day) bs)
unfolding find_many
not_cut_off created_at cutoff day later late [] = refl
not_cut_off created_at cutoff day later late (b ∷ bs) = ground (
  arith,
  chart_window day (created_at b.id) later,
  not_cut_off created_at cutoff day later late bs,
  late,
)

-- For a day of the chart that begins at the cutoff or later: the revenue that the chart shows for it is that
-- of all the confirmed bookings created from 01:00 UTC of that date up to 01:00 UTC of the next.
pub charted_from_one :
    (created_at : ℕ → ℕ) (now days day : ℕ) (bookings : List Booking)
    → 0 < day
    → revenue_cutoff now days ≤ day * day_ms + wat_offset_ms
    → sum_by (earned (is_day day)) (get_revenue_by_day created_at now days bookings)
      ≡ revenue (find_many (is_confirmed_on created_at day) bookings)
unfolding get_revenue_by_day
charted_from_one created_at now days day bookings later late =
    sum_by-order_by _ (earned (is_day day)) _
    ∙ group_by-earned (is_day day) (is_day-Respects day) (day_of created_at) _
    ∙ not_cut_off created_at (revenue_cutoff now days) day later late bookings

-- A confirmed booking that the joins drop.
abbrev pub is_dropped : (Booking → Option Key) → Booking → Bool
is_dropped key b = is_confirmed b && not (is_some (key b))

none_dropped :
    (key : Booking → Option Key) (bs : List Booking)
    → count_where (is_dropped key) bs ≡ 0
    → revenue (find_many (λ b. has_key (λ k. true) (key b)) (find_many is_confirmed bs))
      ≡ revenue (find_many is_confirmed bs)
unfolding find_many count_where
none_dropped key [] h = refl
none_dropped key (b ∷ bs) h = elim (Option-cases (key b)) [
  | inl e ↦ ground (arith, e, h, none_dropped key bs)
  | inr (k, e) ↦ ground (arith, e, h, none_dropped key bs)
]

all_earned :
    (gs : List Group) → sum_by (earned (λ k. true)) gs ≡ sum_by (λ (g : Group). g.revenue) gs
all_earned [] = refl
all_earned (g ∷ gs) = omega (arith, all_earned gs)

-- Where no confirmed booking lacks its trip or the company of that, and the limit reaches all the groups, the
-- revenues of the companies add up to the total revenue of the summary.
pub companies_earn_total :
    (limit : ℕ) (operators : List Operator) (trips : List Trip) (bookings : List Booking)
    → count_where (is_dropped (company_of operators trips)) bookings ≡ 0
    → length (group_by (company_of operators trips) (find_many is_confirmed bookings)) ≤ limit
    → sum_by (λ (g : Group). g.revenue) (get_bookings_by_operator limit operators trips bookings)
      ≡ (get_summary bookings trips).total_revenue
unfolding get_bookings_by_operator get_summary
companies_earn_total limit operators trips bookings placed enough =
    let key = company_of operators trips in
    let groups = group_by key (find_many is_confirmed bookings) in
    ap (sum_by (λ (g : Group). g.revenue)) (
      take_all limit (order_by earns_more groups)
        (omega (arith, enough, length-order_by earns_more groups)))
    ∙ sum_by-order_by earns_more (λ (g : Group). g.revenue) groups
    ∙ sym (all_earned groups)
    ∙ group_by-earned (λ k. true) (λ k j e. refl) key _
    ∙ none_dropped key bookings placed
