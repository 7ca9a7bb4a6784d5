-- ===== src/ListQuery.antt =====
-- The ranges of backend/src/shared/list-query.ts. A date is the number of its day since the epoch, from
-- day 1 on, and an instant a number of milliseconds; West Africa Time is an hour ahead of UTC.
mod Tests
use transhub.Prelude.{
  ℕ, ◌+◌, ◌-◌, ◌*◌, ◌/◌, ◌≤◌, ◌≡◌, ◌↔◌, refl, Bool, true, false, ◌&&◌, Option, none, some, ◌==◌,
  ==_iff, leb, if◌then◌else◌, arith,
}

abbrev pub day_ms : ℕ
day_ms = 24 * 60 * 60 * 1000

-- `WAT_OFFSET`.
abbrev pub wat_offset_ms : ℕ
wat_offset_ms = 60 * 60 * 1000

abbrev pub start_of_day : ℕ → ℕ
start_of_day day = day * day_ms - wat_offset_ms

abbrev pub end_of_day : ℕ → ℕ
end_of_day day = day * day_ms + (day_ms - 1) - wat_offset_ms

pub record Range : Type 0 where
  pub gte : Option ℕ
  pub lte : Option ℕ

abbrev pub range_if_any : Option ℕ → Option ℕ → Option Range
range_if_any none none = none
range_if_any a b = some (record { gte = a; lte = b })

abbrev pub map_option : (ℕ → ℕ) → Option ℕ → Option ℕ
map_option f none = none
map_option f (some a) = some (f a)

unfoldable pub to_date_range : Option ℕ → Option ℕ → Option Range
to_date_range date_from date_to =
    range_if_any (map_option start_of_day date_from) (map_option end_of_day date_to)

unfoldable pub to_number_range : Option ℕ → Option ℕ → Option Range
to_number_range min max = range_if_any min max

-- The WHERE that a range stands for.
abbrev pub from_on : Option ℕ → ℕ → Bool
from_on none n = true
from_on (some a) n = leb a n

abbrev pub up_to : Option ℕ → ℕ → Bool
up_to none n = true
up_to (some b) n = leb n b

unfoldable pub is_in_range : Option Range → ℕ → Bool
is_in_range none n = true
is_in_range (some r) n = from_on r.gte n && up_to r.lte n

-- A filter by dates holds of exactly the instants whose day in West Africa Time is one of the days.
to_date_range_lem :
    (date_from date_to instant : ℕ)
    → 1 ≤ date_from
    → 1 ≤ date_to
    → (is_in_range (to_date_range (some date_from) (some date_to)) instant ≡ true) ↔ (
        (date_from ≤ (instant + wat_offset_ms) / day_ms)
        × ((instant + wat_offset_ms) / day_ms ≤ date_to))
unfolding is_in_range to_date_range
to_date_range_lem date_from date_to instant h k = (λ e. ground (arith, e), λ e. ground (arith, e))
