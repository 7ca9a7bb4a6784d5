-- ===== src/ListQuery/Tests.antt =====
-- An instant near midnight.
use transhub.Prelude.{◌+◌, ◌*◌, ◌≡◌, refl, true, some}
use transhub.ListQuery.{to_date_range, is_in_range, day_ms}

-- Half past eleven in the evening of day 4 in UTC is on day 5.
late_evening :
    is_in_range (to_date_range (some 5) (some 5)) (4 * day_ms + 23 * 3600000 + 1800000) ≡ true
unfolding is_in_range to_date_range
late_evening = refl
