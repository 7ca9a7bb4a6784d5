-- ===== src/Trips/Cities/Tests.antt =====
-- "  port   HARCOURT " and the same in other letters.
use transhub.Prelude.{◌≡◌, refl, true, [], ◌∷◌}
use transhub.Trips.Cities.{Text, normalize_city}
use transhub.Trips.Cities.Canonical.{is_tidy, normalize_city_lem}

abbrev shouted : Text
shouted = 32 ∷ 32 ∷ 112 ∷ 111 ∷ 114 ∷ 116 ∷ 32 ∷ 9 ∷ 72 ∷ 65 ∷ 82 ∷ 67 ∷ 32 ∷ []

abbrev mixed : Text
mixed = 32 ∷ 32 ∷ 80 ∷ 111 ∷ 82 ∷ 116 ∷ 32 ∷ 9 ∷ 104 ∷ 65 ∷ 114 ∷ 99 ∷ 32 ∷ []

-- "Port Harc".
normal : normalize_city shouted ≡ 80 ∷ 111 ∷ 114 ∷ 116 ∷ 32 ∷ 72 ∷ 97 ∷ 114 ∷ 99 ∷ []
unfolding normalize_city
normal = refl

normalize_city_lem_example :
    (normalize_city shouted ≡ normalize_city mixed)
    × (is_tidy (normalize_city shouted) ≡ true)
    × (normalize_city (normalize_city shouted) ≡ normalize_city shouted)
normalize_city_lem_example = normalize_city_lem shouted mixed refl
