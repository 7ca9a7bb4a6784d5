-- ===== src/Trips/Labels.antt =====
-- The labels of seats: four to a row, A1 to Y4.
use transhub.Prelude.{
  ℕ, zero, suc, ◌+◌, ◌-◌, ◌*◌, ◌/◌, ◌%◌, ◌<◌, ◌≤◌, ◌≡◌, refl, ap, List, [], ◌∷◌, All, map, arith,
}
use transhub.Trips.{seat_label, two_chars, labels_from, generate_seat_labels}

-- The place of a seat in the bus, read back from its label.
unfoldable pub place_of : ℕ → ℕ
place_of label = (label / 256 - 65) * 4 + (label % 256 - 49)

place_of-seat_label : (i : ℕ) → i < 100 → place_of (seat_label i) ≡ i
unfolding place_of seat_label
place_of-seat_label i h = omega arith

abbrev pub range_from : ℕ → ℕ → List ℕ
range_from i zero = []
range_from i (suc n) = i ∷ range_from (suc i) n

-- Each element is below the next.
abbrev pub IsAscending : List ℕ → Type 0
IsAscending [] = Unit {0}
IsAscending (a ∷ []) = Unit {0}
IsAscending (a ∷ b ∷ rest) = (a < b) × IsAscending (b ∷ rest)

-- A row A to Y and a column 1 to 4.
abbrev pub IsLabel : ℕ → Type 0
IsLabel l =
    (row : ℕ) × (column : ℕ) × (row < 25) × (column < 4) × (l ≡ two_chars (65 + row) (49 + column))

places_from : (i n : ℕ) → i + n ≤ 100 → map place_of (labels_from i n) ≡ range_from i n
unfolding labels_from
places_from i zero h = refl
places_from i (suc n) h =
    rw (place_of-seat_label i (omega arith)) (ap (◌∷◌ i) (places_from (suc i) n (omega arith)))

labels_from-IsAscending : (i n : ℕ) → i + n ≤ 100 → IsAscending (labels_from i n)
unfolding labels_from seat_label
labels_from-IsAscending i zero h = tt
labels_from-IsAscending i (suc zero) h = tt
labels_from-IsAscending i (suc (suc n)) h =
    (omega arith, labels_from-IsAscending (suc i) (suc n) (omega arith))

all_labels : (i n : ℕ) → i + n ≤ 100 → All IsLabel (labels_from i n)
unfolding labels_from seat_label
all_labels i zero h = tt
all_labels i (suc n) h =
    ((i / 4, i % 4, omega arith, omega arith, omega arith), all_labels (suc i) n (omega arith))

-- For a bus of at most 100 seats: a label is a letter from A to Y and a digit from 1 to 4, the labels
-- rise in the order of the places, so no two are the same, and the place of each seat, counted from 0,
-- can be read back from its label.
pub generate_seat_labels_lem :
    (count : ℕ)
    → count ≤ 100
    → (map place_of (generate_seat_labels count) ≡ range_from 0 count)
      × IsAscending (generate_seat_labels count)
      × All IsLabel (generate_seat_labels count)
unfolding generate_seat_labels
generate_seat_labels_lem count h = (
  places_from 0 count (omega arith),
  labels_from-IsAscending 0 count (omega arith),
  all_labels 0 count (omega arith),
)

-- With 105 seats the labels run past Z.
past_the_alphabet : seat_label 104 ≡ two_chars 91 49
unfolding seat_label
past_the_alphabet = refl
