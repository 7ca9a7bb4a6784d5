-- ===== src/Trips/Cities.antt =====
-- `normalizeCity` of backend/src/modules/trips/trips.schema.ts, on texts of ASCII characters by their codes: the
-- name of a city as trips are stored and searched.
pub mod Canonical
mod Tests
use transhub.Prelude.{
  ℕ, ◌+◌, ◌-◌, ◌≡◌, refl, sym, ap, ◌∙◌, Bool, true, false, not, ◌&&◌, ◌||◌, List, [], ◌∷◌, ◌==◌,
  leb, if◌then◌else◌, map, arith, ==_iff,
}

abbrev pub Text : Type 0
Text = List ℕ

-- `\s`, `\w` and the letters.
abbrev pub is_space : ℕ → Bool
is_space c = c == 32 || leb 9 c && leb c 13

abbrev pub is_upper : ℕ → Bool
is_upper c = leb 65 c && leb c 90

abbrev pub is_lower : ℕ → Bool
is_lower c = leb 97 c && leb c 122

abbrev pub is_word : ℕ → Bool
is_word c = is_upper c || is_lower c || leb 48 c && leb c 57 || c == 95

abbrev pub to_lower : ℕ → ℕ
to_lower c = if is_upper c then c + 32 else c

abbrev pub to_upper : ℕ → ℕ
to_upper c = if is_lower c then c - 32 else c

abbrev pub is_empty : Text → Bool
is_empty [] = true
is_empty (c ∷ cs) = false

-- `trim`, from the front and from the back.
abbrev pub trim_start : Text → Text
trim_start [] = []
trim_start (c ∷ cs) = let rest = trim_start cs in if is_space c then rest else c ∷ cs

abbrev pub trim_end : Text → Text
trim_end [] = []
trim_end (c ∷ cs) = let rest = trim_end cs in if is_space c && is_empty rest then [] else c ∷ rest

-- `.replace(/\s+/g, " ")`; the flag says that the last character was a space.
abbrev pub collapse : Bool → Text → Text
collapse b [] = []
collapse b (c ∷ cs) =
    let inside = collapse true cs in
    let outside = collapse false cs in
    if is_space c then (if b then inside else 32 ∷ inside) else c ∷ outside

-- `.replace(/\b\w/g, …)`; the flag says that the last character was one of a word.
abbrev pub capitalized : Bool → ℕ → ℕ
capitalized b c = if is_word c && not b then to_upper c else c

abbrev pub capitalize : Bool → Text → Text
capitalize b [] = []
capitalize b (c ∷ cs) = capitalized b c ∷ capitalize (is_word c) cs

abbrev pub styled : Text → Text
styled cs = capitalize false (map to_lower cs)

unfoldable pub normalize_city : Text → Text
normalize_city cs = styled (collapse false (trim_end (trim_start cs)))
