-- ===== src/Trips/Cities/Canonical.antt =====
-- The canonical form of the name of a city.
use transhub.Prelude.{
  ℕ, ◌≡◌, refl, sym, ap, subst, ◌∙◌, Bool, true, false, not, ◌&&◌, [], ◌∷◌, ◌==◌, if◌then◌else◌,
  map, arith, ==_iff, inl, inr, Bool-cases,
}
use transhub.Trips.Cities.{
  Text, is_space, is_word, to_lower, is_empty, trim_start, trim_end, collapse, capitalized,
  capitalize, styled, normalize_city,
}

-- What is left of the spaces: one code 32 between words, none at the end.
abbrev pub is_tidy_after : Bool → Text → Bool
is_tidy_after b [] = not b
is_tidy_after b (c ∷ cs) =
    if is_space c then (c == 32 && not b && is_tidy_after true cs) else is_tidy_after false cs

abbrev pub is_tidy : Text → Bool
is_tidy [] = true
is_tidy (c ∷ cs) = not (is_space c) && is_tidy_after false cs

-- The text does not end in a space, or does not begin with one.
abbrev is_ended : Bool → Text → Bool
is_ended b [] = not b
is_ended b (c ∷ cs) = is_ended (is_space c) cs

abbrev is_begun : Text → Bool
is_begun [] = true
is_begun (c ∷ cs) = not (is_space c)

is_ended-trim_end : (cs : Text) → is_ended false (trim_end cs) ≡ true
is_ended-trim_end [] = refl
is_ended-trim_end (c ∷ cs) = ended c (trim_end cs) (is_ended-trim_end cs)
  where
    ended :
        (c : ℕ) (rest : Text)
        → is_ended false rest ≡ true
        → is_ended false (if is_space c && is_empty rest then [] else c ∷ rest) ≡ true
    ended c [] h = ground arith
    ended c (d ∷ ds) h = ground (arith, h)

is_begun-trim_start : (cs : Text) → is_begun (trim_start cs) ≡ true
is_begun-trim_start [] = refl
is_begun-trim_start (c ∷ cs) = ground (arith, is_begun-trim_start cs)

is_begun-trim_end : (cs : Text) → is_begun cs ≡ true → is_begun (trim_end cs) ≡ true
is_begun-trim_end [] h = refl
is_begun-trim_end (c ∷ cs) h = ground (arith, h)

is_tidy_after-collapse :
    (b : Bool) (cs : Text) → is_ended b cs ≡ true → is_tidy_after b (collapse b cs) ≡ true
is_tidy_after-collapse b [] h = h
is_tidy_after-collapse true (c ∷ cs) h = elim (Bool-cases (is_space c)) [
  | inl e ↦ rw e (is_tidy_after-collapse true cs (rw e at h))
  | inr e ↦ rw e (rw e (is_tidy_after-collapse false cs (rw e at h)))
]
is_tidy_after-collapse false (c ∷ cs) h = elim (Bool-cases (is_space c)) [
  | inl e ↦ rw e (is_tidy_after-collapse true cs (rw e at h))
  | inr e ↦ rw e (rw e (is_tidy_after-collapse false cs (rw e at h)))
]

is_tidy_after-tail :
    (b : Bool) (c : ℕ) (cs : Text)
    → is_tidy_after b (c ∷ cs) ≡ true
    → is_tidy_after (is_space c) cs ≡ true
is_tidy_after-tail b c cs h = elim (Bool-cases (is_space c)) [
  | inl e ↦ rw e (ground (arith, e, h))
  | inr e ↦ rw e (ground (arith, e, h))
]

trim_end_tidy : (b : Bool) (cs : Text) → is_tidy_after b cs ≡ true → trim_end cs ≡ cs
trim_end_tidy b [] h = refl
trim_end_tidy b (c ∷ []) h = ground (arith, h)
trim_end_tidy b (c ∷ d ∷ ds) h =
    subst (λ r. (if is_space c && is_empty r then [] else c ∷ r) ≡ c ∷ d ∷ ds)
      (sym (trim_end_tidy (is_space c) (d ∷ ds) (is_tidy_after-tail b c (d ∷ ds) h))) (ground arith)

collapse_tidy : (b : Bool) (cs : Text) → is_tidy_after b cs ≡ true → collapse b cs ≡ cs
collapse_tidy b [] h = refl
collapse_tidy true (c ∷ cs) h = ground (arith, h, collapse_tidy false cs)
collapse_tidy false (c ∷ cs) h =
    ground (arith, h, collapse_tidy true cs, collapse_tidy false cs, ==_iff c 32)

to_lower-capitalized : (b : Bool) (c : ℕ) → to_lower (capitalized b (to_lower c)) ≡ to_lower c
to_lower-capitalized b c = ground arith

is_word-capitalized :
    (b : Bool) (c : ℕ) → is_word (capitalized b (to_lower c)) ≡ is_word (to_lower c)
is_word-capitalized b c = ground arith

is_space-capitalized : (b : Bool) (c : ℕ) → is_space (capitalized b (to_lower c)) ≡ is_space c
is_space-capitalized b c = ground arith

is_blank-capitalized : (b : Bool) (c : ℕ) → (capitalized b (to_lower c) == 32) ≡ (c == 32)
is_blank-capitalized b c = ground arith

is_tidy_after-capitalize :
    (b p : Bool) (cs : Text) → is_tidy_after b (capitalize p (map to_lower cs)) ≡ is_tidy_after b cs
is_tidy_after-capitalize b p [] = refl
is_tidy_after-capitalize b p (c ∷ cs) =
    rw
      (
        is_space-capitalized p c,
        is_blank-capitalized p c,
        is_tidy_after-capitalize true (is_word (to_lower c)) cs,
        is_tidy_after-capitalize false (is_word (to_lower c)) cs,
      )
      refl

capitalize-capitalize :
    (p : Bool) (cs : Text)
    → capitalize p (map to_lower (capitalize p (map to_lower cs))) ≡ capitalize p (map to_lower cs)
capitalize-capitalize p [] = refl
capitalize-capitalize p (c ∷ cs) =
    rw (to_lower-capitalized p c)
      (ap (◌∷◌ (capitalized p (to_lower c))) (capitalize-capitalize (is_word (to_lower c)) cs))

abbrev spaced : Text → Text
spaced cs = collapse false (trim_end (trim_start cs))

is_tidy-collapse :
    (cs : Text) → is_begun cs ≡ true → is_ended false cs ≡ true → is_tidy (collapse false cs) ≡ true
is_tidy-collapse [] h k = refl
is_tidy-collapse (c ∷ cs) h k = elim (Bool-cases (is_space c)) [
  | inl e ↦ ground (arith, e, h)
  | inr e ↦ rw e (rw e (is_tidy_after-collapse false cs (rw e at k)))
]

is_tidy-spaced : (cs : Text) → is_tidy (spaced cs) ≡ true
is_tidy-spaced cs =
    is_tidy-collapse (trim_end (trim_start cs))
      (is_begun-trim_end (trim_start cs) (is_begun-trim_start cs))
      (is_ended-trim_end (trim_start cs))

spaced_tidy : (cs : Text) → is_tidy cs ≡ true → spaced cs ≡ cs
spaced_tidy [] h = refl
spaced_tidy (c ∷ cs) h =
    let tidy : is_tidy_after false (c ∷ cs) ≡ true = ground (arith, h) in
    let begun : trim_start (c ∷ cs) ≡ c ∷ cs = ground (arith, h) in
    ap (λ t. collapse false (trim_end t)) begun
    ∙ ap (collapse false) (trim_end_tidy false (c ∷ cs) tidy)
    ∙ collapse_tidy false (c ∷ cs) tidy

is_tidy-styled : (cs : Text) → is_tidy (styled cs) ≡ is_tidy cs
is_tidy-styled [] = refl
is_tidy-styled (c ∷ cs) =
    rw (is_space-capitalized false c, is_tidy_after-capitalize false (is_word (to_lower c)) cs) refl

normalize_city-normalize_city : (cs : Text) → normalize_city (normalize_city cs) ≡ normalize_city cs
unfolding normalize_city
normalize_city-normalize_city cs =
    ap styled (spaced_tidy (styled (spaced cs)) (is_tidy-styled (spaced cs) ∙ is_tidy-spaced cs))
    ∙ capitalize-capitalize false (spaced cs)

trim_start-map : (cs : Text) → trim_start (map to_lower cs) ≡ map to_lower (trim_start cs)
trim_start-map [] = refl
trim_start-map (c ∷ cs) = ground (arith, trim_start-map cs)

is_empty-map : (cs : Text) → is_empty (map to_lower cs) ≡ is_empty cs
is_empty-map [] = refl
is_empty-map (c ∷ cs) = refl

trim_end-map : (cs : Text) → trim_end (map to_lower cs) ≡ map to_lower (trim_end cs)
trim_end-map [] = refl
trim_end-map (c ∷ cs) = ground (arith, trim_end-map cs, is_empty-map (trim_end cs))

collapse-map : (b : Bool) (cs : Text) → collapse b (map to_lower cs) ≡ map to_lower (collapse b cs)
collapse-map b [] = refl
collapse-map b (c ∷ cs) = ground (arith, collapse-map true cs, collapse-map false cs)

to_lower-to_lower : (c : ℕ) → to_lower (to_lower c) ≡ to_lower c
to_lower-to_lower c = ground arith

map-map : (cs : Text) → map to_lower (map to_lower cs) ≡ map to_lower cs
map-map [] = refl
map-map (c ∷ cs) = rw (to_lower-to_lower c) (ap (◌∷◌ (to_lower c)) (map-map cs))

normalize_city-map : (cs : Text) → normalize_city (map to_lower cs) ≡ normalize_city cs
unfolding normalize_city
normalize_city-map cs =
    ap (λ t. styled (collapse false (trim_end t))) (trim_start-map cs)
    ∙ ap (λ t. styled (collapse false t)) (trim_end-map (trim_start cs))
    ∙ ap styled (collapse-map false (trim_end (trim_start cs)))
    ∙ ap (capitalize false) (map-map (spaced cs))

-- Two texts that differ only in the case of letters have one normal form; it begins and ends with no space and has
-- one code 32 between two words; and it is its own normal form, so that a search for the text that a trip is stored
-- under, in whatever case, compares with that text.
pub normalize_city_lem :
    (cs ds : Text)
    → map to_lower cs ≡ map to_lower ds
    → (normalize_city cs ≡ normalize_city ds)
      × (is_tidy (normalize_city cs) ≡ true)
      × (normalize_city (normalize_city cs) ≡ normalize_city cs)
unfolding normalize_city
normalize_city_lem cs ds e = (
  sym (normalize_city-map cs) ∙ ap normalize_city e ∙ normalize_city-map ds,
  is_tidy-styled (spaced cs) ∙ is_tidy-spaced cs,
  normalize_city-normalize_city cs,
)
