-- ===== src/Inventory/Claim.antt =====
-- The hold transaction of `holdSeats`: the user's earlier holds on the trip are released, then free
-- seats are claimed. An error rolls it back.
use transhub.Prelude.{
  ℕ, suc, ◌≤◌, ◌<◌, ◌≡◌, refl, sym, ap, ◌∙◌, ◌⊎◌, inl, inr, Bool, true, false, not, ◌&&◌, ◌||◌,
  subst, List, [], ◌∷◌, arith, ltb, lt→ltb, ltb→lt, ◌==◌, if◌then◌else◌, Bool-cases, is, length,
  includes, In, is_after, length-find_many, min, EachRow, update_many, count_where,
  count_where-updated, In-update_many, update_many-none, update_twice-EachRow,
}
use transhub.Errors.{Result, returns, returns_injective, throws, app, insufficient_seats_error}
use transhub.Inventory.{
  Seat, is_available, is_held, ids, release, hold, is_held_by, is_free, release_user_holds_for_trip,
  select_free, claim_seats, held_seat_ids,
}
use transhub.Inventory.Rows.{
  Unique, same_row, ids-update_many, select_free-In, select_free-Unique, includes-In,
  length-select_free, count-picked,
}

unfoldable pub hold_transaction : ℕ → ℕ → ℕ → ℕ → List ℕ → List Seat → Result (List ℕ × List Seat)
unfolding claim_seats
hold_transaction trip quantity user until locked seats =
    claim_seats trip quantity user until locked (release_user_holds_for_trip trip user seats)

-- What a user may take: a seat of the trip that is free, or that the user holds already, unless
-- another transaction has locked it.
abbrev pub is_within_reach : ℕ → ℕ → List ℕ → Seat → Bool
is_within_reach trip user locked s =
    s.trip_id == trip
    && (is_available s.status || (is_held s.status && is s.held_by user))
    && not (includes locked s.id)

count-is_free-release :
    (trip user : ℕ) (locked : List ℕ) (seats : List Seat)
    → count_where (is_free trip locked) (release_user_holds_for_trip trip user seats)
      ≡ count_where (is_within_reach trip user locked) seats
unfolding release_user_holds_for_trip release update_many count_where
count-is_free-release trip user locked [] = refl
count-is_free-release trip user locked (s ∷ ss) =
    ground (arith, count-is_free-release trip user locked ss)

pub length-ids : (ss : List Seat) → length (ids ss) ≡ length ss
length-ids [] = refl
length-ids (s ∷ ss) = ap suc (length-ids ss)

module _ (trip quantity user until : ℕ) (locked : List ℕ) (seats : List Seat) where
  abbrev released : List Seat
  released = release_user_holds_for_trip trip user seats

  abbrev rows : List Seat
  rows = select_free trip quantity locked released

  abbrev reach : ℕ
  reach = count_where (is_within_reach trip user locked) seats

  length-rows : length rows ≡ min quantity reach
  length-rows = omega (
    arith,
    length-select_free trip quantity locked released,
    count-is_free-release trip user locked seats,
  )

  too_few : reach < quantity → ltb (length rows) quantity ≡ true
  too_few few = lt→ltb _ _ (omega (arith, length-rows))

  enough : quantity ≤ reach → ltb (length rows) quantity ≡ false
  enough h = ground (arith, length-rows)

  -- A hold fails exactly when fewer than the requested number of seats are within the user's reach,
  -- and then with InsufficientSeatsError.
  pub hold_transaction_decides :
      (reach < quantity
        → hold_transaction trip quantity user until locked seats
          ≡ throws (app insufficient_seats_error))
      × (quantity ≤ reach
          → hold_transaction trip quantity user until locked seats
            ≡ returns
                (ids rows, update_many (λ s. includes (ids rows) s.id) (hold user until) released))
  unfolding hold_transaction
  hold_transaction_decides = ((λ few. rw (too_few few)), (λ h. rw (enough h)))

-- How one hold changes one row.
abbrev pub HoldMove : ℕ → ℕ → ℕ → Seat → Seat → Type 0
HoldMove trip user until s t =
    (t ≡ s)
    ⊎ ((is_held_by trip user s ≡ true) × (t ≡ release s))
    ⊎ ((is_within_reach trip user [] s ≡ true) × (t ≡ hold user until s))

-- A hold of the user that has not run out at `now`: what `heldSeatIds` selects.
abbrev pub is_live : ℕ → ℕ → ℕ → Seat → Bool
is_live trip user now s = is_held_by trip user s && is_after s.held_until now

-- What a hold of `quantity` seats gives: the ids named and the rows afterwards.
abbrev pub Held : ℕ → ℕ → ℕ → ℕ → List Seat → List ℕ × List Seat → Type 0
Held trip quantity user until seats (is, ss) =
    (count_where (is_held_by trip user) ss ≡ quantity)
    × ((now : ℕ) → now < until → length (held_seat_ids trip user now ss) ≡ quantity)
    × (length is ≡ quantity)
    × Unique is
    × EachRow (HoldMove trip user until) seats ss

module _ (trip quantity user until : ℕ) (locked : List ℕ) (seats : List Seat)
    (unique : Unique (ids seats)) where
  abbrev freed : List Seat
  freed = release_user_holds_for_trip trip user seats

  abbrev picked : List Seat
  picked = select_free trip quantity locked freed

  abbrev after : List Seat
  after = update_many (λ s. includes (ids picked) s.id) (hold user until) freed

  ids-freed : ids freed ≡ ids seats
  unfolding release_user_holds_for_trip release
  ids-freed = ids-update_many (is_held_by trip user) release seats (λ s. refl)

  Unique-freed : Unique (ids freed)
  Unique-freed = rw ids-freed unique

  -- A row whose id was picked is one of the rows picked.
  picked-free :
      (s : Seat) → In s freed → includes (ids picked) s.id ≡ true → is_free trip locked s ≡ true
  picked-free s m h =
      let (r, n, e) = includes-In s.id picked h in
      let (n', f) = select_free-In trip quantity locked freed r n in
      subst (λ x. is_free trip locked x ≡ true) (same_row r s freed Unique-freed n' m e) f

  -- The row as it is after the release.
  In-freed : (s : Seat) → In s seats → In (if is_held_by trip user s then release s else s) freed
  unfolding release_user_holds_for_trip
  In-freed s m = In-update_many (is_held_by trip user) release seats s m

  hold_row :
      (s : Seat)
      → In s seats
      → let t = if is_held_by trip user s then release s else s in
        HoldMove trip user until s (if includes (ids picked) t.id then hold user until t else t)
  unfolding release hold
  hold_row s m =
      ground (arith, picked-free (if is_held_by trip user s then release s else s) (In-freed s m))

  none_held : (s : Seat) → In s freed → is_held_by trip user s ≡ false
  unfolding release_user_holds_for_trip release
  none_held s m = update_many-none (is_held_by trip user) release seats s (λ t. ground arith) m

  held_row :
      (s : Seat)
      → In s freed
      → (includes (ids picked) s.id ≡ true → is_held_by trip user (hold user until s) ≡ true)
        × (includes (ids picked) s.id ≡ false → is_held_by trip user s ≡ false)
  unfolding hold
  held_row s m = ((λ h. ground (arith, picked-free s m h)), λ h. none_held s m)

  count_after :
      quantity ≤ count_where (is_within_reach trip user locked) seats
      → count_where (is_held_by trip user) after ≡ quantity
  count_after h = omega (
    arith,
    count_where-updated (is_held_by trip user) (λ s. includes (ids picked) s.id) (hold user until)
        freed held_row,
    count-picked picked freed Unique-freed
        (select_free-Unique trip quantity locked freed Unique-freed)
        (λ r m. (select_free-In trip quantity locked freed r m).0),
    length-rows trip quantity user until locked seats,
  )

  live_row :
      (now : ℕ)
      → now < until
      → (s : Seat) → In s freed
      → (includes (ids picked) s.id ≡ true → is_live trip user now (hold user until s) ≡ true)
        × (includes (ids picked) s.id ≡ false → is_live trip user now s ≡ false)
  unfolding hold
  live_row now h s m = ground (arith, held_row s m)

  -- Until the hold runs out, it is exactly what `heldSeatIds` counts.
  pub count_live_after :
      (now : ℕ)
      → now < until
      → count_where (is_live trip user now) after ≡ count_where (is_held_by trip user) after
  count_live_after now h = omega (
    arith,
    count_where-updated (is_live trip user now) (λ s. includes (ids picked) s.id) (hold user until)
        freed (live_row now h),
    count_where-updated (is_held_by trip user) (λ s. includes (ids picked) s.id) (hold user until)
        freed held_row,
  )

  live_ids :
      (now : ℕ)
      → now < until
      → length (held_seat_ids trip user now after) ≡ count_where (is_live trip user now) after
  unfolding held_seat_ids
  live_ids now soon = length-ids _ ∙ length-find_many (is_live trip user now) after

  after-Held :
      quantity ≤ count_where (is_within_reach trip user locked) seats
      → Held trip quantity user until seats (ids picked, after)
  unfolding release_user_holds_for_trip
  after-Held h = (
    count_after h,
    λ now soon. live_ids now soon ∙ count_live_after now soon ∙ count_after h,
    omega (arith, length-ids picked, length-rows trip quantity user until locked seats),
    select_free-Unique trip quantity locked freed Unique-freed,
    update_twice-EachRow (HoldMove trip user until) (is_held_by trip user) _ release
        (hold user until) seats hold_row,
  )

-- A hold that succeeds leaves the user with exactly the requested number of held seats on the trip,
-- `heldSeatIds` returns that many ids until the hold runs out, names as many distinct ids, and changes each row in one of three ways: not at all, by releasing
-- the user's own earlier hold, or by holding a seat of the trip that was free or already the user's.
pub hold_transaction_lem :
    (trip quantity user until : ℕ) (locked : List ℕ) (seats : List Seat) {r : List ℕ × List Seat}
    → Unique (ids seats)
    → hold_transaction trip quantity user until locked seats ≡ returns r
    → Held trip quantity user until seats r
hold_transaction_lem trip quantity user until locked seats unique e =
    let (fails, holds) = hold_transaction_decides trip quantity user until locked seats in
    elim (Bool-cases (ltb (count_where (is_within_reach trip user locked) seats) quantity)) [
      | inl few ↦ cc (fails (ltb→lt _ _ few))
      | inr h ↦
          let enough : quantity ≤ count_where (is_within_reach trip user locked) seats =
            ground arith in
          subst (Held trip quantity user until seats) (returns_injective (sym (holds enough) ∙ e))
            (after-Held trip quantity user until locked seats unique enough)
    ]
