-- ===== src/Inventory/Booked.antt =====
-- `lockAndMarkBooked`: the count of the rows that it locks decides what it is meant to decide.
use transhub.Prelude.{
  ℕ, suc, ◌+◌, ◌≤◌, ◌≡◌, refl, sym, ap, ◌∙◌, ◌⊎◌, inl, inr, Bool, true, false, ◌&&◌, ◌||◌, subst,
  List, [], ◌∷◌, arith, ltb, ◌==◌, ==_iff, if◌then◌else◌, Bool-cases, is, length, includes, In,
  EachRow, update_many, update_many-EachRow, count_where, count_where-congr, count_where-gained,
}
use transhub.Errors.{returns, throws, returns_injective, app, hold_expired_error}
use transhub.Inventory.{
  Seat, is_available, is_held, is_booked, ids, book, is_bookable, lock_and_mark_booked,
}
use transhub.Inventory.Rows.{Unique, In-includes, same_row}

-- The list without its first `a`.
remove : ℕ → List ℕ → List ℕ
remove a [] = []
remove a (x ∷ xs) = if x == a then xs else x ∷ remove a xs

includes-remove :
    (a b : ℕ) (xs : List ℕ) → (a == b) ≡ false → includes (remove a xs) b ≡ includes xs b
unfolding remove
includes-remove a b [] h = refl
includes-remove a b (x ∷ xs) h = ground (arith, includes-remove a b xs h)

length-remove :
    (a : ℕ) (xs : List ℕ) → includes xs a ≡ true → suc (length (remove a xs)) ≡ length xs
unfolding remove
length-remove a [] h = cc
length-remove a (x ∷ xs) h = ground (arith, length-remove a xs)

Unique-of_remove :
    (a : ℕ) (xs : List ℕ) → includes (remove a xs) a ≡ false → Unique (remove a xs) → Unique xs
unfolding remove
Unique-of_remove a [] h u = tt
Unique-of_remove a (x ∷ xs) h u = elim (Bool-cases (x == a)) [
  | inl e ↦ ground arith
  | inr e ↦ ground (arith, includes-remove a x xs, Unique-of_remove a xs)
]

-- Every id of the list is the id of a row that passes the test.
abbrev pub Covered : (Seat → Bool) → List Seat → List ℕ → Type 0
Covered q ss is = (a : ℕ) → includes is a ≡ true → (s : Seat) × In s ss × (s.id ≡ a) × (q s ≡ true)

module _ (q : Seat → Bool) where
  -- The rows of a table that are in the list and pass the test.
  abbrev pub hits : List ℕ → List Seat → ℕ
  hits is ss = count_where (λ s. includes is s.id && q s) ss

  hits-remove :
      (a : ℕ) (is : List ℕ) (ss : List Seat)
      → includes (ids ss) a ≡ false
      → hits is ss ≡ hits (remove a is) ss
  unfolding count_where
  hits-remove a is [] h = refl
  hits-remove a is (s ∷ ss) h = ground (arith, includes-remove a s.id is, hits-remove a is ss)

  Covered-weaken :
      (s : Seat) (ss : List Seat) (is : List ℕ) → Covered q ss is → Covered q (s ∷ ss) is
  Covered-weaken s ss is c a h = let (t, m, e, p) = c a h in (t, inr m, e, p)

  Covered-of_remove :
      (s : Seat) (ss : List Seat) (is : List ℕ)
      → q s ≡ true
      → Covered q ss (remove s.id is)
      → Covered q (s ∷ ss) is
  Covered-of_remove s ss is p c a h = elim (Bool-cases (s.id == a)) [
    | inl e ↦ (s, inl refl, (==_iff _ _).0 e, p)
    | inr e ↦ Covered-weaken s ss (remove s.id is) c a (includes-remove s.id a is e ∙ h)
  ]

  remove_absent :
      (s : Seat) (ss : List Seat) (is : List ℕ)
      → includes (ids ss) s.id ≡ false
      → Covered q ss is
      → includes is s.id ≡ false
  remove_absent s ss is h c = elim (Bool-cases (includes is s.id)) [
    | inl e ↦ (let (t, m, p, _) = c s.id e in cc (In-includes t ss m, ap (includes (ids ss)) p, h))
    | inr e ↦ e
  ]

  enough_step :
      (s : Seat) (ss : List Seat) (is : List ℕ)
      → (includes is s.id && q s) ≡ true
      → includes (ids ss) s.id ≡ false
      → Unique (remove s.id is) × Covered q ss (remove s.id is)
      → Unique is × Covered q (s ∷ ss) is
  enough_step s ss is e h (u, c) = (
    Unique-of_remove s.id is (remove_absent s ss (remove s.id is) h c) u,
    Covered-of_remove s ss is (ground arith) c,
  )

  -- As many hits as ids: then the ids are distinct, and each has its row.
  enough_hits :
      (is : List ℕ) (ss : List Seat)
      → Unique (ids ss)
      → length is ≤ hits is ss
      → Unique is × Covered q ss is
  unfolding count_where
  enough_hits [] [] u h = (tt, λ a e. cc)
  enough_hits (i ∷ is) [] u h = absurd (omega arith)
  enough_hits is (s ∷ ss) u h = elim (Bool-cases (includes is s.id && q s)) [
    | inl e ↦ enough_step s ss is e u.0 (
        enough_hits (remove s.id is) ss u.1
          (ground (arith, length-remove s.id is, hits-remove s.id is ss)))
    | inr e ↦ (let (v, c) = enough_hits is ss u.1 (ground arith) in (v, Covered-weaken s ss is c))
  ]

  hits_absent :
      (a : ℕ) (ss : List Seat)
      → includes (ids ss) a ≡ false
      → count_where (λ s. (a == s.id) && q s) ss ≡ 0
  unfolding count_where
  hits_absent a [] h = refl
  hits_absent a (s ∷ ss) h = ground (arith, hits_absent a ss)

  hits_one :
      (r : Seat) (ss : List Seat)
      → In r ss
      → q r ≡ true
      → 1 ≤ count_where (λ s. (r.id == s.id) && q s) ss
  unfolding count_where
  hits_one r [] m p = elim m [ ]
  hits_one r (s ∷ ss) (inl e) p = ground (arith, ap q e, ap (λ (t : Seat). t.id) e)
  hits_one r (s ∷ ss) (inr m) p = ground (arith, hits_one r ss m)

  excludes_eq :
      (is : List ℕ) (a b : ℕ) → (a == b) ≡ true → includes is a ≡ false → includes is b ≡ false
  excludes_eq is a b e h = subst (λ c. includes is c ≡ false) ((==_iff a b).0 e) h

  hits_split :
      (a : ℕ) (is : List ℕ) (ss : List Seat)
      → includes is a ≡ false
      → hits (a ∷ is) ss ≡ count_where (λ s. (a == s.id) && q s) ss + hits is ss
  unfolding count_where
  hits_split a is [] h = refl
  hits_split a is (s ∷ ss) h = ground (arith, excludes_eq is a s.id, hits_split a is ss h)

  hits_of_Covered :
      (is : List ℕ) (ss : List Seat) → Unique is → Covered q ss is → length is ≤ hits is ss
  hits_of_Covered [] ss u c = omega arith
  hits_of_Covered (i ∷ is) ss u c =
      let (r, m, e, p) = c i (ground arith) in
      omega (
        arith,
        hits_split i is ss u.0,
        subst (λ a. 1 ≤ count_where (λ s. (a == s.id) && q s) ss) e (hits_one r ss m p),
        hits_of_Covered is ss u.1 (λ a h. c a (ground arith)),
      )

  hits_at_most_one :
      (a : ℕ) (ss : List Seat) → Unique (ids ss) → count_where (λ s. (a == s.id) && q s) ss ≤ 1
  unfolding count_where
  hits_at_most_one a [] u = omega arith
  hits_at_most_one a (s ∷ ss) u = elim (Bool-cases (a == s.id)) [
    | inl e ↦ ground (arith, hits_absent a ss (rw ((==_iff a s.id).0 e) u.0))
    | inr e ↦ ground (arith, hits_at_most_one a ss u.1)
  ]

  hits_none : (ss : List Seat) → hits [] ss ≡ 0
  unfolding count_where
  hits_none [] = refl
  hits_none (s ∷ ss) = omega (arith, hits_none ss)

  hits_at_most :
      (is : List ℕ) (ss : List Seat) → Unique is → Unique (ids ss) → hits is ss ≤ length is
  hits_at_most [] ss v u = omega (arith, hits_none ss)
  hits_at_most (i ∷ is) ss v u =
      omega (arith, hits_split i is ss v.0, hits_at_most_one i ss u, hits_at_most is ss v.1 u)

-- A seat of the trip that is free, or that the user holds.
abbrev pub is_sellable : ℕ → ℕ → Seat → Bool
is_sellable trip user s =
    s.trip_id == trip && (is_available s.status || (is_held s.status && is s.held_by user))

-- How a booking changes one row: the rows named are booked, the others stay as they are.
abbrev pub BookMove : ℕ → List ℕ → ℕ → Seat → Seat → Type 0
BookMove trip seat_ids user s t =
    ((includes seat_ids s.id ≡ true) × (is_sellable trip user s ≡ true) × (t ≡ book s))
    ⊎ ((includes seat_ids s.id ≡ false) × (t ≡ s))

abbrev pub count_booked : List Seat → ℕ
count_booked = count_where (λ s. is_booked s.status)

module _ (trip : ℕ) (seat_ids : List ℕ) (user : ℕ) (seats : List Seat)
    (unique : Unique (ids seats)) where
  locked-hits :
      count_where (is_bookable trip seat_ids user) seats
      ≡ hits (is_sellable trip user) seat_ids seats
  locked-hits = count_where-congr (is_bookable trip seat_ids user) _ seats (λ s m. ground arith)

  -- The named row is the row that the list covers.
  named_sellable :
      Covered (is_sellable trip user) seats seat_ids
      → (s : Seat) → In s seats
      → includes seat_ids s.id ≡ true
      → is_sellable trip user s ≡ true
  named_sellable c s m h =
      let (t, n, e, p) = c s.id h in
      subst (λ x. is_sellable trip user x ≡ true) (same_row t s seats unique n m e) p

  book_row :
      Covered (is_sellable trip user) seats seat_ids
      → (s : Seat) → In s seats
      → BookMove trip seat_ids user s (if includes seat_ids s.id then book s else s)
  book_row c s m = elim (Bool-cases (includes seat_ids s.id)) [
    | inl e ↦ inl (e, named_sellable c s m e, rw e)
    | inr e ↦ inr (e, rw e)
  ]

  count_booked-lock :
      Unique seat_ids
      → Covered (is_sellable trip user) seats seat_ids
      → count_booked (update_many (λ s. includes seat_ids s.id) book seats)
        ≡ count_booked seats + length seat_ids
  unfolding book
  count_booked-lock v c = omega (
    arith,
    count_where-gained (λ s. is_booked s.status) (λ s. includes seat_ids s.id) book seats
        (λ s m h. ground (arith, named_sellable c s m h)),
    count_where-congr (λ s. includes seat_ids s.id)
        (λ s. includes seat_ids s.id && is_sellable trip user s) seats
        (λ s m. ground (arith, named_sellable c s m)),
    hits_of_Covered (is_sellable trip user) seat_ids seats v c,
    hits_at_most (is_sellable trip user) seat_ids seats v unique,
  )

  -- The number of rows that the SELECT locks.
  locked_rows : ℕ
  locked_rows = count_where (is_bookable trip seat_ids user) seats

  enough_locked :
      length seat_ids ≤ locked_rows
      → Unique seat_ids × Covered (is_sellable trip user) seats seat_ids
  unfolding locked_rows
  enough_locked h =
      enough_hits (is_sellable trip user) seat_ids seats unique (omega (arith, locked-hits))

  locked_enough :
      Unique seat_ids × Covered (is_sellable trip user) seats seat_ids
      → length seat_ids ≤ locked_rows
  unfolding locked_rows
  locked_enough (v, c) =
      omega (arith, locked-hits, hits_of_Covered (is_sellable trip user) seat_ids seats v c)

  -- The seats are booked exactly when the ids are distinct and each is a seat of the trip that is
  -- free or held by the user; otherwise the call fails with HoldExpiredError.
  pub lock_and_mark_booked_decides :
      (Unique seat_ids × Covered (is_sellable trip user) seats seat_ids
        → (ss : List Seat) × (lock_and_mark_booked trip seat_ids user seats ≡ returns ss))
      × (¬ (Unique seat_ids × Covered (is_sellable trip user) seats seat_ids)
          → lock_and_mark_booked trip seat_ids user seats ≡ throws (app hold_expired_error))
  unfolding lock_and_mark_booked locked_rows
  lock_and_mark_booked_decides = (
    λ c. (update_many (λ s. includes seat_ids s.id) book seats, ground (arith, locked_enough c)),
    λ n. elim (Bool-cases (ltb locked_rows (length seat_ids))) [
      | inl e ↦ rw e
      | inr e ↦ absurd (n (enough_locked (ground arith)))
    ],
  )

  -- A booking that succeeds names distinct seats, books each of them, which was free or held by the
  -- user, and leaves every other row as it was; the booked seats grow by as many as were named.
  pub lock_and_mark_booked_lem :
      {ss : List Seat}
      → lock_and_mark_booked trip seat_ids user seats ≡ returns ss
      → Unique seat_ids
        × (count_booked ss ≡ count_booked seats + length seat_ids)
        × EachRow (BookMove trip seat_ids user) seats ss
  unfolding lock_and_mark_booked locked_rows
  lock_and_mark_booked_lem {ss} h = elim (Bool-cases (ltb locked_rows (length seat_ids))) [
    | inl e ↦ cc (rw e at h)
    | inr e ↦ done (returns_injective (rw e at h)) (enough_locked (ground arith))
  ]
    where
      done :
          update_many (λ s. includes seat_ids s.id) book seats ≡ ss
          → Unique seat_ids × Covered (is_sellable trip user) seats seat_ids
          → Unique seat_ids
            × (count_booked ss ≡ count_booked seats + length seat_ids)
            × EachRow (BookMove trip seat_ids user) seats ss
      done e (v, c) = (
        v,
        ap count_booked (sym e) ∙ count_booked-lock v c,
        subst (EachRow (BookMove trip seat_ids user) seats) e
            (update_many-EachRow _ _ book seats (book_row c)),
      )
