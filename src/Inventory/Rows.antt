-- ===== src/Inventory/Rows.antt =====
-- Seat rows and their primary key: what an update keeps, and what a selection finds.
use transhub.Prelude.{
  ℕ, zero, suc, ◌+◌, ◌≡◌, refl, sym, ◌∙◌, ◌⊎◌, inl, inr, Bool, true, false, ◌||◌, List, [], ◌∷◌,
  arith, ◌==◌, Bool-cases, ==_iff, length, take, includes, In, min, subst, count_where-never,
  length-take, length-find_many, update_many, count_where, find_many, In-find_many,
}
use transhub.Inventory.{Seat, ids, insert_by_label, order_by_label, select_free, is_free}

-- No id occurs twice.
abbrev pub Unique : List ℕ → Type 0
Unique [] = Unit {0}
Unique (x ∷ xs) = (includes xs x ≡ false) × Unique xs

pub In-includes : (s : Seat) (ss : List Seat) → In s ss → includes (ids ss) s.id ≡ true
In-includes s [] m = elim m [ ]
In-includes s (t ∷ ts) m = ground (arith, In-includes s ts)

-- The primary key determines the row.
pub same_row :
    (s t : Seat) (ss : List Seat) → Unique (ids ss) → In s ss → In t ss → s.id ≡ t.id → s ≡ t
same_row s t [] u m n e = elim m [ ]
same_row s t (x ∷ xs) u (inl p) (inl q) e = p ∙ sym q
same_row s t (x ∷ xs) u (inl p) (inr n) e = ground (arith, In-includes t xs n)
same_row s t (x ∷ xs) u (inr m) (inl q) e = ground (arith, In-includes s xs m)
same_row s t (x ∷ xs) u (inr m) (inr n) e = same_row s t xs u.1 m n e

pub ids-update_many :
    (p : Seat → Bool) (f : Seat → Seat) (ss : List Seat)
    → ((s : Seat) → (f s).id ≡ s.id)
    → ids (update_many p f ss) ≡ ids ss
unfolding update_many
ids-update_many p f [] h = refl
ids-update_many p f (s ∷ ss) h = ground (arith, h s, ids-update_many p f ss h)

In-insert_by_label : (x s : Seat) (ss : List Seat) → In x (insert_by_label s ss) → (x ≡ s) ⊎ In x ss
unfolding insert_by_label
In-insert_by_label x s [] m = m
In-insert_by_label x s (t ∷ ts) m = ground (arith, In-insert_by_label x s ts)

In-order_by_label : (x : Seat) (ss : List Seat) → In x (order_by_label ss) → In x ss
unfolding order_by_label
In-order_by_label x [] m = m
In-order_by_label x (s ∷ ss) m =
    ground (arith, In-insert_by_label x s (order_by_label ss), In-order_by_label x ss)

In-take : (n : ℕ) (x : Seat) (ss : List Seat) → In x (take n ss) → In x ss
In-take zero x ss m = elim m [ ]
In-take (suc n) x [] m = m
In-take (suc n) x (s ∷ ss) (inl p) = inl p
In-take (suc n) x (s ∷ ss) (inr m) = inr (In-take n x ss m)

-- A selected row stands in the table and is free.
pub select_free-In :
    (trip quantity : ℕ) (locked : List ℕ) (seats : List Seat) (x : Seat)
    → In x (select_free trip quantity locked seats)
    → In x seats × (is_free trip locked x ≡ true)
unfolding select_free
select_free-In trip quantity locked seats x m =
    In-find_many _ seats x (In-order_by_label x _ (In-take quantity x _ m))

includes-insert_by_label :
    (a : ℕ) (s : Seat) (ss : List Seat)
    → includes (ids (insert_by_label s ss)) a ≡ ((s.id == a) || includes (ids ss) a)
unfolding insert_by_label
includes-insert_by_label a s [] = refl
includes-insert_by_label a s (t ∷ ts) = ground (arith, includes-insert_by_label a s ts)

insert_by_label-Unique :
    (s : Seat) (ss : List Seat)
    → includes (ids ss) s.id ≡ false
    → Unique (ids ss)
    → Unique (ids (insert_by_label s ss))
unfolding insert_by_label
insert_by_label-Unique s [] h u = (refl, tt)
insert_by_label-Unique s (t ∷ ts) h u =
    ground (arith, insert_by_label-Unique s ts, includes-insert_by_label t.id s ts)

includes-order_by_label :
    (a : ℕ) (ss : List Seat) → includes (ids (order_by_label ss)) a ≡ includes (ids ss) a
unfolding order_by_label
includes-order_by_label a [] = refl
includes-order_by_label a (s ∷ ss) =
    ground (arith, includes-insert_by_label a s (order_by_label ss), includes-order_by_label a ss)

order_by_label-Unique : (ss : List Seat) → Unique (ids ss) → Unique (ids (order_by_label ss))
unfolding order_by_label
order_by_label-Unique [] u = tt
order_by_label-Unique (s ∷ ss) u =
    insert_by_label-Unique s (order_by_label ss) (includes-order_by_label s.id ss ∙ u.0)
      (order_by_label-Unique ss u.1)

includes-find_many :
    (p : Seat → Bool) (a : ℕ) (ss : List Seat)
    → includes (ids ss) a ≡ false
    → includes (ids (find_many p ss)) a ≡ false
unfolding find_many
includes-find_many p a [] h = refl
includes-find_many p a (s ∷ ss) h = ground (arith, includes-find_many p a ss)

pub find_many-Unique :
    (p : Seat → Bool) (ss : List Seat) → Unique (ids ss) → Unique (ids (find_many p ss))
unfolding find_many
find_many-Unique p [] u = tt
find_many-Unique p (s ∷ ss) u = ground (arith, find_many-Unique p ss, includes-find_many p s.id ss)

includes-take :
    (n a : ℕ) (ss : List Seat) → includes (ids ss) a ≡ false → includes (ids (take n ss)) a ≡ false
includes-take zero a ss h = refl
includes-take (suc n) a [] h = refl
includes-take (suc n) a (s ∷ ss) h = ground (arith, includes-take n a ss)

take-Unique : (n : ℕ) (ss : List Seat) → Unique (ids ss) → Unique (ids (take n ss))
take-Unique zero ss u = tt
take-Unique (suc n) [] u = tt
take-Unique (suc n) (s ∷ ss) u = (includes-take n s.id ss u.0, take-Unique n ss u.1)

pub select_free-Unique :
    (trip quantity : ℕ) (locked : List ℕ) (seats : List Seat)
    → Unique (ids seats)
    → Unique (ids (select_free trip quantity locked seats))
unfolding select_free
select_free-Unique trip quantity locked seats u =
    take-Unique quantity _ (order_by_label-Unique _ (find_many-Unique _ seats u))

length-insert_by_label :
    (s : Seat) (ss : List Seat) → length (insert_by_label s ss) ≡ suc (length ss)
unfolding insert_by_label
length-insert_by_label s [] = refl
length-insert_by_label s (t ∷ ts) = ground (arith, length-insert_by_label s ts)

pub length-order_by_label : (ss : List Seat) → length (order_by_label ss) ≡ length ss
unfolding order_by_label
length-order_by_label [] = refl
length-order_by_label (s ∷ ss) =
    omega (arith, length-insert_by_label s (order_by_label ss), length-order_by_label ss)

pub length-select_free :
    (trip quantity : ℕ) (locked : List ℕ) (seats : List Seat)
    → length (select_free trip quantity locked seats)
      ≡ min quantity (count_where (is_free trip locked) seats)
unfolding select_free
length-select_free trip quantity locked seats = omega (
  arith,
  length-take quantity (order_by_label (find_many (is_free trip locked) seats)),
  length-order_by_label (find_many (is_free trip locked) seats),
  length-find_many (is_free trip locked) seats,
)

pub includes-In :
    (a : ℕ) (ss : List Seat) → includes (ids ss) a ≡ true → (s : Seat) × In s ss × (s.id ≡ a)
includes-In a [] h = cc
includes-In a (s ∷ ss) h = elim (Bool-cases (s.id == a)) [
  | inl e ↦ (s, inl refl, (==_iff _ _).0 e)
  | inr e ↦ (let r = includes-In a ss (ground arith) in (r.0, inr r.1, r.2))
]

count_absent :
    (a : ℕ) (ss : List Seat) → includes (ids ss) a ≡ false → count_where (λ s. a == s.id) ss ≡ 0
unfolding count_where
count_absent a [] h = refl
count_absent a (s ∷ ss) h = ground (arith, count_absent a ss)

count_one :
    (r : Seat) (ss : List Seat) → Unique (ids ss) → In r ss → count_where (λ s. r.id == s.id) ss ≡ 1
unfolding count_where
count_one r [] u m = elim m [ ]
count_one r (s ∷ ss) u (inl e) = ground (arith, count_absent r.id ss)
count_one r (s ∷ ss) u (inr m) = ground (arith, In-includes r ss m, count_one r ss u.1 m)

includes_eq :
    (is : List ℕ) (a b : ℕ) → (a == b) ≡ true → includes is a ≡ false → includes is b ≡ false
includes_eq is a b e h = subst (λ c. includes is c ≡ false) ((==_iff a b).0 e) h

count_split :
    (a : ℕ) (is : List ℕ) (ss : List Seat)
    → includes is a ≡ false
    → count_where (λ s. (a == s.id) || includes is s.id) ss
      ≡ count_where (λ s. a == s.id) ss + count_where (λ s. includes is s.id) ss
unfolding count_where
count_split a is [] h = refl
count_split a is (s ∷ ss) h = ground (arith, includes_eq is a s.id, count_split a is ss h)

-- Rows picked from a table are as many as the rows of the table with their ids.
pub count-picked :
    (rows ss : List Seat)
    → Unique (ids ss)
    → Unique (ids rows)
    → ((r : Seat) → In r rows → In r ss)
    → count_where (λ s. includes (ids rows) s.id) ss ≡ length rows
count-picked [] ss u v h = count_where-never ss
count-picked (r ∷ rows) ss u v h = omega (
  arith,
  count_split r.id (ids rows) ss v.0,
  count_one r ss u (h r (inl refl)),
  count-picked rows ss u v.1 (λ x m. h x (inr m)),
)
