-- ===== src/Prelude/Sorting.antt =====
-- ORDER BY, as an insertion sort; rows that compare alike stay in the order of the table.
use Prim.Native.Nat.{ℕ, zero, suc, ◌+◌}
use mathlib.Core.Path.{◌≡◌, refl, ap, subst, sym, ◌∙◌}
use mathlib.Core.Logic.{inl, inr, ◌⊎◌}
use mathlib.Core.Bool.{Bool, true, ◌&&◌}
use mathlib.Core.List.{List, [], ◌∷◌, map}
use native.Mathlib.Omega.{arith}
use transhub.Prelude.Tests.{if◌then◌else◌, Bool-cases}
use transhub.Prelude.Lists.{length, In, take, drop}
use transhub.Prelude.Table.{count_where, find_many}

-- The sum of a column.
abbrev pub sum_by : {A : Type 0} → (A → ℕ) → List A → ℕ
sum_by f [] = 0
sum_by f (x ∷ xs) = f x + sum_by f xs

module _ {A : Type 0} (before : A → A → Bool) where
  insert_by : A → List A → List A
  insert_by x [] = x ∷ []
  insert_by x (y ∷ ys) = let rest = insert_by x ys in if before x y then x ∷ y ∷ ys else y ∷ rest

  unfoldable pub order_by : List A → List A
  unfolding insert_by
  order_by [] = []
  order_by (x ∷ xs) = insert_by x (order_by xs)

  count_where-insert_by :
      (p : A → Bool) (x : A) (xs : List A)
      → count_where p (insert_by x xs) ≡ (if p x then 1 else 0) + count_where p xs
  unfolding insert_by count_where
  count_where-insert_by p x [] = refl
  count_where-insert_by p x (y ∷ ys) = ground (arith, count_where-insert_by p x ys)

  -- An order changes no count.
  pub count_where-order_by :
      (p : A → Bool) (xs : List A) → count_where p (order_by xs) ≡ count_where p xs
  unfolding order_by count_where
  count_where-order_by p [] = refl
  count_where-order_by p (x ∷ xs) =
      omega (arith, count_where-insert_by p x (order_by xs), count_where-order_by p xs)

  In-insert_by : (a x : A) (xs : List A) → In a (insert_by x xs) → (a ≡ x) ⊎ In a xs
  unfolding insert_by
  In-insert_by a x [] (inl e) = inl e
  In-insert_by a x [] (inr m) = elim m [ ]
  In-insert_by a x (y ∷ ys) m =
      let placed = λ (c : Bool). In a (if c then x ∷ y ∷ ys else y ∷ insert_by x ys) in
      elim (Bool-cases (before x y)) [
        | inl b ↦ subst placed b m
        | inr b ↦
            let later : (a ≡ y) ⊎ In a (insert_by x ys) = subst placed b m in
            elim later [
              | inl e ↦ inr (inl e)
              | inr m' ↦ elim (In-insert_by a x ys m') [ inl e ↦ inl e | inr k ↦ inr (inr k) ]
            ]
      ]

  pub In-order_by : (a : A) (xs : List A) → In a (order_by xs) → In a xs
  unfolding order_by
  In-order_by a [] m = m
  In-order_by a (x ∷ xs) m = elim (In-insert_by a x (order_by xs) m) [
    | inl e ↦ inl e
    | inr m' ↦ inr (In-order_by a xs m')
  ]

  In-of_insert_by : (a x : A) (xs : List A) → (a ≡ x) ⊎ In a xs → In a (insert_by x xs)
  unfolding insert_by
  In-of_insert_by a x [] m = m
  In-of_insert_by a x (y ∷ ys) m = elim (Bool-cases (before x y)) [
    | inl b ↦ rw b m
    | inr b ↦ rw b (elim m [
      | inl e ↦ inr (In-of_insert_by a x ys (inl e))
      | inr (inl e) ↦ inl e
      | inr (inr k) ↦ inr (In-of_insert_by a x ys (inr k))
    ])
  ]

  pub In-of_order_by : (a : A) (xs : List A) → In a xs → In a (order_by xs)
  unfolding order_by
  In-of_order_by a [] m = m
  In-of_order_by a (x ∷ xs) (inl e) = In-of_insert_by a x (order_by xs) (inl e)
  In-of_order_by a (x ∷ xs) (inr m) =
      In-of_insert_by a x (order_by xs) (inr (In-of_order_by a xs m))

  sum_by-insert_by :
      (f : A → ℕ) (x : A) (xs : List A) → sum_by f (insert_by x xs) ≡ f x + sum_by f xs
  unfolding insert_by
  sum_by-insert_by f x [] = refl
  sum_by-insert_by f x (y ∷ ys) = ground (arith, sum_by-insert_by f x ys)

  pub sum_by-order_by : (f : A → ℕ) (xs : List A) → sum_by f (order_by xs) ≡ sum_by f xs
  unfolding order_by
  sum_by-order_by f [] = refl
  sum_by-order_by f (x ∷ xs) =
      omega (arith, sum_by-insert_by f x (order_by xs), sum_by-order_by f xs)

  length-insert_by : (x : A) (xs : List A) → length (insert_by x xs) ≡ length xs + 1
  unfolding insert_by
  length-insert_by x [] = refl
  length-insert_by x (y ∷ ys) = ground (arith, length-insert_by x ys)

  pub length-order_by : (xs : List A) → length (order_by xs) ≡ length xs
  unfolding order_by
  length-order_by [] = refl
  length-order_by (x ∷ xs) = omega (arith, length-insert_by x (order_by xs), length-order_by xs)

module _ {A : Type 0} where
  pub count_where-map :
      {B : Type 0} (p : B → Bool) (f : A → B) (xs : List A)
      → count_where p (map f xs) ≡ count_where (λ x. p (f x)) xs
  unfolding count_where
  count_where-map p f [] = refl
  count_where-map p f (x ∷ xs) = omega (arith, count_where-map p f xs)

  pub count_where-find_many :
      (p q : A → Bool) (xs : List A)
      → count_where p (find_many q xs) ≡ count_where (λ x. q x && p x) xs
  unfolding count_where find_many
  count_where-find_many p q [] = refl
  count_where-find_many p q (x ∷ xs) = ground (arith, count_where-find_many p q xs)

  pub In-map :
      {B : Type 0} (f : A → B) (xs : List A) (b : B)
      → In b (map f xs)
      → (a : A) × In a xs × (b ≡ f a)
  In-map f [] b m = elim m [ ]
  In-map f (x ∷ xs) b (inl e) = (x, inl refl, e)
  In-map f (x ∷ xs) b (inr m) = let (a, m', e) = In-map f xs b m in (a, inr m', e)

  pub In-of_map : {B : Type 0} (f : A → B) (xs : List A) (a : A) → In a xs → In (f a) (map f xs)
  In-of_map f [] a m = elim m [ ]
  In-of_map f (x ∷ xs) a (inl e) = inl (ap f e)
  In-of_map f (x ∷ xs) a (inr m) = inr (In-of_map f xs a m)

  -- A selection of rows that all meet a weaker test is one of the rows that meet it.
  pub find_many-implied :
      (p q : A → Bool) (xs : List A)
      → ((x : A) → p x ≡ true → q x ≡ true)
      → find_many p (find_many q xs) ≡ find_many p xs
  unfolding find_many
  find_many-implied p q [] h = refl
  find_many-implied p q (x ∷ xs) h = ground (arith, h x, find_many-implied p q xs h)

  -- Two tables that agree on what a test selects agree on what a stronger one does.
  pub find_many-agrees :
      (p q : A → Bool) (xs ys : List A)
      → ((x : A) → p x ≡ true → q x ≡ true)
      → find_many q xs ≡ find_many q ys
      → find_many p xs ≡ find_many p ys
  find_many-agrees p q xs ys h e =
      sym (find_many-implied p q xs h) ∙ ap (find_many p) e ∙ find_many-implied p q ys h

  pub In-take : (n : ℕ) (a : A) (xs : List A) → In a (take n xs) → In a xs
  In-take zero a xs m = elim m [ ]
  In-take (suc n) a [] m = elim m [ ]
  In-take (suc n) a (x ∷ xs) (inl e) = inl e
  In-take (suc n) a (x ∷ xs) (inr m) = inr (In-take n a xs m)

  pub In-drop : (n : ℕ) (a : A) (xs : List A) → In a (drop n xs) → In a xs
  In-drop zero a xs m = m
  In-drop (suc n) a [] m = m
  In-drop (suc n) a (x ∷ xs) m = inr (In-drop n a xs m)

-- A map that the tests and the order do not tell from the identity.
module _ {A : Type 0} (f : A → A) where
  pub map-take : (n : ℕ) (xs : List A) → map f (take n xs) ≡ take n (map f xs)
  map-take zero xs = refl
  map-take (suc n) [] = refl
  map-take (suc n) (x ∷ xs) = ap (◌∷◌ (f x)) (map-take n xs)

  pub map-drop : (n : ℕ) (xs : List A) → map f (drop n xs) ≡ drop n (map f xs)
  map-drop zero xs = refl
  map-drop (suc n) [] = refl
  map-drop (suc n) (x ∷ xs) = map-drop n xs

  pub map-find_many :
      (p : A → Bool) (xs : List A)
      → ((x : A) → p (f x) ≡ p x)
      → map f (find_many p xs) ≡ find_many p (map f xs)
  unfolding find_many
  map-find_many p [] h = refl
  map-find_many p (x ∷ xs) h = ground (arith, h x, map-find_many p xs h)

  module _ (before : A → A → Bool) (h : (x y : A) → before (f x) (f y) ≡ before x y) where
    map-insert_by :
        (x : A) (xs : List A) → map f (insert_by before x xs) ≡ insert_by before (f x) (map f xs)
    unfolding insert_by
    map-insert_by x [] = refl
    map-insert_by x (y ∷ ys) = ground (arith, h x y, map-insert_by x ys)

    pub map-order_by : (xs : List A) → map f (order_by before xs) ≡ order_by before (map f xs)
    unfolding order_by
    map-order_by [] = refl
    map-order_by (x ∷ xs) =
        map-insert_by x (order_by before xs) ∙ ap (insert_by before (f x)) (map-order_by xs)
