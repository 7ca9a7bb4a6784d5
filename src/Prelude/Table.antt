-- ===== src/Prelude/Table.antt =====
-- A database table as the list of its rows, and the queries that the repositories make of it.
use Prim.Native.Nat.{ℕ, suc, ◌+◌, ◌≤◌}
use mathlib.Core.Path.{sym, ◌≡◌, refl, ap, subst}
use mathlib.Core.Logic.{inl, inr}
use mathlib.Core.Bool.{Bool, true, false}
use mathlib.Core.Option.{Option, none, some}
use mathlib.Core.List.{List, [], ◌∷◌, ◌++◌}
use native.Mathlib.Omega.{arith}
use transhub.Prelude.Tests.{if◌then◌else◌, Bool-cases, is_some}
use transhub.Prelude.Lists.{length, In}

module _ {A : Type 0} where
  -- `updateMany({ where, data })`: the rows afterwards.
  unfoldable pub update_many : (A → Bool) → (A → A) → List A → List A
  update_many p f [] = []
  update_many p f (x ∷ xs) = (if p x then f x else x) ∷ update_many p f xs

  -- `count({ where })`, and the count that `updateMany` reports.
  unfoldable pub count_where : (A → Bool) → List A → ℕ
  count_where p [] = 0
  count_where p (x ∷ xs) = (if p x then 1 else 0) + count_where p xs

  -- `findMany({ where })`, in table order.
  unfoldable pub find_many : (A → Bool) → List A → List A
  find_many p [] = []
  find_many p (x ∷ xs) = let rest = find_many p xs in if p x then x ∷ rest else rest

  -- `findUnique({ where })` and `findFirst`.
  unfoldable pub find_first : (A → Bool) → List A → Option A
  find_first p [] = none
  find_first p (x ∷ xs) = let rest = find_first p xs in if p x then some x else rest

  -- Every row of one table is related to the row at its place in the other.
  abbrev pub EachRow : (A → A → Type 0) → List A → List A → Type 0
  EachRow R [] [] = Unit {0}
  EachRow R (x ∷ xs) (y ∷ ys) = R x y × EachRow R xs ys
  EachRow R [] (y ∷ ys) = ⊥
  EachRow R (x ∷ xs) [] = ⊥

  pub update_many-EachRow :
      (R : A → A → Type 0) (p : A → Bool) (f : A → A) (xs : List A)
      → ((x : A) → In x xs → R x (if p x then f x else x))
      → EachRow R xs (update_many p f xs)
  unfolding update_many
  update_many-EachRow R p f [] h = tt
  update_many-EachRow R p f (x ∷ xs) h =
      (h x (inl refl), update_many-EachRow R p f xs (λ y m. h y (inr m)))

  pub length-update_many :
      (p : A → Bool) (f : A → A) (xs : List A) → length (update_many p f xs) ≡ length xs
  unfolding update_many
  length-update_many p f [] = refl
  length-update_many p f (x ∷ xs) = ap suc (length-update_many p f xs)

  -- A count is unchanged by an update that changes the test on no row.
  pub count_where-update_many :
      (q p : A → Bool) (f : A → A) (xs : List A)
      → ((x : A) → p x ≡ true → q (f x) ≡ q x)
      → count_where q (update_many p f xs) ≡ count_where q xs
  unfolding update_many count_where
  count_where-update_many q p f [] h = refl
  count_where-update_many q p f (x ∷ xs) h = ground (arith, h x, count_where-update_many q p f xs h)

  pub count_where-le : (p : A → Bool) (xs : List A) → count_where p xs ≤ length xs
  unfolding count_where
  count_where-le p [] = omega arith
  count_where-le p (x ∷ xs) = ground (arith, count_where-le p xs)

  pub length-find_many : (p : A → Bool) (xs : List A) → length (find_many p xs) ≡ count_where p xs
  unfolding find_many count_where
  length-find_many p [] = refl
  length-find_many p (x ∷ xs) = ground (arith, length-find_many p xs)

  pub In-find_many :
      (p : A → Bool) (xs : List A) (a : A) → In a (find_many p xs) → In a xs × (p a ≡ true)
  unfolding find_many
  In-find_many p [] a m = elim m [ ]
  In-find_many p (x ∷ xs) a m = ground (arith, In-find_many p xs a)

  pub In-of_find_many :
      (p : A → Bool) (xs : List A) (a : A) → In a xs → p a ≡ true → In a (find_many p xs)
  unfolding find_many
  In-of_find_many p [] a m h = elim m [ ]
  In-of_find_many p (x ∷ xs) a (inl e) h = rw (sym e, h) (inl refl)
  In-of_find_many p (x ∷ xs) a (inr m) h = elim (Bool-cases (p x)) [
    | inl b ↦ rw b (inr (In-of_find_many p xs a m h))
    | inr b ↦ rw b (In-of_find_many p xs a m h)
  ]

  pub find_first-some :
      (p : A → Bool) (xs : List A) (a : A) → find_first p xs ≡ some a → In a xs × (p a ≡ true)
  unfolding find_first
  find_first-some p [] a h = cc
  find_first-some p (x ∷ xs) a h = ground (arith, find_first-some p xs a)

  found_first :
      (p : A → Bool) (x : A) (xs : List A) (w : A)
      → p x ≡ true
      → find_first p (x ∷ xs) ≡ some w
      → x ≡ w
  unfolding find_first
  found_first p x xs w b e = ground arith

  pub find_first-none :
      (p : A → Bool) (xs : List A) (a : A) → find_first p xs ≡ none → In a xs → p a ≡ false
  unfolding find_first
  find_first-none p [] a h m = elim m [ ]
  find_first-none p (x ∷ xs) a h m = ground (arith, find_first-none p xs a)

  -- An update that makes a test true of exactly the rows that it touches.
  pub count_where-updated :
      (q p : A → Bool) (f : A → A) (xs : List A)
      → ((x : A) → In x xs → (p x ≡ true → q (f x) ≡ true) × (p x ≡ false → q x ≡ false))
      → count_where q (update_many p f xs) ≡ count_where p xs
  unfolding update_many count_where
  count_where-updated q p f [] h = refl
  count_where-updated q p f (x ∷ xs) h =
      ground (arith, h x (inl refl), count_where-updated q p f xs (λ y m. h y (inr m)))

  -- Two tests that agree on the rows of a table count the same.
  pub count_where-congr :
      (p q : A → Bool) (xs : List A)
      → ((x : A) → In x xs → p x ≡ q x)
      → count_where p xs ≡ count_where q xs
  unfolding count_where
  count_where-congr p q [] h = refl
  count_where-congr p q (x ∷ xs) h =
      ground (arith, h x (inl refl), count_where-congr p q xs (λ y m. h y (inr m)))

  pub count_where-never : (xs : List A) → count_where (λ x. false) xs ≡ 0
  unfolding count_where
  count_where-never [] = refl
  count_where-never (x ∷ xs) = omega (arith, count_where-never xs)

  pub In-update_many :
      (p : A → Bool) (f : A → A) (xs : List A) (x : A)
      → In x xs
      → In (if p x then f x else x) (update_many p f xs)
  unfolding update_many
  In-update_many p f [] x m = m
  In-update_many p f (y ∷ ys) x (inl e) = inl (ap (λ z. if p z then f z else z) e)
  In-update_many p f (y ∷ ys) x (inr m) = inr (In-update_many p f ys x m)

  -- Two updates in a row.
  pub update_twice-EachRow :
      (R : A → A → Type 0) (p q : A → Bool) (f g : A → A) (xs : List A)
      → ((x : A) → In x xs → let y = if p x then f x else x in R x (if q y then g y else y))
      → EachRow R xs (update_many q g (update_many p f xs))
  unfolding update_many
  update_twice-EachRow R p q f g [] h = tt
  update_twice-EachRow R p q f g (x ∷ xs) h =
      (h x (inl refl), update_twice-EachRow R p q f g xs (λ y m. h y (inr m)))

  -- After an update whose result fails its own test, no row passes it.
  pub update_many-none :
      (p : A → Bool) (f : A → A) (xs : List A) (x : A)
      → ((y : A) → p (f y) ≡ false)
      → In x (update_many p f xs)
      → p x ≡ false
  unfolding update_many
  update_many-none p f [] x h m = elim m [ ]
  update_many-none p f (y ∷ ys) x h (inl e) = rw e (ground (arith, h y))
  update_many-none p f (y ∷ ys) x h (inr m) = update_many-none p f ys x h m

  -- An update that makes a test true of rows of which it was false adds as many as it touches.
  pub count_where-gained :
      (q p : A → Bool) (f : A → A) (xs : List A)
      → ((x : A) → In x xs → p x ≡ true → (q x ≡ false) × (q (f x) ≡ true))
      → count_where q (update_many p f xs) ≡ count_where q xs + count_where p xs
  unfolding update_many count_where
  count_where-gained q p f [] h = refl
  count_where-gained q p f (x ∷ xs) h =
      ground (arith, h x (inl refl), count_where-gained q p f xs (λ y m. h y (inr m)))

  pub count_where-none :
      (p : A → Bool) (xs : List A) → ((x : A) → In x xs → p x ≡ false) → count_where p xs ≡ 0
  unfolding count_where
  count_where-none p [] h = refl
  count_where-none p (x ∷ xs) h =
      ground (arith, h x (inl refl), count_where-none p xs (λ y m. h y (inr m)))

  -- A test that fails on every row as it is after an update.
  pub count_where-erased :
      (q p : A → Bool) (f : A → A) (xs : List A)
      → ((x : A) → In x xs → q (if p x then f x else x) ≡ false)
      → count_where q (update_many p f xs) ≡ 0
  unfolding update_many count_where
  count_where-erased q p f [] h = refl
  count_where-erased q p f (x ∷ xs) h =
      ground (arith, h x (inl refl), count_where-erased q p f xs (λ y m. h y (inr m)))

  -- A read by a test that an update does not change.
  pub find_first-update_many :
      (q p : A → Bool) (f : A → A) (xs : List A) (w : A)
      → ((x : A) → q (f x) ≡ q x)
      → find_first q xs ≡ some w
      → find_first q (update_many p f xs) ≡ some (if p w then f w else w)
  unfolding update_many find_first
  find_first-update_many q p f [] w h e = cc
  find_first-update_many q p f (x ∷ xs) w h e = elim (Bool-cases (q x)) [
    | inl b ↦
        subst (λ y. find_first q (update_many p f (x ∷ xs)) ≡ some (if p y then f y else y))
          (found_first q x xs w b e) (ground (arith, h x))
    | inr b ↦ ground (arith, h x, find_first-update_many q p f xs w h)
  ]

  -- What one test finds, another test that holds of it finds something for.
  pub is_some-find_first :
      (p : A → Bool) (xs : List A) (w : A) → In w xs → p w ≡ true → is_some (find_first p xs) ≡ true
  unfolding find_first
  is_some-find_first p [] w m h = elim m [ ]
  is_some-find_first p (x ∷ xs) w (inl e) h = rw (subst (λ y. p y ≡ true) e h) refl
  is_some-find_first p (x ∷ xs) w (inr m) h = ground (arith, is_some-find_first p xs w m h)

  pub find_first-find_many :
      (q p : A → Bool) (xs : List A)
      → ((x : A) → q x ≡ true → p x ≡ false)
      → find_first q (find_many p xs) ≡ none
  unfolding find_many find_first
  find_first-find_many q p [] h = refl
  find_first-find_many q p (x ∷ xs) h = ground (arith, h x, find_first-find_many q p xs h)

  pub find_first-find_many-none :
      (q p : A → Bool) (xs : List A) → find_first q xs ≡ none → find_first q (find_many p xs) ≡ none
  unfolding find_many find_first
  find_first-find_many-none q p [] h = refl
  find_first-find_many-none q p (x ∷ xs) h = ground (arith, find_first-find_many-none q p xs)

  pub count_where-zero :
      (p : A → Bool) (xs : List A) (x : A) → count_where p xs ≡ 0 → In x xs → p x ≡ false
  unfolding count_where
  count_where-zero p [] x e m = elim m [ ]
  count_where-zero p (y ∷ ys) x e (inl q) = rw q (ground (arith, e))
  count_where-zero p (y ∷ ys) x e (inr m) = count_where-zero p ys x (ground (arith, e)) m

  pub count_where_mono :
      (p q : A → Bool) (xs : List A)
      → ((x : A) → p x ≡ true → q x ≡ true)
      → count_where p xs ≤ count_where q xs
  unfolding count_where
  count_where_mono p q [] h = omega arith
  count_where_mono p q (x ∷ xs) h = ground (arith, h x, count_where_mono p q xs h)

  pub count_where-append :
      (p : A → Bool) (xs ys : List A)
      → count_where p (xs ++ ys) ≡ count_where p xs + count_where p ys
  unfolding count_where
  count_where-append p [] ys = omega arith
  count_where-append p (x ∷ xs) ys = omega (arith, count_where-append p xs ys)

  pub count_where-all :
      (p : A → Bool) (xs : List A) → ((x : A) → In x xs → p x ≡ true) → count_where p xs ≡ length xs
  unfolding count_where
  count_where-all p [] h = refl
  count_where-all p (x ∷ xs) h =
      ground (arith, h x (inl refl), count_where-all p xs (λ y m. h y (inr m)))

  pub find_first-head :
      (p : A → Bool) (x : A) (xs : List A) → p x ≡ true → find_first p (x ∷ xs) ≡ some x
  unfolding find_first
  find_first-head p x xs h = rw h refl
