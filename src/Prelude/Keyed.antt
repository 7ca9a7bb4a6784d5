-- ===== src/Prelude/Keyed.antt =====
-- Tables with a primary key, and the rows that a read by key and a write by key concern.
use Prim.Native.Nat.{ℕ}
use mathlib.Core.Path.{◌≡◌, refl, ap, sym, subst, ◌∙◌}
use mathlib.Core.Logic.{inl, inr}
use mathlib.Core.Bool.{Bool, true, false}
use mathlib.Core.Option.{none, some}
use mathlib.Core.List.{List, [], ◌∷◌}
use native.Mathlib.Omega.{arith}
use transhub.Prelude.Tests.{◌==◌, if◌then◌else◌, Bool-cases, ==_iff, ==_refl}
use transhub.Prelude.Lists.{In}
use transhub.Prelude.Table.{update_many, find_first, find_many, count_where}

abbrev pub All : {A : Type 0} → (A → Type 0) → List A → Type 0
All P [] = Unit {0}
All P (x ∷ xs) = P x × All P xs

module _ {A : Type 0} where
  pub All-of_In : (P : A → Type 0) (xs : List A) → ((x : A) → In x xs → P x) → All P xs
  All-of_In P [] h = tt
  All-of_In P (x ∷ xs) h = (h x (inl refl), All-of_In P xs (λ y m. h y (inr m)))

  pub All-In : (P : A → Type 0) (xs : List A) (x : A) → All P xs → In x xs → P x
  All-In P [] x h m = elim m [ ]
  All-In P (y ∷ ys) x h (inl e) = subst P (sym e) h.0
  All-In P (y ∷ ys) x h (inr m) = All-In P ys x h.1 m

  pub All-update_many :
      (P : A → Type 0) (p : A → Bool) (f : A → A) (xs : List A)
      → ((x : A) → p x ≡ true → P x → P (f x))
      → All P xs
      → All P (update_many p f xs)
  unfolding update_many
  All-update_many P p f [] h a = tt
  All-update_many P p f (x ∷ xs) h a = (
    elim (Bool-cases (p x)) [ inl e ↦ rw e (h x e a.0) | inr e ↦ rw e a.0 ],
    All-update_many P p f xs h a.1,
  )

  pub All-map : {P Q : A → Type 0} → ((x : A) → P x → Q x) → (xs : List A) → All P xs → All Q xs
  All-map f [] a = tt
  All-map f (x ∷ xs) a = (f x a.0, All-map f xs a.1)

  pub All-find_many :
      (P : A → Type 0) (p : A → Bool) (xs : List A) → All P xs → All P (find_many p xs)
  unfolding find_many
  All-find_many P p [] a = tt
  All-find_many P p (x ∷ xs) a = elim (Bool-cases (p x)) [
    | inl e ↦ rw e (a.0, All-find_many P p xs a.1)
    | inr e ↦ rw e (All-find_many P p xs a.1)
  ]

  pub All-updated :
      (P Q : A → Type 0) (p : A → Bool) (f : A → A) (xs : List A)
      → ((x : A) → In x xs → P x → Q (if p x then f x else x))
      → All P xs
      → All Q (update_many p f xs)
  unfolding update_many
  All-updated P Q p f [] h a = tt
  All-updated P Q p f (x ∷ xs) h a =
      (h x (inl refl) a.0, All-updated P Q p f xs (λ y m. h y (inr m)) a.1)

some_injective : {A : Type 0} {a b : A} → some a ≡ some b → a ≡ b
some_injective e = cc

module _ {A : Type 0} (key : A → ℕ) where
  abbrev pub Absent : ℕ → List A → Type 0
  Absent k [] = Unit {0}
  Absent k (x ∷ xs) = ((key x == k) ≡ false) × Absent k xs

  -- No key occurs twice.
  abbrev pub IsKeyed : List A → Type 0
  IsKeyed [] = Unit {0}
  IsKeyed (x ∷ xs) = Absent (key x) xs × IsKeyed xs

  pub Absent-of_find : (k : ℕ) (xs : List A) → find_first (λ x. key x == k) xs ≡ none → Absent k xs
  unfolding find_first
  Absent-of_find k [] h = tt
  Absent-of_find k (x ∷ xs) h = ground (arith, Absent-of_find k xs)

  Absent-congr : (j k : ℕ) (xs : List A) → (j == k) ≡ true → Absent j xs → Absent k xs
  Absent-congr j k xs e a = subst (λ n. Absent n xs) ((==_iff j k).0 e) a

  pub update_many-Absent :
      (k : ℕ) (p : A → Bool) (f : A → A) (xs : List A)
      → ((x : A) → key (f x) ≡ key x)
      → Absent k xs
      → Absent k (update_many p f xs)
  unfolding update_many
  update_many-Absent k p f [] h a = tt
  update_many-Absent k p f (x ∷ xs) h a = ground (arith, h x, update_many-Absent k p f xs h a.1)

  pub update_many-IsKeyed :
      (p : A → Bool) (f : A → A) (xs : List A)
      → ((x : A) → key (f x) ≡ key x)
      → IsKeyed xs
      → IsKeyed (update_many p f xs)
  unfolding update_many
  update_many-IsKeyed p f [] h u = tt
  update_many-IsKeyed p f (x ∷ xs) h u = elim (Bool-cases (p x)) [
    | inl e ↦
        rw e (rw (h x) (update_many-Absent (key x) p f xs h u.0), update_many-IsKeyed p f xs h u.1)
    | inr e ↦ rw e (update_many-Absent (key x) p f xs h u.0, update_many-IsKeyed p f xs h u.1)
  ]

  -- A write by key touches no row if the key is absent.
  update_many-of_Absent :
      (k : ℕ) (f : A → A) (xs : List A) → Absent k xs → update_many (λ x. key x == k) f xs ≡ xs
  unfolding update_many
  update_many-of_Absent k f [] a = refl
  update_many-of_Absent k f (x ∷ xs) a = ground (arith, update_many-of_Absent k f xs a.1)

  -- A write by key keeps a property of every row, if it keeps it for the row that a read finds.
  pub update_by_key-All :
      (P : A → Type 0) (k : ℕ) (f : A → A) (xs : List A) (w : A)
      → IsKeyed xs
      → find_first (λ x. key x == k) xs ≡ some w
      → P (f w)
      → All P xs
      → All P (update_many (λ x. key x == k) f xs)
  unfolding update_many find_first
  update_by_key-All P k f [] w u e pf a = tt
  update_by_key-All P k f (x ∷ xs) w u e pf a = elim (Bool-cases (key x == k)) [
    | inl h ↦ rw h (
      subst (λ y. P (f y)) (sym (ground arith)) pf,
      rw (update_many-of_Absent k f xs (Absent-congr (key x) k xs h u.0)) a.1,
    )
    | inr h ↦ rw h (a.0, update_by_key-All P k f xs w u.1 (ground arith) pf a.1)
  ]

  found_head :
      (k : ℕ) (x : A) (xs : List A) (w : A)
      → (key x == k) ≡ true
      → find_first (λ y. key y == k) (x ∷ xs) ≡ some w
      → x ≡ w
  unfolding find_first
  found_head k x xs w b e = ground arith

  -- A read by key after a write to whatever rows.
  pub find_first-update :
      (k : ℕ) (p : A → Bool) (f : A → A) (xs : List A) (w : A)
      → ((x : A) → key (f x) ≡ key x)
      → find_first (λ x. key x == k) xs ≡ some w
      → find_first (λ x. key x == k) (update_many p f xs) ≡ some (if p w then f w else w)
  unfolding update_many find_first
  find_first-update k p f [] w h e = cc
  find_first-update k p f (x ∷ xs) w h e = elim (Bool-cases (key x == k)) [
    | inl b ↦
        subst
          (λ y.
            find_first (λ z. key z == k) (update_many p f (x ∷ xs)) ≡ some (if p y then f y else y))
          (found_head k x xs w b e) (ground (arith, h x))
    | inr b ↦ ground (arith, h x, find_first-update k p f xs w h)
  ]

  -- A WHERE that asks for the key and more holds of at most one row.
  Absent-none :
      (k : ℕ) (p : A → Bool) (xs : List A)
      → ((x : A) → p x ≡ true → (key x == k) ≡ true)
      → Absent k xs
      → count_where p xs ≡ 0
  unfolding count_where
  Absent-none k p [] g a = refl
  Absent-none k p (x ∷ xs) g a = ground (arith, g x, Absent-none k p xs g a.1)

  pub count_where-guarded :
      (k : ℕ) (p : A → Bool) (xs : List A) (w : A)
      → ((x : A) → p x ≡ true → (key x == k) ≡ true)
      → IsKeyed xs
      → find_first (λ x. key x == k) xs ≡ some w
      → count_where p xs ≡ (if p w then 1 else 0)
  unfolding count_where find_first
  count_where-guarded k p [] w g u e = cc
  count_where-guarded k p (x ∷ xs) w g u e = elim (Bool-cases (key x == k)) [
    | inl b ↦
        subst (λ y. count_where p (x ∷ xs) ≡ (if p y then 1 else 0)) (found_head k x xs w b e)
          (ground (arith, Absent-none k p xs g (Absent-congr (key x) k xs b u.0)))
    | inr b ↦ ground (arith, g x, count_where-guarded k p xs w g u.1)
  ]

  update_many-unmet :
      (k : ℕ) (p : A → Bool) (f : A → A) (xs : List A)
      → ((x : A) → p x ≡ true → (key x == k) ≡ true)
      → Absent k xs
      → update_many p f xs ≡ xs
  unfolding update_many
  update_many-unmet k p f [] g a = refl
  update_many-unmet k p f (x ∷ xs) g a = ground (arith, g x, update_many-unmet k p f xs g a.1)

  -- Where a guarded write meets a row, a second write by the key is one with it.
  pub update_many-twice :
      (k : ℕ) (p : A → Bool) (f g : A → A) (xs : List A)
      → ((x : A) → p x ≡ true → (key x == k) ≡ true)
      → ((x : A) → key (f x) ≡ key x)
      → IsKeyed xs
      → (count_where p xs == 0) ≡ false
      → update_many (λ x. key x == k) g (update_many p f xs) ≡ update_many p (λ x. g (f x)) xs
  unfolding update_many count_where
  update_many-twice k p f g [] guard keep u n = cc
  update_many-twice k p f g (x ∷ xs) guard keep u n = elim (Bool-cases (p x)) [
    | inl b ↦
        let gone = Absent-congr (key x) k xs (guard x b) u.0 in
        rw (b, keep x, guard x b)
          (ap (◌∷◌ (g (f x))) (
            ap (update_many (λ y. key y == k) g) (update_many-unmet k p f xs guard gone)
            ∙ update_many-unmet k (λ y. key y == k) g xs (λ y e. e) gone
            ∙ sym (update_many-unmet k p (λ y. g (f y)) xs guard gone)))
    | inr b ↦ elim (Bool-cases (key x == k)) [
      | inl c ↦
          let none_left = Absent-none k p xs guard (Absent-congr (key x) k xs c u.0) in
          cc (rw (b, none_left) at n)
      | inr c ↦
          rw (b, c)
            (ap (◌∷◌ x) (update_many-twice k p f g xs guard keep u.1 (ground (arith, n, b))))
    ]
  ]

  Absent-ne : (k : ℕ) (xs : List A) (w : A) → Absent k xs → In w xs → (k == key w) ≡ false
  Absent-ne k [] w a m = elim m [ ]
  Absent-ne k (x ∷ xs) w a (inl e) = rw e (ground (arith, a.0))
  Absent-ne k (x ∷ xs) w a (inr m) = Absent-ne k xs w a.1 m

  -- A row of the table is found by its key.
  pub find_first-of_In :
      (xs : List A) (w : A) → IsKeyed xs → In w xs → find_first (λ x. key x == key w) xs ≡ some w
  unfolding find_first
  find_first-of_In [] w u m = elim m [ ]
  find_first-of_In (x ∷ xs) w u (inl e) =
      subst (λ y. find_first (λ z. key z == key y) (x ∷ xs) ≡ some y) (sym e)
        (rw (==_refl (key x)) refl)
  find_first-of_In (x ∷ xs) w u (inr m) =
      rw (Absent-ne (key x) xs w u.0 m) (find_first-of_In xs w u.1 m)

  pub Absent-find_many :
      (k : ℕ) (p : A → Bool) (xs : List A)
      → Absent k xs
      → find_first (λ x. key x == k) (find_many p xs) ≡ none
  unfolding find_many find_first
  Absent-find_many k p [] a = refl
  Absent-find_many k p (x ∷ xs) a = ground (arith, Absent-find_many k p xs a.1)

  -- A row that a selection leaves out is not found by its key.
  pub find_first-dropped :
      (p : A → Bool) (xs : List A) (w : A)
      → IsKeyed xs
      → In w xs
      → p w ≡ false
      → find_first (λ x. key x == key w) (find_many p xs) ≡ none
  unfolding find_many find_first
  find_first-dropped p [] w u m h = elim m [ ]
  find_first-dropped p (x ∷ xs) w u (inl e) h =
      rw (subst (λ y. p y ≡ false) e h) (rw e (Absent-find_many (key x) p xs u.0))
  find_first-dropped p (x ∷ xs) w u (inr m) h = elim (Bool-cases (p x)) [
    | inl b ↦ rw (b, Absent-ne (key x) xs w u.0 m) (find_first-dropped p xs w u.1 m h)
    | inr b ↦ rw b (find_first-dropped p xs w u.1 m h)
  ]

  -- A row with the key of a row that is found is that row.
  pub found_unique :
      (k : ℕ) (xs : List A) (w x : A)
      → IsKeyed xs
      → find_first (λ y. key y == k) xs ≡ some w
      → In x xs
      → (key x == k) ≡ true
      → x ≡ w
  found_unique k xs w x u e m b =
      let same = (==_iff (key x) k).0 b in
      some_injective (
        sym (find_first-of_In xs x u m)
        ∙ subst (λ n. find_first (λ y. key y == n) xs ≡ some w) (sym same) e)

  pub find_first-update_none :
      (k : ℕ) (p : A → Bool) (f : A → A) (xs : List A)
      → ((x : A) → key (f x) ≡ key x)
      → find_first (λ x. key x == k) (update_many p f xs) ≡ none
      → find_first (λ x. key x == k) xs ≡ none
  unfolding update_many find_first
  find_first-update_none k p f [] h e = refl
  find_first-update_none k p f (x ∷ xs) h e = ground (arith, h x, find_first-update_none k p f xs h)

  -- A WHERE that asks for the key and more holds of no row if the key is not found.
  pub count_where-unfound :
      (k : ℕ) (p : A → Bool) (xs : List A)
      → ((x : A) → p x ≡ true → (key x == k) ≡ true)
      → find_first (λ x. key x == k) xs ≡ none
      → count_where p xs ≡ 0
  count_where-unfound k p xs g e = Absent-none k p xs g (Absent-of_find k xs e)
