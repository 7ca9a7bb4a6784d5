-- ===== src/Pagination.antt =====
-- backend/src/shared/pagination.ts: the pages of a list endpoint.
mod Tests
use native.Mathlib.Nat.{
  div-mul-le_self, zero-mul, div-lt_iff_lt-mul, suc-mul, mul-le-mul_right, le-max_right,
}
use transhub.Prelude.{
  subst, ℕ, zero, suc, ◌+◌, ◌-◌, ◌*◌, ◌/◌, ◌≤◌, ◌<◌, ◌≡◌, refl, ap, sym, ◌∙◌, List, [], ◌∷◌, ◌++◌,
  arith, max, length, take, drop,
}

pub record PaginationQuery : Type 0 where
  pub page : ℕ
  pub limit : ℕ

pub record SkipTake : Type 0 where
  pub skip : ℕ
  pub count : ℕ

pub record PageMeta : Type 0 where
  pub page : ℕ
  pub limit : ℕ
  pub total : ℕ
  pub total_pages : ℕ

-- paginationQuerySchema lets through pages from 1 and limits from 1 to 100.
unfoldable pub to_skip_take : PaginationQuery → SkipTake
to_skip_take q = record { skip = (q.page - 1) * q.limit; count = q.limit }

-- `Math.ceil(total / limit)` for a limit above zero.
abbrev ceil_div : ℕ → ℕ → ℕ
ceil_div total limit = (total + (limit - 1)) / limit

unfoldable pub page_meta : ℕ → PaginationQuery → PageMeta
page_meta total q = record {
  page = q.page;
  limit = q.limit;
  total = total;
  total_pages = max 1 (ceil_div total q.limit);
}

-- `findMany` with a skip and a take, of rows in their order.
abbrev pub items : {A : Type 0} → SkipTake → List A → List A
items s rows = take s.count (drop s.skip rows)

-- The first `n` pages of a list, one after the other.
unfoldable pub first_pages : {A : Type 0} → ℕ → ℕ → List A → List A
unfolding to_skip_take
first_pages limit zero rows = []
first_pages limit (suc n) rows =
    first_pages limit n rows ++ items (to_skip_take (record { page = suc n; limit = limit })) rows

pred_suc : (n : ℕ) → suc n - 1 ≡ n
pred_suc n = omega arith

module _ {A : Type 0} where
  take_congr : (m n : ℕ) (xs : List A) → m ≡ n → take m xs ≡ take n xs
  take_congr m n xs e = ap (λ k. take k xs) e

  take_nil : (n : ℕ) → take {A = A} n [] ≡ []
  take_nil zero = refl
  take_nil (suc n) = refl

  take_more : (a b : ℕ) (xs : List A) → take a xs ++ take b (drop a xs) ≡ take (a + b) xs
  take_more zero b xs = take_congr b (0 + b) xs (omega arith)
  take_more (suc a) zero [] = sym (take_nil (suc a + 0))
  take_more (suc a) (suc b) [] = sym (take_nil (suc a + suc b))
  take_more (suc a) b (x ∷ xs) =
      ap (◌∷◌ x) (take_more a b xs) ∙ take_congr (suc (a + b)) (suc a + b) (x ∷ xs) (omega arith)

  pub take_all : (n : ℕ) (xs : List A) → length xs ≤ n → take n xs ≡ xs
  take_all zero [] h = refl
  take_all zero (x ∷ xs) h = ground arith
  take_all (suc n) [] h = refl
  take_all (suc n) (x ∷ xs) h = ap (◌∷◌ x) (take_all n xs (omega (arith, h)))

  first_pages-take :
      (limit n : ℕ) (rows : List A) → first_pages limit n rows ≡ take (n * limit) rows
  unfolding first_pages to_skip_take
  first_pages-take limit zero rows = take_congr 0 (0 * limit) rows (omega arith)
  first_pages-take limit (suc n) rows =
      ap (λ xs. xs ++ take limit (drop ((suc n - 1) * limit) rows)) (first_pages-take limit n rows)
      ∙ ap (λ k. take (n * limit) rows ++ take limit (drop (k * limit) rows)) (pred_suc n)
      ∙ take_more (n * limit) limit rows
      ∙ take_congr (n * limit + limit) (suc n * limit) rows (sym (suc-mul n limit))

-- A number is below the next multiple.
past : (n m : ℕ) → 0 < m → n < suc (n / m) * m
past n m h = (div-lt_iff_lt-mul h).0 (omega arith)

enough : (total limit : ℕ) → 0 < limit → total ≤ max 1 (ceil_div total limit) * limit
enough total limit h = omega (
  arith,
  past (total + (limit - 1)) limit h,
  suc-mul (ceil_div total limit) limit,
  mul-le-mul_right limit (le-max_right 1 (ceil_div total limit)),
  h,
)

last_needed :
    (q total limit : ℕ)
    → 0 < limit
    → 0 < total
    → q * limit ≤ total + (limit - 1)
    → (max 1 q - 1) * limit < total
last_needed zero total limit h t e = subst (λ j. j < total) (sym (zero-mul limit)) t
last_needed (suc k) total limit h t e =
    subst (λ j. j * limit < total) (kept k) (omega (arith, suc-mul k limit, e, h))
  where
    kept : (k : ℕ) → k ≡ max 1 (suc k) - 1
    kept k = omega arith

-- The pages from 1 to the `totalPages` of the response, one after the other, are all the rows, each once
-- and in their order; and the page before the last does not reach the end, if there are rows.
pub pages_cover :
    {A : Type 0} (page limit : ℕ) (rows : List A)
    → 0 < limit
    → let pages = (page_meta (length rows) (record { page = page; limit = limit })).total_pages in
      (first_pages limit pages rows ≡ rows) × (0 < length rows → (pages - 1) * limit < length rows)
unfolding page_meta
pages_cover page limit rows h = (
  first_pages-take limit (max 1 (ceil_div (length rows) limit)) rows
      ∙ take_all _ rows (enough (length rows) limit h),
  λ t.
      last_needed (ceil_div (length rows) limit) (length rows) limit h t
        (div-mul-le_self (length rows + (limit - 1)) limit),
)
