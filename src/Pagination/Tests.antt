-- ===== src/Pagination/Tests.antt =====
-- Five rows in pages of two.
use transhub.Prelude.{ℕ, ◌-◌, ◌*◌, ◌<◌, ◌≡◌, List, [], ◌∷◌, arith}
use transhub.Prelude.{length}
use transhub.Pagination.{page_meta, first_pages, pages_cover}

abbrev rows : List ℕ
rows = 10 ∷ 20 ∷ 30 ∷ 40 ∷ 50 ∷ []

pages_cover_example :
    let pages = (page_meta (length rows) (record { page = 1; limit = 2 })).total_pages in
    (first_pages 2 pages rows ≡ rows) × (0 < length rows → (pages - 1) * 2 < length rows)
pages_cover_example = pages_cover 1 2 rows (omega arith)
