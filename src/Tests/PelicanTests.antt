-- ===== src/Tests/PelicanTests.antt =====
-- Examples for pagination: a panel with three pages, which counts the requests.
use pelican_mc_router.Prelude.{ℕ, suc, ◌≤◌, ◌≡◌, refl, some, List, [], ◌∷◌, arith, ok}
use pelican_mc_router.Pelican.Pagination.{Page, PageSource, list_all}
use pelican_mc_router.Pelican.Pagination.Laws.{list_all-collects}

abbrev items_of : ℕ → List ℕ
items_of page = page ∷ page ∷ []

abbrev three_pages : PageSource ℕ ℕ
three_pages page w = (ok (record { items = items_of page; total_pages = 3 }), suc w)

three_pages-bounded : (page w : ℕ) (p : Page ℕ) → (three_pages page w).0 ≡ ok p → p.total_pages ≤ 3
three_pages-bounded page w p h = ground arith

list_all-collects_example : list_all three_pages 3 0 ≡ some (ok (1 ∷ 1 ∷ 2 ∷ 2 ∷ 3 ∷ 3 ∷ []), 3)
list_all-collects_example =
    list_all-collects three_pages items_of 3 (λ page w. refl) 0 (omega arith)
