-- ===== src/Pelican/Pagination/Laws.antt =====
-- About `listAll` of backend/internal/pelican/pagination.go: its end and its items.
use mathlib.Core.List.{append_assoc, append-nil}
use pelican_mc_router.Prelude.{
  ℕ, zero, suc, ◌+◌, ◌≤◌, ◌<◌, ◌≡◌, ◌≢◌, refl, inl, inr, ◌||◌, none, some, List, [], ◌++◌, arith,
  leb, Bool-cases, ok, Result-cases,
}
use pelican_mc_router.Pelican.Pagination.{Page, PageSource, list_from, list_all}

-- A number of pages, from one on.
abbrev pub pages_from : {A : Type 0} → (ℕ → List A) → ℕ → ℕ → List A
pages_from pages zero first = []
pages_from pages (suc n) first = pages first ++ pages_from pages n (suc first)

module _ {W A : Type 0} (list_page : PageSource W A) where
  list_from-ends :
      (n : ℕ)
      → ((page : ℕ) (w : W) (p : Page A) → (list_page page w).0 ≡ ok p → p.total_pages ≤ n)
      → (fuel page : ℕ) (items : List A) (w : W) → n < page + fuel
      → 0 < fuel
      → list_from list_page fuel page items w ≢ none
  unfolding list_from
  list_from-ends n bounded zero page items w enough some_fuel = absurd (omega arith)
  list_from-ends n bounded (suc fuel) page items w enough some_fuel =
      elim (Result-cases (list_page page w).0) [
        | inr (e, bad) ↦ λ out. ground arith
        | inl (p, good) ↦
            let few : p.total_pages ≤ n = bounded page w p good in
            elim (Bool-cases (leb p.total_pages 1 || leb p.total_pages page)) [
              | inl last ↦ λ out. ground arith
              | inr more ↦
                  let rest =
                    list_from-ends n bounded fuel (suc page) (items ++ p.items) (list_page page w).1
                      (omega arith) (ground arith) in
                  λ out. ground (arith, rest)
            ]
      ]

  -- If no page reports more than `n` pages, fuel `n + 1` is enough for a listing, which ends.
  pub list_all-ends :
      (n : ℕ)
      → ((page : ℕ) (w : W) (p : Page A) → (list_page page w).0 ≡ ok p → p.total_pages ≤ n)
      → (w : W) → list_all list_page (suc n) w ≢ none
  unfolding list_all
  list_all-ends n bounded w = list_from-ends n bounded (suc n) 1 [] w (omega arith) (omega arith)

  module _ (pages : ℕ → List A) (n : ℕ)
      (serves : (page : ℕ) (w : W)
        → (list_page page w).0 ≡ ok (record { items = pages page; total_pages = n })) where
    -- The world after requests for a number of pages, from one on.
    abbrev pub asked : ℕ → ℕ → W → W
    asked zero first w = w
    asked (suc k) first w = asked k (suc first) (list_page first w).1

    list_from-collects :
        (left page : ℕ) (items : List A) (w : W)
        → page + left ≡ n
        → 0 < page
        → list_from list_page (suc left) page items w
          ≡ some (ok (items ++ pages_from pages (suc left) page), asked (suc left) page w)
    unfolding list_from
    list_from-collects zero page items w all_read positive =
        ground (arith, serves page w, append-nil (pages page))
    list_from-collects (suc left) page items w all_read positive = ground (
      arith,
      serves page w,
      list_from-collects left (suc page) (items ++ pages page) (list_page page w).1 (omega arith)
          (omega arith),
      append_assoc items (pages page) (pages_from pages (suc left) (suc page)),
    )

    -- A panel that reports the same positive number of pages throughout is asked for each page once,
    -- and a listing has their items in order.
    pub list_all-collects :
        (w : W) → 0 < n → list_all list_page n w ≡ some (ok (pages_from pages n 1), asked n 1 w)
    unfolding list_all
    list_all-collects w positive = go n refl positive
      where
        go :
            (m : ℕ)
            → n ≡ m
            → 0 < m
            → list_all list_page m w ≡ some (ok (pages_from pages m 1), asked m 1 w)
        go zero same none_left = absurd (omega arith)
        go (suc left) same some_left =
            list_from-collects left 1 [] w (omega (arith, same)) (omega arith)
