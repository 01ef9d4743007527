-- ===== src/Pelican/Pagination.antt =====
-- `listAll` of backend/internal/pelican/pagination.go. A page of an endpoint is an action on the
-- world; the number of pages that the panel reports with it may change from page to page. Page
-- numbers are natural: a reported number below 0 stands as 0, and both end the loop.
pub mod Laws
use pelican_mc_router.Prelude.{
  ℕ, zero, suc, ◌||◌, true, false, Option, none, some, List, [], ◌++◌, leb, Result, ok, err,
}
use pelican_mc_router.Text.{Text}

-- `ListResponse`, as far as `listAll` reads it.
pub record Page (A : Type 0) : Type 0 where
  pub items : List A
  pub total_pages : ℕ

pub data ListError : Type 0 where
  page_failed : ℕ → Text → ListError

abbrev pub PageSource : Type 0 → Type 0 → Type 0
PageSource W A = ℕ → W → Result Text (Page A) × W

module _ {W A : Type 0} (list_page : PageSource W A) where
  -- The loop from a page on; `none` is out of fuel.
  unfoldable pub list_from : ℕ → ℕ → List A → W → Option (Result ListError (List A) × W)
  list_from zero page items w = none
  list_from (suc fuel) page items w =
      let (listed, w1) = list_page page w in
      elim listed [
        | err e ↦ some (err (page_failed page e), w1)
        | ok p ↦ elim (leb p.total_pages 1 || leb p.total_pages page) [
          | true ↦ some (ok (items ++ p.items), w1)
          | false ↦ list_from fuel (suc page) (items ++ p.items) w1
        ]
      ]

  unfoldable pub list_all : ℕ → W → Option (Result ListError (List A) × W)
  list_all fuel w = list_from fuel 1 [] w
