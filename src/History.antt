-- ===== src/History.antt =====
-- The bounded histories of backend/internal/actionhistory and backend/internal/operationalhistory: the
-- part that their tables share.
pub mod Laws
pub mod Actions
pub mod Operations
use pelican_mc_router.Prelude.{
  ℕ, zero, suc, Bool, true, false, ◌||◌, ◌&&◌, Option, none, some, List, [], ◌∷◌, ltb, eqb, leb,
  if◌then◌else◌, Result, ok, err,
}
use pelican_mc_router.Prelude.Int.{ℤ, pos, negsuc, le_int}
use pelican_mc_router.Text.{Text}
use pelican_mc_router.Storage.{Database, Query, pure, ◌>>=◌, statement, transaction}

-- A time is a number of nanoseconds; an event is given with the time 0 if it has none.
pub record Row {ℓ} (A : Type ℓ) : Type ℓ where
  pub id : ℕ
  pub occurred_at : ℕ
  pub event : A

-- A table in the order `occurred_at DESC, id DESC`, and the next AUTOINCREMENT key.
pub record Table {ℓ} (A : Type ℓ) : Type ℓ where
  pub rows : List (Row A)
  pub next_id : ℕ

pub data HistoryError : Type 0 where
  invalid_event : HistoryError
  begin_failed commit_failed insert_failed prune_failed identifier_failed list_failed :
      Text → HistoryError

abbrev pub Action : Type 0 → Type 0 → Type 0
Action A B = Query HistoryError (Table A) B

unfoldable pub is_newer : {A : Type 0} → Row A → Row A → Bool
is_newer r s = ltb s.occurred_at r.occurred_at || (eqb r.occurred_at s.occurred_at && ltb s.id r.id)

unfoldable pub insert_row : {A : Type 0} → Row A → List (Row A) → List (Row A)
insert_row r [] = r ∷ []
insert_row r (s ∷ rows) = if is_newer r s then r ∷ s ∷ rows else s ∷ insert_row r rows

-- The rows that `LIMIT n` gives.
unfoldable pub take {ℓ} : {A : Type ℓ} → ℕ → List A → List A
take zero xs = []
take (suc n) [] = []
take (suc n) (x ∷ xs) = x ∷ take n xs

-- `NewStore`, whose default keeps 1000 rows.
unfoldable pub retention : Option ℤ → ℕ
retention none = 1000
retention (some (pos zero)) = 1000
retention (some (pos (suc n))) = suc n
retention (some (negsuc n)) = 1000

-- The limit of `List`: at most 100.
unfoldable pub page_limit : ℤ → ℕ
page_limit (pos zero) = 100
page_limit (pos (suc n)) = if leb (suc n) 100 then suc n else 100
page_limit (negsuc n) = 100

abbrev pub time_of : ℕ → ℕ → ℕ
time_of zero now = now
time_of (suc t) now = suc t

module _ {A : Type 0} (kept : ℕ) where
  -- `Append` of a valid event: its key is returned.
  unfoldable pub append_event : ℕ → A → Action A ℕ
  append_event occurred_at event = transaction begin_failed commit_failed (
      statement insert_failed (λ t. ok (
        t.next_id,
        record {
          rows =
              insert_row (record { id = t.next_id; occurred_at = occurred_at; event = event })
                t.rows;
          next_id = suc t.next_id;
        },
      ))
      >>= (λ key. statement prune_failed (λ t. ok (key, record t { rows = take kept t.rows }))))

unfoldable pub list_events : {A : Type 0} → ℤ → Action A (List (Row A))
list_events limit = statement list_failed (λ t. ok (take (page_limit limit) t.rows, t))
