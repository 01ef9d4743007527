-- ===== src/History/Laws.antt =====
-- About `Append` and `List` of both histories: order, bounds and what is dropped.
use mathlib.Core.List.Perm
use mathlib.Core.List.{Perm}
use pelican_mc_router.Prelude.{
  ℕ, zero, suc, ◌≤◌, ◌<◌, ◌≡◌, ◌⊎◌, inl, inr, ◌++◌, ◌∙◌, leb, All, if◌then◌else◌, Bool-cases, refl,
  Bool, true, false, ◌&&◌, List, [], ◌∷◌, arith, length, ltb, ok, err, all,
}
use pelican_mc_router.Storage.{Database, statement, transaction}
use pelican_mc_router.Storage.Laws.{transaction-eq-err}
use pelican_mc_router.History.{Row, Table, HistoryError, is_newer, insert_row, take, append_event}

module _ {A : Type 0} where
  -- Every row is newer than those after it.
  unfoldable pub newest_first : List (Row A) → Bool
  newest_first [] = true
  newest_first (r ∷ rows) = all (is_newer r) rows && newest_first rows

  -- No row has a key that is not yet given.
  unfoldable pub keyed_below : ℕ → List (Row A) → Bool
  keyed_below n rows = all (λ (r : Row A). ltb r.id n) rows

  is_newer_trans : (r s t : Row A) → is_newer r s ≡ true → is_newer s t ≡ true → is_newer r t ≡ true
  unfolding is_newer
  is_newer_trans r s t h k = ground arith

  is_newer-total : (r s : Row A) → is_newer r s ≡ false → ltb s.id r.id ≡ true → is_newer s r ≡ true
  unfolding is_newer
  is_newer-total r s h k = ground arith

  all_newer_trans :
      (r s : Row A) (rows : List (Row A))
      → is_newer r s ≡ true
      → all (is_newer s) rows ≡ true
      → all (is_newer r) rows ≡ true
  unfolding all
  all_newer_trans r s [] h k = refl
  all_newer_trans r s (t ∷ rows) h k =
      ground (arith, is_newer_trans r s t, all_newer_trans r s rows)

  all-insert_row :
      (p : Row A → Bool) (r : Row A) (rows : List (Row A))
      → all p (insert_row r rows) ≡ (p r && all p rows)
  unfolding insert_row all
  all-insert_row p r [] = refl
  all-insert_row p r (s ∷ rows) = ground (arith, all-insert_row p r rows)

  insert_row-newest_first :
      (r : Row A) (rows : List (Row A))
      → newest_first rows ≡ true
      → keyed_below r.id rows ≡ true
      → newest_first (insert_row r rows) ≡ true
  unfolding newest_first keyed_below insert_row all
  insert_row-newest_first r [] h k = refl
  insert_row-newest_first r (s ∷ rows) h k = ground (
    arith,
    insert_row-newest_first r rows,
    all-insert_row (is_newer s) r rows,
    all_newer_trans r s rows,
    is_newer-total r s,
  )

  all-take :
      (p : Row A → Bool) (n : ℕ) (rows : List (Row A))
      → all p rows ≡ true
      → all p (take n rows) ≡ true
  unfolding take all
  all-take p zero rows h = refl
  all-take p (suc n) [] h = refl
  all-take p (suc n) (r ∷ rows) h = ground (arith, all-take p n rows)

  take-newest_first :
      (n : ℕ) (rows : List (Row A)) → newest_first rows ≡ true → newest_first (take n rows) ≡ true
  unfolding take newest_first all
  take-newest_first zero rows h = refl
  take-newest_first (suc n) [] h = refl
  take-newest_first (suc n) (r ∷ rows) h =
      ground (arith, take-newest_first n rows, all-take (is_newer r) n rows)

  length-take : (n : ℕ) (rows : List (Row A)) → length (take n rows) ≤ n
  unfolding take
  length-take zero rows = omega arith
  length-take (suc n) [] = omega arith
  length-take (suc n) (r ∷ rows) = omega (arith, length-take n rows)

  keyed_below-suc :
      (n : ℕ) (rows : List (Row A)) → keyed_below n rows ≡ true → keyed_below (suc n) rows ≡ true
  unfolding keyed_below all
  keyed_below-suc n [] h = refl
  keyed_below-suc n (r ∷ rows) h = ground (arith, keyed_below-suc n rows)

module _ {A : Type 0} where
  -- A later time, or the same time and a larger key.
  abbrev pub Newer : Row A → Row A → Type 0
  Newer r s = (s.occurred_at < r.occurred_at) ⊎ ((r.occurred_at ≡ s.occurred_at) × (s.id < r.id))

  abbrev pub NewestFirst : List (Row A) → Type 0
  NewestFirst [] = Unit
  NewestFirst (r ∷ rows) = All (Newer r) rows × NewestFirst rows

  is_newer-Newer : (r s : Row A) → is_newer r s ≡ true → Newer r s
  unfolding is_newer
  is_newer-Newer r s h = elim (Bool-cases (ltb s.occurred_at r.occurred_at)) [
    | inl later ↦ inl (ground arith)
    | inr not_later ↦ inr (ground arith, ground arith)
  ]

  Newer-is_newer : (r s : Row A) → Newer r s → is_newer r s ≡ true
  unfolding is_newer
  Newer-is_newer r s (inl later) = ground arith
  Newer-is_newer r s (inr (same, larger)) = ground arith

  All-Newer : (r : Row A) (rows : List (Row A)) → all (is_newer r) rows ≡ true → All (Newer r) rows
  unfolding all
  All-Newer r [] h = tt
  All-Newer r (s ∷ rows) h = (is_newer-Newer r s (ground arith), All-Newer r rows (ground arith))

  all-Newer : (r : Row A) (rows : List (Row A)) → All (Newer r) rows → all (is_newer r) rows ≡ true
  unfolding all
  all-Newer r [] h = refl
  all-Newer r (s ∷ rows) h = ground (arith, Newer-is_newer r s h.0, all-Newer r rows h.1)

  newest_first-NewestFirst : (rows : List (Row A)) → newest_first rows ≡ true → NewestFirst rows
  unfolding newest_first
  newest_first-NewestFirst [] h = tt
  newest_first-NewestFirst (r ∷ rows) h =
      (All-Newer r rows (ground arith), newest_first-NewestFirst rows (ground arith))

  NewestFirst-newest_first : (rows : List (Row A)) → NewestFirst rows → newest_first rows ≡ true
  unfolding newest_first
  NewestFirst-newest_first [] h = refl
  NewestFirst-newest_first (r ∷ rows) h =
      ground (arith, all-Newer r rows h.0, NewestFirst-newest_first rows h.1)

  keyed_below-ids :
      (n : ℕ) (rows : List (Row A)) → keyed_below n rows ≡ true → All (λ (r : Row A). r.id < n) rows
  unfolding keyed_below all
  keyed_below-ids n [] h = tt
  keyed_below-ids n (r ∷ rows) h = (ground arith, keyed_below-ids n rows (ground arith))

  ids-keyed_below :
      (n : ℕ) (rows : List (Row A)) → All (λ (r : Row A). r.id < n) rows → keyed_below n rows ≡ true
  unfolding keyed_below all
  ids-keyed_below n [] h = refl
  ids-keyed_below n (r ∷ rows) h =
      let (below, rest) = h in ground (arith, ids-keyed_below n rows rest)

  insert_row-perm : (r : Row A) (rows : List (Row A)) → Perm (insert_row r rows) (r ∷ rows)
  unfolding insert_row
  insert_row-perm r [] = Perm.refl (r ∷ [])
  insert_row-perm r (s ∷ rows) = elim (Bool-cases (is_newer r s)) [
    | inl newer ↦ rw newer (Perm.refl (r ∷ s ∷ rows))
    | inr older ↦ rw older (Perm.trans (Perm.cons s (insert_row-perm r rows)) (Perm.swap r s rows))
  ]

  -- What `LIMIT n` leaves out.
  drop : ℕ → List (Row A) → List (Row A)
  drop zero xs = xs
  drop (suc n) [] = []
  drop (suc n) (x ∷ xs) = drop n xs

  take-drop : (n : ℕ) (xs : List (Row A)) → take n xs ++ drop n xs ≡ xs
  unfolding take drop
  take-drop zero xs = refl
  take-drop (suc n) [] = refl
  take-drop (suc n) (x ∷ xs) = ground (arith, take-drop n xs)

  length-insert_row :
      (r : Row A) (rows : List (Row A)) → length (insert_row r rows) ≡ suc (length rows)
  unfolding insert_row
  length-insert_row r [] = refl
  length-insert_row r (s ∷ rows) = ground (arith, length-insert_row r rows)

  length-take_eq :
      (n : ℕ) (xs : List (Row A))
      → length (take n xs) ≡ (if leb n (length xs) then n else length xs)
  unfolding take
  length-take_eq zero xs = ground arith
  length-take_eq (suc n) [] = ground arith
  length-take_eq (suc n) (x ∷ xs) = ground (arith, length-take_eq n xs)

-- A table in its order, whose keys were all given before.
pub record IsOrdered {A : Type 0} (t : Table A) : Type 0 where
  pub newest : NewestFirst t.rows
  pub keyed : All (λ (r : Row A). r.id < t.next_id) t.rows

module _ {A : Type 0} (kept at : ℕ) (event : A) where
  -- The row that an append adds.
  abbrev pub row_for : Table A → Row A
  row_for t = record { id = t.next_id; occurred_at = at; event = event }

  appended : Table A → Table A
  appended t = record { rows = take kept (insert_row (row_for t) t.rows); next_id = suc t.next_id }

  -- From the rows of `t` and the new one, `kept` rows are in `t1`, or all if they are fewer; the others
  -- are dropped, and each row, kept or dropped, is newer than all that follow it.
  abbrev pub KeepsNewest : Table A → Table A → Type 0
  KeepsNewest t t1 =
      (dropped : List (Row A)) × Perm (t1.rows ++ dropped) (row_for t ∷ t.rows)
      × NewestFirst (t1.rows ++ dropped)
      × (length t1.rows ≡ (if leb kept (suc (length t.rows)) then kept else suc (length t.rows)))

  append_event-eq-ok :
      (db : Database (Table A)) (key : ℕ)
      → (append_event kept at event db).0 ≡ ok key
      → (key ≡ db.tables.next_id) × ((append_event kept at event db).1.tables ≡ appended db.tables)
  unfolding append_event transaction statement appended
  append_event-eq-ok db key h = (ground arith, ground arith)

  appended-KeepsNewest : (t : Table A) → IsOrdered t → KeepsNewest t (appended t)
  unfolding appended
  appended-KeepsNewest t h =
      let all_rows : List (Row A) = insert_row (row_for t) t.rows in
      let whole : take kept all_rows ++ drop kept all_rows ≡ all_rows = take-drop kept all_rows in
      let sorted : NewestFirst all_rows = newest_first-NewestFirst all_rows (
        insert_row-newest_first (row_for t) t.rows (NewestFirst-newest_first t.rows h.newest)
          (ids-keyed_below t.next_id t.rows h.keyed)) in
      (
        drop kept all_rows,
        rw whole (insert_row-perm (row_for t) t.rows),
        rw whole sorted,
        length-take_eq kept all_rows ∙ rw (length-insert_row (row_for t) t.rows),
      )

  appended-IsOrdered : (t : Table A) → IsOrdered t → IsOrdered (appended t)
  unfolding keyed_below appended
  appended-IsOrdered t h =
      let r : Row A = row_for t in
      let below : Row A → Bool = λ s. ltb s.id (suc t.next_id) in
      let keyed : keyed_below t.next_id t.rows ≡ true = ids-keyed_below t.next_id t.rows h.keyed in
      let before = NewestFirst-newest_first t.rows h.newest in
      record {
        newest = newest_first-NewestFirst (take kept (insert_row r t.rows)) (
            take-newest_first kept (insert_row r t.rows)
              (insert_row-newest_first r t.rows before keyed));
        keyed = keyed_below-ids (suc t.next_id) (take kept (insert_row r t.rows)) (
            all-take below kept (insert_row r t.rows) (
              rw (all-insert_row below r t.rows)
                (ground (arith, keyed_below-suc t.next_id t.rows keyed))));
      }

  -- An append to a table in order is all or nothing: with an error the table is as it was; without one,
  -- the event gets the next key, the table holds the newest of its rows and the event's, as many as are
  -- retained, and no others, and is in order.
  pub append_event-IsOrdered :
      (db : Database (Table A))
      → IsOrdered db.tables
      → ((e : HistoryError)
          → (append_event kept at event db).0 ≡ err e
          → (append_event kept at event db).1.tables ≡ db.tables)
        × ((key : ℕ)
            → (append_event kept at event db).0 ≡ ok key
            → (key ≡ db.tables.next_id)
              × KeepsNewest db.tables (append_event kept at event db).1.tables
              × IsOrdered (append_event kept at event db).1.tables)
  unfolding append_event
  append_event-IsOrdered db ordered = (
    λ e h. transaction-eq-err HistoryError.begin_failed HistoryError.commit_failed _ db e h,
    λ key h.
        let (given, after) = append_event-eq-ok db key h in
        (
          given,
          rw after (appended-KeepsNewest db.tables ordered),
          rw after (appended-IsOrdered db.tables ordered),
        ),
  )
