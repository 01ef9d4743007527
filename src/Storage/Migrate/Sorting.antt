-- ===== src/Storage/Migrate/Sorting.antt =====
-- About the order in which `Migrate` of backend/internal/storage/sqlite/migrate.go takes the entries.
use mathlib.Core.Path.{subst}
use pelican_mc_router.Prelude.{if◌then◌else◌, inl, inr, List, [], ◌∷◌, All, Bool-cases}
use pelican_mc_router.Text.Sort.{le_text}
use pelican_mc_router.Storage.Migrate.{Entry, insert_entry, sort_entries}

module _ (P : Entry → Type 0) where
  All-insert_entry :
      (e : Entry) (entries : List Entry) → P e → All P entries → All P (insert_entry e entries)
  unfolding insert_entry
  All-insert_entry e [] p h = (p, tt)
  All-insert_entry e (d ∷ entries) p h = elim (Bool-cases (le_text e.name d.name)) [
    | inl before ↦ rw before (p, h)
    | inr after ↦ rw after (h.0, All-insert_entry e entries p h.1)
  ]

  pub All-sort_entries : (entries : List Entry) → All P entries → All P (sort_entries entries)
  unfolding sort_entries
  All-sort_entries [] h = tt
  All-sort_entries (e ∷ entries) h =
      All-insert_entry e (sort_entries entries) h.0 (All-sort_entries entries h.1)

  All-insert_entry_back :
      (e : Entry) (entries : List Entry) → All P (insert_entry e entries) → P e × All P entries
  unfolding insert_entry
  All-insert_entry_back e [] h = h
  All-insert_entry_back e (d ∷ entries) h = elim (Bool-cases (le_text e.name d.name)) [
    | inl before ↦
        let held : All P (e ∷ d ∷ entries) =
          subst (λ b. All P (if b then e ∷ d ∷ entries else d ∷ insert_entry e entries)) before h in
        held
    | inr after ↦
        let held : All P (d ∷ insert_entry e entries) =
          subst (λ b. All P (if b then e ∷ d ∷ entries else d ∷ insert_entry e entries)) after h in
        let (p, rest) = All-insert_entry_back e entries held.1 in (p, (held.0, rest))
  ]

  pub All-sort_entries_back : (entries : List Entry) → All P (sort_entries entries) → All P entries
  unfolding sort_entries
  All-sort_entries_back [] h = tt
  All-sort_entries_back (e ∷ entries) h =
      let (p, rest) = All-insert_entry_back e (sort_entries entries) h in
      (p, All-sort_entries_back entries rest)
