-- ===== src/Storage/Migrate/Scripts.antt =====
-- The scripts of a release, and what they make of a database, for backend/internal/storage/sqlite/migrate.go.
use pelican_mc_router.Prelude.{
  ◌≡◌, refl, inl, inr, true, false, ◌&&◌, Option, none, some, List, [], ◌∷◌, ◌++◌, map, All, arith,
  contains, distinct, ◌==◌, if◌then◌else◌, Result, ok, err, Result-cases, Option-cases, ==-self,
}
use pelican_mc_router.Prelude.Dict.{Dict, keys, has, lookup, insert}
use pelican_mc_router.Text.{Text, text_eq}
use pelican_mc_router.Storage.Migrate.{Entry, is_migration, blank_rows}

-- The script of a version: the contents of the migration of that name.
unfoldable pub script_of : List Entry → Text → Option Text
script_of [] version = none
script_of (e ∷ entries) version =
    if is_migration e && (e.name == version)
    then elim e.contents [ ok c ↦ some c | err _ ↦ none ]
    else script_of entries version

-- The scripts of some versions, one after another.
unfoldable pub replay :
    {S : Type 0} → (Text → S → Result Text S) → (Text → Option Text) → List Text → S → Option S
replay exec script [] s = some s
replay exec script (v ∷ versions) s = elim (script v) [
  | none ↦ none
  | some c ↦ elim (exec c s) [ err _ ↦ none | ok s1 ↦ replay exec script versions s1 ]
]

pub replay-append :
    {S : Type 0} (exec : Text → S → Result Text S) (script : Text → Option Text)
    (versions : List Text) (v c : Text) (s s1 s2 : S)
    → replay exec script versions s ≡ some s1
    → script v ≡ some c
    → exec c s1 ≡ ok s2
    → replay exec script (versions ++ v ∷ []) s ≡ some s2
unfolding replay
replay-append exec script [] v c s s1 s2 h is_script runs = ground arith
replay-append exec script (u ∷ versions) v c s s1 s2 h is_script runs =
    elim (Option-cases (script u)) [
      | inl absent ↦ absurd (ground arith)
      | inr (d, found) ↦ elim (Result-cases (exec d s)) [
        | inr (e, bad) ↦ absurd (ground arith)
        | inl (s', good) ↦ ground (arith, replay-append exec script versions v c s' s1 s2)
      ]
    ]

pub keys-insert_new :
    (v c : Text) (rows : Dict Text Text)
    → has v rows ≡ false
    → keys (insert v c rows) ≡ keys rows ++ v ∷ []
unfolding keys insert has lookup
keys-insert_new v c [] h = refl
keys-insert_new v c ((u, d) ∷ rows) h = ground (arith, keys-insert_new v c rows)

pub keys-insert_old :
    (v c : Text) (rows : Dict Text Text) → has v rows ≡ true → keys (insert v c rows) ≡ keys rows
unfolding keys insert has lookup
keys-insert_old v c [] h = absurd (ground arith)
keys-insert_old v c ((u, d) ∷ rows) h = ground (arith, keys-insert_old v c rows)

pub keys-blank_rows : (rows : Dict Text Text) → keys (blank_rows rows) ≡ keys rows
unfolding keys
keys-blank_rows [] = refl
keys-blank_rows (r ∷ rows) = ground (arith, keys-blank_rows rows)

-- The contents of a migration are its script.
abbrev pub IsScript : (Text → Option Text) → Entry → Type 0
IsScript script e =
    (contents : Text)
    → is_migration e ≡ true
    → e.contents ≡ ok contents
    → script e.name ≡ some contents

abbrev names : List Entry → List Text
names = map (λ (e : Entry). e.name)

later-IsScript :
    (e : Entry) (entries later : List Entry)
    → contains (names later) e.name ≡ false
    → All (IsScript (script_of entries)) later
    → All (IsScript (script_of (e ∷ entries))) later
unfolding contains script_of
later-IsScript e entries [] h scripts = tt
later-IsScript e entries (d ∷ later) h scripts = (
  λ contents migration good. ground (arith, scripts.0 contents migration good),
  later-IsScript e entries later (ground arith) scripts.1,
)

pub All-IsScript :
    (entries : List Entry)
    → distinct (names entries) ≡ true
    → All (IsScript (script_of entries)) entries
unfolding distinct script_of
All-IsScript [] h = tt
All-IsScript (e ∷ entries) h = (
  λ contents migration good. ground (arith, ==-self e.name),
  later-IsScript e entries entries (ground arith) (All-IsScript entries (ground arith)),
)
