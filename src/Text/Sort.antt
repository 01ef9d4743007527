-- ===== src/Text/Sort.antt =====
-- `sort.Strings`: texts in the order of their code points, which is that of their UTF-8 bytes.
use pelican_mc_router.Prelude.{
  ◌≡◌, refl, Bool, true, false, ◌&&◌, ◌||◌, List, [], ◌∷◌, arith, ltb, eqb, contains, ◌==◌,
  if◌then◌else◌,
}
use pelican_mc_router.Text.{Text, text_eq}

-- `a <= b`
unfoldable pub le_text : Text → Text → Bool
le_text [] b = true
le_text (c ∷ a) [] = false
le_text (c ∷ a) (d ∷ b) = ltb c d || (eqb c d && le_text a b)

unfoldable pub insert_sorted : Text → List Text → List Text
unfolding le_text
insert_sorted a [] = a ∷ []
insert_sorted a (b ∷ l) = if le_text a b then a ∷ b ∷ l else b ∷ insert_sorted a l

unfoldable pub sort_strings : List Text → List Text
unfolding insert_sorted
sort_strings [] = []
sort_strings (a ∷ l) = insert_sorted a (sort_strings l)

contains-insert_sorted :
    (a b : Text) (l : List Text) → contains (insert_sorted a l) b ≡ (b == a || contains l b)
unfolding insert_sorted contains
contains-insert_sorted a b [] = refl
contains-insert_sorted a b (c ∷ l) = ground (arith, contains-insert_sorted a b l)

-- Sorting keeps the members.
pub contains-sort_strings : (l : List Text) (b : Text) → contains (sort_strings l) b ≡ contains l b
unfolding sort_strings contains
contains-sort_strings [] b = refl
contains-sort_strings (a ∷ l) b =
    ground (arith, contains-insert_sorted a b (sort_strings l), contains-sort_strings l b)
