-- ===== src/Router/Label.antt =====
-- `normalizeHostnameLabel` of backend/internal/router/router.go.
pub mod Laws
use pelican_mc_router.Prelude.{
  ℕ, Bool, true, false, not, ◌&&◌, ◌||◌, Option, none, some, List, [], ◌∷◌, leb, eqb, if◌then◌else◌,
}
use pelican_mc_router.Text.{Text, Unicode, to_lower, trim_space, trim}

unfoldable pub is_alphanumeric : ℕ → Bool
is_alphanumeric c = leb b'a' c && leb c b'z' || leb b'0' c && leb c b'9'

unfoldable pub is_separator : ℕ → Bool
is_separator c = eqb c b'-' || eqb c b'_' || eqb c b' '

-- The loop's variables: whether `builder` holds a character, and `lastWasHyphen`.
pub record Builder : Type 0 where
  pub started : Bool
  pub last_was_hyphen : Bool

-- One case of the `switch`: the character that it writes, if any.
unfoldable pub written : Builder → ℕ → Option ℕ
unfolding is_alphanumeric is_separator
written b c =
    if is_alphanumeric c
    then some c
    else if is_separator c && (b.started && not b.last_was_hyphen)
    then some b'-'
    else none

unfoldable pub write : Builder → Option ℕ → Builder
write b none = b
write b (some c) = record { started = true; last_was_hyphen = eqb c b'-' }

abbrev pub emit : Option ℕ → Text → Text
emit none s = s
emit (some c) s = c ∷ s

-- What the loop appends to `builder` from here on.
unfoldable pub build_label : Builder → Text → Text
unfolding written write
build_label b [] = []
build_label b (c ∷ s) = let w = written b c in emit w (build_label (write b w) s)

abbrev pub new_builder : Builder
new_builder = record { started = false; last_was_hyphen = false }

unfoldable pub normalize_hostname_label : ⦃u : Unicode⦄ → Text → Text
unfolding build_label to_lower trim_space trim
normalize_hostname_label value = trim b'-' (build_label new_builder (to_lower (trim_space value)))
