-- ===== src/Router/Hostname/Laws.antt =====
-- About `normalizeHostname` and `isValidHostname` of backend/internal/router/planner.go.
use pelican_mc_router.Prelude.{
  ℕ, ◌<◌, ◌≡◌, refl, Bool, true, false, not, ◌&&◌, ◌||◌, List, [], ◌∷◌, arith, leb, ltb, eqb, all,
  is_empty,
}
use pelican_mc_router.Text.{
  Text, Unicode, to_lower, trim_space, trim_by, drop_leading, drop_trailing, split, push_head,
}
use pelican_mc_router.Text.Laws.{to_lower_id, trim_space_id}
use pelican_mc_router.Text.Splitting.{all-split}
use pelican_mc_router.Router.Hostname.{
  is_label_char, is_valid_label, is_valid_hostname, normalize_hostname,
}

module _ (s : Text) where
  pub valid_hostname-labels : is_valid_hostname s ≡ true → all is_valid_label (split b'.' s) ≡ true
  unfolding is_valid_hostname
  valid_hostname-labels h = ground arith

-- The characters of a host name.
unfoldable pub is_host_char : ℕ → Bool
unfolding is_label_char
is_host_char c = is_label_char c || eqb c b'.'

valid_label-chars : (label : Text) → is_valid_label label ≡ true → all is_label_char label ≡ true
unfolding is_valid_label all
valid_label-chars [] h = refl
valid_label-chars (c ∷ label) h = ground arith

valid_labels-chars :
    (labels : List Text) → all is_valid_label labels ≡ true → all (all is_label_char) labels ≡ true
unfolding all
valid_labels-chars [] h = refl
valid_labels-chars (l ∷ labels) h = ground (arith, valid_label-chars l, valid_labels-chars labels)

pub labels-chars : (s : Text) → all is_valid_label (split b'.' s) ≡ true → all is_host_char s ≡ true
unfolding is_host_char
labels-chars s h = all-split is_label_char b'.' s (valid_labels-chars (split b'.' s) h)

host_char_ascii : (c : ℕ) → is_host_char c ≡ true → c < 128
unfolding is_host_char
host_char_ascii c h = ground arith

host_char_small : (c : ℕ) → is_host_char c ≡ true → (leb b'A' c && leb c b'Z') ≡ false
unfolding is_host_char
host_char_small c h = ground arith

host_char_solid : (c : ℕ) → is_host_char c ≡ true → ltb 32 c ≡ true
unfolding is_host_char
host_char_solid c h = ground arith

-- Lower-casing and trimming white space change nothing in a text of valid labels.
pub lower_trim_id :
    ⦃u : Unicode⦄ (s : Text)
    → all is_valid_label (split b'.' s) ≡ true
    → to_lower (trim_space s) ≡ s
lower_trim_id s h =
    let chars : all is_host_char s ≡ true = labels-chars s h in
    rw (trim_space_id is_host_char host_char_ascii host_char_small host_char_solid s chars)
      (to_lower_id is_host_char host_char_ascii host_char_small host_char_solid s chars)

abbrev pub filled : Text → Bool
filled s = not (is_empty s)

abbrev pub later_filled : List Text → Bool
later_filled [] = true
later_filled (part ∷ parts) = all filled parts

pub later_filled-push_head :
    (c : ℕ) (parts : List Text) → later_filled (push_head c parts) ≡ later_filled parts
unfolding all
later_filled-push_head c [] = refl
later_filled-push_head c (p ∷ parts) = refl

pub filled-later : (parts : List Text) → all filled parts ≡ true → later_filled parts ≡ true
unfolding all
filled-later [] h = refl
filled-later (p ∷ parts) h = ground arith

drop_trailing_dot : (s : Text) → later_filled (split b'.' s) ≡ true → drop_trailing (eqb b'.') s ≡ s
unfolding drop_trailing split all
drop_trailing_dot [] h = refl
drop_trailing_dot (c ∷ []) h = ground arith
drop_trailing_dot (c ∷ d ∷ s) h = ground (
  arith,
  drop_trailing_dot (d ∷ s),
  later_filled-push_head c (split b'.' (d ∷ s)),
  filled-later (split b'.' (d ∷ s)),
)

pub valid_label-filled :
    (labels : List Text) → all is_valid_label labels ≡ true → all filled labels ≡ true
unfolding all is_valid_label
valid_label-filled [] h = refl
valid_label-filled ([] ∷ labels) h = cc
valid_label-filled ((c ∷ l) ∷ labels) h = ground (arith, valid_label-filled labels)

drop_leading_dot : (s : Text) → all filled (split b'.' s) ≡ true → drop_leading (eqb b'.') s ≡ s
unfolding drop_leading split all
drop_leading_dot [] h = refl
drop_leading_dot (c ∷ s) h = ground arith

-- A text of valid labels is its own normal form, so `normalizeHostname` keeps valid host names.
pub normalize_hostname-fixpoint :
    ⦃u : Unicode⦄ (s : Text) → is_valid_hostname s ≡ true → normalize_hostname s ≡ s
unfolding normalize_hostname trim_by
normalize_hostname-fixpoint s v =
    let labels : all is_valid_label (split b'.' s) ≡ true = valid_hostname-labels s v in
    let full : all filled (split b'.' s) ≡ true = valid_label-filled (split b'.' s) labels in
    rw (lower_trim_id s labels, drop_leading_dot s full)
      (drop_trailing_dot s (filled-later (split b'.' s) full))
