-- ===== src/Router/Label/Laws.antt =====
-- About `normalizeHostnameLabel` of backend/internal/router/router.go: the form of its results.
use pelican_mc_router.Prelude.{
  ℕ, ◌<◌, ◌≡◌, refl, ◌⊎◌, inl, Bool, true, false, not, ◌&&◌, ◌||◌, some, [], ◌∷◌, arith, leb, ltb,
  eqb, all,
}
use pelican_mc_router.Text.{
  Text, Unicode, to_lower, trim_space, trim_by, drop_leading, drop_trailing,
}
use pelican_mc_router.Text.Laws.{to_lower_id, trim_space_id}
use pelican_mc_router.Router.Label.{
  Builder, is_alphanumeric, written, write, build_label, new_builder, normalize_hostname_label,
}

-- After a hyphen, or at the start, a slug goes on with a letter or a digit; it ends with one.
abbrev pub IsSlug : Bool → Text → Type 0
IsSlug after_hyphen [] = after_hyphen ≡ false
IsSlug after_hyphen (c ∷ s) =
    (((c ≡ b'-') × (after_hyphen ≡ false)) ⊎ (is_alphanumeric c ≡ true)) × IsSlug (eqb c b'-') s

-- What the loop may have written: as a slug, but the end is free.
abbrev IsDraft : Bool → Text → Type 0
IsDraft after_hyphen [] = Unit {0}
IsDraft after_hyphen (c ∷ s) =
    (((c ≡ b'-') × (after_hyphen ≡ false)) ⊎ (is_alphanumeric c ≡ true)) × IsDraft (eqb c b'-') s

-- The variables of the loop agree with what was written.
abbrev blocked : Builder → Bool
blocked b = not b.started || b.last_was_hyphen

build_label-IsDraft : (b : Builder) (s : Text) → IsDraft (blocked b) (build_label b s)
unfolding build_label
build_label-IsDraft b [] = tt
build_label-IsDraft b (c ∷ s) = ground (arith, build_label-IsDraft (write b (written b c)) s)

-- Cutting hyphens off the end makes a slug of a draft, unless nothing is left.
drop_trailing-IsSlug :
    (h : Bool) (s : Text)
    → IsDraft h s
    → (drop_trailing (eqb b'-') s ≡ []) ⊎ IsSlug h (drop_trailing (eqb b'-') s)
unfolding drop_trailing is_alphanumeric
drop_trailing-IsSlug h [] d = inl refl
drop_trailing-IsSlug h (c ∷ s) d = ground (arith, drop_trailing-IsSlug (eqb c b'-') s d.1)

drop_leading-IsDraft : (s : Text) → IsDraft true s → drop_leading (eqb b'-') s ≡ s
unfolding drop_leading is_alphanumeric
drop_leading-IsDraft [] d = refl
drop_leading-IsDraft (c ∷ s) d = ground arith

-- A normalised label is empty or a slug: lower-case letters, digits and single hyphens, with a
-- letter or a digit at both ends.
pub normalize_hostname_label-IsSlug :
    ⦃u : Unicode⦄ (value : Text)
    → (normalize_hostname_label value ≡ []) ⊎ IsSlug true (normalize_hostname_label value)
unfolding normalize_hostname_label trim_by
normalize_hostname_label-IsSlug value =
    let s : Text = build_label new_builder (to_lower (trim_space value)) in
    let d : IsDraft true s = build_label-IsDraft new_builder (to_lower (trim_space value)) in
    rw (drop_leading-IsDraft s d) (drop_trailing-IsSlug true s d)

-- The characters of a slug.
unfoldable pub is_slug_char : ℕ → Bool
unfolding is_alphanumeric
is_slug_char c = is_alphanumeric c || eqb c b'-'

IsSlug-chars : (h : Bool) (s : Text) → IsSlug h s → all is_slug_char s ≡ true
unfolding all is_slug_char
IsSlug-chars h [] d = refl
IsSlug-chars h (c ∷ s) d = ground (arith, IsSlug-chars (eqb c b'-') s d.1)

pub slug_char_ascii : (c : ℕ) → is_slug_char c ≡ true → c < 128
unfolding is_slug_char
slug_char_ascii c h = ground arith

pub slug_char_small : (c : ℕ) → is_slug_char c ≡ true → (leb b'A' c && leb c b'Z') ≡ false
unfolding is_slug_char
slug_char_small c h = ground arith

pub slug_char_solid : (c : ℕ) → is_slug_char c ≡ true → ltb 32 c ≡ true
unfolding is_slug_char
slug_char_solid c h = ground arith

build_label_id : (b : Builder) (s : Text) → IsSlug (blocked b) s → build_label b s ≡ s
unfolding build_label
build_label_id b [] d = refl
build_label_id b (c ∷ s) d = ground (arith, build_label_id (write b (some c)) s)

drop_trailing-IsSlug_id : (h : Bool) (s : Text) → IsSlug h s → drop_trailing (eqb b'-') s ≡ s
unfolding drop_trailing is_alphanumeric
drop_trailing-IsSlug_id h [] d = refl
drop_trailing-IsSlug_id h (c ∷ []) d = ground arith
drop_trailing-IsSlug_id h (c ∷ e ∷ s) d =
    ground (arith, drop_trailing-IsSlug_id (eqb c b'-') (e ∷ s) d.1)

IsSlug-IsDraft : (h : Bool) (s : Text) → IsSlug h s → IsDraft h s
IsSlug-IsDraft h [] d = tt
IsSlug-IsDraft h (c ∷ s) d = (d.0, IsSlug-IsDraft (eqb c b'-') s d.1)

-- Every slug is its own normal form.
pub normalize_hostname_label-fixpoint :
    ⦃u : Unicode⦄ (s : Text) → IsSlug true s → normalize_hostname_label s ≡ s
unfolding normalize_hostname_label trim_by
normalize_hostname_label-fixpoint s d =
    let chars : all is_slug_char s ≡ true = IsSlug-chars true s d in
    rw
      (
        trim_space_id is_slug_char slug_char_ascii slug_char_small slug_char_solid s chars,
        to_lower_id is_slug_char slug_char_ascii slug_char_small slug_char_solid s chars,
        build_label_id new_builder s d,
        drop_leading-IsDraft s (IsSlug-IsDraft true s d),
      )
      (drop_trailing-IsSlug_id true s d)
