-- ===== src/Text/Laws.antt =====
-- Trimming and lower-casing a text that needs neither.
use pelican_mc_router.Prelude.{
  ℕ, ◌<◌, ◌≡◌, refl, Bool, true, false, ◌&&◌, [], ◌∷◌, arith, leb, ltb, all, any,
}
use pelican_mc_router.Text.{
  Text, Unicode, drop_leading, drop_trailing, trim_by, to_lower, trim_space,
}

module _ (p : ℕ → Bool) where
  drop_leading_id : (s : Text) → any p s ≡ false → drop_leading p s ≡ s
  unfolding drop_leading any
  drop_leading_id [] h = refl
  drop_leading_id (c ∷ s) h = ground arith

  drop_trailing_id : (s : Text) → any p s ≡ false → drop_trailing p s ≡ s
  unfolding drop_trailing any
  drop_trailing_id [] h = refl
  drop_trailing_id (c ∷ s) h = ground (arith, drop_trailing_id s)

  -- A text with no character to cut stays as it is.
  pub trim_by_id : (s : Text) → any p s ≡ false → trim_by p s ≡ s
  unfolding trim_by
  trim_by_id s h = ground (arith, drop_leading_id s h, drop_trailing_id s h)

  pub drop_trailing-cons :
      (c : ℕ) (s : Text) → p c ≡ false → drop_trailing p (c ∷ s) ≡ c ∷ drop_trailing p s
  unfolding drop_trailing
  drop_trailing-cons c s h = ground arith

module _ ⦃u : Unicode⦄ where
  -- Lower-casing and trimming change nothing in a text of characters that `q` admits, where `q`
  -- admits only ASCII characters that are neither capital letters nor spaces.
  module _ (q : ℕ → Bool) (ascii : (c : ℕ) → q c ≡ true → c < 128)
      (small : (c : ℕ) → q c ≡ true → (leb b'A' c && leb c b'Z') ≡ false)
      (solid : (c : ℕ) → q c ≡ true → ltb 32 c ≡ true) where
    pub to_lower_id : (s : Text) → all q s ≡ true → to_lower s ≡ s
    unfolding to_lower all
    to_lower_id [] h = refl
    to_lower_id (c ∷ s) h = ground (arith, to_lower_id s, ascii c, small c, u.lower_ascii c)

    no_space : (s : Text) → all q s ≡ true → any u.space s ≡ false
    unfolding any all
    no_space [] h = refl
    no_space (c ∷ s) h = ground (arith, no_space s, ascii c, solid c, u.space_ascii c)

    pub trim_space_id : (s : Text) → all q s ≡ true → trim_space s ≡ s
    unfolding trim_space
    trim_space_id s h = trim_by_id u.space s (no_space s h)
