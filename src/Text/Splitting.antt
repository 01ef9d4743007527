-- ===== src/Text/Splitting.antt =====
-- Splitting a text at a separator.
use pelican_mc_router.Prelude.{ℕ, ◌≡◌, refl, Bool, true, ◌&&◌, ◌||◌, List, [], ◌∷◌, arith, eqb, all}
use pelican_mc_router.Text.{Text, split, push_head}

module _ (q : ℕ → Bool) (sep : ℕ) where
  all-push_head :
      (c : ℕ) (parts : List Text) → all (all q) (push_head c parts) ≡ (q c && all (all q) parts)
  unfolding all
  all-push_head c [] = ground arith
  all-push_head c (part ∷ parts) = ground arith

  -- If every part has only characters that `q` admits, the text has only those and the separator.
  pub all-split :
      (s : Text) → all (all q) (split sep s) ≡ true → all (λ c. q c || eqb c sep) s ≡ true
  unfolding split all
  all-split [] h = refl
  all-split (c ∷ s) h = ground (arith, all-split s, all-push_head c (split sep s))
