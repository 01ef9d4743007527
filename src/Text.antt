-- ===== src/Text.antt =====
-- Texts and what the program uses of Go's `strings`: a text is the list of its code points. The
-- tables behind `unicode.ToLower` and `unicode.IsSpace` are the parameter `Unicode`; its laws are
-- what Go documents of them on ASCII.
pub mod Laws
pub mod Sort
pub mod Decimal
pub mod Splitting
pub mod NetAddress
pub mod Ipv6
pub mod Paths
use Prim.Native.Char.{code}
use Prim.Native.String
use pelican_mc_router.Prelude.{
  ℕ, ◌+◌, ◌<◌, String, ◌≡◌, Bool, true, false, not, ◌&&◌, ◌||◌, List, [], ◌∷◌, map, ℕ_discrete, Eq,
  eqb, leb, ltb, ◌==◌, is_empty, if◌then◌else◌,
}

abbrev pub Text : Type 0
Text = List ℕ

abbrev pub text : String → Text
text String.[] = []
text (String.◌∷◌ c s) = code c ∷ text s

pub text_dec : Discrete (List ℕ)
text_dec = hlevel ℕ_discrete

-- Shut in proofs, where a split on `s == t` yields the equation or its negation.
instance unfoldable pub text_eq : Eq (List ℕ)
unfolding text_dec ℕ_discrete
text_eq = record { dec = text_dec }

abbrev pub ascii_lower : ℕ → ℕ
ascii_lower c = if leb b'A' c && leb c b'Z' then c + 32 else c

-- '\t', '\n', '\v', '\f', '\r' and ' '.
abbrev pub ascii_space : ℕ → Bool
ascii_space c = leb 9 c && leb c 13 || eqb c 32

pub record Unicode : Type 0 where
  pub lower : ℕ → ℕ
  pub space : ℕ → Bool
  pub lower_ascii : (c : ℕ) → c < 128 → lower c ≡ ascii_lower c
  pub space_ascii : (c : ℕ) → c < 128 → space c ≡ ascii_space c

unfoldable pub drop_leading : (ℕ → Bool) → Text → Text
drop_leading p [] = []
drop_leading p (c ∷ s) = let rest = drop_leading p s in if p c then rest else c ∷ s

unfoldable pub drop_trailing : (ℕ → Bool) → Text → Text
drop_trailing p [] = []
drop_trailing p (c ∷ s) =
    let rest = drop_trailing p s in if is_empty rest && p c then [] else c ∷ rest

-- `strings.TrimFunc(s, p)`
unfoldable pub trim_by : (ℕ → Bool) → Text → Text
unfolding drop_leading drop_trailing
trim_by p s = drop_trailing p (drop_leading p s)

-- `strings.Trim(s, c)` for a cutset of one character
unfoldable pub trim : ℕ → Text → Text
unfolding trim_by
trim c s = trim_by (eqb c) s

module _ ⦃u : Unicode⦄ where
  -- `strings.ToLower(s)`
  unfoldable pub to_lower : Text → Text
  to_lower s = map u.lower s

  -- `strings.TrimSpace(s)`
  unfoldable pub trim_space : Text → Text
  unfolding trim_by
  trim_space s = trim_by u.space s

-- `s` in front of the first part
abbrev pub push_head : ℕ → List Text → List Text
push_head c [] = (c ∷ []) ∷ []
push_head c (part ∷ parts) = (c ∷ part) ∷ parts

-- `strings.Split(s, sep)` for a separator of one character
unfoldable pub split : ℕ → Text → List Text
split sep [] = [] ∷ []
split sep (c ∷ s) = let rest = split sep s in if eqb c sep then [] ∷ rest else push_head c rest

-- `strings.HasPrefix(s, prefix)`
unfoldable pub has_prefix : Text → Text → Bool
has_prefix s [] = true
has_prefix [] (p ∷ prefix) = false
has_prefix (c ∷ s) (p ∷ prefix) = eqb c p && has_prefix s prefix

-- `strings.HasSuffix(s, suffix)`
unfoldable pub has_suffix : Text → Text → Bool
has_suffix [] suffix = is_empty suffix
has_suffix (c ∷ s) suffix = (c ∷ s) == suffix || has_suffix s suffix
