-- ===== src/Router/Hostname.antt =====
-- The host names of backend/internal/router: `buildHostname` and `normalizeDomain` of router.go,
-- `normalizeHostname` and `isValidHostname` of planner.go.
pub mod Laws
use pelican_mc_router.Prelude.{
  ℕ, Bool, true, false, not, ◌&&◌, ◌||◌, List, [], ◌∷◌, ◌++◌, leb, ltb, eqb, ◌==◌, length, is_empty,
  last, all, if◌then◌else◌,
}
use pelican_mc_router.Text.{Text, text, text_eq, Unicode, to_lower, trim_space, trim, split}
use pelican_mc_router.Text.NetAddress.{parse_ipv4, is_some_address}
use pelican_mc_router.Models.{MinecraftServer}
use pelican_mc_router.Router.Label.{normalize_hostname_label}

-- The characters of the inner loop of `isValidHostname`.
unfoldable pub is_label_char : ℕ → Bool
is_label_char c = leb b'a' c && leb c b'z' || leb b'0' c && leb c b'9' || eqb c b'-'

-- One round of its outer loop. `len` counts bytes, which are characters in a label that passes.
unfoldable pub is_valid_label : Text → Bool
unfolding is_label_char
is_valid_label [] = false
is_valid_label (c ∷ label) =
    leb (length (c ∷ label)) 63
    && (not (eqb c b'-') && (not (eqb (last c label) b'-') && all is_label_char (c ∷ label)))

-- `net.ParseIP` takes no text without a colon but a dotted IPv4 address, and a valid label has
-- no colon.
unfoldable pub is_valid_hostname : Text → Bool
unfolding is_valid_label split parse_ipv4
is_valid_hostname hostname =
    if is_empty hostname || ltb 253 (length hostname)
    then false
    else all is_valid_label (split b'.' hostname) && not (is_some_address (parse_ipv4 hostname))

module _ ⦃u : Unicode⦄ where
  unfoldable pub normalize_hostname : Text → Text
  unfolding to_lower trim_space trim
  normalize_hostname hostname = trim b'.' (to_lower (trim_space hostname))

  unfoldable pub normalize_domain : Text → Text
  unfolding to_lower trim_space trim
  normalize_domain domain = trim b'.' (to_lower (trim_space domain))

  unfoldable pub build_hostname : MinecraftServer → Text → Text
  unfolding normalize_hostname_label
  build_hostname server domain =
      let name = normalize_hostname_label server.name in
      let label = if is_empty name then normalize_hostname_label server.identifier else name in
      if is_empty label then [] else label ++ text "." ++ domain
