-- ===== src/Text/NetAddress.antt =====
-- `netip.ParseAddr` on dotted IPv4 addresses.
use pelican_mc_router.Prelude.{
  ℕ, ◌+◌, ◌*◌, ◌-◌, Bool, true, false, ◌&&◌, Option, none, some, List, [], ◌∷◌, leb, eqb,
  if◌then◌else◌,
}
use pelican_mc_router.Text.{Text, split}

unfoldable pub is_digit : ℕ → Bool
is_digit c = leb b'0' c && leb c b'9'

-- The octet read so far and what is left of the field: at most 255, and no leading zero.
unfoldable pub octet_from : ℕ → Text → Option ℕ
unfolding is_digit
octet_from n [] = some n
octet_from n (c ∷ s) =
    let next = n * 10 + (c - b'0') in
    let more = octet_from next s in
    if is_digit c && (leb next 255 && (if eqb n 0 then false else true)) then more else none

unfoldable pub octet : Text → Option ℕ
unfolding octet_from
octet [] = none
octet (c ∷ s) = if is_digit c then octet_from (c - b'0') s else none

pub record Ipv4 : Type 0 where
  pub a : ℕ
  pub b : ℕ
  pub c : ℕ
  pub d : ℕ

abbrev four : Option ℕ → Option ℕ → Option ℕ → Option ℕ → Option Ipv4
four (some a) (some b) (some c) (some d) = some (record { a = a; b = b; c = c; d = d })
four _ _ _ _ = none

abbrev pub four_octets : List Text → Option Ipv4
four_octets (a ∷ b ∷ c ∷ d ∷ []) = four (octet a) (octet b) (octet c) (octet d)
four_octets _ = none

unfoldable pub parse_ipv4 : Text → Option Ipv4
unfolding octet split
parse_ipv4 s = four_octets (split b'.' s)

abbrev pub is_some_address : Option Ipv4 → Bool
is_some_address none = false
is_some_address (some a) = true
