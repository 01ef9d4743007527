-- ===== src/Text/Ipv6.antt =====
-- `netip.ParseAddr`, as far as it tells whether a text is an unspecified address: 0.0.0.0, or ::
-- in any spelling that has no zone.
use pelican_mc_router.Prelude.{
  ℕ, zero, suc, ◌+◌, Bool, true, false, not, ◌&&◌, ◌||◌, Option, none, some, [], ◌∷◌, length,
  is_empty, all, ltb, leb, eqb, if◌then◌else◌,
}
use pelican_mc_router.Text.{Text}
use pelican_mc_router.Text.NetAddress.{Ipv4, parse_ipv4}

unfoldable pub is_hex : ℕ → Bool
is_hex c = leb b'0' c && leb c b'9' || (leb b'a' c && leb c b'f' || leb b'A' c && leb c b'F')

-- The hexadecimal digits that a text begins with, and the rest.
unfoldable pub hex_group : Text → Text × Text
hex_group [] = ([], [])
hex_group (c ∷ s) =
    let (digits, rest) = hex_group s in if is_hex c then (c ∷ digits, rest) else ([], c ∷ s)

abbrev pub is_zero_ipv4 : Ipv4 → Bool
is_zero_ipv4 v = eqb v.a 0 && (eqb v.b 0 && (eqb v.c 0 && eqb v.d 0))

-- The groups of 16 bits read so far, whether all are 0, and whether "::" was read.
pub record Groups : Type 0 where
  pub count : ℕ
  pub zeros : Bool
  pub ellipsis : Bool

abbrev pub add_group : Groups → Text → Groups
add_group g digits = record g { count = suc g.count; zeros = g.zeros && all (eqb b'0') digits }

-- A dotted IPv4 address at the end.
abbrev pub add_ipv4 : Groups → Option Ipv4 → Option Groups
add_ipv4 g none = none
add_ipv4 g (some v) =
    if leb g.count 6 && (g.ellipsis || eqb g.count 6)
    then some (record g { count = g.count + 2; zeros = g.zeros && is_zero_ipv4 v })
    else none

-- The loop over groups, of which there are at most as many as the fuel: 8 fill an address.
unfoldable pub groups : ℕ → Groups → Text → Option Groups
groups zero g s = if is_empty s then some g else none
groups (suc n) g s =
    let (digits, rest) = hex_group s in
    if is_empty digits || ltb 4 (length digits) then none else elim rest [
      | [] ↦ some (add_group g digits)
      | c ∷ more ↦ elim (eqb c b'.') [
        | true ↦ add_ipv4 g (parse_ipv4 s)
        | false ↦ elim (eqb c b':') [
          | false ↦ none
          | true ↦ elim more [
            | [] ↦ none
            | d ∷ after ↦ elim (eqb d b':') [
              | false ↦ groups n (add_group g digits) (d ∷ after)
              | true ↦ if g.ellipsis then none else elim after [
                | [] ↦ some (record (add_group g digits) { ellipsis = true })
                | e ∷ later ↦ groups n (record (add_group g digits) { ellipsis = true }) (e ∷ later)
              ]
            ]
          ]
        ]
      ]
    ]

-- "::" stands for at least one group.
abbrev pub is_zero_address : Option Groups → Bool
is_zero_address none = false
is_zero_address (some g) =
    g.zeros && not (leb 8 g.count && g.ellipsis) && (leb 8 g.count || g.ellipsis)

unfoldable pub is_zero_ipv6 : Text → Bool
is_zero_ipv6 (a ∷ b ∷ s) =
    if eqb a b':' && eqb b b':'
    then is_empty s
      || is_zero_address (groups 8 (record { count = 0; zeros = true; ellipsis = true }) s)
    else is_zero_address
        (groups 8 (record { count = 0; zeros = true; ellipsis = false }) (a ∷ b ∷ s))
is_zero_ipv6 _ = false

abbrev is_zero_parsed : Option Ipv4 → Bool
is_zero_parsed none = false
is_zero_parsed (some v) = is_zero_ipv4 v

-- `address, err := netip.ParseAddr(s); err == nil && address.IsUnspecified()`. A text with a
-- zone, which follows a '%', is no unspecified address.
unfoldable pub is_unspecified : Text → Bool
unfolding groups hex_group is_hex parse_ipv4 is_zero_ipv6
is_unspecified s = is_zero_parsed (parse_ipv4 s) || is_zero_ipv6 s
