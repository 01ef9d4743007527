-- ===== src/Text/Decimal.antt =====
-- `strconv.Itoa`, `net.JoinHostPort` and `strconv.ParseInt`.
use pelican_mc_router.Prelude.{
  ℕ, zero, suc, ◌+◌, ◌-◌, ◌*◌, ◌^◌, ◌/◌, ◌%◌, ◌||◌, ◌&&◌, Option, none, some, [], ◌∷◌, ◌++◌, ltb,
  leb, eqb, any, if◌then◌else◌,
}
use pelican_mc_router.Prelude.Int.{ℤ, pos, negsuc}
use pelican_mc_router.Text.{Text, text}

-- The decimal digits of `n` in front of `rest`; `n` rounds are more than its digits.
digits_from : ℕ → ℕ → Text → Text
digits_from zero n rest = rest
digits_from (suc fuel) n rest =
    let out = (b'0' + n % 10) ∷ rest in
    let more = digits_from fuel (n / 10) out in if ltb n 10 then out else more

unfoldable pub itoa : ℤ → Text
unfolding digits_from
itoa (pos n) = digits_from (suc n) n []
itoa (negsuc n) = b'-' ∷ digits_from (suc (suc n)) (suc n) []

-- A host with a colon or a percent sign is an IPv6 literal and takes brackets.
unfoldable pub join_host_port : Text → Text → Text
join_host_port host port =
    if any (λ c. eqb c b':' || eqb c b'%') host
    then text "[" ++ host ++ text "]:" ++ port
    else host ++ text ":" ++ port

digits_value : ℕ → Text → Option ℕ
digits_value n [] = some n
digits_value n (c ∷ s) =
    if leb b'0' c && leb c b'9' then digits_value (n * 10 + (c - b'0')) s else none

abbrev up_to : ℕ → (ℕ → ℤ) → Option ℕ → Option ℤ
up_to bound sign none = none
up_to bound sign (some n) = if leb n bound then some (sign n) else none

abbrev negated : ℕ → ℤ
negated zero = pos zero
negated (suc n) = negsuc n

-- Digits with at most one sign in front, and at least one digit.
unsigned : ℕ → (ℕ → ℤ) → Text → Option ℤ
unfolding digits_value
unsigned bound sign [] = none
unsigned bound sign (c ∷ s) = up_to bound sign (digits_value 0 (c ∷ s))

-- `strconv.ParseInt(s, 10, 64)`, and `strconv.Atoi` on a machine of 64 bits: none for an error.
unfoldable pub parse_int : Text → Option ℤ
unfolding unsigned
parse_int [] = none
parse_int (c ∷ s) =
    if eqb c b'-'
    then unsigned (2 ^ 63) negated s
    else if eqb c b'+'
    then unsigned (2 ^ 63 - 1) pos s
    else unsigned (2 ^ 63 - 1) pos (c ∷ s)
