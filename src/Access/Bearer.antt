-- ===== src/Access/Bearer.antt =====
-- backend/internal/dashboardauth/auth.go and backend/internal/bootstrap/authorizer.go. The verifier of
-- OpenID Connect tokens and the reader of secrets are interfaces of the source; a header or a secret is
-- the text that its bytes encode.
pub mod Accepted
use pelican_mc_router.Prelude.{
  ℕ, zero, suc, Bool, true, false, not, ◌||◌, Option, none, some, List, [], ◌∷◌, map, any, contains,
  select, is_empty, ◌==◌, if◌then◌else◌, Result, ok, err,
}
use pelican_mc_router.Text.{
  Text, text, text_eq, Unicode, ascii_lower, trim_space, has_prefix, push_head,
}

pub data AuthError : Type 0 where
  unauthenticated forbidden : AuthError

pub record Identity : Type 0 where
  pub subject : Text
  pub roles : List Text

-- The verifier's error is forbidden exactly if `errors.Is(err, ErrForbidden)`.
pub record OidcAuthorizer (W : Type 0) : Type 0 where
  pub verify : Text → W → Result AuthError Identity × W
  pub required_role : Text
  pub operator_role : Text

-- `strings.TrimPrefix(s, prefix)` of a prefix that `s` has
unfoldable pub after_prefix : Text → Text → Text
after_prefix s [] = s
after_prefix [] (p ∷ prefix) = []
after_prefix (c ∷ s) (p ∷ prefix) = after_prefix s prefix

unfoldable pub contains_any : List Text → List Text → Bool
contains_any values targets = any (contains values) targets

-- `strings.Fields`
unfoldable pub split_space : ⦃u : Unicode⦄ → Text → List Text
split_space [] = [] ∷ []
split_space ⦃u⦄ (c ∷ s) =
    let rest = split_space s in if u.space c then [] ∷ rest else push_head c rest

unfoldable pub fields : ⦃u : Unicode⦄ → Text → List Text
fields s = select (λ (part : Text). not (is_empty part)) (split_space s)

-- `strings.EqualFold(s, "Bearer")`: no other character folds to one of these letters.
abbrev pub is_bearer : Text → Bool
is_bearer s = map ascii_lower s == text "bearer"

abbrev pub when_two : List Text → Option Text
when_two [] = none
when_two (scheme ∷ []) = none
when_two (scheme ∷ token ∷ []) =
    if not (is_bearer scheme) || is_empty token then none else some token
when_two (scheme ∷ token ∷ more ∷ parts) = none

module _ ⦃u : Unicode⦄ where
  -- `bearerToken` of the dashboard
  unfoldable pub oidc_token : Text → Option Text
  oidc_token value =
      if not (has_prefix value (text "Bearer "))
      then none
      else let token = trim_space (after_prefix value (text "Bearer ")) in
        if is_empty token then none else some token

  -- The error that `authorize` gives for one of the verifier.
  abbrev pub verify_error : AuthError → AuthError
  verify_error forbidden = forbidden
  verify_error unauthenticated = unauthenticated

  unfoldable pub authorize_roles :
      {W : Type 0} → OidcAuthorizer W → List Text → Text → W → Result AuthError (Unit {0}) × W
  authorize_roles a roles header w = elim (oidc_token header) [
    | none ↦ (err unauthenticated, w)
    | some token ↦
        let (verified, w1) = a.verify token w in
        elim verified [
          | err e ↦ (err (verify_error e), w1)
          | ok identity ↦ (
            if is_empty (trim_space identity.subject)
                then err unauthenticated
                else if not (contains_any identity.roles roles)
                then err forbidden
                else ok tt,
            w1,
          )
        ]
  ]

  unfoldable pub authorize :
      {W : Type 0} → OidcAuthorizer W → Text → W → Result AuthError (Unit {0}) × W
  unfolding authorize_roles
  authorize a header w = authorize_roles a (a.required_role ∷ a.operator_role ∷ []) header w

  unfoldable pub authorize_operator :
      {W : Type 0} → OidcAuthorizer W → Text → W → Result AuthError (Unit {0}) × W
  unfolding authorize_roles
  authorize_operator a header w = authorize_roles a (a.operator_role ∷ []) header w

  -- `bearerToken` of the bootstrap authorizer
  unfoldable pub bootstrap_token : Text → Option Text
  bootstrap_token value = when_two (fields value)

  -- `Authorize` of the bootstrap authorizer, which reads the secret of its name.
  unfoldable pub authorize_bootstrap :
      {W : Type 0} → (W → Result Text Text × W) → Text → W → Bool × W
  authorize_bootstrap read header w = elim (bootstrap_token header) [
    | none ↦ (false, w)
    | some provided ↦
        let (secret, w1) = read w in
        elim secret [
          | err e ↦ (false, w1)
          | ok content ↦
              let expected = trim_space content in
              (not (is_empty expected || not (expected == provided)), w1)
        ]
  ]
