-- ===== src/Access/Bearer/Accepted.antt =====
-- About backend/internal/dashboardauth/auth.go and backend/internal/bootstrap/authorizer.go: which
-- requests are accepted.
use pelican_mc_router.Prelude.{
  ◌≡◌, ◌≢◌, ◌↔◌, inl, inr, true, false, some, [], arith, is_empty, contains, any, Result, ok,
  Result-cases, Option-cases,
}
use pelican_mc_router.Text.{Text, Unicode, trim_space, text_eq}
use pelican_mc_router.Access.Bearer.{
  Identity, OidcAuthorizer, contains_any, oidc_token, authorize_roles, authorize,
  authorize_operator, bootstrap_token, authorize_bootstrap,
}

module _ ⦃u : Unicode⦄ {W : Type 0} where
  -- A token of the header that the verifier accepts, for a subject that is not blank and that has the role.
  abbrev pub IsVerified : OidcAuthorizer W → Text → W → Text → Type 0
  IsVerified a header w role =
      (token : Text) × (identity : Identity) × (oidc_token header ≡ some token)
      × ((a.verify token w).0 ≡ ok identity)
      × (is_empty (trim_space identity.subject) ≡ false)
      × (contains identity.roles role ≡ true)

  -- An operator is a verified subject with the operator's role, and nobody else is; and whoever is an
  -- operator is also a viewer.
  pub authorize_operator-IsVerified :
      (a : OidcAuthorizer W) (header : Text) (w : W)
      → (((authorize_operator a header w).0 ≡ ok tt) ↔ IsVerified a header w a.operator_role)
        × ((authorize_operator a header w).0 ≡ ok tt → (authorize a header w).0 ≡ ok tt)
  unfolding authorize_operator authorize authorize_roles contains_any any
  authorize_operator-IsVerified a header w = elim (Option-cases (oidc_token header)) [
    | inl missing ↦ ((ground arith, ground arith), ground arith)
    | inr (token, given) ↦ elim (Result-cases (a.verify token w).0) [
      | inr (e, bad) ↦ ((ground arith, ground arith), ground arith)
      | inl (identity, good) ↦ (
        (λ h. (token, identity, given, good, ground arith, ground arith), ground arith),
        ground arith,
      )
    ]
  ]

  -- The bootstrap request is accepted exactly when the secret can be read and is not blank, and the
  -- request's token is the secret without the white space around it.
  pub authorize_bootstrap_iff :
      (read : W → Result Text Text × W) (header : Text) (w : W)
      → ((authorize_bootstrap read header w).0 ≡ true) ↔ (
          (content : Text) × ((read w).0 ≡ ok content)
          × (trim_space content ≢ [])
          × (bootstrap_token header ≡ some (trim_space content)))
  unfolding authorize_bootstrap
  authorize_bootstrap_iff read header w = elim (Option-cases (bootstrap_token header)) [
    | inl missing ↦ (ground arith, ground arith)
    | inr (provided, given) ↦ elim (Result-cases (read w).0) [
      | inr (e, bad) ↦ (ground arith, ground arith)
      | inl (content, good) ↦ (λ h. (content, good, ground arith, ground arith), ground arith)
    ]
  ]
