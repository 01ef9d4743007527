-- ===== src/Tests/AccessTests.antt =====
-- Tests and examples for the access to the management plane and the secrets.
use pelican_mc_router.Prelude.{
  ℕ, ◌≡◌, ◌↔◌, ◌≤◌, refl, true, false, List, [], ◌∷◌, ◌==◌, length, all, any, contains, select,
  if◌then◌else◌, Result, ok, err,
}
use pelican_mc_router.Prelude.Int.{pos}
use pelican_mc_router.Text.{Text, text, text_eq, trim_space, has_prefix}
use pelican_mc_router.Access.Limiter.{new_limiter, allow_at, allow}
use pelican_mc_router.Access.Limiter.Spaced.{allowed_times, IsSpaced, allowed_times-IsSpaced}
use pelican_mc_router.Access.Bearer.{
  OidcAuthorizer, AuthError, unauthenticated, oidc_token, after_prefix, authorize,
  authorize_operator, authorize_roles, contains_any, bootstrap_token, authorize_bootstrap, fields,
  split_space,
}
use pelican_mc_router.Access.Bearer.Accepted.{IsVerified, authorize_operator-IsVerified}
use pelican_mc_router.Secrets.{
  SecretInfo, SecretFiles, SecretError, valid_name, is_word_char, is_name_char, is_safe_file,
  has_safe_permissions, read_opened, read_secret,
}
use pelican_mc_router.Secrets.Laws.{IsPrivate, read_secret-IsPrivate}
use pelican_mc_router.Tests.Data.{ascii}

-- An action is its number: 0 is the setup, 1 the settings.
abbrev requests : List (ℕ × ℕ)
requests = (0, 10) ∷ (0, 14) ∷ (1, 14) ∷ (0, 15) ∷ []

limiter_test : allowed_times 0 (new_limiter (pos 5)) requests ≡ 10 ∷ 15 ∷ []
unfolding allowed_times new_limiter allow_at allow
limiter_test = refl

allowed_times-IsSpaced_example : IsSpaced 5 (allowed_times 0 (new_limiter (pos 5)) requests)
allowed_times-IsSpaced_example = allowed_times-IsSpaced 0 4 refl requests

-- The token is the role.
abbrev authorizer : OidcAuthorizer (Unit {0})
authorizer = record {
  verify = λ token w. (
    if token == text "expired"
        then err unauthenticated
        else ok (record { subject = text "u"; roles = token ∷ [] }),
    w,
  );
  required_role = text "viewer";
  operator_role = text "operator";
}

authorization : Unit {0}
unfolding authorize authorize_operator authorize_roles oidc_token after_prefix contains_any contains
    any text_eq trim_space has_prefix
authorization = tt

operator_test : (authorize_operator authorizer (text "Bearer operator") tt).0 ≡ ok tt
unfolding authorization
operator_test = refl

viewer_test : (authorize_operator authorizer (text "Bearer viewer") tt).0 ≡ err AuthError.forbidden
unfolding authorization
viewer_test = refl

authorize_operator-IsVerified_example :
    (((authorize_operator authorizer (text "Bearer operator") tt).0 ≡ ok tt)
      ↔ IsVerified authorizer (text "Bearer operator") tt (text "operator"))
    × ((authorize_operator authorizer (text "Bearer operator") tt).0 ≡ ok tt
        → (authorize authorizer (text "Bearer operator") tt).0 ≡ ok tt)
authorize_operator-IsVerified_example =
    authorize_operator-IsVerified authorizer (text "Bearer operator") tt

abbrev token_file : Unit {0} → Result Text Text × (Unit {0})
token_file w = (ok (text "s3cret "), w)

bootstrap_test : (authorize_bootstrap token_file (text "bearer  s3cret") tt).0 ≡ true
unfolding authorize_bootstrap bootstrap_token fields split_space select text_eq trim_space
bootstrap_test = refl

abbrev private_file : SecretInfo
private_file = record {
  symlink = false;
  regular = true;
  owner_readable = true;
  others_any = false;
  file = 12;
}

abbrev secret_files : SecretFiles (Unit {0})
secret_files = record {
  lstat = λ name w. (ok private_file, w);
  open_file = λ name w. (ok tt, w);
  stat_opened = λ name w. (ok private_file, w);
  read = λ n name w. (ok (text "key"), w);
  close = λ name w. w;
}

read_test : (read_secret secret_files (text "pelican.key") tt).0 ≡ ok (text "key")
unfolding read_secret read_opened valid_name is_word_char is_name_char is_safe_file
    has_safe_permissions all
read_test = refl

read_escape : (read_secret secret_files (text "../key") tt).0 ≡ err SecretError.invalid_name
unfolding read_secret read_opened valid_name is_word_char is_name_char is_safe_file
    has_safe_permissions all
read_escape = refl

read_secret-IsPrivate_example :
    (valid_name (text "pelican.key") ≡ true)
    × ((info : SecretInfo) × ((secret_files.lstat (text "pelican.key") tt).0 ≡ ok info)
        × IsPrivate info
        × ((now : SecretInfo) × ((secret_files.stat_opened (text "pelican.key") tt).0 ≡ ok now)
            × IsPrivate now
            × (info.file ≡ now.file)))
    × (length (text "key") ≤ 65536)
read_secret-IsPrivate_example =
    read_secret-IsPrivate secret_files (text "pelican.key") tt (text "key") read_test
