-- ===== src/Secrets.antt =====
-- backend/internal/secretfile/reader.go: secrets from files with constrained names.
pub mod Laws
use pelican_mc_router.Prelude.{
  ℕ, suc, Bool, true, false, not, ◌&&◌, ◌||◌, Option, none, some, List, [], ◌∷◌, all, length, ltb,
  leb, eqb, if◌then◌else◌, Result, ok, err,
}
use pelican_mc_router.Text.{Text}

pub data SecretError : Type 0 where
  invalid_name unavailable not_regular insecure_mode too_large : SecretError

-- The part of `os.FileInfo` that is looked at: the kind, the permission bits in groups, and the file
-- that `os.SameFile` compares.
pub record SecretInfo : Type 0 where
  pub symlink : Bool
  pub regular : Bool
  pub owner_readable : Bool
  pub others_any : Bool
  pub file : ℕ

-- `os`, on entries of the secret directory. `read` gives at most the bytes that are asked for.
pub record SecretFiles (W : Type 0) : Type 0 where
  pub lstat : Text → W → Result Text SecretInfo × W
  pub open_file : Text → W → Result Text (Unit {0}) × W
  pub stat_opened : Text → W → Result Text SecretInfo × W
  pub read : ℕ → Text → W → Result Text Text × W
  pub close : Text → W → W

-- 64 KiB
abbrev pub max_secret_size : ℕ
max_secret_size = 65536

unfoldable pub is_word_char : ℕ → Bool
is_word_char c = leb b'A' c && leb c b'Z' || (leb b'a' c && leb c b'z' || leb b'0' c && leb c b'9')

unfoldable pub is_name_char : ℕ → Bool
is_name_char c = is_word_char c || (eqb c b'.' || (eqb c b'_' || eqb c b'-'))

-- `^[A-Za-z0-9][A-Za-z0-9._-]{0,127}$`
unfoldable pub valid_name : Text → Bool
valid_name [] = false
valid_name (c ∷ s) = is_word_char c && (leb (length s) 127 && all is_name_char s)

unfoldable pub is_safe_file : SecretInfo → Bool
is_safe_file info = not info.symlink && info.regular

unfoldable pub has_safe_permissions : SecretInfo → Bool
has_safe_permissions info = info.owner_readable && not info.others_any

module _ {W : Type 0} (files : SecretFiles W) where
  -- What follows `os.Open`; the deferred `Close` runs on every path.
  unfoldable pub read_opened : Text → SecretInfo → W → Result SecretError Text × W
  read_opened name info w =
      let (opened, w1) = files.stat_opened name w in
      elim opened [
        | err e ↦ (err not_regular, files.close name w1)
        | ok now ↦
            if not (is_safe_file now) || not (eqb info.file now.file)
            then (err not_regular, files.close name w1)
            else if not (has_safe_permissions now)
            then (err insecure_mode, files.close name w1)
            else let (value, w2) = files.read (suc max_secret_size) name w1 in
              elim value [
                | err e ↦ (err unavailable, files.close name w2)
                | ok secret ↦ (
                  if ltb max_secret_size (length secret) then err too_large else ok secret,
                  files.close name w2,
                )
              ]
      ]

  unfoldable pub read_secret : Text → W → Result SecretError Text × W
  read_secret name w =
      if not (valid_name name)
      then (err invalid_name, w)
      else let (found, w1) = files.lstat name w in
        elim found [
          | err e ↦ (err unavailable, w1)
          | ok info ↦
              if not (is_safe_file info)
              then (err not_regular, w1)
              else if not (has_safe_permissions info)
              then (err insecure_mode, w1)
              else let (opened, w2) = files.open_file name w1 in
                elim opened [ err e ↦ (err unavailable, w2) | ok _ ↦ read_opened name info w2 ]
        ]
