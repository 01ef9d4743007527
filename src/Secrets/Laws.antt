-- ===== src/Secrets/Laws.antt =====
-- About `Read` of backend/internal/secretfile/reader.go: which secrets it returns.
use pelican_mc_router.Prelude.{
  ℕ, ◌≤◌, ◌≡◌, refl, inl, inr, Bool, true, false, not, [], ◌∷◌, arith, all, length, eqb, ok,
  Result-cases,
}
use pelican_mc_router.Text.{Text, text, has_prefix}
use pelican_mc_router.Secrets.{
  SecretInfo, SecretFiles, max_secret_size, is_word_char, is_name_char, valid_name, is_safe_file,
  has_safe_permissions, read_opened, read_secret,
}

-- A regular file that its owner can read, and nobody else can use.
abbrev pub IsPrivate : SecretInfo → Type 0
IsPrivate info =
    (info.symlink ≡ false)
    × (info.regular ≡ true)
    × (info.owner_readable ≡ true)
    × (info.others_any ≡ false)

abbrev pub is_not_separator : ℕ → Bool
is_not_separator c = not (eqb c b'/')

all-is_not_separator : (s : Text) → all is_name_char s ≡ true → all is_not_separator s ≡ true
unfolding all is_name_char is_word_char
all-is_not_separator [] h = refl
all-is_not_separator (c ∷ s) h = ground (arith, all-is_not_separator s)

-- A name is one entry of a directory: no separator, and neither "." nor "..".
pub valid_name_safe :
    (name : Text)
    → valid_name name ≡ true
    → (all is_not_separator name ≡ true) × (has_prefix name (text ".") ≡ false)
unfolding valid_name all has_prefix is_word_char
valid_name_safe [] h = ground arith
valid_name_safe (c ∷ s) h = (ground (arith, all-is_not_separator s), ground arith)

module _ {W : Type 0} (files : SecretFiles W) (name : Text) (w : W) where
  -- A secret is returned only for a valid name, if the file was private when it was looked up and the
  -- same private file was opened, and if it has at most 64 KiB.
  pub read_secret-IsPrivate :
      (secret : Text)
      → (read_secret files name w).0 ≡ ok secret
      → (valid_name name ≡ true)
        × ((info : SecretInfo) × ((files.lstat name w).0 ≡ ok info)
            × IsPrivate info
            × ((now : SecretInfo) × ((files.stat_opened name
                    (files.open_file name (files.lstat name w).1).1).0
                  ≡ ok now)
                × IsPrivate now
                × (info.file ≡ now.file)))
        × (length secret ≤ max_secret_size)
  unfolding read_secret read_opened is_safe_file has_safe_permissions
  read_secret-IsPrivate secret h =
      let w1 : W = (files.lstat name w).1 in
      let w2 : W = (files.open_file name w1).1 in
      elim (Result-cases (files.lstat name w).0) [
        | inr (e, bad) ↦ absurd (ground arith)
        | inl (info, found) ↦ elim (Result-cases (files.stat_opened name w2).0) [
          | inr (e, bad) ↦ absurd (ground arith)
          | inl (now, opened) ↦ (
            ground arith,
            (info, found, ground arith, (now, opened, ground arith, ground arith)),
            ground arith,
          )
        ]
      ]
