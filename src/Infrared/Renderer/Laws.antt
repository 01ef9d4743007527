-- ===== src/Infrared/Renderer/Laws.antt =====
-- About `proxyFilename` of backend/internal/router/infrared/controller.go.
use mathlib.Core.List.{append_cancel_left, append_cancel_right}
use pelican_mc_router.Prelude.{
  ℕ, ◌≡◌, ◌↔◌, refl, sym, ap, eqb, ◌∙◌, Bool, true, false, ◌||◌, [], ◌∷◌, ◌++◌, arith, any, ok,
  is_empty,
}
use pelican_mc_router.Text.{Text, text, text_eq, Unicode, trim_space, has_prefix, has_suffix}
use pelican_mc_router.Infrared.Renderer.{managed_proxy_prefix, is_path_char, proxy_filename}

any-append : (p : ℕ → Bool) (s t : Text) → any p (s ++ t) ≡ (any p s || any p t)
unfolding any
any-append p [] t = refl
any-append p (c ∷ s) t = ground (arith, any-append p s t)

has_prefix-append : (p s : Text) → has_prefix (p ++ s) p ≡ true
unfolding has_prefix
has_prefix-append [] s = refl
has_prefix-append (c ∷ p) s = ground (arith, has_prefix-append p s)

has_suffix-append : (s t : Text) → is_empty t ≡ false → has_suffix (s ++ t) t ≡ true
unfolding has_suffix
has_suffix-append [] (c ∷ t) h = ground arith
has_suffix-append [] [] h = cc
has_suffix-append (d ∷ s) t h = ground (arith, has_suffix-append s t h)

-- The character `c` stands nowhere in a text.
abbrev pub Lacks : Text → ℕ → Type 0
Lacks s c = any (λ (d : ℕ). eqb d c) s ≡ false

Lacks-path_chars : (s : Text) → any is_path_char s ≡ false → Lacks s b'/' × Lacks s 92 × Lacks s 0
unfolding any is_path_char
Lacks-path_chars [] h = (refl, refl, refl)
Lacks-path_chars (c ∷ s) h =
    let rest = Lacks-path_chars s (ground arith) in
    (ground (arith, rest), ground (arith, rest), ground (arith, rest))

module _ ⦃u : Unicode⦄ where
  pub filename-eq-ok :
      (server_id : Text) {name : Text}
      → proxy_filename server_id ≡ ok name
      → (any is_path_char (trim_space server_id) ≡ false)
        × (name ≡ managed_proxy_prefix ++ trim_space server_id ++ text ".yml")
  unfolding proxy_filename
  filename-eq-ok server_id h = (ground arith, ground arith)

  -- Two servers have the same file name only if their trimmed identifiers are the same.
  pub proxy_filename_injective :
      (a b : Text) {name : Text}
      → proxy_filename a ≡ ok name
      → proxy_filename b ≡ ok name
      → trim_space a ≡ trim_space b
  proxy_filename_injective a b h k =
      append_cancel_right (trim_space a) (trim_space b) (text ".yml") (
        append_cancel_left managed_proxy_prefix (trim_space a ++ text ".yml")
          (trim_space b ++ text ".yml") (sym (filename-eq-ok a h).1 ∙ (filename-eq-ok b k).1))

  -- The names that two servers get have no '/', no backslash and no NUL, so that each is one entry of the
  -- directory; they begin with the managed prefix and end in ".yml"; and they are the same name exactly if
  -- the trimmed identifiers of the servers are the same.
  pub proxy_filename_safe :
      (a b : Text) {n m : Text}
      → proxy_filename a ≡ ok n
      → proxy_filename b ≡ ok m
      → (Lacks n b'/' × Lacks n 92 × Lacks n 0)
        × (has_prefix n managed_proxy_prefix ≡ true)
        × (has_suffix n (text ".yml") ≡ true)
        × ((n ≡ m) ↔ (trim_space a ≡ trim_space b))
  unfolding any is_path_char
  proxy_filename_safe a b {n} {m} h k =
      let (plain, same) = filename-eq-ok a h in
      let (_, other) = filename-eq-ok b k in
      let id : Text = trim_space a in
      let no_path_char : any is_path_char n ≡ false =
        ap (λ (t : Text). any is_path_char t) same
        ∙ (any-append is_path_char managed_proxy_prefix (id ++ text ".yml")
            ∙ (any-append is_path_char id (text ".yml") ∙ rw plain)) in
      (
        Lacks-path_chars n no_path_char,
        rw same (has_prefix-append managed_proxy_prefix (id ++ text ".yml")),
        rw same (has_suffix-append (managed_proxy_prefix ++ id) (text ".yml") refl),
        (
          λ e. proxy_filename_injective a b h (k ∙ ap ok (sym e)),
          λ e. same ∙ ap (λ (t : Text). managed_proxy_prefix ++ t ++ text ".yml") e ∙ sym other,
        ),
      )
