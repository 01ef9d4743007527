-- ===== src/Text/Paths.antt =====
-- `path.Join` and `path.Clean` of Go's standard library, on paths of '/'.
use mathlib.Core.List.{append_assoc}
use pelican_mc_router.Prelude.{
  ℕ, ◌≡◌, refl, sym, ap, ◌∙◌, Bool, true, false, ◌||◌, List, [], ◌∷◌, ◌++◌, arith, any, eqb,
  is_empty, ◌==◌, if◌then◌else◌,
}
use pelican_mc_router.Text.{Text, text, text_eq, split, push_head}

-- ".." after the elements so far, the latest first.
unfoldable pub go_back : Bool → List Text → List Text
go_back rooted [] = if rooted then [] else text ".." ∷ []
go_back rooted (top ∷ stack) = if top == text ".." then text ".." ∷ top ∷ stack else stack

unfoldable pub resolve : Bool → List Text → Text → List Text
unfolding go_back
resolve rooted stack part =
    if is_empty part || part == text "."
    then stack
    else if part == text ".."
    then go_back rooted stack
    else part ∷ stack

-- The elements of the cleaned path, the latest first.
unfoldable pub resolve_all : Bool → List Text → List Text → List Text
unfolding resolve
resolve_all rooted stack [] = stack
resolve_all rooted stack (part ∷ parts) = resolve_all rooted (resolve rooted stack part) parts

-- `strings.Join(parts, "/")`, of elements that stand with the latest first.
unfoldable pub write_back : List Text → Text
write_back [] = []
write_back (part ∷ []) = part
write_back (part ∷ before ∷ parts) = write_back (before ∷ parts) ++ b'/' ∷ part

abbrev pub is_rooted : Text → Bool
is_rooted [] = false
is_rooted (c ∷ s) = eqb c b'/'

unfoldable pub write_path : Bool → List Text → Text
unfolding write_back
write_path true stack = b'/' ∷ write_back stack
write_path false [] = text "."
write_path false (part ∷ stack) = write_back (part ∷ stack)

unfoldable pub clean : Text → Text
unfolding resolve_all write_path split
clean path = write_path (is_rooted path) (resolve_all (is_rooted path) [] (split b'/' path))

-- The elements that are not empty, with '/' between them.
unfoldable pub with_slashes : List Text → Text
with_slashes [] = []
with_slashes (part ∷ parts) =
    let rest = with_slashes parts in
    if is_empty part then rest else if is_empty rest then part else part ++ b'/' ∷ rest

unfoldable pub join_path : List Text → Text
unfolding with_slashes clean
join_path parts = let path = with_slashes parts in if is_empty path then [] else clean path

-- A name that is one element of a path and not changed by cleaning.
pub record IsPlain (name : Text) : Type 0 where
  pub some_name : is_empty name ≡ false
  pub no_slash : any (λ (c : ℕ). eqb c b'/') name ≡ false
  pub no_dot : (name == text ".") ≡ false
  pub no_dots : (name == text "..") ≡ false

split-plain : (s : Text) → any (λ (c : ℕ). eqb c b'/') s ≡ false → split b'/' s ≡ s ∷ []
unfolding split any
split-plain [] h = refl
split-plain (c ∷ s) h = ground (arith, split-plain s (ground arith))

push_head-append :
    (c : ℕ) (parts more : List Text)
    → is_empty parts ≡ false
    → push_head c (parts ++ more) ≡ push_head c parts ++ more
push_head-append c [] more h = absurd (ground arith)
push_head-append c (part ∷ parts) more h = refl

is_empty-push_head : (c : ℕ) (parts : List Text) → is_empty (push_head c parts) ≡ false
is_empty-push_head c [] = refl
is_empty-push_head c (part ∷ parts) = refl

is_empty-split : (s : Text) → is_empty (split b'/' s) ≡ false
unfolding split
is_empty-split [] = refl
is_empty-split (c ∷ s) = ground (arith, is_empty-push_head c (split b'/' s))

split-append : (s t : Text) → split b'/' (s ++ b'/' ∷ t) ≡ split b'/' s ++ split b'/' t
unfolding split
split-append [] t = ground arith
split-append (c ∷ s) t =
    ground
      (arith, split-append s t, push_head-append c (split b'/' s) (split b'/' t) (is_empty-split s))

resolve_all-append :
    (rooted : Bool) (stack parts more : List Text)
    → resolve_all rooted stack (parts ++ more)
      ≡ resolve_all rooted (resolve_all rooted stack parts) more
unfolding resolve_all
resolve_all-append rooted stack [] more = refl
resolve_all-append rooted stack (part ∷ parts) more =
    resolve_all-append rooted (resolve rooted stack part) parts more

resolve-plain :
    (rooted : Bool) (stack : List Text) (name : Text)
    → IsPlain name
    → resolve rooted stack name ≡ name ∷ stack
unfolding resolve
resolve-plain rooted stack name plain = ground (arith, plain.some_name, plain.no_dot, plain.no_dots)

is_rooted-append : (p s : Text) → is_empty p ≡ false → is_rooted (p ++ s) ≡ is_rooted p
is_rooted-append [] s h = absurd (ground arith)
is_rooted-append (c ∷ p) s h = refl

resolve_all-one :
    (rooted : Bool) (stack : List Text) (part : Text)
    → resolve_all rooted stack (part ∷ []) ≡ resolve rooted stack part
unfolding resolve_all
resolve_all-one rooted stack part = refl

resolved-append :
    (rooted : Bool) (p name : Text)
    → IsPlain name
    → resolve_all rooted [] (split b'/' (p ++ b'/' ∷ name))
      ≡ name ∷ resolve_all rooted [] (split b'/' p)
unfolding resolve_all
resolved-append rooted p name plain =
    ap (resolve_all rooted []) (split-append p name)
    ∙ ap (λ (parts : List Text). resolve_all rooted [] (split b'/' p ++ parts))
        (split-plain name plain.no_slash)
    ∙ resolve_all-append rooted [] (split b'/' p) (name ∷ [])
    ∙ resolve-plain rooted (resolve_all rooted [] (split b'/' p)) name plain

write_path-plain :
    (rooted : Bool) (name top : Text) (stack : List Text)
    → write_path rooted (name ∷ top ∷ stack) ≡ write_path rooted (top ∷ stack) ++ b'/' ∷ name
unfolding write_path
write_path-plain true name top stack = refl
write_path-plain false name top stack = refl

routes-IsPlain : IsPlain (text "routes")
unfolding any text_eq
routes-IsPlain = record { some_name = refl; no_slash = refl; no_dot = refl; no_dots = refl }

-- A path that ends in a plain element, and another plain element after it.
clean-plain :
    (p top name : Text) (stack : List Text)
    → is_empty p ≡ false
    → IsPlain name
    → resolve_all (is_rooted p) [] (split b'/' p) ≡ top ∷ stack
    → clean (p ++ b'/' ∷ name) ≡ clean p ++ b'/' ∷ name
unfolding clean
clean-plain p top name stack some_path plain ends =
    let r : Bool = is_rooted p in
    let same : is_rooted (p ++ b'/' ∷ name) ≡ r = is_rooted-append p (b'/' ∷ name) some_path in
    ap (λ (b : Bool). write_path b (resolve_all b [] (split b'/' (p ++ b'/' ∷ name)))) same
    ∙ ap (write_path r) (resolved-append r p name plain ∙ ap (λ (l : List Text). name ∷ l) ends)
    ∙ write_path-plain r name top stack
    ∙ ap (λ (l : List Text). write_path r l ++ b'/' ∷ name) (sym ends)

is_empty-append_cons : (p s : Text) (c : ℕ) → is_empty (p ++ c ∷ s) ≡ false
is_empty-append_cons [] s c = refl
is_empty-append_cons (d ∷ p) s c = refl

join_path-clean :
    (parts : List Text) (p : Text)
    → with_slashes parts ≡ p
    → is_empty p ≡ false
    → join_path parts ≡ clean p
unfolding join_path
join_path-clean parts p e h = rw e (rw h)

with_slashes-plain :
    (base name : Text)
    → is_empty base ≡ false
    → is_empty name ≡ false
    → with_slashes (base ∷ text "routes" ∷ name ∷ [])
      ≡ (base ++ b'/' ∷ text "routes") ++ b'/' ∷ name
unfolding with_slashes
with_slashes-plain base name h k =
    let rest : with_slashes (text "routes" ∷ name ∷ []) ≡ text "routes" ++ b'/' ∷ name =
      ground arith in
    let whole : with_slashes (base ∷ text "routes" ∷ name ∷ [])
        ≡ base ++ b'/' ∷ (text "routes" ++ b'/' ∷ name) =
      ground (arith, rest) in
    whole ∙ sym (append_assoc base (b'/' ∷ text "routes") (b'/' ∷ name))

-- A plain name joined to a directory below any path stands behind that directory.
pub join_path-plain :
    (base name : Text)
    → IsPlain name
    → join_path (base ∷ text "routes" ∷ name ∷ [])
      ≡ join_path (base ∷ text "routes" ∷ []) ++ b'/' ∷ name
unfolding with_slashes
join_path-plain [] name plain =
    let path : with_slashes ([] ∷ text "routes" ∷ name ∷ []) ≡ text "routes" ++ b'/' ∷ name =
      ground (arith, plain.some_name) in
    let ends = resolve-plain false [] (text "routes") routes-IsPlain in
    join_path-clean ([] ∷ text "routes" ∷ name ∷ []) (text "routes" ++ b'/' ∷ name) path refl
    ∙ clean-plain (text "routes") (text "routes") name [] refl plain (
        ap (resolve_all false []) (split-plain (text "routes") routes-IsPlain.no_slash)
        ∙ resolve_all-one false [] (text "routes")
        ∙ ends)
    ∙ ap (λ (t : Text). t ++ b'/' ∷ name)
        (sym (join_path-clean ([] ∷ text "routes" ∷ []) (text "routes") refl refl))
join_path-plain (c ∷ base) name plain =
    let directory : Text = (c ∷ base) ++ b'/' ∷ text "routes" in
    join_path-clean ((c ∷ base) ∷ text "routes" ∷ name ∷ []) (directory ++ b'/' ∷ name)
      (with_slashes-plain (c ∷ base) name refl plain.some_name) refl
    ∙ clean-plain directory (text "routes") name
        (resolve_all (is_rooted directory) [] (split b'/' (c ∷ base))) refl plain
        (resolved-append (is_rooted directory) (c ∷ base) (text "routes") routes-IsPlain)
    ∙ ap (λ (t : Text). t ++ b'/' ∷ name)
        (sym (join_path-clean ((c ∷ base) ∷ text "routes" ∷ []) directory refl refl))
