-- ===== src/Infrared/Marker.antt =====
-- backend/internal/router/infrared/marker_reloader.go. `stamp` is `now().UTC().Format(time.RFC3339Nano)`;
-- a path is a directory and a name in it, as `filepath.Dir` takes it apart.
use pelican_mc_router.Prelude.{
  ℕ, ◌≡◌, ◌≢◌, ◌∙◌, arith, inl, inr, Option, some, [], ◌∷◌, ◌++◌, Result, ok, err, Result-cases,
}
use pelican_mc_router.Text.{Text}
use pelican_mc_router.Infrared.Files.{FileSystem, write_file_atomic}
use pelican_mc_router.Infrared.Files.Atomic.{IsDisk, path, write_file_atomic-Atomic}

pub data ReloadError : Type 0 where
  context_done create_directory write_marker : Text → ReloadError

-- `0o644`
abbrev pub marker_permissions : ℕ
marker_permissions = 420

unfoldable pub reload :
    {W F : Type 0}
    → FileSystem W F
    → (W → Text)
    → Text
    → Text
    → W
    → Result ReloadError (Unit {0}) × W
reload fs stamp directory name w =
    let (live, w1) = fs.context_err w in
    elim live [
      | err e ↦ (err (context_done e), w1)
      | ok _ ↦
          let (made, w2) = fs.mkdir_all directory w1 in
          elim made [
            | err e ↦ (err (create_directory e), w2)
            | ok _ ↦
                let (still, w3) = fs.context_err w2 in
                elim still [
                  | err e ↦ (err (context_done e), w3)
                  | ok _ ↦
                      let contents = stamp w3 ++ 10 ∷ [] in
                      let (written, w4) =
                        write_file_atomic fs directory name contents marker_permissions w3 in
                      (elim written [ err e ↦ err (write_marker e) | ok _ ↦ ok tt ], w4)
                ]
          ]
    ]

module _ {W F : Type 0} (fs : FileSystem W F) (file : W → Text → Text → Option Text)
    (draft : W → F → Text) (disk : IsDisk fs file draft)
    (context_keeps : (w : W) (d n : Text) → file (fs.context_err w).1 d n ≡ file w d n)
    (mkdir_keeps : (at_directory : Text) (w : W) (d n : Text)
      → file (fs.mkdir_all at_directory w).1 d n ≡ file w d n) where
  -- A reload that succeeds leaves the marker with a time and a line feed; one that fails leaves every file
  -- as it was; and a file that is not the marker is never touched.
  pub reload-Atomic :
      (stamp : W → Text) (directory name : Text) (w : W)
      → ((reload fs stamp directory name w).0 ≡ ok tt
          → (v : W) × (file (reload fs stamp directory name w).1 directory name
              ≡ some (stamp v ++ 10 ∷ [])))
        × ((e : ReloadError)
            → (reload fs stamp directory name w).0 ≡ err e
            → (d n : Text) → file (reload fs stamp directory name w).1 d n ≡ file w d n)
        × ((d n : Text)
            → path d n ≢ path directory name
            → file (reload fs stamp directory name w).1 d n ≡ file w d n)
  unfolding reload
  reload-Atomic stamp directory name w =
      let w1 : W = (fs.context_err w).1 in
      let w2 : W = (fs.mkdir_all directory w1).1 in
      let w3 : W = (fs.context_err w2).1 in
      let contents : Text = stamp w3 ++ 10 ∷ [] in
      let before : (d n : Text) → file w3 d n ≡ file w d n =
        λ d n. context_keeps w2 d n ∙ mkdir_keeps directory w1 d n ∙ context_keeps w d n in
      elim (Result-cases (fs.context_err w).0) [
        | inr (e, dead) ↦
            rw (dead, reload)
              (
                λ fine. absurd (ground arith),
                λ f h d n. context_keeps w d n,
                λ d n other. context_keeps w d n,
              )
        | inl (_, live) ↦ elim (Result-cases (fs.mkdir_all directory w1).0) [
          | inr (e, bad) ↦
              let so_far : (d n : Text) → file w2 d n ≡ file w d n =
                λ d n. mkdir_keeps directory w1 d n ∙ context_keeps w d n in
              rw (live, bad, reload)
                (λ fine. absurd (ground arith), λ f h d n. so_far d n, λ d n other. so_far d n)
          | inl (_, made) ↦ elim (Result-cases (fs.context_err w2).0) [
            | inr (e, dead) ↦
                rw (live, made, dead, reload)
                  (λ fine. absurd (ground arith), λ f h d n. before d n, λ d n other. before d n)
            | inl (_, still) ↦
                let (replaces, undone, others) =
                  write_file_atomic-Atomic fs file draft disk directory name contents
                    marker_permissions w3 in
                elim (Result-cases
                  (write_file_atomic fs directory name contents marker_permissions w3).0) [
                    | inr (e, bad) ↦
                        rw (live, made, still, bad, reload)
                          (
                            λ fine. absurd (ground arith),
                            λ f h d n. undone e bad d n ∙ before d n,
                            λ d n other. others d n other ∙ before d n,
                          )
                    | inl (_, written) ↦
                        rw (live, made, still, written, reload)
                          (
                            λ fine. (w3, replaces written),
                            λ f h. absurd (ground arith),
                            λ d n other. others d n other ∙ before d n,
                          )
                  ]
          ]
        ]
      ]
