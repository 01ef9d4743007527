-- ===== src/Infrared/Files/Atomic.antt =====
-- About `writeFileAtomic` of backend/internal/router/infrared/controller.go, on a disk with laws.
use pelican_mc_router.Prelude.{
  ℕ, ◌≡◌, ◌≢◌, ap, ◌∙◌, inl, inr, Option, some, List, [], ◌∷◌, ◌++◌, arith, Result, ok, err,
  Result-cases,
}
use pelican_mc_router.Text.{Text}
use pelican_mc_router.Infrared.Files.{FileSystem, Action, in_turn, write_file_atomic}

abbrev pub path : Text → Text → Text × Text
path d n = (d, n)

-- The contents of files by directory and name, less the temporary files, and what an open temporary
-- file holds; how the operating system's operations change them.
pub record IsDisk {W F : Type 0} (fs : FileSystem W F) (file : W → Text → Text → Option Text)
    (draft : W → F → Text) : Type 0 where
  pub create_keeps :
      (at_directory name : Text) (w : W) (d n : Text)
      → file (fs.create_temp at_directory name w).1 d n ≡ file w d n
  pub create_empty :
      (at_directory name : Text) (w : W) (f : F)
      → (fs.create_temp at_directory name w).0 ≡ ok f
      → draft (fs.create_temp at_directory name w).1 f ≡ []
  pub chmod_keeps : (f : F) (m : ℕ) (w : W) (d n : Text) → file (fs.chmod f m w).1 d n ≡ file w d n
  pub chmod_drafts : (f : F) (m : ℕ) (w : W) → draft (fs.chmod f m w).1 f ≡ draft w f
  pub write_keeps :
      (f : F) (s : Text) (w : W) (d n : Text) → file (fs.write f s w).1 d n ≡ file w d n
  pub write_drafts :
      (f : F) (s : Text) (w : W)
      → (fs.write f s w).0 ≡ ok tt
      → draft (fs.write f s w).1 f ≡ draft w f ++ s
  pub sync_keeps : (f : F) (w : W) (d n : Text) → file (fs.sync f w).1 d n ≡ file w d n
  pub sync_drafts : (f : F) (w : W) → draft (fs.sync f w).1 f ≡ draft w f
  pub close_keeps : (f : F) (w : W) (d n : Text) → file (fs.close f w).1 d n ≡ file w d n
  pub close_drafts : (f : F) (w : W) → draft (fs.close f w).1 f ≡ draft w f
  pub rename_moves :
      (f : F) (d n : Text) (w : W)
      → (fs.rename f d n w).0 ≡ ok tt
      → file (fs.rename f d n w).1 d n ≡ some (draft w f)
  pub rename_fails :
      (f : F) (d n : Text) (w : W) (e : Text)
      → (fs.rename f d n w).0 ≡ err e
      → (d' n' : Text) → file (fs.rename f d n w).1 d' n' ≡ file w d' n'
  pub rename_keeps :
      (f : F) (d n : Text) (w : W) (d' n' : Text)
      → path d' n' ≢ path d n
      → file (fs.rename f d n w).1 d' n' ≡ file w d' n'
  pub remove_temp_keeps :
      (f : F) (w : W) (d n : Text) → file (fs.remove_temp f w).1 d n ≡ file w d n

module _ {W F : Type 0} (fs : FileSystem W F) (file : W → Text → Text → Option Text)
    (draft : W → F → Text) (disk : IsDisk fs file draft) (directory name contents : Text)
    (permissions : ℕ) where
  -- A write from `w` on that ended so: the file is replaced, or as it was; any other is as it was.
  abbrev pub Atomic : W → Result Text (Unit {0}) × W → Type 0
  Atomic w out =
      (out.0 ≡ ok tt → file out.1 directory name ≡ some contents)
      × ((e : Text) → out.0 ≡ err e → (d n : Text) → file out.1 d n ≡ file w d n)
      × ((d n : Text) → path d n ≢ path directory name → file out.1 d n ≡ file w d n)

  -- The steps on the open file.
  abbrev steps : F → List (Action W)
  steps f =
      fs.chmod f permissions
      ∷ fs.write f contents
      ∷ fs.sync f
      ∷ fs.close f
      ∷ fs.rename f directory name
      ∷ []

  -- A failure before the file is renamed.
  stopped : (w w' : W) (e : Text) → ((d n : Text) → file w' d n ≡ file w d n) → Atomic w (err e, w')
  stopped w w' e same = (λ fine. cc, λ e' failed d n. same d n, λ d n other. same d n)

  renamed :
      (f : F) (w v : W)
      → draft v f ≡ contents
      → ((d n : Text) → file v d n ≡ file w d n)
      → Atomic w (in_turn (fs.rename f directory name ∷ []) v)
  unfolding in_turn
  renamed f w v drafted same = elim (Result-cases (fs.rename f directory name v).0) [
    | inl (_, moved) ↦
        rw (moved, in_turn)
          (
            λ fine. disk.rename_moves f directory name v moved ∙ ap some drafted,
            λ e failed d n. absurd (ground arith),
            λ d n other. disk.rename_keeps f directory name v d n other ∙ same d n,
          )
    | inr (e, bad) ↦
        rw (bad, in_turn)
          (stopped w (fs.rename f directory name v).1 e
            (λ d n. disk.rename_fails f directory name v e bad d n ∙ same d n))
  ]

  stepped : (f : F) (w : W) → draft w f ≡ [] → Atomic w (in_turn (steps f) w)
  unfolding in_turn
  stepped f w empty =
      let w1 : W = (fs.chmod f permissions w).1 in
      let w2 : W = (fs.write f contents w1).1 in
      let w3 : W = (fs.sync f w2).1 in
      let w4 : W = (fs.close f w3).1 in
      let keeps1 : (d n : Text) → file w1 d n ≡ file w d n =
        λ d n. disk.chmod_keeps f permissions w d n in
      let keeps2 : (d n : Text) → file w2 d n ≡ file w d n =
        λ d n. disk.write_keeps f contents w1 d n ∙ keeps1 d n in
      let keeps3 : (d n : Text) → file w3 d n ≡ file w d n =
        λ d n. disk.sync_keeps f w2 d n ∙ keeps2 d n in
      let keeps4 : (d n : Text) → file w4 d n ≡ file w d n =
        λ d n. disk.close_keeps f w3 d n ∙ keeps3 d n in
      elim (Result-cases (fs.chmod f permissions w).0) [
        | inr (e, bad) ↦ rw (bad, in_turn) (stopped w w1 e keeps1)
        | inl (_, set) ↦ elim (Result-cases (fs.write f contents w1).0) [
          | inr (e, bad) ↦ rw (set, bad, in_turn) (stopped w w2 e keeps2)
          | inl (_, wrote) ↦ elim (Result-cases (fs.sync f w2).0) [
            | inr (e, bad) ↦ rw (set, wrote, bad, in_turn) (stopped w w3 e keeps3)
            | inl (_, synced) ↦ elim (Result-cases (fs.close f w3).0) [
              | inr (e, bad) ↦ rw (set, wrote, synced, bad, in_turn) (stopped w w4 e keeps4)
              | inl (_, closed) ↦
                  let drafted : draft w4 f ≡ contents = ground (
                    arith,
                    disk.chmod_drafts f permissions w,
                    disk.write_drafts f contents w1 wrote,
                    disk.sync_drafts f w2,
                    disk.close_drafts f w3,
                  ) in
                  rw (set, wrote, synced, closed, in_turn) (renamed f w w4 drafted keeps4)
            ]
          ]
        ]
      ]

  -- Whatever fails and wherever, an atomic write leaves every other file as it was; the file itself
  -- holds exactly the contents if the write succeeds, and is as it was if the write fails.
  pub write_file_atomic-Atomic :
      (w : W) → Atomic w (write_file_atomic fs directory name contents permissions w)
  unfolding write_file_atomic
  write_file_atomic-Atomic w =
      let w1 : W = (fs.create_temp directory name w).1 in
      let created : (d n : Text) → file w1 d n ≡ file w d n = disk.create_keeps directory name w in
      elim (Result-cases (fs.create_temp directory name w).0) [
        | inr (e, bad) ↦ rw (bad, write_file_atomic) (stopped w w1 e created)
        | inl (f, opened) ↦
            let w2 : W = (in_turn (steps f) w1).1 in
            let w3 : W = (fs.close f w2).1 in
            let w4 : W = (fs.remove_temp f w3).1 in
            let cleaned : (d n : Text) → file w4 d n ≡ file w2 d n =
              λ d n. disk.remove_temp_keeps f w3 d n ∙ disk.close_keeps f w2 d n in
            let (replaced, left, others) =
              stepped f w1 (disk.create_empty directory name w f opened) in
            rw (opened, write_file_atomic)
              (
                λ fine. cleaned directory name ∙ replaced fine,
                λ e failed d n. cleaned d n ∙ (left e failed d n ∙ created d n),
                λ d n other. cleaned d n ∙ (others d n other ∙ created d n),
              )
      ]
