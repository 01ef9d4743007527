-- ===== src/Infrared/Files.antt =====
-- What the Infrared adapter asks of the operating system: `os`, and the context. A path is a
-- directory and the name of an entry; `F` is an open temporary file.
pub mod Atomic
use pelican_mc_router.Prelude.{ℕ, Bool, List, [], ◌∷◌, Result, ok, err}
use pelican_mc_router.Text.{Text}

pub data StatError : Type 0 where
  not_exist : StatError
  other : Text → StatError

pub record FileInfo : Type 0 where
  pub regular : Bool
  pub permissions : ℕ

pub record Entry : Type 0 where
  pub name : Text
  pub is_directory : Bool

abbrev pub Action : Type 0 → Type 0
Action W = W → Result Text (Unit {0}) × W

pub record FileSystem (W F : Type 0) : Type 0 where
  pub context_err : Action W
  pub mkdir_all : Text → Action W
  pub lstat : Text → Text → W → Result StatError FileInfo × W
  pub read_file : Text → Text → W → Result Text Text × W
  pub read_directory : Text → W → Result Text (List Entry) × W
  pub remove : Text → Text → Action W
  pub create_temp : Text → Text → W → Result Text F × W
  pub chmod : F → ℕ → Action W
  pub write : F → Text → Action W
  pub sync : F → Action W
  pub close : F → Action W
  pub rename : F → Text → Text → Action W
  pub remove_temp : F → Action W

-- Actions in turn, up to the first that fails.
unfoldable pub in_turn : {W : Type 0} → List (Action W) → Action W
in_turn [] w = (ok tt, w)
in_turn (a ∷ actions) w =
    let (done, w1) = a w in elim done [ err e ↦ (err e, w1) | ok _ ↦ in_turn actions w1 ]

-- `writeFileAtomic` of backend/internal/router/infrared/controller.go. The deferred `Close` and
-- `Remove` run on every path once the file is created, and their errors are dropped.
unfoldable pub write_file_atomic :
    {W F : Type 0} → FileSystem W F → Text → Text → Text → ℕ → Action W
write_file_atomic fs directory name contents permissions w =
    let (created, w1) = fs.create_temp directory name w in
    elim created [
      | err e ↦ (err e, w1)
      | ok file ↦
          let (done, w2) =
            in_turn
              (fs.chmod file permissions
                ∷ fs.write file contents
                ∷ fs.sync file
                ∷ fs.close file
                ∷ fs.rename file directory name
                ∷ [])
              w1 in
          let (_, w3) = fs.close file w2 in let (_, w4) = fs.remove_temp file w3 in (done, w4)
    ]
