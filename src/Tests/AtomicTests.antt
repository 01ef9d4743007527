-- ===== src/Tests/AtomicTests.antt =====
-- An example for the atomic write: a disk that is a function, with one temporary file.
use pelican_mc_router.Prelude.{
  ◌≡◌, ◌≢◌, refl, inl, inr, ◌&&◌, Option, none, some, [], ◌++◌, arith, ==-self, ◌==◌, if◌then◌else◌,
  Bool-cases, ok, err,
}
use pelican_mc_router.Text.{Text, text, text_eq}
use pelican_mc_router.Infrared.Files.{FileSystem, not_exist, in_turn, write_file_atomic}
use pelican_mc_router.Infrared.Files.Atomic.{path, IsDisk, Atomic, write_file_atomic-Atomic}

record Disk : Type 0 where
  file : Text → Text → Option Text
  temp : Text

abbrev replaced : Text → Text → Disk → Disk
replaced d n w = record w {
  file = λ d' n'. if d' == d && n' == n then some w.temp else w.file d' n';
}

abbrev disk : FileSystem Disk (Unit {0})
disk = record {
  context_err = λ w. (ok tt, w);
  mkdir_all = λ d w. (ok tt, w);
  lstat = λ d name w. (err not_exist, w);
  read_file = λ d name w. (err [], w);
  read_directory = λ d w. (ok [], w);
  remove = λ d name w. (ok tt, w);
  create_temp = λ d name w. (ok tt, record w { temp = [] });
  chmod = λ f mode w. (ok tt, w);
  write = λ f contents w. (ok tt, record w { temp = w.temp ++ contents });
  sync = λ f w. (ok tt, w);
  close = λ f w. (ok tt, w);
  rename = λ f d name w. (ok tt, replaced d name w);
  remove_temp = λ f w. (ok tt, w);
}

abbrev file_of : Disk → Text → Text → Option Text
file_of w d n = w.file d n

abbrev draft_of : Disk → Unit {0} → Text
draft_of w f = w.temp

replaced-at : (d n : Text) (w : Disk) → file_of (replaced d n w) d n ≡ some w.temp
replaced-at d n w = ground (arith, ==-self d, ==-self n)

replaced-other :
    (d n : Text) (w : Disk) (d' n' : Text)
    → path d' n' ≢ path d n
    → file_of (replaced d n w) d' n' ≡ file_of w d' n'
replaced-other d n w d' n' other = elim (Bool-cases (d' == d && n' == n)) [
  | inr differs ↦ ground arith
  | inl same ↦ absurd (ground arith)
]

disk-IsDisk : IsDisk disk file_of draft_of
disk-IsDisk = record {
  create_keeps = λ d n w d' n'. refl;
  create_empty = λ d n w f opened. refl;
  chmod_keeps = λ f m w d n. refl;
  chmod_drafts = λ f m w. refl;
  write_keeps = λ f s w d n. refl;
  write_drafts = λ f s w done. refl;
  sync_keeps = λ f w d n. refl;
  sync_drafts = λ f w. refl;
  close_keeps = λ f w d n. refl;
  close_drafts = λ f w. refl;
  rename_moves = λ f d n w done. replaced-at d n w;
  rename_fails = λ f d n w e failed d' n'. absurd (ground arith);
  rename_keeps = λ f d n w d' n' other. replaced-other d n w d' n' other;
  remove_temp_keeps = λ f w d n. refl;
}

abbrev empty_disk : Disk
empty_disk = record { file = λ d n. none; temp = [] }

write_file_atomic-Atomic_example :
    Atomic disk file_of draft_of disk-IsDisk
      (text "/etc")
      (text "a.yml")
      (text "new")
      420
      empty_disk
      (write_file_atomic disk (text "/etc") (text "a.yml") (text "new") 420 empty_disk)
write_file_atomic-Atomic_example =
    write_file_atomic-Atomic disk file_of draft_of disk-IsDisk (text "/etc") (text "a.yml")
      (text "new") 420 empty_disk

bytes_written :
    (write_file_atomic disk (text "/etc") (text "a.yml") (text "new") 420 empty_disk).0 ≡ ok tt
unfolding write_file_atomic in_turn
bytes_written = refl
