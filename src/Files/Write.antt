-- ===== src/Files/Write.antt =====
-- What `WriteToFile` leaves on disk, by the options.
use botcoin.Base.{
  ℕ, Text, ◌≤◌, ◌<◌, ◌≡◌, refl, ◌∙◌, Bool, true, false, none, some, List, ◌∷◌, ◌==◌, text_eq, arith,
  if◌then◌else◌,
}
use botcoin.Base.Dict.{insert, erase, lookup, lookup-insert, lookup-erase}
use botcoin.Base.Bytes.{text, to_lower, trim_space}
use botcoin.Base.Bytes.Path.{dir}
use botcoin.Base.Result.{Error, Result, err, ok}
use botcoin.Os.{World, Entry, file, write, fill, rename, is_dir, write_file, rename_path}
use botcoin.Files.{
  check_if_exists, backup_name, safe_rename, has_option, process_file_options, write_to_file,
  confirm_overwrite, download_file, get_request, backup_existing,
}
use botcoin.Files.Backup.{IsTaken, safe_rename-lowest, safe_rename-full}

pub write_file-new :
    (p body : Text) (mode : ℕ) (w : World)
    → w.fault write p ≡ false
    → w.fault fill p ≡ false
    → lookup p w.disk ≡ none
    → is_dir (dir p) w ≡ true
    → write_file p body mode w ≡ (ok tt, record w { disk = insert p (file mode body) w.disk })
unfolding write_file
write_file-new p body mode w f whole l d = rw (f, whole) (rw l (rw d))

pub write_file-old :
    (p body old : Text) (mode m : ℕ) (w : World)
    → w.fault write p ≡ false
    → w.fault fill p ≡ false
    → lookup p w.disk ≡ some (file m old)
    → write_file p body mode w ≡ (ok tt, record w { disk = insert p (file m body) w.disk })
unfolding write_file
write_file-old p body old mode m w f whole l = rw (f, whole) (rw l)

pub rename_path-file :
    (p q old : Text) (m : ℕ) (w : World)
    → w.fault rename p ≡ false
    → lookup p w.disk ≡ some (file m old)
    → rename_path p q w ≡ (ok tt, record w { disk = insert q (file m old) (erase p w.disk) })
unfolding rename_path
rename_path-file p q old m w f l = rw (f, l)

-- A path that is there exists, and one that does not exist is not there.
pub exists_of_lookup :
    (p : Text) {e : Entry} (w : World) → lookup p w.disk ≡ some e → check_if_exists p w ≡ true
unfolding check_if_exists
exists_of_lookup p w h = ground arith

pub lookup_of_free : (p : Text) (w : World) → check_if_exists p w ≡ false → lookup p w.disk ≡ none
unfolding check_if_exists
lookup_of_free p w h = ground arith

-- A backup changes no directory.
is_dir-moved :
    (d p q old : Text) (m : ℕ) (w : World)
    → lookup p w.disk ≡ some (file m old)
    → lookup q w.disk ≡ none
    → is_dir d w ≡ true
    → is_dir d (record w { disk = insert q (file m old) (erase p w.disk) }) ≡ true
unfolding is_dir
is_dir-moved d p q old m w h free e =
    ground (arith, lookup-insert d q (file m old) (erase p w.disk), lookup-erase d p w.disk)

module _ (p body old : Text) (m n : ℕ) (w : World) (there : lookup p w.disk ≡ some (file m old))
    (writable : w.fault write p ≡ false) (fillable : w.fault fill p ≡ false) where
  abbrev moved : World
  moved = record w { disk = insert (backup_name p n) (file m old) (erase p w.disk) }

  moved_away : check_if_exists (backup_name p n) w ≡ false → lookup p moved.disk ≡ none
  moved_away free = ground (
    arith,
    lookup-insert p (backup_name p n) (file m old) (erase p w.disk),
    lookup-erase p p w.disk,
    lookup_of_free (backup_name p n) w free,
  )

  backed_up :
      check_if_exists (backup_name p n) w ≡ false
      → is_dir (dir p) w ≡ true
      → safe_rename p w ≡ (ok tt, moved)
      → write_to_file p body backup_existing w
        ≡ (ok tt, record moved { disk = insert p (file 0o644 body) moved.disk })
  unfolding write_to_file process_file_options has_option
  backed_up free d renamed = rw (
    exists_of_lookup p w there,
    renamed,
    write_file-new p body 0o644 moved writable fillable (moved_away free)
        (is_dir-moved (dir p) p (backup_name p n) old m w there (lookup_of_free _ w free) d),
  )

  -- What stands at each path after a write with a backup.
  lookup-backed_up :
      (q : Text)
      → check_if_exists (backup_name p n) w ≡ false
      → lookup q (insert p (file 0o644 body) moved.disk) ≡ (
          if q == p
          then some (file 0o644 body)
          else if q == backup_name p n
          then some (file m old)
          else lookup q w.disk)
  lookup-backed_up q free = ground (
    arith,
    lookup-insert q p (file 0o644 body) moved.disk,
    lookup-insert q (backup_name p n) (file m old) (erase p w.disk),
    lookup-erase q p w.disk,
  )

  -- A write with the backup option over an existing file, where the system refuses neither the
  -- rename nor the write, does not cut the write off, and `n` is the lowest free backup number, at most 99, succeeds: the new text
  -- stands at the path, the old file, its mode included, under the backup name, and every other path
  -- is as it was.
  pub write_to_file-backup :
      w.fault rename p ≡ false
      → is_dir (dir p) w ≡ true
      → 1 ≤ n
      → n < 100
      → ((k : ℕ) → 1 ≤ k → k < n → IsTaken p w k)
      → check_if_exists (backup_name p n) w ≡ false
      → let (r, w') = write_to_file p body backup_existing w in
        (r ≡ ok tt)
        × ((q : Text)
            → lookup q w'.disk ≡ (
                if q == p
                then some (file 0o644 body)
                else if q == backup_name p n
                then some (file m old)
                else lookup q w.disk))
  write_to_file-backup f d a b taken free =
      rw
        (backed_up free d (
          safe_rename-lowest p w n (exists_of_lookup p w there) a b taken free
          ∙ rename_path-file p (backup_name p n) old m w f there))
        (refl, λ q. lookup-backed_up q free)

  -- When the first 99 backup names are taken, a write that is neither refused nor cut off still reports success, and the old text
  -- is lost: the error of the backup is dropped and the file is overwritten.
  pub write_to_file-unbacked :
      ((k : ℕ) → 1 ≤ k → k < 100 → IsTaken p w k)
      → write_to_file p body backup_existing w
        ≡ (ok tt, record w { disk = insert p (file m body) w.disk })
  unfolding write_to_file process_file_options has_option
  write_to_file-unbacked taken = rw (
    exists_of_lookup p w there,
    safe_rename-full p w (exists_of_lookup p w there) taken,
    write_file-old p body old 0o644 m w writable fillable there,
  )

-- What the user answers to the prompt: the first line that says yes or no, without the case of its
-- letters or the white space round it, decides.
abbrev Says : Text → Text → Type 0
Says word line = to_lower (trim_space line) ≡ word

pub data Answers : List Text → Bool → Type 0 where
  answers_yes :
      {line : Text} {rest : List Text} → Says (text "yes") line → Answers (line ∷ rest) true
  answers_no :
      {line : Text} {rest : List Text} → Says (text "no") line → Answers (line ∷ rest) false
  answers_n : {line : Text} {rest : List Text} → Says (text "n") line → Answers (line ∷ rest) false
  answers_later :
      {line : Text} {rest : List Text} {b : Bool}
      → ¬ Says (text "yes") line
      → ¬ Says (text "no") line
      → ¬ Says (text "n") line
      → Answers rest b
      → Answers (line ∷ rest) b

abbrev outcome : Bool → Result (Unit {0})
outcome true = ok tt
outcome false = err Error.declined

confirm_overwrite-Answers :
    {lines : List Text} {b : Bool} → Answers lines b → (confirm_overwrite lines).0 ≡ outcome b
unfolding confirm_overwrite
confirm_overwrite-Answers (answers_yes h) = ground arith
confirm_overwrite-Answers (answers_no h) = ground arith
confirm_overwrite-Answers (answers_n h) = ground arith
confirm_overwrite-Answers (answers_later y n m h) = ground (arith, confirm_overwrite-Answers h)

-- An interactive download over a file that exists changes nothing on disk, and fails, if the first
-- line typed that answers the prompt says no.
pub download_file-declined :
    (url p body : Text) (w : World)
    → w.net url ≡ some body
    → check_if_exists p w ≡ true
    → Answers w.stdin false
    → let (r, w') = download_file url p true w in (r ≡ err Error.declined) × (w'.disk ≡ w.disk)
unfolding download_file get_request write_to_file process_file_options has_option
download_file-declined url p body w served there no_said =
    ground (arith, confirm_overwrite-Answers no_said)
