-- ===== src/Files/Tests.antt =====
-- Writes over a file that has one backup.
use botcoin.Base.{
  ℕ, suc, zero, Text, ◌≡◌, refl, ◌≤◌, ◌<◌, Bool, true, false, some, [], ◌∷◌, ◌==◌, text_eq, nat_eq,
  text_discrete, arith, if◌then◌else◌,
}
use botcoin.Base.Dict.{lookup, insert}
use botcoin.Base.Bytes.{text, to_lower, trim_space}
use botcoin.Base.Bytes.Number.{itoa_ℕ}
use botcoin.Base.Bytes.Path.{dir}
use botcoin.Base.Result.{ok}
use botcoin.Os.{no_daemon, World, Entry, file, Call, stat, status, is_dir}
use botcoin.Files.{check_if_exists, backup_name, write_to_file, backup_existing}
use botcoin.Files.Write.{
  Answers, answers_no, answers_later, write_to_file-backup, write_to_file-unbacked,
}

abbrev never : Call → Text → Bool
never c p = false

abbrev old_file : Entry
old_file = file 0o600 (text "old")

-- A file and its first backup; the user is going to answer a question badly, then with no.
abbrev one_backup : World
one_backup = record {
  disk = (text "/f", old_file) ∷ (text "/f.~1~", file 0o644 (text "older")) ∷ [];
  stdin = text "what?" ∷ text " NO " ∷ [];
  fault = never;
  net = λ url. some (text "new");
  daemon = no_daemon;
  calls = [];
}

-- A system on which nothing but the file itself can be examined, so that every backup seems taken.
abbrev blind : Call → Text → Bool
blind stat p = if p == text "/f" then false else true
blind c p = false

abbrev blind_world : World
blind_world = record one_backup { fault = blind }

first_taken :
    (k : ℕ) → 1 ≤ k → k < 2 → check_if_exists (backup_name (text "/f") k) one_backup ≡ true
unfolding check_if_exists status backup_name lookup text_discrete itoa_ℕ
first_taken zero a b = absurd (omega arith)
first_taken (suc zero) a b = refl
first_taken (suc (suc k)) a b = absurd (omega arith)

there : check_if_exists (text "/f") one_backup ≡ true
unfolding check_if_exists status lookup text_discrete
there = refl

second_free : check_if_exists (backup_name (text "/f") 2) one_backup ≡ false
unfolding check_if_exists status backup_name lookup text_discrete itoa_ℕ
second_free = refl

root_dir : is_dir (dir (text "/f")) one_backup ≡ true
unfolding is_dir dir text_discrete
root_dir = refl

there_blind : check_if_exists (text "/f") blind_world ≡ true
unfolding check_if_exists status lookup text_discrete
there_blind = refl

all_taken :
    (k : ℕ) → 1 ≤ k → k < 100 → check_if_exists (backup_name (text "/f") k) blind_world ≡ true
unfolding check_if_exists status backup_name text_discrete
all_taken k a b = refl

standing : lookup (text "/f") one_backup.disk ≡ some old_file
unfolding lookup text_discrete
standing = refl

says_no : Answers one_backup.stdin false
unfolding to_lower trim_space text_discrete
says_no = answers_later (λ e. cc) (λ e. cc) (λ e. cc) (answers_no refl)

write_to_file-backup_example :
    let (r, w') = write_to_file (text "/f") (text "new") backup_existing one_backup in
    (r ≡ ok tt)
    × ((q : Text)
        → lookup q w'.disk ≡ (
            if q == text "/f"
            then some (file 0o644 (text "new"))
            else if q == backup_name (text "/f") 2
            then some old_file
            else lookup q one_backup.disk))
write_to_file-backup_example =
    write_to_file-backup (text "/f") (text "new") (text "old") 0o600 2 one_backup standing refl refl
      refl root_dir (omega arith) (omega arith) first_taken second_free

write_to_file-unbacked_example :
    write_to_file (text "/f") (text "new") backup_existing blind_world ≡ (
      ok tt,
      record blind_world { disk = insert (text "/f") (file 0o600 (text "new")) blind_world.disk },
    )
write_to_file-unbacked_example =
    write_to_file-unbacked (text "/f") (text "new") (text "old") 0o600 0 blind_world standing refl
      refl all_taken
