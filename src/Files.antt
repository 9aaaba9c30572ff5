-- ===== src/Files.antt =====
-- src/files/files.go: what happens to an existing file before it is written,
-- backups, copies and downloads. Messages to the console are left out.
pub mod Backup
pub mod Write
pub mod Silent
mod Tests
use Prim.Native.Nat.{zero}
use botcoin.Base.{
  ℕ, suc, Text, ◌+◌, ◌/◌, ◌%◌, ◌^◌, Bool, true, false, not, ◌&&◌, ◌||◌, Option, none, some, List,
  [], ◌∷◌, ◌++◌, ◌==◌, text_eq, nat_eq, if◌then◌else◌,
}
use botcoin.Base.Bytes.{text, to_lower, trim_space}
use botcoin.Base.Bytes.Number.{itoa_ℕ}
use botcoin.Base.Bytes.Path.{dir}
use botcoin.Base.Result.{Error, Result, ok, err, panic, hang}
use botcoin.Os.{
  World, M, pure, throw, ◌>>=◌, ◌>>◌, ignore, or_error, Status, not_exist, status, write_file,
  mkdir_all, rename_path, open_path, create_file, copy_bytes, sync_file,
}

-- The bits of `Bits`, by their position.
abbrev pub backup_existing : ℕ
backup_existing = 1

abbrev pub prompt_if_existing : ℕ
prompt_if_existing = 2

abbrev pub overwrite_silently : ℕ
overwrite_silently = 4

-- `options&flag != 0`, for a flag that is a power of two
unfoldable pub has_option : ℕ → ℕ → Bool
has_option options flag = options / flag % 2 == 1

abbrev exists_status : Status → Bool
exists_status not_exist = false
exists_status _ = true

-- A path that cannot be examined counts as existing.
unfoldable pub check_if_exists : Text → World → Bool
unfolding status
check_if_exists p w = exists_status (status p w)

unfoldable pub backup_name : Text → ℕ → Text
backup_name p i = p ++ (text ".~" ++ (itoa_ℕ i ++ text "~"))

-- The loop of `SafeRename` from `i`, with the rounds that are left.
unfoldable pub safe_rename_from : ℕ → ℕ → Text → M (Unit {0})
unfolding check_if_exists
safe_rename_from zero i p w = (err Error.too_many_backups, w)
safe_rename_from (suc rounds) i p w =
    let next = safe_rename_from rounds (i + 1) p w in
    if check_if_exists (backup_name p i) w then next else rename_path p (backup_name p i) w

unfoldable pub safe_rename : Text → M (Unit {0})
unfolding safe_rename_from
safe_rename p w = if check_if_exists p w then safe_rename_from 99 1 p w else (ok tt, w)

-- The prompt is repeated until a line says yes or no; without a further line it goes on for ever.
unfoldable pub confirm_overwrite : List Text → Result (Unit {0}) × List Text
confirm_overwrite [] = (hang, [])
confirm_overwrite (line ∷ lines) =
    let again = confirm_overwrite lines in
    let answer = to_lower (trim_space line) in
    if answer == text "no" || answer == text "n"
    then (err Error.declined, lines)
    else if answer == text "yes"
    then (ok tt, lines)
    else again

unfoldable pub prompt_overwrite : M (Unit {0})
prompt_overwrite w = let (r, rest) = confirm_overwrite w.stdin in (r, record w { stdin = rest })

abbrev when : Bool → M (Unit {0}) → M (Unit {0})
when c m w = if c then m w else (ok tt, w)

-- The error of `SafeRename` is dropped.
unfoldable pub process_file_options : Text → ℕ → M (Unit {0})
unfolding prompt_overwrite
process_file_options p options w =
    when (check_if_exists p w && not (has_option options overwrite_silently))
      (do
        when (has_option options prompt_if_existing) prompt_overwrite
        when (has_option options backup_existing) (ignore (safe_rename p)))
      w

unfoldable pub write_to_file : Text → Text → ℕ → M (Unit {0})
write_to_file p body options = do
  process_file_options p options
  or_error (write_file p body 0o644) Error.write_failed

unfoldable pub write_to_file_private : Text → Text → M (Unit {0})
write_to_file_private p body = do mkdir_all (dir p); write_file p body 0o600

unfoldable pub create_dirs_if_not_exists : List Text → M (Unit {0})
create_dirs_if_not_exists [] = pure tt
create_dirs_if_not_exists (d ∷ ds) = mkdir_all d >> create_dirs_if_not_exists ds

-- A failed `Close` is not told from a failed `Sync`.
unfoldable pub copy_file_contents : Text → Text → M (Unit {0})
copy_file_contents src dst = do open_path src; create_file dst; copy_bytes src dst; sync_file dst

unfoldable pub get_request : Text → M Text
get_request url w = elim (w.net url) [ none ↦ (err Error.io, w) | some body ↦ (ok body, w) ]

unfoldable pub download_file : Text → Text → Bool → M (Unit {0})
download_file url p interactive = do
  body ← get_request url
  write_to_file p body (if interactive then prompt_if_existing else 0)
