-- ===== src/Keys.antt =====
-- cmd/giverny/commands/keys (generate.go, import.go) and the list of cmd/monetd/commands/keys: the
-- commands that make key files, over Crypto.
pub mod Generated
mod Tests
use botcoin.Base.{ℕ, zero, suc, Text, Option, List, [], ◌∷◌, ◌++◌, if◌then◌else◌}
use botcoin.Base.Int.{ℤ, pos, ◌+ℤ◌, ◌-ℤ◌, pos_part}
use botcoin.Base.Bytes.{text}
use botcoin.Base.Bytes.Number.{itoa}
use botcoin.Base.Bytes.Path.{join_path}
use botcoin.Base.Result.{Result, ok, err, panic, hang}
use botcoin.Os.{M, pure, lift, ◌>>=◌, ◌>>◌, ignore, gets, read_dir}
use botcoin.Files.{check_if_exists, write_to_file_private}
use botcoin.Crypto.{new_keyfile, new_keyfile_full}
use botcoin.Crypto.Types.{Ethereum}
use botcoin.Monetd.Pull.{key_monikers}

abbrev default_password : Text
default_password = text "test"

-- What goes on only if the call in front of it has not failed; its error is dropped.
abbrev if_written : M (Unit {0}) → M (Unit {0}) → M (Unit {0})
if_written m rest w = let (r, w') = m w in after_write r w'
  where
    after_write : Result (Unit {0}) → M (Unit {0})
    after_write (ok u) = rest
    after_write (err e) = pure tt
    after_write panic = lift panic
    after_write hang = lift hang

module _ (E : Ethereum) where
  -- One account: it is passed over if its key file is there. The errors are only printed.
  unfoldable pub generate_account : Text → Text → Option E.Key → M (Unit {0})
  generate_account keystore moniker random = do
    let password_file = join_path (keystore ∷ (moniker ++ text ".txt") ∷ [])
    there ← gets (check_if_exists (join_path (keystore ∷ (moniker ++ text ".json") ∷ [])))
    (if there
        then pure tt
        else if_written (write_to_file_private password_file default_password)
            (ignore (new_keyfile E keystore moniker password_file random)))

  unfoldable pub generate_from : ℕ → Text → Text → ℤ → (ℤ → Option E.Key) → M (Unit {0})
  generate_from zero keystore prefix i random = pure tt
  generate_from (suc rounds) keystore prefix i random = do
    generate_account keystore (prefix ++ itoa i) (random i)
    generate_from rounds keystore prefix (i +ℤ pos 1) random

  -- The loop from the least suffix to the largest.
  unfoldable pub generate_key_range : Text → Text → ℤ → ℤ → (ℤ → Option E.Key) → M (Unit {0})
  generate_key_range keystore prefix min_suffix max_suffix random =
      generate_from (pos_part (max_suffix +ℤ pos 1 -ℤ min_suffix)) keystore prefix min_suffix random

  unfoldable pub import_key : Text → Text → Text → Text → M E.Key
  import_key keystore password_file moniker private_keyfile =
      new_keyfile_full E keystore moniker password_file private_keyfile Option.none

-- The names that are printed. A directory that cannot be listed is no error.
unfoldable pub list_keys : Text → M (List Text)
list_keys keystore w = let (r, w') = read_dir keystore w in (listed r, w')
  where
    listed : Result (List Text) → Result (List Text)
    listed (ok names) = ok (key_monikers names)
    listed (err e) = ok []
    listed panic = panic
    listed hang = hang
