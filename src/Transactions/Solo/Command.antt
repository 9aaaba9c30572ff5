-- ===== src/Transactions/Solo/Command.antt =====
-- The command `giverny transactions solo` as a whole: its checks, the accounts that it reads and the
-- file that it writes. The JSON of the files is a parameter.
use botcoin.Base.{ℕ, Text, Bool, not, List, [], ◌∷◌, ◌++◌, ◌==◌, text_eq, ltb, length}
use botcoin.Base.Bytes.{text, split}
use botcoin.Base.Bytes.Path.{join_path}
use botcoin.Base.Result.{Error, Result, ok, err}
use botcoin.Os.{M, pure, lift, ◌>>=◌, ◌>>◌, ignore, fail_if, gets, read_file, or_error}
use botcoin.Files.{write_to_file, check_if_exists, backup_existing}
use botcoin.Transactions.Draw.{Draws}
use botcoin.Transactions.Solo.{SoloAccount, new_account, solo_transactions}

-- An address in the JSON of a key file: the file may be no JSON, and the address may be missing or no
-- text, which makes the assertion of its type panic.
pub data KeyAddress : Type 0 where
  not_json no_address : KeyAddress
  key_address : Text → KeyAddress

pub record SoloFormats : Type 0 where
  pub read_address : Text → KeyAddress
  pub marshal : List SoloAccount → Text

pub record SoloFlags : Type 0 where
  pub keystore : Text
  pub faucet : Text
  pub accounts : Text
  pub output_file : Text
  pub total_transactions : ℕ
  pub round_robin : Bool
  pub max_value : ℕ

abbrev address_result : KeyAddress → Result Text
address_result not_json = err Error.bad_json
address_result no_address = Result.panic
address_result (key_address a) = ok a

abbrev key_file : Text → Text → Text
key_file keystore name = join_path (keystore ∷ (name ++ text ".json") ∷ [])

module _ (F : SoloFormats) where
  unfoldable pub read_account : Text → Text → M SoloAccount
  read_account keystore name = do
    there ← gets (check_if_exists (key_file keystore name))
    fail_if (not there) Error.no_account_key
    json ← or_error (read_file (key_file keystore name)) Error.keyfile_read
    addr ← lift (address_result (F.read_address json))
    pure (new_account name addr)

  unfoldable pub read_accounts : Text → List Text → M (List SoloAccount)
  read_accounts keystore [] = pure []
  read_accounts keystore (name ∷ names) = do
    a ← read_account keystore name
    rest ← read_accounts keystore names
    pure (a ∷ rest)

  -- The error of the write is dropped.
  unfoldable pub solo_command : SoloFlags → Draws → M (Unit {0})
  solo_command flags draws = do
    there ← gets (check_if_exists flags.output_file)
    fail_if there Error.output_exists
    store ← gets (check_if_exists flags.keystore)
    fail_if (not store) Error.no_keystore
    faucet ← gets (check_if_exists (key_file flags.keystore flags.faucet))
    fail_if (not faucet) Error.no_faucet_key
    fail_if (flags.accounts == []) Error.no_accounts
    fail_if (ltb (length (split b',' flags.accounts)) 2) Error.too_few_accounts
    accounts ← read_accounts flags.keystore (flags.faucet ∷ split b',' flags.accounts)
    final ← lift (
        solo_transactions flags.total_transactions flags.round_robin flags.max_value draws accounts)
    ignore (write_to_file flags.output_file (F.marshal final) backup_existing)
