-- ===== src/Crypto.antt =====
-- src/crypto: passphrases and key files. go-ethereum is a parameter, `Ethereum`; what is printed is
-- left out.
pub mod Types
pub mod Frame
pub mod Keep
pub mod Create
pub mod Update
pub mod Holds
pub mod Vault
pub mod Random
mod Tests
use botcoin.Base.{
  ℕ, Text, Bool, true, false, not, Option, none, some, List, [], ◌∷◌, ◌++◌, ◌==◌, text_eq,
  if◌then◌else◌,
}
use botcoin.Base.Bytes.{text, trim_newlines, trim_space}
use botcoin.Base.Bytes.Path.{join_path, dir}
use botcoin.Base.Result.{Error, Result, ok, err}
use botcoin.Os.{
  World, M, pure, throw, lift, ◌>>=◌, ◌>>◌, or_error, fail_if, gets, Status, found, not_exist,
  stat_failed, status, read_file, write_file, mkdir_all,
}
use botcoin.Common.{check_moniker}
use botcoin.Files.{check_if_exists, create_dirs_if_not_exists}
use botcoin.Crypto.Types.{EncryptedKeyJsonMonet, Ethereum}

abbrev pub default_keyfile : Text
default_keyfile = text "keyfile.json"

-- The second line that the user types, against the first.
abbrev confirm : Text → List Text → Result Text × List Text
confirm first [] = (err Error.passphrase_confirm, [])
confirm first (second ∷ lines) =
    if first == second then (ok first, lines) else (err Error.passphrase_mismatch, lines)

abbrev prompt_lines : Bool → List Text → Result Text × List Text
prompt_lines confirmation [] = (err Error.passphrase_prompt, [])
prompt_lines false (line ∷ lines) = (ok line, lines)
prompt_lines true (line ∷ lines) = confirm line lines

unfoldable pub prompt_passphrase : Bool → M Text
prompt_passphrase confirmation w =
    let (r, rest) = prompt_lines confirmation w.stdin in (r, record w { stdin = rest })

-- The passphrase of a file, without the ends of line behind it.
unfoldable pub read_passphrase : Error → Text → M Text
read_passphrase e p = do content ← or_error (read_file p) e; pure (trim_newlines content)

unfoldable pub get_passphrase : Text → Bool → M Text
get_passphrase [] confirmation = prompt_passphrase confirmation
get_passphrase (c ∷ p) confirmation = read_passphrase Error.passphrase_read (c ∷ p)

abbrev some_or {ℓ} : {A : Type ℓ} → Option A → Error → Result A
some_or none e = err e
some_or (some a) e = ok a

unfoldable pub new_passphrase : Text → M Text
new_passphrase [] = prompt_passphrase true
new_passphrase (c ∷ p) = read_passphrase Error.new_passphrase_read (c ∷ p)

unfoldable pub store_keyfile : Text → Text → M (Unit {0})
store_keyfile path json = do
  or_error (mkdir_all (dir path)) Error.mkdir_failed
  or_error (write_file path json 0o600) Error.keyfile_write

abbrev pub or_default : Text → Text
or_default [] = default_keyfile
or_default (c ∷ p) = c ∷ p

-- The key file of a moniker.
unfoldable pub keyfile_path : Text → Text → Text
keyfile_path keystore moniker = join_path (keystore ∷ (moniker ++ text ".json") ∷ [])

module _ (E : Ethereum) where
  open E use {
    Key, Cipher, load_ecdsa, encrypt_data, decrypt_key, marshal, address_hex, address_eip55,
    public_hex, key_id, private_hex,
  }

  abbrev encrypted : Option Cipher → Key → Option Text
  encrypted none key = none
  encrypted (some crypto) key = some (
      marshal (record {
        address = address_hex key;
        public_key = public_hex key;
        crypto = crypto;
        id = key_id key;
        version = 3;
      }))

  unfoldable pub encrypt_key : Key → Text → Option Text
  encrypt_key key auth = encrypted (encrypt_data key auth) key

  -- The private key of the new key file: read from a file, or drawn at random.
  unfoldable pub choose_key : Text → Option Key → M Key
  choose_key [] random = lift (some_or random Error.private_key_random)
  choose_key (c ∷ file) random = do
    content ← or_error (read_file (c ∷ file)) Error.private_key_load
    lift (some_or (load_ecdsa content) Error.private_key_load)

  unfoldable pub make_keyfile : Text → Text → Text → Option Key → M Key
  make_keyfile path password_file private_keyfile random = do
    key ← choose_key private_keyfile random
    passphrase ← get_passphrase password_file true
    json ← lift (some_or (encrypt_key key passphrase) Error.encrypt_failed)
    store_keyfile path json
    pure key

  abbrev unless_there : Status → M Key → M Key
  unless_there found m = throw Error.keyfile_exists
  unless_there stat_failed m = throw Error.keyfile_check
  unless_there not_exist m = m

  -- `GenerateKeyfile`, with the key that would be drawn
  unfoldable pub generate_keyfile : Text → Text → Text → Option Key → M Key
  generate_keyfile path password_file private_keyfile random w =
      unless_there (status (or_default path) w)
        (make_keyfile (or_default path) password_file private_keyfile random) w

  unfoldable pub new_keyfile_full : Text → Text → Text → Text → Option Key → M Key
  new_keyfile_full keystore moniker password_file private_keyfile random = do
    fail_if (trim_space moniker == []) Error.moniker_unset
    fail_if (not (check_moniker moniker)) Error.moniker_invalid
    create_dirs_if_not_exists (keystore ∷ [])
    there ← gets (check_if_exists (keyfile_path keystore moniker))
    fail_if there Error.moniker_exists
    generate_keyfile (keyfile_path keystore moniker) password_file private_keyfile random

  unfoldable pub new_keyfile : Text → Text → Text → Option Key → M Key
  new_keyfile keystore moniker password_file = new_keyfile_full keystore moniker password_file []

  -- What `GetPrivateKey`, `InspectKey` and `UpdateKey` begin with.
  unfoldable pub get_private_key : Text → Text → M Key
  get_private_key path password_file = do
    json ← or_error (read_file path) Error.keyfile_read
    passphrase ← get_passphrase password_file false
    lift (some_or (decrypt_key json passphrase) Error.decrypt_failed)

  unfoldable pub get_private_key_string : Text → Text → M Text
  get_private_key_string path password_file = do
    key ← get_private_key path password_file
    pure (private_hex key)

  -- The address, the public key and, if it is asked for, the private key.
  unfoldable pub inspect_key : Text → Text → Bool → M (Text × Text × Text)
  inspect_key path password_file show_private = do
    key ← get_private_key path password_file
    pure (address_eip55 key, public_hex key, if show_private then private_hex key else [])

  unfoldable pub inspect_key_by_moniker : Text → Text → Text → Bool → M (Text × Text × Text)
  inspect_key_by_moniker keystore moniker password_file show_private = do
    there ← gets (check_if_exists (keyfile_path keystore moniker))
    fail_if (not there) Error.moniker_missing
    inspect_key (keyfile_path keystore moniker) password_file show_private

  -- The mode is the decimal number 600, but the file is there and keeps its own.
  unfoldable pub update_key : Text → Text → Text → M (Unit {0})
  update_key path password_file new_password_file = do
    key ← get_private_key path password_file
    phrase ← new_passphrase new_password_file
    json ← lift (some_or (encrypt_key key phrase) Error.encrypt_failed)
    or_error (write_file path json 600) Error.keyfile_write

  unfoldable pub update_key_by_moniker : Text → Text → Text → Text → M (Unit {0})
  update_key_by_moniker keystore moniker password_file new_password_file = do
    there ← gets (check_if_exists (keyfile_path keystore moniker))
    fail_if (not there) Error.moniker_missing
    update_key (keyfile_path keystore moniker) password_file new_password_file
