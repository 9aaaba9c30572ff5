-- ===== src/Monetd/Pull/Serving.antt =====
-- What `monetd config pull` does before its downloads leaves the answers of the servers.
use botcoin.Base.{Text, Bool, false, refl, List, [], ◌∷◌}
use botcoin.Base.Bytes.{trim_newlines}
use botcoin.Base.Result.{Error}
use botcoin.Os.{pure, or_error, read_file, mkdir_all}
use botcoin.Os.Serves.{Serves, bind-Serves, or_error-Serves, read_file-Serves, mkdir_all-Serves}
use botcoin.Files.{create_dirs_if_not_exists}
use botcoin.Crypto.{
  get_private_key, get_passphrase, prompt_passphrase, read_passphrase, keyfile_path,
}
use botcoin.Crypto.Types.{Ethereum}
use botcoin.Monetd.{get_key}

read_passphrase-Serves : (e : Error) (p : Text) → Serves (read_passphrase e p)
unfolding read_passphrase
read_passphrase-Serves e p w =
    bind-Serves (or_error (read_file p) e) (λ content. pure (trim_newlines content))
      (or_error-Serves (read_file p) e (read_file-Serves p)) (λ content v. refl) w

get_passphrase-Serves : (p : Text) (confirmation : Bool) → Serves (get_passphrase p confirmation)
unfolding get_passphrase prompt_passphrase
get_passphrase-Serves [] confirmation w = refl
get_passphrase-Serves (c ∷ p) confirmation w =
    read_passphrase-Serves Error.passphrase_read (c ∷ p) w

pub get_key-Serves :
    (E : Ethereum) (keystore moniker password_file : Text)
    → Serves (get_key E keystore moniker password_file)
unfolding get_key get_private_key
get_key-Serves E keystore moniker password_file w =
    let path = keyfile_path keystore moniker in
    bind-Serves {B = E.Key} (or_error (read_file path) Error.keyfile_read) _
      (or_error-Serves (read_file path) Error.keyfile_read (read_file-Serves path))
      (λ json.
        bind-Serves {B = E.Key} (get_passphrase password_file false) _
          (get_passphrase-Serves password_file false) (λ phrase v. refl))
      w

pub create_dirs-Serves : (ds : List Text) → Serves (create_dirs_if_not_exists ds)
unfolding create_dirs_if_not_exists
create_dirs-Serves [] w = refl
create_dirs-Serves (d ∷ ds) w =
    bind-Serves (mkdir_all d) (λ u. create_dirs_if_not_exists ds) (mkdir_all-Serves d)
      (λ u. create_dirs-Serves ds) w
