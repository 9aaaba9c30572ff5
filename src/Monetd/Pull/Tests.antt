-- ===== src/Monetd/Pull/Tests.antt =====
-- Downloads over an old file that the user lets go, and a configuration that is pulled.
use botcoin.Base.{
  ℕ, Text, ◌≡◌, refl, true, false, Option, none, some, List, [], ◌∷◌, ◌==◌, text_eq, if◌then◌else◌,
  text_discrete,
}
use botcoin.Base.Dict.{lookup, insert}
use botcoin.Base.Bytes.{text, to_lower, trim_space, split, trim_newlines, has_prefix, contains}
use botcoin.Base.Bytes.Path.{dir, ext, join_path}
use botcoin.Base.Result.{ok}
use botcoin.Os.{
  World, directory, file, status, write_file, read_file, read_dir, mkdir_all, is_dir, child_names,
  insert_name, text_leb, no_daemon,
}
use botcoin.Files.{
  check_if_exists, confirm_overwrite, prompt_overwrite, process_file_options, has_option,
  write_to_file, get_request, download_file, create_dirs_if_not_exists,
}
use botcoin.Crypto.{get_private_key, get_passphrase, read_passphrase, keyfile_path}
use botcoin.Crypto.Types.{Ethereum}
use botcoin.Monetd.{get_key, create_monet_config_folders, dump_priv_key, dump_global_toml}
use botcoin.Monetd.Pull.{
  DownloadItem, PullFlags, Warning, pulled, download_all, pull_config, get_default_key,
  key_monikers, show_ip_warnings,
}
use botcoin.Monetd.Pull.Places.{priv_key_path, toml_path}
use botcoin.Monetd.Pull.Chosen.{IsChosen}
use botcoin.Monetd.Pull.Joined.{Arrived, pull_config-joined}

abbrev items : List DownloadItem
items =
    record { url = text "http://n/peers"; dest = text "/peers.json" }
    ∷ record { url = text "http://n/genesis"; dest = text "/g.json" }
    ∷ []

abbrev world : World
world = record {
  disk = (text "/g.json", file 0o600 (text "old")) ∷ [];
  stdin = text "yes" ∷ [];
  fault = λ c p. false;
  net = λ url. if url == text "http://n/peers" then some (text "[]") else some (text "{}");
  daemon = no_daemon;
  calls = [];
}

abbrev fetched : World
fetched = (download_all items true world).1

fetch_run : download_all items true world ≡ (ok tt, fetched)
unfolding download_all download_file get_request write_to_file process_file_options prompt_overwrite
    confirm_overwrite has_option check_if_exists status write_file is_dir dir lookup insert
    text_discrete to_lower trim_space
fetch_run = refl

-- A key is one byte, in front of the passphrase.
abbrev decrypted : Text → Text → Option ℕ
decrypted [] auth = none
decrypted (key ∷ phrase) auth = if phrase == auth then some key else none

abbrev ethereum : Ethereum
ethereum = record {
  Key = ℕ;
  Cipher = Text;
  load_ecdsa = λ s. none;
  address_hex = λ key. key ∷ [];
  address_eip55 = λ key. key ∷ [];
  public_hex = λ key. text "a0";
  private_hex = λ key. key ∷ [];
  key_id = λ key. [];
  encrypt_data = λ key auth. some (key ∷ auth);
  marshal = λ json. json.crypto;
  decrypt_key = decrypted;
}

-- A keystore with the key file of alice, whose key is the digit 7, and a node that answers.
abbrev joining : World
joining = record world {
  disk =
      (text "/k", directory)
      ∷ (text "/k/alice.json", file 0o600 (text "7pw"))
      ∷ (text "/pw", file 0o600 (text "pw"))
      ∷ [];
  net = λ url. some url;
}

abbrev flags : PullFlags
flags = record {
  config_dir = text "/m";
  keystore = text "/k";
  key = [];
  password_file = text "/pw";
  force = true;
  api = [];
  listen = [];
  advertise = [];
}

abbrev joined : World
joined = (pull_config ethereum (text "t") flags (text "n") joining).1

abbrev warned : List Warning
warned = show_ip_warnings [] [] []

pull_run : pull_config ethereum (text "t") flags (text "n") joining ≡ (ok warned, joined)
unfolding pull_config get_default_key key_monikers get_key get_private_key keyfile_path
    get_passphrase read_passphrase create_monet_config_folders create_dirs_if_not_exists mkdir_all
    dump_priv_key download_all download_file get_request pulled dump_global_toml write_to_file
    process_file_options has_option check_if_exists status write_file read_file read_dir is_dir
    child_names insert_name text_leb dir ext contains has_prefix split join_path trim_newlines
    lookup insert text_discrete show_ip_warnings
pull_run = refl

pull_config-joined_example :
    (moniker : Text) × (key : ℕ) × IsChosen (text "/k") [] joining moniker
    × ((get_private_key ethereum (keyfile_path (text "/k") moniker) (text "/pw") joining).0
        ≡ ok key)
    × ((m : ℕ) × (lookup (priv_key_path (text "/m")) joined.disk
          ≡ some (file m (ethereum.private_hex key))))
    × Arrived
        (text "http://n/genesispeers")
        (join_path (text "/m" ∷ text "babble" ∷ text "peers.genesis.json" ∷ []))
        joining
        joined
    × Arrived
        (text "http://n/peers")
        (join_path (text "/m" ∷ text "babble" ∷ text "peers.json" ∷ []))
        joining
        joined
    × Arrived
        (text "http://n/genesis")
        (join_path (text "/m" ∷ text "eth" ∷ text "genesis.json" ∷ []))
        joining
        joined
    × ((n : ℕ) × (lookup (toml_path (text "/m")) joined.disk ≡ some (file n (text "t"))))
pull_config-joined_example =
    pull_config-joined ethereum (text "t") flags (text "n") joining {warnings = warned} pull_run
