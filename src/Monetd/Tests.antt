-- ===== src/Monetd/Tests.antt =====
-- The validators of a command line.
use botcoin.Base.{
  ℕ, Text, ◌≡◌, refl, Option, none, some, [], ◌∷◌, ◌==◌, text_eq, false, text_discrete,
  if◌then◌else◌,
}
use botcoin.Base.Dict.{lookup, insert}
use botcoin.Base.Bytes.{text, split, trim_newlines, has_prefix, contains}
use botcoin.Base.Bytes.Number.{hex_decode, hex_encode}
use botcoin.Base.Bytes.Path.{join_path, dir, ext}
use botcoin.Base.Result.{ok}
use botcoin.Os.{
  no_daemon, World, file, directory, read_file, mkdir_all, write_file, read_dir, is_dir, status,
  child_names, insert_name, text_leb,
}
use botcoin.Crypto.{keyfile_path}
use botcoin.Genesis.Build.{Formats}
use botcoin.Crypto.{get_private_key, get_passphrase, read_passphrase}
use botcoin.Files.{
  write_to_file, process_file_options, has_option, check_if_exists, create_dirs_if_not_exists,
}
use botcoin.Crypto.Types.{Ethereum}
use botcoin.Genesis.Storage.{get_storage, store_peers, store_peer, moniker_value}
use botcoin.Genesis.Build.{
  generate_genesis_json, mini_peers, public_key_hex_to_address_hex, build_alloc, add_accounts,
  add_account,
}
use botcoin.Monetd.{
  min_peers, build_config, get_key, create_monet_config_folders, dump_priv_key, dump_peers,
  dump_global_toml,
}
use botcoin.Monetd.Built.{priv_key_path, build_config-key}

-- The JSON of a key file is its address.
abbrev formats : Formats
formats = record {
  Peer = Text;
  new_peer = λ key addr moniker. moniker;
  peer_key = λ p. p;
  peer_moniker = λ p. p;
  ethereum = record { hex_to_hash = λ s. s; keccak256 = λ s. s };
  address_hex = λ s. s;
  marshal_genesis = λ g. [];
  marshal_peers = λ ps. [];
  key_address = λ s. some s;
  contract_abi = [];
  contract_code = [];
}

abbrev world : World
world = record {
  disk = (text "/k/bob.json", file 0o600 (text "b0")) ∷ [];
  stdin = [];
  fault = λ c p. false;
  net = λ u. none;
  daemon = no_daemon;
  calls = [];
}

validators : min_peers formats (text "/k") (text "alice=a0" ∷ text "bob" ∷ []) world ≡ (
  ok (
      record { address = text "a0"; moniker = text "alice" }
      ∷ record { address = text "b0"; moniker = text "bob" }
      ∷ []),
  world,
)
unfolding min_peers split keyfile_path join_path read_file lookup text_discrete
validators = refl

-- A key is one byte, in front of the passphrase.
abbrev decrypted : Text → Text → Option ℕ
decrypted [] auth = none
decrypted (key ∷ phrase) auth = if phrase == auth then some key else none

abbrev ethereum : Ethereum
ethereum = record {
  Key = ℕ;
  Cipher = Text;
  load_ecdsa = λ s. none;
  address_hex = λ key. key ∷ [];
  address_eip55 = λ key. key ∷ [];
  public_hex = λ key. text "a0";
  private_hex = λ key. key ∷ [];
  key_id = λ key. [];
  encrypt_data = λ key auth. some (key ∷ auth);
  marshal = λ json. json.crypto;
  decrypt_key = decrypted;
}

-- The key file of alice, whose key is the digit 7, and her passphrase file.
abbrev keystore : World
keystore = record world {
  disk =
      (text "/k", directory)
      ∷ (text "/k/alice.json", file 0o600 (text "7pw"))
      ∷ (text "/k/pw", file 0o600 (text "pw"))
      ∷ [];
}

abbrev hex_formats : Formats
hex_formats = record formats { new_peer = λ key addr moniker. key }

abbrev configured : World
configured =
    (build_config hex_formats ethereum (text "c0") (text "t") (text "/m") (text "/k") (text "/k/pw")
      (text "10.0.0.1") (text "alice") keystore).1

configured_run :
    build_config hex_formats ethereum
      (text "c0")
      (text "t")
      (text "/m")
      (text "/k")
      (text "/k/pw")
      (text "10.0.0.1")
      (text "alice")
      keystore
    ≡ (ok tt, configured)
unfolding build_config get_key create_monet_config_folders dump_priv_key dump_peers dump_global_toml
    generate_genesis_json mini_peers public_key_hex_to_address_hex build_alloc add_accounts
    add_account get_storage store_peers store_peer moniker_value get_private_key get_passphrase
    read_passphrase keyfile_path join_path read_file lookup text_discrete trim_newlines
    create_dirs_if_not_exists mkdir_all insert write_file dir write_to_file process_file_options
    check_if_exists hex_decode hex_encode read_dir has_prefix ext contains has_option is_dir status
    child_names insert_name text_leb
configured_run = refl

build_config-key_example :
    (key : ℕ) × (m : ℕ) × ((get_private_key ethereum
        (keyfile_path (text "/k") (text "alice"))
        (text "/k/pw")
        keystore).0
      ≡ ok key)
    × (lookup (priv_key_path hex_formats (text "/m")) configured.disk
        ≡ some (file m (ethereum.private_hex key)))
    × ((n : ℕ) × (lookup (join_path (text "/m" ∷ text "monetd.toml" ∷ [])) configured.disk
          ≡ some (file n (text "t"))))
build_config-key_example =
    build_config-key hex_formats (text "/m") ethereum (text "c0") (text "t") (text "/k")
      (text "/k/pw") (text "10.0.0.1") (text "alice") keystore configured_run
