-- ===== src/Genesis/Build/Tests.antt =====
-- The accounts of a directory with two key files and a passphrase file.
use botcoin.Base.{Text, ◌≡◌, refl, some, none, [], ◌∷◌, false, In, text_discrete}
use botcoin.Base.Dict.{lookup, insert}
use botcoin.Base.Bytes.{text, contains, has_prefix}
use botcoin.Base.Bytes.Path.{join_path, ext}
use botcoin.Base.Result.{ok}
use botcoin.Os.{
  no_daemon, World, directory, file, read_file, read_dir, child_names, child_name, insert_name,
  text_leb, is_dir,
}
use botcoin.Genesis.Build.{Alloc, Formats, build_alloc, add_accounts, add_account, AllocRecord}
use botcoin.Genesis.Build.Accounts.{
  account_named, FromKeyFile, IsKeyFile, HasAccount, build_alloc-exact,
}

-- The JSON of a key file is its address.
abbrev formats : Formats
formats = record {
  Peer = Text;
  new_peer = λ key addr moniker. moniker;
  peer_key = λ p. p;
  peer_moniker = λ p. p;
  ethereum = record { hex_to_hash = λ s. s; keccak256 = λ s. s };
  address_hex = λ s. s;
  marshal_genesis = λ g. [];
  marshal_peers = λ ps. [];
  key_address = λ s. some s;
  contract_abi = [];
  contract_code = [];
}

abbrev world : World
world = record {
  disk =
      (text "/k", directory)
      ∷ (text "/k/bob.json", file 0o600 (text "b0"))
      ∷ (text "/k/bob.txt", file 0o600 (text "pw"))
      ∷ (text "/k/al.json", file 0o600 (text "a0"))
      ∷ [];
  stdin = [];
  fault = λ c p. false;
  net = λ u. none;
  daemon = no_daemon;
  calls = [];
}

abbrev accounts : Alloc
accounts =
    (text "a0", account_named (text "al.json")) ∷ (text "b0", account_named (text "bob.json")) ∷ []

accounts_run : build_alloc formats (text "/k") world ≡ (ok accounts, world)
unfolding build_alloc add_accounts add_account read_file read_dir child_names child_name insert_name
    text_leb is_dir join_path ext lookup insert text_discrete has_prefix contains
accounts_run = refl

build_alloc-exact_example :
    (world ≡ world)
    × ((a : Text) (r : AllocRecord)
        → lookup a accounts ≡ some r
        → FromKeyFile formats (text "/k") world (child_names (text "/k") world.disk) a r)
    × ((name : Text)
        → In name (child_names (text "/k") world.disk)
        → IsKeyFile formats (text "/k") world name
        → HasAccount formats (text "/k") world accounts name)
build_alloc-exact_example = build_alloc-exact formats (text "/k") world accounts_run
