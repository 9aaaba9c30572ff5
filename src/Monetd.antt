-- ===== src/Monetd.antt =====
-- cmd/monetd/commands/config: `monetd config build`, which makes the configuration of a network of one
-- node from a key, and `whitelist`, which gives the storage of the contract for a list of validators;
-- with src/keystore/keystore.go and `DumpGlobalTOML` of src/configuration/toml.go, whose text is a
-- parameter.
pub mod Pull
pub mod Dumped
pub mod Built
pub mod Commands
mod Tests
use botcoin.Base.{Text, Bool, true, Option, none, some, List, [], ◌∷◌, ◌++◌, if◌then◌else◌}
use botcoin.Base.Dict.{Dict}
use botcoin.Base.Bytes.{text, split}
use botcoin.Base.Bytes.Path.{join_path}
use botcoin.Base.Result.{Error, Result, ok, err}
use botcoin.Os.{World, M, pure, lift, ◌>>=◌, ◌>>◌, ignore, or_error, write_file, read_file}
use botcoin.Files.{write_to_file, create_dirs_if_not_exists, prompt_if_existing, overwrite_silently}
use botcoin.Crypto.{get_private_key, keyfile_path}
use botcoin.Crypto.Types.{Ethereum}
use botcoin.Genesis.Storage.{MinimalPeerRecord, get_storage}
use botcoin.Genesis.Build.{Formats, generate_genesis_json}

unfoldable pub create_monet_config_folders : Text → M (Unit {0})
create_monet_config_folders dir = create_dirs_if_not_exists (
    dir
    ∷ join_path (dir ∷ text "babble" ∷ [])
    ∷ join_path (dir ∷ text "eth" ∷ [])
    ∷ join_path (dir ∷ text "eth" ∷ text "poa" ∷ [])
    ∷ [])

unfoldable pub dump_global_toml : Text → Text → Text → Bool → M (Unit {0})
dump_global_toml toml dir name interactive =
    write_to_file (join_path (dir ∷ name ∷ [])) toml
      (if interactive then prompt_if_existing else overwrite_silently)

module _ (E : Ethereum) where
  unfoldable pub get_key : Text → Text → Text → M E.Key
  get_key keystore moniker password_file =
      get_private_key E (keyfile_path keystore moniker) password_file

  unfoldable pub dump_priv_key : Text → E.Key → M (Unit {0})
  dump_priv_key dir key =
      write_file (join_path (dir ∷ text "priv_key" ∷ [])) (E.private_hex key) 0o600

module _ (F : Formats) where
  open F use {Peer, marshal_peers}

  -- The errors of both writes are dropped.
  unfoldable pub dump_peers : Text → List Peer → M (Unit {0})
  dump_peers dir peers = do
    ignore (
        write_to_file (join_path (dir ∷ text "babble" ∷ text "peers.json" ∷ []))
          (marshal_peers peers) overwrite_silently)
    ignore (
        write_to_file (join_path (dir ∷ text "babble" ∷ text "peers.genesis.json" ∷ []))
          (marshal_peers peers) overwrite_silently)

  module _ (E : Ethereum) where
    -- The peers are this node alone; the accounts are those of the keystore.
    unfoldable pub build_config : Text → Text → Text → Text → Text → Text → Text → M (Unit {0})
    build_config controller toml config_dir keystore password_file address moniker = do
      key ← get_key E keystore moniker password_file
      ignore (create_monet_config_folders config_dir)
      dump_priv_key E (join_path (config_dir ∷ text "babble" ∷ [])) key
      dump_peers config_dir (F.new_peer (E.public_hex key) (address ++ text ":1337") moniker ∷ [])
      generate_genesis_json F (join_path (config_dir ∷ text "eth" ∷ [])) keystore
          (F.new_peer (E.public_hex key) (address ++ text ":1337") moniker ∷ []) none controller
      dump_global_toml toml config_dir (text "monetd.toml") true

  -- A validator of the command line: its name and its address, or the name of a key file.
  abbrev min_peer : Text → Text → List Text → M MinimalPeerRecord
  min_peer keystore arg (moniker ∷ address ∷ rest) =
      pure (record { address = address; moniker = moniker })
  min_peer keystore arg _ = do
    json ← or_error (read_file (keyfile_path keystore arg)) Error.keyfile_read
    address ← lift (elim (F.key_address json) [ none ↦ err Error.bad_json | some a ↦ ok a ])
    pure (record { address = address; moniker = arg })

  unfoldable pub min_peers : Text → List Text → M (List MinimalPeerRecord)
  min_peers keystore [] = pure []
  min_peers keystore (arg ∷ args) = do
    peer ← min_peer keystore arg (split b'=' arg)
    rest ← min_peers keystore args
    pure (peer ∷ rest)

  -- `whiteListConfig`, without the name of the network: the storage that it prints.
  unfoldable pub white_list_config : Text → List Text → M (Dict Text)
  white_list_config keystore args = do
    peers ← min_peers keystore args
    lift (get_storage F.ethereum peers)
