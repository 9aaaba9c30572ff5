-- ===== src/Network/Export.antt =====
-- What start.go and aws.go of cmd/giverny/commands/network have in common: the files of a node, for the
-- machine that it is to run on.
pub mod Key
mod Tests
use botcoin.Base.{
  ℕ, Text, Bool, true, false, not, Option, none, some, List, [], ◌∷◌, ◌++◌, ◌==◌, text_eq,
  if◌then◌else◌,
}
use botcoin.Base.Dict.{Dict, lookup}
use botcoin.Base.Bytes.{text, contains, split}
use botcoin.Base.Bytes.Path.{join_path}
use botcoin.Base.Result.{Error, Result, ok, err}
use botcoin.Os.{
  World, M, pure, throw, lift, ◌>>=◌, ◌>>◌, ignore, or_error, fail_if, gets, read_file,
}
use botcoin.Files.{
  write_to_file, overwrite_silently, check_if_exists, create_dirs_if_not_exists, copy_file_contents,
}
use botcoin.Crypto.{get_private_key}
use botcoin.Crypto.Types.{Ethereum}
use botcoin.Docker.{
  get_docker_client, get_networks, get_containers, safe_create_network, create_container_from_image,
  start_container, connect_container_to_network, copy_to,
}
use botcoin.Network.Nodes.{Node}
use botcoin.Network.Config.{NetworkConfig, DockerConfig, network_dir, with_port}
use botcoin.Monetd.{dump_priv_key}
use botcoin.Network.Toml.{NodeToml, DockerNodeConfig, some_or, load_toml, save_toml}

-- A key file's own passphrase file, if it is there.
abbrev pub own_password_file : Bool → Text → Text
own_password_file true pwd_file = pwd_file
own_password_file false pwd_file = []

module _ (E : Ethereum) where
  unfoldable pub generate_babble_private_key : Text → Text → Text → Text → M (Unit {0})
  generate_babble_private_key key_file pwd_file [] out_dir = pure tt
  generate_babble_private_key key_file pwd_file (c ∷ moniker) out_dir = do
    there ← gets (check_if_exists key_file)
    fail_if (not there) Error.moniker_missing
    own ← gets (check_if_exists pwd_file)
    key ← get_private_key E key_file (own_password_file own pwd_file)
    or_error (dump_priv_key E out_dir key) Error.keyfile_write

module _ (T : NodeToml) where
  unfoldable pub set_listen_address_in_toml : Text → Text → M (Unit {0})
  set_listen_address_in_toml file listen = do
    tree ← load_toml T file
    ignore (save_toml T (T.set_listen listen tree) file)

abbrev pub first_part : List Text → Text
first_part [] = []
first_part (s ∷ parts) = s

-- The files that a node gets: from where, to where.
unfoldable pub copying : Text → Text → Text → Text → Text → Text → List (Text × Text)
copying network config babble eth keystore moniker =
    (join_path (network ∷ text "monetd.toml" ∷ []), join_path (config ∷ text "monetd.toml" ∷ []))
    ∷ (join_path (network ∷ text "genesis.json" ∷ []), join_path (eth ∷ text "genesis.json" ∷ []))
    ∷ (join_path (network ∷ text "peers.json" ∷ []), join_path (babble ∷ text "peers.json" ∷ []))
    ∷ (
      join_path (network ∷ text "peers.genesis.json" ∷ []),
      join_path (babble ∷ text "peers.genesis.json" ∷ []),
    )
    ∷ (
      join_path (network ∷ text "keystore" ∷ (moniker ++ text ".json") ∷ []),
      join_path (keystore ∷ (moniker ++ text ".json") ∷ []),
    )
    ∷ (
      join_path (network ∷ text "keystore" ∷ (moniker ++ text ".txt") ∷ []),
      join_path (keystore ∷ (moniker ++ text ".txt") ∷ []),
    )
    ∷ []

-- The error of a copy is dropped.
unfoldable pub copy_all : List (Text × Text) → M (Unit {0})
copy_all [] = pure tt
copy_all ((from, to) ∷ files) = do ignore (copy_file_contents from to); copy_all files

module _ (E : Ethereum) (T : NodeToml) where
  -- What is done for a node with a name: its files under `monet`, and its description in `out_dir`.
  unfoldable pub export_named : Text → Text → Text → ℕ → Node → M (Unit {0})
  export_named network monet out_dir flags n = do
    let config = join_path (monet ∷ text "monetd-config" ∷ [])
    let babble = join_path (config ∷ text "babble" ∷ [])
    let eth = join_path (config ∷ text "eth" ∷ [])
    let keystore = join_path (monet ∷ text "keystore" ∷ [])
    create_dirs_if_not_exists (babble ∷ eth ∷ keystore ∷ [])
    copy_all (copying network config babble eth keystore n.moniker)
    toml ← lift (
        some_or
          (T.marshal_node (record {
            moniker = n.moniker;
            net_addr = first_part (split b':' (with_port n.net_addr));
          }))
          Error.toml_parse)
    write_to_file (join_path (out_dir ∷ (n.moniker ++ text ".toml") ∷ [])) toml flags
    set_listen_address_in_toml T (join_path (config ∷ text "monetd.toml" ∷ []))
        (with_port n.net_addr)
    generate_babble_private_key E (join_path (keystore ∷ (n.moniker ++ text ".json") ∷ []))
        (join_path (keystore ∷ (n.moniker ++ text ".txt") ∷ [])) n.moniker babble
