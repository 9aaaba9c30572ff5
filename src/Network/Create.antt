-- ===== src/Network/Create.antt =====
-- cmd/giverny/commands/network/new.go: `giverny network new`. The keys that are drawn and the random
-- passphrases are parameters, by the index of the node.
pub mod Keyed
mod Tests
use botcoin.Base.{
  ℕ, Text, ◌+◌, Bool, true, not, ◌&&◌, Option, none, some, List, [], ◌∷◌, ◌++◌, ◌==◌, text_eq,
  nat_eq, if◌then◌else◌, leb, length,
}
use botcoin.Base.Bytes.{text, split, join, trim_space}
use botcoin.Base.Bytes.Path.{join_path}
use botcoin.Base.Result.{Error, Result, ok, err}
use botcoin.Os.{M, pure, lift, ◌>>=◌, ◌>>◌, ignore, fail_if, gets, open_path, read_file}
use botcoin.Common.{check_moniker}
use botcoin.Files.{
  write_to_file, write_to_file_private, copy_file_contents, create_dirs_if_not_exists,
  check_if_exists, backup_existing, overwrite_silently,
}
use botcoin.Crypto.{get_passphrase, new_keyfile}
use botcoin.Crypto.Types.{Ethereum}
use botcoin.Genesis.Build.{Formats}
use botcoin.Network.Nodes.{Node, Plan, read_names, make_plan, create_nodes_iteratively}
use botcoin.Network.Config.{DockerConfig, Toml, network_dir, build_network}

abbrev text_of : Result Text → Text
text_of (ok t) = t
text_of _ = []

-- The flags of the command; a number below zero is taken as zero, as the code does.
pub record Flags : Type 0 where
  pub pass_file : Text
  pub generate_pass_key : Bool
  pub no_save_pass_key : Bool
  pub names_file : Text
  pub number_of_nodes : ℕ
  pub init_peers : ℕ
  pub init_ip : Text
  pub no_build : Bool

-- The lines up to the first of 64 KB, at which the scanner stops; its error is not looked at.
unfoldable pub scanned_lines : List Text → List Text
scanned_lines [] = []
scanned_lines (line ∷ lines) = if leb 65536 (length line) then [] else line ∷ scanned_lines lines

module _ (expand_currency : Text → Text) where
  -- A file that opens but cannot be read has no lines.
  unfoldable pub create_nodes_from_names_file : Text → ℕ → Plan → M (List Node)
  create_nodes_from_names_file src_file limit plan = do
    open_path src_file
    content ← gets (λ w. text_of (read_file src_file w).0)
    lift (read_names expand_currency plan limit 0 (scanned_lines (split b'\n' content)))

  unfoldable pub create_nodes_of : Text → ℕ → Plan → M (List Node)
  create_nodes_of [] n plan = pure (create_nodes_iteratively plan n)
  create_nodes_of (c ∷ src_file) n plan = create_nodes_from_names_file (c ∷ src_file) n plan

  unfoldable pub create_nodes : Text → ℕ → ℕ → Text → M (List Node)
  create_nodes src_file n validators initial_ip = do
    plan ← lift (make_plan initial_ip validators)
    create_nodes_of src_file n plan

-- A passphrase that is asked for; the error is dropped.
abbrev pub ask_passphrase : M Text
ask_passphrase w = let (r, w') = get_passphrase [] true w in (ok (text_of r), w')

-- The file that all nodes share, asked for if no flag says otherwise.
unfoldable pub shared_pass_file : Flags → Text → M Text
shared_pass_file flags keystore =
    if not flags.no_save_pass_key && flags.pass_file == [] && not flags.generate_pass_key
    then (do
      passphrase ← ask_passphrase
      ignore
          (write_to_file (join_path (keystore ∷ text "pwd.txt" ∷ [])) passphrase overwrite_silently)
      pure (join_path (keystore ∷ text "pwd.txt" ∷ [])))
    else pure flags.pass_file

-- The passphrase file of one node, in the place `own` if it has its own.
unfoldable pub node_pass_file : Flags → Text → Text → Text → M Text
node_pass_file flags shared own random =
    if flags.generate_pass_key
    then (do ignore (write_to_file own random backup_existing); pure own)
    else if flags.no_save_pass_key
    then pure shared
    else if shared == []
    then (do passphrase ← ask_passphrase; ignore (write_to_file_private own passphrase); pure own)
    else (do ignore (copy_file_contents shared own); pure own)

-- `generateGivernyConfig`: the addresses that docker gets.
abbrev docker_of : Text → Text → List Text → DockerConfig
docker_of name ip (a ∷ b ∷ c ∷ d ∷ rest) = record {
  name = name;
  base_ip = ip;
  subnet = join (text ".") (a ∷ b ∷ []) ++ text ".0.0/16";
  ip_range = join (text ".") (a ∷ b ∷ []) ++ text ".0.0/16";
  gateway = join (text ".") (a ∷ b ∷ c ∷ []) ++ text ".254";
  last_ip = [];
}
docker_of name ip _ = record {
  name = name;
  base_ip = ip;
  subnet = [];
  ip_range = [];
  gateway = [];
  last_ip = [];
}

unfoldable pub docker_config : Text → Text → DockerConfig
docker_config name [] = record {
  name = name;
  base_ip = [];
  subnet = [];
  ip_range = [];
  gateway = [];
  last_ip = [];
}
docker_config name (c ∷ ip) = docker_of name (c ∷ ip) (split b'.' (c ∷ ip))

unfoldable pub generate_giverny_config : Toml → Text → Text → Text → List Node → M (Unit {0})
generate_giverny_config T config_file name init_ip nodes = do
  toml ←
      lift
        (elim (T.marshal
          (record { name = name; docker = docker_config name init_ip; nodes = nodes })) [
            | none ↦ err Error.toml_parse
            | some t ↦ ok t
          ])
  write_to_file config_file toml backup_existing

module _ (E : Ethereum) (random_key : ℕ → Option E.Key) (random_pass : ℕ → Text) where
  -- The loop over the nodes from index `i`: each gets a key file, an address and a public key.
  unfoldable pub generate_node_keys : Flags → Text → Text → ℕ → List Node → M (List Node)
  generate_node_keys flags shared keystore i [] = pure []
  generate_node_keys flags shared keystore i (n ∷ nodes) = do
    pass ←
        node_pass_file flags shared (join_path (keystore ∷ (n.moniker ++ text ".txt") ∷ []))
          (random_pass i)
    key ← new_keyfile E keystore n.moniker pass (random_key i)
    rest ← generate_node_keys flags shared keystore (i + 1) nodes
    pure (record n { address = E.address_eip55 key; pub_key_hex = E.public_hex key } ∷ rest)

  unfoldable pub generate_keys : Text → Flags → Text → List Node → M (List Node)
  generate_keys config_dir flags keystore nodes = do
    ignore (
        create_dirs_if_not_exists
          (config_dir ∷ join_path (config_dir ∷ text "networks" ∷ []) ∷ keystore ∷ []))
    shared ← shared_pass_file flags keystore
    generate_node_keys flags shared keystore 0 nodes

  module _ (expand_currency : Text → Text) (F : Formats) (T : Toml) where
    -- The whole command; `monet_toml` is the text of the default configuration of a node.
    unfoldable pub network_new : Text → Text → Text → Flags → Text → M (Unit {0})
    network_new controller config_dir monet_toml flags arg = do
      fail_if (not (flags.pass_file == []) && flags.generate_pass_key) Error.incompatible_options
      fail_if (flags.names_file == [] && flags.number_of_nodes == 0) Error.no_nodes
      fail_if (not (check_moniker (trim_space arg))) Error.network_name_invalid
      there ← gets (check_if_exists (network_dir config_dir (trim_space arg)))
      fail_if there Error.network_exists
      nodes ←
          create_nodes expand_currency flags.names_file flags.number_of_nodes flags.init_peers
            flags.init_ip
      nodes' ←
          generate_keys config_dir flags
            (join_path (network_dir config_dir (trim_space arg) ∷ text "keystore" ∷ [])) nodes
      generate_giverny_config T
          (join_path (network_dir config_dir (trim_space arg) ∷ text "network.toml" ∷ []))
          (trim_space arg) flags.init_ip nodes'
      ignore (
          write_to_file
            (join_path (network_dir config_dir (trim_space arg) ∷ text "monetd.toml" ∷ []))
            monet_toml overwrite_silently)
      if flags.no_build then pure tt else build_network F T controller config_dir (trim_space arg)
