-- ===== src/Network/Config/Tests.antt =====
-- Two validators, one of them without a node, and an account.
use botcoin.Base.{
  ℕ, Text, ◌≡◌, refl, ap, length, In, inl, inr, true, false, none, some, [], ◌∷◌, text_discrete,
  arith,
}
use botcoin.Base.Dict.{lookup, insert}
use botcoin.Base.Bytes.{text}
use botcoin.Base.Bytes.Path.{join_path, dir}
use botcoin.Base.Result.{ok}
use botcoin.Os.{no_daemon, World, directory, file, read_file, write_file, is_dir, status}
use botcoin.Files.{write_to_file, process_file_options, has_option, check_if_exists}
use botcoin.Base.Bytes.Number.{hex_decode, hex_encode}
use botcoin.Os.Writable.{CanWrite}
use botcoin.Common.{check_moniker}
use botcoin.Genesis.Storage.{get_storage, store_peers, store_peer, moniker_value}
use botcoin.Genesis.Build.{
  Formats, generate_genesis_json, mini_peers, public_key_hex_to_address_hex,
}
use botcoin.Genesis.Build.Written.{genesis_path}
use botcoin.Network.Nodes.{Node}
use botcoin.Network.Config.{
  NetworkConfig, Toml, network_dir, peer_of, add_nodes, generate_babble_files,
  generate_monet_config, build_network,
}
use botcoin.Network.Config.Built.{HoldsNetwork, build_network-built}
use botcoin.Network.Config.Peers.{addresses, add_nodes-alloc}

-- A peer is its name.
abbrev formats : Formats
formats = record {
  Peer = Text;
  new_peer = λ key addr moniker. moniker;
  peer_key = λ p. p;
  peer_moniker = λ p. p;
  ethereum = record { hex_to_hash = λ s. s; keccak256 = λ s. s };
  address_hex = λ s. s;
  marshal_genesis = λ g. [];
  marshal_peers = λ ps. elim ps [ [] ↦ [] | p ∷ rest ↦ p ];
  key_address = λ s. none;
  contract_abi = [];
  contract_code = [];
}

abbrev alice : Node
alice = record {
  moniker = text "alice";
  net_addr = text "10.0.0.1";
  validator = true;
  tokens = text "5";
  pub_key_hex = text "a0";
  address = text "aa";
  non_node = false;
}

abbrev bob : Node
bob = record alice { moniker = text "bob"; address = text "bbb"; non_node = true }

abbrev carol : Node
carol = record alice { moniker = text "carol"; address = text "cccc"; validator = false }

abbrev world : World
world = record {
  disk = (text "/n", directory) ∷ [];
  stdin = [];
  fault = λ c p. false;
  net = λ u. none;
  daemon = no_daemon;
  calls = [];
}

abbrev written : World
written = (generate_babble_files formats (text "/n") (text "alice" ∷ []) world).1

written_run : generate_babble_files formats (text "/n") (text "alice" ∷ []) world ≡ (ok tt, written)
unfolding generate_babble_files write_to_file process_file_options has_option check_if_exists status
    write_file is_dir join_path dir lookup insert text_discrete
written_run = refl

not_carol : ¬ In (text "bbb") (addresses (carol ∷ []))
not_carol (inl e) = omega (arith, ap length e)
not_carol (inr h) = h

add_nodes-alloc_example :
    lookup (text "bbb") (add_nodes formats (alice ∷ bob ∷ carol ∷ []) [] []).1
    ≡ some (record { balance = bob.tokens; moniker = bob.moniker })
add_nodes-alloc_example = add_nodes-alloc formats (alice ∷ []) bob (carol ∷ []) [] [] not_carol

-- A peer with its key and its name.
abbrev keyed : Formats
keyed = record {
  Peer = Text × Text;
  new_peer = λ key addr moniker. (key, moniker);
  peer_key = λ (key, moniker). key;
  peer_moniker = λ (key, moniker). moniker;
  ethereum = record { hex_to_hash = λ s. s; keccak256 = λ s. s };
  address_hex = λ s. s;
  marshal_genesis = λ g. g.poa.address;
  marshal_peers = λ ps. elim ps [ [] ↦ [] | p ∷ rest ↦ p.1 ];
  key_address = λ s. none;
  contract_abi = [];
  contract_code = [];
}

abbrev toml : Toml
toml = record {
  marshal = λ conf. none;
  unmarshal = λ s. some (record {
    name = s;
    docker = record {
      name = [];
      base_ip = [];
      subnet = [];
      ip_range = [];
      gateway = [];
      last_ip = [];
    };
    nodes = alice ∷ bob ∷ carol ∷ [];
  });
}

abbrev described : World
described = record world {
  disk =
      (text "/g/networks/net", directory)
      ∷ (text "/g/networks/net/network.toml", file 0o644 (text "net"))
      ∷ [];
}

abbrev built : World
built = (build_network keyed toml (text "c0") (text "/g") (text "net") described).1

built_run : build_network keyed toml (text "c0") (text "/g") (text "net") described ≡ (ok tt, built)
unfolding build_network generate_monet_config generate_genesis_json mini_peers
    public_key_hex_to_address_hex hex_decode add_nodes peer_of network_dir get_storage store_peers
    store_peer moniker_value hex_encode check_moniker read_file generate_babble_files write_to_file
    process_file_options has_option check_if_exists status write_file is_dir join_path dir lookup
    insert text_discrete
built_run = refl

genesis-CanWrite : CanWrite (genesis_path (network_dir (text "/g") (text "net"))) described
unfolding network_dir join_path lookup is_dir dir text_discrete
genesis-CanWrite = record { writable = refl; fillable = refl; room = inr (refl, refl) }

build_network-built_example :
    let at = network_dir (text "/g") (text "net") in
    (t : Text) × (m : ℕ) × (conf : NetworkConfig) × (check_moniker (text "net") ≡ true)
    × (lookup (join_path (at ∷ text "network.toml" ∷ [])) described.disk ≡ some (file m t))
    × (toml.unmarshal t ≡ some conf)
    × HoldsNetwork keyed (text "c0") conf at built
build_network-built_example =
    build_network-built keyed toml (text "c0") (text "/g") (text "net") described genesis-CanWrite
      built_run
