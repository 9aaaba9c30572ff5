-- ===== src/Network/Create/Tests.antt =====
-- The keys of two nodes, under one passphrase file.
use botcoin.Base.{
  ℕ, Text, ◌≡◌, refl, ap, sym, ◌∙◌, subst, arith, length, true, false, Option, none, some, List, [],
  ◌∷◌, ◌==◌, text_eq, text_discrete, if◌then◌else◌, All, map,
}
use mathlib.Core.Option.{some-injective}
use botcoin.Base.Dict.{lookup, insert}
use botcoin.Base.Bytes.{text, join, split, trim_newlines, trim_space}
use botcoin.Base.Bytes.Path.{dir, join_path}
use botcoin.Base.Result.{ok}
use botcoin.Os.{no_daemon, World, directory, file, status, read_file, write_file, mkdir_all, is_dir}
use botcoin.Common.{check_moniker}
use botcoin.Files.{check_if_exists, create_dirs_if_not_exists}
use botcoin.Crypto.{
  generate_keyfile, keyfile_path, new_keyfile, new_keyfile_full, make_keyfile, choose_key,
  get_passphrase, read_passphrase, encrypt_key, store_keyfile,
}
use botcoin.Crypto.Types.{Ethereum, Decrypts}
use botcoin.Network.Nodes.{Node}
use botcoin.Network.Create.{Flags, node_pass_file, generate_node_keys}
use botcoin.Network.Create.Keyed.{
  AreApart, IsKeyed, own_file, key_file_of, outline, generate_node_keys-IsKeyed,
}

abbrev open_json : Text → Text → Option ℕ
open_json [] auth = none
open_json (key ∷ phrase) auth = if phrase == auth then some key else none

abbrev ethereum : Ethereum
ethereum = record {
  Key = ℕ;
  Cipher = Text;
  load_ecdsa = λ s. none;
  address_hex = λ key. key ∷ [];
  address_eip55 = λ key. key ∷ [];
  public_hex = λ key. key ∷ [];
  private_hex = λ key. key ∷ [];
  key_id = λ key. [];
  encrypt_data = λ key auth. some (key ∷ auth);
  marshal = λ json. json.crypto;
  decrypt_key = open_json;
}

ethereum-Decrypts : Decrypts ethereum
ethereum-Decrypts key auth crypto address public_key id e =
    subst (λ c. open_json c auth ≡ some key) (some-injective _ _ e) (ground arith)

abbrev node : Text → Node
node moniker = record {
  moniker = moniker;
  net_addr = text "10.0.0.1";
  validator = true;
  tokens = text "5";
  pub_key_hex = [];
  address = [];
  non_node = false;
}

abbrev nodes : List Node
nodes = node (text "a") ∷ node (text "b") ∷ []

abbrev flags : Flags
flags = record {
  pass_file = [];
  generate_pass_key = false;
  no_save_pass_key = true;
  names_file = [];
  number_of_nodes = 2;
  init_peers = 2;
  init_ip = [];
  no_build = true;
}

abbrev world : World
world = record {
  disk = (text "/k", directory) ∷ (text "/pwd", file 0o600 (text "secret\n")) ∷ [];
  stdin = [];
  fault = λ c p. false;
  net = λ url. none;
  daemon = no_daemon;
  calls = [];
}

abbrev keyed : World
keyed =
    (generate_node_keys ethereum (λ i. some i) (λ i. []) flags (text "/pwd") (text "/k") 3 nodes
      world).1

abbrev made : List Node
made =
    record (node (text "a")) { address = 3 ∷ []; pub_key_hex = 3 ∷ [] }
    ∷ record (node (text "b")) { address = 4 ∷ []; pub_key_hex = 4 ∷ [] }
    ∷ []

made_run :
    generate_node_keys ethereum
      (λ i. some i)
      (λ i. [])
      flags
      (text "/pwd")
      (text "/k")
      3
      nodes
      world
    ≡ (ok made, keyed)
unfolding generate_node_keys node_pass_file new_keyfile new_keyfile_full create_dirs_if_not_exists
    check_if_exists check_moniker trim_space keyfile_path join_path generate_keyfile make_keyfile
    choose_key get_passphrase read_passphrase encrypt_key store_keyfile status lookup insert
    text_discrete read_file mkdir_all is_dir dir write_file trim_newlines
made_run = refl

key_file_a : key_file_of ethereum (text "/k") (node (text "a")) ≡ text "/k/a.json"
unfolding keyfile_path join_path join split text_discrete
key_file_a = refl

own_file_b : own_file ethereum (text "/k") (node (text "b")) ≡ text "/k/b.txt"
unfolding join_path join split text_discrete
own_file_b = refl

nodes-AreApart : AreApart ethereum (text "/k") nodes
nodes-AreApart = (((λ e. omega (arith, ap length (sym key_file_a ∙ e ∙ own_file_b))), tt), (tt, tt))

generate_node_keys-IsKeyed_example :
    All (IsKeyed ethereum (text "/k") keyed) made
    × (map (outline ethereum) made ≡ map (outline ethereum) nodes)
generate_node_keys-IsKeyed_example =
    generate_node_keys-IsKeyed ethereum (λ i. some i) (λ i. []) flags (text "/pwd") (text "/k") 3
      nodes world ethereum-Decrypts refl nodes-AreApart made_run
