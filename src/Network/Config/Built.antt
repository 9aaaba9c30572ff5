-- ===== src/Network/Config/Built.antt =====
-- The files of a network that `giverny network build` makes from its description.
use botcoin.Base.{
  ℕ, Text, ◌≡◌, ◌≢◌, refl, sym, ap, ◌∙◌, subst, true, not, some, none, inl, inr, List, [], ◌∷◌,
  Option-cases, text_eq, nat_eq, text_discrete, arith,
}
use botcoin.Base.Dict.{Dict, lookup}
use botcoin.Base.Bytes.{text, split}
use botcoin.Base.Bytes.Path.{join_path, clean_step}
use botcoin.Base.Bytes.Path.Joined.{IsElement, join_path-injective}
use botcoin.Base.Result.{Error, Result, ok, err, ok-injective}
use botcoin.Os.{World, M, ◌>>=◌, file, lift, read_file, or_error}
use botcoin.Os.Rules.{M-eq-ok, fail_if-eq-ok, reading-eq-ok, or_error-eq-ok}
use botcoin.Os.Disk.{read_file-eq-ok}
use botcoin.Os.Writable.{CanWrite, write_file-CanWrite}
use botcoin.Files.{write_to_file, check_if_exists, overwrite_silently}
use botcoin.Files.Silent.{silent-eq-ok}
use botcoin.Common.{check_moniker}
use botcoin.Genesis.Storage.{MinimalPeerRecord, get_storage}
use botcoin.Genesis.Build.{Alloc, Formats, genesis_file}
use botcoin.Genesis.Build.Written.{Reduces, genesis_path, generate_genesis_json-written}
use botcoin.Network.Config.{
  NetworkConfig, Toml, network_dir, add_nodes, generate_babble_files, generate_monet_config,
  build_network,
}
use botcoin.Network.Config.Peers.{
  described_peers, account_in, add_nodes-peers, add_nodes-described, add_nodes-account_in,
  generate_babble_files-written,
}

abbrev peers_path : Text → Text
peers_path dir = join_path (dir ∷ text "peers.json" ∷ [])

abbrev genesis_peers_path : Text → Text
genesis_peers_path dir = join_path (dir ∷ text "peers.genesis.json" ∷ [])

peers-IsElement : IsElement (text "peers.json")
unfolding split clean_step text_discrete
peers-IsElement = (refl, λ rooted stack. refl)

genesis_peers-IsElement : IsElement (text "peers.genesis.json")
unfolding split clean_step text_discrete
genesis_peers-IsElement = (refl, λ rooted stack. refl)

genesis-IsElement : IsElement (text "genesis.json")
unfolding split clean_step text_discrete
genesis-IsElement = (refl, λ rooted stack. refl)

peers-ne : text "peers.json" ≢ text "genesis.json"
peers-ne e = cc

genesis_peers-ne : text "peers.genesis.json" ≢ text "genesis.json"
genesis_peers-ne e = cc

module _ (F : Formats) where
  generate_babble_files-CanWrite :
      (p dir : Text) (peers : List F.Peer) (w : World) {w' : World}
      → CanWrite p w
      → generate_babble_files F dir peers w ≡ (ok tt, w')
      → CanWrite p w'
  unfolding generate_babble_files
  generate_babble_files-CanWrite p dir peers w can h =
      let (u, w1, e, k) =
        M-eq-ok (write_to_file (peers_path dir) (F.marshal_peers peers) overwrite_silently) _ w h in
      let first = silent-eq-ok _ _ w e in
      let second = silent-eq-ok _ _ w1 k in
      subst (CanWrite p) (ap (λ (r : Result (Unit {0}) × World). r.1) second) (
        write_file-CanWrite p (genesis_peers_path dir) (F.marshal_peers peers) 0o644 w1 (
          subst (CanWrite p) (ap (λ (r : Result (Unit {0}) × World). r.1) first)
            (write_file-CanWrite p (peers_path dir) (F.marshal_peers peers) 0o644 w can)))

  -- The files of a network in a directory: both lists of peers, and the genesis file with the contract's
  -- storage for the peers and the accounts of the nodes, each with its tokens and its name.
  abbrev pub HoldsNetwork : Text → NetworkConfig → Text → World → Type 0
  HoldsNetwork controller conf dir w =
      let peers = described_peers F conf.nodes in
      ((m : ℕ) × (lookup (peers_path dir) w.disk ≡ some (file m (F.marshal_peers peers))))
      × ((m : ℕ) × (lookup (genesis_peers_path dir) w.disk ≡ some (file m (F.marshal_peers peers))))
      × ((mini : List MinimalPeerRecord) × (storage : Dict Text) × (accounts : Alloc) × (m : ℕ)
          × Reduces F peers mini
          × ((a : Text) → lookup a accounts ≡ account_in a conf.nodes none)
          × (get_storage F.ethereum mini ≡ ok storage)
          × (lookup (genesis_path dir) w.disk
              ≡ some (file m (F.marshal_genesis (genesis_file F controller storage accounts)))))

  generate_monet_config-written :
      (controller : Text) (conf : NetworkConfig) (dir : Text) (w : World) {w' : World}
      → CanWrite (genesis_path dir) w
      → generate_monet_config F controller conf dir w ≡ (ok tt, w')
      → HoldsNetwork controller conf dir w'
  unfolding generate_monet_config lookup
  generate_monet_config-written controller conf dir w {w'} can h =
      let built = add_nodes F conf.nodes [] [] in
      let (u, w1, e, k) = M-eq-ok (generate_babble_files F dir built.0) _ w h in
      let (peers, genesis_peers) = generate_babble_files-written F dir built.0 w e in
      let ((mini, storage, accounts, m, reduced, stored, held, there), others) =
        generate_genesis_json-written F dir [] built.0 (some built.1) controller w1
          (generate_babble_files-CanWrite (genesis_path dir) dir built.0 w can e) k in
      let same : built.1 ≡ accounts = ok-injective (ap (λ (p : Result Alloc × World). p.0) held) in
      let q = others (peers_path dir) (λ e'.
        peers-ne
          (join_path-injective dir _ _ (λ z. cc) (λ z. cc) peers-IsElement genesis-IsElement e')) in
      let q' = others (genesis_peers_path dir) (λ e'. genesis_peers-ne (
        join_path-injective dir _ _ (λ z. cc) (λ z. cc) genesis_peers-IsElement genesis-IsElement
          e')) in
      subst
        (λ (ps : List F.Peer).
          ((n : ℕ) × (lookup (peers_path dir) w'.disk ≡ some (file n (F.marshal_peers ps))))
          × ((n : ℕ) × (lookup (genesis_peers_path dir) w'.disk
                ≡ some (file n (F.marshal_peers ps))))
          × ((mini' : List MinimalPeerRecord) × (storage' : Dict Text) × (alloc' : Alloc) × (n : ℕ)
              × Reduces F ps mini'
              × ((a : Text) → lookup a alloc' ≡ account_in a conf.nodes none)
              × (get_storage F.ethereum mini' ≡ ok storage')
              × (lookup (genesis_path dir) w'.disk
                  ≡ some (file n (F.marshal_genesis (genesis_file F controller storage' alloc'))))))
        (add_nodes-peers F conf.nodes ∙ add_nodes-described F conf.nodes)
        (
          (peers.0, q ∙ peers.1),
          (genesis_peers.0, q' ∙ genesis_peers.1),
          (
            mini,
            storage,
            built.1,
            m,
            reduced,
            λ a. add_nodes-account_in F a conf.nodes [] [],
            stored,
            subst
                (λ a.
                  lookup (genesis_path dir) w'.disk
                  ≡ some (file m (F.marshal_genesis (genesis_file F controller storage a))))
                (sym same) there,
          ),
        )

  parsed-eq-ok :
      (T : Toml) (toml : Text) (f : NetworkConfig → M (Unit {0})) (w : World) {w' : World}
      → (lift (elim (T.unmarshal toml) [ none ↦ err Error.toml_parse | some c ↦ ok c ]) >>= f) w
        ≡ (ok tt, w')
      → (conf : NetworkConfig) × (T.unmarshal toml ≡ some conf) × (f conf w ≡ (ok tt, w'))
  parsed-eq-ok T toml f w h = elim (Option-cases (T.unmarshal toml)) [
    | inl n ↦ absurd (ground arith)
    | inr (conf, e) ↦ (conf, e, rw e at h)
  ]

  -- When a network whose genesis file can be written is built without an error, its name is valid, the
  -- file `network.toml` of its directory describes it, and the directory holds the files of the
  -- description: the validators that run a node, in order, with their keys, addresses and names, as the
  -- peers and the genesis peers, and the genesis file with the storage for the addresses and monikers of
  -- these peers and, for each address of a node, an account with the tokens and the name of the last such
  -- node.
  pub build_network-built :
      (T : Toml) (controller config_dir name : Text) (w : World) {w' : World}
      → CanWrite (genesis_path (network_dir config_dir name)) w
      → build_network F T controller config_dir name w ≡ (ok tt, w')
      → let dir = network_dir config_dir name in
        (toml : Text) × (m : ℕ) × (conf : NetworkConfig) × (check_moniker name ≡ true)
        × (lookup (join_path (dir ∷ text "network.toml" ∷ [])) w.disk ≡ some (file m toml))
        × (T.unmarshal toml ≡ some conf)
        × HoldsNetwork controller conf dir w'
  unfolding build_network
  build_network-built T controller config_dir name w {w'} can h =
      let dir = network_dir config_dir name in
      let path = join_path (dir ∷ text "network.toml" ∷ []) in
      let (valid, h1) = fail_if-eq-ok (not (check_moniker name)) Error.network_name_invalid _ w h in
      let (there, h2) = fail_if-eq-ok (not (check_if_exists dir w)) Error.no_network_dir _ w h1 in
      let (described, h3) =
        fail_if-eq-ok (not (check_if_exists path w)) Error.no_network_toml _ w h2 in
      let (toml, e, h4) =
        reading-eq-ok (or_error (read_file path) Error.toml_read) _ w
          (λ s w1 q.
            (read_file-eq-ok path w (or_error-eq-ok (read_file path) Error.toml_read w q)).1)
          h3 in
      let (m, same, read, readable) =
        read_file-eq-ok path w (or_error-eq-ok (read_file path) Error.toml_read w e) in
      let (conf, parsed, h5) = parsed-eq-ok T toml _ w h4 in
      (
        toml,
        m,
        conf,
        ground arith,
        read,
        parsed,
        generate_monet_config-written controller conf dir w can h5,
      )
