-- ===== src/Monetd/Built.antt =====
-- What `monetd config build` leaves: the raw key of the node, and its options.
use mathlib.Core.List.{reverse}
use botcoin.Base.{
  ℕ, Text, ◌≡◌, ◌≢◌, refl, ap, subst, none, some, true, List, [], ◌∷◌, ◌++◌, text_eq, nat_eq,
}
use botcoin.Base.Dict.{lookup}
use botcoin.Base.Bytes.{text}
use botcoin.Base.Bytes.Path.{join_path}
use botcoin.Base.Bytes.Path.Joined.{
  IsElement, EndsWith, EndsWith-ne, join_path-EndsWith, join_path_below-EndsWith, differ,
}
use botcoin.Base.Result.{Result, ok}
use botcoin.Os.{World, M, ◌>>◌, file, ignore}
use botcoin.Os.Rules.{M-eq-ok}
use botcoin.Os.Disk.{write_file-written}
use botcoin.Os.Spares.{Spares, bind-Spares, ignore-Spares}
use botcoin.Files.{write_to_file, overwrite_silently}
use botcoin.Files.Silent.{silent-Spares}
use botcoin.Crypto.{get_private_key, keyfile_path}
use botcoin.Crypto.Types.{Ethereum}
use botcoin.Genesis.Build.{Formats, generate_genesis_json}
use botcoin.Genesis.Build.Frame.{generate_genesis_json-Spares}
use botcoin.Monetd.{
  create_monet_config_folders, dump_global_toml, get_key, dump_priv_key, dump_peers, build_config,
}
use botcoin.Monetd.Dumped.{
  priv_key-IsElement, peers-IsElement, genesis_peers-IsElement, genesis-IsElement, toml-IsElement,
  dump_global_toml-Spares, dump_global_toml-written,
}

babble-ne : text "babble" ≢ []
babble-ne e = cc

-- The file of a name ends otherwise than the key file.
EndsOtherwise : Text → Type 0
EndsOtherwise name =
    (name ≢ []) × IsElement name × (differ (reverse (text "priv_key")) (reverse name) ≡ true)

module _ (F : Formats) (dir : Text) where
  abbrev babble_dir : Text
  babble_dir = join_path (dir ∷ text "babble" ∷ [])

  abbrev pub priv_key_path : Text
  priv_key_path = join_path (babble_dir ∷ text "priv_key" ∷ [])

  priv_key-EndsWith : EndsWith priv_key_path (text "priv_key")
  priv_key-EndsWith = join_path-EndsWith babble_dir (text "priv_key") (λ e. cc) priv_key-IsElement

  babble_file-ne :
      (name : Text)
      → EndsOtherwise name
      → priv_key_path ≢ join_path (dir ∷ text "babble" ∷ name ∷ [])
  unfolding EndsOtherwise
  babble_file-ne name (ne, h, d) =
      EndsWith-ne priv_key_path _ (text "priv_key") name priv_key-EndsWith
        (join_path_below-EndsWith dir (text "babble") name babble-ne ne h) d

  other_file-ne :
      (in_dir name : Text) → EndsOtherwise name → priv_key_path ≢ join_path (in_dir ∷ name ∷ [])
  unfolding EndsOtherwise
  other_file-ne in_dir name (ne, h, d) =
      EndsWith-ne priv_key_path _ (text "priv_key") name priv_key-EndsWith
        (join_path-EndsWith in_dir name ne h) d

  peers_file-Spares :
      (name body : Text)
      → EndsOtherwise name
      → Spares priv_key_path (
          ignore
            (write_to_file (join_path (dir ∷ text "babble" ∷ name ∷ [])) body overwrite_silently))
  peers_file-Spares name body h =
      ignore-Spares priv_key_path
        (write_to_file (join_path (dir ∷ text "babble" ∷ name ∷ [])) body overwrite_silently)
        (silent-Spares priv_key_path (join_path (dir ∷ text "babble" ∷ name ∷ [])) body
          (babble_file-ne name h))

  peers-EndsOtherwise : EndsOtherwise (text "peers.json")
  unfolding EndsOtherwise
  peers-EndsOtherwise = (λ e. cc, peers-IsElement, refl)

  genesis_peers-EndsOtherwise : EndsOtherwise (text "peers.genesis.json")
  unfolding EndsOtherwise
  genesis_peers-EndsOtherwise = (λ e. cc, genesis_peers-IsElement, refl)

  genesis-EndsOtherwise : EndsOtherwise (text "genesis.json")
  unfolding EndsOtherwise
  genesis-EndsOtherwise = (λ e. cc, genesis-IsElement, refl)

  toml-EndsOtherwise : EndsOtherwise (text "monetd.toml")
  unfolding EndsOtherwise
  toml-EndsOtherwise = (λ e. cc, toml-IsElement, refl)

  dump_peers-Spares : (peers : List F.Peer) → Spares priv_key_path (dump_peers F dir peers)
  unfolding dump_peers
  dump_peers-Spares peers =
      bind-Spares priv_key_path
        (ignore (
          write_to_file (join_path (dir ∷ text "babble" ∷ text "peers.json" ∷ []))
            (F.marshal_peers peers) overwrite_silently))
        (λ u. ignore (
          write_to_file (join_path (dir ∷ text "babble" ∷ text "peers.genesis.json" ∷ []))
            (F.marshal_peers peers) overwrite_silently))
        (peers_file-Spares _ (F.marshal_peers peers) peers-EndsOtherwise)
        (λ u. peers_file-Spares _ (F.marshal_peers peers) genesis_peers-EndsOtherwise)

  toml_file-Spares :
      (toml : Text) → Spares priv_key_path (dump_global_toml toml dir (text "monetd.toml") true)
  toml_file-Spares toml =
      dump_global_toml-Spares priv_key_path toml dir (text "monetd.toml") true
        (other_file-ne dir (text "monetd.toml") toml-EndsOtherwise)

  module _ (E : Ethereum) where
    -- What follows when the key has been dumped.
    after_key : Text → Text → Text → List F.Peer → M (Unit {0})
    after_key controller toml keystore peers = do
      dump_peers F dir peers
      generate_genesis_json F (join_path (dir ∷ text "eth" ∷ [])) keystore peers none controller
      dump_global_toml toml dir (text "monetd.toml") true

    after_key-Spares :
        (controller toml keystore : Text) (peers : List F.Peer)
        → Spares priv_key_path (after_key controller toml keystore peers)
    unfolding after_key
    after_key-Spares controller toml keystore peers =
        bind-Spares priv_key_path (dump_peers F dir peers) _ (dump_peers-Spares peers) (λ u.
          bind-Spares priv_key_path
            (generate_genesis_json F (join_path (dir ∷ text "eth" ∷ [])) keystore peers none
              controller)
            (λ v. dump_global_toml toml dir (text "monetd.toml") true)
            (generate_genesis_json-Spares F priv_key_path _ keystore peers none controller
              (other_file-ne _ (text "genesis.json") genesis-EndsOtherwise))
            (λ v. toml_file-Spares toml))

    after_key-toml :
        (controller toml keystore : Text) (peers : List F.Peer) (w : World) {w' : World}
        → after_key controller toml keystore peers w ≡ (ok tt, w')
        → (m : ℕ) × (lookup (join_path (dir ∷ text "monetd.toml" ∷ [])) w'.disk
            ≡ some (file m toml))
    unfolding after_key
    after_key-toml controller toml keystore peers w h =
        let (u1, w1, e1, h1) = M-eq-ok (dump_peers F dir peers) _ w h in
        let (u2, w2, e2, h2) =
          M-eq-ok
            (generate_genesis_json F (join_path (dir ∷ text "eth" ∷ [])) keystore peers none
              controller)
            _ w1 h1 in
        dump_global_toml-written toml dir (text "monetd.toml") true w2 h2

    -- When a configuration is built from a key without an error, the key file decrypts with the
    -- passphrase file, or with what the user types; in the end the file `priv_key` of Babble's directory
    -- holds the private key that it gives, in hexadecimal, and `monetd.toml` holds the options.
    pub build_config-key :
        (controller toml keystore password_file address moniker : Text) (w : World) {w' : World}
        → build_config F E controller toml dir keystore password_file address moniker w
          ≡ (ok tt, w')
        → (key : E.Key) × (m : ℕ) × ((get_private_key E
              (keyfile_path keystore moniker)
              password_file
              w).0
            ≡ ok key)
          × (lookup priv_key_path w'.disk ≡ some (file m (E.private_hex key)))
          × ((n : ℕ) × (lookup (join_path (dir ∷ text "monetd.toml" ∷ [])) w'.disk
                ≡ some (file n toml)))
    unfolding build_config get_key dump_priv_key after_key
    build_config-key controller toml keystore password_file address moniker w {w'} h =
        let (key, w1, e1, h1) = M-eq-ok (get_key E keystore moniker password_file) _ w h in
        let (u2, w2, e2, h2) = M-eq-ok (ignore (create_monet_config_folders dir)) _ w1 h1 in
        let (u3, w3, e3, h3) = M-eq-ok (dump_priv_key E babble_dir key) _ w2 h2 in
        let (m, there) = write_file-written priv_key_path (E.private_hex key) 0o600 w2 e3 in
        let peers = F.new_peer (E.public_hex key) (address ++ text ":1337") moniker ∷ [] in
        (
          key,
          m,
          ap (λ (p : Result E.Key × World). p.0) e1,
          subst (λ (v : World). lookup priv_key_path v.disk ≡ some (file m (E.private_hex key)))
              (ap (λ (p : Result (Unit {0}) × World). p.1) h3)
              (after_key-Spares controller toml keystore peers w3 (file m (E.private_hex key))
                there),
          after_key-toml controller toml keystore peers w3 h3,
        )
