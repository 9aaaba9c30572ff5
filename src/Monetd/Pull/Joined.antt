-- ===== src/Monetd/Pull/Joined.antt =====
-- The configuration that `monetd config pull` leaves.
use botcoin.Base.{
  ℕ, Text, Bool, not, ◌≡◌, ◌≢◌, refl, sym, ap, subst, ◌∙◌, ◌++◌, Option, some, List, [], ◌∷◌, All,
  arith,
}
use botcoin.Base.Dict.{lookup}
use botcoin.Base.Bytes.Path.{join_path}
use botcoin.Base.Bytes.{text}
use botcoin.Base.Bytes.Path.Joined.{EndsWith-ne}
use botcoin.Base.Result.{Result, ok}
use botcoin.Os.{◌>>◌, World, pure, lift, file, ignore, read_dir, write_file}
use botcoin.Os.Rules.{M-eq-ok, reading-eq-ok, Leaves, bind-Leaves}
use botcoin.Os.Disk.{write_file-written}
use botcoin.Os.Serves.{Serves-end, ignore-Serves, write_file-Serves}
use botcoin.Crypto.{get_private_key, keyfile_path}
use botcoin.Crypto.Types.{Ethereum}
use botcoin.Monetd.{get_key, create_monet_config_folders, dump_priv_key, dump_global_toml}
use botcoin.Monetd.Dumped.{dump_global_toml-Spares, dump_global_toml-written}
use botcoin.Monetd.Pull.{
  DownloadItem, PullFlags, Warning, pulled, download_all, pull_config, key_or_default,
  get_default_key, only_key, key_monikers, show_ip_warnings,
}
use botcoin.Monetd.Pull.Fetched.{IsFetched, download_all-IsFetched}
use botcoin.Monetd.Pull.Chosen.{IsChosen, key_or_default-IsChosen}
use botcoin.Monetd.Pull.Places.{
  priv_key_path, toml_path, toml-ne, pulled-Nodup, priv_key-other, genesis_peers-EndsWith,
  peers-EndsWith, genesis-EndsWith, toml-EndsWith,
}
use botcoin.Monetd.Pull.Serving.{get_key-Serves, create_dirs-Serves}

read_dir-Leaves : (p : Text) → Leaves (read_dir p)
unfolding read_dir
read_dir-Leaves p w = ground arith

key_or_default-Leaves : (keystore key : Text) → Leaves (key_or_default keystore key)
unfolding get_default_key
key_or_default-Leaves keystore [] w =
    bind-Leaves (read_dir keystore) (λ names. lift (only_key (key_monikers names)))
      (read_dir-Leaves keystore) (λ names v. refl) w
key_or_default-Leaves keystore (c ∷ key) w = refl

module _ (dir : Text) where
  -- What has been downloaded stands after the options are written.
  carry :
      (item : DownloadItem) (toml : Text) (interactive : Bool) (w v v' : World)
      → item.dest ≢ (toml_path dir)
      → v.net ≡ w.net
      → IsFetched v v' item
      → IsFetched w (dump_global_toml toml dir (text "monetd.toml") interactive v').1 item
  carry item toml interactive w v v' ne net (body, m, served, there) = (
    body,
    m,
    ap (λ (f : Text → Option Text). f item.url) (sym net) ∙ served,
    dump_global_toml-Spares item.dest toml dir (text "monetd.toml") interactive ne v' (file m body)
        there,
  )

  -- A chain that writes the key, the files of the network and the options leaves them all.
  filled :
      (toml body peer_addr : Text) (interactive : Bool) (shown : List Warning) (w v : World)
      {warnings : List Warning} {v' : World}
      → v.net ≡ w.net
      → (write_file (priv_key_path dir) body 0o600
            >> (download_all (pulled peer_addr dir) interactive
                >> (dump_global_toml toml dir (text "monetd.toml") interactive >> pure shown)))
          v
        ≡ (ok warnings, v')
      → ((m : ℕ) × (lookup (priv_key_path dir) v'.disk ≡ some (file m body)))
        × All (IsFetched w v') (pulled peer_addr dir)
        × ((n : ℕ) × (lookup (toml_path dir) v'.disk ≡ some (file n toml)))
  unfolding pulled
  filled toml body peer_addr interactive shown w v {warnings} {v'} net h =
      let (u3, v3, e3, h3) = M-eq-ok (write_file (priv_key_path dir) body 0o600) _ v h in
      let (u4, v4, e4, h4) = M-eq-ok (download_all (pulled peer_addr dir) interactive) _ v3 h3 in
      let (u5, v5, e5, h5) =
        M-eq-ok (dump_global_toml toml dir (text "monetd.toml") interactive) _ v4 h4 in
      let (m, there) = write_file-written (priv_key_path dir) body 0o600 v e3 in
      let net3 : v3.net ≡ w.net =
        Serves-end (write_file (priv_key_path dir) body 0o600) v (write_file-Serves _ _ _) e3
        ∙ net in
      let ((peers0, (peers1, (genesis, u))), others) =
        download_all-IsFetched (pulled peer_addr dir) interactive v3 (pulled-Nodup dir peer_addr)
          e4 in
      let ends : (dump_global_toml toml dir (text "monetd.toml") interactive v4).1 ≡ v' =
        ap (λ (p : Result (Unit {0}) × World). p.1) e5
        ∙ ap (λ (p : Result (List Warning) × World). p.1) h5 in
      let fetched : All
          (IsFetched w (dump_global_toml toml dir (text "monetd.toml") interactive v4).1)
          (pulled peer_addr dir) =
        (
          carry _ toml interactive w v3 v4
              (EndsWith-ne _ _ _ _ (genesis_peers-EndsWith dir) (toml-EndsWith dir) refl) net3
              peers0,
          (
            carry _ toml interactive w v3 v4
                (EndsWith-ne _ _ _ _ (peers-EndsWith dir) (toml-EndsWith dir) refl) net3 peers1,
            (
              carry _ toml interactive w v3 v4
                  (EndsWith-ne _ _ _ _ (genesis-EndsWith dir) (toml-EndsWith dir) refl) net3
                  genesis,
              tt,
            ),
          ),
        ) in
      (
        (
          m,
          subst (λ (x : World). lookup (priv_key_path dir) x.disk ≡ some (file m body)) ends
              (dump_global_toml-Spares (priv_key_path dir) toml dir (text "monetd.toml") interactive
                (toml-ne dir) v4 (file m body)
                (others (priv_key_path dir) (priv_key-other dir peer_addr) ∙ there)),
        ),
        subst (λ (x : World). All (IsFetched w x) (pulled peer_addr dir)) ends fetched,
        subst (λ (x : World). (n : ℕ) × (lookup (toml_path dir) x.disk ≡ some (file n toml)))
            (ap (λ (p : Result (List Warning) × World). p.1) h5)
            (dump_global_toml-written toml dir (text "monetd.toml") interactive v4 e5),
      )

-- What the server of one world answers at a URL stands at a path of another.
abbrev pub Arrived : Text → Text → World → World → Type 0
Arrived url dest served w =
    (body : Text) × (m : ℕ) × (served.net url ≡ some body)
    × (lookup dest w.disk ≡ some (file m body))

module _ (E : Ethereum) where
  -- When a configuration is pulled without an error, the key file of the moniker that was given, or the
  -- only one in the keystore, decrypts; in the end `priv_key` holds its private key, `peers.genesis.json`,
  -- `peers.json` and `genesis.json` hold what the server answers at `/genesispeers`, `/peers` and
  -- `/genesis`, and `monetd.toml` holds the options.
  pub pull_config-joined :
      (toml : Text) (flags : PullFlags) (peer_addr : Text) (w : World) {warnings : List Warning}
      {w' : World}
      → pull_config E toml flags peer_addr w ≡ (ok warnings, w')
      → (moniker : Text) × (key : E.Key) × IsChosen flags.keystore flags.key w moniker
        × ((get_private_key E (keyfile_path flags.keystore moniker) flags.password_file w).0
            ≡ ok key)
        × ((m : ℕ) × (lookup (priv_key_path flags.config_dir) w'.disk
              ≡ some (file m (E.private_hex key))))
        × Arrived
            (text "http://" ++ peer_addr ++ text "/genesispeers")
            (join_path (flags.config_dir ∷ text "babble" ∷ text "peers.genesis.json" ∷ []))
            w
            w'
        × Arrived
            (text "http://" ++ peer_addr ++ text "/peers")
            (join_path (flags.config_dir ∷ text "babble" ∷ text "peers.json" ∷ []))
            w
            w'
        × Arrived
            (text "http://" ++ peer_addr ++ text "/genesis")
            (join_path (flags.config_dir ∷ text "eth" ∷ text "genesis.json" ∷ []))
            w
            w'
        × ((n : ℕ) × (lookup (toml_path flags.config_dir) w'.disk ≡ some (file n toml)))
  unfolding pull_config get_key dump_priv_key create_monet_config_folders pulled
  pull_config-joined toml flags peer_addr w h =
      let dir = flags.config_dir in
      let (moniker, e0, h0) =
        reading-eq-ok (key_or_default flags.keystore flags.key) _ w
          (λ m v e.
            ap (λ (p : Result Text × World). p.1) (sym e)
            ∙ key_or_default-Leaves flags.keystore flags.key w)
          h in
      let (key, w1, e1, h1) =
        M-eq-ok (get_key E flags.keystore moniker flags.password_file) _ w h0 in
      let (u2, w2, e2, h2) = M-eq-ok (ignore (create_monet_config_folders dir)) _ w1 h1 in
      let net : w2.net ≡ w.net =
        Serves-end (ignore (create_monet_config_folders dir)) w1
          (ignore-Serves (create_monet_config_folders dir) (create_dirs-Serves _)) e2
        ∙ Serves-end (get_key E flags.keystore moniker flags.password_file) w
            (get_key-Serves E flags.keystore moniker flags.password_file) e1 in
      let (kept, (genesis_peers, (peers, (genesis, u3))), written) =
        filled dir toml (E.private_hex key) peer_addr (not flags.force)
          (show_ip_warnings flags.api flags.listen flags.advertise) w w2 net h2 in
      (
        moniker,
        key,
        key_or_default-IsChosen flags.keystore flags.key w e0,
        ap (λ (p : Result E.Key × World). p.0) e1,
        kept,
        genesis_peers,
        peers,
        genesis,
        written,
      )
