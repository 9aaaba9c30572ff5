-- ===== src/Network/Export/Key.antt =====
-- The raw key that a node's container gets.
use botcoin.Base.{ℕ, Text, ◌≡◌, ◌≢◌, refl, sym, ap, subst, not, some, [], ◌∷◌}
use botcoin.Base.Dict.{lookup}
use botcoin.Base.Bytes.{text}
use botcoin.Base.Bytes.Path.{join_path}
use botcoin.Base.Result.{Error, Result, ok}
use botcoin.Os.{World, file, fail_if}
use botcoin.Os.Rules.{M-eq-ok, or_error-eq-ok}
use botcoin.Os.Disk.{write_file-written}
use botcoin.Files.{check_if_exists}
use botcoin.Crypto.{get_private_key}
use botcoin.Crypto.Types.{Ethereum}
use botcoin.Monetd.{dump_priv_key}
use botcoin.Network.Export.{own_password_file, generate_babble_private_key}

module _ (E : Ethereum) where
  -- When the key of a node with a name is dumped without an error, the key file decrypts with the
  -- passphrase file, or with what the user types where there is none, and the private key that it gives
  -- is what the file `priv_key` of the directory holds, in hexadecimal.
  pub generate_babble_private_key-written :
      (key_file pwd_file moniker out_dir : Text) (w : World) {w' : World}
      → moniker ≢ []
      → generate_babble_private_key E key_file pwd_file moniker out_dir w ≡ (ok tt, w')
      → (key : E.Key) × (m : ℕ) × ((get_private_key E key_file
            (own_password_file (check_if_exists pwd_file w) pwd_file)
            w).0
          ≡ ok key)
        × (lookup (join_path (out_dir ∷ text "priv_key" ∷ [])) w'.disk
            ≡ some (file m (E.private_hex key)))
  unfolding generate_babble_private_key dump_priv_key
  generate_babble_private_key-written key_file pwd_file [] out_dir w ne h = absurd (ne refl)
  generate_babble_private_key-written key_file pwd_file (c ∷ moniker) out_dir w {w'} ne h =
      let (u, w1, e1, h1) =
        M-eq-ok (fail_if (not (check_if_exists key_file w)) Error.moniker_missing) _ w h in
      let same = ap (λ (p : Result (Unit {0}) × World). p.1) e1 in
      let (key, w2, e2, h2) =
        M-eq-ok
          (get_private_key E key_file (own_password_file (check_if_exists pwd_file w1) pwd_file)) _
          w1 h1 in
      let (m, there) =
        write_file-written _ _ 0o600 w2
          (or_error-eq-ok (dump_priv_key E out_dir key) Error.keyfile_write w2 h2) in
      (
        key,
        m,
        subst
            (λ v.
              (get_private_key E key_file (own_password_file (check_if_exists pwd_file v) pwd_file)
                v).0
              ≡ ok key)
            (sym same) (ap (λ (p : Result E.Key × World). p.0) e2),
        there,
      )
