-- ===== src/Genesis/Build/Frame.antt =====
-- What `GenerateGenesisJSON` leaves alone.
use botcoin.Base.{
  Text, ◌≢◌, Option, none, some, List, [], ◌∷◌, ◌==◌, text_eq, Bool-cases, inl, inr, if◌then◌else◌,
}
use botcoin.Base.Bytes.{text}
use botcoin.Base.Bytes.Path.{join_path, ext}
use botcoin.Os.{pure, lift, read_file, read_dir}
use botcoin.Os.Rules.{Same-refl, Reads, bind-Reads}
use botcoin.Os.Disk.{read_file-Reads, read_dir-Reads}
use botcoin.Os.Spares.{Spares, Reads-Spares, bind-Spares, ignore-Spares}
use botcoin.Files.Silent.{silent-Spares}
use botcoin.Genesis.Storage.{get_storage}
use botcoin.Genesis.Build.{
  Alloc, Formats, public_key_hex_to_address_hex, mini_peers, add_account, add_accounts, build_alloc,
  alloc_or, generate_genesis_json,
}

module _ (F : Formats) where
  mini_peers-Reads : (peers : List F.Peer) → Reads (mini_peers F peers)
  unfolding mini_peers
  mini_peers-Reads [] = λ w. Same-refl w
  mini_peers-Reads (p ∷ ps) =
      bind-Reads (lift (public_key_hex_to_address_hex F (F.peer_key p))) _ (λ w. Same-refl w)
        (λ addr. bind-Reads (mini_peers F ps) _ (mini_peers-Reads ps) (λ rest w. Same-refl w))

  add_account-Reads : (dir name : Text) (alloc : Alloc) → Reads (add_account F dir name alloc)
  unfolding add_account
  add_account-Reads dir name alloc =
      bind-Reads (read_file (join_path (dir ∷ name ∷ []))) _ (read_file-Reads _)
        (λ json. bind-Reads (lift _) _ (λ w. Same-refl w) (λ addr w. Same-refl w))

  one_account-Reads :
      (dir name : Text) (alloc : Alloc)
      → Reads (if ext name == text ".json" then add_account F dir name alloc else pure alloc)
  one_account-Reads dir name alloc w = elim (Bool-cases (ext name == text ".json")) [
    | inl e ↦ rw e (add_account-Reads dir name alloc w)
    | inr e ↦ rw e (Same-refl w)
  ]

  add_accounts-Reads :
      (dir : Text) (names : List Text) (alloc : Alloc) → Reads (add_accounts F dir names alloc)
  unfolding add_accounts
  add_accounts-Reads dir [] alloc = λ w. Same-refl w
  add_accounts-Reads dir (name ∷ names) alloc =
      bind-Reads (if ext name == text ".json" then add_account F dir name alloc else pure alloc) _
        (one_account-Reads dir name alloc) (λ alloc'. add_accounts-Reads dir names alloc')

  alloc_or-Reads : (alloc : Option Alloc) (keystore : Text) → Reads (alloc_or F alloc keystore)
  unfolding build_alloc
  alloc_or-Reads none keystore =
      bind-Reads (read_dir keystore) _ (read_dir-Reads keystore)
        (λ names. add_accounts-Reads keystore names [])
  alloc_or-Reads (some alloc) keystore = λ w. Same-refl w

  -- Making the genesis file spares every other path, whatever the outcome.
  pub generate_genesis_json-Spares :
      (q out_dir keystore : Text) (peers : List F.Peer) (alloc : Option Alloc) (controller : Text)
      → q ≢ join_path (out_dir ∷ text "genesis.json" ∷ [])
      → Spares q (generate_genesis_json F out_dir keystore peers alloc controller)
  unfolding generate_genesis_json
  generate_genesis_json-Spares q out_dir keystore peers alloc controller ne =
      bind-Spares q (mini_peers F peers) _
        (Reads-Spares q (mini_peers F peers) (mini_peers-Reads peers))
        (λ mini.
          bind-Spares q (lift (get_storage F.ethereum mini)) _ (λ w e h. h)
            (λ storage.
              bind-Spares q (alloc_or F alloc keystore) _
                (Reads-Spares q (alloc_or F alloc keystore) (alloc_or-Reads alloc keystore))
                (λ accounts. ignore-Spares q _ (silent-Spares q _ _ ne))))
