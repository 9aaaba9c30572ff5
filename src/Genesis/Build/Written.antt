-- ===== src/Genesis/Build/Written.antt =====
-- What `GenerateGenesisJSON` writes.
use botcoin.Base.{ℕ, Text, ◌≡◌, ◌≢◌, refl, sym, ap, ◌∙◌, subst, Option, none, some, List, [], ◌∷◌}
use botcoin.Base.Dict.{Dict, insert, lookup, lookup-insert_self, lookup-insert_ne}
use botcoin.Base.Bytes.{text}
use botcoin.Base.Bytes.Path.{join_path}
use botcoin.Base.Result.{Result, ok, ok-injective}
use botcoin.Os.{World, file, pure, lift, ignore}
use botcoin.Os.Rules.{M-eq-ok}
use botcoin.Os.Writable.{CanWrite}
use botcoin.Files.{write_to_file, overwrite_silently}
use botcoin.Files.Silent.{ignore-silent}
use botcoin.Genesis.Storage.{MinimalPeerRecord, get_storage}
use botcoin.Genesis.Build.{
  Alloc, Formats, public_key_hex_to_address_hex, mini_peers, alloc_or, build_alloc, genesis_file,
  generate_genesis_json,
}
use botcoin.Genesis.Build.Accounts.{build_alloc-exact}

abbrev pub genesis_path : Text → Text
genesis_path out_dir = join_path (out_dir ∷ text "genesis.json" ∷ [])

module _ (F : Formats) where
  -- Each record has the address of the peer's key, and the peer's moniker.
  abbrev pub Reduces : List F.Peer → List MinimalPeerRecord → Type 0
  Reduces [] [] = Unit {0}
  Reduces [] (r ∷ rs) = ⊥
  Reduces (p ∷ ps) [] = ⊥
  Reduces (p ∷ ps) (r ∷ rs) =
      (public_key_hex_to_address_hex F (F.peer_key p) ≡ ok r.address)
      × (r.moniker ≡ F.peer_moniker p)
      × Reduces ps rs

  mini_peers-Reduces :
      (peers : List F.Peer) (w : World) {rs : List MinimalPeerRecord} {w' : World}
      → mini_peers F peers w ≡ (ok rs, w')
      → (w' ≡ w) × Reduces peers rs
  unfolding mini_peers
  mini_peers-Reduces [] w h = (
    sym (ap (λ (p : Result (List MinimalPeerRecord) × World). p.1) h),
    subst (Reduces []) (ok-injective (ap (λ (p : Result (List MinimalPeerRecord) × World). p.0) h))
        tt,
  )
  mini_peers-Reduces (p ∷ ps) w h =
      let (addr, w1, e, h1) =
        M-eq-ok (lift (public_key_hex_to_address_hex F (F.peer_key p))) _ w h in
      let (rest, w2, e2, h2) = M-eq-ok (mini_peers F ps) _ w1 h1 in
      let (same, r) = mini_peers-Reduces ps w1 e2 in
      (
        sym (ap (λ (p : Result (List MinimalPeerRecord) × World). p.1) h2)
            ∙ same
            ∙ sym (ap (λ (p : Result Text × World). p.1) e),
        subst (Reduces (p ∷ ps))
            (ok-injective (ap (λ (p : Result (List MinimalPeerRecord) × World). p.0) h2))
            (ap (λ (p : Result Text × World). p.0) e, refl, r),
      )

  -- The accounts of the file: those that are given, or those of the keystore.
  abbrev pub AccountsOf : Option Alloc → Text → World → Alloc → Type 0
  AccountsOf alloc keystore w accounts = alloc_or F alloc keystore w ≡ (ok accounts, w)

  alloc_or-eq-ok :
      (alloc : Option Alloc) (keystore : Text) (w : World) {accounts : Alloc} {w' : World}
      → alloc_or F alloc keystore w ≡ (ok accounts, w')
      → (w' ≡ w) × AccountsOf alloc keystore w accounts
  alloc_or-eq-ok none keystore w {accounts} h =
      let same = (build_alloc-exact F keystore w h).0 in
      (same, subst (λ v. build_alloc F keystore w ≡ (ok accounts, v)) same h)
  alloc_or-eq-ok (some alloc) keystore w {accounts} h =
      let same = sym (ap (λ (p : Result Alloc × World). p.1) h) in
      (same, subst (λ v. pure alloc w ≡ (ok accounts, v)) same h)

  -- What the genesis file holds: the contract at the controller's address, with the storage for the
  -- addresses and the monikers of the peers, and the accounts.
  abbrev pub HoldsGenesis : Text → Text → List F.Peer → Option Alloc → Text → World → World → Type 0
  HoldsGenesis out_dir keystore peers alloc controller w w' =
      (mini : List MinimalPeerRecord) × (storage : Dict Text) × (accounts : Alloc) × (m : ℕ)
      × Reduces peers mini
      × (get_storage F.ethereum mini ≡ ok storage)
      × AccountsOf alloc keystore w accounts
      × (lookup (genesis_path out_dir) w'.disk
          ≡ some (file m (F.marshal_genesis (genesis_file F controller storage accounts))))

  -- When the genesis file can be written and its making ends without an error, it holds the storage of
  -- the contract for the addresses and the monikers of the peers, with the accounts that are given or
  -- else those of the keystore; every other path is as it was.
  pub generate_genesis_json-written :
      (out_dir keystore : Text) (peers : List F.Peer) (alloc : Option Alloc) (controller : Text)
      (w : World) {w' : World}
      → CanWrite (genesis_path out_dir) w
      → generate_genesis_json F out_dir keystore peers alloc controller w ≡ (ok tt, w')
      → HoldsGenesis out_dir keystore peers alloc controller w w'
        × ((q : Text) → q ≢ genesis_path out_dir → lookup q w'.disk ≡ lookup q w.disk)
  unfolding generate_genesis_json
  generate_genesis_json-written out_dir keystore peers alloc controller w {w'} can h =
      let (mini, w1, e1, h1) = M-eq-ok (mini_peers F peers) _ w h in
      let (same1, reduced) = mini_peers-Reduces peers w e1 in
      let (storage, w2, e2, h2) = M-eq-ok (lift (get_storage F.ethereum mini)) _ w1 h1 in
      let (accounts, w3, e3, h3) = M-eq-ok (alloc_or F alloc keystore) _ w2 h2 in
      let same2 : w2 ≡ w = sym (ap (λ (p : Result (Dict Text) × World). p.1) e2) ∙ same1 in
      let (same3, held) =
        alloc_or-eq-ok alloc keystore w
          (subst (λ v. alloc_or F alloc keystore v ≡ (ok accounts, w3)) same2 e3) in
      let body = F.marshal_genesis (genesis_file F controller storage accounts) in
      let (m, done) = ignore-silent (genesis_path out_dir) body w can in
      let final : record w { disk = insert (genesis_path out_dir) (file m body) w.disk } ≡ w' =
        ap (λ (p : Result (Unit {0}) × World). p.1)
          (sym done
            ∙ subst
                (λ v.
                  ignore (write_to_file (genesis_path out_dir) body overwrite_silently) v
                  ≡ (ok tt, w'))
                same3 h3) in
      (
        (
          mini,
          storage,
          accounts,
          m,
          reduced,
          ap (λ (p : Result (Dict Text) × World). p.0) e2,
          held,
          subst (λ (v : World). lookup (genesis_path out_dir) v.disk ≡ some (file m body)) final
              (lookup-insert_self (genesis_path out_dir) (file m body) w.disk),
        ),
        λ q ne.
            subst (λ (v : World). lookup q v.disk ≡ lookup q w.disk) final
              (lookup-insert_ne q (genesis_path out_dir) (file m body) w.disk ne),
      )
