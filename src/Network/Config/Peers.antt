-- ===== src/Network/Config/Peers.antt =====
-- Which nodes become peers, which accounts they get, and what the peers' files hold.
use mathlib.Core.List.{append-nil, append_assoc}
use botcoin.Base.{
  ℕ, Text, ◌≡◌, ◌≢◌, refl, sym, ap, ◌∙◌, subst, Bool, not, ◌&&◌, ◌==◌, nat_eq, Option, some, List,
  [], ◌∷◌, ◌++◌, map, arith, inl, inr, In, Bool-cases, if◌then◌else◌, text_discrete, text_eq,
}
use botcoin.Base.Dict.{insert, lookup, lookup-insert}
use botcoin.Base.Bytes.{text, contains}
use botcoin.Base.Bytes.Path.{join_path}
use botcoin.Base.Result.{Result, ok}
use botcoin.Os.{World, file, write_file}
use botcoin.Os.Rules.{M-eq-ok}
use botcoin.Os.Disk.{write_file-written, write_file-others}
use botcoin.Files.{write_to_file, overwrite_silently}
use botcoin.Files.Silent.{silent-eq-ok}
use botcoin.Genesis.Build.{Alloc, AllocRecord, Formats}
use botcoin.Network.Nodes.{Node}
use botcoin.Network.Config.{account_of, peer_of, with_port, add_nodes, generate_babble_files}

-- A node that takes part in the consensus from the start.
abbrev pub is_validator : Node → Bool
is_validator n = n.validator && not n.non_node

abbrev pub validators_of : List Node → List Node
validators_of [] = []
validators_of (n ∷ nodes) =
    let rest = validators_of nodes in if is_validator n then n ∷ rest else rest

abbrev pub addresses : List Node → List Text
addresses = map (λ (n : Node). n.address)

-- The account of an address, from the last node that has it, and else what there was.
abbrev pub account_in : Text → List Node → Option AllocRecord → Option AllocRecord
account_in a [] there = there
account_in a (n ∷ nodes) there =
    account_in a nodes
      (if a == n.address then some (record { balance = n.tokens; moniker = n.moniker }) else there)

module _ (F : Formats) where
  -- A peer for each validator that runs a node: its key, its address, with the port 1337 unless it has a
  -- port, and its name.
  abbrev pub described_peers : List Node → List F.Peer
  described_peers nodes =
      map
        (λ (n : Node).
          F.new_peer n.pub_key_hex
            (if contains b':' n.net_addr then n.net_addr else n.net_addr ++ text ":1337") n.moniker)
        (validators_of nodes)

  pub add_nodes-described :
      (nodes : List Node) → map (peer_of F) (validators_of nodes) ≡ described_peers nodes
  unfolding peer_of with_port
  add_nodes-described nodes = refl

  pub add_nodes-account_in :
      (a : Text) (nodes : List Node) (peers : List F.Peer) (alloc : Alloc)
      → lookup a (add_nodes F nodes peers alloc).1 ≡ account_in a nodes (lookup a alloc)
  unfolding add_nodes account_of
  add_nodes-account_in a [] peers alloc = refl
  add_nodes-account_in a (n ∷ nodes) peers alloc =
      add_nodes-account_in a nodes _ _
      ∙ ap (account_in a nodes) (lookup-insert a n.address (account_of n) alloc)

  add_nodes-peers_from :
      (nodes : List Node) (peers : List F.Peer) (alloc : Alloc)
      → (add_nodes F nodes peers alloc).0 ≡ peers ++ map (peer_of F) (validators_of nodes)
  unfolding add_nodes peer_of
  add_nodes-peers_from [] peers alloc = sym (append-nil _)
  add_nodes-peers_from (n ∷ nodes) peers alloc = elim (Bool-cases n.validator) [
    | inl v ↦ elim (Bool-cases n.non_node) [
      | inl idle ↦ rw (v, idle) (add_nodes-peers_from nodes peers _)
      | inr runs ↦
          rw (v, runs)
            (add_nodes-peers_from nodes (peers ++ (peer_of F n ∷ [])) _ ∙ append_assoc peers _ _)
    ]
    | inr v ↦ rw v (add_nodes-peers_from nodes peers _)
  ]

  -- The peers are those of the validators that run a node, in the order of the nodes.
  pub add_nodes-peers :
      (nodes : List Node) → (add_nodes F nodes [] []).0 ≡ map (peer_of F) (validators_of nodes)
  add_nodes-peers nodes = add_nodes-peers_from nodes [] []

  add_nodes-frame :
      (a : Text) (nodes : List Node) (peers : List F.Peer) (alloc : Alloc)
      → ¬ In a (addresses nodes)
      → lookup a (add_nodes F nodes peers alloc).1 ≡ lookup a alloc
  unfolding add_nodes
  add_nodes-frame a [] peers alloc h = refl
  add_nodes-frame a (n ∷ nodes) peers alloc h =
      add_nodes-frame a nodes _ _ (λ m. h (inr m))
      ∙ lookup_other a n.address (account_of n) alloc (λ e. h (inl e))
    where
      lookup_other :
          (j k : Text) (v : AllocRecord) (d : Alloc) → j ≢ k → lookup j (insert k v d) ≡ lookup j d
      lookup_other j k v d ne = ground (arith, lookup-insert j k v d)

  -- Every node, a validator or not, has an account with its name and its tokens, if no node behind it
  -- has the same address.
  pub add_nodes-alloc :
      (before : List Node) (n : Node) (after : List Node) (peers : List F.Peer) (alloc : Alloc)
      → ¬ In n.address (addresses after)
      → lookup n.address (add_nodes F (before ++ (n ∷ after)) peers alloc).1
        ≡ some (record { balance = n.tokens; moniker = n.moniker })
  unfolding add_nodes account_of
  add_nodes-alloc [] n after peers alloc h =
      add_nodes-frame n.address after _ _ h ∙ lookup_self n.address (account_of n) alloc
    where
      lookup_self : (k : Text) (v : AllocRecord) (d : Alloc) → lookup k (insert k v d) ≡ some v
      lookup_self k v d = ground (arith, lookup-insert k k v d)
  add_nodes-alloc (m ∷ before) n after peers alloc h = add_nodes-alloc before n after _ _ h

  -- What stands after two writes of one text.
  both_written :
      (p q body : Text) (w1 w2 w3 : World)
      → write_file p body 0o644 w1 ≡ (ok tt, w2)
      → write_file q body 0o644 w2 ≡ (ok tt, w3)
      → (m : ℕ) × (lookup p w3.disk ≡ some (file m body))
  both_written p q body w1 w2 w3 h k = elim (text_discrete p q) [
    | yes e ↦
        subst (λ r. (m : ℕ) × (lookup r w3.disk ≡ some (file m body))) (sym e)
          (write_file-written q body 0o644 w2 k)
    | no ne ↦
        let (m, there) = write_file-written p body 0o644 w1 h in
        (
          m,
          ap (λ (r : Result (Unit {0}) × World). lookup p r.1.disk) (sym k)
              ∙ write_file-others q body 0o644 w2 p ne
              ∙ there,
        )
  ]

  -- When the files of Babble are written without an error, both the peers and the genesis peers hold the
  -- JSON of the peers.
  pub generate_babble_files-written :
      (dir : Text) (peers : List F.Peer) (w : World) {w' : World}
      → generate_babble_files F dir peers w ≡ (ok tt, w')
      → ((m : ℕ) × (lookup (join_path (dir ∷ text "peers.json" ∷ [])) w'.disk
            ≡ some (file m (F.marshal_peers peers))))
        × ((m : ℕ) × (lookup (join_path (dir ∷ text "peers.genesis.json" ∷ [])) w'.disk
              ≡ some (file m (F.marshal_peers peers))))
  unfolding generate_babble_files
  generate_babble_files-written dir peers w {w'} h =
      let (u, w1, e, k) =
        M-eq-ok
          (write_to_file (join_path (dir ∷ text "peers.json" ∷ [])) (F.marshal_peers peers)
            overwrite_silently)
          _ w h in
      let first = silent-eq-ok _ _ w e in
      let second = silent-eq-ok _ _ w1 k in
      (both_written _ _ _ w w1 w' first second, write_file-written _ _ 0o644 w1 second)
