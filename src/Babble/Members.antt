-- ===== src/Babble/Members.antt =====
-- Who is a member while a node commits one block after another. Babble, which passes the blocks and
-- applies the receipts of each to its peers, is a parameter, `Consensus`.
use botcoin.Base.{ℕ, ◌≡◌, ◌⊎◌, inl, inr, subst, true, Option, some, List, [], ◌∷◌, All, In}
use botcoin.Base.Result.{ok}
use botcoin.Babble.Types.{peer_add, Peer, Receipt, Block, Chain, CommitResponse}
use botcoin.Babble.{eviction, commit_block}
use botcoin.Babble.Receipts.{IsAuthorised}
use botcoin.Babble.Evictions.{IsUnlisted}
use botcoin.Babble.Commit.{commit_block-IsSafe, commit_block-evicts}

pub record Consensus : Type 1 where
  pub Peers : Type 0
  -- the validators of a round, and those who are members in the end
  pub known : Peers → ℕ → Option (List Peer)
  pub members : Peers → List Peer
  -- what the receipts of a block make of the peers
  pub process : Block → List Receipt → Peers → Peers

-- An accepted request of the peer to join.
abbrev pub Admits : Peer → Receipt → Type 0
Admits v r =
    (r.accepted ≡ true)
    × (r.internal_transaction.kind ≡ peer_add)
    × (r.internal_transaction.peer ≡ v)

abbrev pub AdmittedBy : List Receipt → Peer → Type 0
AdmittedBy rs v = (r : Receipt) × In r rs × Admits v r

-- What Babble promises of receipts: only one that accepts a request to join brings a member, and a
-- removal takes its peer away, unless a request to join of the same peer is accepted with it.
pub record HonoursReceipts (D : Consensus) : Type 0 where
  pub entered :
      (block : Block) (rs : List Receipt) (ps : D.Peers) (v : Peer)
      → In v (D.members (D.process block rs ps))
      → In v (D.members ps) ⊎ AdmittedBy rs v
  pub left :
      (block : Block) (rs : List Receipt) (ps : D.Peers) (v : Peer)
      → In (eviction v) rs
      → In v (D.members (D.process block rs ps))
      → AdmittedBy rs v

All-In : {A : Type 0} (P : A → Type 0) (a : A) (xs : List A) → All P xs → In a xs → P a
All-In P a [] h m = absurd m
All-In P a (x ∷ xs) h (inl e) = rw e h.0
All-In P a (x ∷ xs) h (inr m) = All-In P a xs h.1 m

module _ (C : Chain) (D : Consensus) where
  pub record Replica : Type 0 where
    pub state : C.State
    pub peers : D.Peers

  -- The node commits a block, and Babble applies the receipts of the response.
  abbrev pub Delivers : Replica → Block → Replica → Type 0
  Delivers n block m =
      (res : CommitResponse C) × (commit_block C (some (D.known n.peers)) block n.state
        ≡ (ok res, m.state))
      × (m.peers ≡ D.process block res.receipts n.peers)

  pub data Reach (start : Replica) : Replica → Type 0 where
    here : Reach start start
    next : {n m : Replica} {block : Block} → Reach start n → Delivers n block m → Reach start m

  -- The contract lists the peer in a state that the run has been in.
  abbrev pub WasListed : Replica → Replica → Peer → Type 0
  WasListed start n v =
      (m : Replica) × Reach start m × IsAuthorised C m.state v.pub_key_bytes × Reach m n

  Reach-trans : {a b c : Replica} → Reach a b → Reach b c → Reach a c
  Reach-trans r here = r
  Reach-trans r (next s d) = next (Reach-trans r s) d

  module _ (honours : HonoursReceipts D) where
    -- What a receipt of a committed block admits, the contract lists in the state after the block.
    admitted_listed :
        (n m : Replica) (block : Block) (res : CommitResponse C) (v : Peer)
        → commit_block C (some (D.known n.peers)) block n.state ≡ (ok res, m.state)
        → AdmittedBy res.receipts v
        → IsAuthorised C m.state v.pub_key_bytes
    admitted_listed n m block res v h (r, there, (accepted, adds, same)) =
        elim (All-In _ r res.receipts (commit_block-IsSafe C _ block n.state h) there accepted) [
          | inl removes ↦ absurd (cc)
          | inr (k, listed) ↦
              subst (λ (p : Peer). IsAuthorised C m.state p.pub_key_bytes) same listed
        ]

    one-members :
        (n m : Replica) (block : Block) (v : Peer)
        → Delivers n block m
        → In v (D.members m.peers)
        → In v (D.members n.peers) ⊎ IsAuthorised C m.state v.pub_key_bytes
    one-members n m block v (res, h, shape) there =
        elim (honours.entered block res.receipts n.peers v
          (subst (λ (ps : D.Peers). In v (D.members ps)) shape there)) [
            | inl old ↦ inl old
            | inr admitted ↦ inr (admitted_listed n m block res v h admitted)
          ]

    -- In every node that a run of blocks leads to, a member was a member at the start, or the contract
    -- has listed it in a state that the run has been in.
    pub Reach-members :
        {start n : Replica} (v : Peer)
        → Reach start n
        → In v (D.members n.peers)
        → In v (D.members start.peers) ⊎ WasListed start n v
    Reach-members v here there = inl there
    Reach-members {start} v (next {n} {m} {block} r d) there =
        elim (one-members n m block v d there) [
          | inl old ↦ elim (Reach-members v r old) [
            | inl first ↦ inl first
            | inr (k, to, listed, from) ↦ inr (k, to, listed, next from d)
          ]
          | inr listed ↦ inr (m, next r d, listed, here)
        ]

    not_both : (s : C.State) (v : Peer) → IsAuthorised C s v.pub_key_bytes → IsUnlisted C s v → ⊥
    not_both s v (pk, d, a) (pk', d', a') = cc

    -- After a block, none of the validators of its round whom the contract says it does not list is a
    -- member.
    pub Delivers-members :
        (n m : Replica) (block : Block) {vs : List Peer} (v : Peer)
        → Delivers n block m
        → D.known n.peers block.round_received ≡ some vs
        → In v vs
        → IsUnlisted C m.state v
        → ¬ In v (D.members m.peers)
    Delivers-members n m block v (res, h, shape) k there unlisted still =
        not_both m.state v
          (admitted_listed n m block res v h (
            honours.left block res.receipts n.peers v
              (commit_block-evicts C (D.known n.peers) block n.state h k v there unlisted)
              (subst (λ (ps : D.Peers). In v (D.members ps)) shape still)))
          unlisted

    -- A validator of a block's round whom the contract, in the state after the block, says it does not
    -- list is a member later in the run only if the contract has listed it since.
    pub evicted-WasListed :
        (n m : Replica) (block : Block) {vs : List Peer} {later : Replica} (v : Peer)
        → Delivers n block m
        → D.known n.peers block.round_received ≡ some vs
        → In v vs
        → IsUnlisted C m.state v
        → Reach m later
        → In v (D.members later.peers)
        → WasListed m later v
    evicted-WasListed n m block v d k there unlisted r still = elim (Reach-members v r still) [
      | inl remained ↦ absurd (Delivers-members n m block v d k there unlisted remained)
      | inr listed ↦ listed
    ]
