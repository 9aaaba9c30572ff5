-- ===== src/Babble/Roster.antt =====
-- A roster of peers that honours receipts, and a run of two blocks: the first evicts a validator, and
-- the second lets it in again.
use botcoin.Base.{
  Text, ◌≡◌, ◌⊎◌, refl, inl, inr, Bool, true, false, some, List, [], ◌∷◌, ◌==◌, text_eq,
  text_discrete, arith, In, Bool-cases, if◌then◌else◌,
}
use botcoin.Base.Bytes.{text}
use botcoin.Babble.Types.{Kind, peer_add, peer_remove, Peer, Receipt, Block, CommitResponse}
use botcoin.Babble.{
  as_accepted, eviction, commit_block, get_coinbase, pick_validator, apply_transactions,
  process_internal_transactions, process_one, process_evictions, evictions,
}
use botcoin.Babble.Tests.{
  chain, peer, request, block, validators, before, after_block, response, commit_run,
}
use botcoin.Babble.Members.{
  Consensus, Admits, AdmittedBy, HonoursReceipts, Replica, Delivers, here, next, WasListed,
  Reach-members, evicted-WasListed,
}

abbrev without : Text → List Peer → List Peer
without key [] = []
without key (p ∷ ps) =
    let rest = without key ps in if key == p.pub_key_bytes then rest else p ∷ rest

abbrev change : Bool → Kind → Peer → List Peer → List Peer
change true peer_add p ps = p ∷ ps
change true peer_remove p ps = without p.pub_key_bytes ps
change _ _ p ps = ps

abbrev change_by : Receipt → List Peer → List Peer
change_by r = change r.accepted r.internal_transaction.kind r.internal_transaction.peer

abbrev process_receipts : List Receipt → List Peer → List Peer
process_receipts [] ps = ps
process_receipts (r ∷ rs) ps = process_receipts rs (change_by r ps)

-- Every round has the members as its validators.
abbrev roster : Consensus
roster = record {
  Peers = List Peer;
  known = λ ps round. some ps;
  members = λ ps. ps;
  process = λ b rs ps. process_receipts rs ps;
}

In-without : (v : Peer) (key : Text) (ps : List Peer) → In v (without key ps) → In v ps
In-without v key [] h = h
In-without v key (p ∷ ps) h = elim (Bool-cases (key == p.pub_key_bytes)) [
  | inl e ↦ inr (In-without v key ps (rw e at h))
  | inr e ↦
      let kept : In v (p ∷ without key ps) = rw e at h in
      elim kept [ inl q ↦ inl q | inr q ↦ inr (In-without v key ps q) ]
]

not-In-without : (v : Peer) (ps : List Peer) → ¬ In v (without v.pub_key_bytes ps)
not-In-without v [] h = h
not-In-without v (p ∷ ps) h = elim (Bool-cases (v.pub_key_bytes == p.pub_key_bytes)) [
  | inl e ↦ not-In-without v ps (rw e at h)
  | inr e ↦
      let kept : In v (p ∷ without v.pub_key_bytes ps) = rw e at h in
      elim kept [ inl q ↦ absurd (ground arith) | inr q ↦ not-In-without v ps q ]
]

changed :
    (r : Receipt) (accepted : Bool) (k : Kind) (p v : Peer) (ps : List Peer)
    → r.accepted ≡ accepted
    → r.internal_transaction.kind ≡ k
    → r.internal_transaction.peer ≡ p
    → In v (change accepted k p ps)
    → In v ps ⊎ Admits v r
changed r true peer_add p v ps a k e (inl q) = inr (a, k, rw q e)
changed r true peer_add p v ps a k e (inr m) = inl m
changed r true peer_remove p v ps a k e m = inl (In-without v p.pub_key_bytes ps m)
changed r true Kind.other p v ps a k e m = inl m
changed r false k' p v ps a k e m = inl m

roster-entered :
    (rs : List Receipt) (ps : List Peer) (v : Peer)
    → In v (process_receipts rs ps)
    → In v ps ⊎ AdmittedBy rs v
roster-entered [] ps v h = inl h
roster-entered (r ∷ rs) ps v h = elim (roster-entered rs (change_by r ps) v h) [
  | inr (by, m, a) ↦ inr (by, inr m, a)
  | inl m ↦ elim (changed r _ _ _ v ps refl refl refl m) [
    | inl old ↦ inl old
    | inr a ↦ inr (r, inl refl, a)
  ]
]

roster-left :
    (rs : List Receipt) (ps : List Peer) (v : Peer)
    → In (eviction v) rs
    → In v (process_receipts rs ps)
    → AdmittedBy rs v
roster-left [] ps v m h = absurd m
roster-left (r ∷ rs) ps v (inr m) h =
    let (by, at, a) = roster-left rs (change_by r ps) v m h in (by, inr at, a)
roster-left (r ∷ rs) ps v (inl e) h =
    elim (roster-entered rs (without v.pub_key_bytes ps) v (rw (← e) at h)) [
      | inl old ↦ absurd (not-In-without v ps old)
      | inr (by, at, a) ↦ (by, inr at, a)
    ]

roster-HonoursReceipts : HonoursReceipts roster
roster-HonoursReceipts = record {
  entered = λ b rs ps v h. roster-entered rs ps v h;
  left = λ b rs ps v m h. roster-left rs ps v m h;
}

abbrev back : Block
back = record {
  round_received = 4;
  hash = text "a";
  transactions = (4 ∷ []) ∷ [];
  internal_transactions = request peer_add (peer 4) ∷ [];
}

abbrev first : Replica chain roster
first = record { state = before; peers = validators }

abbrev second : Replica chain roster
second = record { state = after_block; peers = peer 5 ∷ peer 1 ∷ peer 2 ∷ [] }

abbrev third : Replica chain roster
third = record { state = 4 ∷ after_block; peers = peer 4 ∷ peer 5 ∷ peer 1 ∷ peer 2 ∷ [] }

first_delivered : Delivers chain roster first block second
unfolding text_discrete
first_delivered = (response, commit_run, refl)

abbrev back_response : CommitResponse chain
back_response = record { state_hash = 4; receipts = as_accepted (request peer_add (peer 4)) ∷ [] }

second_delivered : Delivers chain roster second back third
unfolding commit_block get_coinbase pick_validator apply_transactions process_internal_transactions
    process_one evictions process_evictions
second_delivered = (back_response, refl, refl)

Reach-members_example : In (peer 5) validators ⊎ WasListed chain roster first second (peer 5)
Reach-members_example =
    Reach-members chain roster roster-HonoursReceipts (peer 5) (next here first_delivered)
      (inl refl)

evicted-WasListed_example : WasListed chain roster second third (peer 4)
evicted-WasListed_example =
    evicted-WasListed chain roster roster-HonoursReceipts first second block (peer 4)
      first_delivered refl (inr (inl refl)) (4, refl, refl) (next here second_delivered) (inl refl)
