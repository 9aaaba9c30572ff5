-- ===== src/Babble/Commit.antt =====
-- `CommitBlock` as a whole.
use botcoin.Base.{
  ℕ, suc, Text, ◌+◌, ◌≡◌, refl, sym, inl, ap, subst, true, Option, none, some, List, [], ◌∷◌, ◌++◌,
  arith, All, All-append, All-imp, In, In-append_right, length,
}
use native.Mathlib.Nat.{add-zero}
use botcoin.Base.Result.{Result, ok, err, panic, hang, >>=-eq-ok, ok-injective}
use botcoin.Babble.Types.{Peer, Receipt, Block, Chain, CommitResponse}
use botcoin.Babble.{
  Validators, eviction, evictions, evictions_of, process_evictions, process_internal_transactions,
  respond, commit_with, commit_block, get_coinbase, apply_transactions,
}
use botcoin.Babble.Receipts.{
  IsPermitted, process_internal_transactions-IsJustified,
  process_internal_transactions-IsWellFormed, IsWellFormed,
}
use botcoin.Babble.Evictions.{IsUnlisted, In-evictions, evictions-IsEviction}

-- The receipts of a response are those of the block's internal transactions, then the evictions.
abbrev Responds : (C : Chain) → Validators C → Block → C.State → CommitResponse C → Type 0
Responds C b block s res =
    (internal : List Receipt) × (process_internal_transactions C s block.internal_transactions
      ≡ ok internal)
    × (res.receipts ≡ internal ++ process_evictions C b s block)

module _ (C : Chain) (b : Validators C) (block : Block) (s : C.State) where
  respond-Responds :
      (hash : Option C.Hash) (s' : C.State) {res : CommitResponse C}
      → respond C b block hash s' ≡ ok res
      → Responds C b block s' res
  respond-Responds none s' h = absurd (ground arith)
  respond-Responds (some hash) s' h =
      let (internal, e, h') =
        >>=-eq-ok (process_internal_transactions C s' block.internal_transactions) _ h in
      (internal, e, ap (λ (r : CommitResponse C). r.receipts) (sym (ok-injective h')))

  commit_with-Responds :
      (r : Result C.Address) {res : CommitResponse C} {s' : C.State}
      → commit_with C b block r s ≡ (ok res, s')
      → Responds C b block s' res
  commit_with-Responds (ok coinbase) {res} h =
      subst (λ t. Responds C b block t res)
        (ap (λ (p : Result (CommitResponse C) × C.State). p.1) h)
        (respond-Responds _ _ (ap (λ (p : Result (CommitResponse C) × C.State). p.0) h))
  commit_with-Responds (err e) h = absurd (ground arith)
  commit_with-Responds panic h = absurd (ground arith)
  commit_with-Responds hang h = absurd (ground arith)

  commit_block-Responds :
      {res : CommitResponse C} {s' : C.State}
      → commit_block C b block s ≡ (ok res, s')
      → Responds C b block s' res
  unfolding commit_block
  commit_block-Responds h = commit_with-Responds (get_coinbase C b block) h

  -- What a response may accept.
  abbrev IsSafe : C.State → Receipt → Type 0
  IsSafe s' r = r.accepted ≡ true → IsPermitted C s' r.internal_transaction

  evictions_of-IsSafe :
      (s' : C.State) (vs : Option (List Peer)) → All (IsSafe s') (evictions_of C vs s')
  evictions_of-IsSafe s' none = tt
  evictions_of-IsSafe s' (some vs) =
      All-imp _ (IsSafe s') (evictions C s' vs)
        (λ r e a. inl (ap (λ (t : Receipt). t.internal_transaction.kind) e))
        (evictions-IsEviction C s' vs)

  process_evictions-IsSafe :
      (s' : C.State) (b' : Validators C) → All (IsSafe s') (process_evictions C b' s' block)
  unfolding process_evictions
  process_evictions-IsSafe s' none = tt
  process_evictions-IsSafe s' (some known) = evictions_of-IsSafe s' (known block.round_received)

  -- Every receipt of a committed block that accepts its transaction removes a peer, or adds one whose
  -- address the contract lists in the state that the block itself has left.
  pub commit_block-IsSafe :
      {res : CommitResponse C} {s' : C.State}
      → commit_block C b block s ≡ (ok res, s')
      → All
          (λ (r : Receipt). r.accepted ≡ true → IsPermitted C s' r.internal_transaction)
          res.receipts
  commit_block-IsSafe {res} {s'} h =
      let (internal, e, shape) = commit_block-Responds h in
      subst (All (IsSafe s')) (sym shape) (
        All-append (IsSafe s') internal (process_evictions C b s' block)
          (All-imp _ (IsSafe s') internal (λ r j. j.0)
            (process_internal_transactions-IsJustified C s' block.internal_transactions e))
          (process_evictions-IsSafe s' b))

-- A committed block carries the eviction of every validator of its round of whom the contract, in the
-- state that the block has left, says that it is not listed.
pub commit_block-evicts :
    (C : Chain) (known : ℕ → Option (List Peer)) (block : Block) (s : C.State)
    {res : CommitResponse C} {s' : C.State} {vs : List Peer}
    → commit_block C (some known) block s ≡ (ok res, s')
    → known block.round_received ≡ some vs
    → (v : Peer) → In v vs
    → IsUnlisted C s' v
    → In (eviction v) res.receipts
unfolding process_evictions
commit_block-evicts C known block s {res} {s'} {vs} h k v m u =
    let (internal, e, shape) = commit_block-Responds C (some known) block s h in
    subst (In (eviction v)) (sym shape)
      (In-append_right (eviction v) internal _ (rw k (In-evictions C s' vs v m u)))

-- Each transaction is applied once, in order and under its index, whether or not those before it
-- failed.
pub apply_transactions-at :
    (C : Chain) (i : ℕ) (before : List Text) (tx : Text) (after : List Text) (hash : C.Hash)
    (coinbase : C.Address) (s : C.State)
    → apply_transactions C i (before ++ (tx ∷ after)) hash coinbase s
      ≡ apply_transactions C
          (i + length before + 1)
          after
          hash
          coinbase
          (C.apply_transaction tx
            (i + length before)
            hash
            coinbase
            (apply_transactions C i before hash coinbase s)).1
unfolding apply_transactions
apply_transactions-at C i [] tx after hash coinbase s = rw add-zero
apply_transactions-at C i (first ∷ before) tx after hash coinbase s =
    let e : i + 1 + length before ≡ i + suc (length before) = omega arith in
    rw e at (
      apply_transactions-at C (i + 1) before tx after hash coinbase
        (C.apply_transaction first i hash coinbase s).1)

-- Where its coinbase is found, the state that its transactions leave commits, and the key of every
-- peer that asks to join decodes, a block commits: the response has the hash of the commit, and the
-- state is the one that the commit leaves.
pub commit_block-total :
    (C : Chain) (b : Validators C) (block : Block) (s : C.State) (coinbase : C.Address)
    (hash : C.Hash)
    → get_coinbase C b block ≡ ok coinbase
    → let after =
        apply_transactions C 0 block.transactions (C.bytes_to_hash block.hash) coinbase s in
      (C.commit after).0 ≡ some hash
      → All (IsWellFormed C s) block.internal_transactions
      → (res : CommitResponse C) × (commit_block C b block s ≡ (ok res, (C.commit after).1))
        × (res.state_hash ≡ hash)
unfolding commit_block
commit_block-total C b block s coinbase hash found committed good =
    let after = apply_transactions C 0 block.transactions (C.bytes_to_hash block.hash) coinbase s in
    let (internal, e) =
      process_internal_transactions-IsWellFormed C (C.commit after).1 block.internal_transactions
        good in
    (
      record {
        state_hash = hash;
        receipts = internal ++ process_evictions C b (C.commit after).1 block;
      },
      rw found (rw committed (rw e)),
      refl,
    )
