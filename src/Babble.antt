-- ===== src/Babble.antt =====
-- src/babble/inmem_proxy.go: how a Babble block is applied to the state of the EVM, who gets its
-- fees, and which changes to the validator-set it brings. Babble, EVM-Lite and the Ethereum library
-- are a parameter, `Chain`; log lines are left out.
pub mod Types
pub mod Receipts
pub mod Evictions
pub mod Coinbase
pub mod Commit
pub mod Members
mod Roster
mod Tests
use Prim.Native.Nat.{zero}
use botcoin.Base.{
  ℕ, suc, Text, ◌+◌, ◌%◌, ◌^◌, Bool, true, false, Option, none, some, List, [], ◌∷◌, ◌++◌, ◌==◌,
  nat_eq, if◌then◌else◌, length, get_elem?,
}
use botcoin.Base.Result.{Error, Result, ok, err, panic, hang, ◌>>=◌}
use botcoin.Babble.Types.{
  Kind, peer_add, peer_remove, other, Peer, InternalTransaction, Receipt, Block, Chain,
  CommitResponse,
}

-- `tx.AsAccepted()` and `tx.AsRefused()`
abbrev pub as_accepted : InternalTransaction → Receipt
as_accepted tx = record { internal_transaction = tx; accepted = true }

abbrev pub as_refused : InternalTransaction → Receipt
as_refused tx = record { internal_transaction = tx; accepted = false }

-- The receipt that evicts a validator.
abbrev pub eviction : Peer → Receipt
eviction val = as_accepted (record { kind = peer_remove; peer = val; signature = [] })

module _ (C : Chain) where
  open C use {
    State, Hash, Address, Key, apply_transaction, commit, check_authorised, unmarshal_pubkey,
    pubkey_to_address, hash32,
  }

  abbrev authorise : Option Bool → InternalTransaction → Receipt
  authorise none tx = as_refused tx
  authorise (some true) tx = as_accepted tx
  authorise (some false) tx = as_refused tx

  -- A key that does not decode leaves a nil pointer, which is then dereferenced.
  abbrev add_peer : Option Key → State → InternalTransaction → Result (List Receipt)
  add_peer none s tx = panic
  add_peer (some pk) s tx = ok (authorise (check_authorised (pubkey_to_address pk) s) tx ∷ [])

  -- One round of the loop: the receipts that it appends.
  process_one : Kind → State → InternalTransaction → Result (List Receipt)
  process_one peer_add s tx = add_peer (unmarshal_pubkey tx.peer.pub_key_bytes) s tx
  process_one peer_remove s tx = ok (as_accepted tx ∷ [])
  process_one other s tx = ok []

  unfoldable pub process_internal_transactions :
      State → List InternalTransaction → Result (List Receipt)
  unfolding process_one
  process_internal_transactions s [] = ok []
  process_internal_transactions s (tx ∷ txs) = do
    receipts ← process_one tx.kind s tx
    rest ← process_internal_transactions s txs
    ok (receipts ++ rest)

  abbrev evict_unless : Option Bool → Peer → List Receipt
  evict_unless none val = []
  evict_unless (some true) val = []
  evict_unless (some false) val = eviction val ∷ []

  abbrev check_validator : Option Key → State → Peer → List Receipt
  check_validator none s val = []
  check_validator (some pk) s val = evict_unless (check_authorised (pubkey_to_address pk) s) val

  unfoldable pub evictions : State → List Peer → List Receipt
  evictions s [] = []
  evictions s (val ∷ vals) =
      check_validator (unmarshal_pubkey val.pub_key_bytes) s val ++ evictions s vals

  -- The validator-set of a round: Babble may be absent, and may not know the round.
  abbrev pub Validators : Type 0
  Validators = Option (ℕ → Option (List Peer))

  abbrev evictions_of : Option (List Peer) → State → List Receipt
  evictions_of none s = []
  evictions_of (some vals) s = evictions s vals

  unfoldable pub process_evictions : Validators → State → Block → List Receipt
  process_evictions none s block = []
  process_evictions (some get_validator_set) s block =
      evictions_of (get_validator_set block.round_received) s

  abbrev address_of : Option Key → Result Address
  address_of none = err Error.evm
  address_of (some pk) = ok (pubkey_to_address pk)

  abbrev coinbase_peer : Option Peer → Result Address
  coinbase_peer none = panic
  coinbase_peer (some val) = address_of (unmarshal_pubkey val.pub_key_bytes)

  -- `babbleValidators[blockRand%uint32(len(babbleValidators))]`
  pick_validator : ℕ → List Peer → Result Address
  pick_validator rand vals =
      let size = length vals % 2 ^ 32 in
      if size == 0 then panic else coinbase_peer (get_elem? vals (rand % size))

  abbrev pick_from : Option (List Peer) → ℕ → Result Address
  pick_from none rand = err Error.evm
  pick_from (some vals) rand = pick_validator rand vals

  unfoldable pub get_coinbase : Validators → Block → Result Address
  unfolding pick_validator
  get_coinbase none block = ok C.zero_address
  get_coinbase (some get_validator_set) block =
      pick_from (get_validator_set block.round_received) (hash32 block.hash)

  -- The loop over the transactions, from index `i`; a transaction that fails is only logged.
  unfoldable pub apply_transactions : ℕ → List Text → Hash → Address → State → State
  apply_transactions i [] hash coinbase s = s
  apply_transactions i (tx ∷ txs) hash coinbase s =
      apply_transactions (i + 1) txs hash coinbase (apply_transaction tx i hash coinbase s).1

  abbrev respond : Validators → Block → Option Hash → State → Result (CommitResponse C)
  respond b block none s = err Error.evm
  respond b block (some hash) s = do
    receipts ← process_internal_transactions s block.internal_transactions
    ok (record { state_hash = hash; receipts = receipts ++ process_evictions b s block })

  abbrev commit_with :
      Validators → Block → Result Address → State → Result (CommitResponse C) × State
  commit_with b block (ok coinbase) s =
      let s' = apply_transactions 0 block.transactions (C.bytes_to_hash block.hash) coinbase s in
      let (hash, s'') = commit s' in (respond b block hash s'', s'')
  commit_with b block (err e) s = (err e, s)
  commit_with b block panic s = (panic, s)
  commit_with b block hang s = (hang, s)

  unfoldable pub commit_block : Validators → Block → State → Result (CommitResponse C) × State
  commit_block b block s = commit_with b block (get_coinbase b block) s

-- Snapshots are not implemented: none is taken, and restoring one does nothing.
unfoldable pub get_snapshot : ℕ → Result Text
get_snapshot block_index = ok []

unfoldable pub restore : Text → Result (Unit {0})
restore snapshot = ok tt
