-- ===== src/Babble/Tests.antt =====
-- Runs of `CommitBlock` on a small chain, and the theorems on them.
use botcoin.Base.{
  ℕ, Text, ◌≡◌, refl, ◌↔◌, inl, inr, Bool, true, false, ◌||◌, Option, none, some, List, [], ◌∷◌,
  ◌++◌, ◌==◌, nat_eq, arith, All, In, length, map, if◌then◌else◌,
}
use botcoin.Base.Bytes.{text}
use botcoin.Base.Result.{ok, panic}
use botcoin.Babble.Types.{
  Kind, peer_add, peer_remove, other, Peer, InternalTransaction, Receipt, Block, Chain,
  CommitResponse,
}
use botcoin.Babble.{
  as_accepted, as_refused, eviction, process_internal_transactions, process_one, evictions,
  process_evictions, get_coinbase, pick_validator, apply_transactions, commit_block,
}
use botcoin.Babble.Receipts.{
  answered, IsPermitted, IsJustified, IsWellFormed, process_internal_transactions-IsJustified,
  process_internal_transactions-answered, process_internal_transactions-panic,
}
use botcoin.Babble.Evictions.{IsUnlisted, evicted_peers, evictions-exact}
use botcoin.Babble.Coinbase.{get_coinbase-validator}
use botcoin.Babble.Commit.{commit_block-IsSafe, commit_block-evicts, commit_block-total}

abbrev pub member : ℕ → List ℕ → Bool
member a [] = false
member a (b ∷ s) = (a == b) || member a s

-- The state is the list of the addresses on the whitelist; a transaction adds those of its bytes, and
-- the address 9 cannot be queried.
abbrev pub listed : ℕ → List ℕ → Option Bool
listed a s = if a == 9 then none else some (member a s)

abbrev pub decode : Text → Option ℕ
decode [] = none
decode (c ∷ key) = some c

abbrev pub chain : Chain
chain = record {
  State = List ℕ;
  Hash = ℕ;
  Address = ℕ;
  Key = ℕ;
  zero_address = 0;
  bytes_to_hash = length;
  apply_transaction = λ tx i hash coinbase s. (true, tx ++ s);
  commit = λ s. (some (length s), s);
  check_authorised = listed;
  unmarshal_pubkey = decode;
  pubkey_to_address = λ pk. pk;
  hash32 = length;
}

abbrev pub peer : ℕ → Peer
peer a = record { net_addr = []; pub_key_bytes = a ∷ []; moniker = [] }

abbrev broken : Peer
broken = record { net_addr = []; pub_key_bytes = []; moniker = [] }

abbrev pub request : Kind → Peer → InternalTransaction
request k p = record { kind = k; peer = p; signature = [] }

abbrev pub requests : List InternalTransaction
requests =
    request peer_add (peer 5)
    ∷ request peer_add (peer 6)
    ∷ request other (peer 7)
    ∷ request peer_remove (peer 8)
    ∷ []

abbrev pub block : Block
block = record {
  round_received = 3;
  hash = text "ab";
  transactions = (5 ∷ []) ∷ (2 ∷ []) ∷ [];
  internal_transactions = requests;
}

abbrev pub validators : List Peer
validators = peer 1 ∷ peer 4 ∷ peer 2 ∷ []

abbrev known : ℕ → Option (List Peer)
known n = some validators

abbrev pub before : List ℕ
before = 1 ∷ []

abbrev pub after_block : List ℕ
after_block = 2 ∷ 5 ∷ 1 ∷ []

abbrev pub answers : List Receipt
answers =
    as_accepted (request peer_add (peer 5))
    ∷ as_refused (request peer_add (peer 6))
    ∷ as_accepted (request peer_remove (peer 8))
    ∷ []

abbrev pub response : CommitResponse chain
response = record { state_hash = 3; receipts = answers ++ (eviction (peer 4) ∷ []) }

coinbase_run : get_coinbase chain (some known) block ≡ ok 2
unfolding get_coinbase pick_validator
coinbase_run = refl

pub commit_run : commit_block chain (some known) block before ≡ (ok response, after_block)
unfolding commit_block get_coinbase pick_validator apply_transactions process_internal_transactions
    process_one evictions process_evictions
commit_run = refl

internal_run : process_internal_transactions chain after_block requests ≡ ok answers
unfolding process_internal_transactions process_one
internal_run = refl

commit_block-IsSafe_example :
    All
      (λ (r : Receipt). r.accepted ≡ true → IsPermitted chain after_block r.internal_transaction)
      response.receipts
commit_block-IsSafe_example = commit_block-IsSafe chain (some known) block before commit_run

commit_block-evicts_example : In (eviction (peer 4)) response.receipts
commit_block-evicts_example =
    commit_block-evicts chain known block before commit_run refl (peer 4) (inr (inl refl))
      (4, refl, refl)

requests-IsWellFormed : (s : List ℕ) → All (IsWellFormed chain s) requests
requests-IsWellFormed s = ((λ e n. cc), ((λ e n. cc), ((λ e n. cc), ((λ e n. cc), tt))))

commit_block-total_example :
    (res : CommitResponse chain) × (commit_block chain (some known) block before
      ≡ (ok res, after_block))
    × (res.state_hash ≡ 3)
unfolding apply_transactions
commit_block-total_example =
    commit_block-total chain (some known) block before 2 3 coinbase_run refl
      (requests-IsWellFormed before)

process_internal_transactions-IsJustified_example : All (IsJustified chain after_block) answers
process_internal_transactions-IsJustified_example =
    process_internal_transactions-IsJustified chain after_block requests internal_run

process_internal_transactions-answered_example :
    map (λ (r : Receipt). r.internal_transaction) answers ≡ answered requests
process_internal_transactions-answered_example =
    process_internal_transactions-answered chain after_block requests internal_run

process_internal_transactions-panic_example :
    process_internal_transactions chain before (requests ++ (request peer_add broken ∷ [])) ≡ panic
process_internal_transactions-panic_example =
    process_internal_transactions-panic chain before requests (request peer_add broken) []
      (requests-IsWellFormed before) refl refl

evictions-exact_example :
    In (peer 4) (evicted_peers (evictions chain after_block (broken ∷ peer 9 ∷ validators)))
    ↔ (In (peer 4) (broken ∷ peer 9 ∷ validators) × IsUnlisted chain after_block (peer 4))
evictions-exact_example = evictions-exact chain after_block (broken ∷ peer 9 ∷ validators) (peer 4)

validators_decode : (v : Peer) → In v validators → (pk : ℕ) × (decode v.pub_key_bytes ≡ some pk)
validators_decode v (inl e) = (1, rw e)
validators_decode v (inr (inl e)) = (4, rw e)
validators_decode v (inr (inr (inl e))) = (2, rw e)
validators_decode v (inr (inr (inr h))) = absurd h

get_coinbase-validator_example :
    (v : Peer) × (pk : ℕ) × In v validators
    × (decode v.pub_key_bytes ≡ some pk)
    × (get_coinbase chain (some known) block ≡ ok pk)
get_coinbase-validator_example =
    get_coinbase-validator chain block known validators refl (omega arith) (omega arith)
      validators_decode
