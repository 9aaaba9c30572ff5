-- ===== src/Babble/Receipts.antt =====
-- `processInternalTransactions`: one receipt for each transaction that adds or removes a peer, in
-- order; what is accepted; when it panics.
use botcoin.Base.{
  Text, ◌≡◌, refl, ◌≢◌, ◌↔◌, ◌⊎◌, inl, inr, subst, Bool, true, false, Option, none, some, List, [],
  ◌∷◌, ◌++◌, arith, map, All, All-append, Option-cases,
}
use botcoin.Base.Result.{ok, panic, >>=-eq-ok, ok-injective}
use mathlib.Core.List.{map-append}
use botcoin.Babble.Types.{Kind, peer_add, peer_remove, other, InternalTransaction, Receipt, Chain}
use botcoin.Babble.{authorise, as_accepted, process_one, process_internal_transactions}

-- The transactions that get a receipt.
abbrev pub answered : List InternalTransaction → List InternalTransaction
answered [] = []
answered (tx ∷ txs) = elim tx.kind [ other ↦ answered txs | _ ↦ tx ∷ answered txs ]

module _ (C : Chain) (s : C.State) where
  -- The key decodes, and the POA contract lists its address.
  abbrev pub IsAuthorised : Text → Type 0
  IsAuthorised key =
      (pk : C.Key) × (C.unmarshal_pubkey key ≡ some pk)
      × (C.check_authorised (C.pubkey_to_address pk) s ≡ some true)

  abbrev pub IsPermitted : InternalTransaction → Type 0
  IsPermitted tx =
      (tx.kind ≡ peer_remove) ⊎ ((tx.kind ≡ peer_add) × IsAuthorised tx.peer.pub_key_bytes)

  abbrev pub IsJustified : Receipt → Type 0
  IsJustified r = (r.accepted ≡ true) ↔ IsPermitted r.internal_transaction

  -- The key of a peer that asks to join decodes.
  abbrev pub IsWellFormed : InternalTransaction → Type 0
  IsWellFormed tx = tx.kind ≡ peer_add → C.unmarshal_pubkey tx.peer.pub_key_bytes ≢ none

  -- How an authorised address shows in the two calls.
  IsAuthorised-check :
      (key : Text) {pk : C.Key} {answer : Option Bool}
      → C.unmarshal_pubkey key ≡ some pk
      → C.check_authorised (C.pubkey_to_address pk) s ≡ answer
      → IsAuthorised key
      → answer ≡ some true
  IsAuthorised-check key d a (pk', d', a') = cc

  authorise-IsJustified :
      (tx : InternalTransaction) (pk : C.Key) (answer : Option Bool)
      → tx.kind ≡ peer_add
      → C.unmarshal_pubkey tx.peer.pub_key_bytes ≡ some pk
      → C.check_authorised (C.pubkey_to_address pk) s ≡ answer
      → IsJustified (authorise C answer tx)
  authorise-IsJustified tx pk none k d a =
      (λ e. cc, λ p. ground (arith, IsAuthorised-check tx.peer.pub_key_bytes d a))
  authorise-IsJustified tx pk (some true) k d a = (λ e. inr (k, (pk, d, a)), λ p. refl)
  authorise-IsJustified tx pk (some false) k d a =
      (λ e. cc, λ p. ground (arith, IsAuthorised-check tx.peer.pub_key_bytes d a))

  -- The receipts of one transaction, by its kind.
  one-IsJustified :
      (tx : InternalTransaction) (k : Kind) (key : Option C.Key) (rs : List Receipt)
      → tx.kind ≡ k
      → C.unmarshal_pubkey tx.peer.pub_key_bytes ≡ key
      → process_one C k s tx ≡ ok rs
      → All IsJustified rs
  unfolding process_one
  one-IsJustified tx peer_add none rs e d h = absurd (ground arith)
  one-IsJustified tx peer_add (some pk) rs e d h =
      let receipt = authorise C (C.check_authorised (C.pubkey_to_address pk) s) tx in
      let shown : ok (receipt ∷ []) ≡ ok rs = rw d at h in
      subst (All IsJustified) (ok-injective shown) ((authorise-IsJustified tx pk _ e d refl, tt))
  one-IsJustified tx peer_remove key rs e d h =
      subst (All IsJustified) (ok-injective h) ((λ a. inl e, λ p. refl), tt)
  one-IsJustified tx other key rs e d h = subst (All IsJustified) (ok-injective h) tt

  -- When the loop ends normally, a receipt accepts its transaction exactly if that removes a peer, or
  -- adds one whose key decodes to an address that the contract lists.
  pub process_internal_transactions-IsJustified :
      (txs : List InternalTransaction) {rs : List Receipt}
      → process_internal_transactions C s txs ≡ ok rs
      → All IsJustified rs
  unfolding process_internal_transactions
  process_internal_transactions-IsJustified [] h = subst (All IsJustified) (ok-injective h) tt
  process_internal_transactions-IsJustified (tx ∷ txs) h =
      let (here, e, h') = >>=-eq-ok (process_one C tx.kind s tx) _ h in
      let (rest, e', h'') = >>=-eq-ok (process_internal_transactions C s txs) _ h' in
      subst (All IsJustified) (ok-injective h'') (
        All-append IsJustified here rest (one-IsJustified tx tx.kind _ here refl refl e)
          (process_internal_transactions-IsJustified txs e'))

  one-answered :
      (tx : InternalTransaction) (k : Kind) (rs : List Receipt)
      → tx.kind ≡ k
      → process_one C k s tx ≡ ok rs
      → map (λ (r : Receipt). r.internal_transaction) rs ≡ answered (tx ∷ [])
  unfolding process_one
  one-answered tx peer_add rs e h = rw e (ground arith)
  one-answered tx peer_remove rs e h = rw e (ground arith)
  one-answered tx other rs e h = rw e (ground arith)

  answered-cons :
      (tx : InternalTransaction) (txs : List InternalTransaction)
      → answered (tx ∷ txs) ≡ answered (tx ∷ []) ++ answered txs
  answered-cons tx txs = ground arith

  -- When the loop ends normally, the receipts answer the transactions that add or remove a peer, each
  -- once and in their order.
  pub process_internal_transactions-answered :
      (txs : List InternalTransaction) {rs : List Receipt}
      → process_internal_transactions C s txs ≡ ok rs
      → map (λ (r : Receipt). r.internal_transaction) rs ≡ answered txs
  unfolding process_internal_transactions
  process_internal_transactions-answered [] h = rw (← ok-injective h)
  process_internal_transactions-answered (tx ∷ txs) h =
      let (here, e, h') = >>=-eq-ok (process_one C tx.kind s tx) _ h in
      let (rest, e', h'') = >>=-eq-ok (process_internal_transactions C s txs) _ h' in
      rw (
        ← ok-injective h'',
        map-append,
        answered-cons tx txs,
        one-answered tx tx.kind here refl e,
        process_internal_transactions-answered txs e',
      )

  one-IsWellFormed :
      (tx : InternalTransaction) (k : Kind)
      → tx.kind ≡ k
      → IsWellFormed tx
      → (rs : List Receipt) × (process_one C k s tx ≡ ok rs)
  unfolding process_one
  one-IsWellFormed tx peer_add e h =
      elim (Option-cases (C.unmarshal_pubkey tx.peer.pub_key_bytes)) [
        | inl n ↦ absurd (h e n)
        | inr (pk, d) ↦ (authorise C (C.check_authorised (C.pubkey_to_address pk) s) tx ∷ [], rw d)
      ]
  one-IsWellFormed tx peer_remove e h = (as_accepted tx ∷ [], refl)
  one-IsWellFormed tx other e h = ([], refl)

  one_panics :
      (tx : InternalTransaction)
      → tx.kind ≡ peer_add
      → C.unmarshal_pubkey tx.peer.pub_key_bytes ≡ none
      → process_one C tx.kind s tx ≡ panic
  unfolding process_one
  one_panics tx k d = rw k (rw d)

  -- The loop ends normally if the key of every peer that asks to join decodes.
  pub process_internal_transactions-IsWellFormed :
      (txs : List InternalTransaction)
      → All IsWellFormed txs
      → (rs : List Receipt) × (process_internal_transactions C s txs ≡ ok rs)
  unfolding process_internal_transactions
  process_internal_transactions-IsWellFormed [] h = ([], refl)
  process_internal_transactions-IsWellFormed (tx ∷ txs) h =
      let (here, e) = one-IsWellFormed tx tx.kind refl h.0 in
      let (rest, e') = process_internal_transactions-IsWellFormed txs h.1 in
      (here ++ rest, rw e (rw e'))

  -- A request to join whose key does not decode makes the node panic, after any requests that are well
  -- formed and whatever follows: the error is logged and the nil key is then read.
  pub process_internal_transactions-panic :
      (before : List InternalTransaction) (tx : InternalTransaction)
      (after : List InternalTransaction)
      → All IsWellFormed before
      → tx.kind ≡ peer_add
      → C.unmarshal_pubkey tx.peer.pub_key_bytes ≡ none
      → process_internal_transactions C s (before ++ (tx ∷ after)) ≡ panic
  unfolding process_internal_transactions
  process_internal_transactions-panic [] tx after h k d = rw (one_panics tx k d)
  process_internal_transactions-panic (first ∷ before) tx after h k d =
      let (here, e) = one-IsWellFormed first first.kind refl h.0 in
      rw e (rw (process_internal_transactions-panic before tx after h.1 k d))
