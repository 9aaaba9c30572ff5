-- ===== src/Genesis/Storage/Layout.antt =====
-- What stands at each slot of the storage, when the hashes of the slots do not collide.
use botcoin.Base.{
  ℕ, suc, Text, ◌+◌, ◌≡◌, sym, ◌∙◌, ap, subst, List, [], ◌∷◌, ◌++◌, some, arith, length, In, inl,
  inr,
}
use native.Mathlib.Nat.{add-zero}
use botcoin.Base.Bytes.{text}
use botcoin.Base.Bytes.Number.{zero_pad, hex_ℕ}
use botcoin.Base.Dict.{Dict, lookup, insert, lookup-insert_self, lookup-insert_ne}
use botcoin.Base.Result.{ok, >>=-eq-ok, ok-injective}
use botcoin.Genesis.Storage.{
  MinimalPeerRecord, Ethereum, slot, hex_length, bare_address, moniker_value, mapping_slot,
  array_base, store_peer, store_peers, get_storage,
}

abbrev pub Nodup : List Text → Type 0
Nodup [] = Unit
Nodup (k ∷ ks) = ¬ In k ks × Nodup ks

module _ (E : Ethereum) where
  abbrev pub array_slot : ℕ → Text
  array_slot at = zero_pad 64 (hex_ℕ at)

  -- The keys that the loop writes, in order.
  abbrev pub written : ℕ → List MinimalPeerRecord → List Text
  written at [] = []
  written at (peer ∷ peers) =
      array_slot at
      ∷ mapping_slot E (bare_address peer.address) 0
      ∷ mapping_slot E (bare_address peer.address) 5
      ∷ written (at + 1) peers

  -- What one round writes.
  store_peer-writes :
      (at : ℕ) (peer : MinimalPeerRecord) (st : Dict Text) {st' : Dict Text}
      → store_peer E at peer st ≡ ok st'
      → (value : Text) × (moniker_value peer.moniker ≡ ok value)
        × (st'
            ≡ insert (mapping_slot E (bare_address peer.address) 5) value (
                insert
                  (mapping_slot E (bare_address peer.address) 0)
                  (text "94" ++ bare_address peer.address)
                  (insert (array_slot at) (text "94" ++ bare_address peer.address) st)))
  unfolding store_peer
  store_peer-writes at peer st h =
      let (value, e, h') = >>=-eq-ok (moniker_value peer.moniker) _ h in
      (value, e, sym (ok-injective h'))

  -- A key that the loop does not write keeps its value.
  store_peers-frame :
      (k : Text) (at : ℕ) (peers : List MinimalPeerRecord) (st : Dict Text) {st' : Dict Text}
      → ¬ In k (written at peers)
      → store_peers E at peers st ≡ ok st'
      → lookup k st' ≡ lookup k st
  unfolding store_peers
  store_peers-frame k at [] st other h = ap (lookup k) (sym (ok-injective h))
  store_peers-frame k at (peer ∷ peers) st other h =
      let (st1, e, h') = >>=-eq-ok (store_peer E at peer st) _ h in
      let (value, fits, shape) = store_peer-writes at peer st e in
      store_peers-frame k (at + 1) peers st1 (λ m. other (inr (inr (inr m)))) h'
      ∙ ap (lookup k) shape
      ∙ lookup-insert_ne k _ value _ (λ p. other (inr (inr (inl p))))
      ∙ lookup-insert_ne k _ _ _ (λ p. other (inr (inl p)))
      ∙ lookup-insert_ne k _ _ _ (λ p. other (inl p))

  -- The entries of one peer, whose slot in the array is `at`.
  abbrev pub Holds : Dict Text → ℕ → MinimalPeerRecord → Type 0
  Holds st at peer =
      (lookup (array_slot at) st ≡ some (text "94" ++ bare_address peer.address))
      × (lookup (mapping_slot E (bare_address peer.address) 0) st
          ≡ some (text "94" ++ bare_address peer.address))
      × ((value : Text) × (moniker_value peer.moniker ≡ ok value)
          × (lookup (mapping_slot E (bare_address peer.address) 5) st ≡ some value))

  store_peers-Holds :
      (at : ℕ) (before : List MinimalPeerRecord) (peer : MinimalPeerRecord)
      (after : List MinimalPeerRecord) (st : Dict Text) {st' : Dict Text}
      → Nodup (written at (before ++ (peer ∷ after)))
      → store_peers E at (before ++ (peer ∷ after)) st ≡ ok st'
      → Holds st' (at + length before) peer
  unfolding store_peers
  store_peers-Holds at [] peer after st {st'} (n1, (n2, (n3, _))) h =
      let (st1, e, h') = >>=-eq-ok (store_peer E at peer st) _ h in
      let (value, fits, shape) = store_peer-writes at peer st e in
      subst (λ i. Holds st' i peer) (sym (add-zero at))
        (
          store_peers-frame _ (at + 1) after st1 (λ m. n1 (inr (inr m))) h'
              ∙ ap (lookup _) shape
              ∙ lookup-insert_ne _ _ value _ (λ p. n1 (inr (inl p)))
              ∙ lookup-insert_ne _ _ _ _ (λ p. n1 (inl p))
              ∙ lookup-insert_self _ _ _,
          store_peers-frame _ (at + 1) after st1 (λ m. n2 (inr m)) h'
              ∙ ap (lookup _) shape
              ∙ lookup-insert_ne _ _ value _ (λ p. n2 (inl p))
              ∙ lookup-insert_self _ _ _,
          (
            value,
            fits,
            store_peers-frame _ (at + 1) after st1 n3 h'
                ∙ ap (lookup _) shape
                ∙ lookup-insert_self _ value _,
          ),
        )
  store_peers-Holds at (first ∷ before) peer after st {st'} (_, (_, (_, n))) h =
      let (st1, e, h') = >>=-eq-ok (store_peer E at first st) _ h in
      let same : at + 1 + length before ≡ at + suc (length before) = omega arith in
      subst (λ i. Holds st' i peer) same (store_peers-Holds (at + 1) before peer after st1 n h')

  -- When no two of the slots coincide, the storage that `GetStorage` returns holds the number of peers
  -- at slots 1 and 2, and for each peer, in the order of the list, its address in the array that starts
  -- at the hash of slot 2, its address again under the mapping of slot 0, and its moniker under the
  -- mapping of slot 5.
  pub get_storage-layout :
      (before : List MinimalPeerRecord) (peer : MinimalPeerRecord) (after : List MinimalPeerRecord)
      {st : Dict Text}
      → Nodup (slot 1 ∷ slot 2 ∷ written (array_base E 2) (before ++ (peer ∷ after)))
      → get_storage E (before ++ (peer ∷ after)) ≡ ok st
      → (lookup (slot 1) st ≡ some (hex_length (length (before ++ (peer ∷ after)))))
        × (lookup (slot 2) st ≡ some (hex_length (length (before ++ (peer ∷ after)))))
        × Holds st (array_base E 2 + length before) peer
  unfolding get_storage
  get_storage-layout before peer after (one, (two, n)) h = (
    store_peers-frame (slot 1) _ _ _ (λ m. one (inr m)) h
        ∙ lookup-insert_ne (slot 1) (slot 2) _ _ (λ p. one (inl p))
        ∙ lookup-insert_self (slot 1) _ [],
    store_peers-frame (slot 2) _ _ _ two h ∙ lookup-insert_self (slot 2) _ _,
    store_peers-Holds _ before peer after _ n h,
  )
