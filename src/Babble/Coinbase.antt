-- ===== src/Babble/Coinbase.antt =====
-- `getCoinbase`: the fees go to a validator of the round.
use botcoin.Base.{
  ℕ, suc, zero, ◌%◌, ◌^◌, ◌<◌, ◌≡◌, inl, inr, false, Option, some, List, [], ◌∷◌, arith, length,
  get_elem?, get_elem?-total, ◌==◌, nat_eq, In,
}
use botcoin.Base.Result.{ok, panic}
use botcoin.Babble.Types.{Peer, Block, Chain}
use botcoin.Babble.{get_coinbase, pick_validator}

In-get_elem? : (vs : List Peer) (i : ℕ) {v : Peer} → get_elem? vs i ≡ some v → In v vs
In-get_elem? [] i h = cc
In-get_elem? (w ∷ vs) zero h = inl (cc)
In-get_elem? (w ∷ vs) (suc i) h = inr (In-get_elem? vs i h)

pick_validator-eq :
    (C : Chain) (rand : ℕ) (vs : List Peer) (v : Peer) (pk : C.Key)
    → 0 < length vs
    → length vs % 2 ^ 32 ≡ length vs
    → get_elem? vs (rand % length vs) ≡ some v
    → C.unmarshal_pubkey v.pub_key_bytes ≡ some pk
    → pick_validator C rand vs ≡ ok (C.pubkey_to_address pk)
unfolding pick_validator
pick_validator-eq C rand vs v pk p small e d =
    let test : (length vs == 0) ≡ false = ground arith in rw small (rw test (rw e (rw d)))

module _ (C : Chain) (block : Block) (known : ℕ → Option (List Peer)) (vs : List Peer) where
  -- Where Babble knows the round and its validator-set is not empty, has fewer than 2^32 members and
  -- keys that all decode, the coinbase is the address of one of them.
  pub get_coinbase-validator :
      known block.round_received ≡ some vs
      → 0 < length vs
      → length vs < 2 ^ 32
      → ((v : Peer) → In v vs → (pk : C.Key) × (C.unmarshal_pubkey v.pub_key_bytes ≡ some pk))
      → (v : Peer) × (pk : C.Key) × In v vs
        × (C.unmarshal_pubkey v.pub_key_bytes ≡ some pk)
        × (get_coinbase C (some known) block ≡ ok (C.pubkey_to_address pk))
  unfolding get_coinbase
  get_coinbase-validator k p b decodes =
      let small : length vs % 2 ^ 32 ≡ length vs = omega arith in
      let (v, e) = get_elem?-total vs (C.hash32 block.hash % length vs) (grind arith) in
      let (pk, d) = decodes v (In-get_elem? vs _ e) in
      (
        v,
        pk,
        In-get_elem? vs _ e,
        d,
        rw k (pick_validator-eq C (C.hash32 block.hash) vs v pk p small e d),
      )

  -- An empty validator-set makes the node panic: the remainder divides by its size.
  pub get_coinbase-empty :
      known block.round_received ≡ some [] → get_coinbase C (some known) block ≡ panic
  unfolding get_coinbase
  get_coinbase-empty k = rw k
