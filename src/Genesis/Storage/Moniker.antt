-- ===== src/Genesis/Storage/Moniker.antt =====
-- Monikers in the storage: which ones fit, and what is stored.
use Prim.Native.Nat.{zero}
use botcoin.Base.{
  ℕ, suc, Text, ◌+◌, ◌-◌, ◌*◌, ◌≤◌, ◌<◌, ◌≡◌, refl, true, false, List, [], ◌∷◌, ◌++◌, arith, ltb,
  length, take, replicate, All, Bool-cases, inl, inr, ltb→lt,
}
use botcoin.Base.Bytes.Number.{hex_encode}
use botcoin.Base.Result.{ok, panic, >>=-ok}
use botcoin.Base.Dict.{Dict}
use botcoin.Genesis.Storage.{
  MinimalPeerRecord, Ethereum, moniker_value, store_peer, store_peers, get_storage,
}

pub length-hex_encode : (s : List ℕ) → length (hex_encode s) ≡ 2 * length s
unfolding hex_encode
length-hex_encode [] = refl
length-hex_encode (x ∷ s) = omega (arith, length-hex_encode s)

length-take_eq : (n : ℕ) (s : Text) → n ≤ length s → length (take n s) ≡ n
length-take_eq zero s h = refl
length-take_eq (suc n) [] h = absurd (omega arith)
length-take_eq (suc n) (c ∷ s) h = omega (arith, length-take_eq n s (omega arith))

-- A moniker of at most 32 bytes is stored as its bytes in hexadecimal, with zeros behind, up to 64
-- digits.
pub moniker_value-short :
    (s : Text)
    → length s ≤ 32
    → moniker_value s ≡ ok (hex_encode s ++ replicate (64 - 2 * length s) b'0')
unfolding moniker_value
moniker_value-short s h =
    let short : ltb 64 (length s) ≡ false = ground arith in
    let fits : ltb 64 (2 * length s) ≡ false = ground arith in
    rw short (rw length-hex_encode (rw fits))

-- A longer moniker makes `GetStorage` panic, also one that the code cuts to 63 bytes.
pub moniker_value-long : (s : Text) → 32 < length s → moniker_value s ≡ panic
unfolding moniker_value
moniker_value-long s h = elim (Bool-cases (ltb 64 (length s))) [
  | inl long ↦
      let b : 64 < length s = ltb→lt _ _ long in
      rw long (rw (length-hex_encode, length-take_eq 63 s (omega arith)))
  | inr short ↦
      let too_long : ltb 64 (2 * length s) ≡ true = ground arith in
      rw short (rw length-hex_encode (rw too_long))
]

abbrev pub IsShort : MinimalPeerRecord → Type 0
IsShort peer = length peer.moniker ≤ 32

module _ (E : Ethereum) where
  store_peer-total :
      (at : ℕ) (peer : MinimalPeerRecord) (st : Dict Text)
      → IsShort peer
      → (st' : Dict Text) × (store_peer E at peer st ≡ ok st')
  unfolding store_peer
  store_peer-total at peer st h =
      >>=-ok (moniker_value peer.moniker) _ (moniker_value-short peer.moniker h)

  store_peers-total :
      (at : ℕ) (peers : List MinimalPeerRecord) (st : Dict Text)
      → All IsShort peers
      → (st' : Dict Text) × (store_peers E at peers st ≡ ok st')
  unfolding store_peers
  store_peers-total at [] st h = (st, refl)
  store_peers-total at (peer ∷ peers) st h =
      let (st1, e) = store_peer-total at peer st h.0 in
      let (st2, e') = store_peers-total (at + 1) peers st1 h.1 in (st2, rw e e')

  store_peers-panic :
      (at : ℕ) (before : List MinimalPeerRecord) (peer : MinimalPeerRecord)
      (after : List MinimalPeerRecord) (st : Dict Text)
      → All IsShort before
      → 32 < length peer.moniker
      → store_peers E at (before ++ (peer ∷ after)) st ≡ panic
  unfolding store_peers store_peer
  store_peers-panic at [] peer after st h long = rw (moniker_value-long peer.moniker long)
  store_peers-panic at (first ∷ before) peer after st h long =
      rw (moniker_value-short first.moniker h.0)
        (store_peers-panic (at + 1) before peer after _ h.1 long)

  -- The storage is built if no moniker has more than 32 bytes.
  pub get_storage-total :
      (peers : List MinimalPeerRecord)
      → All IsShort peers
      → (st : Dict Text) × (get_storage E peers ≡ ok st)
  unfolding get_storage
  get_storage-total peers h = store_peers-total _ peers _ h

  -- A moniker of more than 32 bytes makes `GetStorage` panic: its padding is repeated a negative number
  -- of times. The limit of 64 in the code is on bytes, and each takes two digits.
  pub get_storage-panic :
      (before : List MinimalPeerRecord) (peer : MinimalPeerRecord) (after : List MinimalPeerRecord)
      → All IsShort before
      → 32 < length peer.moniker
      → get_storage E (before ++ (peer ∷ after)) ≡ panic
  unfolding get_storage
  get_storage-panic before peer after h long = store_peers-panic _ before peer after _ h long
