-- ===== src/Genesis/Storage.antt =====
-- src/genesis/storage.go: `GetStorage` lays the initial whitelist out in the contract's storage.
pub mod Moniker
pub mod Layout
pub mod Distinct
mod Tests
use Prim.Native.Nat.{zero}
use botcoin.Base.{
  ℕ, suc, Text, ◌+◌, ◌-◌, ◌%◌, ◌≤◌, ◌<◌, ◌≡◌, Bool, true, false, Option, none, some, List, [], ◌∷◌,
  ◌++◌, ◌==◌, nat_eq, ltb, if◌then◌else◌, length, take, drop, replicate,
}
use botcoin.Base.Bytes.{text, to_lower, trim_prefix}
use botcoin.Base.Bytes.Number.{hex_ℕ, itoa_ℕ, zero_pad, hex_encode, hex_digit, value_from}
use botcoin.Base.Dict.{Dict, insert}
use botcoin.Base.Result.{Result, ok, panic, err, hang, ◌>>=◌}

pub record MinimalPeerRecord : Type 0 where
  pub address : Text
  pub moniker : Text

-- What go-ethereum gives: `common.HexToHash(s).Bytes()`, 32 bytes, and `crypto.Keccak256`.
pub record Ethereum : Type 0 where
  pub hex_to_hash : Text → List ℕ
  pub keccak256 : List ℕ → List ℕ

-- `fmt.Sprintf("%064d", n)`
unfoldable pub slot : ℕ → Text
slot n = zero_pad 64 (itoa_ℕ n)

-- The count in hexadecimal, in pairs of digits.
unfoldable pub hex_length : ℕ → Text
hex_length n = let s = hex_ℕ n in if length s % 2 == 1 then b'0' ∷ s else s

-- `TrimPrefix(ToLower(address), "0x")`
unfoldable pub bare_address : Text → Text
bare_address address = trim_prefix (text "0x") (to_lower address)

-- `monikerString[0:63]` if it is longer than 64
abbrev pub cut_moniker : Text → Text
cut_moniker s = if ltb 64 (length s) then take 63 s else s

-- `strings.Repeat`, whose count is a difference: it panics below zero.
abbrev pub pad_right : Text → Result Text
pad_right s = if ltb 64 (length s) then panic else ok (s ++ replicate (64 - length s) b'0')

-- The value of a moniker's slot.
unfoldable pub moniker_value : Text → Result Text
moniker_value moniker = pad_right (hex_encode (cut_moniker moniker))

module _ (E : Ethereum) where
  open E use {hex_to_hash, keccak256}

  -- The slot of an address in the mapping at a slot.
  unfoldable pub mapping_slot : Text → ℕ → Text
  mapping_slot addr n = hex_encode (keccak256 (hex_to_hash addr ++ hex_to_hash (slot n)))

  -- The first slot of the array at slot 2, as a number: the digits of a hash always have a value.
  unfoldable pub array_base : ℕ → ℕ
  array_base n = elim (value_from hex_digit 16 0 (hex_encode (keccak256 (hex_to_hash (slot n))))) [
    | none ↦ 0
    | some base ↦ base
  ]

  -- One round of the loop, at a slot of the array.
  unfoldable pub store_peer : ℕ → MinimalPeerRecord → Dict Text → Result (Dict Text)
  store_peer at peer storage =
      let addr = bare_address peer.address in
      let storage1 = insert (zero_pad 64 (hex_ℕ at)) (text "94" ++ addr) storage in
      let storage2 = insert (mapping_slot addr 0) (text "94" ++ addr) storage1 in
      (moniker_value peer.moniker >>= λ value. ok (insert (mapping_slot addr 5) value storage2))

  unfoldable pub store_peers : ℕ → List MinimalPeerRecord → Dict Text → Result (Dict Text)
  store_peers at [] storage = ok storage
  store_peers at (peer ∷ peers) storage = do
    storage' ← store_peer at peer storage
    store_peers (at + 1) peers storage'

  unfoldable pub get_storage : List MinimalPeerRecord → Result (Dict Text)
  get_storage peers =
      store_peers (array_base 2) peers (
        insert (slot 2) (hex_length (length peers))
          (insert (slot 1) (hex_length (length peers)) []))
