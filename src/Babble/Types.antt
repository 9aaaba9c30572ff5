-- ===== src/Babble/Types.antt =====
-- The types of Babble that the proxy reads, and what it calls of Babble, EVM-Lite and go-ethereum.
use botcoin.Base.{ℕ, Text, Bool, Option, List}

-- `hashgraph.PEER_ADD`, `hashgraph.PEER_REMOVE`, and any other value of the type.
pub data Kind : Type 0 where
  peer_add peer_remove other : Kind

pub record Peer : Type 0 where
  pub net_addr : Text
  pub pub_key_bytes : Text
  pub moniker : Text

pub record InternalTransaction : Type 0 where
  pub kind : Kind
  pub peer : Peer
  pub signature : Text

pub record Receipt : Type 0 where
  pub internal_transaction : InternalTransaction
  pub accepted : Bool

pub record Block : Type 0 where
  pub round_received : ℕ
  pub hash : Text
  pub transactions : List Text
  pub internal_transactions : List InternalTransaction

pub record Chain : Type 1 where
  pub State : Type 0
  pub Hash : Type 0
  pub Address : Type 0
  pub Key : Type 0
  pub zero_address : Address
  pub bytes_to_hash : Text → Hash
  -- `true` if the transaction was applied without an error
  pub apply_transaction : Text → ℕ → Hash → Address → State → Bool × State
  pub commit : State → Option Hash × State
  -- the whitelist of the POA contract; `none` is an error. It reads a copy of the state.
  pub check_authorised : Address → State → Option Bool
  pub unmarshal_pubkey : Text → Option Key
  pub pubkey_to_address : Key → Address
  -- `keys.Hash32`, a `uint32`
  pub hash32 : Text → ℕ

pub record CommitResponse (C : Chain) : Type 0 where
  pub state_hash : C.Hash
  pub receipts : List Receipt
