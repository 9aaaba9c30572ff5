-- ===== src/Genesis/Build.antt =====
-- src/genesis/genesis.go: the genesis file, from the peers and the accounts. The JSON of the files and
-- the addresses of go-ethereum are a parameter, `Formats`.
pub mod Accounts
pub mod Written
pub mod Frame
mod Tests
use botcoin.Base.{
  ℕ, Text, Option, none, some, List, [], ◌∷◌, ◌==◌, text_eq, nat_eq, if◌then◌else◌, drop, length,
  take, ◌-◌,
}
use botcoin.Base.Dict.{Dict, insert}
use botcoin.Base.Bytes.{text}
use botcoin.Base.Bytes.Path.{join_path, ext}
use botcoin.Base.Bytes.Number.{hex_decode}
use botcoin.Base.Result.{Error, Result, ok, err, panic}
use botcoin.Os.{M, pure, lift, ◌>>=◌, ignore, read_file, read_dir}
use botcoin.Files.{write_to_file, overwrite_silently}
use botcoin.Genesis.Storage.{MinimalPeerRecord, Ethereum, get_storage}

pub record AllocRecord : Type 0 where
  pub balance : Text
  pub moniker : Text

abbrev pub Alloc : Type 0
Alloc = Dict AllocRecord

pub record Poa : Type 0 where
  pub address : Text
  pub abi : Text
  pub code : Text
  pub storage : Dict Text

pub record JsonGenesisFile : Type 0 where
  pub alloc : Alloc
  pub poa : Poa

-- What the files take from Babble, go-ethereum and `encoding/json`, and the contract, which is
-- generated.
pub record Formats : Type 1 where
  pub Peer : Type 0
  -- `peers.NewPeer`, of a public key, an address and a name
  pub new_peer : Text → Text → Text → Peer
  pub peer_key : Peer → Text
  pub peer_moniker : Peer → Text
  pub ethereum : Ethereum
  -- `BytesToAddress(b).Hex()`
  pub address_hex : List ℕ → Text
  pub marshal_genesis : JsonGenesisFile → Text
  pub marshal_peers : List Peer → Text
  -- the address in the JSON of a key file
  pub key_address : Text → Option Text
  pub contract_abi : Text
  pub contract_code : Text

abbrev pub default_account_balance : Text
default_account_balance = text "1234567890000000000000"

-- `strings.TrimSuffix(name, ".json")`, of a name that ends so
abbrev pub without_json : Text → Text
without_json name = take (length name - 5) name

module _ (F : Formats) where
  open F use {Peer, peer_key, peer_moniker, ethereum}

  -- The slice `pubBytes[1:]` of no bytes panics.
  abbrev address_of_bytes : Option (List ℕ) → Result Text
  address_of_bytes none = err Error.bad_hex
  address_of_bytes (some []) = panic
  address_of_bytes (some (b ∷ bytes)) = ok (F.address_hex (drop 12 (ethereum.keccak256 bytes)))

  unfoldable pub public_key_hex_to_address_hex : Text → Result Text
  public_key_hex_to_address_hex key = address_of_bytes (hex_decode key)

  unfoldable pub mini_peers : List Peer → M (List MinimalPeerRecord)
  mini_peers [] = pure []
  mini_peers (peer ∷ peers) = do
    addr ← lift (public_key_hex_to_address_hex (peer_key peer))
    rest ← mini_peers peers
    pure (record { address = addr; moniker = peer_moniker peer } ∷ rest)

  -- One file of the directory; what is no `.json` is passed over.
  unfoldable pub add_account : Text → Text → Alloc → M Alloc
  add_account dir name alloc = do
    json ← read_file (join_path (dir ∷ name ∷ []))
    addr ← lift (elim (F.key_address json) [ none ↦ err Error.bad_json | some a ↦ ok a ])
    pure (
        insert addr (record { balance = default_account_balance; moniker = without_json name })
          alloc)

  unfoldable pub add_accounts : Text → List Text → Alloc → M Alloc
  add_accounts dir [] alloc = pure alloc
  add_accounts dir (name ∷ names) alloc = do
    alloc' ← if ext name == text ".json" then add_account dir name alloc else pure alloc
    add_accounts dir names alloc'

  unfoldable pub build_alloc : Text → M Alloc
  build_alloc dir = do names ← read_dir dir; add_accounts dir names []

  abbrev pub alloc_or : Option Alloc → Text → M Alloc
  alloc_or none keystore = build_alloc keystore
  alloc_or (some alloc) keystore = pure alloc

  abbrev pub genesis_file : Text → Dict Text → Alloc → JsonGenesisFile
  genesis_file controller storage alloc = record {
    alloc = alloc;
    poa = record {
      address = controller;
      abi = F.contract_abi;
      code = F.contract_code;
      storage = storage;
    };
  }

  -- `GenerateGenesisJSON`: the address of the contract is that of the controller, and the error of the
  -- write is dropped.
  unfoldable pub generate_genesis_json :
      Text → Text → List Peer → Option Alloc → Text → M (Unit {0})
  generate_genesis_json out_dir keystore peers alloc controller = do
    mini ← mini_peers peers
    storage ← lift (get_storage ethereum mini)
    accounts ← alloc_or alloc keystore
    ignore (
        write_to_file (join_path (out_dir ∷ text "genesis.json" ∷ []))
          (F.marshal_genesis (genesis_file controller storage accounts)) overwrite_silently)
