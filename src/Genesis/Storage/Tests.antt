-- ===== src/Genesis/Storage/Tests.antt =====
-- The storage of two peers.
use botcoin.Base.{
  Text, ◌+◌, ◌≡◌, refl, true, [], ◌∷◌, some, arith, replicate, text_discrete, text_eq,
}
use botcoin.Base.Bytes.{text, trim_prefix, to_lower}
use botcoin.Base.Bytes.Number.{hex_encode, zero_pad, itoa_ℕ, hex_ℕ, value_from, hex_digit}
use botcoin.Base.Dict.{Dict, lookup}
use botcoin.Base.Result.{ok, panic}
use botcoin.Genesis.Storage.{
  MinimalPeerRecord, Ethereum, slot, hex_length, moniker_value, get_storage, array_base,
  store_peers, store_peer, mapping_slot, bare_address,
}
use botcoin.Genesis.Storage.Moniker.{get_storage-total, get_storage-panic}
use botcoin.Genesis.Storage.Distinct.{distinct, distinct-Nodup}
use botcoin.Genesis.Storage.Layout.{Holds, written, get_storage-layout}

-- The bytes of a text stand for its hash.
abbrev ethereum : Ethereum
ethereum = record { hex_to_hash = λ s. s; keccak256 = λ s. s }

abbrev alice : MinimalPeerRecord
alice = record { address = text "0xAb"; moniker = text "alice" }

abbrev bob : MinimalPeerRecord
bob = record { address = text "c3"; moniker = text "bob" }

abbrev long_name : MinimalPeerRecord
long_name = record { address = text "d4"; moniker = replicate 33 b'a' }

get_storage-total_example : (st : Dict Text) × (get_storage ethereum (alice ∷ bob ∷ []) ≡ ok st)
get_storage-total_example =
    get_storage-total ethereum (alice ∷ bob ∷ []) ((omega arith, (omega arith, tt)))

get_storage-panic_example : get_storage ethereum (alice ∷ long_name ∷ bob ∷ []) ≡ panic
get_storage-panic_example =
    get_storage-panic ethereum (alice ∷ []) long_name (bob ∷ []) ((omega arith, tt)) (omega arith)

-- The storage that is computed for the two.
abbrev stored : Dict Text
stored = elim (get_storage ethereum (alice ∷ bob ∷ [])) [ ok st ↦ st | _ ↦ [] ]

stored_run : get_storage ethereum (alice ∷ bob ∷ []) ≡ ok stored
unfolding get_storage store_peers store_peer moniker_value hex_encode
stored_run = refl

-- The slots of the two are eight different texts.
slots_differ :
    distinct (slot 1 ∷ slot 2 ∷ written ethereum (array_base ethereum 2) (alice ∷ bob ∷ [])) ≡ true
unfolding slot array_base mapping_slot bare_address text_discrete zero_pad itoa_ℕ hex_ℕ value_from
    hex_encode hex_digit trim_prefix to_lower
slots_differ = refl

get_storage-layout_example :
    (lookup (slot 1) stored ≡ some (hex_length 2))
    × (lookup (slot 2) stored ≡ some (hex_length 2))
    × Holds ethereum stored (array_base ethereum 2 + 1) bob
get_storage-layout_example =
    get_storage-layout ethereum (alice ∷ []) bob []
      (distinct-Nodup
        (slot 1 ∷ slot 2 ∷ written ethereum (array_base ethereum 2) (alice ∷ bob ∷ []))
        slots_differ)
      stored_run
