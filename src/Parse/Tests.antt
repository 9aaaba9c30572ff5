-- ===== src/Parse/Tests.antt =====
-- A storage of one validator, and rows without one.
use botcoin.Base.{
  Text, ◌+◌, ◌-◌, ◌≡◌, ◌≢◌, refl, ap, ◌∙◌, arith, none, some, [], ◌∷◌, ◌++◌, length, replicate,
  drop, true, false, text_discrete, ◌<◌, ◌≤◌,
}
use botcoin.Base.Int.{pos}
use botcoin.Base.Dict.{Dict, lookup, insert}
use botcoin.Base.Bytes.{text, trim_prefix, to_lower, has_prefix}
use botcoin.Base.Bytes.Number.{
  hex_encode, hex_decode, hex_ℕ, zero_pad, itoa_ℕ, value_from, hex_digit, atoi_dropped,
}
use botcoin.Base.Result.{ok, panic}
use botcoin.Genesis.Storage.{
  MinimalPeerRecord, Ethereum, slot, bare_address, mapping_slot, array_base, moniker_value,
  get_storage, store_peers, store_peer,
}
use botcoin.Genesis.Storage.Layout.{Nodup, written}
use botcoin.Genesis.Storage.Distinct.{distinct, distinct-Nodup}
use botcoin.Parse.Rows.{StorageRow, unexplained, build_rows, explain_count, parse_address, update}
use botcoin.Parse.Arrays.{
  ArrayKind, by_own_row, Book, white_list, get_moniker_slot, explain_array, explain_slot,
  explain_member, explain_list, final_name, look_moniker,
}
use botcoin.Parse.Elections.{
  explain_address, explain_election, explain_indices, explain_mappings, explain_voters,
  explain_votes,
}
use botcoin.Parse.Storage.{ParsedGenesis, explain_storage, explain_white_list}
use botcoin.Parse.Explained.{as_row, lookup-build_rows, explain_storage-kept}
use botcoin.Parse.Address.{HasRows, get_storage-parsed}
use botcoin.Parse.Counts.{get_storage-counted}
use botcoin.Parse.Unnamed.{explain_array-unnamed}

-- The last 32 bytes of a text stand for its hash.
abbrev ethereum : Ethereum
ethereum = record { hex_to_hash = λ s. s; keccak256 = λ s. drop (length s - 32) s }

abbrev alice : MinimalPeerRecord
alice = record { address = replicate 40 b'A'; moniker = text "alice" }

abbrev stored : Dict Text
stored = elim (get_storage ethereum (alice ∷ [])) [ ok st ↦ st | _ ↦ [] ]

stored_run : get_storage ethereum (alice ∷ []) ≡ ok stored
unfolding get_storage store_peers store_peer moniker_value hex_encode
stored_run = refl

slots_differ :
    distinct (slot 1 ∷ slot 2 ∷ written ethereum (array_base ethereum 2) (alice ∷ [])) ≡ true
unfolding slot array_base mapping_slot bare_address text_discrete zero_pad itoa_ℕ hex_ℕ value_from
    hex_encode hex_digit trim_prefix to_lower
slots_differ = refl

slots_Nodup : Nodup (slot 1 ∷ slot 2 ∷ written ethereum (array_base ethereum 2) (alice ∷ []))
slots_Nodup =
    distinct-Nodup (slot 1 ∷ slot 2 ∷ written ethereum (array_base ethereum 2) (alice ∷ []))
      slots_differ

digits : length (bare_address alice.address) ≡ 40
unfolding bare_address trim_prefix to_lower
digits = refl

full : length (hex_ℕ (array_base ethereum 2 + 0)) ≡ 64
unfolding array_base slot hex_ℕ zero_pad itoa_ℕ value_from hex_encode hex_digit
full = refl

abbrev fresh : Book
fresh = record { rows = build_rows stored; names = [] }

fresh_rows : HasRows stored fresh.rows
fresh_rows k raw h = (unexplained raw, lookup-build_rows k stored ∙ ap as_row h, refl)

get_storage-parsed_example :
    (b' : Book) × (explain_array ethereum white_list (array_base ethereum 2) 1 0 fresh
      ≡ explain_array ethereum white_list (array_base ethereum 2) 0 1 b')
    × (lookup (text "0x" ++ bare_address alice.address) b'.names
        ≡ some (text "lice" ++ replicate 27 0))
get_storage-parsed_example =
    get_storage-parsed ethereum [] alice [] b'a' (text "lice") 0 fresh slots_Nodup stored_run full
      digits refl (omega arith) (omega arith, (omega arith, (omega arith, (omega arith, tt))))
      fresh_rows

get_storage-counted_example :
    let count = (explain_count (slot 1) [] [] (build_rows stored)).0 in
    ((1 < 10) → count ≡ pos 1) × ((10 ≤ 1) → (1 < 16) → count ≡ pos 0)
get_storage-counted_example = get_storage-counted ethereum alice [] [] [] slots_Nodup stored_run

-- A hash is the last byte.
abbrev last : Ethereum
last = record { hex_to_hash = λ s. drop (length s - 1) s; keccak256 = λ s. s }

-- A nominee without a moniker, and a row that nothing explains.
abbrev file_storage : Dict Text
file_storage =
    (slot 4, text "1") ∷ (text "34", text "94" ++ replicate 40 b'a') ∷ (text "zz", text "1") ∷ []

abbrev parsed : ParsedGenesis
parsed = elim (explain_storage last (λ d. d) (λ s d. d) file_storage) [
  | ok p ↦ p
  | _ ↦ record { white_list_count = pos 9; nominee_count = pos 9; evictee_count = pos 9; rows = [] }
]

parsed_run : explain_storage last (λ d. d) (λ s d. d) file_storage ≡ ok parsed
unfolding explain_storage explain_white_list explain_count lookup build_rows text_discrete slot
    zero_pad itoa_ℕ hex_ℕ array_base value_from hex_encode hex_digit insert explain_array
    explain_list atoi_dropped explain_slot explain_member hex_decode has_prefix to_lower trim_prefix
    bare_address mapping_slot final_name get_moniker_slot look_moniker explain_address
    explain_election explain_indices explain_mappings explain_voters explain_votes parse_address
    update
parsed_run = refl

zz_there : lookup (text "zz") file_storage ≡ some (text "1")
unfolding lookup text_discrete slot zero_pad itoa_ℕ
zz_there = refl

explain_storage-kept_example :
    (r : StorageRow) × (lookup (text "zz") parsed.rows ≡ some r)
    × (r.raw_value ≡ text "1")
    × (r.explained ≡ false → r ≡ unexplained (text "1"))
explain_storage-kept_example =
    explain_storage-kept last (λ d. d) (λ s d. d) file_storage (text "zz") (text "1") parsed_run
      zz_there

abbrev book : Book
book = record { rows = (hex_ℕ 10, unexplained (text "xyz")) ∷ []; names = [] }

book_there : lookup (hex_ℕ (10 + 0)) book.rows ≡ some (unexplained (text "xyz"))
unfolding lookup text_discrete hex_ℕ
book_there = refl

book_free :
    (get_moniker_slot last (parse_address (text "xyz")) ≢ hex_ℕ (10 + 0))
    × (lookup (get_moniker_slot last (parse_address (text "xyz"))) book.rows ≡ none)
unfolding lookup text_discrete hex_ℕ get_moniker_slot parse_address mapping_slot bare_address
    hex_encode slot zero_pad itoa_ℕ to_lower trim_prefix has_prefix
book_free = (λ e. omega (arith, ap length e), refl)

explain_array-unnamed_example :
    (explain_array last white_list 10 1 0 book ≡ panic)
    × ((title : Text)
        → let kind : ArrayKind = record { title = title; naming = by_own_row } in
          (b' : Book) × (explain_array last kind 10 1 0 book ≡ explain_array last kind 10 0 1 b')
          × (lookup (parse_address (text "xyz")) b'.names
              ≡ some (text "unknown peer " ++ itoa_ℕ 0)))
explain_array-unnamed_example =
    explain_array-unnamed last 10 0 0 (unexplained (text "xyz")) book book_there book_free.0
      book_free.1
