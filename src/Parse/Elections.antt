-- ===== src/Parse/Elections.antt =====
-- The mappings of the contract in cmd/giverny/commands/parse/parse.go, for the addresses that the arrays
-- have given: the white list, and the elections of nominees and evictees.
use botcoin.Base.{ℕ, zero, suc, Text, ◌+◌, none, some, [], ◌∷◌, ◌++◌, nat_eq, text_eq}
use botcoin.Base.Int.{pos_part}
use botcoin.Base.Dict.{Dict, lookup, insert}
use botcoin.Base.Bytes.{text}
use botcoin.Base.Bytes.Number.{hex_ℕ, itoa_ℕ, hex_encode, hex_digit, value_from, atoi_dropped}
use botcoin.Genesis.Storage.{Ethereum, mapping_slot}
use botcoin.Parse.Rows.{Rows, mark, update, parse_address, as_read}

module _ (E : Ethereum) where
  open E use {hex_to_hash, keccak256}

  -- The number that the digits of a slot stand for; the digits of a hash always stand for one.
  abbrev pub number : Text → ℕ
  number k = elim (value_from hex_digit 16 0 k) [ none ↦ 0 | some n ↦ n ]

  unfoldable pub explain_indices : Text → Text → ℕ → ℕ → ℕ → Rows → Rows
  explain_indices what moniker base zero i rows = rows
  explain_indices what moniker base (suc n) i rows = explain_indices what moniker base n (i + 1) (
      update (hex_ℕ (base + i))
        (mark parse_address (what ++ itoa_ℕ i ++ text " set for " ++ moniker)) rows)

  -- An array of votes: its length, and the addresses of those who voted.
  unfoldable pub explain_votes : Text → Text → Text → Text → Rows → Rows
  explain_votes k what each moniker rows = elim (lookup k rows) [
    | none ↦ rows
    | some r ↦
        explain_indices each moniker (number (hex_encode (keccak256 (hex_to_hash k))))
          (pos_part (atoi_dropped r.raw_value)) 0 (insert k (mark as_read (what ++ moniker) r) rows)
  ]

  -- The vote of each address that is known, in the mapping at slot `k`.
  unfoldable pub explain_voters : Text → Text → Text → Dict Text → Rows → Rows
  explain_voters k what moniker [] rows = rows
  explain_voters k what moniker ((voter, name) ∷ voters) rows =
      explain_voters k what moniker voters (
        update (hex_encode (keccak256 (hex_to_hash voter ++ hex_to_hash k)))
          (mark parse_address (what ++ name ++ text " voted on " ++ moniker)) rows)

  -- An election, whose first slot is `k`: the rows after that are marked also where there is none.
  unfoldable pub explain_election : Text → Text → Text → Dict Text → Rows → Rows
  explain_election k what moniker voters rows =
      let orphan = (elim (lookup k rows) [ none ↦ text "Orphaned " | some r ↦ [] ]) ++ what in
      let at = number k in
      let rows1 =
        update k (mark parse_address (what ++ text " Nominee set for " ++ moniker)) rows in
      let rows2 =
        update (hex_ℕ (at + 1))
          (mark parse_address (orphan ++ text " Proposer set for " ++ moniker)) rows1 in
      let rows3 =
        update (hex_ℕ (at + 2)) (mark as_read (orphan ++ text " Yes Votes set for " ++ moniker))
          rows2 in
      let rows4 =
        update (hex_ℕ (at + 3)) (mark as_read (orphan ++ text " No Votes set for " ++ moniker))
          rows3 in
      let rows5 =
        explain_voters (hex_ℕ (at + 4)) (orphan ++ text " voter mapping ") moniker voters rows4 in
      let rows6 =
        explain_votes (hex_ℕ (at + 5)) (orphan ++ text " Yes Votes Array Length set for ")
          (orphan ++ text " Yes Votes Array Index ") moniker rows5 in
      explain_votes (hex_ℕ (at + 6)) (orphan ++ text " Yes Votes Array Length set for ")
        (orphan ++ text " No Votes Array Index ") moniker rows6

  -- The mappings of one address: the known addresses may be gone over in another order in each election.
  unfoldable pub explain_address : (Text → Dict Text) → Text → Text → Rows → Rows
  explain_address voters address moniker rows =
      let listed =
        update (mapping_slot E address 0)
          (mark parse_address (text "whiteList mapping set for " ++ moniker)) rows in
      let nominated =
        explain_election (mapping_slot E address 3) (text "Nominee Mapping") moniker
          (voters (mapping_slot E address 3)) listed in
      explain_election (mapping_slot E address 6) (text "Eviction Mapping") moniker
        (voters (mapping_slot E address 6)) nominated

  unfoldable pub explain_mappings : (Text → Dict Text) → Dict Text → Rows → Rows
  explain_mappings voters [] rows = rows
  explain_mappings voters ((address, moniker) ∷ names) rows =
      explain_mappings voters names (explain_address voters address moniker rows)
