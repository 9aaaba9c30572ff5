-- ===== src/Parse/Mapped.antt =====
-- Explaining the mappings keeps every row.
use botcoin.Base.{ℕ, zero, suc, Text, ◌+◌, ◌≡◌, refl, Option, none, some, [], ◌∷◌, ◌++◌, text_eq}
use botcoin.Base.Int.{pos_part}
use botcoin.Base.Dict.{Dict, lookup, insert}
use botcoin.Base.Bytes.Number.{hex_ℕ, hex_encode, atoi_dropped}
use botcoin.Genesis.Storage.{Ethereum}
use botcoin.Parse.Rows.{StorageRow, Rows, mark, parse_address, as_read}
use botcoin.Parse.Kept.{
  Kept-explained, Grows, Grows-refl, Grows-trans, Grows-insert-some, Grows-mark,
}
use botcoin.Parse.Elections.{
  number, explain_indices, explain_votes, explain_voters, explain_election, explain_address,
  explain_mappings,
}

module _ (E : Ethereum) where
  open E use {hex_to_hash, keccak256}

  explain_indices-Grows :
      (what moniker : Text) (base n i : ℕ) (rows : Rows)
      → Grows rows (explain_indices E what moniker base n i rows)
  unfolding explain_indices
  explain_indices-Grows what moniker base zero i rows = Grows-refl rows
  explain_indices-Grows what moniker base (suc n) i rows =
      Grows-trans rows _ _ (Grows-mark (hex_ℕ (base + i)) parse_address _ rows)
        (explain_indices-Grows what moniker base n (i + 1) _)

  explain_votes-Grows :
      (k what each moniker : Text) (rows : Rows)
      → Grows rows (explain_votes E k what each moniker rows)
  unfolding explain_votes
  explain_votes-Grows k what each moniker rows = by_row (lookup k rows) refl
    where
      by_row :
          (o : Option StorageRow)
          → lookup k rows ≡ o
          → Grows rows (elim o as (λ x. Rows) [
            | none ↦ rows
            | some r ↦
                explain_indices E each moniker
                  (number E (hex_encode (keccak256 (hex_to_hash k))))
                  (pos_part (atoi_dropped r.raw_value))
                  0
                  (insert k (mark as_read (what ++ moniker) r) rows)
          ])
      by_row none e = Grows-refl rows
      by_row (some r) e =
          Grows-trans rows (insert k (mark as_read (what ++ moniker) r) rows) _
            (Grows-insert-some k r _ rows e (Kept-explained r _ refl refl))
            (explain_indices-Grows each moniker _ (pos_part (atoi_dropped r.raw_value)) 0 _)

  explain_voters-Grows :
      (k what moniker : Text) (voters : Dict Text) (rows : Rows)
      → Grows rows (explain_voters E k what moniker voters rows)
  unfolding explain_voters
  explain_voters-Grows k what moniker [] rows = Grows-refl rows
  explain_voters-Grows k what moniker ((voter, name) ∷ voters) rows =
      Grows-trans rows _ _ (Grows-mark _ parse_address _ rows)
        (explain_voters-Grows k what moniker voters _)

  explain_election-Grows :
      (k what moniker : Text) (voters : Dict Text) (rows : Rows)
      → Grows rows (explain_election E k what moniker voters rows)
  unfolding explain_election
  explain_election-Grows k what moniker voters rows = Grows-trans rows _ _ (Grows-mark _ _ _ rows) (
      Grows-trans _ _ _ (Grows-mark _ _ _ _) (
        Grows-trans _ _ _ (Grows-mark _ _ _ _) (
          Grows-trans _ _ _ (Grows-mark _ _ _ _) (
            Grows-trans _ _ _ (explain_voters-Grows _ _ moniker voters _) (
              Grows-trans _ _ _ (explain_votes-Grows _ _ _ moniker _)
                (explain_votes-Grows _ _ _ moniker _))))))

  pub explain_mappings-Grows :
      (voters : Text → Dict Text) (names : Dict Text) (rows : Rows)
      → Grows rows (explain_mappings E voters names rows)
  unfolding explain_mappings explain_address
  explain_mappings-Grows voters [] rows = Grows-refl rows
  explain_mappings-Grows voters ((address, moniker) ∷ names) rows =
      Grows-trans rows _ _ (Grows-mark _ parse_address _ rows) (
        Grows-trans _ _ _ (explain_election-Grows _ _ moniker _ _) (
          Grows-trans _ _ _ (explain_election-Grows _ _ moniker _ _)
            (explain_mappings-Grows voters names _)))
