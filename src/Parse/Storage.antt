-- ===== src/Parse/Storage.antt =====
-- The rows of the storage, explained in the order of `parseGenesis` in
-- cmd/giverny/commands/parse/parse.go. What is printed of them in the end is the result.
use botcoin.Base.{Text, Bool, not, [], ◌==◌, nat_eq, text_eq, if◌then◌else◌, ◌&&◌}
use botcoin.Base.Int.{ℤ, pos_part, neg_part}
use botcoin.Base.Dict.{Dict}
use botcoin.Base.Bytes.{text}
use botcoin.Base.Result.{Error, Result, ok, err, ◌>>=◌}
use botcoin.Genesis.Storage.{Ethereum, slot, array_base}
use botcoin.Parse.Rows.{build_rows, Rows, explain_count}
use botcoin.Parse.Arrays.{Book, white_list, nominees, evictees, explain_array, explain_list}
use botcoin.Parse.Elections.{explain_mappings}

-- What is printed: the counts, and the rows.
pub record ParsedGenesis : Type 0 where
  pub white_list_count : ℤ
  pub nominee_count : ℤ
  pub evictee_count : ℤ
  pub rows : Rows

abbrev pub same_count : ℤ → ℤ → Bool
same_count a b = (pos_part a == pos_part b) && (neg_part a == neg_part b)

-- The order in which `range` gives the entries of a map.
abbrev pub Ranges : Type 0
Ranges = Dict Text → Dict Text

module _ (E : Ethereum) where
  -- The counts of slots 1 and 2, which have to agree, and the addresses of the white list.
  unfoldable pub explain_white_list : Rows → Result (ℤ × Book)
  explain_white_list rows =
      let (count, rows1) =
        explain_count (slot 1) (text "whitelistCount is zero so no row set")
          (text "whitelistCount is set") rows in
      let (array_length, rows2) =
        explain_count (slot 2) (text "whiteListArray length is zero so no row set")
          (text "whiteListArray Length is set") rows1 in
      if not (same_count array_length count)
      then err Error.whitelist_differs
      else (explain_array E white_list (array_base E 2) (pos_part count) 0
            (record { rows = rows2; names = [] })
          >>= λ b. ok (count, b))

  -- Every row of the storage, explained as far as the code can. The inner order is that of an election,
  -- by its slot.
  unfoldable pub explain_storage : Ranges → (Text → Ranges) → Dict Text → Result ParsedGenesis
  explain_storage outer inner storage = do
    listed ← explain_white_list (build_rows storage)
    nominated ←
        explain_list E nominees 4 (text "Nominee Array length is zero so no row set")
          (text "Nominee Array Length is set") listed.1
    evicted ←
        explain_list E evictees 7 (text "Eviction Array length is zero so no row set")
          (text "Eviction Array Length is set") nominated.1
    ok (record {
      white_list_count = listed.0;
      nominee_count = nominated.0;
      evictee_count = evicted.0;
      rows =
          explain_mappings E (λ k. inner k evicted.1.names) (outer evicted.1.names) evicted.1.rows;
    })
