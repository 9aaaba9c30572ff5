-- ===== src/Parse/Explained.antt =====
-- What becomes of the rows of the file.
use botcoin.Base.{
  ◌∙◌, ap, refl, Option, none, Text, ◌≡◌, subst, true, false, some, [], ◌∷◌, text_eq, arith, Bool,
  if◌then◌else◌, not,
}
use botcoin.Base.Int.{ℤ, pos_part}
use botcoin.Base.Dict.{Dict, lookup}
use botcoin.Base.Bytes.{text}
use botcoin.Base.Result.{Error, Result, ok, err, ◌>>=◌, >>=-eq-ok, ok-injective}
use botcoin.Genesis.Storage.{Ethereum, slot, array_base}
use botcoin.Parse.Rows.{StorageRow, Rows, unexplained, build_rows, explain_count}
use botcoin.Parse.Kept.{Grows, Grows-trans, Grows-explain_count}
use botcoin.Parse.Arrays.{Book, white_list, nominees, evictees, explain_array, explain_list}
use botcoin.Parse.Storage.{ParsedGenesis, Ranges, explain_white_list, explain_storage, same_count}
use botcoin.Parse.Growth.{explain_array-Grows, explain_list-Grows}
use botcoin.Parse.Mapped.{explain_mappings-Grows}

abbrev pub as_row : Option Text → Option StorageRow
as_row none = none
as_row (some raw) = some (unexplained raw)

pub lookup-build_rows :
    (k : Text) (storage : Dict Text) → lookup k (build_rows storage) ≡ as_row (lookup k storage)
unfolding lookup build_rows
lookup-build_rows k [] = refl
lookup-build_rows k ((j, raw) ∷ storage) = ground (arith, lookup-build_rows k storage)

module _ (E : Ethereum) where
  checked-Grows :
      (c : ℤ) (start : Book) (differ : Bool) {count : ℤ} {b : Book}
      → if◌then◌else◌ {A = Result (ℤ × Book)} differ
          (err Error.whitelist_differs)
          (explain_array E white_list (array_base E 2) (pos_part c) 0 start >>= λ b'. ok (c, b'))
        ≡ ok (count, b)
      → Grows start.rows b.rows
  checked-Grows c start true h = absurd (cc)
  checked-Grows c start false h =
      let (b1, e1, e2) =
        >>=-eq-ok (explain_array E white_list (array_base E 2) (pos_part c) 0 start) _ h in
      subst (λ (p : ℤ × Book). Grows start.rows p.1.rows) (ok-injective e2)
        (explain_array-Grows E white_list (array_base E 2) (pos_part c) 0 start e1)

  explain_white_list-Grows :
      (rows : Rows) {count : ℤ} {b : Book}
      → explain_white_list E rows ≡ ok (count, b)
      → Grows rows b.rows
  unfolding explain_white_list
  explain_white_list-Grows rows {count} {b} h =
      let (c, rows1) =
        explain_count (slot 1) (text "whitelistCount is zero so no row set")
          (text "whitelistCount is set") rows in
      let (d, rows2) =
        explain_count (slot 2) (text "whiteListArray length is zero so no row set")
          (text "whiteListArray Length is set") rows1 in
      Grows-trans rows rows1 b.rows (Grows-explain_count (slot 1) _ _ rows) (
        Grows-trans rows1 rows2 b.rows (Grows-explain_count (slot 2) _ _ rows1)
          (checked-Grows c (record { rows = rows2; names = [] }) (not (same_count d c)) h))

  -- When the storage is explained without an error, every row of the file is among the rows that are
  -- printed, with its raw value, and one that is not marked as explained is exactly as it was read.
  pub explain_storage-kept :
      (outer : Ranges) (inner : Text → Ranges) (storage : Dict Text) (k raw : Text)
      {p : ParsedGenesis}
      → explain_storage E outer inner storage ≡ ok p
      → lookup k storage ≡ some raw
      → (r : StorageRow) × (lookup k p.rows ≡ some r)
        × (r.raw_value ≡ raw)
        × (r.explained ≡ false → r ≡ unexplained raw)
  unfolding explain_storage
  explain_storage-kept outer inner storage k raw {p} h there =
      let rows = build_rows storage in
      let (listed, e1, h1) = >>=-eq-ok (explain_white_list E rows) _ h in
      let (nominated, e2, h2) = >>=-eq-ok (explain_list E nominees 4 _ _ listed.1) _ h1 in
      let (evicted, e3, h3) = >>=-eq-ok (explain_list E evictees 7 _ _ nominated.1) _ h2 in
      let grown : Grows rows p.rows =
        Grows-trans rows listed.1.rows p.rows (explain_white_list-Grows rows e1) (
          Grows-trans _ nominated.1.rows p.rows (explain_list-Grows E nominees 4 _ _ listed.1 e2) (
            Grows-trans _ evicted.1.rows p.rows (explain_list-Grows E evictees 7 _ _ nominated.1 e3)
              (subst (λ (q : ParsedGenesis). Grows evicted.1.rows q.rows) (ok-injective h3)
                (explain_mappings-Grows E (λ s. inner s evicted.1.names) (outer evicted.1.names)
                  evicted.1.rows)))) in
      let (r, here, kept) =
        grown k (unexplained raw) (lookup-build_rows k storage ∙ ap as_row there) in
      (r, here, kept.raw, kept.rest)
