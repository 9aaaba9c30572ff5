-- ===== src/Parse/Rows.antt =====
-- The rows of the storage of a genesis file, as cmd/giverny/commands/parse/parse.go keeps them. They are
-- a map of pointers, no two of which are the same, so a map of records stands for them.
use botcoin.Base.{
  Text, Bool, true, false, none, some, [], ◌∷◌, ◌++◌, ◌==◌, nat_eq, text_eq, if◌then◌else◌, length,
  drop,
}
use botcoin.Base.Int.{ℤ, pos}
use botcoin.Base.Dict.{Dict, lookup, insert}
use botcoin.Base.Bytes.{text}
use botcoin.Base.Bytes.Number.{atoi_dropped}

pub record StorageRow : Type 0 where
  pub raw_value : Text
  pub value : Text
  pub description : Text
  pub explained : Bool

abbrev pub Rows : Type 0
Rows = Dict StorageRow

-- A row of the file, as it is read.
abbrev pub unexplained : Text → StorageRow
unexplained raw = record {
  raw_value = raw;
  value = [];
  description = text "Unexplained";
  explained = false;
}

-- The row of a slot that the file does not have.
abbrev pub unset : Text → StorageRow
unset what = record { raw_value = text "0"; value = text "0"; description = what; explained = true }

-- A row that is explained, its value read off the raw one.
abbrev pub mark : (Text → Text) → Text → StorageRow → StorageRow
mark reading what r = record {
  raw_value = r.raw_value;
  value = reading r.raw_value;
  description = what;
  explained = true;
}

-- A change of a row, if it is there.
unfoldable pub update : Text → (StorageRow → StorageRow) → Rows → Rows
update k f rows = elim (lookup k rows) [ none ↦ rows | some r ↦ insert k (f r) rows ]

unfoldable pub build_rows : Dict Text → Rows
build_rows [] = []
build_rows ((k, raw) ∷ storage) = (k, unexplained raw) ∷ build_rows storage

unfoldable pub parse_address : Text → Text
parse_address s =
    if length s == 42
    then text "0x" ++ drop 2 s
    else if length s == 44
    then text "0x" ++ drop 4 s
    else text "Unknown Address"

abbrev pub as_read : Text → Text
as_read s = s

-- The row of a count, and the count, whose error is dropped.
unfoldable pub explain_count : Text → Text → Text → Rows → ℤ × Rows
explain_count k missing found rows = elim (lookup k rows) [
  | none ↦ (pos 0, insert k (unset missing) rows)
  | some r ↦ (atoi_dropped r.raw_value, insert k (mark as_read found r) rows)
]
