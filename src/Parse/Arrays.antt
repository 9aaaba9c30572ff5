-- ===== src/Parse/Arrays.antt =====
-- The arrays of the contract in cmd/giverny/commands/parse/parse.go: the white list, the nominees and
-- the evictees, one loop for the three that the source writes out.
use botcoin.Base.{
  ℕ, zero, suc, Text, ◌+◌, true, none, some, List, [], ◌∷◌, ◌++◌, ◌==◌, nat_eq, text_eq,
  if◌then◌else◌,
}
use botcoin.Base.Int.{ℤ, pos_part}
use botcoin.Base.Dict.{Dict, lookup, insert}
use botcoin.Base.Bytes.{text, to_lower, trim_prefix}
use botcoin.Base.Bytes.Number.{hex_ℕ, itoa_ℕ, hex_decode, hex_encode, zero_pad}
use botcoin.Base.Result.{Result, ok, panic, ◌>>=◌}
use botcoin.Genesis.Storage.{Ethereum, slot, array_base}
use botcoin.Parse.Rows.{StorageRow, Rows, unset, update, parse_address, explain_count}

-- The rows, and the names of the addresses that have been met.
pub record Book : Type 0 where
  pub rows : Rows
  pub names : Dict Text

abbrev pub value_at : Text → Rows → Text
value_at k rows = elim (lookup k rows) [ none ↦ [] | some r ↦ r.value ]

-- A name in the map, or the empty text that Go gives for a key that is not there.
abbrev pub name_of : Text → Dict Text → Text
name_of a names = elim (lookup a names) [ none ↦ [] | some name ↦ name ]

-- The row of a moniker, at `k`, once its bytes are known: `at` is the row of the address.
abbrev pub moniker_found : Text → Text → List ℕ → Book → Book
moniker_found k at name b = record {
  names = insert (value_at at b.rows) name b.names;
  rows =
      update k
        (λ r. if r.description == [] then r else record {
          raw_value = r.raw_value;
          value = name;
          explained = true;
          description = text "Moniker for " ++ value_at at b.rows;
        })
        b.rows;
}

-- The first two digits are dropped; there have to be two.
abbrev pub read_moniker : Text → Text → Text → Book → Result Book
read_moniker k at [] b = panic
read_moniker k at (c ∷ []) b = panic
read_moniker k at (c ∷ d ∷ digits) b = elim (hex_decode digits) [
  | none ↦ ok b
  | some name ↦ ok (moniker_found k at name b)
]

unfoldable pub look_moniker : Text → Text → Book → Result Book
look_moniker k at b = elim (lookup k b.rows) [
  | none ↦ ok b
  | some r ↦ read_moniker k at r.raw_value b
]

-- How the row of an address is named in the end: by the value of its own row, or, in the white list, of
-- the row of its moniker, which has to be there.
pub data Naming : Type 0 where
  by_moniker_row : Naming
  by_own_row : Naming

unfoldable pub final_name : Naming → Text → Text → Book → Result Text
final_name by_own_row k at b = ok (name_of (value_at at b.rows) b.names)
final_name by_moniker_row k at b = elim (lookup k b.rows) [
  | none ↦ panic
  | some r ↦ ok (name_of r.value b.names)
]

abbrev pub describe : Text → Text → StorageRow → StorageRow
describe at what r = record r { description = what }

-- The three arrays: what their rows are called, and how they are named.
pub record ArrayKind : Type 0 where
  pub title : Text
  pub naming : Naming

abbrev pub white_list : ArrayKind
white_list = record { title = text "whiteListArray slot "; naming = by_moniker_row }

abbrev pub nominees : ArrayKind
nominees = record { title = text "Nominee Array slot "; naming = by_own_row }

abbrev pub evictees : ArrayKind
evictees = record { title = text "Eviction Array slot "; naming = by_own_row }

module _ (E : Ethereum) where
  open E use {hex_to_hash, keccak256}

  -- The slot of the moniker of an address, as the parser computes it.
  unfoldable pub get_moniker_slot : Text → Text
  get_moniker_slot address =
      let addr = trim_prefix (text "0x") (to_lower address) in
      hex_encode (keccak256 (hex_to_hash addr ++ hex_to_hash (zero_pad 64 (itoa_ℕ 5))))

  -- A row of an array that the file has.
  unfoldable pub explain_member : ArrayKind → Text → ℕ → StorageRow → Book → Result Book
  unfolding update
  explain_member kind at i r b =
      let address = parse_address r.raw_value in
      let k = get_moniker_slot address in
      let known : Book = record {
        rows = insert at (record r { value = address; explained = true }) b.rows;
        names = insert address (text "unknown peer " ++ itoa_ℕ i) b.names;
      } in
      (look_moniker k at known >>= λ found. final_name kind.naming k at found >>= λ name.
      ok (record found {
        rows =
            update at (describe at (kind.title ++ itoa_ℕ i ++ text " set for " ++ name)) found.rows;
      }))

  unfoldable pub explain_slot : ArrayKind → Text → ℕ → Book → Result Book
  explain_slot kind at i b = elim (lookup at b.rows) [
    | none ↦
        ok
          (record b { rows = insert at (unset (kind.title ++ itoa_ℕ i ++ text " not set")) b.rows })
    | some r ↦ explain_member kind at i r b
  ]

  -- `n` rounds of a loop over an array from its index `i`; the slots are printed without zeros in front.
  unfoldable pub explain_array : ArrayKind → ℕ → ℕ → ℕ → Book → Result Book
  explain_array kind base zero i b = ok b
  explain_array kind base (suc n) i b = do
    b' ← explain_slot kind (hex_ℕ (base + i)) i b
    explain_array kind base n (i + 1) b'

  -- An array: its length, its rows, and the length that is found.
  unfoldable pub explain_list : ArrayKind → ℕ → Text → Text → Book → Result (ℤ × Book)
  explain_list kind n missing found b =
      let (count, rows) = explain_count (slot n) missing found b.rows in
      explain_array kind (array_base E n) (pos_part count) 0 (record b { rows = rows }) >>= λ b'.
      ok (count, b')
