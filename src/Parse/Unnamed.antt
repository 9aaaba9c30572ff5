-- ===== src/Parse/Unnamed.antt =====
-- An address whose moniker the storage does not have.
use botcoin.Base.{ℕ, suc, Text, ◌+◌, ◌≡◌, ◌≢◌, refl, ap, ◌∙◌, true, none, some, ◌++◌}
use botcoin.Base.Dict.{lookup, insert, lookup-insert_ne, lookup-insert_self}
use botcoin.Base.Bytes.{text}
use botcoin.Base.Bytes.Number.{hex_ℕ, itoa_ℕ}
use botcoin.Base.Result.{ok, panic, ◌>>=◌}
use botcoin.Genesis.Storage.{Ethereum}
use botcoin.Parse.Rows.{StorageRow, update, parse_address}
use botcoin.Parse.Arrays.{
  Book, ArrayKind, by_moniker_row, by_own_row, white_list, get_moniker_slot, explain_member,
  explain_slot, explain_array, look_moniker, final_name, describe, name_of, value_at,
}

look_moniker-none : (k at : Text) (b : Book) → lookup k b.rows ≡ none → look_moniker k at b ≡ ok b
unfolding look_moniker
look_moniker-none k at b h = rw (h, look_moniker) refl

final_name-none :
    (k at : Text) (b : Book) → lookup k b.rows ≡ none → final_name by_moniker_row k at b ≡ panic
unfolding final_name
final_name-none k at b h = rw (h, final_name) refl

module _ (E : Ethereum) where
  abbrev pub known : Text → ℕ → StorageRow → Book → Book
  known at i r b = record {
    rows = insert at (record r { value = parse_address r.raw_value; explained = true }) b.rows;
    names = insert (parse_address r.raw_value) (text "unknown peer " ++ itoa_ℕ i) b.names;
  }

  still_none :
      (k at : Text) (i : ℕ) (r : StorageRow) (b : Book)
      → k ≢ at
      → lookup k b.rows ≡ none
      → lookup k (known at i r b).rows ≡ none
  still_none k at i r b ne free = lookup-insert_ne k at _ b.rows ne ∙ free

  pub explain_slot-some :
      (kind : ArrayKind) (at : Text) (i : ℕ) (r : StorageRow) (b : Book)
      → lookup at b.rows ≡ some r
      → explain_slot E kind at i b ≡ explain_member E kind at i r b
  unfolding explain_slot explain_member
  explain_slot-some kind at i r b there = rw (there, explain_slot) refl

  -- What is left to do for it is to give it a name.
  unnamed_panic :
      (at : Text) (i : ℕ) (r : StorageRow) (b : Book)
      → get_moniker_slot E (parse_address r.raw_value) ≢ at
      → lookup (get_moniker_slot E (parse_address r.raw_value)) b.rows ≡ none
      → explain_member E white_list at i r b ≡ panic
  unfolding explain_member
  unnamed_panic at i r b ne free =
      let k = get_moniker_slot E (parse_address r.raw_value) in
      let gone = still_none k at i r b ne free in
      rw (look_moniker-none k at (known at i r b) gone) (
        ap
          (λ m. m >>= λ name. ok (record (known at i r b) {
            rows =
                update at (describe at (white_list.title ++ itoa_ℕ i ++ text " set for " ++ name))
                  (known at i r b).rows;
          }))
          (final_name-none k at (known at i r b) gone))

  unnamed_ok :
      (title at : Text) (i : ℕ) (r : StorageRow) (b : Book)
      → get_moniker_slot E (parse_address r.raw_value) ≢ at
      → lookup (get_moniker_slot E (parse_address r.raw_value)) b.rows ≡ none
      → let met = known at i r b in
        explain_member E (record { title = title; naming = by_own_row }) at i r b
        ≡ ok (record met {
          rows =
              update at
                (describe at (
                  title
                  ++ itoa_ℕ i
                  ++ text " set for "
                  ++ name_of (value_at at met.rows) met.names))
                met.rows;
        })
  unfolding explain_member final_name
  unnamed_ok title at i r b ne free =
      let k = get_moniker_slot E (parse_address r.raw_value) in
      let gone = still_none k at i r b ne free in
      rw (look_moniker-none k at (known at i r b) gone) refl

  -- At a row of an address for which the storage has no moniker, at another slot than the row's own, the
  -- loop over the white list panics; the loops over the nominees and over the evictees go on, with the
  -- address under the name of an unknown peer.
  pub explain_array-unnamed :
      (base n i : ℕ) (r : StorageRow) (b : Book)
      → lookup (hex_ℕ (base + i)) b.rows ≡ some r
      → get_moniker_slot E (parse_address r.raw_value) ≢ hex_ℕ (base + i)
      → lookup (get_moniker_slot E (parse_address r.raw_value)) b.rows ≡ none
      → (explain_array E white_list base (suc n) i b ≡ panic)
        × ((title : Text)
            → let kind : ArrayKind = record { title = title; naming = by_own_row } in
              (b' : Book) × (explain_array E kind base (suc n) i b
                ≡ explain_array E kind base n (i + 1) b')
              × (lookup (parse_address r.raw_value) b'.names
                  ≡ some (text "unknown peer " ++ itoa_ℕ i)))
  unfolding explain_array
  explain_array-unnamed base n i r b there ne free = (
    rw (explain_slot-some white_list (hex_ℕ (base + i)) i r b there)
        (rw (unnamed_panic (hex_ℕ (base + i)) i r b ne free) refl),
    λ title.
        let at = hex_ℕ (base + i) in
        let met = known at i r b in
        (
          record met {
            rows =
                update at
                  (describe at (
                    title
                    ++ itoa_ℕ i
                    ++ text " set for "
                    ++ name_of (value_at at met.rows) met.names))
                  met.rows;
          },
          rw (explain_slot-some (record { title = title; naming = by_own_row }) at i r b there)
              (rw (unnamed_ok title at i r b ne free) refl),
          lookup-insert_self (parse_address r.raw_value) (text "unknown peer " ++ itoa_ℕ i) b.names,
        ),
  )
