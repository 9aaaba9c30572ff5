-- ===== src/Parse/Named.antt =====
-- An address whose moniker the storage has.
use botcoin.Base.{ℕ, Text, ◌≡◌, ◌≢◌, refl, ◌∙◌, true, some, ◌∷◌, ◌++◌}
use botcoin.Base.Dict.{lookup, lookup-insert_ne, lookup-insert_self}
use botcoin.Base.Bytes.{text}
use botcoin.Base.Bytes.Number.{hex_decode, itoa_ℕ}
use botcoin.Base.Result.{ok}
use botcoin.Genesis.Storage.{Ethereum}
use botcoin.Parse.Rows.{StorageRow, Rows, update, parse_address}
use botcoin.Parse.Arrays.{
  Book, by_moniker_row, white_list, get_moniker_slot, moniker_found, explain_member, explain_slot,
  look_moniker, read_moniker, final_name, describe, name_of, value_at,
}
use botcoin.Parse.Unnamed.{known, explain_slot-some}

lookup-update :
    (k : Text) (f : StorageRow → StorageRow) (q : StorageRow) (rows : Rows)
    → lookup k rows ≡ some q
    → lookup k (update k f rows) ≡ some (f q)
unfolding update
lookup-update k f q rows h = rw (h, update) (lookup-insert_self k (f q) rows)

look_moniker-some :
    (k at : Text) (q : StorageRow) (d e : ℕ) (digits : Text) (name : Text) (b : Book)
    → lookup k b.rows ≡ some q
    → q.raw_value ≡ d ∷ e ∷ digits
    → hex_decode digits ≡ some name
    → look_moniker k at b ≡ ok (moniker_found k at name b)
unfolding look_moniker
look_moniker-some k at q d e digits name b there raw decoded =
    rw (there, look_moniker) (rw raw (rw (decoded, read_moniker) refl))

final_name-some :
    (k at : Text) (q : StorageRow) (b : Book)
    → lookup k b.rows ≡ some q
    → (name : Text) × (final_name by_moniker_row k at b ≡ ok name)
unfolding final_name
final_name-some k at q b h = (name_of q.value b.names, rw (h, final_name) refl)

module _ (E : Ethereum) where
  -- The address gets what its moniker's row decodes to, less the first two digits.
  pub explain_slot-named :
      (at : Text) (i : ℕ) (r q : StorageRow) (d e : ℕ) (digits name : Text) (b : Book)
      → get_moniker_slot E (parse_address r.raw_value) ≢ at
      → lookup at b.rows ≡ some r
      → lookup (get_moniker_slot E (parse_address r.raw_value)) b.rows ≡ some q
      → q.raw_value ≡ d ∷ e ∷ digits
      → hex_decode digits ≡ some name
      → (b' : Book) × (explain_slot E white_list at i b ≡ ok b')
        × (lookup (parse_address r.raw_value) b'.names ≡ some name)
  unfolding explain_member
  explain_slot-named at i r q d e digits name b ne there moniker raw decoded =
      let address = parse_address r.raw_value in
      let k = get_moniker_slot E address in
      let met = known E at i r b in
      let found = moniker_found k at name met in
      let kept : lookup k met.rows ≡ some q = lookup-insert_ne k at _ b.rows ne ∙ moniker in
      let looked = look_moniker-some k at q d e digits name met kept raw decoded in
      let q' = lookup-update k _ q met.rows kept in
      let (called, final) = final_name-some k at _ found q' in
      let own : value_at at met.rows ≡ address =
        rw (lookup-insert_self at (record r { value = address; explained = true }) b.rows, value_at)
          refl in
      (
        record found {
          rows =
              update at (describe at (white_list.title ++ itoa_ℕ i ++ text " set for " ++ called))
                found.rows;
        },
        explain_slot-some E white_list at i r b there ∙ rw looked (rw final refl),
        rw own (lookup-insert_self address name met.names),
      )
