-- ===== src/Parse/Growth.antt =====
-- Explaining the storage keeps every row of the file.
use botcoin.Base.{
  ℕ, zero, suc, Text, ◌+◌, ◌≡◌, refl, sym, subst, ◌∙◌, true, Option, none, some, List, [], ◌∷◌,
  ◌++◌, ◌==◌, text_eq, inl, inr, Bool-cases, if◌then◌else◌,
}
use mathlib.Core.Option.{some-injective}
use botcoin.Base.Int.{ℤ, pos_part}
use botcoin.Base.Dict.{lookup, insert, lookup-insert_self}
use botcoin.Base.Bytes.{text}
use botcoin.Base.Bytes.Number.{hex_ℕ, itoa_ℕ, hex_decode}
use botcoin.Base.Result.{Result, ok, >>=-eq-ok, ok-injective}
use botcoin.Genesis.Storage.{Ethereum, slot, array_base}
use botcoin.Parse.Rows.{StorageRow, unset, explain_count, parse_address}
use botcoin.Parse.Kept.{
  Kept, Kept-refl, Kept-explained, Grows, Grows-refl, Grows-trans, Grows-insert-none,
  Grows-insert-some, Grows-update, Grows-explain_count,
}
use botcoin.Parse.Arrays.{
  Book, ArrayKind, moniker_found, read_moniker, look_moniker, final_name, get_moniker_slot,
  explain_member, explain_slot, explain_array, explain_list, value_at,
}

-- The row of a moniker: as it was, or explained.
moniker_row-Kept :
    (name addr : Text) (r : StorageRow)
    → Kept r (
        if r.description == [] then r else record {
          raw_value = r.raw_value;
          value = name;
          explained = true;
          description = text "Moniker for " ++ addr;
        })
moniker_row-Kept name addr r = elim (Bool-cases (r.description == [])) [
  | inl e ↦ rw e (Kept-refl r)
  | inr e ↦ rw e (Kept-explained r _ refl refl)
]

read_moniker-Grows :
    (k at raw : Text) (b : Book) {b' : Book}
    → read_moniker k at raw b ≡ ok b'
    → Grows b.rows b'.rows
read_moniker-Grows k at [] b h = absurd (cc)
read_moniker-Grows k at (c ∷ []) b h = absurd (cc)
read_moniker-Grows k at (c ∷ d ∷ digits) b {b'} h = by_bytes (hex_decode digits) h
  where
    by_bytes :
        (o : Option (List ℕ))
        → (elim o as (λ x. Result Book) [
          | none ↦ ok b
          | some name ↦ ok (moniker_found k at name b)
        ])
          ≡ ok b'
        → Grows b.rows b'.rows
    by_bytes none e = subst (λ (v : Book). Grows b.rows v.rows) (ok-injective e) (Grows-refl b.rows)
    by_bytes (some name) e =
        subst (λ (v : Book). Grows b.rows v.rows) (ok-injective e)
          (Grows-update k _ b.rows (λ r there. moniker_row-Kept name (value_at at b.rows) r))

look_moniker-Grows :
    (k at : Text) (b : Book) {b' : Book} → look_moniker k at b ≡ ok b' → Grows b.rows b'.rows
unfolding look_moniker
look_moniker-Grows k at b {b'} h = by_row (lookup k b.rows) h
  where
    by_row :
        (o : Option StorageRow)
        → (elim o as (λ x. Result Book) [ none ↦ ok b | some r ↦ read_moniker k at r.raw_value b ])
          ≡ ok b'
        → Grows b.rows b'.rows
    by_row none e = subst (λ (v : Book). Grows b.rows v.rows) (ok-injective e) (Grows-refl b.rows)
    by_row (some r) e = read_moniker-Grows k at r.raw_value b e

module _ (E : Ethereum) where
  open E use {hex_to_hash, keccak256}

  explain_member-Grows :
      (kind : ArrayKind) (at : Text) (i : ℕ) (r : StorageRow) (b : Book) {b' : Book}
      → lookup at b.rows ≡ some r
      → explain_member E kind at i r b ≡ ok b'
      → Grows b.rows b'.rows
  unfolding explain_member
  explain_member-Grows kind at i r b {b'} there h =
      let address = parse_address r.raw_value in
      let k = get_moniker_slot E address in
      let marked : StorageRow = record r { value = address; explained = true } in
      let known : Book = record {
        rows = insert at marked b.rows;
        names = insert address (text "unknown peer " ++ itoa_ℕ i) b.names;
      } in
      let (found, e1, h1) = >>=-eq-ok (look_moniker k at known) _ h in
      let (name, e2, h2) = >>=-eq-ok (final_name kind.naming k at found) _ h1 in
      let grown = look_moniker-Grows k at known e1 in
      let (s, here, kept) = grown at marked (lookup-insert_self at marked b.rows) in
      let all_known : (t : StorageRow) → lookup at found.rows ≡ some t → t.explained ≡ true = λ t e.
        subst (λ x. x.explained ≡ true) (some-injective _ _ (sym here ∙ e)) (kept.known refl) in
      Grows-trans b.rows known.rows b'.rows
        (Grows-insert-some at r marked b.rows there (Kept-explained r marked refl refl))
        (Grows-trans known.rows found.rows b'.rows grown (
          subst (λ (v : Book). Grows found.rows v.rows) (ok-injective h2)
            (Grows-update at _ found.rows (λ t e. Kept-explained t _ refl (all_known t e)))))

  explain_slot-Grows :
      (kind : ArrayKind) (at : Text) (i : ℕ) (b : Book) {b' : Book}
      → explain_slot E kind at i b ≡ ok b'
      → Grows b.rows b'.rows
  unfolding explain_slot
  explain_slot-Grows kind at i b {b'} h = by_row (lookup at b.rows) refl h
    where
      by_row :
          (o : Option StorageRow)
          → lookup at b.rows ≡ o
          → (elim o as (λ x. Result Book) [
            | none ↦ ok (record b {
              rows = insert at (unset (kind.title ++ itoa_ℕ i ++ text " not set")) b.rows;
            })
            | some r ↦ explain_member E kind at i r b
          ])
            ≡ ok b'
          → Grows b.rows b'.rows
      by_row none free e =
          subst (λ (v : Book). Grows b.rows v.rows) (ok-injective e)
            (Grows-insert-none at _ b.rows free)
      by_row (some r) there e = explain_member-Grows kind at i r b there e

  pub explain_array-Grows :
      (kind : ArrayKind) (base n i : ℕ) (b : Book) {b' : Book}
      → explain_array E kind base n i b ≡ ok b'
      → Grows b.rows b'.rows
  unfolding explain_array
  explain_array-Grows kind base zero i b h =
      subst (λ (v : Book). Grows b.rows v.rows) (ok-injective h) (Grows-refl b.rows)
  explain_array-Grows kind base (suc n) i b {b'} h =
      let (b1, e, h1) = >>=-eq-ok (explain_slot E kind (hex_ℕ (base + i)) i b) _ h in
      Grows-trans b.rows b1.rows b'.rows (explain_slot-Grows kind (hex_ℕ (base + i)) i b e)
        (explain_array-Grows kind base n (i + 1) b1 h1)

  pub explain_list-Grows :
      (kind : ArrayKind) (n : ℕ) (missing found : Text) (b : Book) {count : ℤ} {b' : Book}
      → explain_list E kind n missing found b ≡ ok (count, b')
      → Grows b.rows b'.rows
  unfolding explain_list
  explain_list-Grows kind n missing found b {count} {b'} h =
      let (c, rows) = explain_count (slot n) missing found b.rows in
      let (b1, e, h1) =
        >>=-eq-ok (explain_array E kind (array_base E n) (pos_part c) 0 (record b { rows = rows }))
          _ h in
      Grows-trans b.rows rows b'.rows (Grows-explain_count (slot n) missing found b.rows) (
        subst (λ (p : ℤ × Book). Grows rows p.1.rows) (ok-injective h1)
          (explain_array-Grows kind (array_base E n) (pos_part c) 0 (record b { rows = rows }) e))
