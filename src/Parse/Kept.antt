-- ===== src/Parse/Kept.antt =====
-- What explaining leaves of the rows that there were.
use botcoin.Base.{Text, ◌≡◌, refl, sym, subst, ◌∙◌, true, false, Option, none, some, text_discrete}
use mathlib.Core.Option.{some-injective}
use botcoin.Base.Dict.{lookup, insert, lookup-insert_self, lookup-insert_ne}
use botcoin.Base.Int.{ℤ, pos}
use botcoin.Base.Bytes.Number.{atoi_dropped}
use botcoin.Parse.Rows.{StorageRow, Rows, unset, mark, update, as_read, explain_count}

-- The raw value is the same, what was explained still is, and what is not explained is as it was.
pub record Kept (r r' : StorageRow) : Type 0 where
  pub raw : r'.raw_value ≡ r.raw_value
  pub known : r.explained ≡ true → r'.explained ≡ true
  pub rest : r'.explained ≡ false → r' ≡ r

pub Kept-refl : (r : StorageRow) → Kept r r
Kept-refl r = record { raw = refl; known = λ h. h; rest = λ h. refl }

Kept-trans : (r s t : StorageRow) → Kept r s → Kept s t → Kept r t
Kept-trans r s t k l = record {
  raw = l.raw ∙ k.raw;
  known = λ h. l.known (k.known h);
  rest = λ h. let e = l.rest h in e ∙ k.rest (subst (λ x. x.explained ≡ false) e h);
}

-- A row that becomes explained.
pub Kept-explained :
    (r r' : StorageRow) → r'.raw_value ≡ r.raw_value → r'.explained ≡ true → Kept r r'
Kept-explained r r' raw e = record { raw = raw; known = λ h. e; rest = λ h. absurd (cc) }

-- Every row is still there, and is kept.
abbrev pub Grows : Rows → Rows → Type 0
Grows rows rows' =
    (k : Text) (r : StorageRow)
    → lookup k rows ≡ some r
    → (r' : StorageRow) × (lookup k rows' ≡ some r') × Kept r r'

pub Grows-refl : (rows : Rows) → Grows rows rows
Grows-refl rows k r h = (r, h, Kept-refl r)

pub Grows-trans :
    (rows rows1 rows2 : Rows) → Grows rows rows1 → Grows rows1 rows2 → Grows rows rows2
Grows-trans rows rows1 rows2 g g' k r h =
    let (r1, h1, kept) = g k r h in
    let (r2, h2, kept') = g' k r1 h1 in (r2, h2, Kept-trans r r1 r2 kept kept')

pub Grows-insert :
    (k : Text) (r' : StorageRow) (rows : Rows)
    → ((r : StorageRow) → lookup k rows ≡ some r → Kept r r')
    → Grows rows (insert k r' rows)
Grows-insert k r' rows kept j r h = elim (text_discrete j k) [
  | yes e ↦ (
    r',
    subst (λ x. lookup x (insert k r' rows) ≡ some r') (sym e) (lookup-insert_self k r' rows),
    kept r (subst (λ x. lookup x rows ≡ some r) e h),
  )
  | no n ↦ (r, lookup-insert_ne j k r' rows n ∙ h, Kept-refl r)
]

pub Grows-insert-none :
    (k : Text) (r' : StorageRow) (rows : Rows)
    → lookup k rows ≡ none
    → Grows rows (insert k r' rows)
Grows-insert-none k r' rows free = Grows-insert k r' rows (λ r h. absurd (cc))

pub Grows-insert-some :
    (k : Text) (r r' : StorageRow) (rows : Rows)
    → lookup k rows ≡ some r
    → Kept r r'
    → Grows rows (insert k r' rows)
Grows-insert-some k r r' rows there kept =
    Grows-insert k r' rows (λ s h. subst (λ x. Kept x r') (some-injective _ _ (sym there ∙ h)) kept)

update-Grows :
    (k : Text) (f : StorageRow → StorageRow) (rows : Rows) (o : Option StorageRow)
    → lookup k rows ≡ o
    → ((r : StorageRow) → lookup k rows ≡ some r → Kept r (f r))
    → Grows rows (elim o [ none ↦ rows | some r ↦ insert k (f r) rows ])
update-Grows k f rows none e kept = Grows-refl rows
update-Grows k f rows (some r) e kept = Grows-insert-some k r (f r) rows e (kept r e)

pub Grows-update :
    (k : Text) (f : StorageRow → StorageRow) (rows : Rows)
    → ((r : StorageRow) → lookup k rows ≡ some r → Kept r (f r))
    → Grows rows (update k f rows)
unfolding update
Grows-update k f rows kept = update-Grows k f rows (lookup k rows) refl kept

pub Grows-mark :
    (k : Text) (reading : Text → Text) (what : Text) (rows : Rows)
    → Grows rows (update k (mark reading what) rows)
Grows-mark k reading what rows =
    Grows-update k (mark reading what) rows
      (λ r h. Kept-explained r (mark reading what r) refl refl)

pub Grows-explain_count :
    (k missing found : Text) (rows : Rows) → Grows rows (explain_count k missing found rows).1
unfolding explain_count
Grows-explain_count k missing found rows = by_row (lookup k rows) refl
  where
    by_row :
        (o : Option StorageRow)
        → lookup k rows ≡ o
        → Grows rows
            (elim o as (λ x. ℤ × Rows) [
              | none ↦ (pos 0, insert k (unset missing) rows)
              | some r ↦ (atoi_dropped r.raw_value, insert k (mark as_read found r) rows)
            ]).1
    by_row none e = Grows-insert-none k (unset missing) rows e
    by_row (some r) e =
        Grows-insert-some k r (mark as_read found r) rows e
          (Kept-explained r (mark as_read found r) refl refl)
