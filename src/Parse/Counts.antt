-- ===== src/Parse/Counts.antt =====
-- How the parser reads the number of validators that src/genesis/storage.go writes.
use botcoin.Base.{
  ℕ, zero, suc, Text, ◌+◌, ◌-◌, ◌<◌, ◌≤◌, ◌≡◌, ◌≢◌, refl, sym, ap, subst, ◌∙◌, inl, inr, some, List,
  [], ◌∷◌, length, arith,
}
use native.Mathlib.Decide.{ℕ_discrete}
use mathlib.Core.Logic.{◌⊎◌}
use botcoin.Base.Int.{pos}
use botcoin.Base.Dict.{Dict, lookup}
use botcoin.Base.Bytes.Number.{hex_ℕ, atoi_dropped, scan_uint, dec_digit, digits, digit_chars}
use botcoin.Base.Result.{ok}
use botcoin.Genesis.Storage.{MinimalPeerRecord, Ethereum, slot, array_base, hex_length, get_storage}
use botcoin.Genesis.Storage.Layout.{Nodup, written, get_storage-layout}
use botcoin.Parse.Rows.{Rows, build_rows, explain_count, unexplained}
use botcoin.Parse.Explained.{as_row, lookup-build_rows}

abbrev AllBelow : (ℕ → Type 0) → ℕ → Type 0
AllBelow P zero = Unit
AllBelow P (suc k) = P k × AllBelow P k

AllBelow-at : (P : ℕ → Type 0) (k n : ℕ) → AllBelow P k → n < k → P n
AllBelow-at P zero n h lt = absurd (omega arith)
AllBelow-at P (suc k) n h lt = elim (by_order n k) [
  | inl e ↦ subst P (sym e) h.0
  | inr below ↦ AllBelow-at P k n h.1 (omega (arith, lt, below))
]
  where
    by_order : (a b : ℕ) → (a ≡ b) ⊎ (a ≢ b)
    by_order a b = elim (ℕ_discrete a b) [ yes e ↦ inl e | no f ↦ inr f ]

atoi_dropped-digit : (n : ℕ) → n < 10 → atoi_dropped (hex_length n) ≡ pos n
unfolding atoi_dropped hex_length hex_ℕ scan_uint dec_digit digits digit_chars
atoi_dropped-digit n =
    AllBelow-at (λ k. atoi_dropped (hex_length k) ≡ pos k) 10 n
      (refl, (refl, (refl, (refl, (refl, (refl, (refl, (refl, (refl, (refl, tt))))))))))

atoi_dropped-letter : (n : ℕ) → n < 6 → atoi_dropped (hex_length (10 + n)) ≡ pos 0
unfolding atoi_dropped hex_length hex_ℕ scan_uint dec_digit digits digit_chars
atoi_dropped-letter n =
    AllBelow-at (λ k. atoi_dropped (hex_length (10 + k)) ≡ pos 0) 6 n
      (refl, (refl, (refl, (refl, (refl, (refl, tt))))))

explain_count-at :
    (k missing found raw : Text) (rows : Rows)
    → lookup k rows ≡ some (unexplained raw)
    → (explain_count k missing found rows).0 ≡ atoi_dropped raw
unfolding explain_count
explain_count-at k missing found raw rows h = rw (h, explain_count) refl

module _ (E : Ethereum) where
  -- Of a storage that `GetStorage` has made, with slots that do not coincide, the parser counts the
  -- validators rightly if there are at most nine; if there are ten to fifteen, it counts none: the number
  -- is written in hexadecimal and read as a decimal one, and the error of that is dropped.
  pub get_storage-counted :
      (peer : MinimalPeerRecord) (peers : List MinimalPeerRecord) (missing found : Text)
      {st : Dict Text}
      → Nodup (slot 1 ∷ slot 2 ∷ written E (array_base E 2) (peer ∷ peers))
      → get_storage E (peer ∷ peers) ≡ ok st
      → let count = (explain_count (slot 1) missing found (build_rows st)).0 in
        (length (peer ∷ peers) < 10 → count ≡ pos (length (peer ∷ peers)))
        × (10 ≤ length (peer ∷ peers) → length (peer ∷ peers) < 16 → count ≡ pos 0)
  get_storage-counted peer peers missing found {st} distinct h =
      let n = length (peer ∷ peers) in
      let (one, _b, _c) = get_storage-layout E [] peer peers distinct h in
      let read =
        explain_count-at (slot 1) missing found (hex_length n) (build_rows st)
          (lookup-build_rows (slot 1) st ∙ ap as_row one) in
      (
        λ few. read ∙ atoi_dropped-digit n few,
        λ many few.
            let same : 10 + (n - 10) ≡ n = omega (arith, many) in
            read
            ∙ subst (λ m. atoi_dropped (hex_length m) ≡ pos 0) same
                (atoi_dropped-letter (n - 10) (omega (arith, many, few))),
      )
