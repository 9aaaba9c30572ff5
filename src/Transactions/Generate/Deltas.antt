-- ===== src/Transactions/Generate/Deltas.antt =====
-- What the deltas of a generated set say.
use Prim.Native.Nat.{zero}
use botcoin.Base.{
  ℕ, suc, Text, ◌+◌, ◌*◌, ◌<◌, ◌≡◌, refl, sym, ap, ◌∙◌, subst, Option, none, some, List, [], ◌∷◌,
  ◌++◌, arith, length, get_elem?, get_elem?-total, modify, length-modify, All-modify, map, inl, inr,
  Bool-cases, ltb,
}
use botcoin.Base.Int.{ℤ, pos, ◌+ℤ◌}
use botcoin.Base.Result.{Error, ok, err, >>=-eq-ok, ok-injective}
use botcoin.Transactions.Draw.{Draws, intn, draw_pair, draw_pair-bounds}
use botcoin.Transactions.Generate.{
  ApiNode, Account, FullTransaction, Delta, AccountBook, Parsed, Generated, new_book,
  new_transaction, draw_node, debit_book, credit_book, book_transfer, generate, delta_of,
  fund_accounts, generate_with, generate_transactions,
}
use botcoin.Transactions.Generate.Books.{
  IsKept, total_sent-append, AreEven, sums-debit, sums-credit, debit_book-IsKept,
  credit_book-IsKept, owners-modify, debit_book-account, credit_book-account,
}

-- A transfer between accounts that are there keeps the books even.
one-AreEven :
    (accounts : List Account) (n : ApiNode) (from to amount : ℕ) (books : List AccountBook)
    (full : List FullTransaction) {books' : List AccountBook} {t : FullTransaction}
    → from < length books
    → to < length books
    → book_transfer (get_elem? books from) (get_elem? books to) n from to amount books
      ≡ ok (books', t)
    → AreEven accounts books full
    → AreEven accounts books' (full ++ (t ∷ []))
unfolding new_transaction
one-AreEven accounts n from to amount books full {books'} {t} hf ht h v =
    let (f, ef) = get_elem?-total books from hf in
    let (g, eg) = get_elem?-total books to ht in
    let tx = new_transaction n f.account g.account (pos amount) in
    let credited = modify to (credit_book amount) books in
    let same : length credited ≡ length books = length-modify to _ books in
    let shown : ok (modify from (debit_book amount tx) credited, tx) ≡ ok (books', t) =
      rw (ef, eg) at h in
    subst (λ (p : List AccountBook × FullTransaction). AreEven accounts p.0 (full ++ (p.1 ∷ [])))
      (ok-injective shown)
      (record {
        owners =
            owners-modify from (debit_book amount tx) credited (λ b. debit_book-account amount tx b)
            ∙ owners-modify to (credit_book amount) books (credit_book-account amount)
            ∙ v.owners;
        kept =
            All-modify IsKept from _ credited (debit_book-IsKept amount tx refl)
              (All-modify IsKept to _ books (credit_book-IsKept amount) v.kept);
        credits = omega (
          arith,
          sums-credit to amount books ht,
          sums-debit from amount tx credited (omega arith),
          v.credits,
        );
        total = omega (
          arith,
          sums-credit to amount books ht,
          sums-debit from amount tx credited (omega arith),
          total_sent-append full tx,
          v.total,
        );
      })

generate-AreEven :
    (accounts : List Account) (rounds : ℕ) (nodes : List ApiNode) (draws : Draws)
    (books : List AccountBook) (full : List FullTransaction) {books' : List AccountBook}
    {full' : List FullTransaction} {rest : Draws}
    → AreEven accounts books full
    → generate rounds nodes draws books full ≡ ok (books', full', rest)
    → AreEven accounts books' full'
unfolding generate
generate-AreEven accounts zero nodes draws books full v h =
    subst (λ (p : List AccountBook × List FullTransaction × Draws). AreEven accounts p.0 p.1)
      (ok-injective h) v
generate-AreEven accounts (suc rounds) nodes draws books full v h =
    let ((from, to, rest), e, h1) = >>=-eq-ok (draw_pair (length books) draws) _ h in
    let ((d, rest'), e1, h2) = >>=-eq-ok (intn 99990 rest) _ h1 in
    let ((n, rest''), e2, h3) = >>=-eq-ok (draw_node nodes rest') _ h2 in
    let ((books1, t), e3, h4) =
      >>=-eq-ok
        (book_transfer (get_elem? books from) (get_elem? books to) n from to
          ((d + 9) * 100000000 * 100000000) books)
        _ h3 in
    let (a, b, ne) = draw_pair-bounds (length books) draws e in
    generate-AreEven accounts rounds nodes rest'' books1 (full ++ (t ∷ []))
      (one-AreEven accounts n from to _ books full a b e3 v) h4

new_books-AreEven : (accounts : List Account) → AreEven accounts (map new_book accounts) []
unfolding new_book
new_books-AreEven [] = record { kept = tt; credits = refl; total = refl; owners = refl }
new_books-AreEven (a ∷ accounts) =
    let v = new_books-AreEven accounts in
    record {
      kept = (refl, v.kept);
      credits = omega (arith, v.credits);
      total = omega (arith, v.total);
      owners = ap (λ rest. a ∷ rest) v.owners;
    }

-- What the faucet sends, in order: to which address, and how much.
abbrev pub grants : List FullTransaction → List (Text × ℤ)
grants = map (λ (t : FullTransaction). (t.to, t.amount))

abbrev pub promised : List Delta → List (Text × ℤ)
promised = map (λ (d : Delta). (d.address, d.faucet_credit))

fund_accounts-grants :
    (faucet : Account) (surplus : ℤ) (nodes : List ApiNode) (books : List AccountBook)
    (draws : Draws) {paid : List FullTransaction}
    → fund_accounts faucet surplus nodes books draws ≡ ok paid
    → grants paid ≡ promised (map (delta_of surplus) books)
unfolding fund_accounts new_transaction delta_of
fund_accounts-grants faucet surplus nodes [] draws h = ap grants (sym (ok-injective h))
fund_accounts-grants faucet surplus nodes (b ∷ books) draws h =
    let ((n, rest), e, h1) = >>=-eq-ok (draw_node nodes draws) _ h in
    let (others, e1, h2) = >>=-eq-ok (fund_accounts faucet surplus nodes books rest) _ h1 in
    ap grants (sym (ok-injective h2))
    ∙ ap (λ ts. (b.account.address, pos b.debit +ℤ surplus) ∷ ts)
        (fund_accounts-grants faucet surplus nodes books rest e1)

-- A run that ends normally has one book for each account of the network, in order. The debits of each
-- are what its transactions send; the credits are in sum the debits, and both are what all
-- transactions send. The deltas are those of the books, in order, and the faucet sends each account
-- what its delta promises, the debits and the surplus.
pub generate_transactions-even :
    (count : ℕ) (surplus : ℤ) (parsed : Parsed) (draws : Draws) {g : Generated}
    → generate_transactions count surplus parsed draws ≡ ok g
    → AreEven parsed.accounts g.books g.full_transactions
      × (g.deltas ≡ map (delta_of surplus) g.books)
      × (grants g.faucet_transactions ≡ promised g.deltas)
unfolding generate_transactions
generate_transactions-even count surplus parsed draws {g} h = by_faucet parsed.faucet h
  where
    by_faucet :
        (f : Option Account)
        → generate_with f count surplus parsed draws ≡ ok g
        → AreEven parsed.accounts g.books g.full_transactions
          × (g.deltas ≡ map (delta_of surplus) g.books)
          × (grants g.faucet_transactions ≡ promised g.deltas)
    by_faucet none k = absurd (cc)
    by_faucet (some faucet) k = elim (Bool-cases (ltb (length parsed.accounts) 2)) [
      | inl few ↦ let e : err Error.too_few_accounts ≡ ok g = rw few at k in absurd (cc)
      | inr many ↦
          let ((books, full, rest), e, k1) =
            >>=-eq-ok (generate count parsed.nodes draws (map new_book parsed.accounts) []) _
              (rw many at k) in
          let (paid, e1, k2) =
            >>=-eq-ok (fund_accounts faucet surplus parsed.nodes books rest) _ k1 in
          subst
            (λ (x : Generated).
              AreEven parsed.accounts x.books x.full_transactions
              × (x.deltas ≡ map (delta_of surplus) x.books)
              × (grants x.faucet_transactions ≡ promised x.deltas))
            (ok-injective k2)
            (
              generate-AreEven parsed.accounts count parsed.nodes draws
                  (map new_book parsed.accounts) [] (new_books-AreEven parsed.accounts) e,
              refl,
              fund_accounts-grants faucet surplus parsed.nodes books rest e1,
            )
    ]
