-- ===== src/Transactions/Generate/Books.antt =====
-- The books of the accounts of a network: their sums, and what one transfer changes.
use Prim.Native.Nat.{zero}
use botcoin.Base.{
  ℕ, suc, ◌+◌, ◌<◌, ◌≡◌, refl, ap, List, [], ◌∷◌, ◌++◌, arith, length, modify, All, map,
}
use botcoin.Base.Int.{pos, pos_part}
use botcoin.Transactions.Generate.{Account, FullTransaction, AccountBook, debit_book, credit_book}

abbrev total_sent : List FullTransaction → ℕ
total_sent [] = 0
total_sent (t ∷ ts) = pos_part t.amount + total_sent ts

abbrev sum_debits : List AccountBook → ℕ
sum_debits [] = 0
sum_debits (b ∷ books) = b.debit + sum_debits books

abbrev sum_credits : List AccountBook → ℕ
sum_credits [] = 0
sum_credits (b ∷ books) = b.credit + sum_credits books

-- The debits of an account are what it sends.
abbrev pub IsKept : AccountBook → Type 0
IsKept b = b.debit ≡ total_sent b.transactions

pub total_sent-append :
    (ts : List FullTransaction) (t : FullTransaction)
    → total_sent (ts ++ (t ∷ [])) ≡ total_sent ts + pos_part t.amount
total_sent-append [] t = omega arith
total_sent-append (u ∷ ts) t = omega (arith, total_sent-append ts t)

-- The books of these accounts, in order, and all transactions.
pub record AreEven (accounts : List Account) (books : List AccountBook)
    (full : List FullTransaction) : Type 0 where
  pub owners : map (λ (b : AccountBook). b.account) books ≡ accounts
  pub kept : All IsKept books
  pub credits : sum_credits books ≡ sum_debits books
  pub total : sum_debits books ≡ total_sent full

pub sums-debit :
    (i amount : ℕ) (t : FullTransaction) (books : List AccountBook)
    → i < length books
    → (sum_debits (modify i (debit_book amount t) books) ≡ sum_debits books + amount)
      × (sum_credits (modify i (debit_book amount t) books) ≡ sum_credits books)
unfolding debit_book
sums-debit i amount t [] h = absurd (omega arith)
sums-debit zero amount t (b ∷ books) h = omega arith
sums-debit (suc i) amount t (b ∷ books) h = omega (arith, sums-debit i amount t books (omega arith))

pub sums-credit :
    (i amount : ℕ) (books : List AccountBook)
    → i < length books
    → (sum_debits (modify i (credit_book amount) books) ≡ sum_debits books)
      × (sum_credits (modify i (credit_book amount) books) ≡ sum_credits books + amount)
unfolding credit_book
sums-credit i amount [] h = absurd (omega arith)
sums-credit zero amount (b ∷ books) h = omega arith
sums-credit (suc i) amount (b ∷ books) h = omega (arith, sums-credit i amount books (omega arith))

pub debit_book-IsKept :
    (amount : ℕ) (t : FullTransaction)
    → t.amount ≡ pos amount
    → (b : AccountBook) → IsKept b
    → IsKept (debit_book amount t b)
unfolding debit_book
debit_book-IsKept amount t e b k =
    let same : pos_part t.amount ≡ amount = ap pos_part e in
    omega (arith, total_sent-append b.transactions t)

pub credit_book-IsKept : (amount : ℕ) (b : AccountBook) → IsKept b → IsKept (credit_book amount b)
unfolding credit_book
credit_book-IsKept amount b k = k

pub owners-modify :
    (i : ℕ) (f : AccountBook → AccountBook) (books : List AccountBook)
    → ((b : AccountBook) → (f b).account ≡ b.account)
    → map (λ (b : AccountBook). b.account) (modify i f books)
      ≡ map (λ (b : AccountBook). b.account) books
owners-modify i f [] same = refl
owners-modify zero f (b ∷ books) same =
    ap (λ a. a ∷ map (λ (c : AccountBook). c.account) books) (same b)
owners-modify (suc i) f (b ∷ books) same =
    ap (λ rest. b.account ∷ rest) (owners-modify i f books same)

pub debit_book-account :
    (amount : ℕ) (t : FullTransaction) (b : AccountBook)
    → (debit_book amount t b).account ≡ b.account
unfolding debit_book
debit_book-account amount t b = refl

pub credit_book-account :
    (amount : ℕ) (b : AccountBook) → (credit_book amount b).account ≡ b.account
unfolding credit_book
credit_book-account amount b = refl
