-- ===== src/Transactions/Solo/Tests.antt =====
-- A run of three transactions between two accounts.
use botcoin.Base.{◌≡◌, refl, false, List, [], ◌∷◌, arith, length, All}
use botcoin.Base.Bytes.{text}
use botcoin.Base.Result.{Result, ok}
use botcoin.Transactions.Draw.{Draws, draw_pair}
use botcoin.Transactions.Solo.{
  SoloAccount, new_account, transfer, draw_amount, pick, build_transactions, solo_transactions,
}
use botcoin.Transactions.Solo.Ledger.{IsSettled, payments, needs, solo_transactions-books}
use botcoin.Transactions.Solo.Books.{total_credits}
use botcoin.Transactions.Solo.Books.{total_debits}
use botcoin.Transactions.Solo.Books.{new_account-IsBooked}
use botcoin.Transactions.Solo.Books.{IsBooked}
use botcoin.Transactions.Solo.Bounds.{AreWithin, solo_transactions-within}
use botcoin.Transactions.Solo.Total.{Serves, enough, again, round, solo_transactions-total}

abbrev faucet : SoloAccount
faucet = new_account (text "Faucet") (text "f")

abbrev pair : List SoloAccount
pair = new_account (text "a") (text "1") ∷ new_account (text "b") (text "2") ∷ []

-- The second pair falls on one account and is drawn again.
abbrev draws : Draws
draws = 0 ∷ 1 ∷ 7 ∷ 1 ∷ 3 ∷ 1 ∷ 2 ∷ 5 ∷ 0 ∷ 3 ∷ 9 ∷ []

draws-Serves : Serves 2 3 draws
draws-Serves = round (λ e. cc) (again refl (round (λ e. cc) (round (λ e. cc) (enough []))))

pair-IsSettled : IsSettled pair
unfolding new_account
pair-IsSettled = record {
  booked = (new_account-IsBooked _ _, (new_account-IsBooked _ _, tt));
  even = refl;
}

abbrev accounts_of : Result (List SoloAccount) → List SoloAccount
accounts_of (ok accounts) = accounts
accounts_of _ = []

abbrev run : Result (List SoloAccount)
run = solo_transactions 3 false 1 draws (faucet ∷ pair)

run_ok : run ≡ ok (accounts_of run)
unfolding solo_transactions build_transactions pick draw_pair draw_amount transfer
run_ok = refl

solo_transactions-books_example :
    (paid : SoloAccount) × (others : List SoloAccount) × (accounts_of run ≡ paid ∷ others)
    × (length others ≡ 2)
    × All IsBooked (accounts_of run)
    × (total_credits others ≡ total_debits others)
    × (payments paid.transactions ≡ needs others)
unfolding new_account
solo_transactions-books_example =
    solo_transactions-books 3 false 1 draws faucet pair
      (new_account-IsBooked (text "Faucet") (text "f")) refl pair-IsSettled run_ok

solo_transactions-total_example :
    (res : List SoloAccount) × (solo_transactions 3 false 1 draws (faucet ∷ pair) ≡ ok res)
solo_transactions-total_example =
    solo_transactions-total 3 1 draws faucet pair (omega arith) (omega arith) (omega arith)
      draws-Serves pair-IsSettled

abbrev first_of : List SoloAccount → SoloAccount
first_of [] = faucet
first_of (a ∷ accounts) = a

abbrev others_of : List SoloAccount → List SoloAccount
others_of [] = []
others_of (a ∷ accounts) = accounts

run_split : run ≡ ok (first_of (accounts_of run) ∷ others_of (accounts_of run))
unfolding solo_transactions build_transactions pick draw_pair draw_amount transfer
run_split = refl

solo_transactions-within_example : All (AreWithin 1) (others_of (accounts_of run))
unfolding new_account
solo_transactions-within_example =
    solo_transactions-within 3 false 1 draws (faucet ∷ pair) (omega arith) (omega arith)
      (tt, (tt, (tt, tt))) run_split
