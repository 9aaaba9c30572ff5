-- ===== src/Transactions/Solo.antt =====
-- cmd/giverny/commands/transactions/solo.go: the transactions of `giverny transactions solo`.
pub mod Books
pub mod Ledger
pub mod Total
pub mod Bounds
pub mod Command
mod Tests
use Prim.Native.Nat.{zero}
use botcoin.Base.{
  ℕ, suc, Text, ◌+◌, ◌-◌, ◌*◌, ◌%◌, ◌≤◌, ◌<◌, ◌≡◌, refl, Bool, true, false, Option, none, some,
  List, [], ◌∷◌, ◌++◌, ◌==◌, nat_eq, if◌then◌else◌, arith, length, get_elem?, modify, leb,
}
use botcoin.Base.Int.{ℤ, pos, ◌+ℤ◌, ◌-ℤ◌}
use botcoin.Base.Result.{Result, ok, err, panic, hang, ◌>>=◌}
use botcoin.Transactions.Draw.{Draws, intn, draw_pair, draw_receiver}

pub record SoloTransaction : Type 0 where
  pub to : Text
  pub to_name : Text
  pub nonce : ℕ
  pub amount : ℕ

pub record SoloAccount : Type 0 where
  pub moniker : Text
  pub address : Text
  pub next_nonce : ℕ
  pub credits : ℕ
  pub debits : ℕ
  pub delta : ℤ
  pub transactions : List SoloTransaction

-- An account as it is before any transaction.
unfoldable pub new_account : Text → Text → SoloAccount
new_account moniker address = record {
  moniker = moniker;
  address = address;
  next_nonce = 1;
  credits = 0;
  debits = 0;
  delta = pos 0;
  transactions = [];
}

-- The sender's part of a transaction, to an account of this address and name.
unfoldable pub send : Text → Text → ℕ → SoloAccount → SoloAccount
send to to_name amount a = record a {
  transactions =
      a.transactions
      ++ (record { to = to; to_name = to_name; nonce = a.next_nonce; amount = amount } ∷ []);
  next_nonce = a.next_nonce + 1;
  debits = a.debits + amount;
  delta = a.delta -ℤ pos amount;
}

-- The receiver's part.
unfoldable pub receive : ℕ → SoloAccount → SoloAccount
receive amount a = record a { credits = a.credits + amount; delta = a.delta +ℤ pos amount }

abbrev pub transfer_to :
    Option SoloAccount → ℕ → ℕ → ℕ → List SoloAccount → Result (List SoloAccount)
transfer_to none from to amount accounts = panic
transfer_to (some receiver) from to amount accounts = ok (
    modify to (receive amount)
      (modify from (send receiver.address receiver.moniker amount) accounts))

-- One transaction; the indices are those of the accounts without the faucet, which stands in front.
unfoldable pub transfer : ℕ → ℕ → ℕ → List SoloAccount → Result (List SoloAccount)
transfer from to amount accounts =
    transfer_to (get_elem? accounts (to + 1)) (from + 1) (to + 1) amount accounts

-- What the amounts are drawn below, in hundredths of a token, as an int of 64 bits: the product and the
-- difference wrap around. A maximum is given as 64 bits too.
unfoldable pub amount_bound : ℕ → ℕ
amount_bound max_value = (max_value * 100 + 18446744073709551606) % 18446744073709551616

-- A bound that is negative panics, as zero does. The sum with 9 is that of natural numbers: an int holds
-- it unless the bound lies within 8 of 2 ^ 63.
unfoldable pub draw_amount : ℕ → Draws → Result (ℕ × Draws)
unfolding amount_bound intn
draw_amount max_value draws = if leb 9223372036854775808 (amount_bound max_value) then panic else do
  (d, rest) ← intn (amount_bound max_value) draws
  ok ((d + 9) * 100000000 * 100000000, rest)

unfoldable pub pick : Bool → ℕ → ℕ → Draws → Result (ℕ × ℕ × Draws)
pick true i n draws = if n == 0 then panic else draw_receiver n (i % n) draws
pick false i n draws = draw_pair n draws

-- The loop over the transactions from number `i`, with the rounds that are left, between `n` accounts.
unfoldable pub build_transactions :
    ℕ → Bool → ℕ → ℕ → ℕ → Draws → List SoloAccount → Result (List SoloAccount × Draws)
build_transactions zero round_robin max_value n i draws accounts = ok (accounts, draws)
build_transactions (suc rounds) round_robin max_value n i draws accounts = do
  (from, to, rest) ← pick round_robin i n draws
  (amount, rest') ← draw_amount max_value rest
  accounts' ← transfer from to amount accounts
  build_transactions rounds round_robin max_value n (i + 1) rest' accounts'

-- What the faucet does for one account. Its balance is not credited there.
unfoldable pub fund : SoloAccount → SoloAccount → SoloAccount
unfolding send
fund faucet a = send a.address a.moniker a.debits faucet

unfoldable pub fund_all : SoloAccount → List SoloAccount → SoloAccount
unfolding fund
fund_all faucet [] = faucet
fund_all faucet (a ∷ accounts) = fund_all (fund faucet a) accounts

abbrev pub with_faucet : List SoloAccount → List SoloAccount
with_faucet [] = []
with_faucet (faucet ∷ accounts) = fund_all faucet accounts ∷ accounts

-- The transactions of a run over the faucet and the accounts behind it.
unfoldable pub solo_transactions :
    ℕ → Bool → ℕ → Draws → List SoloAccount → Result (List SoloAccount)
solo_transactions count round_robin max_value draws accounts = do
  (accounts', rest) ←
      build_transactions count round_robin max_value (length accounts - 1) 0 draws accounts
  ok (with_faucet accounts')
