-- ===== src/Transactions/Solo/Books.antt =====
-- The books of an account, and the sums over accounts.
use Prim.Native.Nat.{zero}
use botcoin.Base.{
  modify, ℕ, suc, Text, ◌+◌, ◌<◌, ◌≡◌, refl, List, [], ◌∷◌, ◌++◌, arith, length, nat_eq,
}
use botcoin.Base.Int.{pos_part, neg_part, int_laws}
use botcoin.Transactions.Solo.{SoloTransaction, SoloAccount, new_account, send, receive}

-- The nonces count up from `n`.
abbrev CountsFrom : ℕ → List SoloTransaction → Type 0
CountsFrom n [] = Unit
CountsFrom n (t ∷ ts) = (t.nonce ≡ n) × CountsFrom (n + 1) ts

abbrev total_amount : List SoloTransaction → ℕ
total_amount [] = 0
total_amount (t ∷ ts) = t.amount + total_amount ts

pub record IsBooked (a : SoloAccount) : Type 0 where
  pub counted : CountsFrom 1 a.transactions
  pub next : a.next_nonce ≡ length a.transactions + 1
  pub spent : a.debits ≡ total_amount a.transactions
  -- The delta is the credits less the debits.
  pub balanced : pos_part a.delta + a.debits ≡ neg_part a.delta + a.credits

CountsFrom-append :
    (n : ℕ) (ts : List SoloTransaction) (t : SoloTransaction)
    → CountsFrom n ts
    → t.nonce ≡ n + length ts
    → CountsFrom n (ts ++ (t ∷ []))
CountsFrom-append n [] t h e = (omega arith, tt)
CountsFrom-append n (u ∷ ts) t h e = (h.0, CountsFrom-append (n + 1) ts t h.1 (omega arith))

total_amount-append :
    (ts : List SoloTransaction) (t : SoloTransaction)
    → total_amount (ts ++ (t ∷ [])) ≡ total_amount ts + t.amount
total_amount-append [] t = omega arith
total_amount-append (u ∷ ts) t = omega (arith, total_amount-append ts t)

length-snoc :
    (ts : List SoloTransaction) (t : SoloTransaction) → length (ts ++ (t ∷ [])) ≡ length ts + 1
length-snoc [] t = omega arith
length-snoc (u ∷ ts) t = omega (arith, length-snoc ts t)

pub new_account-IsBooked : (moniker address : Text) → IsBooked (new_account moniker address)
unfolding new_account
new_account-IsBooked moniker address = record {
  counted = tt;
  next = omega arith;
  spent = refl;
  balanced = refl;
}

pub send-IsBooked :
    (to to_name : Text) (amount : ℕ) (a : SoloAccount)
    → IsBooked a
    → IsBooked (send to to_name amount a)
unfolding send
send-IsBooked to to_name amount a v = record {
  counted = CountsFrom-append 1 a.transactions _ v.counted (omega arith);
  next = omega (arith, length-snoc a.transactions _);
  spent = omega (arith, total_amount-append a.transactions _);
  balanced = omega int_laws;
}

pub receive-IsBooked : (amount : ℕ) (a : SoloAccount) → IsBooked a → IsBooked (receive amount a)
unfolding receive
receive-IsBooked amount a v = record {
  counted = v.counted;
  next = v.next;
  spent = v.spent;
  balanced = omega int_laws;
}

abbrev pub total_debits : List SoloAccount → ℕ
total_debits [] = 0
total_debits (a ∷ accounts) = a.debits + total_debits accounts

abbrev pub total_credits : List SoloAccount → ℕ
total_credits [] = 0
total_credits (a ∷ accounts) = a.credits + total_credits accounts

pub totals-send :
    (i : ℕ) (to to_name : Text) (amount : ℕ) (accounts : List SoloAccount)
    → i < length accounts
    → (total_debits (modify i (send to to_name amount) accounts) ≡ total_debits accounts + amount)
      × (total_credits (modify i (send to to_name amount) accounts) ≡ total_credits accounts)
unfolding send
totals-send i to to_name amount [] h = absurd (omega arith)
totals-send zero to to_name amount (a ∷ accounts) h = omega arith
totals-send (suc i) to to_name amount (a ∷ accounts) h =
    omega (arith, totals-send i to to_name amount accounts (omega arith))

pub totals-receive :
    (i amount : ℕ) (accounts : List SoloAccount)
    → i < length accounts
    → (total_debits (modify i (receive amount) accounts) ≡ total_debits accounts)
      × (total_credits (modify i (receive amount) accounts) ≡ total_credits accounts + amount)
unfolding receive
totals-receive i amount [] h = absurd (omega arith)
totals-receive zero amount (a ∷ accounts) h = omega arith
totals-receive (suc i) amount (a ∷ accounts) h =
    omega (arith, totals-receive i amount accounts (omega arith))
