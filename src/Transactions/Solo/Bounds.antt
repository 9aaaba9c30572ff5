-- ===== src/Transactions/Solo/Bounds.antt =====
-- The amounts that `giverny transactions solo` draws.
use Prim.Native.Nat.{zero}
use botcoin.Base.{
  ℕ, suc, ◌+◌, ◌-◌, ◌*◌, ◌%◌, ◌≤◌, ◌<◌, ◌≡◌, false, leb, ap, subst, Bool, Option, none, some, List,
  [], ◌∷◌, ◌==◌, nat_eq, arith, length, get_elem?, All, All-append, All-modify,
}
use botcoin.Base.Result.{Result, ok, >>=-eq-ok, ok-injective}
use botcoin.Transactions.Draw.{Draws, intn, mod-lt_of_ne}
use botcoin.Transactions.Solo.{
  SoloTransaction, SoloAccount, send, receive, transfer_to, transfer, amount_bound, draw_amount,
  pick, build_transactions, with_faucet, solo_transactions,
}

-- Between 9 and `max_value` hundreds less 2 of the unit, which is a hundredth of a token.
abbrev pub IsWithin : ℕ → SoloTransaction → Type 0
IsWithin max_value t =
    (9 * 10000000000000000 ≤ t.amount) × (t.amount ≤ (max_value * 100 - 2) * 10000000000000000)

abbrev pub AreWithin : ℕ → SoloAccount → Type 0
AreWithin max_value a = All (IsWithin max_value) a.transactions

abbrev Fits : ℕ → ℕ → Type 0
Fits max_value amount =
    (9 * 10000000000000000 ≤ amount) × (amount ≤ (max_value * 100 - 2) * 10000000000000000)

pub amount_bound-fits :
    (max_value : ℕ)
    → 0 < max_value
    → max_value * 100 < 9223372036854775808
    → amount_bound max_value ≡ max_value * 100 - 10
unfolding amount_bound
amount_bound-fits mv p fits = omega arith

draw_amount-Fits :
    (max_value : ℕ) (draws : Draws) {amount : ℕ} {rest : Draws}
    → 0 < max_value
    → max_value * 100 < 9223372036854775808
    → draw_amount max_value draws ≡ ok (amount, rest)
    → Fits max_value amount
unfolding draw_amount intn
draw_amount-Fits mv [] p fits h = absurd (ground arith)
draw_amount-Fits mv (d ∷ draws) {amount} {rest} p fits h =
    let b = amount_bound-fits mv p fits in
    let small : leb 9223372036854775808 (amount_bound mv) ≡ false = ground arith in
    let z : (amount_bound mv == 0) ≡ false = ground arith in
    let e : ◌≡◌ {A = Result (ℕ × Draws)}
        (ok ((d % amount_bound mv + 9) * 100000000 * 100000000, draws)) (ok (amount, rest)) =
      rw (small, z) at h in
    let shape : (d % amount_bound mv + 9) * 100000000 * 100000000 ≡ amount =
      ap (λ (p : ℕ × Draws). p.0) (ok-injective e) in
    let below = mod-lt_of_ne d (amount_bound mv) z in
    (omega (arith, shape, below, b), omega (arith, shape, below, b))

transfer-AreWithin :
    (max_value from to amount : ℕ) (accounts : List SoloAccount) {res : List SoloAccount}
    → Fits max_value amount
    → All (AreWithin max_value) accounts
    → transfer from to amount accounts ≡ ok res
    → All (AreWithin max_value) res
unfolding transfer send receive
transfer-AreWithin mv from to amount accounts {res} fits within h =
    by_receiver (get_elem? accounts (to + 1)) h
  where
    by_receiver :
        (o : Option SoloAccount)
        → transfer_to o (from + 1) (to + 1) amount accounts ≡ ok res
        → All (AreWithin mv) res
    by_receiver none e = absurd (cc)
    by_receiver (some r) e = subst (All (AreWithin mv)) (ok-injective e) (
        All-modify (AreWithin mv) (to + 1) (receive amount) _ (λ a p. p)
          (All-modify (AreWithin mv) (from + 1) (send r.address r.moniker amount) accounts
            (λ a p. All-append (IsWithin mv) a.transactions _ p (fits, tt)) within))

build-AreWithin :
    (rounds : ℕ) (round_robin : Bool) (max_value n i : ℕ) (draws : Draws)
    (accounts : List SoloAccount) {res : List SoloAccount} {rest : Draws}
    → 0 < max_value
    → max_value * 100 < 9223372036854775808
    → All (AreWithin max_value) accounts
    → build_transactions rounds round_robin max_value n i draws accounts ≡ ok (res, rest)
    → All (AreWithin max_value) res
unfolding build_transactions
build-AreWithin zero rr mv n i draws accounts pos_value fits within h =
    subst (All (AreWithin mv)) (ap (λ (p : List SoloAccount × Draws). p.0) (ok-injective h)) within
build-AreWithin (suc rounds) rr mv n i draws accounts {res} {rest = left} pos_value fits within h =
    let ((from, to, rest), e, h') = >>=-eq-ok (pick rr i n draws) _ h in
    let ((amount, rest'), e', h'') = >>=-eq-ok (draw_amount mv rest) _ h' in
    let (accounts', e'', h3) = >>=-eq-ok (transfer from to amount accounts) _ h'' in
    build-AreWithin rounds rr mv n (i + 1) rest' accounts' {res = res} {rest = left} pos_value fits
      (transfer-AreWithin mv from to amount accounts (draw_amount-Fits mv rest pos_value fits e')
        within e'')
      h3

faucet_aside :
    (max_value : ℕ) (accounts : List SoloAccount) {faucet : SoloAccount} {others : List SoloAccount}
    → All (AreWithin max_value) accounts
    → with_faucet accounts ≡ faucet ∷ others
    → All (AreWithin max_value) others
faucet_aside mv [] within h = absurd (cc)
faucet_aside mv (f ∷ accounts) {faucet} {others} within h =
    let same : accounts ≡ others = cc in subst (All (AreWithin mv)) same within.1

-- With a maximum of a token or more whose hundredths an int of 64 bits holds: when a run ends normally,
-- every transaction of an account, other than those of the faucet, is of 9 hundredths of a token at
-- least, and of two hundredths of a token less than the maximum at most, if those that the accounts had
-- before are.
pub solo_transactions-within :
    (count : ℕ) (round_robin : Bool) (max_value : ℕ) (draws : Draws) (accounts : List SoloAccount)
    {faucet : SoloAccount} {others : List SoloAccount}
    → 0 < max_value
    → max_value * 100 < 9223372036854775808
    → All (AreWithin max_value) accounts
    → solo_transactions count round_robin max_value draws accounts ≡ ok (faucet ∷ others)
    → All (AreWithin max_value) others
unfolding solo_transactions
solo_transactions-within count rr mv draws accounts pos_value fits within h =
    let ((built, rest), e, h') =
      >>=-eq-ok (build_transactions count rr mv (length accounts - 1) 0 draws accounts) _ h in
    faucet_aside mv built
      (build-AreWithin count rr mv (length accounts - 1) 0 draws accounts pos_value fits within e)
      (ok-injective h')
