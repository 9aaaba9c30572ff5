-- ===== src/Transactions/Solo/Total.antt =====
-- The loops of `giverny transactions solo` end when enough of the pairs that are drawn differ.
use Prim.Native.Nat.{zero}
use botcoin.Base.{
  ℕ, suc, ◌+◌, ◌-◌, ◌*◌, ◌%◌, ◌≤◌, ◌<◌, ◌≡◌, ◌≢◌, refl, false, List, ◌∷◌, arith, length, nat_eq,
  leb, ◌==◌,
}
use botcoin.Base.Result.{ok}
use botcoin.Transactions.Draw.{Draws, intn, draw_pair}
use botcoin.Transactions.Solo.Bounds.{amount_bound-fits}
use botcoin.Transactions.Solo.{
  SoloAccount, amount_bound, draw_amount, pick, build_transactions, solo_transactions, with_faucet,
}
use botcoin.Transactions.Solo.Ledger.{IsSettled, transfer-Settles, pick-bounds}

-- Draws that serve a number of rounds with `n` accounts: pairs that fall on one account are drawn
-- again, and each round takes a pair that does not and a draw for the amount.
pub data Serves (n : ℕ) : ℕ → Draws → Type 0 where
  enough : (draws : Draws) → Serves n zero draws
  again :
      {rounds a b : ℕ} {draws : Draws}
      → a % n ≡ b % n
      → Serves n rounds draws
      → Serves n rounds (a ∷ b ∷ draws)
  round :
      {rounds a b d : ℕ} {draws : Draws}
      → a % n ≢ b % n
      → Serves n rounds draws
      → Serves n (suc rounds) (a ∷ b ∷ d ∷ draws)

-- One round can be drawn, and what is left serves the others.
Drawn : ℕ → ℕ → ℕ → Draws → Type 0
Drawn n max_value rounds draws =
    (from : ℕ) × (to : ℕ) × (rest : Draws) × (amount : ℕ) × (rest' : Draws) × (draw_pair n draws
      ≡ ok (from, to, rest))
    × (draw_amount max_value rest ≡ ok (amount, rest'))
    × Serves n rounds rest'

Serves-Drawn :
    (n max_value rounds : ℕ) (draws : Draws)
    → 0 < n
    → 0 < max_value
    → max_value * 100 < 9223372036854775808
    → Serves n (suc rounds) draws
    → Drawn n max_value rounds draws
unfolding Drawn draw_pair draw_amount intn
Serves-Drawn n mv rounds _ p q fits (again {a} {b} {draws} same s) =
    let (from, to, rest, amount, rest', e, e', s') = Serves-Drawn n mv rounds draws p q fits s in
    (from, to, rest, amount, rest', ground arith, e', s')
Serves-Drawn n mv rounds _ p q fits (round {a} {b} {d} {draws} differ s) =
    let bound = amount_bound-fits mv q fits in
    let small : leb 9223372036854775808 (amount_bound mv) ≡ false = ground arith in
    let z : (amount_bound mv == 0) ≡ false = ground arith in
    (
      a % n,
      b % n,
      d ∷ draws,
      (d % amount_bound mv + 9) * 100000000 * 100000000,
      draws,
      ground arith,
      rw (small, z) refl,
      s,
    )

build-total :
    (rounds max_value i : ℕ) (draws : Draws) (f : SoloAccount) (accounts : List SoloAccount)
    → 0 < max_value
    → max_value * 100 < 9223372036854775808
    → 0 < length accounts
    → Serves (length accounts) rounds draws
    → IsSettled accounts
    → (res : List SoloAccount) × (rest : Draws) × (build_transactions rounds false max_value
          (length accounts)
          i
          draws
          (f ∷ accounts)
        ≡ ok (res, rest))
unfolding build_transactions pick Drawn
build-total zero mv i draws f accounts q fits p s v = (f ∷ accounts, draws, refl)
build-total (suc rounds) mv i draws f accounts q fits p s v =
    let (from, to, rest, amount, rest', e, e', s') =
      Serves-Drawn (length accounts) mv rounds draws p q fits s in
    let (a, b, ne) = pick-bounds false i (length accounts) draws e in
    let (settled, shape, same, v') = transfer-Settles from to amount f accounts a b v in
    let (res, left, final) =
      build-total rounds mv (i + 1) rest' f settled q fits (omega arith) (rw same s') v' in
    (res, left, rw (e, e', shape) (rw same at final))

pos_of_two : (n : ℕ) → 2 ≤ n → 0 < n
pos_of_two n h = omega arith

-- With two accounts or more behind the faucet whose books are settled, a maximum of a token or more
-- whose hundredths an int of 64 bits holds, and draws that serve the number of rounds, a run in which the senders are drawn ends normally.
pub solo_transactions-total :
    (count max_value : ℕ) (draws : Draws) (f : SoloAccount) (accounts : List SoloAccount)
    → 0 < max_value
    → max_value * 100 < 9223372036854775808
    → 2 ≤ length accounts
    → Serves (length accounts) count draws
    → IsSettled accounts
    → (res : List SoloAccount) × (solo_transactions count false max_value draws (f ∷ accounts)
        ≡ ok res)
unfolding solo_transactions
solo_transactions-total count mv draws f accounts q fits p s v =
    let n : suc (length accounts) - 1 ≡ length accounts = omega arith in
    let (res, rest, e) = build-total count mv 0 draws f accounts q fits (pos_of_two _ p) s v in
    (with_faucet res, rw (n, e))
