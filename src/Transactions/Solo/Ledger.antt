-- ===== src/Transactions/Solo/Ledger.antt =====
-- The books of the generated set: nonces, deltas, conservation and what the faucet pays.
use Prim.Native.Nat.{zero}
use botcoin.Base.{
  modify, length-modify, All-modify, ℕ, suc, Text, ◌+◌, ◌-◌, ◌<◌, ◌≡◌, ◌≢◌, refl, ap, Bool, true,
  false, List, [], ◌∷◌, ◌++◌, arith, length, get_elem?-total, ◌==◌, nat_eq, ◌%◌, ◌∙◌, sym, subst,
  map, All, inl, inr, Bool-cases,
}
use mathlib.Core.List.{append-nil, append_assoc, map-append}
use native.Mathlib.Numerals.{add-one}
use botcoin.Base.Result.{Result, ok, panic, >>=-eq-ok, ok-injective}
use botcoin.Transactions.Draw.{Draws, mod-lt_of_ne, draw_pair-bounds, draw_receiver-bounds}
use botcoin.Transactions.Solo.{
  SoloTransaction, SoloAccount, send, receive, transfer, draw_amount, pick, build_transactions,
  fund, fund_all, solo_transactions,
}
use botcoin.Transactions.Solo.Books.{
  IsBooked, send-IsBooked, receive-IsBooked, total_debits, total_credits, totals-send,
  totals-receive,
}

-- The books of the accounts without the faucet.
pub record IsSettled (accounts : List SoloAccount) : Type 0 where
  pub booked : All IsBooked accounts
  pub even : total_credits accounts ≡ total_debits accounts

-- A transfer between accounts that are there leaves the faucet alone and the books settled.
abbrev pub Settles : SoloAccount → List SoloAccount → Result (List SoloAccount) → Type 0
Settles f accounts r =
    (accounts' : List SoloAccount) × (r ≡ ok (f ∷ accounts'))
    × (length accounts' ≡ length accounts)
    × IsSettled accounts'

pub transfer-Settles :
    (from to amount : ℕ) (f : SoloAccount) (accounts : List SoloAccount)
    → from < length accounts
    → to < length accounts
    → IsSettled accounts
    → Settles f accounts (transfer from to amount (f ∷ accounts))
unfolding transfer
transfer-Settles from to amount f accounts hf ht v =
    let (a, e) = get_elem?-total accounts to ht in
    let sent = modify from (send a.address a.moniker amount) accounts in
    let same : length sent ≡ length accounts = length-modify from _ accounts in
    (
      modify to (receive amount) sent,
      rw (add-one to, add-one from, e),
      length-modify to _ sent ∙ same,
      record {
        booked = All-modify IsBooked to _ sent (receive-IsBooked amount) (
            All-modify IsBooked from _ accounts (send-IsBooked a.address a.moniker amount)
              v.booked);
        even = omega (
          arith,
          totals-send from a.address a.moniker amount accounts hf,
          totals-receive to amount sent (omega arith),
        );
      },
    )

pub pick-bounds :
    (round_robin : Bool) (i n : ℕ) (draws : Draws) {a b : ℕ} {rest : Draws}
    → pick round_robin i n draws ≡ ok (a, b, rest)
    → (a < n) × (b < n) × (a ≢ b)
unfolding pick
pick-bounds true i n draws {a} {b} {rest} h = elim (Bool-cases (n == 0)) [
  | inl z ↦
      let e : ◌≡◌ {A = Result (ℕ × ℕ × Draws)} panic (ok (a, b, rest)) = rw z at h in absurd (cc)
  | inr z ↦ draw_receiver-bounds n (i % n) draws (mod-lt_of_ne i n z) (rw z at h)
]
pick-bounds false i n draws h = draw_pair-bounds n draws h

-- What the loop leaves: the faucet as it was in front of as many accounts, with settled books.
abbrev AllSettled : SoloAccount → ℕ → List SoloAccount → Type 0
AllSettled f n res =
    (accounts : List SoloAccount) × (res ≡ f ∷ accounts)
    × (length accounts ≡ n)
    × IsSettled accounts

build-AllSettled :
    (rounds : ℕ) (round_robin : Bool) (max_value i : ℕ) (draws : Draws) (f : SoloAccount)
    (accounts : List SoloAccount) {res : List SoloAccount} {rest : Draws}
    → IsSettled accounts
    → build_transactions rounds round_robin max_value (length accounts) i draws (f ∷ accounts)
      ≡ ok (res, rest)
    → AllSettled f (length accounts) res
unfolding build_transactions
build-AllSettled zero rr mv i draws f accounts v h =
    (accounts, ap (λ (p : List SoloAccount × Draws). p.0) (sym (ok-injective h)), refl, v)
build-AllSettled (suc rounds) rr mv i draws f accounts {res} {rest = left} v h =
    let ((from, to, rest), e, h') = >>=-eq-ok (pick rr i (length accounts) draws) _ h in
    let ((amount, rest'), e', h'') = >>=-eq-ok (draw_amount mv rest) _ h' in
    let (accounts', e'', h3) = >>=-eq-ok (transfer from to amount (f ∷ accounts)) _ h'' in
    let (a, b, ne) = pick-bounds rr i (length accounts) draws e in
    let (settled, shape, same, v') = transfer-Settles from to amount f accounts a b v in
    let (final, shape', same', v'') =
      build-AllSettled rounds rr mv (i + 1) rest' f settled {res = res} {rest = left} v'
        (rw (same, ← ok-injective (sym e'' ∙ shape)) h3) in
    (final, shape', same' ∙ same, v'')

-- What the faucet pays, in order: each account by its address, and how much it gets.
abbrev pub payments : List SoloTransaction → List (Text × ℕ)
payments = map (λ (t : SoloTransaction). (t.to, t.amount))

abbrev pub needs : List SoloAccount → List (Text × ℕ)
needs = map (λ (a : SoloAccount). (a.address, a.debits))

fund_all-pays :
    (f : SoloAccount) (accounts : List SoloAccount)
    → payments (fund_all f accounts).transactions ≡ payments f.transactions ++ needs accounts
unfolding fund_all fund
fund_all-pays f [] = sym (append-nil _)
fund_all-pays f (a ∷ accounts) = fund_all-pays (fund f a) accounts ∙ simp (map-append, append_assoc)

fund_all-IsBooked :
    (f : SoloAccount) (accounts : List SoloAccount) → IsBooked f → IsBooked (fund_all f accounts)
unfolding fund_all fund
fund_all-IsBooked f [] v = v
fund_all-IsBooked f (a ∷ accounts) v =
    fund_all-IsBooked (fund f a) accounts (send-IsBooked a.address a.moniker a.debits f v)

-- A run over a faucet without transactions whose books are right, and over accounts whose books are
-- right and whose credits are in sum their debits, as they are of new accounts, leaves, when it ends
-- normally, the faucet in front of as many accounts. Of every one of them, the faucet too, the nonces
-- count up from 1, the next nonce follows them, the debits are the sum of its transactions, and the
-- delta is the credits less the debits. Without the faucet, the credits are in sum the debits. The
-- faucet pays each account, in order, exactly the account's debits.
pub solo_transactions-books :
    (count : ℕ) (round_robin : Bool) (max_value : ℕ) (draws : Draws) (f : SoloAccount)
    (accounts : List SoloAccount) {res : List SoloAccount}
    → IsBooked f
    → f.transactions ≡ []
    → IsSettled accounts
    → solo_transactions count round_robin max_value draws (f ∷ accounts) ≡ ok res
    → (faucet : SoloAccount) × (others : List SoloAccount) × (res ≡ faucet ∷ others)
      × (length others ≡ length accounts)
      × All IsBooked res
      × (total_credits others ≡ total_debits others)
      × (payments faucet.transactions ≡ needs others)
unfolding solo_transactions
solo_transactions-books count rr mv draws f accounts v fresh settled h =
    let n : suc (length accounts) - 1 ≡ length accounts = omega arith in
    let ((res', rest), e, h') =
      >>=-eq-ok (build_transactions count rr mv (length accounts) 0 draws (f ∷ accounts)) _
        (rw n at h) in
    let (others, shape, same, books) = build-AllSettled count rr mv 0 draws f accounts settled e in
    let final : fund_all f others ∷ others ≡ _ = rw shape at (ok-injective h') in
    (
      fund_all f others,
      others,
      sym final,
      same,
      subst (All IsBooked) final (fund_all-IsBooked f others v, books.booked),
      books.even,
      fund_all-pays f others ∙ ap (λ ts. payments ts ++ needs others) fresh,
    )
