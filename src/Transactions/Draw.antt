-- ===== src/Transactions/Draw.antt =====
-- What both commands draw: two accounts that differ, and an amount.
use botcoin.Base.{
  ℕ, ◌%◌, ◌<◌, ◌≡◌, ◌≢◌, ap, inl, inr, Bool-cases, false, List, [], ◌∷◌, ◌==◌, nat_eq,
  if◌then◌else◌, arith,
}
use botcoin.Base.Result.{Result, ok, panic, hang, ok-injective}

abbrev pub Draws : Type 0
Draws = List ℕ

-- `rand.Intn`
unfoldable pub intn : ℕ → Draws → Result (ℕ × Draws)
intn n [] = hang
intn n (d ∷ draws) = if n == 0 then panic else ok (d % n, draws)

-- The loop that draws a sender and a receiver until they differ.
unfoldable pub draw_pair : ℕ → Draws → Result (ℕ × ℕ × Draws)
draw_pair n [] = hang
draw_pair n (a ∷ []) = if n == 0 then panic else hang
draw_pair n (a ∷ b ∷ draws) =
    let again = draw_pair n draws in
    if n == 0 then panic else if a % n == b % n then again else ok (a % n, b % n, draws)

-- The same loop with a sender that is given.
unfoldable pub draw_receiver : ℕ → ℕ → Draws → Result (ℕ × ℕ × Draws)
draw_receiver n from [] = hang
draw_receiver n from (b ∷ draws) =
    let again = draw_receiver n from draws in
    if n == 0 then panic else if from == b % n then again else ok (from, b % n, draws)

pub mod-lt_of_ne : (x n : ℕ) → (n == 0) ≡ false → x % n < n
mod-lt_of_ne x n h = let p : 0 < n = ground arith in grind arith

-- What is drawn are two different numbers below `n`.
pub draw_pair-bounds :
    (n : ℕ) (draws : Draws) {a b : ℕ} {rest : Draws}
    → draw_pair n draws ≡ ok (a, b, rest)
    → (a < n) × (b < n) × (a ≢ b)
unfolding draw_pair
draw_pair-bounds n [] h = absurd (ground arith)
draw_pair-bounds n (x ∷ []) h = absurd (ground arith)
draw_pair-bounds n (x ∷ y ∷ draws) {a} {b} {rest} h = elim (Bool-cases (n == 0)) [
  | inl z ↦
      let e : ◌≡◌ {A = Result (ℕ × ℕ × Draws)} panic (ok (a, b, rest)) = rw z at h in absurd (cc)
  | inr z ↦ elim (Bool-cases (x % n == y % n)) [
    | inl same ↦ draw_pair-bounds n draws (rw (z, same) at h)
    | inr differ ↦
        let e : ◌≡◌ {A = Result (ℕ × ℕ × Draws)} (ok (x % n, y % n, draws)) (ok (a, b, rest)) =
          rw (z, differ) at h in
        let ea : x % n ≡ a = ap (λ (p : ℕ × ℕ × Draws). p.0) (ok-injective e) in
        let eb : y % n ≡ b = ap (λ (p : ℕ × ℕ × Draws). p.1) (ok-injective e) in
        rw (← ea, ← eb) (mod-lt_of_ne x n z, mod-lt_of_ne y n z, ground arith)
  ]
]

pub draw_receiver-bounds :
    (n from : ℕ) (draws : Draws) {a b : ℕ} {rest : Draws}
    → from < n
    → draw_receiver n from draws ≡ ok (a, b, rest)
    → (a < n) × (b < n) × (a ≢ b)
unfolding draw_receiver
draw_receiver-bounds n from [] l h = absurd (ground arith)
draw_receiver-bounds n from (y ∷ draws) {a} {b} {rest} l h = elim (Bool-cases (n == 0)) [
  | inl z ↦
      let e : ◌≡◌ {A = Result (ℕ × ℕ × Draws)} panic (ok (a, b, rest)) = rw z at h in absurd (cc)
  | inr z ↦ elim (Bool-cases (from == y % n)) [
    | inl same ↦ draw_receiver-bounds n from draws l (rw (z, same) at h)
    | inr differ ↦
        let e : ◌≡◌ {A = Result (ℕ × ℕ × Draws)} (ok (from, y % n, draws)) (ok (a, b, rest)) =
          rw (z, differ) at h in
        let ea : from ≡ a = ap (λ (p : ℕ × ℕ × Draws). p.0) (ok-injective e) in
        let eb : y % n ≡ b = ap (λ (p : ℕ × ℕ × Draws). p.1) (ok-injective e) in
        rw (← ea, ← eb) (l, mod-lt_of_ne y n z, ground arith)
  ]
]
