-- ===== src/Crypto/Random.antt =====
-- src/crypto/passphrase.go: `RandomPassphrase`, over what `rand.Intn` draws.
use botcoin.Base.{
  ℕ, zero, suc, Text, ◌≡◌, refl, ap, ◌%◌, ◌≤◌, Option, none, some, inl, inr, [], ◌∷◌, length,
  get_elem?, get_elem?-total, All, In, arith,
}
use botcoin.Base.Bytes.{text}
use botcoin.Base.Result.{Result, ok, panic, ◌>>=◌}
use botcoin.Transactions.Draw.{Draws, intn, mod-lt_of_ne}

abbrev pub letter_bytes : Text
letter_bytes = text "abcdefghijklmnopqrstuvwxyzABCDEFGHIJKLMNOPQRSTUVWXYZ0123456789.,_"

-- An index out of range panics.
abbrev letter : Option ℕ → Result ℕ
letter none = panic
letter (some c) = ok c

unfoldable pub random_passphrase : ℕ → Draws → Result (Text × Draws)
random_passphrase zero draws = ok ([], draws)
random_passphrase (suc n) draws = do
  (i, rest) ← intn (length letter_bytes) draws
  c ← letter (get_elem? letter_bytes i)
  (passphrase, rest') ← random_passphrase n rest
  ok (c ∷ passphrase, rest')

get_elem?-In : (s : Text) (i : ℕ) {c : ℕ} → get_elem? s i ≡ some c → In c s
get_elem?-In [] i h = absurd (cc)
get_elem?-In (x ∷ s) zero h = inl (cc)
get_elem?-In (x ∷ s) (suc i) h = inr (get_elem?-In s i h)

-- With a draw for each letter, a passphrase of the length that is asked for is made, of the letters
-- alone.
pub random_passphrase-total :
    (n : ℕ) (draws : Draws)
    → n ≤ length draws
    → (s : Text) × (rest : Draws) × (random_passphrase n draws ≡ ok (s, rest))
      × (length s ≡ n)
      × All (λ c. In c letter_bytes) s
unfolding random_passphrase intn
random_passphrase-total zero draws h = ([], draws, refl, refl, tt)
random_passphrase-total (suc n) [] h = absurd (omega arith)
random_passphrase-total (suc n) (d ∷ draws) h =
    let (c, at) = get_elem?-total letter_bytes (d % 65) (mod-lt_of_ne d 65 refl) in
    let (s, rest, e, l, letters) = random_passphrase-total n draws (omega arith) in
    (c ∷ s, rest, rw (at, e) refl, ap suc l, (get_elem?-In letter_bytes (d % 65) at, letters))
