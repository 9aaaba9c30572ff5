-- ===== src/Genesis/Storage/Distinct.antt =====
-- Whether the slots that are written are different texts, as a test.
use botcoin.Base.{
  Text, ◌≡◌, true, false, Bool, ◌||◌, ◌&&◌, not, ◌==◌, text_eq, List, [], ◌∷◌, In, inl, inr, arith,
}
use botcoin.Genesis.Storage.Layout.{Nodup}

abbrev is_in : Text → List Text → Bool
is_in k [] = false
is_in k (x ∷ xs) = (k == x) || is_in k xs

abbrev pub distinct : List Text → Bool
distinct [] = true
distinct (k ∷ ks) = not (is_in k ks) && distinct ks

not_In : (k : Text) (xs : List Text) → is_in k xs ≡ false → ¬ In k xs
not_In k [] e h = h
not_In k (x ∷ xs) e (inl p) = ground arith
not_In k (x ∷ xs) e (inr h) = not_In k xs (ground arith) h

pub distinct-Nodup : (ks : List Text) → distinct ks ≡ true → Nodup ks
distinct-Nodup [] e = tt
distinct-Nodup (k ∷ ks) e = (not_In k ks (ground arith), distinct-Nodup ks (ground arith))
