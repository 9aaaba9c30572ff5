-- ===== src/Docker/Names.antt =====
-- The names of an archive: a path relative to the root, unless the root comes again in the path.
use botcoin.Base.{
  ℕ, zero, suc, Text, ◌≡◌, refl, sym, ap, ◌∙◌, ◌≤◌, ◌-◌, true, false, [], ◌∷◌, ◌++◌, nat_eq, arith,
  length, drop, length-append,
}
use mathlib.Core.List.{append-nil}
use botcoin.Base.Bytes.{has_prefix, trim_prefix}
use botcoin.Base.Bytes.Path.{slash}
use botcoin.Docker.Archive.{remove_all, header_name}

-- The text does not start anywhere in the first part of a longer one.
abbrev pub IsClear : Text → Text → Text → Type 0
IsClear old [] rest = Unit {0}
IsClear old (c ∷ s) rest = (has_prefix old (c ∷ (s ++ rest)) ≡ false) × IsClear old s rest

has_prefix-append : (s t : Text) → has_prefix s (s ++ t) ≡ true
unfolding has_prefix
has_prefix-append [] t = refl
has_prefix-append (c ∷ s) t = ground (arith, has_prefix-append s t)

drop-append : (s t : Text) → drop (length s) (s ++ t) ≡ t
drop-append [] t = refl
drop-append (c ∷ s) t = drop-append s t

remove_all-front :
    (rounds : ℕ) (o : ℕ) (old t : Text)
    → remove_all (suc rounds) (o ∷ old) ((o ∷ old) ++ t) ≡ remove_all rounds (o ∷ old) t
unfolding remove_all
remove_all-front rounds o old t = rw (has_prefix-append (o ∷ old) t, drop-append old t) refl

remove_all-past :
    (n : ℕ) (old s rest : Text)
    → length s ≤ n
    → IsClear old s rest
    → remove_all n old (s ++ rest) ≡ s ++ remove_all (n - length s) old rest
unfolding remove_all
remove_all-past n old [] rest h clear =
    let e : n - 0 ≡ n = omega arith in ap (λ k. remove_all k old rest) (sym e)
remove_all-past zero old (c ∷ s) rest h clear = absurd (omega arith)
remove_all-past (suc n) old (c ∷ s) rest h clear =
    let e : suc n - suc (length s) ≡ n - length s = omega arith in
    rw (clear.0, e) (ap (λ u. c ∷ u) (remove_all-past n old s rest (omega arith) clear.1))

remove_all-clear : (n : ℕ) (old t : Text) → IsClear old t [] → remove_all n old t ≡ t
unfolding remove_all
remove_all-clear zero old t clear = refl
remove_all-clear (suc n) old [] clear = refl
remove_all-clear (suc n) old (c ∷ t) clear =
    let first : has_prefix old (c ∷ t) ≡ false = rw append-nil at (clear.0) in
    rw first (ap (λ u. c ∷ u) (remove_all-clear n old t clear.1))

-- The name of a path below the root is the path relative to it, if the root does not come again.
pub header_name-relative :
    (o : ℕ) (old rel : Text)
    → IsClear (o ∷ old) (b'/' ∷ rel) []
    → header_name (o ∷ old) ((o ∷ old) ++ (b'/' ∷ rel)) ≡ rel
unfolding header_name trim_prefix has_prefix
header_name-relative o old rel clear =
    let n = length (old ++ (b'/' ∷ rel)) in
    ap (trim_prefix slash)
      (remove_all-front n o old (b'/' ∷ rel) ∙ remove_all-clear n (o ∷ old) (b'/' ∷ rel) clear)

-- If the root comes once more in a path below it, and nowhere else, the file gets the name of another
-- file, whose path has the root only once, where the root does not come in the joined rest either.
pub header_name-repeated :
    (o : ℕ) (old s t : Text)
    → let root = o ∷ old in
      IsClear root s (root ++ t)
      → IsClear root s t
      → IsClear root t []
      → header_name root (root ++ (s ++ (root ++ t))) ≡ header_name root (root ++ (s ++ t))
unfolding header_name
header_name-repeated o old s t between joined behind =
    let root = o ∷ old in
    let n = length (old ++ (s ++ (root ++ t))) in
    let n' = length (old ++ (s ++ t)) in
    let k = n - length s - 1 in
    let left : n - length s ≡ suc k = omega (
      arith,
      length-append {0} old (s ++ (root ++ t)),
      length-append {0} s (root ++ t),
      length-append {0} root t,
    ) in
    let fits : length s ≤ n =
      omega (arith, length-append {0} old (s ++ (root ++ t)), length-append {0} s (root ++ t)) in
    let fits' : length s ≤ n' =
      omega (arith, length-append {0} old (s ++ t), length-append {0} s t) in
    ap (trim_prefix slash) (
      remove_all-front n o old (s ++ (root ++ t))
      ∙ remove_all-past n root s (root ++ t) fits between
      ∙ ap (λ j. s ++ remove_all j root (root ++ t)) left
      ∙ ap (λ u. s ++ u) (remove_all-front k o old t ∙ remove_all-clear k root t behind)
      ∙ sym (
          remove_all-front n' o old (s ++ t)
          ∙ remove_all-past n' root s t fits' joined
          ∙ ap (λ u. s ++ u) (remove_all-clear (n' - length s) root t behind)))
