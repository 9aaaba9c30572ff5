-- ===== src/Base/Bytes/Number.antt =====
-- Numbers as text: `strconv.Itoa`, `strconv.Atoi`, the verbs `%d` and `%x` of `fmt`, and
-- `encoding/hex`.
use Prim.Native.Nat.{ℕ, zero, suc, ◌+◌, ◌-◌, ◌*◌, ◌/◌, ◌%◌, ◌^◌}
use mathlib.Core.Bool.{◌&&◌}
use mathlib.Core.Option.{Option, none, some}
use mathlib.Core.List.{List, [], ◌∷◌, ◌++◌}
use botcoin.Base.Test.{Text, leb, ltb, ◌==◌, nat_eq, if◌then◌else◌}
use botcoin.Base.Lists.{length, replicate}
use botcoin.Base.Int.{ℤ, pos, negsuc, ◌-ℤ◌}

-- The digits of a number, the most significant first; the fuel bounds their count.
unfoldable pub digits_from : ℕ → ℕ → ℕ → List ℕ
digits_from zero b n = []
digits_from (suc f) b n =
    let rest = digits_from f b (n / b) in if ltb n b then n ∷ [] else rest ++ (n % b ∷ [])

unfoldable pub digits : ℕ → ℕ → List ℕ
unfolding digits_from
digits b n = digits_from (suc n) b n

-- A digit as a byte, in lower case.
unfoldable pub digit_char : ℕ → ℕ
digit_char d = if ltb d 10 then b'0' + d else b'a' + (d - 10)

unfoldable pub digit_chars : List ℕ → Text
unfolding digit_char
digit_chars [] = []
digit_chars (d ∷ ds) = digit_char d ∷ digit_chars ds

-- `strconv.Itoa` and `%d` of a number
unfoldable pub itoa_ℕ : ℕ → Text
unfolding digits digit_chars
itoa_ℕ n = digit_chars (digits 10 n)

-- `strconv.Itoa`
unfoldable pub itoa : ℤ → Text
unfolding itoa_ℕ
itoa (pos n) = itoa_ℕ n
itoa (negsuc n) = b'-' ∷ itoa_ℕ (suc n)

-- `%x` of a number
unfoldable pub hex_ℕ : ℕ → Text
unfolding digits digit_chars
hex_ℕ n = digit_chars (digits 16 n)

-- A number printed with zeros in front, up to a width: `%064d`, `%064x`
unfoldable pub zero_pad : ℕ → Text → Text
zero_pad w s = replicate (w - length s) b'0' ++ s

-- The value of a decimal digit, and of a hexadecimal one of either case.
unfoldable pub dec_digit : ℕ → Option ℕ
dec_digit c = if leb b'0' c && leb c b'9' then some (c - b'0') else none

unfoldable pub hex_digit : ℕ → Option ℕ
hex_digit c =
    if leb b'0' c && leb c b'9'
    then some (c - b'0')
    else if leb b'a' c && leb c b'f'
    then some (c - b'a' + 10)
    else if leb b'A' c && leb c b'F'
    then some (c - b'A' + 10)
    else none

-- The value of digits in base `b`, read from the left.
unfoldable pub value_from : (ℕ → Option ℕ) → ℕ → ℕ → Text → Option ℕ
value_from digit b acc [] = some acc
value_from digit b acc (c ∷ s) = elim (digit c) [
  | none ↦ none
  | some d ↦ value_from digit b (acc * b + d) s
]

-- The digits after the sign; there is at least one.
unfoldable pub parse_digits : Text → Option ℕ
unfolding value_from dec_digit
parse_digits [] = none
parse_digits (c ∷ s) = value_from dec_digit 10 0 (c ∷ s)

abbrev pub in_range : ℕ → Option ℕ → Option ℕ
in_range bound none = none
in_range bound (some n) = if ltb n bound then some n else none

abbrev pub as_pos : Option ℕ → Option ℤ
as_pos none = none
as_pos (some n) = some (pos n)

abbrev pub as_neg : Option ℕ → Option ℤ
as_neg none = none
as_neg (some zero) = some (pos 0)
as_neg (some (suc n)) = some (negsuc n)

-- `strconv.Atoi`; `none` is an error, of syntax or of range
unfoldable pub atoi : Text → Option ℤ
unfolding parse_digits
atoi [] = none
atoi (c ∷ s) =
    if c == b'-'
    then as_neg (in_range (2 ^ 63 + 1) (parse_digits s))
    else if c == b'+'
    then as_pos (in_range (2 ^ 63) (parse_digits s))
    else as_pos (in_range (2 ^ 63) (parse_digits (c ∷ s)))

-- The value of digits below 2^64; the largest value below that at the first digit that leads above it.
unfoldable pub scan_uint : ℕ → Text → Option ℕ
unfolding dec_digit
scan_uint acc [] = some acc
scan_uint acc (c ∷ s) = elim (dec_digit c) [
  | none ↦ none
  | some d ↦ if ltb (acc * 10 + d) (2 ^ 64) then scan_uint (acc * 10 + d) s else some (2 ^ 64 - 1)
]

abbrev scan_digits : Text → Option ℕ
scan_digits [] = none
scan_digits (c ∷ s) = scan_uint 0 (c ∷ s)

abbrev clamped : ℕ → Option ℕ → ℕ
clamped bound none = 0
clamped bound (some n) = if ltb n bound then n else bound

-- The value of `strconv.Atoi` when its error is dropped: 0 where the syntax is wrong, and the nearest
-- integer where the number is out of range.
unfoldable pub atoi_dropped : Text → ℤ
unfolding scan_uint ◌-ℤ◌
atoi_dropped [] = pos 0
atoi_dropped (c ∷ s) =
    if c == b'-'
    then pos 0 -ℤ pos (clamped (2 ^ 63) (scan_digits s))
    else if c == b'+'
    then pos (clamped (2 ^ 63 - 1) (scan_digits s))
    else pos (clamped (2 ^ 63 - 1) (scan_digits (c ∷ s)))

-- `hex.EncodeToString`
unfoldable pub hex_encode : List ℕ → Text
unfolding digit_char
hex_encode [] = []
hex_encode (x ∷ s) = digit_char (x / 16) ∷ digit_char (x % 16) ∷ hex_encode s

abbrev pub hex_pair : Option ℕ → Option ℕ → Option (List ℕ) → Option (List ℕ)
hex_pair (some h) (some l) (some s) = some ((h * 16 + l) ∷ s)
hex_pair _ _ _ = none

-- `hex.DecodeString`; `none` is an error
unfoldable pub hex_decode : Text → Option (List ℕ)
unfolding hex_digit
hex_decode [] = some []
hex_decode (c ∷ []) = none
hex_decode (c ∷ d ∷ s) = hex_pair (hex_digit c) (hex_digit d) (hex_decode s)
