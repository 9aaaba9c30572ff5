-- ===== src/Common.antt =====
-- src/common/utils.go: monikers, addresses and log levels.
pub mod Messages
pub mod Machine
pub mod Version
use botcoin.Base.{
  ℕ, Text, Bool, true, not, ◌&&◌, ◌||◌, Option, none, some, List, [], ◌∷◌, ◌==◌, nat_eq, text_eq,
  leb, if◌then◌else◌, all,
}
use botcoin.Base.Bytes.{text, split}
use botcoin.Base.Bytes.Number.{parse_digits}

-- The class `[a-zA-Z0-9_]` of `MonikerRegexp`.
abbrev pub is_moniker_char : ℕ → Bool
is_moniker_char c =
    (leb b'a' c && leb c b'z')
    || (leb b'A' c && leb c b'Z')
    || (leb b'0' c && leb c b'9')
    || (c == b'_')

unfoldable pub check_moniker : Text → Bool
check_moniker = all is_moniker_char

abbrev byte_of : Option ℕ → Option ℕ
byte_of none = none
byte_of (some n) = if leb n 255 then some n else none

abbrev octets : Option ℕ → Option ℕ → Option ℕ → Option ℕ → Option (ℕ × ℕ × ℕ × ℕ)
octets (some a) (some b) (some c) (some d) = some (a, b, c, d)
octets _ _ _ _ = none

abbrev four : List Text → Option (ℕ × ℕ × ℕ × ℕ)
four (a ∷ b ∷ c ∷ d ∷ []) =
    octets (byte_of (parse_digits a)) (byte_of (parse_digits b)) (byte_of (parse_digits c))
      (byte_of (parse_digits d))
four _ = none

-- `net.ParseIP` of a text with no colon: four decimal numbers below 256.
unfoldable pub parse_ip : Text → Option (ℕ × ℕ × ℕ × ℕ)
parse_ip s = four (split b'.' s)

-- The blocks 127.0.0.0/8, 10.0.0.0/8, 172.16.0.0/12 and 192.168.0.0/16
abbrev pub is_private : ℕ × ℕ × ℕ × ℕ → Bool
is_private (a, b, _, _) =
    (a == 127) || (a == 10) || ((a == 172) && leb 16 b && leb b 31) || ((a == 192) && (b == 168))

abbrev private_or_unknown : Option (ℕ × ℕ × ℕ × ℕ) → Bool
private_or_unknown none = true
private_or_unknown (some ip) = is_private ip

abbrev first_part : List Text → Text
first_part [] = []
first_part (s ∷ parts) = s

unfoldable pub check_ip : Text → Bool → Bool
check_ip [] port_only_ok = true
check_ip (c ∷ s) port_only_ok =
    if c == b':'
    then not port_only_ok
    else private_or_unknown (parse_ip (first_part (split b':' (c ∷ s))))

pub data LogLevel : Type 0 where
  trace_level debug_level info_level warn_level error_level fatal_level panic_level : LogLevel

unfoldable pub log_level : Text → LogLevel
log_level l =
    if l == text "trace"
    then trace_level
    else if l == text "debug"
    then debug_level
    else if l == text "info"
    then info_level
    else if l == text "warn"
    then warn_level
    else if l == text "error"
    then error_level
    else if l == text "fatal"
    then fatal_level
    else if l == text "panic"
    then panic_level
    else debug_level
