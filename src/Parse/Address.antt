-- ===== src/Parse/Address.antt =====
-- Reading back what src/genesis/storage.go lays out.
use botcoin.Base.{
  ℕ, zero, suc, Text, ◌+◌, ◌-◌, ◌*◌, ◌/◌, ◌%◌, ◌<◌, ◌≤◌, ◌≡◌, ◌≢◌, refl, sym, ap, subst, ◌∙◌, some,
  List, [], ◌∷◌, ◌++◌, length, drop, replicate, All, arith, Bool-cases, inl, inr,
}
use mathlib.Core.Path.{ap₂}
use botcoin.Base.Dict.{Dict, lookup}
use botcoin.Base.Bytes.{text, to_lower, to_lower_byte, trim_prefix, has_prefix}
use botcoin.Base.Bytes.Number.{hex_encode, hex_decode, hex_digit, digit_char, hex_ℕ, zero_pad}
use botcoin.Base.Result.{ok, ok-injective}
use botcoin.Genesis.Storage.{
  MinimalPeerRecord, Ethereum, slot, bare_address, mapping_slot, array_base, moniker_value,
  get_storage,
}
use botcoin.Genesis.Storage.Moniker.{moniker_value-short}
use botcoin.Genesis.Storage.Layout.{Nodup, written, array_slot, get_storage-layout}
use botcoin.Parse.Rows.{Rows, StorageRow, parse_address}
use botcoin.Parse.Arrays.{Book, white_list, get_moniker_slot, explain_array}
use botcoin.Parse.Named.{explain_slot-named}

to_lower_byte_idem : (c : ℕ) → to_lower_byte (to_lower_byte c) ≡ to_lower_byte c
unfolding to_lower_byte
to_lower_byte_idem c = ground arith

to_lower_idem : (s : Text) → to_lower (to_lower s) ≡ to_lower s
unfolding to_lower
to_lower_idem [] = refl
to_lower_idem (c ∷ s) = ap₂ ◌∷◌ (to_lower_byte_idem c) (to_lower_idem s)

to_lower-drop : (n : ℕ) (s : Text) → to_lower (drop n s) ≡ drop n (to_lower s)
unfolding to_lower
to_lower-drop zero s = refl
to_lower-drop (suc n) [] = refl
to_lower-drop (suc n) (c ∷ s) = to_lower-drop n s

to_lower-bare_address : (a : Text) → to_lower (bare_address a) ≡ bare_address a
unfolding bare_address trim_prefix
to_lower-bare_address a = elim (Bool-cases (has_prefix (text "0x") (to_lower a))) [
  | inl e ↦ rw e (to_lower-drop 2 (to_lower a) ∙ ap (drop 2) (to_lower_idem a))
  | inr e ↦ rw e (to_lower_idem a)
]

hex_digit-digit_char : (d : ℕ) → d < 16 → hex_digit (digit_char d) ≡ some d
unfolding hex_digit digit_char
hex_digit-digit_char d h = ground arith

div_bound : (x : ℕ) → x < 256 → (x / 16 < 16) × (x % 16 < 16) × (x / 16 * 16 + x % 16 ≡ x)
div_bound x h = (omega arith, omega arith, omega arith)

hex_decode-zeros : (n : ℕ) → hex_decode (replicate (2 * n) b'0') ≡ some (replicate n 0)
unfolding hex_decode hex_digit
hex_decode-zeros zero = refl
hex_decode-zeros (suc n) =
    let two : suc (suc (2 * n)) ≡ 2 * suc n = omega arith in
    subst (λ m. hex_decode (replicate m b'0') ≡ some (replicate (suc n) 0)) two
      (rw (hex_decode-zeros n) refl)

-- Bytes in hexadecimal, with pairs of zeros behind.
hex_decode-padded :
    (s : List ℕ) (n : ℕ)
    → All (λ x. x < 256) s
    → hex_decode (hex_encode s ++ replicate (2 * n) b'0') ≡ some (s ++ replicate n 0)
unfolding hex_decode hex_encode
hex_decode-padded [] n h = hex_decode-zeros n
hex_decode-padded (x ∷ s) n h =
    let (b, c, e) = div_bound x h.0 in
    rw (hex_digit-digit_char (x / 16) b)
      (rw (hex_digit-digit_char (x % 16) c) (rw (hex_decode-padded s n h.1) (rw e refl)))

-- A moniker that fits, less the digits of its first byte.
moniker_value-decoded :
    (c : ℕ) (s value : Text)
    → length (c ∷ s) ≤ 32
    → All (λ x. x < 256) s
    → moniker_value (c ∷ s) ≡ ok value
    → (d : ℕ) × (e : ℕ) × (digits : Text) × (value ≡ d ∷ e ∷ digits)
      × (hex_decode digits ≡ some (s ++ replicate (32 - length (c ∷ s)) 0))
unfolding hex_encode
moniker_value-decoded c s value fits bytes h =
    let shape = ok-injective (sym h ∙ moniker_value-short (c ∷ s) fits) in
    let two : 2 * (32 - length (c ∷ s)) ≡ 64 - 2 * length (c ∷ s) = omega arith in
    (
      digit_char (c / 16),
      digit_char (c % 16),
      hex_encode s ++ replicate (64 - 2 * length (c ∷ s)) b'0',
      shape,
      subst
          (λ m.
            hex_decode (hex_encode s ++ replicate m b'0')
            ≡ some (s ++ replicate (32 - length (c ∷ s)) 0))
          two (hex_decode-padded s (32 - length (c ∷ s)) bytes),
    )

-- A slot that has all its digits is printed alike with and without zeros in front.
zero_pad-full : (s : Text) → length s ≡ 64 → zero_pad 64 s ≡ s
unfolding zero_pad
zero_pad-full s h = rw h refl

parse_address-stored :
    (a : Text)
    → length (bare_address a) ≡ 40
    → parse_address (text "94" ++ bare_address a) ≡ text "0x" ++ bare_address a
unfolding parse_address
parse_address-stored a h = ground arith

bare_address-prefixed : (a : Text) → bare_address (text "0x" ++ bare_address a) ≡ bare_address a
unfolding bare_address to_lower to_lower_byte trim_prefix has_prefix
bare_address-prefixed a = to_lower-bare_address a

-- Every entry of a storage has a row, with its raw value: what the parser starts with, and keeps.
abbrev pub HasRows : Dict Text → Rows → Type 0
HasRows st rows =
    (k raw : Text)
    → lookup k st ≡ some raw
    → (r : StorageRow) × (lookup k rows ≡ some r) × (r.raw_value ≡ raw)

module _ (E : Ethereum) where
  -- Both compute the same slot, also from the address that the parser has put a prefix to.
  get_moniker_slot-mapping_slot :
      (a : Text)
      → get_moniker_slot E (text "0x" ++ bare_address a) ≡ mapping_slot E (bare_address a) 5
  unfolding get_moniker_slot mapping_slot slot bare_address
  get_moniker_slot-mapping_slot a = ap (λ addr. mapping_slot E addr 5) (bare_address-prefixed a)

  -- The slot of an address in the array is not that of its moniker.
  written-apart :
      (at : ℕ) (before : List MinimalPeerRecord) (peer : MinimalPeerRecord)
      (after : List MinimalPeerRecord)
      → Nodup (written E at (before ++ (peer ∷ after)))
      → mapping_slot E (bare_address peer.address) 5 ≢ array_slot E (at + length before)
  written-apart at [] peer after (n1, _) e =
      n1 (inr (inl (sym (e ∙ ap (array_slot E) (omega arith)))))
  written-apart at (p ∷ before) peer after (_a, (_b, (_c, n))) e =
      written-apart (at + 1) before peer after n (e ∙ ap (array_slot E) (omega arith))

  -- When no two of the slots that `GetStorage` writes coincide, the slot of a peer in the array has 64
  -- digits without zeros in front, the address of the peer has 40, its moniker has between 1 and 32 bytes,
  -- and the parser has a row for every entry of that storage, then the round of the loop over the white
  -- list for the peer ends, and what it calls the address, `0x` in front and in lower case, is the moniker
  -- without its first byte, with zeros behind, up to 31 bytes.
  pub get_storage-parsed :
      (before : List MinimalPeerRecord) (peer : MinimalPeerRecord) (after : List MinimalPeerRecord)
      (c : ℕ) (name : Text) (n : ℕ) (b : Book) {st : Dict Text}
      → Nodup (slot 1 ∷ slot 2 ∷ written E (array_base E 2) (before ++ (peer ∷ after)))
      → get_storage E (before ++ (peer ∷ after)) ≡ ok st
      → length (hex_ℕ (array_base E 2 + length before)) ≡ 64
      → length (bare_address peer.address) ≡ 40
      → peer.moniker ≡ c ∷ name
      → length peer.moniker ≤ 32
      → All (λ x. x < 256) name
      → HasRows st b.rows
      → (b' : Book) × (explain_array E white_list (array_base E 2) (suc n) (length before) b
          ≡ explain_array E white_list (array_base E 2) n (length before + 1) b')
        × (lookup (text "0x" ++ bare_address peer.address) b'.names
            ≡ some (name ++ replicate (32 - length peer.moniker) 0))
  unfolding explain_array
  get_storage-parsed before peer after c name n b {st} distinct h full forty named short bytes
        rows =
      let i = length before in
      let at = hex_ℕ (array_base E 2 + i) in
      let row = text "94" ++ bare_address peer.address in
      let address = text "0x" ++ bare_address peer.address in
      let k = mapping_slot E (bare_address peer.address) 5 in
      let (_a, _b, (stored, _d, (value, fits, moniker))) =
        get_storage-layout E before peer after distinct h in
      let same : array_slot E (array_base E 2 + i) ≡ at = zero_pad-full at full in
      let (r, there, raw) = rows at row (subst (λ s. lookup s st ≡ some row) same stored) in
      let (q, kept, raw_moniker) = rows k value moniker in
      let parsed : parse_address r.raw_value ≡ address =
        ap parse_address raw ∙ parse_address-stored peer.address forty in
      let slot_of : get_moniker_slot E (parse_address r.raw_value) ≡ k =
        ap (get_moniker_slot E) parsed ∙ get_moniker_slot-mapping_slot peer.address in
      let (d, e, digits, shape, decoded) =
        moniker_value-decoded c name value (subst (λ m. length m ≤ 32) named short) bytes
          (subst (λ m. moniker_value m ≡ ok value) named fits) in
      let apart = written-apart (array_base E 2) before peer after distinct.1.1 in
      let (b', round, called) =
        explain_slot-named E at i r q d e digits (name ++ replicate (32 - length (c ∷ name)) 0) b
          (λ x. apart (sym slot_of ∙ x ∙ sym same)) there
          (subst (λ s. lookup s b.rows ≡ some q) (sym slot_of) kept) (raw_moniker ∙ shape)
          decoded in
      (
        b',
        rw round refl,
        subst (λ m. lookup address b'.names ≡ some (name ++ replicate (32 - length m) 0))
            (sym named)
            (subst (λ s. lookup s b'.names ≡ some (name ++ replicate (32 - length (c ∷ name)) 0))
              parsed called),
      )
