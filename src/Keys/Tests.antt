-- ===== src/Keys/Tests.antt =====
-- A range of two accounts, the first of which has a key file.
use botcoin.Base.{
  ℕ, Text, ◌≡◌, refl, Option, none, some, [], ◌∷◌, ◌==◌, text_eq, false, text_discrete,
  if◌then◌else◌,
}
use botcoin.Base.Int.{pos}
use botcoin.Base.Dict.{lookup}
use botcoin.Base.Bytes.{text}
use botcoin.Base.Bytes.Path.Joined.{EndsWith, EndsWith-ne}
use botcoin.Os.{World, directory, file, no_daemon}
use botcoin.Crypto.Types.{Ethereum}
use botcoin.Keys.{generate_key_range}
use botcoin.Keys.Generated.{generate_key_range-Spares}

-- A key is one byte, in front of the passphrase.
abbrev decrypted : Text → Text → Option ℕ
decrypted [] auth = none
decrypted (key ∷ phrase) auth = if phrase == auth then some key else none

abbrev ethereum : Ethereum
ethereum = record {
  Key = ℕ;
  Cipher = Text;
  load_ecdsa = λ s. none;
  address_hex = λ key. key ∷ [];
  address_eip55 = λ key. key ∷ [];
  public_hex = λ key. key ∷ [];
  private_hex = λ key. key ∷ [];
  key_id = λ key. [];
  encrypt_data = λ key auth. some (key ∷ auth);
  marshal = λ json. json.crypto;
  decrypt_key = decrypted;
}

abbrev world : World
world = record {
  disk = (text "/k", directory) ∷ (text "/k/a1.json", file 0o600 (text "7pw")) ∷ [];
  stdin = [];
  fault = λ c p. false;
  net = λ url. none;
  daemon = no_daemon;
  calls = [];
}

generate_key_range-Spares_example :
    lookup
      (text "/k/a1.json")
      (generate_key_range ethereum
        (text "/k")
        (text "a")
        (pos 1)
        (pos 2)
        (λ i. some 9)
        world).1.disk
    ≡ some (file 0o600 (text "7pw"))
unfolding lookup text_discrete
generate_key_range-Spares_example =
    generate_key_range-Spares ethereum (text "/k/a1.json") (text "/k") (text "a") (pos 1) (pos 2)
      (λ i. some 9) no_txt world (file 0o600 (text "7pw")) there
  where
    no_txt : ¬ EndsWith (text "/k/a1.json") (text ".txt")
    no_txt ends =
        EndsWith-ne (text "/k/a1.json") (text "/k/a1.json") (text ".json") (text ".txt")
          (text "/k/a1", refl) ends refl refl

    there : lookup (text "/k/a1.json") world.disk ≡ some (file 0o600 (text "7pw"))
    there = refl
