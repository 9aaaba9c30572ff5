-- ===== src/Network/Export/Tests.antt =====
-- A key file with its passphrase file.
use botcoin.Base.{
  ℕ, Text, ◌≡◌, refl, false, Option, none, some, [], ◌∷◌, ◌==◌, text_eq, text_discrete,
  if◌then◌else◌,
}
use botcoin.Base.Dict.{lookup, insert}
use botcoin.Base.Bytes.{text, trim_newlines}
use botcoin.Base.Bytes.Path.{join_path, dir}
use botcoin.Base.Result.{ok}
use botcoin.Os.{World, directory, file, status, read_file, write_file, is_dir, no_daemon}
use botcoin.Files.{check_if_exists}
use botcoin.Crypto.{get_private_key, get_passphrase, read_passphrase}
use botcoin.Crypto.Types.{Ethereum}
use botcoin.Monetd.{dump_priv_key}
use botcoin.Network.Export.{own_password_file, generate_babble_private_key}
use botcoin.Network.Export.Key.{generate_babble_private_key-written}

-- A key is one byte, in front of the passphrase.
abbrev open_json : Text → Text → Option ℕ
open_json [] auth = none
open_json (key ∷ phrase) auth = if phrase == auth then some key else none

abbrev ethereum : Ethereum
ethereum = record {
  Key = ℕ;
  Cipher = Text;
  load_ecdsa = λ s. none;
  address_hex = λ key. key ∷ [];
  address_eip55 = λ key. key ∷ [];
  public_hex = λ key. key ∷ [];
  private_hex = λ key. key ∷ [];
  key_id = λ key. [];
  encrypt_data = λ key auth. some (key ∷ auth);
  marshal = λ json. json.crypto;
  decrypt_key = open_json;
}

abbrev keyed : World
keyed = record {
  disk =
      (text "/b", directory)
      ∷ (text "/a.json", file 0o600 (text "7secret"))
      ∷ (text "/a.txt", file 0o600 (text "secret\n"))
      ∷ [];
  stdin = [];
  fault = λ c p. false;
  net = λ u. none;
  daemon = no_daemon;
  calls = [];
}

abbrev dumped : World
dumped =
    (generate_babble_private_key ethereum (text "/a.json") (text "/a.txt") (text "a") (text "/b")
      keyed).1

dump_run :
    generate_babble_private_key ethereum
      (text "/a.json")
      (text "/a.txt")
      (text "a")
      (text "/b")
      keyed
    ≡ (ok tt, dumped)
unfolding generate_babble_private_key check_if_exists status get_private_key get_passphrase
    read_passphrase read_file dump_priv_key join_path write_file is_dir dir lookup insert
    text_discrete trim_newlines
dump_run = refl

generate_babble_private_key-written_example :
    (key : ℕ) × (m : ℕ) × ((get_private_key ethereum
        (text "/a.json")
        (own_password_file (check_if_exists (text "/a.txt") keyed) (text "/a.txt"))
        keyed).0
      ≡ ok key)
    × (lookup (join_path (text "/b" ∷ text "priv_key" ∷ [])) dumped.disk ≡ some (file m (key ∷ [])))
generate_babble_private_key-written_example =
    generate_babble_private_key-written ethereum (text "/a.json") (text "/a.txt") (text "a")
      (text "/b") keyed (λ e. cc) dump_run
