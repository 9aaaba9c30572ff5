-- ===== src/Crypto/Tests.antt =====
-- Creating, reading and updating a key file, with a cipher that keeps the passphrase and the key.
use mathlib.Core.Option.{some-injective}
use botcoin.Base.{
  ℕ, Text, ◌≡◌, ◌≢◌, refl, ap, sym, ◌∙◌, List, subst, arith, length, Bool, true, false, ◌⊎◌, Option,
  none, some, [], ◌∷◌, ◌==◌, text_eq, text_discrete, if◌then◌else◌,
}
use botcoin.Base.Dict.{Dict, lookup, insert}
use botcoin.Base.Bytes.{text, trim_newlines}
use botcoin.Base.Bytes.Path.{dir}
use botcoin.Base.Result.{Error, ok, err}
use botcoin.Os.{no_daemon, World, Call, fill, file, status, read_file, write_file, mkdir_all}
use botcoin.Os.Rules.{Keeps}
use botcoin.Crypto.{
  generate_keyfile, get_private_key, update_key, new_keyfile_full, make_keyfile, choose_key,
  get_passphrase, read_passphrase, new_passphrase, encrypt_key, store_keyfile,
}
use botcoin.Crypto.Holds.{IsAuthentic}
use botcoin.Crypto.Vault.{Command, create, change, exec_all, VaultRun, Represents, exec_all-refines}
use botcoin.Crypto.Types.{Ethereum, Decrypts}
use botcoin.Crypto.Keep.{new_keyfile_full-Keeps}
use botcoin.Crypto.Create.{generate_keyfile-get_private_key}
use botcoin.Crypto.Update.{update_key-get_private_key, update_key-failed}

-- The key is one byte, in front of the passphrase.
abbrev open_json : Text → Text → Option ℕ
open_json [] auth = none
open_json (key ∷ phrase) auth = if phrase == auth then some key else none

abbrev ethereum : Ethereum
ethereum = record {
  Key = ℕ;
  Cipher = Text;
  load_ecdsa = λ s. none;
  address_hex = λ key. key ∷ [];
  address_eip55 = λ key. key ∷ [];
  public_hex = λ key. key ∷ [];
  private_hex = λ key. key ∷ [];
  key_id = λ key. [];
  encrypt_data = λ key auth. some (key ∷ auth);
  marshal = λ json. json.crypto;
  decrypt_key = open_json;
}

ethereum-Decrypts : Decrypts ethereum
ethereum-Decrypts key auth crypto address public_key id e =
    subst (λ c. open_json c auth ≡ some key) (some-injective _ _ e) (ground arith)

abbrev world : World
world = record {
  disk =
      (text "/old", file 0o600 (text "one\n")) ∷ (text "/second", file 0o600 (text "two\r\n")) ∷ [];
  stdin = [];
  fault = λ c p. false;
  net = λ url. none;
  daemon = no_daemon;
  calls = [];
}

abbrev created : World
created = (generate_keyfile ethereum (text "/key") (text "/old") [] (some 7) world).1

created_run :
    generate_keyfile ethereum (text "/key") (text "/old") [] (some 7) world ≡ (ok 7, created)
unfolding generate_keyfile make_keyfile choose_key get_passphrase read_passphrase encrypt_key
    store_keyfile status lookup text_discrete read_file mkdir_all dir write_file
created_run = refl

generate_keyfile-get_private_key_example :
    get_private_key ethereum (text "/key") (text "/old") created ≡ (ok 7, created)
generate_keyfile-get_private_key_example =
    generate_keyfile-get_private_key ethereum (text "/key") b'/' (text "old") [] (some 7) world
      ethereum-Decrypts refl created_run

new_keyfile_full-Keeps_example :
    Keeps world
      (new_keyfile_full ethereum (text "/keystore") (text "a") (text "/old") [] (some 7) world).1
new_keyfile_full-Keeps_example =
    new_keyfile_full-Keeps ethereum (text "/keystore") (text "a") (text "/old") [] (some 7) world

abbrev updated : World
updated = (update_key ethereum (text "/key") (text "/old") (text "/second") created).1

updated_run :
    update_key ethereum (text "/key") (text "/old") (text "/second") created ≡ (ok tt, updated)
unfolding update_key get_private_key new_passphrase insert trim_newlines generate_keyfile
    make_keyfile choose_key get_passphrase read_passphrase encrypt_key store_keyfile status lookup
    text_discrete read_file mkdir_all dir write_file
updated_run = refl

update_key-get_private_key_example :
    (key : ℕ) × ((get_private_key ethereum (text "/key") (text "/old") created).0 ≡ ok key)
    × (get_private_key ethereum (text "/key") (text "/second") updated ≡ (ok key, updated))
    × ((r : Text) → r ≢ text "/key" → lookup r updated.disk ≡ lookup r created.disk)
update_key-get_private_key_example =
    update_key-get_private_key ethereum (text "/key") (text "/old") b'/' (text "second") created
      ethereum-Decrypts (λ e. omega (arith, ap length e)) updated_run

-- Read with the wrong passphrase.
-- The system cuts off the writes.
abbrev cuts : Call → Text → Bool
cuts fill p = true
cuts c p = false

abbrev cut_world : World
cut_world = record created { fault = cuts }

cut_short : (update_key ethereum (text "/key") (text "/old") (text "/second") cut_world).0 ≢ ok tt
unfolding update_key get_private_key get_passphrase new_passphrase read_passphrase encrypt_key
    generate_keyfile make_keyfile choose_key store_keyfile status trim_newlines lookup insert
    text_discrete read_file mkdir_all dir write_file
cut_short e = cc

update_key-failed_example :
    let (r, w') = update_key ethereum (text "/key") (text "/old") (text "/second") cut_world in
    (w'.disk ≡ cut_world.disk)
    ⊎ ((cut_world.fault fill (text "/key") ≡ true)
        × (r ≡ err Error.keyfile_write)
        × ((q : Text) → q ≢ text "/key" → lookup q w'.disk ≡ lookup q cut_world.disk))
update_key-failed_example =
    update_key-failed ethereum (text "/key") (text "/old") (text "/second") cut_world cut_short

open_json-key : (c : ℕ) (phrase a : Text) {k : ℕ} → open_json (c ∷ phrase) a ≡ some k → c ≡ k
open_json-key c phrase a h = ground arith

ethereum-IsAuthentic : IsAuthentic ethereum
ethereum-IsAuthentic [] a b k l h h' = absurd (cc)
ethereum-IsAuthentic (c ∷ phrase) a b k l h h' =
    sym (open_json-key c phrase a h) ∙ open_json-key c phrase b h'

-- A key is created, its passphrase is changed, and creating it again is refused.
abbrev commands : List (Command ethereum)
commands =
    create (text "/key") (text "/old") [] (some 7)
    ∷ change (text "/key") (text "/old") (text "/second")
    ∷ create (text "/key") (text "/old") [] (some 8)
    ∷ []

no_keys : Represents ethereum [] world
unfolding lookup
no_keys path key h = absurd (cc)

exec_all-refines_example :
    let (rs, w') = exec_all ethereum commands world in
    (v' : Dict ℕ) × VaultRun ethereum commands rs [] v' × Represents ethereum v' w'
exec_all-refines_example =
    exec_all-refines ethereum commands [] world ethereum-Decrypts ethereum-IsAuthentic no_keys
