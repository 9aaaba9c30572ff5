-- ===== src/Crypto/Types.antt =====
-- What the key files take from go-ethereum and `encoding/json`.
use botcoin.Base.{ℕ, Text, ◌≡◌, Option, some}

pub record EncryptedKeyJsonMonet (Cipher : Type 0) : Type 0 where
  pub address : Text
  pub public_key : Text
  pub crypto : Cipher
  pub id : Text
  pub version : ℕ

pub record Ethereum : Type 1 where
  pub Key : Type 0
  pub Cipher : Type 0
  -- `crypto.LoadECDSA`, of the text of the file
  pub load_ecdsa : Text → Option Key
  -- the address in lower case, and as `Address.Hex()` gives it
  pub address_hex : Key → Text
  pub address_eip55 : Key → Text
  pub public_hex : Key → Text
  pub private_hex : Key → Text
  pub key_id : Key → Text
  -- `keystore.EncryptDataV3` of the private key, with the standard parameters
  pub encrypt_data : Key → Text → Option Cipher
  pub marshal : EncryptedKeyJsonMonet Cipher → Text
  pub decrypt_key : Text → Text → Option Key

-- A file of version 3 whose cipher is the key under a passphrase decrypts to the key with it. The
-- public key that the program adds is a field that go-ethereum ignores.
abbrev pub Decrypts : Ethereum → Type 0
Decrypts E =
    (key : E.Key) (auth : Text) (crypto : E.Cipher) (address public_key id : Text)
    → E.encrypt_data key auth ≡ some crypto
    → E.decrypt_key
        (E.marshal (record {
          address = address;
          public_key = public_key;
          crypto = crypto;
          id = id;
          version = 3;
        }))
        auth
      ≡ some key
