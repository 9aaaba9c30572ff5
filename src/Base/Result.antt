-- ===== src/Base/Result.antt =====
-- How a Go call ends: with a value, with an error, with a panic, or never.
use mathlib.Core.Path.{◌≡◌, refl}

-- The errors that the program tells apart, by the message it gives them.
pub data Error : Type 0 where
  io : Error
  declined too_many_backups write_failed : Error
  moniker_unset moniker_invalid moniker_exists moniker_missing : Error
  keyfile_exists keyfile_check keyfile_read private_key_load private_key_random : Error
  passphrase_read passphrase_prompt passphrase_confirm passphrase_mismatch : Error
  encrypt_failed decrypt_failed mkdir_failed keyfile_write new_passphrase_read : Error
  bad_hex bad_json evm : Error
  incompatible_options no_nodes network_name_invalid network_exists malformed_ip : Error
  no_network_dir no_network_toml toml_read toml_parse node_name_invalid : Error
  output_exists no_keystore no_faucet_key no_accounts too_few_accounts no_account_key : Error
  no_faucet : Error
  docker docker_network_exists docker_network_missing container_missing node_exists : Error
  no_docker_config no_docker_folder no_docker_toml not_docker : Error
  no_genesis whitelist_differs : Error
  no_output_dir no_transactions_network malformed_mapping no_mapping no_keys ambiguous_key : Error

pub data Result {ℓ} (A : Type ℓ) : Type ℓ where
  hang : Result A
  panic : Result A
  err : Error → Result A
  ok : A → Result A

-- Only a value goes on.
infixl 5 ◌>>=◌
abbrev pub ◌>>=◌ {ℓ κ} : {A : Type ℓ} {B : Type κ} → Result A → (A → Result B) → Result B
hang >>= rest = hang
panic >>= rest = panic
err e >>= rest = err e
ok a >>= rest = rest a

-- A chain that ends with a value has a first value, from which the rest leads to it.
pub >>=-eq-ok {ℓ κ} :
    {A : Type ℓ} {B : Type κ} (first : Result A) (rest : A → Result B) {final : B}
    → (first >>= rest) ≡ ok final
    → (a : A) × (first ≡ ok a) × (rest a ≡ ok final)
>>=-eq-ok hang rest h = cc
>>=-eq-ok panic rest h = cc
>>=-eq-ok (err e) rest h = cc
>>=-eq-ok (ok a) rest h = (a, refl, h)

pub ok-injective {ℓ} : {A : Type ℓ} {a b : A} → ok a ≡ ok b → a ≡ b
ok-injective h = cc

-- A chain that ends with a function of its first value.
pub >>=-ok {ℓ κ} :
    {A : Type ℓ} {B : Type κ} (m : Result A) (f : A → B) {a : A}
    → m ≡ ok a
    → (b : B) × ((m >>= λ v. ok (f v)) ≡ ok b)
>>=-ok m f {a} h = (f a, rw h)
