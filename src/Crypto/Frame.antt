-- ===== src/Crypto/Frame.antt =====
-- The steps that only read the disk.
use botcoin.Base.{Text, refl, Bool, true, false, Option, [], ◌∷◌}
use botcoin.Base.Result.{Error}
use botcoin.Os.{or_error, read_file}
use botcoin.Os.Disk.{read_file-Reads}
use botcoin.Os.Rules.{Same-refl, Reads, bind-Reads}
use botcoin.Crypto.{
  read_passphrase, get_passphrase, prompt_passphrase, choose_key, new_passphrase, get_private_key,
}
use botcoin.Crypto.Types.{Ethereum}

pub read_or-Reads : (p : Text) (e : Error) → Reads (or_error (read_file p) e)
read_or-Reads p e w = record {
  disk = (read_file-Reads p w).disk;
  fault = (read_file-Reads p w).fault;
}

prompt-Reads : (c : Bool) → Reads (prompt_passphrase c)
unfolding prompt_passphrase
prompt-Reads c w = record { disk = refl; fault = refl }

pub read_passphrase-Reads : (e : Error) (p : Text) → Reads (read_passphrase e p)
unfolding read_passphrase
read_passphrase-Reads e p =
    bind-Reads (or_error (read_file p) e) _ (read_or-Reads p e) (λ c w. Same-refl w)

pub get_passphrase-Reads : (p : Text) (c : Bool) → Reads (get_passphrase p c)
unfolding get_passphrase
get_passphrase-Reads [] c = prompt-Reads c
get_passphrase-Reads (x ∷ p) c = read_passphrase-Reads Error.passphrase_read (x ∷ p)

pub new_passphrase-Reads : (p : Text) → Reads (new_passphrase p)
unfolding new_passphrase
new_passphrase-Reads [] = prompt-Reads true
new_passphrase-Reads (x ∷ p) = read_passphrase-Reads Error.new_passphrase_read (x ∷ p)

module _ (E : Ethereum) where
  pub choose_key-Reads : (p : Text) (random : Option E.Key) → Reads (choose_key E p random)
  unfolding choose_key
  choose_key-Reads [] random = λ w. Same-refl w
  choose_key-Reads (x ∷ p) random =
      bind-Reads (or_error (read_file (x ∷ p)) Error.private_key_load) _
        (read_or-Reads (x ∷ p) Error.private_key_load) (λ c w. Same-refl w)

  pub get_private_key-Reads : (p q : Text) → Reads (get_private_key E p q)
  unfolding get_private_key
  get_private_key-Reads p q =
      bind-Reads (or_error (read_file p) Error.keyfile_read) _ (read_or-Reads p Error.keyfile_read)
        (λ json.
          bind-Reads (get_passphrase q false) _ (get_passphrase-Reads q false)
            (λ phrase w. Same-refl w))
