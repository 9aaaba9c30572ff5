-- ===== src/Crypto/Create.antt =====
-- A key file that has been created gives its key back.
use botcoin.Base.{ℕ, Text, ◌≡◌, refl, ap, sym, ◌∙◌, true, false, Option, none, some, ◌∷◌, subst}
use mathlib.Core.Option.{some-injective}
use botcoin.Base.Dict.{lookup}
use botcoin.Base.Bytes.{trim_newlines}
use botcoin.Base.Bytes.Path.{dir}
use botcoin.Base.Result.{Error, Result, ok, ok-injective}
use botcoin.Os.{
  World, Entry, file, M, lift, or_error, mkdir_all, write_file, read_file, read, status, Status,
  found, not_exist, stat_failed,
}
use botcoin.Os.Rules.{M-eq-ok, or_error-eq-ok, Same, Same-trans, Same-Keeps, Reads, Keeps}
use botcoin.Os.Disk.{mkdir_all-OnlyDirs, write_file-written, write_file-fault, read_file-eq-ok}
use botcoin.Crypto.{
  choose_key, get_passphrase, read_passphrase, encrypt_key, encrypted, some_or, store_keyfile,
  make_keyfile, or_default, generate_keyfile, get_private_key, unless_there,
}
use botcoin.Crypto.Keep.{free_of_status, store_keyfile-Keeps}
use botcoin.Crypto.Frame.{choose_key-Reads, get_passphrase-Reads}
use botcoin.Crypto.Types.{Ethereum, Decrypts}

pub read_file-file :
    (p body : Text) (m : ℕ) (w : World)
    → w.fault read p ≡ false
    → lookup p w.disk ≡ some (file m body)
    → read_file p w ≡ (ok body, w)
unfolding read_file
read_file-file p body m w f h = rw (f, h)

-- What a read that succeeds has found.
pub read_file-found :
    (p : Text) (w : World) {body : Text} {w' : World}
    → read_file p w ≡ (ok body, w')
    → (m : ℕ) × (lookup p w.disk ≡ some (file m body)) × (w.fault read p ≡ false)
read_file-found p w h =
    let (m, same, there, readable) = read_file-eq-ok p w h in (m, there, readable)

pub some_or-eq-ok :
    {A : Type 0} (o : Option A) (e : Error) {a : A} → some_or o e ≡ ok a → o ≡ some a
some_or-eq-ok none e h = absurd (cc)
some_or-eq-ok (some b) e h = cc

-- The file, its text and the passphrase that a password file gives.
pub IsPassphrase : Text → Text → World → Type 0
IsPassphrase p phrase w =
    (m : ℕ) × (content : Text) × (lookup p w.disk ≡ some (file m content))
    × (w.fault read p ≡ false)
    × (phrase ≡ trim_newlines content)

pub read_passphrase-IsPassphrase :
    (e : Error) (p : Text) (w : World) {phrase : Text} {w' : World}
    → read_passphrase e p w ≡ (ok phrase, w')
    → IsPassphrase p phrase w
unfolding read_passphrase IsPassphrase
read_passphrase-IsPassphrase e p w h =
    let (content, w1, e1, h1) = M-eq-ok (or_error (read_file p) e) _ w h in
    let (m, there, readable) = read_file-found p w (or_error-eq-ok (read_file p) e w e1) in
    (m, content, there, readable, sym (ok-injective (ap (λ (r : Result Text × World). r.0) h1)))

module _ (E : Ethereum) where
  -- The private key that the files give, when both are there.
  pub get_private_key-eq :
      (path json : Text) (m c : ℕ) (q phrase : Text) (key : E.Key) (w : World)
      → w.fault read path ≡ false
      → lookup path w.disk ≡ some (file m json)
      → IsPassphrase (c ∷ q) phrase w
      → E.decrypt_key json phrase ≡ some key
      → get_private_key E path (c ∷ q) w ≡ (ok key, w)
  unfolding get_private_key get_passphrase read_passphrase IsPassphrase
  get_private_key-eq path json m c q phrase key w f there (n, content, there', f', shape) d =
      rw (read_file-file path json m w f there, read_file-file (c ∷ q) content n w f' there')
        (rw (← shape) (rw d))

  -- What is encrypted decrypts.
  pub decrypt-encrypt :
      Decrypts E
      → (key : E.Key) (auth : Text) {json : Text} → encrypt_key E key auth ≡ some json
      → E.decrypt_key json auth ≡ some key
  unfolding encrypt_key
  decrypt-encrypt laws key auth {json} h = by_cipher (E.encrypt_data key auth) refl h
    where
      by_cipher :
          (o : Option E.Cipher)
          → E.encrypt_data key auth ≡ o
          → encrypted E o key ≡ some json
          → E.decrypt_key json auth ≡ some key
      by_cipher none e k = absurd (cc)
      by_cipher (some crypto) e k =
          subst (λ t. E.decrypt_key t auth ≡ some key) (some-injective _ _ k)
            (laws key auth crypto _ _ _ e)

  pub store_keyfile-stored :
      (path json : Text) (w : World) {w' : World}
      → store_keyfile path json w ≡ (ok tt, w')
      → (m : ℕ) × (lookup path w'.disk ≡ some (file m json)) × (w'.fault ≡ w.fault)
  unfolding store_keyfile
  store_keyfile-stored path json w {w'} h =
      let (u, w1, e, k) = M-eq-ok (or_error (mkdir_all (dir path)) Error.mkdir_failed) _ w h in
      let made = or_error-eq-ok (mkdir_all (dir path)) Error.mkdir_failed w e in
      let wrote = or_error-eq-ok (write_file path json 0o600) Error.keyfile_write w1 k in
      let (m, there) = write_file-written path json 0o600 w1 wrote in
      (
        m,
        there,
        ap (λ (r : Result (Unit {0}) × World). r.1.fault) (sym wrote)
            ∙ write_file-fault path json 0o600 w1
            ∙ ap (λ (r : Result (Unit {0}) × World). r.1.fault) (sym made)
            ∙ (mkdir_all-OnlyDirs (dir path) w).fault,
      )

-- The world that a read leaves.
pub read_to :
    {A : Type 0} (m : M A) (w : World) {r : Result A} {w' : World}
    → Reads m
    → m w ≡ (r, w')
    → Same w w'
read_to {A} m w {r} {w'} s e = subst (λ (x : Result A × World). Same w x.1) e (s w)

-- The entries that are kept up to the world that a step has led to.
keep_to :
    {A : Type 0} (w : World) {x : Result A × World} {r : Result A} {w' : World}
    → Keeps w x.1
    → x ≡ (r, w')
    → Keeps w w'
keep_to {A} w k e = subst (λ (x : Result A × World). Keeps w x.1) e k

-- A passphrase file that stands as it was gives the same passphrase.
pub IsPassphrase-kept :
    (p phrase : Text) (w w' : World)
    → ((e : Entry) → lookup p w.disk ≡ some e → lookup p w'.disk ≡ some e)
    → w'.fault ≡ w.fault
    → IsPassphrase p phrase w
    → IsPassphrase p phrase w'
unfolding IsPassphrase
IsPassphrase-kept p phrase w w' k f (m, content, there, readable, shape) =
    (m, content, k _ there, ap (λ g. g read p) f ∙ readable, shape)

module _ (E : Ethereum) where
  make_keyfile-get_private_key :
      (path : Text) (c : ℕ) (q private_keyfile : Text) (random : Option E.Key) (w : World)
      {key : E.Key} {w' : World}
      → Decrypts E
      → lookup path w.disk ≡ none
      → w.fault read path ≡ false
      → make_keyfile E path (c ∷ q) private_keyfile random w ≡ (ok key, w')
      → get_private_key E path (c ∷ q) w' ≡ (ok key, w')
  unfolding make_keyfile get_passphrase
  make_keyfile-get_private_key path c q pk random w {key} {w'} laws free readable h =
      let (k, w1, e1, h1) = M-eq-ok (choose_key E pk random) _ w h in
      let (phrase, w2, e2, h2) = M-eq-ok (read_passphrase Error.passphrase_read (c ∷ q)) _ w1 h1 in
      let (json, w3, e3, h3) =
        M-eq-ok (lift (some_or (encrypt_key E k phrase) Error.encrypt_failed)) _ w2 h2 in
      let (u, w4, e4, h4) = M-eq-ok (store_keyfile path json) _ w3 h3 in
      let s1 = read_to (choose_key E pk random) w (choose_key-Reads E pk random) e1 in
      let s2 = read_to (get_passphrase (c ∷ q) true) w1 (get_passphrase-Reads (c ∷ q) true) e2 in
      let lifted = ap (λ (x : Result Text × World). x.1) e3 in
      let encrypts =
        some_or-eq-ok (encrypt_key E k phrase) Error.encrypt_failed
          (ap (λ (x : Result Text × World). x.0) e3) in
      let returned = ap (λ (x : Result E.Key × World). x.1) h4 in
      let same_key = ok-injective (ap (λ (x : Result E.Key × World). x.0) h4) in
      let s3 = Same-trans w w1 w3 s1 (subst (λ v. Same w1 v) lifted s2) in
      let phrase_there =
        IsPassphrase-kept (c ∷ q) phrase w1 w3
          (Same-Keeps w1 w3 (subst (λ v. Same w1 v) lifted s2) (c ∷ q))
          (subst (λ v. Same w1 v) lifted s2).fault
          (read_passphrase-IsPassphrase Error.passphrase_read (c ∷ q) w1 e2) in
      let (m, stored, faults) = store_keyfile-stored E path json w3 e4 in
      let kept =
        keep_to w3 (store_keyfile-Keeps E path json w3 (ap (lookup path) s3.disk ∙ free)) e4 in
      subst (λ v. get_private_key E path (c ∷ q) v ≡ (ok key, v)) returned
        (get_private_key-eq E path json m c q phrase key w4
          (ap (λ g. g read path) (faults ∙ s3.fault) ∙ readable) stored
          (IsPassphrase-kept (c ∷ q) phrase w3 w4 (kept (c ∷ q)) faults phrase_there)
          (decrypt-encrypt E laws k phrase encrypts ∙ ap some same_key))

  -- A key file that `GenerateKeyfile` has created with a passphrase file gives back the key that was
  -- reported, to whoever reads it with the same passphrase file, if go-ethereum decrypts what it
  -- encrypts and the system lets the new file be read.
  pub generate_keyfile-get_private_key :
      (path : Text) (c : ℕ) (q private_keyfile : Text) (random : Option E.Key) (w : World)
      {key : E.Key} {w' : World}
      → Decrypts E
      → w.fault read (or_default path) ≡ false
      → generate_keyfile E path (c ∷ q) private_keyfile random w ≡ (ok key, w')
      → get_private_key E (or_default path) (c ∷ q) w' ≡ (ok key, w')
  unfolding generate_keyfile
  generate_keyfile-get_private_key path c q pk random w {key} {w'} laws readable h =
      by_status (status (or_default path) w) refl h
    where
      by_status :
          (s : Status)
          → status (or_default path) w ≡ s
          → unless_there E s (make_keyfile E (or_default path) (c ∷ q) pk random) w ≡ (ok key, w')
          → get_private_key E (or_default path) (c ∷ q) w' ≡ (ok key, w')
      by_status found e k = absurd (cc)
      by_status stat_failed e k = absurd (cc)
      by_status not_exist e k =
          make_keyfile-get_private_key (or_default path) c q pk random w laws (free_of_status _ w e)
            readable k
