-- ===== src/Crypto/Holds.antt =====
-- Which key a file holds, under some passphrase, after `GenerateKeyfile` and `UpdateKey`.
use botcoin.Base.{ℕ, Text, ◌≡◌, ◌≢◌, refl, ap, sym, subst, ◌∙◌, none, some, Option, true, false}
use botcoin.Base.Dict.{lookup}
use botcoin.Base.Result.{Error, Result, ok, ok-injective}
use botcoin.Os.{
  World, file, lift, or_error, read_file, write_file, status, Status, found, not_exist, stat_failed,
}
use botcoin.Os.Rules.{M-eq-ok, or_error-eq-ok, Same, Same-trans}
use botcoin.Os.Disk.{write_file-written, write_file-others}
use botcoin.Crypto.{
  choose_key, get_passphrase, new_passphrase, encrypt_key, some_or, store_keyfile, make_keyfile,
  or_default, generate_keyfile, get_private_key, unless_there, update_key,
}
use botcoin.Crypto.Keep.{free_of_status}
use botcoin.Crypto.Create.{
  read_file-found, some_or-eq-ok, decrypt-encrypt, store_keyfile-stored, read_to,
}
use botcoin.Crypto.Frame.{get_private_key-Reads, new_passphrase-Reads}
use botcoin.Crypto.Types.{Ethereum, Decrypts}

-- Two passphrases that decrypt a file give the same key: the message authentication code that
-- `keystore.DecryptKey` compares is of the cipher and of the passphrase.
abbrev pub IsAuthentic : Ethereum → Type 0
IsAuthentic E =
    (json a b : Text) (k l : E.Key)
    → E.decrypt_key json a ≡ some k
    → E.decrypt_key json b ≡ some l
    → k ≡ l

module _ (E : Ethereum) where
  abbrev pub HoldsKey : World → Text → E.Key → Type 0
  HoldsKey w path key =
      (m : ℕ) × (json : Text) × (phrase : Text) × (lookup path w.disk ≡ some (file m json))
      × (E.decrypt_key json phrase ≡ some key)

  get_private_key-HoldsKey :
      (path pw : Text) (w : World) {key : E.Key} {w' : World}
      → get_private_key E path pw w ≡ (ok key, w')
      → HoldsKey w path key
  unfolding get_private_key
  get_private_key-HoldsKey path pw w h =
      let (json, w1, e1, h1) = M-eq-ok (or_error (read_file path) Error.keyfile_read) _ w h in
      let (m, there, _r) =
        read_file-found path w (or_error-eq-ok (read_file path) Error.keyfile_read w e1) in
      let (phrase, w2, e2, h2) = M-eq-ok (get_passphrase pw false) _ w1 h1 in
      (
        m,
        json,
        phrase,
        there,
        some_or-eq-ok (E.decrypt_key json phrase) Error.decrypt_failed
            (ap (λ (x : Result E.Key × World). x.0) h2),
      )

  make_keyfile-HoldsKey :
      (path pw pk : Text) (random : Option E.Key) (w : World) {key : E.Key} {w' : World}
      → Decrypts E
      → make_keyfile E path pw pk random w ≡ (ok key, w')
      → HoldsKey w' path key
  unfolding make_keyfile
  make_keyfile-HoldsKey path pw pk random w {key} {w'} laws h =
      let (k, w1, e1, h1) = M-eq-ok (choose_key E pk random) _ w h in
      let (phrase, w2, e2, h2) = M-eq-ok (get_passphrase pw true) _ w1 h1 in
      let (json, w3, e3, h3) =
        M-eq-ok (lift (some_or (encrypt_key E k phrase) Error.encrypt_failed)) _ w2 h2 in
      let (u, w4, e4, h4) = M-eq-ok (store_keyfile path json) _ w3 h3 in
      let encrypts =
        some_or-eq-ok (encrypt_key E k phrase) Error.encrypt_failed
          (ap (λ (x : Result Text × World). x.0) e3) in
      let (m, stored, _f) = store_keyfile-stored E path json w3 e4 in
      subst (λ v. HoldsKey v path key) (ap (λ (x : Result E.Key × World). x.1) h4)
        (
          m,
          json,
          phrase,
          stored,
          decrypt-encrypt E laws k phrase encrypts
              ∙ ap some (ok-injective (ap (λ (x : Result E.Key × World). x.0) h4)),
        )

  -- A file that has been created holds the key, at a path where nothing stood.
  pub generate_keyfile-HoldsKey :
      (path pw pk : Text) (random : Option E.Key) (w : World) {key : E.Key} {w' : World}
      → Decrypts E
      → generate_keyfile E path pw pk random w ≡ (ok key, w')
      → (lookup (or_default path) w.disk ≡ none) × HoldsKey w' (or_default path) key
  unfolding generate_keyfile
  generate_keyfile-HoldsKey path pw pk random w {key} {w'} laws h =
      by_status (status (or_default path) w) refl h
    where
      by_status :
          (s : Status)
          → status (or_default path) w ≡ s
          → unless_there E s (make_keyfile E (or_default path) pw pk random) w ≡ (ok key, w')
          → (lookup (or_default path) w.disk ≡ none) × HoldsKey w' (or_default path) key
      by_status found e k = absurd (cc)
      by_status stat_failed e k = absurd (cc)
      by_status not_exist e k = (
        free_of_status (or_default path) w e,
        make_keyfile-HoldsKey (or_default path) pw pk random w laws k,
      )

  -- A file whose passphrase has been changed holds the key that it held; the others are as they were.
  pub update_key-HoldsKey :
      (path pw new : Text) (w : World) {w' : World}
      → Decrypts E
      → update_key E path pw new w ≡ (ok tt, w')
      → (key : E.Key) × HoldsKey w path key
        × HoldsKey w' path key
        × ((r : Text) → r ≢ path → lookup r w'.disk ≡ lookup r w.disk)
  unfolding update_key
  update_key-HoldsKey path pw new w {w'} laws h =
      let (key, w1, e1, h1) = M-eq-ok (get_private_key E path pw) _ w h in
      let (phrase, w2, e2, h2) = M-eq-ok (new_passphrase new) _ w1 h1 in
      let (json, w3, e3, h3) =
        M-eq-ok (lift (some_or (encrypt_key E key phrase) Error.encrypt_failed)) _ w2 h2 in
      let s1 = read_to (get_private_key E path pw) w (get_private_key-Reads E path pw) e1 in
      let s2 =
        subst (λ v. Same w1 v) (ap (λ (x : Result Text × World). x.1) e3)
          (read_to (new_passphrase new) w1 (new_passphrase-Reads new) e2) in
      let s3 = Same-trans w w1 w3 s1 s2 in
      let wrote = or_error-eq-ok (write_file path json 600) Error.keyfile_write w3 h3 in
      let (m, there) = write_file-written path json 600 w3 wrote in
      (
        key,
        get_private_key-HoldsKey path pw w e1,
        (
          m,
          json,
          phrase,
          there,
          decrypt-encrypt E laws key phrase (
              some_or-eq-ok (encrypt_key E key phrase) Error.encrypt_failed
                (ap (λ (x : Result Text × World). x.0) e3)),
        ),
        λ r n.
            ap (λ (v : World). lookup r v.disk)
              (sym (ap (λ (x : Result (Unit {0}) × World). x.1) wrote))
            ∙ write_file-others path json 600 w3 r n
            ∙ ap (lookup r) s3.disk,
      )
