-- ===== src/Crypto/Update.antt =====
-- `UpdateKey` changes the passphrase of a key file, and nothing else.
use botcoin.Base.{
  ℕ, false, true, ◌⊎◌, inl, inr, Bool-cases, Text, ◌≡◌, ◌≢◌, refl, ap, sym, subst, ◌∙◌, ◌∷◌,
}
use botcoin.Base.Dict.{lookup}
use botcoin.Base.Result.{Error, Result, ok, err, panic, hang}
use botcoin.Os.{
  World, M, lift, or_error, rename_result, bind_result, read_file, read, fill, write_file, ◌>>=◌,
}
use botcoin.Os.Rules.{M-eq-ok, or_error-eq-ok, Same, Same-trans, Reads}
use botcoin.Os.Disk.{
  write_file-written, write_file-others, write_file-fault, write_file-failed, write_file-result,
}
use botcoin.Crypto.{
  get_private_key, new_passphrase, read_passphrase, encrypt_key, some_or, update_key,
}
use botcoin.Crypto.Create.{
  IsPassphrase-kept, read_file-found, some_or-eq-ok, read_passphrase-IsPassphrase,
  get_private_key-eq, decrypt-encrypt, read_to,
}
use botcoin.Crypto.Frame.{get_private_key-Reads, new_passphrase-Reads}
use botcoin.Crypto.Types.{Ethereum, Decrypts}

module _ (E : Ethereum) where
  -- The file that a key was read from can be read.
  get_private_key-readable :
      (path password_file : Text) (w : World) {key : E.Key} {w' : World}
      → get_private_key E path password_file w ≡ (ok key, w')
      → w.fault read path ≡ false
  unfolding get_private_key
  get_private_key-readable path pw w h =
      let (json, w1, e, _k) = M-eq-ok (or_error (read_file path) Error.keyfile_read) _ w h in
      let (m, there, readable) =
        read_file-found path w (or_error-eq-ok (read_file path) Error.keyfile_read w e) in
      readable

  -- When `UpdateKey` succeeds with a file of the new passphrase, other than the key file, the old
  -- passphrase gave a key; the new one gives the same key from then on; and the files at all other
  -- paths are what they were. The hypothesis is that go-ethereum decrypts what it encrypts.
  pub update_key-get_private_key :
      (path password_file : Text) (c : ℕ) (q : Text) (w : World) {w' : World}
      → Decrypts E
      → (c ∷ q) ≢ path
      → update_key E path password_file (c ∷ q) w ≡ (ok tt, w')
      → (key : E.Key) × ((get_private_key E path password_file w).0 ≡ ok key)
        × (get_private_key E path (c ∷ q) w' ≡ (ok key, w'))
        × ((r : Text) → r ≢ path → lookup r w'.disk ≡ lookup r w.disk)
  unfolding update_key new_passphrase
  update_key-get_private_key path pw c q w {w'} laws ne h =
      let (key, w1, e1, h1) = M-eq-ok (get_private_key E path pw) _ w h in
      let (phrase, w2, e2, h2) =
        M-eq-ok (read_passphrase Error.new_passphrase_read (c ∷ q)) _ w1 h1 in
      let (json, w3, e3, h3) =
        M-eq-ok (lift (some_or (encrypt_key E key phrase) Error.encrypt_failed)) _ w2 h2 in
      let s1 = read_to (get_private_key E path pw) w (get_private_key-Reads E path pw) e1 in
      let s2 =
        subst (λ v. Same w1 v) (ap (λ (x : Result Text × World). x.1) e3)
          (read_to (new_passphrase (c ∷ q)) w1 (new_passphrase-Reads (c ∷ q)) e2) in
      let s3 = Same-trans w w1 w3 s1 s2 in
      let wrote = or_error-eq-ok (write_file path json 600) Error.keyfile_write w3 h3 in
      let ends = ap (λ (x : Result (Unit {0}) × World). x.1) wrote in
      let (m, there) = write_file-written path json 600 w3 wrote in
      let others = λ (r : Text) (n : r ≢ path).
        ap (λ (v : World). lookup r v.disk) (sym ends) ∙ write_file-others path json 600 w3 r n in
      let faults = ap (λ (v : World). v.fault) (sym ends) ∙ write_file-fault path json 600 w3 in
      (
        key,
        ap (λ (x : Result E.Key × World). x.0) e1,
        get_private_key-eq E path json m c q phrase key w'
            (ap (λ g. g read path) (faults ∙ s3.fault) ∙ get_private_key-readable path pw w e1)
            there
            (IsPassphrase-kept (c ∷ q) phrase w1 w'
              (λ e' stands. others (c ∷ q) ne ∙ ap (lookup (c ∷ q)) s2.disk ∙ stands)
              (faults ∙ s2.fault)
              (read_passphrase-IsPassphrase Error.new_passphrase_read (c ∷ q) w1 e2))
            (decrypt-encrypt E laws key phrase (
              some_or-eq-ok (encrypt_key E key phrase) Error.encrypt_failed
                (ap (λ (x : Result Text × World). x.0) e3))),
        λ r n. others r n ∙ ap (lookup r) s3.disk,
      )

-- How an update that fails leaves the world: as it was, or, where the write to the key file is cut off,
-- with another key file, and an error that says so.
abbrev pub Failed : Text → World → Result (Unit {0}) × World → Type 0
Failed path w (r, w') =
    (w'.disk ≡ w.disk)
    ⊎ ((w.fault fill path ≡ true)
        × (r ≡ err Error.keyfile_write)
        × ((q : Text) → q ≢ path → lookup q w'.disk ≡ lookup q w.disk))

Failed-after :
    (path : Text) (w v : World) (out : Result (Unit {0}) × World)
    → Same w v
    → Failed path v out
    → Failed path w out
Failed-after path w v out s (inl e) = inl (e ∙ s.disk)
Failed-after path w v out s (inr (cut, r, others)) =
    inr (ap (λ g. g fill path) (sym s.fault) ∙ cut, r, λ q n. others q n ∙ ap (lookup q) s.disk)

-- A step that reads, in front of steps that fail so.
fails_after :
    {A : Type 0} (path : Text) (m : M A) (f : A → M (Unit {0})) (w : World)
    → Reads m
    → ((a : A) (v : World) → (f a v).0 ≢ ok tt → Failed path v (f a v))
    → ((m >>= f) w).0 ≢ ok tt
    → Failed path w ((m >>= f) w)
fails_after {A} path m f w s k n = by_result (m w).0 n
  where
    by_result :
        (r : Result A)
        → (bind_result r f (m w).1).0 ≢ ok tt
        → Failed path w (bind_result r f (m w).1)
    by_result (ok a) n' = Failed-after path w (m w).1 (f a (m w).1) (s w) (k a (m w).1 n')
    by_result (err e) n' = inl (s w).disk
    by_result panic n' = inl (s w).disk
    by_result hang n' = inl (s w).disk

write_fails :
    (path json : Text) (v : World)
    → (or_error (write_file path json 600) Error.keyfile_write v).0 ≢ ok tt
    → Failed path v (or_error (write_file path json 600) Error.keyfile_write v)
write_fails path json v n = elim (Bool-cases (v.fault fill path)) [
  | inr whole ↦ inl (
      ap (λ (u : World). u.disk)
        (write_file-failed path json 600 v whole
          (λ wrote. n (ap (rename_result Error.keyfile_write) wrote))))
  | inl cut ↦ inr (cut, said (write_file-result path json 600 v), write_file-others path json 600 v)
]
  where
    said :
        ((write_file path json 600 v).0 ≡ ok tt) ⊎ ((write_file path json 600 v).0 ≡ err Error.io)
        → rename_result Error.keyfile_write (write_file path json 600 v).0 ≡ err Error.keyfile_write
    said (inl e) = absurd (n (ap (rename_result Error.keyfile_write) e))
    said (inr e) = ap (rename_result Error.keyfile_write) e

module _ (E : Ethereum) where
  -- When `UpdateKey` fails, the disk is what it was, unless the system cuts off the write to the key file:
  -- then the error is that of the write, and no other file is changed.
  pub update_key-failed :
      (path password_file new_password_file : Text) (w : World)
      → (update_key E path password_file new_password_file w).0 ≢ ok tt
      → let (r, w') = update_key E path password_file new_password_file w in
        (w'.disk ≡ w.disk)
        ⊎ ((w.fault fill path ≡ true)
            × (r ≡ err Error.keyfile_write)
            × ((q : Text) → q ≢ path → lookup q w'.disk ≡ lookup q w.disk))
  unfolding update_key
  update_key-failed path pw new w n =
      fails_after path (get_private_key E path pw) _ w (get_private_key-Reads E path pw)
        (λ key w1 n1.
          fails_after path (new_passphrase new) _ w1 (new_passphrase-Reads new)
            (λ phrase w2 n2.
              fails_after path (lift (some_or (encrypt_key E key phrase) Error.encrypt_failed)) _ w2
                (λ v. record { disk = refl; fault = refl })
                (λ json w3 n3. write_fails path json w3 n3) n2)
            n1)
        n
