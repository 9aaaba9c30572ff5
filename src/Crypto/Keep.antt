-- ===== src/Crypto/Keep.antt =====
-- Creating a key file destroys nothing.
use botcoin.Base.{
  Text, ◌≡◌, refl, ap, ◌∙◌, Bool, true, false, not, Option, none, List, [], ◌∷◌, arith, ◌==◌,
  text_eq,
}
use botcoin.Base.Dict.{lookup}
use botcoin.Base.Bytes.{trim_space}
use botcoin.Base.Bytes.Path.{dir}
use botcoin.Base.Result.{Error}
use botcoin.Os.{
  World, M, lift, or_error, ◌>>=◌, ◌>>◌, mkdir_all, status, Status, found, not_exist, stat_failed,
  gets, fail_if,
}
use botcoin.Os.Rules.{Same, Same-Keeps, Keeps, bind-Keeps}
use botcoin.Os.Disk.{mkdir_all-OnlyDirs, OnlyDirs-Keeps, write_file-Keeps}
use botcoin.Common.{check_moniker}
use botcoin.Files.{create_dirs_if_not_exists, check_if_exists}
use botcoin.Crypto.{
  choose_key, get_passphrase, encrypt_key, some_or, store_keyfile, make_keyfile, or_default,
  generate_keyfile, keyfile_path, new_keyfile_full, unless_there,
}
use botcoin.Crypto.Frame.{choose_key-Reads, get_passphrase-Reads}
use botcoin.Crypto.Types.{Ethereum}

pub free_of_status : (p : Text) (w : World) → status p w ≡ not_exist → lookup p w.disk ≡ none
unfolding status
free_of_status p w e = ground arith

-- A step that reads, in front of steps that keep what stands if nothing stands at a path.
after_read :
    {A B : Type 0} (path : Text) (m : M A) (f : A → M B) (w : World)
    → lookup path w.disk ≡ none
    → Same w (m w).1
    → ((a : A) (w' : World) → lookup path w'.disk ≡ none → Keeps w' (f a w').1)
    → Keeps w ((m >>= f) w).1
after_read path m f w free s k =
    bind-Keeps m f w (Same-Keeps w _ s) (λ a. k a (m w).1 (ap (lookup path) s.disk ∙ free))

create_dirs-Keeps : (ds : List Text) (w : World) → Keeps w (create_dirs_if_not_exists ds w).1
unfolding create_dirs_if_not_exists
create_dirs-Keeps [] w = λ q e h. h
create_dirs-Keeps (d ∷ ds) w =
    bind-Keeps (mkdir_all d) _ w (OnlyDirs-Keeps w _ (mkdir_all-OnlyDirs d w))
      (λ _. create_dirs-Keeps ds (mkdir_all d w).1)

module _ (E : Ethereum) where
  pub store_keyfile-Keeps :
      (path json : Text) (w : World)
      → lookup path w.disk ≡ none
      → Keeps w (store_keyfile path json w).1
  unfolding store_keyfile
  store_keyfile-Keeps path json w free =
      bind-Keeps (or_error (mkdir_all (dir path)) Error.mkdir_failed) _ w
        (OnlyDirs-Keeps w _ (mkdir_all-OnlyDirs (dir path) w))
        (λ _.
          write_file-Keeps path json 0o600 (mkdir_all (dir path) w).1
            (ground (arith, (mkdir_all-OnlyDirs (dir path) w).entries path)))

  make_keyfile-Keeps :
      (path password_file private_keyfile : Text) (random : Option E.Key) (w : World)
      → lookup path w.disk ≡ none
      → Keeps w (make_keyfile E path password_file private_keyfile random w).1
  unfolding make_keyfile
  make_keyfile-Keeps path pw pk random w free =
      after_read path (choose_key E pk random) _ w free (choose_key-Reads E pk random w)
        (λ key w1 f1.
          after_read path (get_passphrase pw true) _ w1 f1 (get_passphrase-Reads pw true w1)
            (λ phrase w2 f2.
              after_read path (lift (some_or (encrypt_key E key phrase) Error.encrypt_failed)) _ w2
                f2 (record { disk = refl; fault = refl })
                (λ json w3 f3.
                  bind-Keeps (store_keyfile path json) _ w3 (store_keyfile-Keeps path json w3 f3)
                    (λ _ q e h. h))))

  -- Whatever its outcome, `GenerateKeyfile` leaves every file and directory on the disk as it was.
  pub generate_keyfile-Keeps :
      (path password_file private_keyfile : Text) (random : Option E.Key) (w : World)
      → Keeps w (generate_keyfile E path password_file private_keyfile random w).1
  unfolding generate_keyfile
  generate_keyfile-Keeps path pw pk random w = by_status (status (or_default path) w) refl
    where
      by_status :
          (s : Status)
          → status (or_default path) w ≡ s
          → Keeps w (unless_there E s (make_keyfile E (or_default path) pw pk random) w).1
      by_status found e = λ q e' h. h
      by_status stat_failed e = λ q e' h. h
      by_status not_exist e =
          make_keyfile-Keeps (or_default path) pw pk random w (free_of_status _ w e)

  unless_there-Keeps :
      (path password_file private_keyfile : Text) (random : Option E.Key) (there : Bool) (w : World)
      → Keeps w
          ((fail_if there Error.moniker_exists
              >> generate_keyfile E path password_file private_keyfile random)
            w).1
  unless_there-Keeps path pw pk random true w = λ q e h. h
  unless_there-Keeps path pw pk random false w = generate_keyfile-Keeps path pw pk random w

  -- Whatever its outcome, creating a key for a moniker leaves every file and directory on the disk as
  -- it was; so no key file is ever overwritten.
  pub new_keyfile_full-Keeps :
      (keystore moniker password_file private_keyfile : Text) (random : Option E.Key) (w : World)
      → Keeps w (new_keyfile_full E keystore moniker password_file private_keyfile random w).1
  unfolding new_keyfile_full
  new_keyfile_full-Keeps ks m pw pk random w = by_tests (trim_space m == []) (not (check_moniker m))
    where
      rest : M E.Key
      rest = do
        create_dirs_if_not_exists (ks ∷ [])
        there ← gets (check_if_exists (keyfile_path ks m))
        fail_if there Error.moniker_exists
        generate_keyfile E (keyfile_path ks m) pw pk random

      by_tests :
          (unset invalid : Bool)
          → Keeps w
              ((fail_if unset Error.moniker_unset
                  >> (fail_if invalid Error.moniker_invalid >> rest))
                w).1
      by_tests true invalid = λ q e h. h
      by_tests false true = λ q e h. h
      by_tests false false =
          bind-Keeps {B = E.Key} (create_dirs_if_not_exists (ks ∷ [])) _ w
            (create_dirs-Keeps (ks ∷ []) w)
            (λ _. unless_there-Keeps (keyfile_path ks m) pw pk random _ _)
