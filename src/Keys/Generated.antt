-- ===== src/Keys/Generated.antt =====
-- Generating accounts for tests destroys nothing but passphrase files.
use botcoin.Base.{
  subst, sym, arith, ℕ, zero, suc, Text, Bool-cases, Option, inl, inr, ◌≡◌, ◌≢◌, refl, ◌∷◌, [],
  ◌++◌,
}
use botcoin.Base.Int.{ℤ, pos, ◌+ℤ◌}
use botcoin.Base.Dict.{lookup}
use botcoin.Base.Bytes.{text, split}
use botcoin.Base.Bytes.Path.Joined.{EndsWith}
use botcoin.Base.Bytes.Path.Suffix.{join_path-suffix}
use botcoin.Base.Bytes.Number.{itoa}
use botcoin.Base.Bytes.Path.{join_path, dir}
use botcoin.Base.Result.{Result, ok, err, panic, hang}
use botcoin.Os.{M, ignore, mkdir_all, write_file}
use botcoin.Os.Spares.{
  Spares, mkdir_all-Spares, Keeps-Spares, bind-Spares, ignore-Spares, write_file-Spares,
}
use botcoin.Files.{check_if_exists, write_to_file_private}
use botcoin.Crypto.{new_keyfile}
use botcoin.Crypto.Keep.{new_keyfile_full-Keeps}
use botcoin.Crypto.Types.{Ethereum}
use botcoin.Keys.{default_password, if_written, generate_account, generate_from, generate_key_range}

-- The passphrase file of an account.
abbrev pub passphrase_path : Text → Text → Text
passphrase_path keystore moniker = join_path (keystore ∷ (moniker ++ text ".txt") ∷ [])

if_written-Spares :
    (q : Text) (m rest : M (Unit {0})) → Spares q m → Spares q rest → Spares q (if_written m rest)
if_written-Spares q m rest s t w e h = by_result (m w).0 refl
  where
    by_result :
        (r : Result (Unit {0}))
        → (m w).0 ≡ r
        → lookup q (if_written m rest w).1.disk ≡ Option.some e
    by_result (ok u) k = rw k (t (m w).1 e (s w e h))
    by_result (err x) k = rw k (s w e h)
    by_result panic k = rw k (s w e h)
    by_result hang k = rw k (s w e h)

password_file-Spares : (q p body : Text) → q ≢ p → Spares q (write_to_file_private p body)
unfolding write_to_file_private
password_file-Spares q p body ne =
    bind-Spares q (mkdir_all (dir p)) (λ u. write_file p body 0o600) (mkdir_all-Spares q (dir p))
      (λ u. write_file-Spares q p body 0o600 ne)

module _ (E : Ethereum) (q keystore : Text) where
  new_keyfile-Spares :
      (moniker password_file : Text) (random : Option E.Key)
      → Spares q (new_keyfile E keystore moniker password_file random)
  unfolding new_keyfile
  new_keyfile-Spares moniker password_file random =
      Keeps-Spares q (new_keyfile E keystore moniker password_file random)
        (new_keyfile_full-Keeps E keystore moniker password_file [] random)

  generate_account-Spares :
      (moniker : Text) (random : Option E.Key)
      → q ≢ passphrase_path keystore moniker
      → Spares q (generate_account E keystore moniker random)
  unfolding generate_account
  generate_account-Spares moniker random ne w e h =
      let path = passphrase_path keystore moniker in
      let made = new_keyfile E keystore moniker path random in
      elim (Bool-cases
        (check_if_exists (join_path (keystore ∷ (moniker ++ text ".json") ∷ [])) w)) [
          | inl k ↦ rw k h
          | inr k ↦ rw k (
              if_written-Spares q (write_to_file_private path default_password) (ignore made)
                (password_file-Spares q path default_password ne)
                (ignore-Spares q made (new_keyfile-Spares moniker path random)) w e h)
        ]

  -- A file whose name does not end with `.txt` stays as it is when a range of accounts is generated,
  -- whatever fails: also a key file that is there before.
  pub generate_key_range-Spares :
      (prefix : Text) (min_suffix max_suffix : ℤ) (random : ℤ → Option E.Key)
      → ¬ EndsWith q (text ".txt")
      → Spares q (generate_key_range E keystore prefix min_suffix max_suffix random)
  unfolding generate_key_range generate_from split
  generate_key_range-Spares prefix min_suffix max_suffix random no_txt = from _ min_suffix
    where
      other : (moniker : Text) → q ≢ passphrase_path keystore moniker
      other moniker e = no_txt (
          subst (λ (u : Text). EndsWith u (text ".txt")) (sym e)
            (join_path-suffix keystore moniker (text ".txt") refl (omega arith)))

      from : (rounds : ℕ) (i : ℤ) → Spares q (generate_from E rounds keystore prefix i random)
      from zero i w e h = h
      from (suc rounds) i w e h =
          bind-Spares q (generate_account E keystore (prefix ++ itoa i) (random i))
            (λ u. generate_from E rounds keystore prefix (i +ℤ pos 1) random)
            (generate_account-Spares (prefix ++ itoa i) (random i) (other (prefix ++ itoa i)))
            (λ u. from rounds (i +ℤ pos 1)) w e h
