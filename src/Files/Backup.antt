-- ===== src/Files/Backup.antt =====
-- `SafeRename` takes the lowest free number, and gives up when the first 99 are taken.
use Prim.Native.Nat.{zero}
use botcoin.Base.{ℕ, suc, Text, ◌+◌, ◌≤◌, ◌<◌, ◌≡◌, refl, true, false, arith}
use native.Mathlib.Decide.{ℕ_discrete}
use botcoin.Base.Result.{Error, err}
use botcoin.Os.{World, rename_path}
use botcoin.Files.{check_if_exists, backup_name, safe_rename_from, safe_rename}

module _ (p : Text) (w : World) where
  abbrev pub IsTaken : ℕ → Type 0
  IsTaken n = check_if_exists (backup_name p n) w ≡ true

  first_free :
      (rounds i k : ℕ)
      → i ≤ k
      → k < i + rounds
      → ((m : ℕ) → i ≤ m → m < k → IsTaken m)
      → check_if_exists (backup_name p k) w ≡ false
      → safe_rename_from rounds i p w ≡ rename_path p (backup_name p k) w
  unfolding safe_rename_from
  first_free zero i k a b h free = absurd (omega arith)
  first_free (suc rounds) i k a b h free = elim (ℕ_discrete i k) [
    | yes e ↦ ground arith
    | no ne ↦ ground (
      arith,
      h i (omega arith) (omega arith),
      first_free rounds (i + 1) k (omega arith) (omega arith) (λ m l g. h m (omega arith) g),
    )
  ]

  none_free :
      (rounds i : ℕ)
      → ((m : ℕ) → i ≤ m → m < i + rounds → IsTaken m)
      → safe_rename_from rounds i p w ≡ (err Error.too_many_backups, w)
  unfolding safe_rename_from
  none_free zero i h = refl
  none_free (suc rounds) i h = ground (
    arith,
    h i (omega arith) (omega arith),
    none_free rounds (i + 1) (λ m l g. h m (omega arith) (omega arith)),
  )

  -- An existing file is renamed to the lowest backup number that is free, which is at most 99.
  pub safe_rename-lowest :
      (n : ℕ)
      → check_if_exists p w ≡ true
      → 1 ≤ n
      → n < 100
      → ((m : ℕ) → 1 ≤ m → m < n → IsTaken m)
      → check_if_exists (backup_name p n) w ≡ false
      → safe_rename p w ≡ rename_path p (backup_name p n) w
  unfolding safe_rename
  safe_rename-lowest n e a b h free = rw e (first_free 99 1 n a (omega arith) h free)

  -- When all of the first 99 backup names are taken, `SafeRename` fails and changes nothing.
  pub safe_rename-full :
      check_if_exists p w ≡ true
      → ((m : ℕ) → 1 ≤ m → m < 100 → IsTaken m)
      → safe_rename p w ≡ (err Error.too_many_backups, w)
  unfolding safe_rename
  safe_rename-full e h = rw e (none_free 99 1 (λ m l g. h m l (omega arith)))
