-- ===== src/Files/Silent.antt =====
-- `WriteToFile` with `OverwriteSilently` is a plain write.
use botcoin.Base.{ℕ, Text, ◌≡◌, ◌≢◌, ◌∙◌, sym, refl, inl, inr, Bool-cases}
use botcoin.Base.Dict.{insert}
use botcoin.Base.Result.{Error, ok}
use botcoin.Os.{World, file, write_file, or_error, ignore}
use botcoin.Os.Rules.{or_error-eq-ok}
use botcoin.Os.Spares.{Spares, write_file-Spares}
use botcoin.Os.Writable.{CanWrite, CanWrite-write_file}
use botcoin.Files.{
  write_to_file, process_file_options, has_option, check_if_exists, overwrite_silently,
}

pub write_to_file-silent :
    (p body : Text) (w : World)
    → write_to_file p body overwrite_silently w
      ≡ or_error (write_file p body 0o644) Error.write_failed w
unfolding write_to_file process_file_options has_option
write_to_file-silent p body w = elim (Bool-cases (check_if_exists p w)) [
  | inl e ↦ rw e refl
  | inr e ↦ rw e refl
]

pub silent-eq-ok :
    (p body : Text) (w : World) {w' : World}
    → write_to_file p body overwrite_silently w ≡ (ok tt, w')
    → write_file p body 0o644 w ≡ (ok tt, w')
silent-eq-ok p body w h =
    or_error-eq-ok (write_file p body 0o644) Error.write_failed w
      (sym (write_to_file-silent p body w) ∙ h)

-- Where a write is possible it succeeds, and the error that the program drops is none.
pub ignore-silent :
    (p body : Text) (w : World)
    → CanWrite p w
    → (m : ℕ) × (ignore (write_to_file p body overwrite_silently) w
        ≡ (ok tt, record w { disk = insert p (file m body) w.disk }))
ignore-silent p body w c =
    let (m, e) = CanWrite-write_file p body 0o644 w c in (m, rw (write_to_file-silent p body w, e))

-- It spares every other path.
pub silent-Spares : (q p body : Text) → q ≢ p → Spares q (write_to_file p body overwrite_silently)
silent-Spares q p body ne w e h =
    rw (write_to_file-silent p body w) (write_file-Spares q p body 0o644 ne w e h)
