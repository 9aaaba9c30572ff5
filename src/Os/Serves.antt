-- ===== src/Os/Serves.antt =====
-- Actions that leave what the servers answer, whatever their outcome.
use botcoin.Base.{ℕ, Text, ◌≡◌, refl, sym, ap, ◌∙◌, List, [], ◌∷◌, arith}
use botcoin.Base.Result.{Error, Result, ok, err, panic, hang}
use botcoin.Os.Monad.{World, M, ◌>>=◌, bind_result, or_error, ignore, ignore_result}
use botcoin.Os.Calls.{make_dir, make_dirs, mkdir_all, write_file, read_file}

abbrev pub Serves : {A : Type 0} → M A → Type 0
Serves m = (w : World) → (m w).1.net ≡ w.net

pub Serves-end :
    {A : Type 0} (m : M A) (w : World) {r : Result A} {w' : World}
    → Serves m
    → m w ≡ (r, w')
    → w'.net ≡ w.net
Serves-end {A} m w s e = ap (λ (p : Result A × World). p.1.net) (sym e) ∙ s w

pub bind-Serves :
    {A B : Type 0} (m : M A) (f : A → M B) → Serves m → ((a : A) → Serves (f a)) → Serves (m >>= f)
bind-Serves {A} {B} m f s k w = by_result (m w).0 ∙ s w
  where
    by_result : (r : Result A) → (bind_result r f (m w).1).1.net ≡ (m w).1.net
    by_result (ok a) = k a (m w).1
    by_result (err e) = refl
    by_result panic = refl
    by_result hang = refl

pub ignore-Serves : {A : Type 0} (m : M A) → Serves m → Serves (ignore m)
ignore-Serves {A} m s w = by_result (m w).0 ∙ s w
  where
    by_result : (r : Result A) → (ignore_result r (m w).1).1.net ≡ (m w).1.net
    by_result (ok a) = refl
    by_result (err e) = refl
    by_result panic = refl
    by_result hang = refl

pub or_error-Serves : {A : Type 0} (m : M A) (e : Error) → Serves m → Serves (or_error m e)
or_error-Serves m e s w = s w

pub write_file-Serves : (p body : Text) (mode : ℕ) → Serves (write_file p body mode)
unfolding write_file
write_file-Serves p body mode w = ground arith

pub read_file-Serves : (p : Text) → Serves (read_file p)
unfolding read_file
read_file-Serves p w = ground arith

make_dir-Serves : (p : Text) → Serves (make_dir p)
unfolding make_dir
make_dir-Serves p w = ground arith

make_dirs-Serves : (ps : List Text) → Serves (make_dirs ps)
unfolding make_dirs
make_dirs-Serves [] w = refl
make_dirs-Serves (p ∷ ps) w =
    bind-Serves (make_dir p) (λ u. make_dirs ps) (make_dir-Serves p) (λ u. make_dirs-Serves ps) w

pub mkdir_all-Serves : (p : Text) → Serves (mkdir_all p)
unfolding mkdir_all
mkdir_all-Serves p = make_dirs-Serves _
