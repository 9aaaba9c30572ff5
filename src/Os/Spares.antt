-- ===== src/Os/Spares.antt =====
-- Actions that leave what stands at one path, whatever their outcome.
use botcoin.Base.{ℕ, Option, Bool-cases, inl, inr, Text, ◌≡◌, ◌≢◌, refl, ◌∙◌, none, some, [], arith}
use botcoin.Base.Dict.{lookup, lookup-insert_ne}
use botcoin.Base.Bytes.Path.{dir}
use botcoin.Base.Result.{Result, ok, err, panic, hang}
use botcoin.Os.Monad.{
  World, Entry, directory, file, create, copy, M, ◌>>=◌, bind_result, ignore, ignore_result,
}
use botcoin.Os.Calls.{
  mkdir_all, write_file, write_entry, copy_entry, is_dir, open_path, create_file, copy_bytes,
  sync_file,
}
use botcoin.Os.Rules.{Keeps, Reads, Same-Keeps}
use botcoin.Os.Disk.{mkdir_all-OnlyDirs, OnlyDirs-Keeps, write_file-others}

abbrev pub Spares : {A : Type 0} → Text → M A → Type 0
Spares q m = (w : World) (e : Entry) → lookup q w.disk ≡ some e → lookup q (m w).1.disk ≡ some e

pub Keeps-Spares : {A : Type 0} (q : Text) (m : M A) → ((w : World) → Keeps w (m w).1) → Spares q m
Keeps-Spares q m k w e h = k w q e h

pub Reads-Spares : {A : Type 0} (q : Text) (m : M A) → Reads m → Spares q m
Reads-Spares q m r = Keeps-Spares q m (λ w. Same-Keeps w (m w).1 (r w))

pub bind-Spares :
    {A B : Type 0} (q : Text) (m : M A) (f : A → M B)
    → Spares q m
    → ((a : A) → Spares q (f a))
    → Spares q (m >>= f)
bind-Spares {A} {B} q m f s k w e h = by_result (m w).0 (s w e h)
  where
    by_result :
        (r : Result A)
        → lookup q (m w).1.disk ≡ some e
        → lookup q (bind_result r f (m w).1).1.disk ≡ some e
    by_result (ok a) there = k a (m w).1 e there
    by_result (err x) there = there
    by_result panic there = there
    by_result hang there = there

pub ignore-Spares : {A : Type 0} (q : Text) (m : M A) → Spares q m → Spares q (ignore m)
ignore-Spares {A} q m s w e h = by_result (m w).0 (s w e h)
  where
    by_result :
        (r : Result A)
        → lookup q (m w).1.disk ≡ some e
        → lookup q (ignore_result r (m w).1).1.disk ≡ some e
    by_result (ok a) there = there
    by_result (err x) there = there
    by_result panic there = there
    by_result hang there = there

pub mkdir_all-Spares : (q p : Text) → Spares q (mkdir_all p)
mkdir_all-Spares q p w e h = OnlyDirs-Keeps w _ (mkdir_all-OnlyDirs p w) q e h

pub write_file-Spares : (q p body : Text) (mode : ℕ) → q ≢ p → Spares q (write_file p body mode)
write_file-Spares q p body mode ne w e h = write_file-others p body mode w q ne ∙ h

pub open_path-Spares : (q p : Text) → Spares q (open_path p)
unfolding open_path
open_path-Spares q p w e h = ground arith

write_entry-others :
    (o : Option Entry) (q p body : Text) (mode : ℕ) (w : World)
    → q ≢ p
    → lookup q (write_entry o p body mode w).1.disk ≡ lookup q w.disk
write_entry-others none q p body mode w ne = elim (Bool-cases (is_dir (dir p) w)) [
  | inl e ↦ rw e (lookup-insert_ne q p (file mode body) w.disk ne)
  | inr e ↦ rw e refl
]
write_entry-others (some directory) q p body mode w ne = refl
write_entry-others (some (file old _)) q p body mode w ne =
    lookup-insert_ne q p (file old body) w.disk ne

pub create_file-Spares : (q p : Text) → q ≢ p → Spares q (create_file p)
unfolding create_file
create_file-Spares q p ne w e h = elim (Bool-cases (w.fault create p)) [
  | inl k ↦ rw k h
  | inr k ↦ rw k (write_entry-others (lookup p w.disk) q p [] 0o666 w ne ∙ h)
]

copy_entry-others :
    (o : Option Entry) (q dst : Text) (w : World)
    → q ≢ dst
    → lookup q (copy_entry o dst w).1.disk ≡ lookup q w.disk
copy_entry-others none q dst w ne = refl
copy_entry-others (some directory) q dst w ne = refl
copy_entry-others (some (file mode body)) q dst w ne =
    write_entry-others (lookup dst w.disk) q dst body 0o666 w ne

pub copy_bytes-Spares : (q src dst : Text) → q ≢ dst → Spares q (copy_bytes src dst)
unfolding copy_bytes
copy_bytes-Spares q src dst ne w e h = elim (Bool-cases (w.fault copy dst)) [
  | inl k ↦ rw k h
  | inr k ↦ rw k (copy_entry-others (lookup src w.disk) q dst w ne ∙ h)
]

pub sync_file-Spares : (q p : Text) → Spares q (sync_file p)
unfolding sync_file
sync_file-Spares q p w e h = ground arith
