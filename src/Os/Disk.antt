-- ===== src/Os/Disk.antt =====
-- What `MkdirAll` and `WriteFile` do to the disk.
use botcoin.Base.{
  ℕ, Text, ◌≡◌, ◌≢◌, refl, ◌∙◌, false, Option, some, none, ◌⊎◌, inl, inr, List, [], ◌∷◌, arith,
  Option-cases, text_eq,
}
use botcoin.Base.Dict.{lookup, lookup-insert}
use botcoin.Base.Result.{Error, Result, ok, err, panic, hang}
use botcoin.Os.Monad.{World, Entry, directory, file, read, fill, M, bind_result}
use botcoin.Os.Calls.{make_dir, make_dirs, mkdir_all, write_file, read_file, read_dir, child_names}
use botcoin.Os.Rules.{Keeps, Reads}

-- Only directories are new.
pub record OnlyDirs (w w' : World) : Type 0 where
  pub fault : w'.fault ≡ w.fault
  pub entries :
      (q : Text)
      → (lookup q w'.disk ≡ lookup q w.disk)
        ⊎ ((lookup q w.disk ≡ none) × (lookup q w'.disk ≡ some directory))

OnlyDirs-refl : (w : World) → OnlyDirs w w
OnlyDirs-refl w = record { fault = refl; entries = λ q. inl refl }

OnlyDirs-trans : (u v w : World) → OnlyDirs u v → OnlyDirs v w → OnlyDirs u w
OnlyDirs-trans u v w a b = record {
  fault = b.fault ∙ a.fault;
  entries = λ q. ground (arith, a.entries q, b.entries q);
}

make_dir-OnlyDirs : (p : Text) (w : World) → OnlyDirs w (make_dir p w).1
unfolding make_dir
make_dir-OnlyDirs p w = record {
  fault = ground arith;
  entries = λ q. ground (arith, lookup-insert q p directory w.disk);
}

bind_result-OnlyDirs :
    (r : Result (Unit {0})) (f : Unit {0} → M (Unit {0})) (w : World)
    → OnlyDirs w (f tt w).1
    → OnlyDirs w (bind_result r f w).1
bind_result-OnlyDirs (ok tt) f w h = h
bind_result-OnlyDirs (err e) f w h = OnlyDirs-refl w
bind_result-OnlyDirs panic f w h = OnlyDirs-refl w
bind_result-OnlyDirs hang f w h = OnlyDirs-refl w

make_dirs-OnlyDirs : (ps : List Text) (w : World) → OnlyDirs w (make_dirs ps w).1
unfolding make_dirs
make_dirs-OnlyDirs [] w = OnlyDirs-refl w
make_dirs-OnlyDirs (p ∷ ps) w = OnlyDirs-trans w (make_dir p w).1 _ (make_dir-OnlyDirs p w) (
    bind_result-OnlyDirs (make_dir p w).0 _ (make_dir p w).1
      (make_dirs-OnlyDirs ps (make_dir p w).1))

pub mkdir_all-OnlyDirs : (p : Text) (w : World) → OnlyDirs w (mkdir_all p w).1
unfolding mkdir_all
mkdir_all-OnlyDirs p w = make_dirs-OnlyDirs _ w

pub OnlyDirs-Keeps : (w w' : World) → OnlyDirs w w' → Keeps w w'
OnlyDirs-Keeps w w' d q e h = ground (arith, d.entries q)

-- A write where no file stands changes nothing else.
pub write_file-Keeps :
    (p body : Text) (mode : ℕ) (w : World)
    → (lookup p w.disk ≡ none) ⊎ (lookup p w.disk ≡ some directory)
    → Keeps w (write_file p body mode w).1
unfolding write_file
write_file-Keeps p body mode w h q e there =
    ground
      (arith, lookup-insert q p (file mode body) w.disk, lookup-insert q p (file mode []) w.disk)

pub write_file-fault :
    (p body : Text) (mode : ℕ) (w : World) → (write_file p body mode w).1.fault ≡ w.fault
unfolding write_file
write_file-fault p body mode w = ground arith

-- A write that succeeds leaves the text at its path.
pub write_file-written :
    (p body : Text) (mode : ℕ) (w : World) {w' : World}
    → write_file p body mode w ≡ (ok tt, w')
    → (m : ℕ) × (lookup p w'.disk ≡ some (file m body))
unfolding write_file
write_file-written p body mode w {w'} h = elim (Option-cases (lookup p w.disk)) [
  | inl n ↦ (mode, ground (arith, lookup-insert p p (file mode body) w.disk))
  | inr (e, there) ↦ by_entry e there
]
  where
    by_entry :
        (e : Entry) → lookup p w.disk ≡ some e → (m : ℕ) × (lookup p w'.disk ≡ some (file m body))
    by_entry directory there = absurd (ground arith)
    by_entry (file m old) there = (m, ground (arith, lookup-insert p p (file m body) w.disk))

-- It leaves every other path alone, whatever its outcome.
pub write_file-others :
    (p body : Text) (mode : ℕ) (w : World) (q : Text)
    → q ≢ p
    → lookup q (write_file p body mode w).1.disk ≡ lookup q w.disk
unfolding write_file
write_file-others p body mode w q ne = elim (Option-cases (lookup p w.disk)) [
  | inl n ↦
      ground
        (arith, lookup-insert q p (file mode body) w.disk, lookup-insert q p (file mode []) w.disk)
  | inr (e, there) ↦ by_entry e there
]
  where
    by_entry :
        (e : Entry)
        → lookup p w.disk ≡ some e
        → lookup q (write_file p body mode w).1.disk ≡ lookup q w.disk
    by_entry directory there = ground arith
    by_entry (file m old) there =
        ground (arith, lookup-insert q p (file m body) w.disk, lookup-insert q p (file m []) w.disk)

-- A write that fails, and has not been cut off, changes nothing.
pub write_file-failed :
    (p body : Text) (mode : ℕ) (w : World)
    → w.fault fill p ≡ false
    → (write_file p body mode w).0 ≢ ok tt
    → (write_file p body mode w).1 ≡ w
unfolding write_file
write_file-failed p body mode w whole h = ground arith

-- A write says that it has succeeded or failed.
pub write_file-result :
    (p body : Text) (mode : ℕ) (w : World)
    → ((write_file p body mode w).0 ≡ ok tt) ⊎ ((write_file p body mode w).0 ≡ err Error.io)
unfolding write_file
write_file-result p body mode w = ground arith

-- What a file that is read holds; reading changes nothing.
pub read_file-eq-ok :
    (p : Text) (w : World) {body : Text} {w' : World}
    → read_file p w ≡ (ok body, w')
    → (m : ℕ) × (w' ≡ w) × (lookup p w.disk ≡ some (file m body)) × (w.fault read p ≡ false)
unfolding read_file
read_file-eq-ok p w {body} {w'} h = by_entry (lookup p w.disk) refl
  where
    by_entry :
        (o : Option Entry)
        → lookup p w.disk ≡ o
        → (m : ℕ) × (w' ≡ w) × (lookup p w.disk ≡ some (file m body)) × (w.fault read p ≡ false)
    by_entry none e = absurd (ground arith)
    by_entry (some directory) e = absurd (ground arith)
    by_entry (some (file m old)) e = (m, ground arith, ground arith, ground arith)

-- The names that a directory gives; listing it changes nothing.
pub read_dir-eq-ok :
    (p : Text) (w : World) {names : List Text} {w' : World}
    → read_dir p w ≡ (ok names, w')
    → (w' ≡ w) × (names ≡ child_names p w.disk)
unfolding read_dir
read_dir-eq-ok p w h = ground arith

pub read_file-Reads : (p : Text) → Reads (read_file p)
unfolding read_file
read_file-Reads p w = record { disk = ground arith; fault = ground arith }

pub read_dir-Reads : (p : Text) → Reads (read_dir p)
unfolding read_dir
read_dir-Reads p w = record { disk = ground arith; fault = ground arith }
