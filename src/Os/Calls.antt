-- ===== src/Os/Calls.antt =====
-- `os.Stat`, `os.MkdirAll`, `os.Rename`, `os.Open`, `os.Create`, `ioutil.ReadFile`,
-- `ioutil.WriteFile` and reading a line from the console.
use mathlib.Core.List.{reverse}
use botcoin.Base.{
  ℕ, Text, Bool, true, false, ◌||◌, ◌&&◌, not, ltb, Option, none, some, List, [], ◌∷◌, ◌++◌, map,
  ◌==◌, text_eq, nat_eq, if◌then◌else◌, length, drop,
}
use botcoin.Base.Dict.{Dict, lookup, insert, erase}
use botcoin.Base.Bytes.{text, has_prefix, contains}
use botcoin.Base.Bytes.Path.{dir, slash}
use botcoin.Base.Result.{Error, ok, err}
use botcoin.Os.Monad.{
  Entry, directory, file, stat, read, write, fill, mkdir, rename, open_file, create, copy, sync,
  World, M, pure, throw, ◌>>◌,
}

-- What `os.Stat` says of a path.
pub data Status : Type 0 where
  found not_exist stat_failed : Status

abbrev pub status_of : Option Entry → Status
status_of none = not_exist
status_of (some e) = found

unfoldable pub status : Text → World → Status
status p w = if w.fault stat p then stat_failed else status_of (lookup p w.disk)

abbrev is_dir_entry : Option Entry → Bool
is_dir_entry (some directory) = true
is_dir_entry _ = false

-- The root and the working directory are always there.
unfoldable pub is_dir : Text → World → Bool
is_dir p w = (p == slash) || (p == text ".") || is_dir_entry (lookup p w.disk)

abbrev put : Text → Entry → M (Unit {0})
put p e w = (ok tt, record w { disk = insert p e w.disk })

abbrev read_entry : Option Entry → M Text
read_entry none = throw Error.io
read_entry (some directory) = throw Error.io
read_entry (some (file mode body)) = pure body

-- `ioutil.ReadFile`
unfoldable pub read_file : Text → M Text
read_file p w = if w.fault read p then (err Error.io, w) else read_entry (lookup p w.disk) w

abbrev pub write_entry : Option Entry → Text → Text → ℕ → M (Unit {0})
write_entry none p body mode w =
    if is_dir (dir p) w then put p (file mode body) w else (err Error.io, w)
write_entry (some directory) p body mode w = (err Error.io, w)
write_entry (some (file old _)) p body mode w = put p (file old body) w

-- A write that is cut off behind the opening, which has emptied the file.
abbrev cut_off : Text → ℕ → M (Unit {0})
cut_off p mode w = let (r, w') = write_entry (lookup p w.disk) p [] mode w in (err Error.io, w')

-- `ioutil.WriteFile`: the mode counts only for a file that is new. It opens and empties the file first,
-- which `write` refuses; where `fill` fails, the file stays empty.
unfoldable pub write_file : Text → Text → ℕ → M (Unit {0})
unfolding is_dir
write_file p body mode w =
    if w.fault write p
    then (err Error.io, w)
    else if w.fault fill p
    then cut_off p mode w
    else write_entry (lookup p w.disk) p body mode w

-- The directories on the way to a path, the path itself last.
ancestors : Text → Text → List Text
ancestors before [] = reverse before ∷ []
ancestors [] (c ∷ s) = ancestors (c ∷ []) s
ancestors (b ∷ before) (c ∷ s) =
    let rest = ancestors (c ∷ b ∷ before) s in
    if c == b'/' then reverse (b ∷ before) ∷ rest else rest

abbrev make_entry : Option Entry → Text → M (Unit {0})
make_entry none p = put p directory
make_entry (some e) p = throw Error.io

-- One directory; it is no error that it exists.
unfoldable pub make_dir : Text → M (Unit {0})
make_dir p w =
    if is_dir p w
    then (ok tt, w)
    else if w.fault mkdir p
    then (err Error.io, w)
    else make_entry (lookup p w.disk) p w

unfoldable pub make_dirs : List Text → M (Unit {0})
make_dirs [] = pure tt
make_dirs (p ∷ ps) = make_dir p >> make_dirs ps

-- `os.MkdirAll`
unfoldable pub mkdir_all : Text → M (Unit {0})
unfolding ancestors make_dir make_dirs is_dir
mkdir_all p = make_dirs (ancestors [] p)

-- The path of an entry after the directory `p` has become `q`.
abbrev move_key : Text → Text → Text → Text
move_key p q k =
    if k == p then q else if has_prefix (p ++ slash) k then q ++ drop (length p) k else k

abbrev move_tree : Text → Text → Dict Entry → Dict Entry
move_tree p q = map (λ (k, e). (move_key p q k, e))

abbrev rename_entry : Option Entry → Text → Text → M (Unit {0})
rename_entry none p q w = (err Error.io, w)
rename_entry (some directory) p q w = (ok tt, record w { disk = move_tree p q w.disk })
rename_entry (some (file mode body)) p q w =
    (ok tt, record w { disk = insert q (file mode body) (erase p w.disk) })

-- `os.Rename`, to a path at which nothing stands.
unfoldable pub rename_path : Text → Text → M (Unit {0})
unfolding has_prefix
rename_path p q w =
    if w.fault rename p then (err Error.io, w) else rename_entry (lookup p w.disk) p q w

abbrev open_entry : Option Entry → M (Unit {0})
open_entry none = throw Error.io
open_entry (some e) = pure tt

-- `os.Open`
unfoldable pub open_path : Text → M (Unit {0})
open_path p w = if w.fault open_file p then (err Error.io, w) else open_entry (lookup p w.disk) w

-- `os.Create`: the file is there, and empty, from then on.
unfoldable pub create_file : Text → M (Unit {0})
unfolding is_dir
create_file p w =
    if w.fault create p then (err Error.io, w) else write_entry (lookup p w.disk) p [] 0o666 w

abbrev pub copy_entry : Option Entry → Text → M (Unit {0})
copy_entry (some (file mode body)) dst w = write_entry (lookup dst w.disk) dst body 0o666 w
copy_entry _ dst w = (err Error.io, w)

-- `io.Copy` from an open file to one just created.
unfoldable pub copy_bytes : Text → Text → M (Unit {0})
unfolding is_dir
copy_bytes src dst w =
    if w.fault copy dst then (err Error.io, w) else copy_entry (lookup src w.disk) dst w

-- Texts in the order of their bytes.
unfoldable pub text_leb : Text → Text → Bool
text_leb [] t = true
text_leb (x ∷ s) [] = false
text_leb (x ∷ s) (y ∷ t) = let rest = text_leb s t in ltb x y || ((x == y) && rest)

unfoldable pub insert_name : Text → List Text → List Text
unfolding text_leb
insert_name s [] = s ∷ []
insert_name s (t ∷ names) =
    let rest = insert_name s names in if text_leb s t then s ∷ t ∷ names else t ∷ rest

-- The name of a path in a directory, if it stands right below it.
unfoldable pub child_name : Text → Text → Option Text
child_name p k =
    let name = drop (length (p ++ slash)) k in
    if has_prefix (p ++ slash) k && not (contains b'/' name) then some name else none

unfoldable pub child_names : Text → Dict Entry → List Text
unfolding child_name insert_name
child_names p [] = []
child_names p ((k, e) ∷ disk) =
    let rest = child_names p disk in
    elim (child_name p k) [ none ↦ rest | some name ↦ insert_name name rest ]

-- `ioutil.ReadDir`: the names in the directory, sorted.
unfoldable pub read_dir : Text → M (List Text)
unfolding child_names is_dir
read_dir p w =
    if w.fault read p
    then (err Error.io, w)
    else if is_dir p w
    then (ok (child_names p w.disk), w)
    else (err Error.io, w)

-- `Sync`
unfoldable pub sync_file : Text → M (Unit {0})
sync_file p w = (if w.fault sync p then err Error.io else ok tt, w)
