-- ===== src/Docker/Archive.antt =====
-- src/docker/copy.go: what is packed when a path is copied to a container. The bytes of the archive
-- are those of `archive/tar`; an archive is its entries.
use Prim.Native.Nat.{zero}
use botcoin.Base.{
  ℕ, suc, Text, ◌||◌, Option, none, some, List, [], ◌∷◌, ◌++◌, ◌==◌, text_eq, Bool, true, false,
  if◌then◌else◌, length, drop,
}
use botcoin.Base.Dict.{Dict, lookup}
use botcoin.Base.Bytes.{has_prefix, trim_prefix, split}
use botcoin.Base.Bytes.Path.{slash}
use botcoin.Base.Result.{Error}
use botcoin.Os.{
  Entry, directory, file, stat, read, M, pure, throw, ◌>>=◌, ◌>>◌, gets, fail_if, open_path,
  read_file, text_leb, ArchiveEntry,
}

-- Paths by their elements, in the order of the names.
unfoldable pub elements_leb : List Text → List Text → Bool
elements_leb [] t = true
elements_leb (x ∷ s) [] = false
elements_leb (x ∷ s) (y ∷ t) = let rest = elements_leb s t in if x == y then rest else text_leb x y

unfoldable pub insert_path : Text → List Text → List Text
unfolding elements_leb
insert_path p [] = p ∷ []
insert_path p (q ∷ paths) =
    let rest = insert_path p paths in
    if elements_leb (split b'/' p) (split b'/' q) then p ∷ q ∷ paths else q ∷ rest

-- The paths that `filepath.Walk` comes to, in its order: the root, and what stands below it.
unfoldable pub walk_paths : Text → Dict Entry → List Text
unfolding insert_path
walk_paths root [] = []
walk_paths root ((k, e) ∷ disk) =
    let rest = walk_paths root disk in
    if (k == root) || has_prefix (root ++ slash) k then insert_path k rest else rest

-- `strings.Replace(s, old, "", -1)`, with as many rounds as the text has bytes: every occurrence of a
-- text that is not empty is taken out, from the left.
unfoldable pub remove_all : ℕ → Text → Text → Text
remove_all zero old s = s
remove_all (suc rounds) old [] = []
remove_all (suc rounds) old (c ∷ s) =
    let after = remove_all rounds old (drop (length old) (c ∷ s)) in
    let past = remove_all rounds old s in if has_prefix old (c ∷ s) then after else c ∷ past

-- The name of a path of the walk in the archive.
unfoldable pub header_name : Text → Text → Text
unfolding remove_all
header_name root path = trim_prefix slash (remove_all (length path) root path)

-- One call of the function that the walk is given. A directory has to be listed as well.
abbrev pub pack_entry : Text → Text → Option Entry → M ArchiveEntry
pack_entry root path none = throw Error.io
pack_entry root path (some directory) = do
  unlisted ← gets (λ w. w.fault read path)
  fail_if unlisted Error.io
  open_path path
  pure (record { name = header_name root path; body = none })
pack_entry root path (some (file mode content)) = do
  open_path path
  body ← read_file path
  pure (record { name = header_name root path; body = some body })

unfoldable pub pack_path : Text → Text → M ArchiveEntry
pack_path root path = do
  unknown ← gets (λ w. w.fault stat path)
  fail_if unknown Error.io
  e ← gets (λ w. lookup path w.disk)
  pack_entry root path e

unfoldable pub pack_paths : Text → List Text → M (List ArchiveEntry)
unfolding pack_path
pack_paths root [] = pure []
pack_paths root (path ∷ paths) = do
  packed ← pack_path root path
  rest ← pack_paths root paths
  pure (packed ∷ rest)

-- A path at which nothing stands cannot be walked.
abbrev pub pack_found : Text → List Text → M (List ArchiveEntry)
pack_found root [] = throw Error.io
pack_found root (path ∷ paths) = pack_paths root (path ∷ paths)

unfoldable pub new_tar_archive_from_path : Text → M (List ArchiveEntry)
unfolding walk_paths pack_paths
new_tar_archive_from_path root = do
  paths ← gets (λ w. walk_paths root w.disk)
  pack_found root paths
