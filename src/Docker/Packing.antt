-- ===== src/Docker/Packing.antt =====
-- Packing an archive changes nothing.
use botcoin.Base.{Text, Bool-cases, inl, inr, refl, Option, none, some, List, [], ◌∷◌, arith}
use botcoin.Base.Dict.{lookup}
use botcoin.Os.{Entry, ArchiveEntry, pure, directory, file, stat, read, open_path, read_file}
use botcoin.Os.Rules.{Leaves, bind-Leaves}
use botcoin.Docker.Archive.{
  header_name, pack_entry, pack_path, pack_paths, pack_found, walk_paths, new_tar_archive_from_path,
}

open_path-Leaves : (p : Text) → Leaves (open_path p)
unfolding open_path
open_path-Leaves p w = ground arith

read_file-Leaves : (p : Text) → Leaves (read_file p)
unfolding read_file
read_file-Leaves p w = ground arith

pack_entry-Leaves : (root path : Text) (e : Option Entry) → Leaves (pack_entry root path e)
pack_entry-Leaves root path none w = refl
pack_entry-Leaves root path (some directory) w = elim (Bool-cases (w.fault read path)) [
  | inl e ↦ rw e refl
  | inr e ↦ rw e (
      bind-Leaves {B = ArchiveEntry} (open_path path)
        (λ v. pure (record { name = header_name root path; body = none })) (open_path-Leaves path)
        (λ v u. refl) w)
]
pack_entry-Leaves root path (some (file mode content)) w =
    bind-Leaves {B = ArchiveEntry} (open_path path) _ (open_path-Leaves path)
      (λ u. bind-Leaves (read_file path) _ (read_file-Leaves path) (λ body v. refl)) w

pack_path-Leaves : (root path : Text) → Leaves (pack_path root path)
unfolding pack_path
pack_path-Leaves root path w = elim (Bool-cases (w.fault stat path)) [
  | inl e ↦ rw e refl
  | inr e ↦ rw e (pack_entry-Leaves root path (lookup path w.disk) w)
]

pack_paths-Leaves : (root : Text) (paths : List Text) → Leaves (pack_paths root paths)
unfolding pack_paths
pack_paths-Leaves root [] = λ w. refl
pack_paths-Leaves root (path ∷ paths) =
    bind-Leaves (pack_path root path) _ (pack_path-Leaves root path) (λ packed.
      bind-Leaves (pack_paths root paths) _ (pack_paths-Leaves root paths) (λ rest w. refl))

pub new_tar_archive_from_path-Leaves : (root : Text) → Leaves (new_tar_archive_from_path root)
unfolding new_tar_archive_from_path
new_tar_archive_from_path-Leaves root w = found (walk_paths root w.disk) w
  where
    found : (paths : List Text) → Leaves (pack_found root paths)
    found [] = λ v. refl
    found (path ∷ paths) = pack_paths-Leaves root (path ∷ paths)
