-- ===== src/Fs/ReadDir.antt =====
-- src/fs/meta.rs: `for_each_dir_entry`, `read_dir_cached` and `read_dir`.
pub mod Listing
pub mod Image
use erofs_utils_rust.Base.{
  ℕ, [], ◌∷◌, ◌++◌, List, Bytes, Bool, true, ◌==◌, if◌then◌else◌, IoResult, ok, err, panic, ◌>>=◌,
}
use erofs_utils_rust.Metadata.Inode
use erofs_utils_rust.Metadata.Inode.{ErofsInode}
use erofs_utils_rust.Build.Dir.{DirChild}
use erofs_utils_rust.Fs.Reader.{ErofsReader}
use erofs_utils_rust.Fs.Flat.{read_flat_data, read_flat_data_vec}
use erofs_utils_rust.Fs.DirEntries.{Callback, parse_dir_entries}

-- The slice where there is one, and otherwise a copy.
unfoldable pub dir_data_of : ErofsReader → ℕ → ErofsInode → IoResult Bytes
dir_data_of r nid inode = elim (read_flat_data r nid inode 0 (Inode.size inode)) [
  | ok bytes ↦ ok bytes
  | err e ↦ read_flat_data_vec r nid inode 0 (Inode.size inode)
  | panic ↦ panic
]

module _ {S : Type 0} (r : ErofsReader) (cb : Callback S) where
  unfoldable pub for_each_dir_entry : ℕ → ErofsInode → S → IoResult S
  unfolding dir_data_of
  for_each_dir_entry nid inode s =
      if Inode.size inode == 0
      then ok s
      else (do bytes ← dir_data_of r nid inode; parse_dir_entries cb bytes (Inode.size inode) s)

-- `CachedDirEntry`.
pub record CachedDirEntry : Type 0 where
  pub nid : ℕ
  pub file_type : ℕ
  pub name : Bytes

-- The closure that pushes each entry.
unfoldable pub push_entry : Callback (List CachedDirEntry)
push_entry entries nid file_type name =
    ok (entries ++ (record { nid = nid; file_type = file_type; name = name } ∷ []), true)

unfoldable pub read_dir_cached : ErofsReader → ℕ → ErofsInode → IoResult (List CachedDirEntry)
read_dir_cached r nid inode = for_each_dir_entry r push_entry nid inode []
