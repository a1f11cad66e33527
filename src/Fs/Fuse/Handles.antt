-- ===== src/Fs/Fuse/Handles.antt =====
-- src/fs/fuse.rs: the table of directory handles, `opendir`, `readdir` and `releasedir`.
pub mod Table
pub mod Pages
pub mod Resume
use erofs_utils_rust.Base.{
  ℕ, zero, suc, ◌+◌, ◌<◌, ◌≤◌, ◌^◌, ◌≡◌, ◌≢◌, refl, sym, ap, ◌∙◌, arith, [], ◌∷◌, ◌++◌, List, Bytes,
  Bool, true, false, Option, none, some, ◌==◌, not, if◌then◌else◌, add64, drop, All, IoResult, ok,
  err, panic, os, ◌>>=◌, map_ok, ==_refl, Bool-cases, inl, inr,
}
use erofs_utils_rust.Metadata.Inode
use erofs_utils_rust.Fs.Reader.{ErofsReader, inode}
use erofs_utils_rust.Fs.ReadDir.{CachedDirEntry, read_dir_cached}
use erofs_utils_rust.Fs.Fuse.{Stat, make_entry, to_nid, to_ino, file_type_bits, erofs_ft_to_dt}

pub record ErofsFs : Type 0 where
  pub reader : ErofsReader
  pub dir_handles : List (ℕ × List CachedDirEntry)
  pub next_dir_handle : ℕ

unfoldable pub new : ErofsReader → ErofsFs
new reader = record { reader = reader; dir_handles = []; next_dir_handle = 1 }

module _ {ℓ} {V : Type ℓ} where
  -- `HashMap::get`, `remove` and `insert`.
  unfoldable pub get : ℕ → List (ℕ × V) → Option V
  get k [] = none
  get k ((j, v) ∷ m) = if j == k then some v else get k m

  unfoldable pub remove : ℕ → List (ℕ × V) → List (ℕ × V)
  remove k [] = []
  remove k ((j, v) ∷ m) = let rest = remove k m in if j == k then rest else (j, v) ∷ rest

  unfoldable pub insert : ℕ → V → List (ℕ × V) → List (ℕ × V)
  unfolding remove
  insert k v m = (k, v) ∷ remove k m

-- `next_dir_handle.fetch_add(1)` wraps.
unfoldable pub create_dir_handle : ErofsFs → ℕ → IoResult (ErofsFs × ℕ)
create_dir_handle fs ino = do
  nid ← to_nid fs.reader ino
  vi ← inode fs.reader nid
  entries ← read_dir_cached fs.reader nid vi
  let handle = fs.next_dir_handle
  ok (
    record fs {
      dir_handles = insert handle entries fs.dir_handles;
      next_dir_handle = add64 handle 1;
    },
    handle,
  )

-- EBADF is 9.
unfoldable pub get_dir_handle : ErofsFs → ℕ → IoResult (List CachedDirEntry)
get_dir_handle fs handle = elim (get handle fs.dir_handles) [
  | some entries ↦ ok entries
  | none ↦ err (os 9)
]

-- ENOTDIR is 20.
unfoldable pub opendir : ErofsFs → ℕ → IoResult (ErofsFs × ℕ)
opendir fs ino = do
  nid ← to_nid fs.reader ino
  vi ← inode fs.reader nid
  (if not (file_type_bits (Inode.mode vi) == 0o040000)
      then err (os 20)
      else create_dir_handle fs ino)

unfoldable pub releasedir : ErofsFs → ℕ → ErofsFs
releasedir fs handle = record fs { dir_handles = remove handle fs.dir_handles }

-- The `DirEntry` that is handed to the kernel.
pub record FuseDirEntry : Type 0 where
  pub ino : ℕ
  pub offset : ℕ
  pub type_ : ℕ
  pub name : Bytes

-- `add_entry`, with the state that it captures: it fails, or returns a size that is 0 where the
-- kernel's buffer is full.
abbrev pub AddEntry : Type 0 → Type 0
AddEntry T = T → FuseDirEntry → IoResult (T × ℕ)

module _ {T : Type 0} (add_entry : AddEntry T) where
  -- The `for` loop from the index `idx` on.
  unfoldable pub readdir_loop : ErofsReader → ℕ → List CachedDirEntry → T → IoResult T
  readdir_loop r idx [] t = ok t
  readdir_loop r idx (entry ∷ entries) t = do
    ino ← to_ino r entry.nid
    (t', size) ← add_entry t (record {
      ino = ino;
      offset = idx + 1;
      type_ = erofs_ft_to_dt entry.file_type;
      name = entry.name;
    })
    elim (size == 0) [ true ↦ ok t' | false ↦ readdir_loop r (idx + 1) entries t' ]

  unfoldable pub readdir : ErofsFs → ℕ → ℕ → T → IoResult T
  readdir fs handle offset t = do
    entries ← get_dir_handle fs handle
    readdir_loop fs.reader offset (drop offset entries) t

-- `readdirplus` hands each entry on together with its `Entry`.
module _ {T : Type 0} (add_entry : T → FuseDirEntry → ℕ × Stat → IoResult (T × ℕ)) where
  unfoldable pub readdirplus_loop : ErofsReader → ℕ → List CachedDirEntry → T → IoResult T
  readdirplus_loop r idx [] t = ok t
  readdirplus_loop r idx (entry ∷ entries) t = do
    child_inode ← inode r entry.nid
    fuse_entry ← make_entry r entry.nid child_inode
    ino ← to_ino r entry.nid
    (t', size) ←
        add_entry t
          (record {
            ino = ino;
            offset = idx + 1;
            type_ = erofs_ft_to_dt entry.file_type;
            name = entry.name;
          })
          fuse_entry
    elim (size == 0) [ true ↦ ok t' | false ↦ readdirplus_loop r (idx + 1) entries t' ]

  unfoldable pub readdirplus : ErofsFs → ℕ → ℕ → T → IoResult T
  readdirplus fs handle offset t = do
    entries ← get_dir_handle fs handle
    readdirplus_loop fs.reader offset (drop offset entries) t
