-- ===== src/Fs/Fuse.antt =====
-- src/fs/fuse.rs: the file system's inode numbers, lookup, listing of directories through handles,
-- and reads. The handles are an association list; the mutex is held for one operation on it.
pub mod Inodes
pub mod Handles
pub mod Lookup
pub mod Plus
pub mod Xattrs
use erofs_utils_rust.Base.{
  ℕ, ◌+◌, [], ◌∷◌, ◌++◌, List, Bytes, Bool, true, false, Option, none, some, ◌==◌, if◌then◌else◌,
  add64, sub64, mul64, ◌/◌, ◌%◌, ◌^◌, ◌||◌, bit_and, bit_or, not, drop, bytes_eq, IoResult, ok, err,
  os, ◌>>=◌, map_ok,
}
use erofs_utils_rust.Metadata.Superblock
use erofs_utils_rust.Metadata.Inode
use erofs_utils_rust.Metadata.Inode.{ErofsInode}
use erofs_utils_rust.Build.Dir.{DirChild}
use erofs_utils_rust.Fs.Reader.{ErofsReader, sb, inode}
use erofs_utils_rust.Fs.DirEntries.{Callback}
use erofs_utils_rust.Metadata.Consts.{
  erofs_ft_reg_file, erofs_ft_dir, erofs_ft_chrdev, erofs_ft_blkdev, erofs_ft_fifo, erofs_ft_sock,
  erofs_ft_symlink,
}
use erofs_utils_rust.Fs.Flat.{read_symlink}
use erofs_utils_rust.Fs.FileData.{write_file_data_to}
use erofs_utils_rust.Fs.ReadDir.{for_each_dir_entry, read_dir_cached}

abbrev pub fuse_root_id : ℕ
fuse_root_id = 1

unfoldable pub to_nid : ErofsReader → ℕ → IoResult ℕ
to_nid r ino =
    if ino == fuse_root_id
    then (do s ← sb r; ok (Superblock.root_nid s))
    else ok (sub64 ino fuse_root_id)

unfoldable pub to_ino : ErofsReader → ℕ → IoResult ℕ
to_ino r nid = do
  s ← sb r
  ok (if nid == Superblock.root_nid s then fuse_root_id else add64 nid fuse_root_id)

-- The closure of `lookup`: it keeps the nid of the entry with the name, and stops there.
unfoldable pub find_name : Bytes → Callback (Option ℕ)
find_name target found entry_nid file_type entry_name =
    if bytes_eq entry_name target then ok (some entry_nid, false) else ok (found, true)

-- The nid that `lookup` finds, or ENOENT.
unfoldable pub lookup_nid : ErofsReader → ℕ → Bytes → IoResult ℕ
lookup_nid r parent target = do
  nid ← to_nid r parent
  vi ← inode r nid
  found ← for_each_dir_entry r (find_name target) nid vi none
  elim found [ some child_nid ↦ ok child_nid | none ↦ err (os 2) ]

-- `stat64`, the fields that `make_stat` fills; it leaves the others 0.
pub record Stat : Type 0 where
  pub st_ino : ℕ
  pub st_mode : ℕ
  pub st_nlink : ℕ
  pub st_size : ℕ
  pub st_blocks : ℕ
  pub st_uid : ℕ
  pub st_gid : ℕ
  pub st_mtime : ℕ
  pub st_mtime_nsec : ℕ
  pub st_blksize : ℕ
  pub st_rdev : ℕ

-- `mode & S_IFMT`, and the file types of `libc`.
abbrev pub file_type_bits : ℕ → ℕ
file_type_bits mode = bit_and mode 0o170000

-- `1u64 << sb.blkszbits`: a release build masks the shift by 63.
abbrev pub block_size_of : ℕ → ℕ
block_size_of blkszbits = 2 ^ (blkszbits % 64)

-- The times of access and of change are the time of modification.
unfoldable pub make_stat : ErofsReader → ℕ → ErofsInode → IoResult Stat
make_stat r nid vi = do
  ino ← to_ino r nid
  s ← sb r
  let block_size = block_size_of s.blkszbits
  let size = Inode.size vi
  let kind = file_type_bits (Inode.mode vi)
  ok (record {
    st_ino = ino;
    st_mode = Inode.mode vi;
    st_nlink = Inode.nlink vi;
    st_size = size;
    st_blocks = mul64 (sub64 (add64 size block_size) 1 / block_size) block_size / 512;
    st_uid = Inode.uid vi;
    st_gid = Inode.gid vi;
    st_mtime = Inode.mtime vi (Superblock.epoch s);
    st_mtime_nsec = Inode.mtime_nsec vi;
    st_blksize = block_size;
    st_rdev = (if kind == 0o020000 || kind == 0o060000 then Inode.rdev vi else 0);
  })

unfoldable pub getattr : ErofsReader → ℕ → IoResult Stat
getattr r ino = do nid ← to_nid r ino; vi ← inode r nid; make_stat r nid vi

-- `Entry`: the number and the attributes. The generation and the flags are 0, and the timeouts are
-- `EROFS_FUSE_TIMEOUT`.
unfoldable pub make_entry : ErofsReader → ℕ → ErofsInode → IoResult (ℕ × Stat)
make_entry r nid vi = do ino ← to_ino r nid; st ← make_stat r nid vi; ok (ino, st)

unfoldable pub lookup : ErofsReader → ℕ → Bytes → IoResult (ℕ × Stat)
unfolding make_entry
lookup r parent target = do
  child_nid ← lookup_nid r parent target
  vi ← inode r child_nid
  make_entry r child_nid vi

-- `open` returns the nid as the handle. O_WRONLY | O_RDWR is 3, EROFS is 30, EISDIR is 21.
unfoldable pub open_file : ErofsReader → ℕ → ℕ → IoResult ℕ
open_file r ino flags = if not (bit_and flags 3 == 0) then err (os 30) else (do
  nid ← to_nid r ino
  vi ← inode r nid
  (if not (file_type_bits (Inode.mode vi) == 0o100000) then err (os 21) else ok nid))

unfoldable pub read : ErofsReader → ℕ → Bytes → ℕ → ℕ → IoResult (Bytes × ℕ)
read r ino w size offset = do
  nid ← to_nid r ino
  vi ← inode r nid
  write_file_data_to r nid vi offset size w

unfoldable pub readlink : ErofsReader → ℕ → IoResult Bytes
readlink r ino = do nid ← to_nid r ino; vi ← inode r nid; read_symlink r nid vi

unfoldable pub erofs_ft_to_dt : ℕ → ℕ
erofs_ft_to_dt ft =
    if ft == erofs_ft_reg_file
    then 8
    else if ft == erofs_ft_dir
    then 4
    else if ft == erofs_ft_chrdev
    then 2
    else if ft == erofs_ft_blkdev
    then 6
    else if ft == erofs_ft_fifo
    then 1
    else if ft == erofs_ft_sock
    then 12
    else if ft == erofs_ft_symlink
    then 10
    else 0

-- `statvfs64`, the fields that `statfs` fills; it leaves the others 0.
pub record StatVfs : Type 0 where
  pub f_bsize : ℕ
  pub f_frsize : ℕ
  pub f_blocks : ℕ
  pub f_files : ℕ
  pub f_namemax : ℕ

unfoldable pub statfs : ErofsReader → IoResult StatVfs
statfs r = do
  s ← sb r
  let block_size = block_size_of s.blkszbits
  ok (record {
    f_bsize = block_size;
    f_frsize = block_size;
    f_blocks = Superblock.blocks s;
    f_files = Superblock.inos s;
    f_namemax = 255;
  })
