-- ===== src/Fs/Reader.antt =====
-- src/fs/mod.rs: `ErofsReader`, the mapped image and blob, and its checked slices.
pub mod Open
pub mod Holds
use erofs_utils_rust.Base.{
  ℕ, ◌+◌, ◌*◌, ◌^◌, Bytes, Bool, Option, none, some, length, ltb, leb, ◌==◌, if◌then◌else◌, slice,
  slice_from, add64, mul64, IoResult, ok, err, invalid_input, invalid_data, unexpected_eof,
  not_found, ◌>>=◌, not,
}
use erofs_utils_rust.Metadata.Consts.{
  erofs_super_offset, erofs_super_magic_v1, erofs_sb_base_size, erofs_block_size, erofs_slotsize,
  erofs_inode_extended_size,
}
use erofs_utils_rust.Metadata.Superblock
use erofs_utils_rust.Metadata.Superblock.{ErofsSuperblock}
use erofs_utils_rust.Metadata.Inode
use erofs_utils_rust.Metadata.Inode.{ErofsInode}

pub record ErofsReader : Type 0 where
  pub mmap : Bytes
  pub blob_mmap : Option Bytes
  pub sb_offset : ℕ

unfoldable pub superblock_from : Bytes → ℕ → IoResult ErofsSuperblock
superblock_from mmap sb_offset =
    if ltb (length mmap) (sb_offset + erofs_sb_base_size)
    then err unexpected_eof
    else (do tail ← slice_from mmap sb_offset; Superblock.cast_ref tail)

-- `open` on the contents of the two files, once the system has mapped them.
unfoldable pub open_reader : Bytes → Option Bytes → IoResult ErofsReader
unfolding superblock_from
open_reader mmap blob_mmap = do
  sb ← superblock_from mmap erofs_super_offset
  (if not (Superblock.magic sb == erofs_super_magic_v1)
      then err invalid_data
      else ok (record { mmap = mmap; blob_mmap = blob_mmap; sb_offset = erofs_super_offset }))

-- The superblock; the cast's assertion fails where the image does not hold one.
unfoldable pub sb : ErofsReader → IoResult ErofsSuperblock
sb r = do tail ← slice_from r.mmap r.sb_offset; Superblock.cast_ref tail

-- A slice of a mapping, behind the checks of `mmap_slice`.
unfoldable pub checked_slice : Bytes → ℕ → ℕ → IoResult Bytes
checked_slice mmap offset len =
    if leb (2 ^ 64) (offset + len)
    then err invalid_input
    else if ltb (length mmap) (offset + len)
    then err unexpected_eof
    else slice mmap offset (offset + len)

unfoldable pub mmap_slice : ErofsReader → ℕ → ℕ → IoResult Bytes
unfolding checked_slice
mmap_slice r offset len = checked_slice r.mmap offset len

-- The match on `self.blob_mmap`.
unfoldable pub blob_slice : Option Bytes → ℕ → ℕ → IoResult Bytes
blob_slice none offset len = err not_found
blob_slice (some blob) offset len = checked_slice blob offset len

unfoldable pub blob_mmap_slice : ErofsReader → ℕ → ℕ → IoResult Bytes
unfolding checked_slice blob_slice
blob_mmap_slice r offset len = blob_slice r.blob_mmap offset len

unfoldable pub nid_to_offset : ErofsReader → ℕ → IoResult ℕ
nid_to_offset r nid = do
  s ← sb r
  ok (add64 (mul64 (Superblock.meta_blkaddr s) erofs_block_size) (mul64 nid erofs_slotsize))

-- src/fs/meta.rs `inode`.
unfoldable pub inode : ErofsReader → ℕ → IoResult ErofsInode
inode r nid = do
  offset ← nid_to_offset r nid
  bytes ← mmap_slice r offset erofs_inode_extended_size
  Inode.cast bytes
