-- ===== src/Build/Inode.antt =====
-- src/build/inode.rs: the inodes in memory, their size and their serialization.
pub mod XattrBody
pub mod Image
pub mod RoundTrip
use erofs_utils_rust.Base.{
  ℕ, ◌+◌, ◌*◌, ◌^◌, [], ◌∷◌, List, Bytes, zeros, length, Bool, true, false, ltb, ◌==◌,
  if◌then◌else◌, u8, u16, u32, sub64, shr, bit_and, bit_or, copy_at, IoResult, ok, ◌>>=◌,
}
use erofs_utils_rust.Metadata.Consts.{
  erofs_block_size, erofs_blkszbits, erofs_inode_compact_size, erofs_inode_extended_size,
  erofs_chunk_index_size, erofs_inode_chunk_based, erofs_inode_flat_plain, erofs_inode_flat_inline,
  erofs_chunk_format_indexes, erofs_xattr_ibody_header_size, erofs_xattr_entry_header_size,
  erofs_ft_reg_file, erofs_ft_dir, erofs_ft_chrdev, erofs_ft_blkdev, erofs_ft_fifo, erofs_ft_sock,
  erofs_ft_symlink,
}
use erofs_utils_rust.Metadata.LeBytes.{set_u16}
use erofs_utils_rust.Metadata.Chunk
use erofs_utils_rust.Metadata.Inode.{compact_i_format, extended_i_format}
use erofs_utils_rust.Metadata.InodeCompact
use erofs_utils_rust.Metadata.InodeExtended
use erofs_utils_rust.Metadata.Xattr.{Xattr, xattr_ibody_size, entry_size, xattr_icount}
use erofs_utils_rust.Build.BlobChunk.{ChunkIndex}

pub record DirEntry : Type 0 where
  pub name : Bytes
  pub file_type : ℕ
  pub inode_idx : ℕ

pub data InodeData : Type 0 where
  regular_file : List ChunkIndex → InodeData
  directory : (children : List DirEntry) (startblk dir_data_size parent_nid : ℕ) → InodeData
  symlink : Bytes → InodeData
  special_dev : ℕ → InodeData
  special_no_data : InodeData

-- `data_` is the field `data`.
pub record InodeInfo : Type 0 where
  pub mode : ℕ
  pub uid : ℕ
  pub gid : ℕ
  pub size : ℕ
  pub mtime : ℕ
  pub mtime_nsec : ℕ
  pub nlink : ℕ
  pub ino : ℕ
  pub nid : ℕ
  pub meta_offset : ℕ
  pub is_extended : Bool
  pub data_ : InodeData
  pub xattrs : List Xattr

unfoldable pub mode_to_file_type : ℕ → ℕ
mode_to_file_type mode =
    let kind = bit_and mode 0o170000 in
    if kind == 0o100000
    then erofs_ft_reg_file
    else if kind == 0o040000
    then erofs_ft_dir
    else if kind == 0o020000
    then erofs_ft_chrdev
    else if kind == 0o060000
    then erofs_ft_blkdev
    else if kind == 0o010000
    then erofs_ft_fifo
    else if kind == 0o140000
    then erofs_ft_sock
    else if kind == 0o120000
    then erofs_ft_symlink
    else 0

-- `base`: the size of the header.
unfoldable pub base_size : InodeInfo → ℕ
base_size inode = if inode.is_extended then erofs_inode_extended_size else erofs_inode_compact_size

-- What follows the xattrs: the chunk indexes, or the target of a symbolic link.
unfoldable pub tail_size : InodeData → ℕ
tail_size (regular_file chunk_indexes) = length chunk_indexes * erofs_chunk_index_size
tail_size (directory children startblk dir_data_size parent_nid) = 0
tail_size (symlink target) = length target
tail_size (special_dev rdev) = 0
tail_size special_no_data = 0

unfoldable pub inode_meta_size : InodeInfo → ℕ
unfolding base_size tail_size
inode_meta_size inode = base_size inode + xattr_ibody_size inode.xattrs + tail_size inode.data_

-- `chunkbits - blkszbits` wraps at 32 bits.
unfoldable pub chunk_format : ℕ → ℕ → ℕ
chunk_format chunkbits blkszbits =
    bit_or erofs_chunk_format_indexes (u16 (sub64 chunkbits blkszbits))

-- One entry of `serialize_xattrs`, at `pos`.
unfoldable pub write_xattr : Bytes → ℕ → Xattr → IoResult Bytes
write_xattr buf pos (index, suffix, value) = do
  with_len ← copy_at buf pos (u8 (length suffix) ∷ [])
  with_index ← copy_at with_len (pos + 1) (index ∷ [])
  with_size ← copy_at with_index (pos + 2) (set_u16 (u16 (length value)))
  let name_start = pos + erofs_xattr_entry_header_size
  with_suffix ← copy_at with_size name_start suffix
  copy_at with_suffix (name_start + length suffix) value

-- The loop of `serialize_xattrs`, at `pos`.
unfoldable pub write_xattrs : Bytes → ℕ → List Xattr → IoResult Bytes
write_xattrs buf pos [] = ok buf
write_xattrs buf pos ((index, suffix, value) ∷ xattrs) = do
  written ← write_xattr buf pos (index, suffix, value)
  write_xattrs written (pos + entry_size suffix value) xattrs

-- The header of 12 bytes stays zero.
unfoldable pub serialize_xattrs : Bytes → ℕ → List Xattr → IoResult Bytes
serialize_xattrs buf offset [] = ok buf
serialize_xattrs buf offset (x ∷ xattrs) =
    write_xattrs buf (offset + erofs_xattr_ibody_header_size) (x ∷ xattrs)

-- The loop over the chunk indexes, at the index `i`.
unfoldable pub write_chunk_indexes : Bytes → ℕ → ℕ → List ChunkIndex → IoResult Bytes
write_chunk_indexes buf extent_offset i [] = ok buf
write_chunk_indexes buf extent_offset i (ci ∷ chunk_indexes) = do
  written ←
      copy_at buf (extent_offset + i * erofs_chunk_index_size)
        (Chunk.as_bytes (Chunk.new ci.blkaddr ci.device_id))
  write_chunk_indexes written extent_offset (i + 1) chunk_indexes

-- The two branches on `is_extended`, which each kind of file has with its own data layout, link
-- flag, `nb`, size and union.
unfoldable pub write_header : Bytes → InodeInfo → ℕ → ℕ → Bool → ℕ → ℕ → ℕ → IoResult Bytes
write_header buf inode epoch datalayout nlink_1 nb size i_u =
    if inode.is_extended
    then (do
      let i_format = extended_i_format datalayout
      let hdr =
          InodeExtended.new i_format inode.mode nb size i_u inode.ino inode.uid inode.gid
            inode.mtime inode.mtime_nsec inode.nlink
      with_header ← copy_at buf 0 (InodeExtended.as_bytes hdr)
      serialize_xattrs with_header erofs_inode_extended_size inode.xattrs)
    else (do
      let i_format = compact_i_format datalayout nlink_1
      let i_mtime = u32 (sub64 inode.mtime epoch)
      let hdr =
          InodeCompact.new i_format inode.mode nb (u32 size) i_mtime i_u inode.ino (u16 inode.uid)
            (u16 inode.gid)
      with_header ← copy_at buf 0 (InodeCompact.as_bytes hdr)
      serialize_xattrs with_header erofs_inode_compact_size inode.xattrs)

-- The `match` on the kind of file.
unfoldable pub write_inode : Bytes → InodeInfo → ℕ → ℕ → InodeData → IoResult Bytes
write_inode buf inode epoch chunkbits (regular_file chunk_indexes) = do
  let cf = chunk_format chunkbits erofs_blkszbits
  with_header ← write_header buf inode epoch erofs_inode_chunk_based true 0 inode.size cf
  write_chunk_indexes with_header (base_size inode + xattr_ibody_size inode.xattrs) 0 chunk_indexes
write_inode buf inode epoch chunkbits (directory children startblk dir_data_size parent_nid) =
    write_header buf inode epoch erofs_inode_flat_plain false (u16 (shr startblk 32)) inode.size
      (u32 startblk)
write_inode buf inode epoch chunkbits (symlink target) = do
  with_header ← write_header buf inode epoch erofs_inode_flat_inline true 0 inode.size 0
  copy_at with_header (base_size inode + xattr_ibody_size inode.xattrs) target
write_inode buf inode epoch chunkbits (special_dev rdev) =
    write_header buf inode epoch erofs_inode_flat_plain true 0 0 rdev
write_inode buf inode epoch chunkbits special_no_data =
    write_header buf inode epoch erofs_inode_flat_plain true 0 0 0

-- `i_xattr_icount` goes to the bytes 2 and 3 of either header.
unfoldable pub serialize_inode : InodeInfo → ℕ → ℕ → IoResult Bytes
serialize_inode inode epoch chunkbits = do
  buf ← write_inode (zeros (inode_meta_size inode)) inode epoch chunkbits inode.data_
  let i_xattr_icount = xattr_icount (xattr_ibody_size inode.xattrs)
  (if ltb 0 i_xattr_icount then copy_at buf 2 (set_u16 i_xattr_icount) else ok buf)
