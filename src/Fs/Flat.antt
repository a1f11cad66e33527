-- ===== src/Fs/Flat.antt =====
-- src/fs/meta.rs `read_flat_data`, `read_flat_data_vec`, `read_symlink`, and src/fs/data.rs
-- `write_flat_data_to`. A writer is the bytes that were written; it takes all that it is given.
pub mod Equivalence
use erofs_utils_rust.Base.{
  ℕ, ◌+◌, ◌*◌, ◌-◌, ◌%◌, ◌&&◌, ◌++◌, Bytes, Bool, ltb, leb, ◌==◌, if◌then◌else◌, add64, mul64,
  sub64, IoResult, ok, err, invalid_data, ◌>>=◌,
}
use erofs_utils_rust.Metadata.Consts.{
  erofs_block_size, erofs_inode_flat_plain, erofs_inode_flat_inline,
}
use erofs_utils_rust.Metadata.Inode
use erofs_utils_rust.Metadata.Inode.{ErofsInode}
use erofs_utils_rust.Fs.Reader.{ErofsReader, mmap_slice, nid_to_offset}

-- The bytes of the file that stand in whole blocks: `file_size - tail_size`.
unfoldable pub blocks_size_of : ℕ → ℕ
blocks_size_of file_size =
    let tail_size =
      if file_size % erofs_block_size == 0 && ltb 0 file_size
      then 0
      else file_size % erofs_block_size in
    file_size - tail_size

-- `inode.header_size() + inode.xattr_size()`.
unfoldable pub full_header_size : ErofsInode → ℕ
full_header_size inode = Inode.header_size inode + Inode.xattr_size inode

-- `mmap_slice(startblk * EROFS_BLOCK_SIZE + offset, size)`.
unfoldable pub block_region : ErofsReader → ErofsInode → ℕ → ℕ → IoResult Bytes
block_region r inode offset size =
    mmap_slice r (add64 (mul64 (Inode.startblk inode) erofs_block_size) offset) size

-- `mmap_slice(inode_offset + header_size + inline_offset, size)`.
unfoldable pub inline_region : ErofsReader → ℕ → ErofsInode → ℕ → ℕ → IoResult Bytes
inline_region r nid inode inline_offset size = do
  inode_offset ← nid_to_offset r nid
  mmap_slice r (add64 (add64 inode_offset (full_header_size inode)) inline_offset) size

-- The arm of `EROFS_INODE_FLAT_INLINE`.
unfoldable pub read_inline_layout : ErofsReader → ℕ → ErofsInode → ℕ → ℕ → IoResult Bytes
read_inline_layout r nid inode offset size =
    let blocks_size = blocks_size_of (Inode.size inode) in
    if blocks_size == 0
    then inline_region r nid inode offset size
    else if ltb offset blocks_size && leb (add64 offset size) blocks_size
    then block_region r inode offset size
    else if leb blocks_size offset
    then inline_region r nid inode (offset - blocks_size) size
    else err invalid_data

unfoldable pub read_flat_data : ErofsReader → ℕ → ErofsInode → ℕ → ℕ → IoResult Bytes
unfolding read_inline_layout
read_flat_data r nid inode offset size =
    let layout = Inode.data_layout inode in
    if layout == erofs_inode_flat_plain
    then block_region r inode offset size
    else if layout == erofs_inode_flat_inline
    then read_inline_layout r nid inode offset size
    else err invalid_data

-- The read spans the blocks and the inline tail.
unfoldable pub spans : ErofsInode → ℕ → ℕ → Bool
spans inode offset size =
    let blocks_size = blocks_size_of (Inode.size inode) in
    Inode.data_layout inode == erofs_inode_flat_inline
    && ltb 0 blocks_size
    && ltb offset blocks_size
    && ltb blocks_size (add64 offset size)

unfoldable pub read_flat_data_vec : ErofsReader → ℕ → ErofsInode → ℕ → ℕ → IoResult Bytes
unfolding spans
read_flat_data_vec r nid inode offset size =
    if spans inode offset size
    then (do
      let block_read_size = blocks_size_of (Inode.size inode) - offset
      block_data ← block_region r inode offset block_read_size
      inline_data ← inline_region r nid inode 0 (sub64 size block_read_size)
      ok (block_data ++ inline_data))
    else read_flat_data r nid inode offset size

-- Returns the writer and the count.
unfoldable pub write_flat_data_to :
    ErofsReader → ℕ → ErofsInode → ℕ → ℕ → Bytes → IoResult (Bytes × ℕ)
unfolding spans
write_flat_data_to r nid inode offset size w =
    if spans inode offset size
    then (do
      let block_read_size = blocks_size_of (Inode.size inode) - offset
      block_data ← block_region r inode offset block_read_size
      inline_data ← inline_region r nid inode 0 (sub64 size block_read_size)
      ok ((w ++ block_data) ++ inline_data, size))
    else (do data' ← read_flat_data r nid inode offset size; ok (w ++ data', size))

unfoldable pub read_symlink : ErofsReader → ℕ → ErofsInode → IoResult Bytes
read_symlink r nid inode = read_flat_data_vec r nid inode 0 (Inode.size inode)
