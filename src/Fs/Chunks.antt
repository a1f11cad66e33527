-- ===== src/Fs/Chunks.antt =====
-- src/fs/data.rs: reading a chunk-based file, into a vector and to a writer. A writer is the bytes
-- that were written; it takes all that it is given.
pub mod Equivalence
pub mod Complete
pub mod NoPanic
use erofs_utils_rust.Base.{
  ℕ, zero, suc, ◌+◌, ◌*◌, ◌-◌, ◌/◌, ◌%◌, ◌^◌, ◌++◌, Bytes, zeros, length, ltb, leb, ◌==◌, not,
  if◌then◌else◌, min, add64, mul64, bit_and, slice_from, copy_at, IoResult, ok, err, panic,
  invalid_data, ◌>>=◌,
}
use erofs_utils_rust.Metadata.Consts.{
  erofs_block_size, erofs_inode_chunk_based, erofs_chunk_index_size,
}
use erofs_utils_rust.Metadata.Superblock
use erofs_utils_rust.Metadata.Chunk
use erofs_utils_rust.Metadata.Chunk.{ErofsChunkIndex}
use erofs_utils_rust.Metadata.Inode
use erofs_utils_rust.Metadata.Inode.{ErofsInode}
use erofs_utils_rust.Fs.Reader.{ErofsReader, sb, mmap_slice, blob_mmap_slice, nid_to_offset}
use erofs_utils_rust.Fs.Flat.{full_header_size}

unfoldable pub chunkbits : ErofsReader → ErofsInode → IoResult ℕ
chunkbits r inode = do s ← sb r; ok (s.blkszbits + bit_and (Inode.chunk_format inode) 0x1F)

-- `1u64 << chunkbits`: a release build masks the shift by 63.
unfoldable pub chunksize_of : ℕ → ℕ
chunksize_of bits = 2 ^ (bits % 64)

-- `size.div_ceil(chunksize)`.
unfoldable pub nchunks_of : ℕ → ℕ → ℕ
nchunks_of size chunksize = size / chunksize + (if ltb 0 (size % chunksize) then 1 else 0)

unfoldable pub chunk_indexes : ErofsReader → ℕ → ErofsInode → IoResult Bytes
chunk_indexes r nid inode =
    if not (Inode.data_layout inode == erofs_inode_chunk_based) then err invalid_data else (do
      bits ← chunkbits r inode
      let nchunks = nchunks_of (Inode.size inode) (chunksize_of bits)
      inode_offset ← nid_to_offset r nid
      mmap_slice r (add64 inode_offset (full_header_size inode))
          (mul64 nchunks erofs_chunk_index_size))

unfoldable pub chunk_index_at : Bytes → ℕ → IoResult ErofsChunkIndex
chunk_index_at ci_data i = do
  tail ← slice_from ci_data (mul64 i erofs_chunk_index_size)
  Chunk.cast_ref tail

-- `blkaddr * EROFS_BLOCK_SIZE + chunk_off`.
unfoldable pub data_offset : ErofsChunkIndex → ℕ → ℕ
data_offset ci chunk_off = add64 (mul64 (Chunk.blkaddr ci) erofs_block_size) chunk_off

-- The slice that backs a piece of a chunk with an address: in the blob, or in the image.
unfoldable pub chunk_slice : ErofsReader → ErofsChunkIndex → ℕ → ℕ → IoResult Bytes
unfolding data_offset
chunk_slice r ci chunk_off to_read =
    if ltb 0 (Chunk.device_id ci)
    then blob_mmap_slice r (data_offset ci chunk_off) to_read
    else mmap_slice r (data_offset ci chunk_off) to_read

-- The loop over a hole writes zeros in pieces of 4096 bytes at most.
unfoldable pub write_zeros : ℕ → ℕ → Bytes → Bytes
write_zeros zero left w = w
write_zeros (suc fuel) left w =
    let n = min left 4096 in
    let rest = write_zeros fuel (left - n) (w ++ zeros n) in if ltb 0 left then rest else w

module _ (r : ErofsReader) (ci_data : Bytes) (chunksize nchunks : ℕ) where
  -- The `while remaining > 0` of `read_chunk_data_sync` and of `read_chunk_data_async`. A round
  -- reads a byte at least.
  unfoldable pub read_loop : ℕ → ℕ → ℕ → ℕ → Bytes → IoResult Bytes
  read_loop zero remaining file_pos buf_pos result = if ltb 0 remaining then panic else ok result
  read_loop (suc fuel) remaining file_pos buf_pos result =
      let chunk_idx = file_pos / chunksize in
      let chunk_off = file_pos % chunksize in
      let to_read = min remaining (chunksize - chunk_off) in
      let next = λ (filled : Bytes).
        read_loop fuel (remaining - to_read) (file_pos + to_read) (buf_pos + to_read) filled in
      if ltb 0 remaining
      then (if leb nchunks chunk_idx then ok result else (do
        ci ← chunk_index_at ci_data chunk_idx
        (if Chunk.blkaddr ci == 2 ^ 64 - 1 then next result else (do
          piece ← chunk_slice r ci chunk_off to_read
          filled ← copy_at result buf_pos piece
          next filled))))
      else ok result

  -- The loop of `write_chunk_data_to`: the writer, and what remains.
  unfoldable pub write_loop : ℕ → ℕ → ℕ → Bytes → IoResult (Bytes × ℕ)
  write_loop zero remaining file_pos w = if ltb 0 remaining then panic else ok (w, remaining)
  write_loop (suc fuel) remaining file_pos w =
      let chunk_idx = file_pos / chunksize in
      let chunk_off = file_pos % chunksize in
      let to_read = min remaining (chunksize - chunk_off) in
      let next =
        λ (written : Bytes). write_loop fuel (remaining - to_read) (file_pos + to_read) written in
      if ltb 0 remaining
      then (if leb nchunks chunk_idx then ok (w, remaining) else (do
        ci ← chunk_index_at ci_data chunk_idx
        (if Chunk.blkaddr ci == 2 ^ 64 - 1
            then next (write_zeros to_read to_read w)
            else (do piece ← chunk_slice r ci chunk_off to_read; next (w ++ piece)))))
      else ok (w, remaining)

-- `read_chunk_data_sync`; `read_chunk_data_async` has the same body.
unfoldable pub read_chunk_data_sync : ErofsReader → ℕ → ErofsInode → ℕ → ℕ → IoResult Bytes
read_chunk_data_sync r nid inode offset size = do
  bits ← chunkbits r inode
  ci_data ← chunk_indexes r nid inode
  let chunksize = chunksize_of bits
  read_loop r ci_data chunksize (nchunks_of (Inode.size inode) chunksize) size size offset 0
      (zeros size)

unfoldable pub write_chunk_data_to :
    ErofsReader → ℕ → ErofsInode → ℕ → ℕ → Bytes → IoResult (Bytes × ℕ)
write_chunk_data_to r nid inode offset size w = do
  bits ← chunkbits r inode
  ci_data ← chunk_indexes r nid inode
  let chunksize = chunksize_of bits
  (written, remaining) ←
      write_loop r ci_data chunksize (nchunks_of (Inode.size inode) chunksize) size size offset w
  ok (written, size - remaining)
