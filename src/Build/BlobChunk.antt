-- ===== src/Build/BlobChunk.antt =====
-- src/build/blobchunk.rs: the blob device with the chunks of the regular files. The hash of the
-- `blake3` crate is a parameter. The blob file is the bytes that were written to it.
pub mod Store
pub mod Files
use erofs_utils_rust.Base.{
  ℕ, zero, suc, ◌+◌, ◌-◌, ◌*◌, ◌/◌, [], ◌∷◌, ◌++◌, List, Bytes, zeros, length, take, drop, Option,
  none, some, bytes_eq, ltb, ◌==◌, if◌then◌else◌, div_ceil, min, add64, IoResult, ok, err,
  unexpected_eof, ◌>>=◌,
}
use erofs_utils_rust.Metadata.Consts.{erofs_block_size}

pub record BlobChunk : Type 0 where
  pub blkaddr : ℕ

pub record ChunkIndex : Type 0 where
  pub blkaddr : ℕ
  pub device_id : ℕ

pub record BlobWriter : Type 0 where
  pub file : Bytes
  pub chunksize : ℕ
  pub next_blkaddr : ℕ
  pub dedup : List (Bytes × BlobChunk)
  pub saved_by_dedup : ℕ

-- `new`, once the file is created.
unfoldable pub new : ℕ → BlobWriter
new chunksize = record {
  file = [];
  chunksize = chunksize;
  next_blkaddr = 0;
  dedup = [];
  saved_by_dedup = 0;
}

unfoldable pub total_blocks : BlobWriter → ℕ
total_blocks w = w.next_blkaddr

-- `self.dedup.get(&hash)`.
unfoldable pub get : Bytes → List (Bytes × BlobChunk) → Option BlobChunk
unfolding bytes_eq
get hash [] = none
get hash ((h, chunk) ∷ dedup) =
    let rest = get hash dedup in if bytes_eq h hash then some chunk else rest

module _ (hash : Bytes → Bytes) where
  -- The body of the loop once a chunk is read: it returns the writer and the chunk's address.
  unfoldable pub write_chunk : BlobWriter → Bytes → BlobWriter × ℕ
  write_chunk w piece =
      let to_read = length piece in
      let write_len = div_ceil to_read erofs_block_size * erofs_block_size in
      let nblocks = write_len / erofs_block_size in
      elim (get (hash piece) w.dedup) [
        | some existing ↦
            (record w { saved_by_dedup = add64 w.saved_by_dedup write_len }, existing.blkaddr)
        | none ↦
            let addr = w.next_blkaddr in
            let written = w.file ++ piece in
            (
              record w {
                file =
                    (if ltb to_read write_len
                      then written ++ zeros (write_len - to_read)
                      else written);
                next_blkaddr = add64 w.next_blkaddr nblocks;
                dedup = (hash piece, record { blkaddr = addr }) ∷ w.dedup;
              },
              addr,
            )
      ]

  -- The loop at the chunk `i`, with the rounds that are left and what is not read of the file.
  unfoldable pub write_chunks :
      ℕ → BlobWriter → Bytes → ℕ → ℕ → IoResult (BlobWriter × List ChunkIndex)
  write_chunks zero w unread file_size i = ok (w, [])
  write_chunks (suc rounds) w unread file_size i =
      let remaining = file_size - i * w.chunksize in
      let to_read = min remaining w.chunksize in
      if ltb (length unread) to_read then err unexpected_eof else (do
        let (written, blkaddr) = write_chunk w (take to_read unread)
        (w', indexes) ← write_chunks rounds written (drop to_read unread) file_size (i + 1)
        ok (w', record { blkaddr = blkaddr; device_id = 1 } ∷ indexes))

  -- `opened` is what opening the file gives: its contents, or the error.
  unfoldable pub write_file_chunks :
      BlobWriter → IoResult Bytes → ℕ → IoResult (BlobWriter × List ChunkIndex)
  write_file_chunks w opened file_size =
      if file_size == 0
      then ok (w, [])
      else (do unread ← opened; write_chunks (div_ceil file_size w.chunksize) w unread file_size 0)
