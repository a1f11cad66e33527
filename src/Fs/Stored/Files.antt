-- ===== src/Fs/Stored/Files.antt =====
-- Reading a regular file that was written with `write_file_chunks` and `serialize_inode`.
use erofs_utils_rust.Base.{
  ℕ, ◌+◌, ◌-◌, ◌%◌, ◌^◌, ◌≤◌, ◌<◌, ◌≡◌, refl, sym, ap, ◌∙◌, arith, [], ◌++◌, List, Bytes, length,
  length-drop, take, drop, take-min, take-nil, drop_all, ap₂, some, leb, leb→le, false, min, add64,
  mul64, bit_and, Bool-cases, inl, inr, IoResult, ok, err, panic, map_ok, ◌>>=◌,
}
use native.Mathlib.Nat.{one-le-pow}
use mathlib.Core.Path.{subst}
use erofs_utils_rust.Base.Bits.{bit_and_low}
use erofs_utils_rust.Metadata.Superblock.{ErofsSuperblock}
use erofs_utils_rust.Metadata.Inode
use erofs_utils_rust.Metadata.Inode.{ErofsInode}
use erofs_utils_rust.Metadata.Xattr.{xattr_ibody_size}
use erofs_utils_rust.Build.BlobChunk.{ChunkIndex, BlobWriter, write_file_chunks}
use erofs_utils_rust.Build.BlobChunk.Store.{Stores, append-Stores, IsBlob}
use erofs_utils_rust.Build.BlobChunk.Files.{IsCut, write_file_chunks-IsFilled}
use erofs_utils_rust.Build.Inode.{InodeInfo, InodeData, regular_file, base_size, serialize_inode}
use erofs_utils_rust.Build.Inode.Image.{Kind, kind_of, tail_bytes, index_bytes, length-index_bytes}
use erofs_utils_rust.Build.Inode.RoundTrip.{IsInode, Reads, view_of, view_of-Reads, chunk_format-eq}
use erofs_utils_rust.Fs.Reader.{ErofsReader, sb, nid_to_offset, inode}
use erofs_utils_rust.Fs.Reader.Holds.{Holds, mmap_slice-Holds}
use erofs_utils_rust.Fs.Flat.{full_header_size}
use erofs_utils_rust.Fs.Chunks.{
  chunkbits, chunksize_of, chunk_indexes, nchunks_of, write_chunk_data_to,
}
use erofs_utils_rust.Fs.Chunks.Complete.{chunksize_pos}
use erofs_utils_rust.Fs.FileData.{read_file_data_sync, write_file_data_to}
use erofs_utils_rust.Fs.FileData.Equivalence.{served, write_file_data_to-read_file_data_sync}
use erofs_utils_rust.Fs.Stored.{IsStored, inode-stored, tail_at, IsStored-bytes}
use erofs_utils_rust.Fs.Stored.Chunks.{write_loop-stored, nchunks-Stores}

-- An inode of a chunk-based file whose table stands behind its header and xattrs.
module _ (r : ErofsReader) (nid c place : ℕ) (v : ErofsInode) (few : c < 32)
    (located : nid_to_offset r nid ≡ ok place) (s : ErofsSuperblock) (super : sb r ≡ ok s)
    (blocks : s.blkszbits ≡ 12) (layout : Inode.data_layout v ≡ 4) (format : Inode.i_u v ≡ 32 + c)
    (cis : List ChunkIndex) (blob content : Bytes) (long : Inode.size v ≡ length content)
    (fits : length content < 2 ^ 58)
    (held : Holds r.mmap (place + (Inode.header_size v + Inode.xattr_size v)) (index_bytes cis))
    (wide : length r.mmap < 2 ^ 64) (stores : Stores blob (2 ^ (12 + c)) content cis)
    (mapped : r.blob_mmap ≡ some blob) (small : length blob < 2 ^ 60) where
  chunkbits-stored : chunkbits r v ≡ ok (12 + c)
  unfolding chunkbits Inode.chunk_format
  chunkbits-stored =
      let low : bit_and (Inode.i_u v % 65536) 31 ≡ c =
        bit_and_low 5 (Inode.i_u v % 65536) ∙ omega (arith, format) in
      rw (super, blocks, low) refl

  chunksize_eq : chunksize_of (12 + c) ≡ 2 ^ (12 + c)
  unfolding chunksize_of
  chunksize_eq = let same : (12 + c) % 64 ≡ 12 + c = omega arith in ap (λ (n : ℕ). 2 ^ n) same

  cs_pos : 0 < 2 ^ (12 + c)
  cs_pos = subst (λ (n : ℕ). 0 < n) chunksize_eq (chunksize_pos (12 + c))

  count : nchunks_of (Inode.size v) (2 ^ (12 + c)) ≡ length cis
  count =
      ap (λ (n : ℕ). nchunks_of n (2 ^ (12 + c))) long
      ∙ nchunks-Stores blob (2 ^ (12 + c)) content cis cs_pos stores

  chunk_indexes-stored : chunk_indexes r nid v ≡ ok (index_bytes cis)
  unfolding chunk_indexes full_header_size
  chunk_indexes-stored =
      let at : add64 place (Inode.header_size v + Inode.xattr_size v)
          ≡ place + (Inode.header_size v + Inode.xattr_size v) =
        omega (arith, held.room) in
      let table : mul64 (length cis) 8 ≡ length (index_bytes cis) =
        omega (arith, length-index_bytes cis, held.room) in
      rw (layout, chunkbits-stored, chunksize_eq, count, located, at)
        (mmap_slice-Holds r (index_bytes cis) _ _ held wide table)

  write_chunk_data_to-stored :
      (offset size : ℕ) (w : Bytes)
      → offset + size ≤ length content
      → write_chunk_data_to r nid v offset size w ≡ ok (w ++ take size (drop offset content), size)
  unfolding write_chunk_data_to
  write_chunk_data_to-stored offset size w room =
      let whole : size - 0 ≡ size = omega arith in
      rw
        (
          chunkbits-stored,
          chunk_indexes-stored,
          chunksize_eq,
          long,
          write_loop-stored r blob (2 ^ (12 + c)) content cis cs_pos stores mapped small
              (omega arith) size size offset w (omega arith) room,
        )
        (ap (λ (n : ℕ). ok (w ++ take size (drop offset content), n)) whole)

  lt_of : (a b : ℕ) → leb b a ≡ false → a < b
  lt_of a b h = ground arith

  write_file_data_to-stored :
      (offset size : ℕ)
      → write_file_data_to r nid v offset size []
        ≡ ok (take size (drop offset content), min size (length content - offset))
  unfolding write_file_data_to
  write_file_data_to-stored offset size = elim (Bool-cases (leb (length content) offset)) [
    | inl behind ↦
        rw (long, behind)
          (ap₂ (λ (b : Bytes) (n : ℕ). ok (b, n))
            (sym (
              ap (take size) (drop_all offset content (leb→le (length content) offset behind))
              ∙ take-nil size))
            (omega (arith, leb→le (length content) offset behind)))
    | inr inside ↦
        let cut : min size (length content - offset) ≡ min (length (drop offset content)) size =
          omega (arith, length-drop offset content) in
        rw (long, inside, layout)
          (write_chunk_data_to-stored offset (min size (length content - offset)) []
              (omega (arith, lt_of offset (length content) inside))
            ∙ ap (λ (b : Bytes). ok (b, min size (length content - offset)))
                (ap (λ (n : ℕ). take n (drop offset content)) cut
                  ∙ take-min size (drop offset content)))
  ]

  pub read_file_data_sync-stored :
      (offset size : ℕ)
      → read_file_data_sync r nid v offset size ≡ ok (take size (drop offset content))
  read_file_data_sync-stored offset size = ok_back _ _ (
      sym (write_file_data_to-read_file_data_sync r nid v offset size [])
      ∙ write_file_data_to-stored offset size)
    where
      ok_back :
          (x : IoResult Bytes) (b : Bytes) {n : ℕ}
          → map_ok (served v offset size []) x ≡ ok (b, n)
          → x ≡ ok b
      ok_back (ok a) b h = cc
      ok_back (err k) b h = cc
      ok_back panic b h = cc

-- The chunks of the indexes that were returned stand in the blob.
written-Stores :
    (hash : Bytes → Bytes) (IsPiece : Bytes → Type 0) (w w' : BlobWriter) (content : Bytes)
    (cis : List ChunkIndex) (cs : ℕ) (later : Bytes)
    → 0 < cs
    → ((x y : Bytes) → IsPiece x → IsPiece y → hash x ≡ hash y → x ≡ y)
    → IsBlob hash IsPiece w
    → w.chunksize ≡ cs
    → IsCut hash IsPiece cs content
    → w.next_blkaddr + length content < 2 ^ 58
    → write_file_chunks hash w (ok content) (length content) ≡ ok (w', cis)
    → Stores (w'.file ++ later) cs content cis
written-Stores hash IsPiece w w' content cis cs later wide apart blob sized cut room wrote =
    let (w₁, cis₁, ran, filled) =
      write_file_chunks-IsFilled hash IsPiece cs wide apart w content sized blob cut
        (omega arith) in
    let (same, same_indexes) = same_pair (sym ran ∙ wrote) in
    append-Stores w'.file later cs content cis (
      subst (λ (i : List ChunkIndex). Stores w'.file cs content i) same_indexes
        (subst (λ (x : BlobWriter). Stores x.file cs content cis₁) same
          (subst (λ (n : ℕ). Stores w₁.file n content cis₁) sized filled.stored)))
  where
    same_pair :
        {x y : BlobWriter} {i j : List ChunkIndex}
        → ◌≡◌ {A = IoResult (BlobWriter × List ChunkIndex)} (ok (x, i)) (ok (y, j))
        → (x ≡ y) × (i ≡ j)
    same_pair h = (cc, cc)

-- If the hash tells all pieces of files apart, the table of the writer agrees with its blob of less
-- than 2^58 blocks, chunks have 2^(12 + c) bytes with c below 32, and `write_file_chunks` returned
-- the chunk indexes of a regular file; and if an image with blocks of 4096 bytes holds the file's
-- inode, whose values fit and whose size is that of the contents, at its nid as `serialize_inode`
-- wrote it, with the blob of less than 2^60 bytes as it is after that call or with more behind it:
-- then reading the inode and `read_file_data_sync` at any offset and size return the contents from
-- that offset on, as many bytes as asked for or as there are.
pub read_file_data_sync-write_file_chunks :
    (hash : Bytes → Bytes) (IsPiece : Bytes → Type 0) (w w' : BlobWriter) (content : Bytes)
    (cis : List ChunkIndex) (r : ErofsReader) (s : ErofsSuperblock) (nid c epoch : ℕ)
    (info : InodeInfo) (b later : Bytes) (offset size : ℕ)
    → ((x y : Bytes) → IsPiece x → IsPiece y → hash x ≡ hash y → x ≡ y)
    → IsBlob hash IsPiece w
    → c < 32
    → w.chunksize ≡ 2 ^ (12 + c)
    → IsCut hash IsPiece (2 ^ (12 + c)) content
    → w.next_blkaddr + length content < 2 ^ 58
    → write_file_chunks hash w (ok content) (length content) ≡ ok (w', cis)
    → IsInode info
    → info.data_ ≡ regular_file cis
    → info.size ≡ length content
    → serialize_inode info epoch (12 + c) ≡ ok b
    → IsStored r nid b
    → sb r ≡ ok s
    → s.blkszbits ≡ 12
    → r.blob_mmap ≡ some (w'.file ++ later)
    → length (w'.file ++ later) < 2 ^ 60
    → (inode r nid >>= λ v. read_file_data_sync r nid v offset size)
      ≡ ok (take size (drop offset content))
read_file_data_sync-write_file_chunks hash IsPiece w w' content cis r s nid c epoch info b later
      offset size apart blob few sized cut room wrote valid e long made stored super blocks mapped
      small =
    let there = IsStored-bytes r nid c epoch info b valid made stored in
    ap (λ (m : IoResult ErofsInode). m >>= λ v. read_file_data_sync r nid v offset size)
      (inode-stored r nid c epoch info valid few there)
    ∙ read_file_data_sync-stored r nid c there.offset _ few there.located s super blocks
        (reads.data_layout ∙ ap (λ (d : InodeData). Kind.datalayout (kind_of info (12 + c) d)) e)
        (reads.i_u
          ∙ ap (λ (d : InodeData). Kind.i_u (kind_of info (12 + c) d)) e
          ∙ chunk_format-eq c few)
        cis (w'.file ++ later) content
        (reads.size ∙ ap (λ (d : InodeData). Kind.size (kind_of info (12 + c) d)) e ∙ long)
        (omega arith)
        (subst (λ (n : ℕ). Holds r.mmap (there.offset + n) (index_bytes cis))
          (omega (arith, reads.header_size, reads.xattr_size))
          (subst
            (λ (d : InodeData).
              Holds r.mmap (there.offset + (base_size info + xattr_ibody_size info.xattrs))
                (tail_bytes d))
            e (tail_at r nid c epoch info valid few there)))
        there.small
        (written-Stores hash IsPiece w w' content cis (2 ^ (12 + c)) later
          (one-le-pow (12 + c) 2 (omega arith)) apart blob sized cut room wrote)
        mapped small offset size
  where
    reads : Reads (view_of info epoch (12 + c)) info (kind_of info (12 + c) info.data_)
    reads = view_of-Reads c few info valid epoch
