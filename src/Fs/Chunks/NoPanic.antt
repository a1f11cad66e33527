-- ===== src/Fs/Chunks/NoPanic.antt =====
-- The chunk loops stay inside the table of indexes, and have rounds enough: no panic, whatever the
-- image holds.
use erofs_utils_rust.Base.{
  ℕ, zero, suc, ◌+◌, ◌-◌, ◌*◌, ◌/◌, ◌%◌, ◌^◌, ◌≤◌, ◌<◌, ◌≡◌, ◌≢◌, refl, arith, ◌++◌, Bytes, length,
  length-drop, drop, Bool-cases, inl, inr, if◌then◌else◌, ltb, leb, ◌==◌, min, add64, bit_and,
  ErrorKind, mul64, false, true, slice_from_lem, IoResult, ok, err, panic, ◌>>=◌, ltb→lt, le→leb,
  Option, none, some,
}
use native.Mathlib.Nat.{div-add-mod, div-le_self}
use erofs_utils_rust.Metadata.LeBytes.{field}
use erofs_utils_rust.Metadata.Chunk
use erofs_utils_rust.Metadata.Chunk.{ErofsChunkIndex}
use erofs_utils_rust.Metadata.Inode
use erofs_utils_rust.Metadata.Inode.{ErofsInode}
use erofs_utils_rust.Metadata.Superblock
use erofs_utils_rust.Metadata.Superblock.{ErofsSuperblock}
use erofs_utils_rust.Fs.Reader.{
  ErofsReader, sb, mmap_slice, blob_slice, blob_mmap_slice, nid_to_offset,
}
use erofs_utils_rust.Fs.Reader.Open.{checked_slice-ne-panic, length-checked_slice}
use erofs_utils_rust.Fs.Chunks.Complete.{chunksize_pos}
use erofs_utils_rust.Fs.Chunks.{
  chunk_slice, chunk_index_at, chunk_indexes, chunkbits, chunksize_of, nchunks_of, write_zeros,
  write_loop, write_chunk_data_to, data_offset,
}

-- A reader does not panic on a slice.
pub mmap_slice-ne-panic : (r : ErofsReader) (offset len : ℕ) → mmap_slice r offset len ≢ panic
unfolding mmap_slice
mmap_slice-ne-panic r offset len = checked_slice-ne-panic r.mmap offset len

blob_slice-ne-panic : (blob : Option Bytes) (offset len : ℕ) → blob_slice blob offset len ≢ panic
unfolding blob_slice
blob_slice-ne-panic none offset len = λ e. cc
blob_slice-ne-panic (some b) offset len = checked_slice-ne-panic b offset len

pub chunk_slice-ne-panic :
    (r : ErofsReader) (ci : ErofsChunkIndex) (off len : ℕ) → chunk_slice r ci off len ≢ panic
unfolding chunk_slice blob_mmap_slice
chunk_slice-ne-panic r ci off len = elim (Bool-cases (ltb 0 (Chunk.device_id ci))) [
  | inl blob ↦ rw blob (blob_slice-ne-panic r.blob_mmap (data_offset ci off) len)
  | inr image ↦ rw image (mmap_slice-ne-panic r (data_offset ci off) len)
]

abbrev index_view : Bytes → ErofsChunkIndex
index_view b = record {
  startblk_hi = field b 0 2;
  device_id = field b 2 2;
  startblk_lo = field b 4 4;
}

-- An index inside the table can be read.
pub chunk_index_at-ok :
    (ci_data : Bytes) (i : ℕ)
    → i * 8 + 8 ≤ length ci_data
    → i * 8 < 2 ^ 64
    → chunk_index_at ci_data i ≡ ok (index_view (drop (i * 8) ci_data))
unfolding chunk_index_at Chunk.cast_ref
chunk_index_at-ok ci_data i h k =
    let at : mul64 i 8 ≡ i * 8 = omega arith in
    let room : leb 8 (length (drop (i * 8) ci_data)) ≡ true =
      le→leb 8 _ (omega (arith, length-drop (i * 8) ci_data)) in
    rw (at, slice_from_lem ci_data (i * 8) (omega arith), room)

not_behind : (a b : ℕ) → leb a b ≡ false → b < a
not_behind a b h = ground arith

module _ (r : ErofsReader) (ci_data : Bytes) (chunksize nchunks : ℕ) (pos_chunk : 0 < chunksize)
    (table : nchunks * 8 ≤ length ci_data) (word : nchunks < 2 ^ 60) where
  abbrev loop : ℕ → ℕ → ℕ → Bytes → IoResult (Bytes × ℕ)
  loop = write_loop r ci_data chunksize nchunks

  step :
      (fuel remaining pos off n : ℕ) (w : Bytes) (ci : ErofsChunkIndex)
      → ((b : Bytes) → loop fuel remaining pos b ≢ panic)
      → (if Chunk.blkaddr ci == 2 ^ 64 - 1
          then loop fuel remaining pos (write_zeros n n w)
          else (chunk_slice r ci off n >>= λ b. loop fuel remaining pos (w ++ b)))
        ≢ panic
  step fuel remaining pos off n w ci ih = elim (Bool-cases (Chunk.blkaddr ci == 2 ^ 64 - 1)) [
    | inl hole ↦ rw hole (ih _)
    | inr stored ↦ rw stored (piece (chunk_slice r ci off n) (chunk_slice-ne-panic r ci off n))
  ]
    where
      piece :
          (p : IoResult Bytes) → p ≢ panic → (p >>= λ b. loop fuel remaining pos (w ++ b)) ≢ panic
      piece (ok b) good = ih (w ++ b)
      piece (err e) good = λ same. cc
      piece panic good = absurd (good refl)

  pub write_loop-ne-panic :
      (fuel remaining pos : ℕ) (w : Bytes) → remaining ≤ fuel → loop fuel remaining pos w ≢ panic
  unfolding write_loop
  write_loop-ne-panic zero remaining pos w h =
      let done : ltb 0 remaining ≡ false = ground arith in rw done (λ e. cc)
  write_loop-ne-panic (suc fuel) remaining pos w h = elim (Bool-cases (ltb 0 remaining)) [
    | inr done ↦ rw done (λ e. cc)
    | inl more ↦ elim (Bool-cases (leb nchunks (pos / chunksize))) [
      | inl behind ↦ rw (more, behind) (λ e. cc)
      | inr inside ↦
          let lt : pos / chunksize < nchunks = not_behind nchunks (pos / chunksize) inside in
          let found = chunk_index_at-ok ci_data (pos / chunksize) (omega arith) (omega arith) in
          rw (more, inside, found)
            (step fuel _ _ (pos % chunksize) (min remaining (chunksize - pos % chunksize)) w _ (λ b.
              write_loop-ne-panic fuel _ _ b
                (omega (arith, ltb→lt 0 remaining more, div-add-mod pos chunksize))))
    ]
  ]

abbrev ok_pair : Bytes → ℕ → IoResult (Bytes × ℕ)
ok_pair w n = ok (w, n)

nchunks-lt : (size chunksize : ℕ) → size < 2 ^ 58 → nchunks_of size chunksize < 2 ^ 59
unfolding nchunks_of
nchunks-lt size chunksize h = ground (arith, div-le_self size chunksize)

-- With a readable superblock, the table of indexes is there as a whole or not at all.
module _ (r : ErofsReader) (s : ErofsSuperblock) (readable : sb r ≡ ok s) where
  abbrev bits_of : ErofsInode → ℕ
  bits_of inode = s.blkszbits + bit_and (Inode.chunk_format inode) 0x1F

  chunkbits-ok : (inode : ErofsInode) → chunkbits r inode ≡ ok (bits_of inode)
  unfolding chunkbits
  chunkbits-ok inode = rw readable

  pub nid_to_offset-ok :
      (nid : ℕ)
      → nid_to_offset r nid ≡ ok (add64 (mul64 (Superblock.meta_blkaddr s) 4096) (mul64 nid 32))
  unfolding nid_to_offset
  nid_to_offset-ok nid = rw readable

  abbrev nchunks : ErofsInode → ℕ
  nchunks inode = nchunks_of (Inode.size inode) (chunksize_of (bits_of inode))

  chunk_indexes-ne-panic : (nid : ℕ) (inode : ErofsInode) → chunk_indexes r nid inode ≢ panic
  unfolding chunk_indexes
  chunk_indexes-ne-panic nid inode = elim (Bool-cases (Inode.data_layout inode == 4)) [
    | inl chunked ↦
        rw (chunked, chunkbits-ok inode, nid_to_offset-ok nid) (mmap_slice-ne-panic r _ _)
    | inr other ↦ rw other (λ e. cc)
  ]

  length-chunk_indexes :
      (nid : ℕ) (inode : ErofsInode) (d : Bytes)
      → chunk_indexes r nid inode ≡ ok d
      → length d ≡ mul64 (nchunks inode) 8
  unfolding chunk_indexes mmap_slice
  length-chunk_indexes nid inode d h = elim (Bool-cases (Inode.data_layout inode == 4)) [
    | inl chunked ↦
        length-checked_slice r.mmap _ _ d
          (rw (chunked, chunkbits-ok inode, nid_to_offset-ok nid) at h)
    | inr other ↦ absurd (refused (rw other at h))
  ]
    where
      refused : {e : ErrorKind} → ¬ (err e ≡ ok d)
      refused h = cc

  -- `write_chunk_data_to` returns or fails.
  pub write_chunk_data_to-ne-panic :
      (nid : ℕ) (inode : ErofsInode) (offset size : ℕ) (w : Bytes)
      → Inode.size inode < 2 ^ 58
      → write_chunk_data_to r nid inode offset size w ≢ panic
  unfolding write_chunk_data_to
  write_chunk_data_to-ne-panic nid inode offset size w small = rw (chunkbits-ok inode) (
      from_table (chunk_indexes r nid inode) (length-chunk_indexes nid inode)
        (chunk_indexes-ne-panic nid inode))
    where
      counted :
          (y : IoResult (Bytes × ℕ)) → y ≢ panic → (y >>= λ p. ok_pair p.0 (size - p.1)) ≢ panic
      counted (ok p) good = λ e. cc
      counted (err k) good = λ e. cc
      counted panic good = absurd (good refl)

      from_table :
          (x : IoResult Bytes)
          → ((d : Bytes) → x ≡ ok d → length d ≡ mul64 (nchunks inode) 8)
          → x ≢ panic
          → (x >>= λ d.
              write_loop r d (chunksize_of (bits_of inode)) (nchunks inode) size size offset w
              >>= λ p. ok_pair p.0 (size - p.1))
            ≢ panic
      from_table (ok d) long good =
          let few : nchunks inode < 2 ^ 59 = nchunks-lt (Inode.size inode) _ small in
          counted _ (
            write_loop-ne-panic r d (chunksize_of (bits_of inode)) (nchunks inode)
              (chunksize_pos (bits_of inode)) (omega (arith, long d refl)) (omega arith) size size
              offset w (omega arith))
      from_table (err k) long good = λ e. cc
      from_table panic long good = absurd (good refl)
