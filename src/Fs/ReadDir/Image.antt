-- ===== src/Fs/ReadDir/Image.antt =====
-- Listing a directory that the builder serialized and that an image holds at the start block of an
-- inode.
use erofs_utils_rust.Base.{
  ℕ, ◌*◌, ◌^◌, ◌<◌, ◌≡◌, sym, ap, ◌∙◌, arith, [], ◌∷◌, List, map, Bytes, Bool-cases, inl, inr, All,
  IsU64, length, add64, mul64, ◌==◌, true, false, IoResult, ok, ◌>>=◌,
}
use erofs_utils_rust.Metadata.Inode
use erofs_utils_rust.Metadata.Inode.{ErofsInode}
use erofs_utils_rust.Build.Dir.{DirChild, entries_of, serialize_directory}
use erofs_utils_rust.Build.Dir.Block.{IsEntry}
use erofs_utils_rust.Fs.DirEntries.{parse_dir_entries, parse_blocks}
use erofs_utils_rust.Fs.Reader.{ErofsReader, mmap_slice}
use erofs_utils_rust.Fs.Reader.Open.{checked_slice-ok}
use erofs_utils_rust.Fs.Reader.Holds.{Holds}
use erofs_utils_rust.Fs.Flat.{read_flat_data, block_region}
use erofs_utils_rust.Fs.ReadDir.{
  CachedDirEntry, push_entry, read_dir_cached, for_each_dir_entry, dir_data_of,
}
use erofs_utils_rust.Fs.ReadDir.Listing.{cached, push_entry-serialize_directory}

-- The data of an inode with the plain layout, as a whole.
plain_data :
    (r : ErofsReader) (nid : ℕ) (inode : ErofsInode) (d : Bytes)
    → Inode.data_layout inode ≡ 0
    → Inode.size inode ≡ length d
    → length r.mmap < 2 ^ 64
    → Holds r.mmap (Inode.startblk inode * 4096) d
    → read_flat_data r nid inode 0 (Inode.size inode) ≡ ok d
unfolding read_flat_data block_region mmap_slice
plain_data r nid inode d plain size small held =
    let at : add64 (mul64 (Inode.startblk inode) 4096) 0 ≡ Inode.startblk inode * 4096 =
      omega (arith, held.room) in
    rw (plain, size, at)
      (checked_slice-ok r.mmap (Inode.startblk inode * 4096) (length d) held.room
          (omega (arith, held.room))
        ∙ ap ok held.there)

whole_data :
    (r : ErofsReader) (nid : ℕ) (inode : ErofsInode) (d : Bytes)
    → read_flat_data r nid inode 0 (Inode.size inode) ≡ ok d
    → dir_data_of r nid inode ≡ ok d
unfolding dir_data_of
whole_data r nid inode d e = rw (dir_data_of, e)

-- A listing that is not empty comes from bytes.
no_bytes :
    (d : Bytes) (e : CachedDirEntry) (es : List CachedDirEntry)
    → parse_dir_entries push_entry d (length d) [] ≡ ok (e ∷ es)
    → (length d == 0) ≡ true
    → ⊥
unfolding parse_dir_entries parse_blocks
no_bytes [] e es h none = cc
no_bytes (b ∷ d) e es h none = ground arith

-- If each child has a name with no NUL that fits a block and a nid of 64 bits, and an image
-- below 2^64 bytes holds the serialized directory at the start block of an inode with the plain
-- layout and the size of that directory, `read_dir_cached` lists exactly ".", ".." and the
-- children, in that order.
pub read_dir_cached-serialize_directory :
    (r : ErofsReader) (nid : ℕ) (inode : ErofsInode) (children : List DirChild)
    (self_nid parent_nid : ℕ) (d : Bytes)
    → All IsEntry children
    → IsU64 self_nid
    → IsU64 parent_nid
    → serialize_directory children self_nid parent_nid ≡ ok d
    → Inode.data_layout inode ≡ 0
    → Inode.size inode ≡ length d
    → length r.mmap < 2 ^ 64
    → Holds r.mmap (Inode.startblk inode * 4096) d
    → read_dir_cached r nid inode ≡ ok (map cached (entries_of children self_nid parent_nid))
unfolding read_dir_cached for_each_dir_entry
read_dir_cached-serialize_directory r nid inode children self_nid parent_nid d v hs hp made plain
      size small held =
    let parsed : parse_dir_entries push_entry d (length d) []
        ≡ ok (map cached (entries_of children self_nid parent_nid)) =
      ap (λ (x : IoResult Bytes). x >>= λ (b : Bytes). parse_dir_entries push_entry b (length b) [])
        (sym made)
      ∙ push_entry-serialize_directory children self_nid parent_nid v hs hp in
    elim (Bool-cases (length d == 0)) [
      | inl none ↦ absurd (no_bytes d _ _ parsed none)
      | inr some_bytes ↦
          let nonempty : (Inode.size inode == 0) ≡ false =
            ap (λ (n : ℕ). n == 0) size ∙ some_bytes in
          rw
            (
              nonempty,
              whole_data r nid inode d (plain_data r nid inode d plain size small held),
              size,
            )
            parsed
    ]
