-- ===== src/Fs/Reader/Open.antt =====
-- What `open` checks, and what the checked slices return.
use erofs_utils_rust.Base.{
  ℕ, ◌+◌, ◌-◌, ◌^◌, ◌≤◌, ◌<◌, ◌≡◌, ap, ◌∙◌, arith, Bytes, Option, none, some, length, take, drop,
  slice_lem, slice_from_lem, slice, slice_from, length-take, length-drop, ltb, not, ◌==◌,
  if◌then◌else◌, ok, err, panic, ◌>>=◌, ◌≢◌, lt→leb_false, le→ltb_false, le→leb, ltb_false→le,
  Bool-cases, inl, inr, ◌⊎◌, ap₂, unexpected_eof, invalid_data,
}
use erofs_utils_rust.Metadata.Superblock
use erofs_utils_rust.Metadata.Superblock.{ErofsSuperblock}
use erofs_utils_rust.Fs.Reader.{
  ErofsReader, superblock_from, open_reader, sb, checked_slice, blob_mmap_slice, blob_slice,
}

-- A slice in range is returned; the length is that asked for.
pub checked_slice-ok :
    (mmap : Bytes) (offset len : ℕ)
    → offset + len ≤ length mmap
    → offset + len < 2 ^ 64
    → checked_slice mmap offset len ≡ ok (take len (drop offset mmap))
unfolding checked_slice
checked_slice-ok mmap offset len h k =
    rw (lt→leb_false (2 ^ 64) (offset + len) k, le→ltb_false (length mmap) (offset + len) h)
      (slice_lem mmap offset (offset + len) (omega arith) h
        ∙ ap (λ (n : ℕ). ok (take n (drop offset mmap))) (minus offset len))
  where
    minus : (a b : ℕ) → a + b - a ≡ b
    minus a b = omega arith

-- The checked slices of the mappings do not panic, whatever offset and length a corrupt image
-- names.
pub checked_slice-ne-panic : (mmap : Bytes) (offset len : ℕ) → checked_slice mmap offset len ≢ panic
unfolding checked_slice slice
checked_slice-ne-panic mmap offset len = ground arith

-- The cast of the bytes from `off` on, where 128 are there.
pub superblock_at :
    (mmap : Bytes) (off : ℕ)
    → off + 128 ≤ length mmap
    → (slice_from mmap off >>= Superblock.cast_ref) ≡ ok (Superblock.view (drop off mmap))
unfolding Superblock.cast_ref
superblock_at mmap off h =
    rw (slice_from_lem mmap off (omega arith))
      (rw (le→leb 128 (length (drop off mmap)) (omega (arith, length-drop off mmap))))

superblock_from-cases :
    (mmap : Bytes) (off : ℕ)
    → ((off + 128 ≤ length mmap)
        × (superblock_from mmap off ≡ ok (Superblock.view (drop off mmap))))
      ⊎ (superblock_from mmap off ≡ err unexpected_eof)
unfolding superblock_from
superblock_from-cases mmap off = elim (Bool-cases (ltb (length mmap) (off + 128))) [
  | inl short ↦ inr (rw short)
  | inr long ↦
      let room : off + 128 ≤ length mmap = ltb_false→le (length mmap) (off + 128) long in
      inl (room, rw long (superblock_at mmap off room))
]

open_with :
    (mmap : Bytes) (blob : Option Bytes) (v : ErofsSuperblock) (r : ErofsReader)
    → (if not (Superblock.magic v == 0xE0F5_E1E2)
        then err invalid_data
        else ok (record { mmap = mmap; blob_mmap = blob; sb_offset = 1024 }))
      ≡ ok r
    → (r.mmap ≡ mmap)
      × (r.blob_mmap ≡ blob)
      × (r.sb_offset ≡ 1024)
      × (Superblock.magic v ≡ 0xE0F5_E1E2)
open_with mmap blob v r h = ground arith

refused : (r : ErofsReader) → ¬ (err unexpected_eof ≡ ok r)
refused r h = cc

-- If `open` succeeds, the reader holds the two files as they are, reading the superblock does
-- not panic and gives the one at offset 1024, and that has the magic number.
pub open_reader-sb :
    (mmap : Bytes) (blob : Option Bytes) (r : ErofsReader)
    → open_reader mmap blob ≡ ok r
    → (r.mmap ≡ mmap)
      × (r.blob_mmap ≡ blob)
      × (sb r ≡ ok (Superblock.view (drop 1024 mmap)))
      × (Superblock.magic (Superblock.view (drop 1024 mmap)) ≡ 0xE0F5_E1E2)
unfolding open_reader sb
open_reader-sb mmap blob r h = elim (superblock_from-cases mmap 1024) [
  | inl (room, e) ↦
      let (same, same_blob, at, magic) =
        open_with mmap blob (Superblock.view (drop 1024 mmap)) r (rw e at h) in
      (
        same,
        same_blob,
        ap₂ (λ (m : Bytes) (o : ℕ). slice_from m o >>= Superblock.cast_ref) same at
            ∙ superblock_at mmap 1024 room,
        magic,
      )
  | inr e ↦ absurd (refused r (rw e at h))
]

pub length-checked_slice :
    (mmap : Bytes) (offset len : ℕ) (piece : Bytes)
    → checked_slice mmap offset len ≡ ok piece
    → length piece ≡ len
unfolding checked_slice slice
length-checked_slice mmap offset len piece h =
    ground (arith, length-take (offset + len - offset) (drop offset mmap), length-drop offset mmap)

pub length-blob_mmap_slice :
    (r : ErofsReader) (offset len : ℕ) (piece : Bytes)
    → blob_mmap_slice r offset len ≡ ok piece
    → length piece ≡ len
unfolding blob_mmap_slice
length-blob_mmap_slice r offset len piece h = of_blob r.blob_mmap h
  where
    of_blob : (blob : Option Bytes) → blob_slice blob offset len ≡ ok piece → length piece ≡ len
    of_blob none h = cc
    of_blob (some b) h = length-checked_slice b offset len piece h
