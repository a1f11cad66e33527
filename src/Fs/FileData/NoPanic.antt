-- ===== src/Fs/FileData/NoPanic.antt =====
-- Reading a file's data returns bytes or an error, whatever the image holds.
use erofs_utils_rust.Base.{
  ℕ, ◌+◌, ◌-◌, ◌^◌, ◌<◌, ◌≤◌, ◌≡◌, ◌≢◌, refl, ap, ◌∙◌, arith, [], Bytes, ◌||◌, Bool-cases, inl, inr,
  leb, ◌==◌, IoResult, ok, err, panic, map_ok, ◌>>=◌, false,
}
use erofs_utils_rust.Metadata.Inode
use erofs_utils_rust.Metadata.Inode.{ErofsInode}
use erofs_utils_rust.Metadata.Superblock.{ErofsSuperblock}
use erofs_utils_rust.Fs.Reader.{ErofsReader, sb}
use erofs_utils_rust.Fs.Flat.{
  spans, blocks_size_of, block_region, inline_region, read_inline_layout, read_flat_data,
  read_flat_data_vec,
}
use erofs_utils_rust.Fs.Chunks.{read_chunk_data_sync}
use erofs_utils_rust.Fs.Chunks.Complete.{write_chunk_data_to-read}
use erofs_utils_rust.Fs.Chunks.NoPanic.{
  mmap_slice-ne-panic, nid_to_offset-ok, write_chunk_data_to-ne-panic,
}
use erofs_utils_rust.Fs.FileData.{read_file_data_sync}

block_region-ne-panic :
    (r : ErofsReader) (inode : ErofsInode) (offset size : ℕ)
    → block_region r inode offset size ≢ panic
unfolding block_region
block_region-ne-panic r inode offset size = mmap_slice-ne-panic r _ _

module _ (r : ErofsReader) (s : ErofsSuperblock) (readable : sb r ≡ ok s) where
  inline_region-ne-panic :
      (nid : ℕ) (inode : ErofsInode) (offset size : ℕ)
      → inline_region r nid inode offset size ≢ panic
  unfolding inline_region
  inline_region-ne-panic nid inode offset size =
      rw (nid_to_offset-ok r s readable nid) (mmap_slice-ne-panic r _ _)

  pub read_flat_data-ne-panic :
      (nid : ℕ) (inode : ErofsInode) (offset size : ℕ)
      → read_flat_data r nid inode offset size ≢ panic
  unfolding read_flat_data read_inline_layout
  read_flat_data-ne-panic nid inode offset size = ground (
    arith,
    block_region-ne-panic r inode offset size,
    inline_region-ne-panic nid inode offset size,
    inline_region-ne-panic nid inode (offset - blocks_size_of (Inode.size inode)) size,
  )

  both :
      (x y : IoResult Bytes) (f : Bytes → Bytes → IoResult Bytes)
      → x ≢ panic
      → y ≢ panic
      → ((a b : Bytes) → f a b ≢ panic)
      → (x >>= λ a. y >>= λ b. f a b) ≢ panic
  both (ok a) (ok b) f hx hy hf = hf a b
  both (ok a) (err k) f hx hy hf = λ e. cc
  both (ok a) panic f hx hy hf = absurd (hy refl)
  both (err k) y f hx hy hf = λ e. cc
  both panic y f hx hy hf = absurd (hx refl)

  pub read_flat_data_vec-ne-panic :
      (nid : ℕ) (inode : ErofsInode) (offset size : ℕ)
      → read_flat_data_vec r nid inode offset size ≢ panic
  unfolding read_flat_data_vec
  read_flat_data_vec-ne-panic nid inode offset size = elim (Bool-cases (spans inode offset size)) [
    | inl across ↦ rw across (
        both _ _ _ (block_region-ne-panic r inode offset _) (inline_region-ne-panic nid inode 0 _)
          (λ a b e. cc))
    | inr apart ↦ rw apart (read_flat_data-ne-panic nid inode offset size)
  ]

  read_chunk_data_sync-ne-panic :
      (nid : ℕ) (inode : ErofsInode) (offset size : ℕ)
      → Inode.size inode < 2 ^ 58
      → offset + size ≤ Inode.size inode
      → read_chunk_data_sync r nid inode offset size ≢ panic
  read_chunk_data_sync-ne-panic nid inode offset size small inside = λ e.
      write_chunk_data_to-ne-panic r s readable nid inode offset size [] small
        (write_chunk_data_to-read r nid inode offset size [] inside ∙ ap (map_ok _) e)

-- If the superblock can be read and the file is smaller than 2^58 bytes, `read_file_data_sync`
-- returns bytes or an error for every offset and size, whatever the image holds: no index is out
-- of range and no loop runs out of rounds.
pub read_file_data_sync-ne-panic :
    (r : ErofsReader) (s : ErofsSuperblock) (nid : ℕ) (inode : ErofsInode) (offset size : ℕ)
    → sb r ≡ ok s
    → Inode.size inode < 2 ^ 58
    → read_file_data_sync r nid inode offset size ≢ panic
unfolding read_file_data_sync
read_file_data_sync-ne-panic r s nid inode offset size readable small =
    elim (Bool-cases (leb (Inode.size inode) offset)) [
      | inl behind ↦ rw behind (λ e. cc)
      | inr inside ↦
          elim (Bool-cases (Inode.data_layout inode == 0 || Inode.data_layout inode == 2)) [
            | inl flat ↦
                rw (inside, flat) (read_flat_data_vec-ne-panic r s readable nid inode offset _)
            | inr other ↦ elim (Bool-cases (Inode.data_layout inode == 4)) [
              | inl chunked ↦
                  rw (inside, other, chunked)
                    (read_chunk_data_sync-ne-panic r s readable nid inode offset _ small
                      (omega (arith, inside_le (Inode.size inode) offset inside)))
              | inr unknown ↦ rw (inside, other, unknown) (λ e. cc)
            ]
          ]
    ]
  where
    inside_le : (a b : ℕ) → leb a b ≡ false → b ≤ a
    inside_le a b h = ground arith
