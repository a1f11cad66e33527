-- ===== src/Fs/FileData/Equivalence.antt =====
-- Serving a read to a writer and reading into a vector give the same bytes.
use erofs_utils_rust.Base.{
  ℕ, ◌-◌, ◌≤◌, ◌≡◌, ◌||◌, sym, ap₂, arith, ◌++◌, append-nil, Bytes, Bool-cases, inl, inr, leb, ◌==◌,
  min, IoResult, ok, map_ok, leb→le, false,
}
use erofs_utils_rust.Metadata.Inode
use erofs_utils_rust.Metadata.Inode.{ErofsInode}
use erofs_utils_rust.Fs.Reader.{ErofsReader}
use erofs_utils_rust.Fs.Flat.Equivalence.{write_flat_data_to-read}
use erofs_utils_rust.Fs.Chunks.Complete.{write_chunk_data_to-read}
use erofs_utils_rust.Fs.FileData.{write_file_data_to, read_file_data_sync}

-- The bytes behind those written before, and the count that is returned.
abbrev pub served : ErofsInode → ℕ → ℕ → Bytes → Bytes → Bytes × ℕ
served inode offset size w v = (w ++ v, min size (Inode.size inode - offset))

-- For every image, inode, offset and size, `write_file_data_to` fails or panics as
-- `read_file_data_sync` does; where that returns bytes it writes those bytes behind what the
-- writer holds, and returns the size asked for, cut at the end of the file.
pub write_file_data_to-read_file_data_sync :
    (r : ErofsReader) (nid : ℕ) (inode : ErofsInode) (offset size : ℕ) (w : Bytes)
    → write_file_data_to r nid inode offset size w
      ≡ map_ok (served inode offset size w) (read_file_data_sync r nid inode offset size)
unfolding write_file_data_to read_file_data_sync
write_file_data_to-read_file_data_sync r nid inode offset size w =
    elim (Bool-cases (leb (Inode.size inode) offset)) [
      | inl behind ↦ rw behind (
          ap₂ ok_pair (sym (append-nil w)) (omega (arith, leb→le (Inode.size inode) offset behind)))
      | inr inside ↦
          elim (Bool-cases (Inode.data_layout inode == 0 || Inode.data_layout inode == 2)) [
            | inl flat ↦ rw (inside, flat) (write_flat_data_to-read r nid inode offset _ w)
            | inr other ↦ elim (Bool-cases (Inode.data_layout inode == 4)) [
              | inl chunked ↦
                  rw (inside, other, chunked)
                    (write_chunk_data_to-read r nid inode offset _ w
                      (omega (arith, inside_lt (Inode.size inode) offset inside)))
              | inr unknown ↦ rw (inside, other, unknown)
            ]
          ]
    ]
  where
    ok_pair : Bytes → ℕ → IoResult (Bytes × ℕ)
    ok_pair v n = ok (v, n)

    inside_lt : (a b : ℕ) → leb a b ≡ false → b ≤ a
    inside_lt a b h = ground arith
