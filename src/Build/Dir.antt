-- ===== src/Build/Dir.antt =====
-- src/build/dir.rs: the serialization of a directory into blocks. Names are their UTF-8 bytes.
-- Sums of lengths of objects in memory do not wrap.
pub mod Block
pub mod Blocks
use erofs_utils_rust.Base.{
  ℕ, zero, suc, ◌+◌, ◌*◌, [], ◌∷◌, ◌++◌, List, map, Bytes, bytes_of, zeros, length, take, drop, ltb,
  if◌then◌else◌, u16, copy_at, IoResult, ok, panic, assert, ◌>>=◌, ◌>>◌,
}
use erofs_utils_rust.Metadata.Consts.{erofs_block_size, erofs_dirent_size, erofs_ft_dir}
use erofs_utils_rust.Metadata.Dirent

pub record DirChild : Type 0 where
  pub name : Bytes
  pub nid : ℕ
  pub file_type : ℕ

-- "." and ".." in front of the children.
abbrev pub entries_of : List DirChild → ℕ → ℕ → List DirChild
entries_of children self_nid parent_nid =
    record { name = bytes_of "."; nid = self_nid; file_type = erofs_ft_dir }
    ∷ record { name = bytes_of ".."; nid = parent_nid; file_type = erofs_ft_dir }
    ∷ children

-- The inner `while`: how many of the entries go into the block, with `taken` and their names'
-- length so far.
unfoldable pub count_block : List DirChild → ℕ → ℕ → ℕ
count_block [] taken name_area = taken
count_block (e ∷ entries) taken name_area =
    let new_dirent_area = (taken + 1) * erofs_dirent_size in
    let new_name_area = name_area + length e.name in
    let more = count_block entries (taken + 1) new_name_area in
    if ltb erofs_block_size (new_dirent_area + new_name_area) then taken else more

-- The `for` loop over the entries of a block, at the entry `i` and the offset of its name.
unfoldable pub write_entries : Bytes → ℕ → ℕ → List DirChild → IoResult Bytes
write_entries block i name_offset [] = ok block
write_entries block i name_offset (e ∷ entries) = do
  with_dirent ←
      copy_at block (i * erofs_dirent_size)
        (Dirent.as_bytes (Dirent.new e.nid (u16 name_offset) e.file_type))
  with_name ← copy_at with_dirent name_offset e.name
  write_entries with_name (i + 1) (name_offset + length e.name) entries

-- The outer `while`. Each round takes an entry at least, or fails the assertion: as many rounds as
-- entries are enough.
unfoldable pub serialize_blocks : ℕ → List DirChild → Bytes → IoResult Bytes
serialize_blocks fuel [] result = ok result
serialize_blocks zero (e ∷ entries) result = panic
serialize_blocks (suc fuel) (e ∷ entries) result = do
  let count = count_block (e ∷ entries) 0 0
  assert (ltb 0 count)
  block ←
      write_entries (zeros erofs_block_size) 0 (count * erofs_dirent_size)
        (take count (e ∷ entries))
  serialize_blocks fuel (drop count (e ∷ entries)) (result ++ block)

unfoldable pub serialize_directory : List DirChild → ℕ → ℕ → IoResult Bytes
serialize_directory children self_nid parent_nid =
    let entries = entries_of children self_nid parent_nid in
    serialize_blocks (length entries) entries []
