-- ===== src/Fs/DirEntries.antt =====
-- src/fs/meta.rs `parse_dir_entries`: the walk over the entries of a directory, with a callback.
pub mod Visit
pub mod Block
pub mod Blocks
pub mod RoundTrip
use erofs_utils_rust.Base.{
  ℕ, zero, suc, ◌+◌, ◌*◌, ◌/◌, ◌||◌, [], ◌∷◌, Bool, true, false, Bytes, length, drop, ltb, leb,
  ◌==◌, if◌then◌else◌, min, slice, slice_from, IoResult, ok, panic, ◌>>=◌,
}
use erofs_utils_rust.Metadata.Consts.{erofs_block_size, erofs_dirent_size}
use erofs_utils_rust.Metadata.Dirent

-- `while end < block_len && block_data[end] != 0 { end += 1 }`, on the bytes from `end` on.
unfoldable pub scan_name : Bytes → ℕ → ℕ
scan_name [] end = end
scan_name (b ∷ bytes) end = let next = scan_name bytes (end + 1) in if b == 0 then end else next

-- The callback `FnMut(u64, u8, &[u8]) -> io::Result<bool>` with the state that it captures.
abbrev pub Callback : Type 0 → Type 0
Callback S = S → ℕ → ℕ → Bytes → IoResult (S × Bool)

-- `name_end` of the entry `i`.
unfoldable pub name_end_of : Bytes → ℕ → ℕ → ℕ → IoResult ℕ
name_end_of block_data dirent_count i nameoff =
    if ltb (i + 1) dirent_count
    then (do
      tail ← slice_from block_data ((i + 1) * erofs_dirent_size)
      next_de ← Dirent.cast_ref tail
      ok (Dirent.nameoff next_de))
    else ok (scan_name (drop nameoff block_data) nameoff)

module _ {S : Type 0} (cb : Callback S) where
  -- The `for` loop at the entry `i`, with the rounds that are left. The flag says whether the
  -- callback wants more; a `break` keeps it.
  unfoldable pub parse_block : ℕ → Bytes → ℕ → ℕ → S → IoResult (S × Bool)
  parse_block zero block_data dirent_count i s = ok (s, true)
  parse_block (suc rounds) block_data dirent_count i s =
      let de_off = i * erofs_dirent_size in
      if ltb (length block_data) (de_off + erofs_dirent_size) then ok (s, true) else (do
        bytes ← slice block_data de_off (de_off + erofs_dirent_size)
        de ← Dirent.cast_ref bytes
        let nameoff = Dirent.nameoff de
        name_end ← name_end_of block_data dirent_count i nameoff
        (if leb (length block_data) nameoff || ltb (length block_data) name_end
            then ok (s, true)
            else (do
              name ← slice block_data nameoff name_end
              (s', more) ← cb s (Dirent.nid de) (Dirent.file_type de) name
              elim more [
                | true ↦ parse_block rounds block_data dirent_count (i + 1) s'
                | false ↦ ok (s', false)
              ])))

  -- The `while` loop at `pos`. A round moves `pos` by a block.
  unfoldable pub parse_blocks : ℕ → Bytes → ℕ → ℕ → S → IoResult S
  parse_blocks zero dir_data dir_size pos s = if ltb pos dir_size then panic else ok s
  parse_blocks (suc fuel) dir_data dir_size pos s =
      if ltb pos dir_size
      then (do
        let block_end = min (pos + erofs_block_size) dir_size
        block_data ← slice dir_data pos block_end
        (if ltb (length block_data) erofs_dirent_size then ok s else (do
          bytes ← slice block_data 0 erofs_dirent_size
          first_de ← Dirent.cast_ref bytes
          let dirent_count = Dirent.nameoff first_de / erofs_dirent_size
          (s', more) ← parse_block dirent_count block_data dirent_count 0 s
          elim more [
            | true ↦ parse_blocks fuel dir_data dir_size (pos + erofs_block_size) s'
            | false ↦ ok s'
          ])))
      else ok s

  unfoldable pub parse_dir_entries : Bytes → ℕ → S → IoResult S
  parse_dir_entries dir_data dir_size s =
      parse_blocks (dir_size / erofs_block_size + 1) dir_data dir_size 0 s
