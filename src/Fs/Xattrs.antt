-- ===== src/Fs/Xattrs.antt =====
-- src/fs/meta.rs `read_xattrs`: the inline xattrs of an inode.
pub mod RoundTrip
pub mod NoPanic
use erofs_utils_rust.Base.{
  ℕ, zero, suc, ◌+◌, ◌*◌, [], ◌∷◌, ◌++◌, List, Bytes, none, some, length, ltb, leb, ◌==◌,
  if◌then◌else◌, add64, index, slice, from_le_bytes, IoResult, ok, panic, ◌>>=◌,
}
use erofs_utils_rust.Metadata.Consts.{erofs_xattr_ibody_header_size, erofs_xattr_entry_header_size}
use erofs_utils_rust.Metadata.RoundUp.{round_up}
use erofs_utils_rust.Metadata.Xattr.{erofs_xattr_prefix}
use erofs_utils_rust.Metadata.Inode
use erofs_utils_rust.Metadata.Inode.{ErofsInode}
use erofs_utils_rust.Fs.Reader.{ErofsReader, mmap_slice, nid_to_offset}

-- The prefix of the index in front of the suffix, or the suffix alone.
unfoldable pub full_name : ℕ → Bytes → Bytes
full_name e_name_index suffix = elim (erofs_xattr_prefix e_name_index) [
  | some prefix ↦ prefix ++ suffix
  | none ↦ suffix
]

-- The `while` loop at `pos`. A round moves `pos` by the header of an entry at least.
unfoldable pub read_entries : ℕ → Bytes → ℕ → List (Bytes × Bytes) → IoResult (List (Bytes × Bytes))
read_entries zero xattr_data pos result =
    if leb (pos + erofs_xattr_entry_header_size) (length xattr_data) then panic else ok result
read_entries (suc fuel) xattr_data pos result =
    if leb (pos + erofs_xattr_entry_header_size) (length xattr_data)
    then (do
      e_name_len ← index xattr_data pos
      e_name_index ← index xattr_data (pos + 1)
      low ← index xattr_data (pos + 2)
      high ← index xattr_data (pos + 3)
      let e_value_size = from_le_bytes (low ∷ high ∷ [])
      let name_start = pos + erofs_xattr_entry_header_size
      let name_end = name_start + e_name_len
      let value_end = name_end + e_value_size
      (if ltb (length xattr_data) value_end then ok result else (do
        suffix ← slice xattr_data name_start name_end
        value ← slice xattr_data name_end value_end
        read_entries fuel xattr_data (round_up value_end erofs_xattr_entry_header_size)
            (result ++ ((full_name e_name_index suffix, value) ∷ [])))))
    else ok result

-- The part of `read_xattrs` on the bytes of the xattr body.
unfoldable pub read_body : Bytes → IoResult (List (Bytes × Bytes))
read_body xattr_data = if ltb (length xattr_data) erofs_xattr_ibody_header_size then ok [] else (do
  h_shared_count ← index xattr_data 4
  let entries_start = erofs_xattr_ibody_header_size + h_shared_count * 4
  (if leb (length xattr_data) entries_start
      then ok []
      else read_entries (length xattr_data) xattr_data entries_start []))

unfoldable pub read_xattrs : ErofsReader → ℕ → ErofsInode → IoResult (List (Bytes × Bytes))
read_xattrs r nid inode = if Inode.xattr_size inode == 0 then ok [] else (do
  inode_offset ← nid_to_offset r nid
  xattr_data ← mmap_slice r (add64 inode_offset (Inode.header_size inode)) (Inode.xattr_size inode)
  read_body xattr_data)
