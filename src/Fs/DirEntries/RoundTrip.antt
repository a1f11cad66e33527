-- ===== src/Fs/DirEntries/RoundTrip.antt =====
-- A directory written by `serialize_directory` and walked by `parse_dir_entries`.
use erofs_utils_rust.Base.{
  ℕ, ◌+◌, ◌/◌, ◌≡◌, refl, ◌∙◌, ap, arith, [], List, Bytes, length, All, Bool, IoResult, ok, map_ok,
  ◌>>=◌, IsU64,
}
use erofs_utils_rust.Build.Dir.{DirChild, entries_of, serialize_directory}
use erofs_utils_rust.Build.Dir.Block.{IsEntry}
use erofs_utils_rust.Build.Dir.Blocks.{blocks, serialize_blocks-eq}
use erofs_utils_rust.Fs.DirEntries.{Callback, parse_dir_entries}
use erofs_utils_rust.Fs.DirEntries.Visit.{visit}
use erofs_utils_rust.Fs.DirEntries.Blocks.{parse_blocks-visit}

-- "." and ".." can be held, whatever nids they have.
pub entries_of-IsEntry :
    (children : List DirChild) (self_nid parent_nid : ℕ)
    → All IsEntry children
    → IsU64 self_nid
    → IsU64 parent_nid
    → All IsEntry (entries_of children self_nid parent_nid)
entries_of-IsEntry children self_nid parent_nid v hs hp =
    (ground (arith, hs), (ground (arith, hp), v))

pub serialize_directory-eq :
    (children : List DirChild) (self_nid parent_nid : ℕ)
    → All IsEntry children
    → IsU64 self_nid
    → IsU64 parent_nid
    → let entries = entries_of children self_nid parent_nid in
      serialize_directory children self_nid parent_nid ≡ ok (blocks (length entries) entries)
unfolding serialize_directory
serialize_directory-eq children self_nid parent_nid v hs hp =
    serialize_blocks-eq _ (entries_of children self_nid parent_nid) [] (omega arith)
      (entries_of-IsEntry children self_nid parent_nid v hs hp)

-- If each child has a name with no NUL that fits a block and a nid of 64 bits, serializing a
-- directory does not panic, and walking over the result with any callback calls it on ".", ".."
-- and the children, in that order, with their nids, types and names, until it fails or wants no
-- more.
pub parse_dir_entries-serialize_directory :
    {S : Type 0} (cb : Callback S) (children : List DirChild) (self_nid parent_nid : ℕ) (s : S)
    → All IsEntry children
    → IsU64 self_nid
    → IsU64 parent_nid
    → (serialize_directory children self_nid parent_nid >>= λ (dir_data : Bytes).
        parse_dir_entries cb dir_data (length dir_data) s)
      ≡ map_ok (λ (x : S × Bool). x.0) (visit cb (entries_of children self_nid parent_nid) s)
unfolding parse_dir_entries
parse_dir_entries-serialize_directory {S} cb children self_nid parent_nid s v hs hp =
    let entries = entries_of children self_nid parent_nid in
    let dir_data : Bytes = blocks (length entries) entries in
    ap (λ (r : IoResult Bytes). r >>= λ (d : Bytes). parse_dir_entries cb d (length d) s)
      (serialize_directory-eq children self_nid parent_nid v hs hp)
    ∙ parse_blocks-visit cb (length dir_data / 4096 + 1) (length entries) entries [] 0
        (length dir_data) s dir_data refl (omega arith)
        (entries_of-IsEntry children self_nid parent_nid v hs hp) refl refl (omega arith)
