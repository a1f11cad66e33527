-- ===== src/Fs/Fuse/Lookup.antt =====
-- Which entry `lookup` finds in a directory that the builder wrote.
use erofs_utils_rust.Base.{
  ℕ, ◌≡◌, refl, ◌∙◌, [], ◌∷◌, List, Bytes, Bool, All, Option, none, some, length, IsU64, bytes_eq,
  if◌then◌else◌, IoResult, ok, map_ok, ◌>>=◌, Bool-cases, inl, inr,
}
use erofs_utils_rust.Build.Dir.{DirChild, entries_of, serialize_directory}
use erofs_utils_rust.Build.Dir.Block.{IsEntry}
use erofs_utils_rust.Fs.DirEntries.{parse_dir_entries}
use erofs_utils_rust.Fs.DirEntries.Visit.{visit}
use erofs_utils_rust.Fs.DirEntries.RoundTrip.{parse_dir_entries-serialize_directory}
use erofs_utils_rust.Fs.Fuse.{find_name}

-- The nid of the first entry with the name.
unfoldable pub first_named : Bytes → List DirChild → Option ℕ
first_named target [] = none
first_named target (e ∷ es) =
    let rest = first_named target es in if bytes_eq e.name target then some e.nid else rest

abbrev outcome : IoResult (Option ℕ × Bool) → IoResult (Option ℕ)
outcome = map_ok (λ (x : Option ℕ × Bool). x.0)

visit-find_name :
    (target : Bytes) (es : List DirChild)
    → outcome (visit (find_name target) es none) ≡ ok (first_named target es)
unfolding visit find_name first_named
visit-find_name target [] = refl
visit-find_name target (e ∷ es) = elim (Bool-cases (bytes_eq e.name target)) [
  | inl same ↦ rw same refl
  | inr other ↦ rw other (visit-find_name target es)
]

-- If each child has a name with no NUL that fits a block and a nid of 64 bits, the walk of
-- `lookup` over the serialized directory ends with the nid of the first of ".", ".." and the
-- children that has the name, and with none where no entry has it.
pub find_name-serialize_directory :
    (target : Bytes) (children : List DirChild) (self_nid parent_nid : ℕ)
    → All IsEntry children
    → IsU64 self_nid
    → IsU64 parent_nid
    → (serialize_directory children self_nid parent_nid >>= λ (dir_data : Bytes).
        parse_dir_entries (find_name target) dir_data (length dir_data) none)
      ≡ ok (first_named target (entries_of children self_nid parent_nid))
find_name-serialize_directory target children self_nid parent_nid v hs hp =
    parse_dir_entries-serialize_directory (find_name target) children self_nid parent_nid none v hs
      hp
    ∙ visit-find_name target (entries_of children self_nid parent_nid)
