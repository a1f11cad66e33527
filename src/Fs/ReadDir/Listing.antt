-- ===== src/Fs/ReadDir/Listing.antt =====
-- Which entries a listing holds of a directory that the builder wrote.
use erofs_utils_rust.Base.{
  ℕ, ◌≡◌, sym, ap, ◌∙◌, [], ◌∷◌, ◌++◌, append-nil, append_assoc, List, map, Bytes, Bool, true, All,
  length, IsU64, IoResult, ok, map_ok, ◌>>=◌,
}
use erofs_utils_rust.Build.Dir.{DirChild, entries_of, serialize_directory}
use erofs_utils_rust.Build.Dir.Block.{IsEntry}
use erofs_utils_rust.Fs.DirEntries.{parse_dir_entries}
use erofs_utils_rust.Fs.DirEntries.Visit.{visit}
use erofs_utils_rust.Fs.DirEntries.RoundTrip.{parse_dir_entries-serialize_directory}
use erofs_utils_rust.Fs.ReadDir.{CachedDirEntry, push_entry}

abbrev pub cached : DirChild → CachedDirEntry
cached e = record { nid = e.nid; file_type = e.file_type; name = e.name }

visit-push_entry :
    (es : List DirChild) (before : List CachedDirEntry)
    → visit push_entry es before ≡ ok (before ++ map cached es, true)
unfolding visit push_entry
visit-push_entry [] before = ap (λ (l : List CachedDirEntry). done l) (sym (append-nil before))
  where
    done : List CachedDirEntry → IoResult (List CachedDirEntry × Bool)
    done l = ok (l, true)
visit-push_entry (e ∷ es) before =
    visit-push_entry es (before ++ (cached e ∷ []))
    ∙ ap (λ (l : List CachedDirEntry). done l) (append_assoc before (cached e ∷ []) (map cached es))
  where
    done : List CachedDirEntry → IoResult (List CachedDirEntry × Bool)
    done l = ok (l, true)

-- If each child has a name with no NUL that fits a block and a nid of 64 bits, the closure of
-- `read_dir_cached` collects from the serialized directory exactly ".", ".." and the children,
-- in that order.
pub push_entry-serialize_directory :
    (children : List DirChild) (self_nid parent_nid : ℕ)
    → All IsEntry children
    → IsU64 self_nid
    → IsU64 parent_nid
    → (serialize_directory children self_nid parent_nid >>= λ (dir_data : Bytes).
        parse_dir_entries push_entry dir_data (length dir_data) [])
      ≡ ok (map cached (entries_of children self_nid parent_nid))
push_entry-serialize_directory children self_nid parent_nid v hs hp =
    parse_dir_entries-serialize_directory push_entry children self_nid parent_nid [] v hs hp
    ∙ ap (map_ok (λ (x : List CachedDirEntry × Bool). x.0))
        (visit-push_entry (entries_of children self_nid parent_nid) [])
