-- ===== src/Build/Tree.antt =====
-- src/build/inode.rs: `build_tree`. The files of the system are a tree, which does not change while it
-- is walked: what `symlink_metadata`, `xattr::list`, `xattr::get`, opening, `read_link` and `read_dir`
-- give for each. Making a name UTF-8 (`to_string_lossy`) and the hash of the blob are parameters.
pub mod Kept
pub mod Walk
use erofs_utils_rust.Base.{
  ℕ, suc, ◌+◌, ◌-◌, ◌^◌, [], ◌∷◌, ◌++◌, List, Bytes, length, Bool, true, false, Option, none, some,
  ltb, ◌==◌, ◌&&◌, ◌||◌, not, if◌then◌else◌, u16, u32, u64, bit_and, IoResult, ErrorKind, ok, err,
  ◌>>=◌,
}
use erofs_utils_rust.Metadata.Xattr.{Xattr, erofs_xattr_name_split}
use erofs_utils_rust.Build.BlobChunk.{BlobWriter, write_file_chunks}
use erofs_utils_rust.Build.Inode.{
  DirEntry, InodeInfo, InodeData, regular_file, directory, symlink, special_dev, special_no_data,
  mode_to_file_type,
}
use erofs_utils_rust.Mkfs.{update_at}

-- What the builder asks of `Metadata`.
pub record FileMeta : Type 0 where
  pub mode : ℕ
  pub uid : ℕ
  pub gid : ℕ
  pub size : ℕ
  pub mtime : ℕ
  pub mtime_nsec : ℕ
  pub nlink : ℕ
  pub rdev : ℕ
  pub dev : ℕ
  pub ino : ℕ

-- What the system gives for a path besides: the xattrs, each with its value if there is one, and the
-- results of opening it, of reading it as a link and of listing it.
pub record Answers : Type 0 where
  pub xattrs : Option (List (Bytes × Option Bytes))
  pub opened : IoResult Bytes
  pub link : IoResult Bytes
  pub listed : IoResult (Unit {0})

mutual
  -- A file, or the error of `symlink_metadata`.
  pub data Node : Type 0 where
    gone : ErrorKind → Node
    node : FileMeta → Answers → Entries → Node

  pub data Entries : Type 0 where
    nil : Entries
    entry : Bytes → Node → Entries → Entries

-- The order of file names, by their bytes.
unfoldable pub name_lt : Bytes → Bytes → Bool
name_lt a [] = false
name_lt [] (y ∷ b) = true
name_lt (x ∷ a) (y ∷ b) = let rest = name_lt a b in if x == y then rest else ltb x y

unfoldable pub insert_entry : Bytes → Node → Entries → Entries
insert_entry name child nil = entry name child nil
insert_entry name child (entry other sibling entries) =
    let rest = insert_entry name child entries in
    if name_lt other name
    then entry other sibling rest
    else entry name child (entry other sibling entries)

-- `sort_by_key` on the file names, in every directory.
unfoldable mutual
  pub sorted : Node → Node
  sorted (gone e) = gone e
  sorted (node meta answers entries) = node meta answers (sorted_entries entries)

  pub sorted_entries : Entries → Entries
  sorted_entries nil = nil
  sorted_entries (entry name child entries) =
      insert_entry name (sorted child) (sorted_entries entries)

unfoldable pub supported_xattrs : List (Bytes × Option Bytes) → List Xattr
supported_xattrs [] = []
supported_xattrs ((name, value) ∷ names) =
    let rest = supported_xattrs names in
    elim (erofs_xattr_name_split name) [
      | none ↦ rest
      | some (index, suffix) ↦ (index, suffix, elim value [ some v ↦ v | none ↦ [] ]) ∷ rest
    ]

unfoldable pub read_xattrs_from_path : Option (List (Bytes × Option Bytes)) → List Xattr
read_xattrs_from_path none = []
read_xattrs_from_path (some names) = supported_xattrs names

-- The tests of `FileType`.
unfoldable pub is_kind : ℕ → FileMeta → Bool
is_kind kind meta = bit_and meta.mode 0o170000 == kind

abbrev pub is_dir : FileMeta → Bool
is_dir = is_kind 0o040000

-- The arguments that the recursion passes on by reference.
pub record Building : Type 0 where
  pub blob_writer : BlobWriter
  pub inodes : List InodeInfo
  pub ino_counter : ℕ
  pub hardlink_map : List ((ℕ × ℕ) × ℕ)

-- `hardlink_map.get`.
unfoldable pub get_link : ℕ × ℕ → List ((ℕ × ℕ) × ℕ) → Option ℕ
get_link key [] = none
get_link key ((other, idx) ∷ links) =
    let rest = get_link key links in
    if (other.0 == key.0) && (other.1 == key.1) then some idx else rest

-- The inode that is pushed, whatever the kind is.
unfoldable pub new_inode : FileMeta → List Xattr → ℕ → InodeData → ℕ → InodeInfo
new_inode meta xattrs ino d size = record {
  mode = u16 meta.mode;
  uid = meta.uid;
  gid = meta.gid;
  size = size;
  mtime = u64 meta.mtime;
  mtime_nsec = u32 meta.mtime_nsec;
  nlink = u32 meta.nlink;
  ino = ino;
  nid = 0;
  meta_offset = 0;
  is_extended =
      ltb (2 ^ 32 - 1) meta.size
      || (ltb (2 ^ 16 - 1) meta.uid || (ltb (2 ^ 16 - 1) meta.gid || ltb 1 (u32 meta.nlink)));
  data_ = d;
  xattrs = xattrs;
}

-- `inodes.push`, with the counter advanced.
unfoldable pub push_inode : BlobWriter → InodeInfo → Building → Building
push_inode w inode s = record s {
  blob_writer = w;
  inodes = s.inodes ++ (inode ∷ []);
  ino_counter = u32 (s.ino_counter + 1);
}

unfoldable pub with_children : List DirEntry → InodeData → InodeData
with_children children (directory _ startblk dir_data_size parent_nid) =
    directory children startblk dir_data_size parent_nid
with_children children (regular_file chunk_indexes) = regular_file chunk_indexes
with_children children (symlink target) = symlink target
with_children children (special_dev rdev) = special_dev rdev
with_children children special_no_data = special_no_data

abbrev pub set_children : List DirEntry → InodeInfo → InodeInfo
set_children children inode = record inode { data_ = with_children children inode.data_ }

-- A file that is no directory and has several links.
abbrev pub is_linked : FileMeta → Bool
is_linked meta = not (is_dir meta) && ltb 1 meta.nlink

-- The index under which such a file stands already.
unfoldable pub existing_link : FileMeta → List ((ℕ × ℕ) × ℕ) → Option ℕ
existing_link meta links = if is_linked meta then get_link (meta.dev, meta.ino) links else none

unfoldable pub insert_link : FileMeta → ℕ → Building → Building
insert_link meta idx s =
    if is_linked meta
    then record s { hardlink_map = ((meta.dev, meta.ino), idx) ∷ s.hardlink_map }
    else s

-- A link to an inode that is there already skips the walk.
unfoldable pub unless_linked :
    Option ℕ → Building → IoResult (Building × ℕ) → IoResult (Building × ℕ)
unless_linked (some existing_idx) s walk = ok (s, existing_idx)
unless_linked none s walk = walk

module _ (hash : Bytes → Bytes) (lossy : Bytes → Bytes) where
  -- The blob, the data and the size of a file that is no directory.
  unfoldable pub leaf_data : FileMeta → Answers → BlobWriter → IoResult (BlobWriter × InodeData × ℕ)
  leaf_data meta answers w =
      if is_kind 0o100000 meta
      then (do
        (w', chunk_indexes) ← write_file_chunks hash w answers.opened meta.size
        ok (w', regular_file chunk_indexes, meta.size))
      else if is_kind 0o120000 meta
      then (do target ← answers.link; ok (w, symlink target, length target))
      else if is_kind 0o020000 meta || is_kind 0o060000 meta
      then ok (w, special_dev (u32 meta.rdev), 0)
      else ok (w, special_no_data, 0)

  abbrev child_entry : Bytes → FileMeta → ℕ → DirEntry
  child_entry name meta idx = record {
    name = lossy name;
    file_type = mode_to_file_type (u16 meta.mode);
    inode_idx = idx;
  }

  unfoldable mutual
    pub build_tree_recursive : Node → Building → IoResult (Building × ℕ)
    build_tree_recursive (gone e) s = err e
    build_tree_recursive (node meta answers entries) s =
        let xattrs = read_xattrs_from_path answers.xattrs in
        let ino = u32 (s.ino_counter + 1) in
        if is_dir meta
        then (do
          done ← answers.listed
          (s', children) ←
              build_children entries
                (push_inode s.blob_writer (new_inode meta xattrs ino (directory [] 0 0 0) 0) s)
          inodes ← update_at (length s.inodes) (set_children children) s'.inodes
          ok (record s' { inodes = inodes }, length s.inodes))
        else (do
          (w, d, size) ← leaf_data meta answers s.blob_writer
          ok (push_inode w (new_inode meta xattrs ino d size) s, length s.inodes))

    pub build_children : Entries → Building → IoResult (Building × List DirEntry)
    build_children nil s = ok (s, [])
    build_children (entry name (gone e) entries) s = err e
    build_children (entry name (node meta answers inside) entries) s = do
      (s₁, child_idx) ← unless_linked (existing_link meta s.hardlink_map) s (do
        (built, idx) ← build_tree_recursive (node meta answers inside) s
        ok (insert_link meta idx built, idx))
      (s', children) ← build_children entries s₁
      ok (s', child_entry name meta child_idx ∷ children)

  unfoldable pub build_tree : Node → BlobWriter → IoResult (BlobWriter × List InodeInfo)
  unfolding sorted build_tree_recursive
  build_tree source w = do
    (s, root) ←
        build_tree_recursive (sorted source)
          (record { blob_writer = w; inodes = []; ino_counter = 0; hardlink_map = [] })
    ok (s.blob_writer, s.inodes)
