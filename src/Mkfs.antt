-- ===== src/Mkfs.antt =====
-- src/bin/erofs-mkfs.rs: the passes of `erofs-mkfs` from the inode tree to the image. A panic is an
-- index out of range. Printing, arguments and the files of the system are left out.
pub mod Buffers
pub mod Slots
pub mod Cores
pub mod Parents
pub mod Infos
pub mod Placed
pub mod Trees
pub mod LaidOut
pub mod Kinds
pub mod Made
pub mod Serves
use erofs_utils_rust.Base.{
  ℕ, zero, suc, ◌+◌, ◌-◌, ◌/◌, ◌%◌, ◌^◌, [], ◌∷◌, List, Bytes, length, Bool, Option, none, some,
  ltb, leb, ◌==◌, not, if◌then◌else◌, u16, IoResult, ok, panic, assert, ◌>>=◌, ◌>>◌, map_ok,
}
use erofs_utils_rust.Metadata.Consts.{erofs_block_size, erofs_ft_dir}
use erofs_utils_rust.Metadata.Layout
use erofs_utils_rust.Metadata.Layout.{
  MetadataLayout, Alloc, alloc_inode, pad_to_block, alloc_dir_data, write_at,
}
use erofs_utils_rust.Build.Dir.{DirChild, serialize_directory}
use erofs_utils_rust.Build.Inode.{
  DirEntry, InodeData, InodeInfo, regular_file, directory, symlink, special_dev, special_no_data,
  inode_meta_size, serialize_inode,
}
use erofs_utils_rust.Build.Image.{write_image}

-- `u32::trailing_zeros` of a number that is not 0.
unfoldable pub trailing_zeros : ℕ → ℕ → ℕ
trailing_zeros zero n = 0
trailing_zeros (suc bits) n =
    let rest = suc (trailing_zeros bits (n / 2)) in if n % 2 == 1 then 0 else rest

-- The checks of the chunk size, and `chunkbits`. A `u32` is a power of two if it has one bit.
unfoldable pub chunkbits_of : ℕ → Option ℕ
unfolding trailing_zeros
chunkbits_of chunksize =
    if ltb chunksize erofs_block_size
    then none
    else if not (chunksize == 2 ^ trailing_zeros 32 chunksize)
    then none
    else some (trailing_zeros 32 chunksize)

-- `inodes[i]`.
unfoldable pub inode_at : List InodeInfo → ℕ → IoResult InodeInfo
inode_at [] i = panic
inode_at (inode ∷ inodes) zero = ok inode
inode_at (inode ∷ inodes) (suc i) = inode_at inodes i

-- A change of `inodes[i]`.
unfoldable pub update_at : ℕ → (InodeInfo → InodeInfo) → List InodeInfo → IoResult (List InodeInfo)
update_at i change [] = panic
update_at zero change (inode ∷ inodes) = ok (change inode ∷ inodes)
update_at (suc i) change (inode ∷ inodes) =
    map_ok (λ (rest : List InodeInfo). inode ∷ rest) (update_at i change inodes)

-- Phase 2a: the slots of the inodes.
unfoldable pub alloc_inodes : MetadataLayout → List InodeInfo → MetadataLayout × List InodeInfo
alloc_inodes layout [] = (layout, [])
alloc_inodes layout (inode ∷ inodes) =
    let a = alloc_inode layout (inode_meta_size inode) in
    let (layout', placed) = alloc_inodes a.layout inodes in
    (layout', record inode { meta_offset = a.offset; nid = a.number } ∷ placed)

-- `parent_nid` of a directory.
unfoldable pub with_parent : ℕ → InodeData → InodeData
with_parent nid (directory children startblk dir_data_size parent_nid) =
    directory children startblk dir_data_size nid
with_parent nid (regular_file chunk_indexes) = regular_file chunk_indexes
with_parent nid (symlink target) = symlink target
with_parent nid (special_dev rdev) = special_dev rdev
with_parent nid special_no_data = special_no_data

abbrev pub set_parent : ℕ → InodeInfo → InodeInfo
set_parent nid inode = record inode { data_ = with_parent nid inode.data_ }

-- `child_dir_idxs` of `set_parent_nids`.
unfoldable pub child_dir_idxs : List DirEntry → List ℕ
child_dir_idxs [] = []
child_dir_idxs (de ∷ children) =
    let rest = child_dir_idxs children in
    if de.file_type == erofs_ft_dir then de.inode_idx ∷ rest else rest

-- The directories among the children; none where the inode is no directory.
unfoldable pub child_dirs : InodeData → List ℕ
unfolding child_dir_idxs
child_dirs (directory children startblk dir_data_size parent_nid) = child_dir_idxs children
child_dirs (regular_file chunk_indexes) = []
child_dirs (symlink target) = []
child_dirs (special_dev rdev) = []
child_dirs special_no_data = []

-- `dir_infos` of `set_parent_nids`.
unfoldable pub parent_infos : List InodeInfo → List (ℕ × List ℕ)
parent_infos [] = []
parent_infos (inode ∷ inodes) =
    let rest = parent_infos inodes in
    elim (child_dirs inode.data_) [ [] ↦ rest | idx ∷ idxs ↦ (inode.nid, idx ∷ idxs) ∷ rest ]

unfoldable pub set_parents : ℕ → List ℕ → List InodeInfo → IoResult (List InodeInfo)
set_parents nid [] inodes = ok inodes
set_parents nid (child_idx ∷ child_idxs) inodes = do
  inodes' ← update_at child_idx (set_parent nid) inodes
  set_parents nid child_idxs inodes'

unfoldable pub set_all_parents : List (ℕ × List ℕ) → List InodeInfo → IoResult (List InodeInfo)
set_all_parents [] inodes = ok inodes
set_all_parents ((nid, child_idxs) ∷ infos) inodes = do
  inodes' ← set_parents nid child_idxs inodes
  set_all_parents infos inodes'

unfoldable pub set_parent_nids : List InodeInfo → IoResult (List InodeInfo)
set_parent_nids inodes = do
  root ← inode_at inodes 0
  inodes' ← update_at 0 (set_parent root.nid) inodes
  set_all_parents (parent_infos inodes') inodes'

-- Phase 2b: what is serialized of each directory.
pub record DirInfo : Type 0 where
  pub idx : ℕ
  pub dir_children : List DirChild
  pub self_nid : ℕ
  pub parent_nid : ℕ

unfoldable pub children_of : List InodeInfo → List DirEntry → IoResult (List DirChild)
children_of inodes [] = ok []
children_of inodes (de ∷ children) = do
  inode ← inode_at inodes de.inode_idx
  rest ← children_of inodes children
  ok (record { name = de.name; nid = inode.nid; file_type = de.file_type } ∷ rest)

-- The closure of `filter_map`, in front of the rest.
unfoldable pub dir_info :
    List InodeInfo → ℕ → ℕ → InodeData → IoResult (List DirInfo) → IoResult (List DirInfo)
dir_info inodes idx self_nid (directory children startblk dir_data_size parent_nid) others = do
  dir_children ← children_of inodes children
  rest ← others
  ok (
      record {
        idx = idx;
        dir_children = dir_children;
        self_nid = self_nid;
        parent_nid = parent_nid;
      }
      ∷ rest)
dir_info inodes idx self_nid (regular_file chunk_indexes) others = others
dir_info inodes idx self_nid (symlink target) others = others
dir_info inodes idx self_nid (special_dev rdev) others = others
dir_info inodes idx self_nid special_no_data others = others

-- `dir_infos` of `main`, from the index `idx` on.
unfoldable pub dir_infos : List InodeInfo → ℕ → List InodeInfo → IoResult (List DirInfo)
dir_infos inodes idx [] = ok []
dir_infos inodes idx (inode ∷ rest) =
    dir_info inodes idx inode.nid inode.data_ (dir_infos inodes (idx + 1) rest)

unfoldable pub with_start : ℕ → ℕ → InodeData → InodeData
with_start startblk size (directory children _ _ parent_nid) =
    directory children startblk size parent_nid
with_start startblk size (regular_file chunk_indexes) = regular_file chunk_indexes
with_start startblk size (symlink target) = symlink target
with_start startblk size (special_dev rdev) = special_dev rdev
with_start startblk size special_no_data = special_no_data

abbrev pub set_start : ℕ → ℕ → InodeInfo → InodeInfo
set_start startblk size inode = record inode {
  data_ = with_start startblk size inode.data_;
  size = size;
}

-- The loop over `dir_infos`.
unfoldable pub place_dirs :
    MetadataLayout → List InodeInfo → List DirInfo → IoResult (MetadataLayout × List InodeInfo)
place_dirs layout inodes [] = ok (layout, inodes)
place_dirs layout inodes (info ∷ infos) = do
  dir_data ← serialize_directory info.dir_children info.self_nid info.parent_nid
  let a = alloc_dir_data layout (length dir_data)
  layout' ← write_at a.layout a.offset dir_data
  inodes' ← update_at info.idx (set_start a.number (length dir_data)) inodes
  place_dirs layout' inodes' infos

-- Phase 2c.
unfoldable pub write_inodes : ℕ → ℕ → MetadataLayout → List InodeInfo → IoResult MetadataLayout
write_inodes epoch chunkbits layout [] = ok layout
write_inodes epoch chunkbits layout (inode ∷ inodes) = do
  inode_bytes ← serialize_inode inode epoch chunkbits
  layout' ← write_at layout inode.meta_offset inode_bytes
  write_inodes epoch chunkbits layout' inodes

-- Phases 2a and 2b: where everything goes.
unfoldable pub lay_out : List InodeInfo → IoResult (MetadataLayout × List InodeInfo)
lay_out inodes = do
  let (layout, numbered) = alloc_inodes Layout.new inodes
  with_parents ← set_parent_nids numbered
  infos ← dir_infos with_parents 0 with_parents
  place_dirs (pad_to_block layout) with_parents infos

-- Phases 2 and 3.
unfoldable pub make_image : ℕ → ℕ → ℕ → Bytes → List InodeInfo → IoResult Bytes
make_image epoch chunkbits blob_blocks uuid inodes = do
  (layout, placed) ← lay_out inodes
  written ← write_inodes epoch chunkbits layout placed
  root ← inode_at placed 0
  assert (leb root.nid (2 ^ 16 - 1))
  write_image written.buf (u16 root.nid) (length inodes) epoch blob_blocks uuid
