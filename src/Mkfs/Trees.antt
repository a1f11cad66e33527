-- ===== src/Mkfs/Trees.antt =====
-- The inode trees that can be laid out, and what the passes keep of them.
use erofs_utils_rust.Base.{
  ℕ, zero, suc, ◌+◌, ◌*◌, ◌^◌, ◌≤◌, ◌<◌, ◌≡◌, refl, sym, ap, ◌∙◌, arith, [], ◌∷◌, List, map, All,
  length, IsU16, IsU32, IsU64, ok, ok_first,
}
use mathlib.Core.Path.{subst}
use erofs_utils_rust.Metadata.Layout
use erofs_utils_rust.Metadata.Layout.{MetadataLayout, Alloc, alloc_inode}
use erofs_utils_rust.Metadata.Xattr.Sizes.{total_size}
use erofs_utils_rust.Build.Dir.{DirChild}
use erofs_utils_rust.Build.Inode.{
  DirEntry, InodeInfo, InodeData, regular_file, directory, symlink, special_dev, special_no_data,
  inode_meta_size,
}
use erofs_utils_rust.Build.Inode.RoundTrip.{IsData, IsInode}
use erofs_utils_rust.Mkfs.{inode_at, alloc_inodes, children_of}
use erofs_utils_rust.Mkfs.Slots.{inodes_room}
use erofs_utils_rust.Mkfs.Cores.{core_data, core_size, core, SameCores, inode_at-SameCores}
use erofs_utils_rust.Mkfs.Parents.{HasChildren, HasParent}
use erofs_utils_rust.Mkfs.Infos.{HasNames, IsDirectory, data_room, dirs_room}

-- A tree as it is built: the root comes first and is a directory, the children of directories are
-- inodes of the tree, names and values fit the format, and all fits an image below 2^57 bytes.
pub record IsTree (inodes : List InodeInfo) : Type 0 where
  pub root : InodeInfo
  pub root_at : inode_at inodes 0 ≡ ok root
  pub root_dir : IsDirectory root.data_
  pub children : All (λ (i : InodeInfo). HasChildren (length inodes) i.data_) inodes
  pub parents : All (λ (i : InodeInfo). HasParent i.data_) inodes
  pub names : All (λ (i : InodeInfo). HasNames i.data_) inodes
  pub values : All IsInode inodes
  pub room : inodes_room inodes + dirs_room inodes + 4096 < 2 ^ 57

-- The inode at its slot.
abbrev pub at_slot : ℕ → ℕ → InodeInfo → InodeInfo
at_slot offset nid i = record i { meta_offset = offset; nid = nid }

-- The same file, at some slot, with what the passes fill in left open.
abbrev pub SameFile : InodeInfo → InodeInfo → Type 0
SameFile y x = core y ≡ core (at_slot y.meta_offset y.nid x)

pub alloc_inodes-All :
    (P : InodeInfo → Type 0)
    → ((offset nid : ℕ) (i : InodeInfo) → P i → P (at_slot offset nid i))
    → (l : MetadataLayout) (is : List InodeInfo) → All P is
    → All P (alloc_inodes l is).1
unfolding alloc_inodes
alloc_inodes-All P keep l [] a = tt
alloc_inodes-All P keep l (i ∷ is) (p, a) =
    (keep _ _ i p, alloc_inodes-All P keep (alloc_inode l (inode_meta_size i)).layout is a)

pub length-alloc_inodes :
    (l : MetadataLayout) (is : List InodeInfo) → length (alloc_inodes l is).1 ≡ length is
unfolding alloc_inodes
length-alloc_inodes l [] = refl
length-alloc_inodes l (i ∷ is) =
    ap suc (length-alloc_inodes (alloc_inode l (inode_meta_size i)).layout is)

pub dirs_room-alloc_inodes :
    (l : MetadataLayout) (is : List InodeInfo) → dirs_room (alloc_inodes l is).1 ≡ dirs_room is
unfolding alloc_inodes
dirs_room-alloc_inodes l [] = refl
dirs_room-alloc_inodes l (i ∷ is) =
    ap (λ (n : ℕ). data_room i.data_ + n)
      (dirs_room-alloc_inodes (alloc_inode l (inode_meta_size i)).layout is)

pub alloc_inodes-at :
    (l : MetadataLayout) (is : List InodeInfo) (k : ℕ) (x : InodeInfo)
    → inode_at is k ≡ ok x
    → (offset : ℕ) × (nid : ℕ) × (inode_at (alloc_inodes l is).1 k ≡ ok (at_slot offset nid x))
unfolding alloc_inodes inode_at
alloc_inodes-at l [] k x at = cc
alloc_inodes-at l (i ∷ is) zero x at =
    let same : i ≡ x = cc in
    let a = alloc_inode l (inode_meta_size i) in
    (a.offset, a.number, ap (λ (j : InodeInfo). ok (at_slot a.offset a.number j)) same)
alloc_inodes-at l (i ∷ is) (suc k) x at =
    alloc_inodes-at (alloc_inode l (inode_meta_size i)).layout is k x at

-- The first inode stands at the start of the area.
pub alloc_inodes-root :
    (is : List InodeInfo) (x : InodeInfo)
    → inode_at is 0 ≡ ok x
    → (y : InodeInfo) × (inode_at (alloc_inodes Layout.new is).1 0 ≡ ok y) × (y.nid ≡ 0)
unfolding alloc_inodes inode_at alloc_inode Layout.new
alloc_inodes-root [] x at = cc
alloc_inodes-root (i ∷ is) x at = (_, refl, refl)

data_room-core_data : (d : InodeData) → data_room (core_data d) ≡ data_room d
data_room-core_data (directory children startblk dir_data_size parent_nid) = refl
data_room-core_data (regular_file cis) = refl
data_room-core_data (symlink target) = refl
data_room-core_data (special_dev rdev) = refl
data_room-core_data special_no_data = refl

pub dirs_room-SameCores : (ys xs : List InodeInfo) → SameCores ys xs → dirs_room ys ≡ dirs_room xs
dirs_room-SameCores [] [] e = refl
dirs_room-SameCores [] (x ∷ xs) e = cc
dirs_room-SameCores (y ∷ ys) [] e = cc
dirs_room-SameCores (y ∷ ys) (x ∷ xs) e =
    let same : core y ≡ core x = cc in
    let others : map core ys ≡ map core xs = cc in
    omega (
      arith,
      dirs_room-SameCores ys xs others,
      data_room-core_data y.data_,
      data_room-core_data x.data_,
      ap (λ (i : InodeInfo). data_room i.data_) same,
    )

pub to_core-HasNames : (d : InodeData) → HasNames d → HasNames (core_data d)
to_core-HasNames (directory children startblk dir_data_size parent_nid) h = h
to_core-HasNames (regular_file cis) h = tt
to_core-HasNames (symlink target) h = tt
to_core-HasNames (special_dev rdev) h = tt
to_core-HasNames special_no_data h = tt

pub from_core-HasNames : (d : InodeData) → HasNames (core_data d) → HasNames d
from_core-HasNames (directory children startblk dir_data_size parent_nid) h = h
from_core-HasNames (regular_file cis) h = tt
from_core-HasNames (symlink target) h = tt
from_core-HasNames (special_dev rdev) h = tt
from_core-HasNames special_no_data h = tt

pub from_core-IsDirectory : (d : InodeData) → IsDirectory (core_data d) → IsDirectory d
from_core-IsDirectory (directory children startblk dir_data_size parent_nid) h = tt
from_core-IsDirectory (regular_file cis) h = h
from_core-IsDirectory (symlink target) h = h
from_core-IsDirectory (special_dev rdev) h = h
from_core-IsDirectory special_no_data h = h

pub to_core-IsDirectory : (d : InodeData) → IsDirectory d → IsDirectory (core_data d)
to_core-IsDirectory (directory children startblk dir_data_size parent_nid) h = tt
to_core-IsDirectory (regular_file cis) h = h
to_core-IsDirectory (symlink target) h = h
to_core-IsDirectory (special_dev rdev) h = h
to_core-IsDirectory special_no_data h = h

-- The start block of a directory fits its field.
abbrev pub HasStart : InodeData → Type 0
HasStart (directory children startblk dir_data_size parent_nid) = startblk < 2 ^ 48
HasStart (regular_file cis) = Unit
HasStart (symlink target) = Unit
HasStart (special_dev rdev) = Unit
HasStart special_no_data = Unit

pub directory-HasStart : (d : InodeData) → (IsDirectory d → HasStart d) → HasStart d
directory-HasStart (directory children startblk dir_data_size parent_nid) h = h tt
directory-HasStart (regular_file cis) h = tt
directory-HasStart (symlink target) h = tt
directory-HasStart (special_dev rdev) h = tt
directory-HasStart special_no_data h = tt

to_core-IsData : (d : InodeData) → IsData d → IsData (core_data d)
to_core-IsData (directory children startblk dir_data_size parent_nid) h = omega arith
to_core-IsData (regular_file cis) h = tt
to_core-IsData (symlink target) h = tt
to_core-IsData (special_dev rdev) h = h
to_core-IsData special_no_data h = tt

from_core-IsData : (d : InodeData) → IsData (core_data d) → HasStart d → IsData d
from_core-IsData (directory children startblk dir_data_size parent_nid) h start = start
from_core-IsData (regular_file cis) h start = tt
from_core-IsData (symlink target) h start = tt
from_core-IsData (special_dev rdev) h start = h
from_core-IsData special_no_data h start = tt

core_size-le : (d : InodeData) (s : ℕ) → core_size d s ≤ s
core_size-le (directory children startblk dir_data_size parent_nid) s = omega arith
core_size-le (regular_file cis) s = omega arith
core_size-le (symlink target) s = omega arith
core_size-le (special_dev rdev) s = omega arith
core_size-le special_no_data s = omega arith

size_bound : (d : InodeData) (s n : ℕ) → core_size d s < n → (IsDirectory d → s < n) → s < n
size_bound (directory children startblk dir_data_size parent_nid) s n h dir = dir tt
size_bound (regular_file cis) s n h dir = h
size_bound (symlink target) s n h dir = h
size_bound (special_dev rdev) s n h dir = h
size_bound special_no_data s n h dir = h

-- The values still fit, once the directories have their place and their size.
pub core-IsInode :
    (y x : InodeInfo)
    → core y ≡ core x
    → IsInode x
    → HasStart y.data_
    → (IsDirectory y.data_ → y.size < 2 ^ 32)
    → IsInode y
core-IsInode y x e v start sized = record {
  mode_word = subst (λ (i : InodeInfo). IsU16 i.mode) (sym e) v.mode_word;
  uid_word = subst (λ (i : InodeInfo). IsU32 i.uid) (sym e) v.uid_word;
  gid_word = subst (λ (i : InodeInfo). IsU32 i.gid) (sym e) v.gid_word;
  size_word =
      size_bound y.data_ y.size (2 ^ 64)
        (omega (arith, same_size, core_size-le x.data_ x.size, v.size_word))
        (λ h. omega (arith, sized h));
  mtime_word = subst (λ (i : InodeInfo). IsU64 i.mtime) (sym e) v.mtime_word;
  nsec_word = subst (λ (i : InodeInfo). IsU32 i.mtime_nsec) (sym e) v.nsec_word;
  nlink_word = subst (λ (i : InodeInfo). IsU32 i.nlink) (sym e) v.nlink_word;
  ino_word = subst (λ (i : InodeInfo). IsU32 i.ino) (sym e) v.ino_word;
  data_fits =
      from_core-IsData y.data_
        (subst (λ (i : InodeInfo). IsData i.data_) (sym e) (to_core-IsData x.data_ v.data_fits))
        start;
  xattrs_fit =
      subst (λ (i : InodeInfo). 12 + total_size i.xattrs ≤ 8 + 4 * 65535) (sym e) v.xattrs_fit;
  narrow_fits = λ narrow.
      let (small, uid, gid) =
        v.narrow_fits (sym (ap (λ (i : InodeInfo). i.is_extended) e) ∙ narrow) in
      (
        size_bound y.data_ y.size (2 ^ 32) (omega (arith, same_size, core_size-le x.data_ x.size))
            sized,
        subst (λ (i : InodeInfo). IsU16 i.uid) (sym e) uid,
        subst (λ (i : InodeInfo). IsU16 i.gid) (sym e) gid,
      );
}
  where
    same_size : core_size y.data_ y.size ≡ core_size x.data_ x.size
    same_size = ap (λ (i : InodeInfo). i.size) e

-- The children of a directory have the same names and nids where the inodes have the same cores.
pub children_of-SameCores :
    (ys xs : List InodeInfo) (children : List DirEntry) (cs : List DirChild)
    → SameCores ys xs
    → children_of xs children ≡ ok cs
    → children_of ys children ≡ ok cs
unfolding children_of
children_of-SameCores ys xs [] cs e ran = ran
children_of-SameCores ys xs (de ∷ children) cs e ran =
    let (x, at, next) = ok_first _ (inode_at xs de.inode_idx) ran in
    let (rest, others, last) = ok_first _ (children_of xs children) next in
    let (y, at', same) = inode_at-SameCores ys xs de.inode_idx x e at in
    let nid : x.nid ≡ y.nid = ap (λ (i : InodeInfo). i.nid) (sym same) in
    rw (at', children_of-SameCores ys xs children rest e others)
      (ap (λ (n : ℕ). ok (record { name = de.name; nid = n; file_type = de.file_type } ∷ rest))
          (sym nid)
        ∙ last)

-- Whatever holds at each index holds of all.
pub All-at :
    (P : InodeInfo → Type 0) (ys : List InodeInfo)
    → ((k : ℕ) (y : InodeInfo) → inode_at ys k ≡ ok y → P y)
    → All P ys
unfolding inode_at
All-at P [] each = tt
All-at P (y ∷ ys) each = (each 0 y refl, All-at P ys (λ k z at. each (suc k) z at))
