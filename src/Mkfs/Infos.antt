-- ===== src/Mkfs/Infos.antt =====
-- The directories that `main` serializes: each directory of the inodes, with its children.
use erofs_utils_rust.Base.{
  ℕ, zero, suc, ◌+◌, ◌*◌, ◌^◌, ◌≤◌, ◌<◌, ◌≡◌, ◌≢◌, ◌⊎◌, inl, inr, refl, sym, ap, arith, [], ◌∷◌,
  List, Bytes, All, length, IsU64, IoResult, ok,
}
use mathlib.Core.Path.{subst}
use erofs_utils_rust.Build.Dir.{DirChild, entries_of, serialize_directory}
use erofs_utils_rust.Build.Dir.Block.{IsEntry}
use erofs_utils_rust.Build.Dir.Blocks.{blocks, length-blocks-le, length-blocks_pos}
use erofs_utils_rust.Build.Inode.{
  DirEntry, InodeInfo, InodeData, regular_file, directory, symlink, special_dev, special_no_data,
}
use erofs_utils_rust.Fs.DirEntries.RoundTrip.{entries_of-IsEntry, serialize_directory-eq}
use erofs_utils_rust.Mkfs.{inode_at, DirInfo, children_of, dir_info, dir_infos}
use erofs_utils_rust.Mkfs.Cores.{inode_at-ok, inode_at-All}
use erofs_utils_rust.Mkfs.Parents.{HasChildren, HasParent}

-- A name that a directory block can hold.
pub record IsName (name : Bytes) : Type 0 where
  pub pos : 0 < length name
  pub no_nul : All (λ b. b ≢ 0) name
  pub fits : 12 + length name ≤ 4096

-- The names of a directory, of which there are less than 2^20 - 2, so that its data is below 4 GB.
abbrev pub HasNames : InodeData → Type 0
HasNames (directory children startblk dir_data_size parent_nid) =
    All (λ (de : DirEntry). IsName de.name) children × (length children + 2 < 2 ^ 20)
HasNames (regular_file cis) = Unit
HasNames (symlink target) = Unit
HasNames (special_dev rdev) = Unit
HasNames special_no_data = Unit

-- What the serialized directories take at most.
abbrev pub data_room : InodeData → ℕ
data_room (directory children startblk dir_data_size parent_nid) =
    (length children + 2) * 4096 + 8190
data_room (regular_file cis) = 0
data_room (symlink target) = 0
data_room (special_dev rdev) = 0
data_room special_no_data = 0

abbrev pub dirs_room : List InodeInfo → ℕ
dirs_room [] = 0
dirs_room (i ∷ is) = data_room i.data_ + dirs_room is

abbrev pub infos_room : List DirInfo → ℕ
infos_room [] = 0
infos_room (d ∷ ds) = (length d.dir_children + 2) * 4096 + 8190 + infos_room ds

-- A directory of the list `ys`, whose children have the nids of the list `xs`.
pub record IsInfo (xs ys : List InodeInfo) (d : DirInfo) : Type 0 where
  pub inode : InodeInfo
  pub children : List DirEntry
  pub startblk : ℕ
  pub dir_data_size : ℕ
  pub at : inode_at ys d.idx ≡ ok inode
  pub is_dir : inode.data_ ≡ directory children startblk dir_data_size d.parent_nid
  pub self : inode.nid ≡ d.self_nid
  pub listed : children_of xs children ≡ ok d.dir_children
  pub entries : All IsEntry d.dir_children
  pub self_word : IsU64 d.self_nid
  pub parent_word : IsU64 d.parent_nid
  pub few : length d.dir_children + 2 < 2 ^ 20

pub serialize_info :
    (xs ys : List InodeInfo) (d : DirInfo)
    → IsInfo xs ys d
    → (b : Bytes) × (serialize_directory d.dir_children d.self_nid d.parent_nid ≡ ok b)
      × (length b ≤ (length d.dir_children + 2) * 4096)
      × (4096 ≤ length b)
serialize_info xs ys d i =
    let entries = entries_of d.dir_children d.self_nid d.parent_nid in
    let held : All IsEntry entries =
      entries_of-IsEntry d.dir_children d.self_nid d.parent_nid i.entries i.self_word
        i.parent_word in
    (
      blocks (length entries) entries,
      serialize_directory-eq d.dir_children d.self_nid d.parent_nid i.entries i.self_word
          i.parent_word,
      omega (arith, length-blocks-le (length entries) entries held),
      length-blocks_pos _ _ _ held.0,
    )

pub children_of-ok :
    (xs : List InodeInfo) (children : List DirEntry)
    → All (λ (i : InodeInfo). IsU64 i.nid) xs
    → All (λ (de : DirEntry). de.inode_idx < length xs) children
    → All (λ (de : DirEntry). IsName de.name) children
    → (cs : List DirChild) × (children_of xs children ≡ ok cs)
      × All IsEntry cs
      × (length cs ≡ length children)
unfolding children_of
children_of-ok xs [] words inside names = ([], refl, tt, refl)
children_of-ok xs (de ∷ children) words (here, inside) (name, names) =
    let (x, at) = inode_at-ok xs de.inode_idx here in
    let (cs, ran, entries, same) = children_of-ok xs children words inside names in
    let word : IsU64 x.nid =
      inode_at-All (λ (i : InodeInfo). IsU64 i.nid) xs de.inode_idx x words at in
    (
      record { name = de.name; nid = x.nid; file_type = de.file_type } ∷ cs,
      rw (at, ran) refl,
      (
        record {
          name_pos = name.pos;
          no_nul = name.no_nul;
          name_fits = name.fits;
          nid_word = word;
        },
        entries,
      ),
      ap suc same,
    )

-- Indexes that grow, from `k` on.
abbrev pub Rising : ℕ → List DirInfo → Type 0
Rising k [] = Unit
Rising k (d ∷ ds) = (k ≤ d.idx) × Rising (d.idx + 1) ds

pub Rising-from : (k k' : ℕ) (ds : List DirInfo) → k' ≤ k → Rising k ds → Rising k' ds
Rising-from k k' [] le r = tt
Rising-from k k' (d ∷ ds) le (first, r) = (omega arith, r)

abbrev pub HasIndex : ℕ → List DirInfo → Type 0
HasIndex k [] = ⊥
HasIndex k (d ∷ ds) = (d.idx ≡ k) ⊎ HasIndex k ds

pub All-HasIndex :
    (P : DirInfo → Type 0) (k : ℕ) (ds : List DirInfo)
    → All P ds
    → HasIndex k ds
    → (d : DirInfo) × P d × (d.idx ≡ k)
All-HasIndex P k (d ∷ ds) (p, a) (inl same) = (d, p, same)
All-HasIndex P k (d ∷ ds) (p, a) (inr more) = All-HasIndex P k ds a more
All-HasIndex P k [] a h = absurd h

abbrev pub IsDirectory : InodeData → Type 0
IsDirectory (directory children startblk dir_data_size parent_nid) = Unit
IsDirectory (regular_file cis) = ⊥
IsDirectory (symlink target) = ⊥
IsDirectory (special_dev rdev) = ⊥
IsDirectory special_no_data = ⊥

-- The directories of `left`, which stands in `xs` from the index `idx` on.
pub record Found (xs : List InodeInfo) (idx : ℕ) (left : List InodeInfo)
    (m : IoResult (List DirInfo)) : Type 0 where
  pub infos : List DirInfo
  pub ran : m ≡ ok infos
  pub all : All (IsInfo xs xs) infos
  pub rising : Rising idx infos
  pub room : infos_room infos ≤ dirs_room left
  pub covers :
      (j : ℕ) (x : InodeInfo)
      → inode_at left j ≡ ok x
      → IsDirectory x.data_
      → HasIndex (idx + j) infos

-- An inode that is no directory.
skipped :
    (xs : List InodeInfo) (idx : ℕ) (x : InodeInfo) (left : List InodeInfo)
    (m : IoResult (List DirInfo))
    → ¬ IsDirectory x.data_
    → data_room x.data_ ≡ 0
    → Found xs (idx + 1) left m
    → Found xs idx (x ∷ left) m
unfolding inode_at
skipped xs idx x left m no_dir no_room f = record {
  infos = f.infos;
  ran = f.ran;
  all = f.all;
  rising = Rising-from (idx + 1) idx f.infos (omega arith) f.rising;
  room = omega (arith, f.room, no_room);
  covers = covers;
}
  where
    covers :
        (j : ℕ) (y : InodeInfo)
        → inode_at (x ∷ left) j ≡ ok y
        → IsDirectory y.data_
        → HasIndex (idx + j) f.infos
    covers zero y at dir =
        let e : x ≡ y = cc in
        absurd (no_dir (subst (λ (i : InodeInfo). IsDirectory i.data_) (sym e) dir))
    covers (suc j) y at dir =
        let sum : idx + 1 + j ≡ idx + suc j = omega arith in
        subst (λ (n : ℕ). HasIndex n f.infos) sum (f.covers j y at dir)

dir_info-Found :
    (xs : List InodeInfo) (idx : ℕ) (x : InodeInfo) (left : List InodeInfo)
    (m : IoResult (List DirInfo)) (d : InodeData)
    → x.data_ ≡ d
    → inode_at xs idx ≡ ok x
    → All (λ (i : InodeInfo). IsU64 i.nid) xs
    → HasChildren (length xs) d
    → HasParent d
    → HasNames d
    → Found xs (idx + 1) left m
    → Found xs idx (x ∷ left) (dir_info xs idx x.nid d m)
unfolding dir_info inode_at
dir_info-Found xs idx x left m (directory children startblk dir_data_size parent_nid) e at words
      inside parent (names, few) f =
    let (cs, ran, entries, same) = children_of-ok xs children words inside names in
    let room : data_room x.data_ ≡ (length children + 2) * 4096 + 8190 = ap data_room e in
    record {
      infos =
          record { idx = idx; dir_children = cs; self_nid = x.nid; parent_nid = parent_nid }
          ∷ f.infos;
      ran = rw (ran, f.ran) refl;
      all = (
        record {
          inode = x;
          children = children;
          startblk = startblk;
          dir_data_size = dir_data_size;
          at = at;
          is_dir = e;
          self = refl;
          listed = ran;
          entries = entries;
          self_word = inode_at-All (λ (i : InodeInfo). IsU64 i.nid) xs idx x words at;
          parent_word = parent;
          few = omega arith;
        },
        f.all,
      );
      rising = (omega arith, f.rising);
      room = omega (arith, f.room, room, same);
      covers = covers;
    }
  where
    covers :
        (j : ℕ) (y : InodeInfo)
        → inode_at (x ∷ left) j ≡ ok y
        → IsDirectory y.data_
        → (idx ≡ idx + j) ⊎ HasIndex (idx + j) f.infos
    covers zero y at dir = inl (omega arith)
    covers (suc j) y at dir =
        let sum : idx + 1 + j ≡ idx + suc j = omega arith in
        inr (subst (λ (n : ℕ). HasIndex n f.infos) sum (f.covers j y at dir))
dir_info-Found xs idx x left m (regular_file cis) e at words inside parent names f =
    skipped xs idx x left m (λ h. subst IsDirectory e h) (ap data_room e) f
dir_info-Found xs idx x left m (symlink target) e at words inside parent names f =
    skipped xs idx x left m (λ h. subst IsDirectory e h) (ap data_room e) f
dir_info-Found xs idx x left m (special_dev rdev) e at words inside parent names f =
    skipped xs idx x left m (λ h. subst IsDirectory e h) (ap data_room e) f
dir_info-Found xs idx x left m special_no_data e at words inside parent names f =
    skipped xs idx x left m (λ h. subst IsDirectory e h) (ap data_room e) f

pub dir_infos-Found :
    (xs : List InodeInfo) (idx : ℕ) (left : List InodeInfo)
    → All (λ (i : InodeInfo). IsU64 i.nid) xs
    → ((j : ℕ) (x : InodeInfo) → inode_at left j ≡ ok x → inode_at xs (idx + j) ≡ ok x)
    → All (λ (i : InodeInfo). HasChildren (length xs) i.data_) left
    → All (λ (i : InodeInfo). HasParent i.data_) left
    → All (λ (i : InodeInfo). HasNames i.data_) left
    → Found xs idx left (dir_infos xs idx left)
unfolding dir_infos inode_at
dir_infos-Found xs idx [] words there inside parents names = record {
  infos = [];
  ran = refl;
  all = tt;
  rising = tt;
  room = omega arith;
  covers = λ j x at dir. cc;
}
dir_infos-Found xs idx (x ∷ left) words there (i, inside) (p, parents) (n, names) =
    dir_info-Found xs idx x left (dir_infos xs (idx + 1) left) x.data_ refl
      (let sum : idx + 0 ≡ idx = omega arith in
        subst (λ (k : ℕ). inode_at xs k ≡ ok x) sum (there 0 x refl))
      words i p n
      (dir_infos-Found xs (idx + 1) left words
        (λ j y at.
          let sum : idx + suc j ≡ idx + 1 + j = omega arith in
          subst (λ (k : ℕ). inode_at xs k ≡ ok y) sum (there (suc j) y at))
        inside parents names)
