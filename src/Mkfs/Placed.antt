-- ===== src/Mkfs/Placed.antt =====
-- Phase 2b: each directory is serialized, stands in the buffer behind the inodes, and its inode says
-- where.
use erofs_utils_rust.Base.{
  ℕ, ◌+◌, ◌-◌, ◌*◌, ◌^◌, ◌≤◌, ◌<◌, ◌≡◌, ◌≢◌, refl, sym, ap, ◌∙◌, arith, [], ◌∷◌, List, Bytes, All,
  zeros, length, patch, ok,
}
use mathlib.Core.Path.{subst}
use erofs_utils_rust.Metadata.Layout.{MetadataLayout, alloc_dir_data, write_at}
use erofs_utils_rust.Metadata.Layout.Invariant.{
  IsLayout, alloc_dir_data-Extends, cursor-alloc_dir_data, write_at-IsLayout,
}
use erofs_utils_rust.Build.Dir.{serialize_directory}
use erofs_utils_rust.Build.Inode.{
  InodeInfo, InodeData, regular_file, directory, symlink, special_dev, special_no_data,
}
use erofs_utils_rust.Fs.Reader.Holds.{Holds, append-Holds}
use erofs_utils_rust.Mkfs.{inode_at, DirInfo, with_start, set_start, place_dirs}
use erofs_utils_rust.Mkfs.Buffers.{patch-Holds_itself, patch-Holds_front}
use erofs_utils_rust.Mkfs.Cores.{core, core_data, core_size, SameCores, update_at-SameCores}
use erofs_utils_rust.Mkfs.Infos.{
  IsInfo, IsDirectory, infos_room, Rising, Rising-from, serialize_info,
}

-- A directory in its final place, at `first` or behind it.
pub record Placed (xs : List InodeInfo) (buf : Bytes) (ys : List InodeInfo) (first : ℕ)
    (d : DirInfo) : Type 0 where
  pub before : List InodeInfo
  pub info : IsInfo xs before d
  pub inode : InodeInfo
  pub startblk : ℕ
  pub dir_data : Bytes
  pub at : inode_at ys d.idx ≡ ok inode
  pub is_dir : inode.data_ ≡ directory info.children startblk (length dir_data) d.parent_nid
  pub size : inode.size ≡ length dir_data
  pub self : inode.nid ≡ d.self_nid
  pub made : serialize_directory d.dir_children d.self_nid d.parent_nid ≡ ok dir_data
  pub short : length dir_data < 2 ^ 32
  pub filled : 4096 ≤ length dir_data
  pub behind : 4096 + first ≤ startblk * 4096
  pub held : Holds buf (startblk * 4096 - 4096) dir_data

core-set_start : (s n : ℕ) (i : InodeInfo) → IsDirectory i.data_ → core (set_start s n i) ≡ core i
unfolding with_start
core-set_start s n i dir =
    ap (λ (p : InodeData × ℕ). record i { data_ = p.0; size = p.1 }) (same i.data_ dir)
  where
    same :
        (d : InodeData)
        → IsDirectory d
        → ◌≡◌ {A = InodeData × ℕ}
            (core_data (with_start s n d), core_size (with_start s n d) n)
            (core_data d, core_size d i.size)
    same (directory children startblk dir_data_size parent_nid) dir = refl
    same (regular_file cis) dir = absurd dir
    same (symlink target) dir = absurd dir
    same (special_dev rdev) dir = absurd dir
    same special_no_data dir = absurd dir

IsInfo-kept :
    (xs ys ys' : List InodeInfo) (k : ℕ) (ds : List DirInfo)
    → ((j : ℕ) → j ≢ k → inode_at ys' j ≡ inode_at ys j)
    → Rising (k + 1) ds
    → All (IsInfo xs ys) ds
    → All (IsInfo xs ys') ds
IsInfo-kept xs ys ys' k [] kept r a = tt
IsInfo-kept xs ys ys' k (d ∷ ds) kept (above, r) (i, a) = (
  record {
    inode = i.inode;
    children = i.children;
    startblk = i.startblk;
    dir_data_size = i.dir_data_size;
    at = kept d.idx (omega arith) ∙ i.at;
    is_dir = i.is_dir;
    self = i.self;
    listed = i.listed;
    entries = i.entries;
    self_word = i.self_word;
    parent_word = i.parent_word;
    few = i.few;
  },
  IsInfo-kept xs ys ys' k ds kept (Rising-from (d.idx + 1) (k + 1) ds (omega arith) r) a,
)

-- One round: the directory data goes behind all that the buffer holds.
record OneRound (l l' : MetadataLayout) (offset number : ℕ) (dir_data : Bytes) : Type 0 where
  wrote :
      write_at
        (alloc_dir_data l (length dir_data)).layout
        (alloc_dir_data l (length dir_data)).offset
        dir_data
      ≡ ok l'
  valid : IsLayout l'
  grows : l.cursor ≤ offset
  bound : l'.cursor ≤ l.cursor + length dir_data + 8190
  onward : l.cursor ≤ l'.cursor
  number_at : number * 4096 ≡ 4096 + offset
  held : Holds l'.buf offset dir_data
  frame : (o : ℕ) (b : Bytes) → Holds l.buf o b → Holds l'.buf o b

one_round :
    (l : MetadataLayout) (dir_data : Bytes)
    → IsLayout l
    → l.cursor < 2 ^ 60
    → length dir_data < 2 ^ 60
    → (l' : MetadataLayout) × OneRound l l'
        (alloc_dir_data l (length dir_data)).offset
        (alloc_dir_data l (length dir_data)).number
        dir_data
one_round l dir_data v hc hs =
    let (one, number) = alloc_dir_data-Extends l (length dir_data) v (omega arith) (omega arith) in
    let most = cursor-alloc_dir_data l (length dir_data) (omega arith) (omega arith) in
    let a = alloc_dir_data l (length dir_data) in
    let (wrote, valid) = write_at-IsLayout a.layout a.offset dir_data one.valid one.inside in
    let room : a.offset + length dir_data ≤ length a.layout.buf =
      omega (arith, one.inside, one.valid.ends) in
    (
      record a.layout { buf = patch a.layout.buf a.offset dir_data },
      record {
        wrote = wrote;
        valid = valid;
        grows = one.behind;
        bound = most;
        onward = omega (arith, one.behind, one.inside);
        number_at = number;
        held = patch-Holds_itself a.layout.buf dir_data a.offset room;
        frame = λ o b held.
            patch-Holds_front a.layout.buf dir_data a.offset room o b
              (omega (arith, held.room, v.ends, one.behind))
              (subst (λ (buf : Bytes). Holds buf o b) (sym one.kept)
                (append-Holds l.buf (zeros (a.layout.cursor - l.cursor)) o b held));
      },
    )

pub record AllPlaced (xs : List InodeInfo) (l : MetadataLayout) (ys : List InodeInfo) (first k : ℕ)
    (ds : List DirInfo) (l' : MetadataLayout) (ys' : List InodeInfo) : Type 0 where
  pub ran : place_dirs l ys ds ≡ ok (l', ys')
  pub valid : IsLayout l'
  pub cores : SameCores ys' ys
  pub bound : l'.cursor ≤ l.cursor + infos_room ds
  pub onward : l.cursor ≤ l'.cursor
  pub placed : All (Placed xs l'.buf ys' first) ds
  pub frame : (o : ℕ) (b : Bytes) → Holds l.buf o b → Holds l'.buf o b
  pub kept : (j : ℕ) → j < k → inode_at ys' j ≡ inode_at ys j

pub place_dirs-AllPlaced :
    (xs : List InodeInfo) (l : MetadataLayout) (ys : List InodeInfo) (first k : ℕ)
    (ds : List DirInfo)
    → IsLayout l
    → first ≤ l.cursor
    → l.cursor + infos_room ds < 2 ^ 60
    → Rising k ds
    → All (IsInfo xs ys) ds
    → (l' : MetadataLayout) × (ys' : List InodeInfo) × AllPlaced xs l ys first k ds l' ys'
unfolding place_dirs with_start
place_dirs-AllPlaced xs l ys first k [] v from small r a = (
  l,
  ys,
  record {
    ran = refl;
    valid = v;
    cores = refl;
    bound = omega arith;
    onward = omega arith;
    placed = tt;
    frame = λ o b held. held;
    kept = λ j below. refl;
  },
)
place_dirs-AllPlaced xs l ys first k (d ∷ ds) v from small (above, r) (i, a) =
    let (b, made, long, filled) = serialize_info xs ys d i in
    let (l₁, one) = one_round l b v (omega arith) (omega arith) in
    let dir : IsDirectory i.inode.data_ = subst IsDirectory (sym i.is_dir) tt in
    let number : ℕ = (alloc_dir_data l (length b)).number in
    let (ys₁, updated, cores, now, others) =
      update_at-SameCores d.idx (set_start number (length b)) ys i.inode i.at
        (core-set_start number (length b) i.inode dir) in
    let (l₂, ys₂, rest) =
      place_dirs-AllPlaced xs l₁ ys₁ first (d.idx + 1) ds one.valid (omega (arith, one.onward))
        (omega (arith, one.bound, long)) r (IsInfo-kept xs ys ys₁ d.idx ds others r a) in
    let place : number * 4096 - 4096 ≡ (alloc_dir_data l (length b)).offset =
      omega (arith, one.number_at) in
    (
      l₂,
      ys₂,
      record {
        ran = rw (made, one.wrote, updated) rest.ran;
        valid = rest.valid;
        cores = rest.cores ∙ cores;
        bound = omega (arith, rest.bound, one.bound, long);
        onward = omega (arith, rest.onward, one.onward);
        placed = (
          record {
            before = ys;
            info = i;
            inode = set_start number (length b) i.inode;
            startblk = number;
            dir_data = b;
            at = rest.kept d.idx (omega arith) ∙ now;
            is_dir = started number (length b) i.is_dir;
            size = refl;
            self = i.self;
            made = made;
            short = omega (arith, long, i.few);
            filled = filled;
            behind = omega (arith, one.number_at, one.grows);
            held = rest.frame _ b (subst (λ (n : ℕ). Holds l₁.buf n b) (sym place) one.held);
          },
          rest.placed,
        );
        frame = λ o bytes held. rest.frame o bytes (one.frame o bytes held);
        kept = λ j below. rest.kept j (omega arith) ∙ others j (omega arith);
      },
    )
  where
    started :
        (s n : ℕ) {x : InodeData}
        → x ≡ directory i.children i.startblk i.dir_data_size d.parent_nid
        → with_start s n x ≡ directory i.children s n d.parent_nid
    started s n e = ap (with_start s n) e ∙ start_of s n
      where
        start_of :
            (s n : ℕ)
            → with_start s n (directory i.children i.startblk i.dir_data_size d.parent_nid)
              ≡ directory i.children s n d.parent_nid
        start_of s n = refl
