-- ===== src/Mkfs/LaidOut.antt =====
-- `lay_out` returns, and puts everything behind each other.
use erofs_utils_rust.Base.{
  ℕ, ◌+◌, ◌^◌, ◌≤◌, ◌<◌, ◌≡◌, sym, ◌∙◌, arith, [], ◌∷◌, List, All, length, IsU64, ok,
}
use mathlib.Core.Path.{subst}
use erofs_utils_rust.Metadata.Layout
use erofs_utils_rust.Metadata.Layout.{MetadataLayout, Alloc, pad_to_block}
use erofs_utils_rust.Metadata.Layout.Invariant.{IsLayout, new-IsLayout, pad_to_block-IsLayout}
use erofs_utils_rust.Build.Inode.{InodeInfo, inode_meta_size}
use erofs_utils_rust.Mkfs.{inode_at, alloc_inodes, set_parent_nids, DirInfo, lay_out}
use erofs_utils_rust.Mkfs.Slots.{Slots, Slots-le, inodes_room, alloc_inodes-Slots}
use erofs_utils_rust.Mkfs.Cores.{
  SameCores, length-SameCores, All-SameCores, Slots-SameCores, inode_at-SameCores, inode_at-lt,
}
use erofs_utils_rust.Mkfs.Parents.{
  HasChildren, HasParent, to_core-HasChildren, from_core-HasChildren, set_parent_nids-Kept,
}
use erofs_utils_rust.Mkfs.Infos.{HasNames, IsDirectory, HasIndex, dir_infos-Found, dirs_room}
use erofs_utils_rust.Mkfs.Placed.{Placed, place_dirs-AllPlaced}
use erofs_utils_rust.Mkfs.Trees.{
  IsTree, alloc_inodes-All, length-alloc_inodes, dirs_room-alloc_inodes, dirs_room-SameCores,
  to_core-HasNames, from_core-HasNames, from_core-IsDirectory, to_core-IsDirectory,
}

-- The inodes with their slots, the layout behind them, and the directories with their parents.
abbrev pub numbered : List InodeInfo → List InodeInfo
numbered inodes = (alloc_inodes Layout.new inodes).1

abbrev slotted : List InodeInfo → MetadataLayout
slotted inodes = (alloc_inodes Layout.new inodes).0

nids-IsU64 :
    (start end : ℕ) (is : List InodeInfo)
    → Slots start end is
    → end < 2 ^ 62
    → All (λ (i : InodeInfo). IsU64 i.nid) is
nids-IsU64 start end [] s small = tt
nids-IsU64 start end (i ∷ is) (from, number, rest) small = (
  omega (arith, Slots-le (i.meta_offset + inode_meta_size i) end is rest),
  nids-IsU64 (i.meta_offset + inode_meta_size i) end is rest small,
)

pub record LaidOut (inodes : List InodeInfo) (l : MetadataLayout) (out : List InodeInfo)
    : Type 0 where
  pub xs : List InodeInfo
  pub first : ℕ
  pub infos : List DirInfo
  pub ran : lay_out inodes ≡ ok (l, out)
  pub valid : IsLayout l
  pub bound : l.cursor < 2 ^ 57
  pub slots : Slots 0 first out
  pub inside : first ≤ l.cursor
  pub cores : SameCores out xs
  pub same_numbers : SameCores out (numbered inodes)
  pub placed : All (Placed xs l.buf out first) infos
  pub covers :
      (k : ℕ) (y : InodeInfo) → inode_at out k ≡ ok y → IsDirectory y.data_ → HasIndex k infos

module _ (inodes : List InodeInfo) (t : IsTree inodes) where
  some_there : 0 < length inodes
  some_there = inode_at-lt inodes 0 t.root t.root_at

  length-numbered : length (numbered inodes) ≡ length inodes
  length-numbered = length-alloc_inodes Layout.new inodes

  -- The inodes once they have their numbers and their parents.
  record Passed (xs : List InodeInfo) : Type 0 where
    set : set_parent_nids (numbered inodes) ≡ ok xs
    valid : IsLayout (slotted inodes)
    slots : Slots 0 (slotted inodes).cursor (numbered inodes)
    bound : (slotted inodes).cursor ≤ inodes_room inodes
    cores : SameCores xs (numbered inodes)
    words : All (λ (i : InodeInfo). IsU64 i.nid) xs
    children : All (λ (i : InodeInfo). HasChildren (length xs) i.data_) xs
    parents : All (λ (i : InodeInfo). HasParent i.data_) xs
    names : All (λ (i : InodeInfo). HasNames i.data_) xs
    rooms : dirs_room xs ≡ dirs_room inodes

  -- What the tree says of the data of its inodes is kept by the numbers.
  numbered_children : All (λ (i : InodeInfo). HasChildren (length inodes) i.data_) (numbered inodes)
  numbered_children =
      alloc_inodes-All (λ (i : InodeInfo). HasChildren (length inodes) i.data_) (λ o n i h. h)
        Layout.new inodes t.children

  set_parent_nids-Passed : (xs : List InodeInfo) × Passed xs
  unfolding Layout.new
  set_parent_nids-Passed =
      let (valid, slots, bound) =
        alloc_inodes-Slots Layout.new inodes new-IsLayout (omega (arith, t.room)) in
      let words =
        nids-IsU64 0 (slotted inodes).cursor (numbered inodes) slots
          (omega (arith, bound, t.room)) in
      let (xs, set, kept) =
        set_parent_nids-Kept (numbered inodes) (omega (arith, length-numbered, some_there))
          (subst (λ (n : ℕ). All (λ (i : InodeInfo). HasChildren n i.data_) (numbered inodes))
            (sym length-numbered) numbered_children)
          words
          (alloc_inodes-All (λ (i : InodeInfo). HasParent i.data_) (λ o n i h. h) Layout.new inodes
            t.parents) in
      let same_length : length xs ≡ length inodes =
        length-SameCores xs (numbered inodes) kept.cores ∙ length-numbered in
      (
        xs,
        record {
          set = set;
          valid = valid;
          slots = slots;
          bound = omega (arith, bound);
          cores = kept.cores;
          words =
              All-SameCores (λ (i : InodeInfo). IsU64 i.nid) (λ i h. h) (λ i h. h) xs
                (numbered inodes) kept.cores words;
          children =
              subst (λ (n : ℕ). All (λ (i : InodeInfo). HasChildren n i.data_) xs) (sym same_length)
                (All-SameCores (λ (i : InodeInfo). HasChildren (length inodes) i.data_)
                  (λ i. to_core-HasChildren (length inodes) i.data_)
                  (λ i. from_core-HasChildren (length inodes) i.data_) xs (numbered inodes)
                  kept.cores numbered_children);
          parents = kept.parents;
          names =
              All-SameCores (λ (i : InodeInfo). HasNames i.data_) (λ i. to_core-HasNames i.data_)
                (λ i. from_core-HasNames i.data_) xs (numbered inodes) kept.cores
                (alloc_inodes-All (λ (i : InodeInfo). HasNames i.data_) (λ o n i h. h) Layout.new
                  inodes t.names);
          rooms =
              dirs_room-SameCores xs (numbered inodes) kept.cores
              ∙ dirs_room-alloc_inodes Layout.new inodes;
        },
      )

  pub lay_out-LaidOut : (l : MetadataLayout) × (out : List InodeInfo) × LaidOut inodes l out
  unfolding lay_out
  lay_out-LaidOut =
      let (xs, n) = set_parent_nids-Passed in
      let found =
        dir_infos-Found xs 0 xs n.words
          (λ j x at.
            let sum : j ≡ 0 + j = omega arith in subst (λ (k : ℕ). inode_at xs k ≡ ok x) sum at)
          n.children n.parents n.names in
      let (padded, on_block, onward, little, same) =
        pad_to_block-IsLayout (slotted inodes) n.valid (omega (arith, n.bound, t.room)) in
      let (l, out, all) =
        place_dirs-AllPlaced xs (pad_to_block (slotted inodes)) xs (slotted inodes).cursor 0
          found.infos padded onward (omega (arith, n.bound, t.room, little, found.room, n.rooms))
          found.rising found.all in
      (
        l,
        out,
        record {
          xs = xs;
          first = (slotted inodes).cursor;
          infos = found.infos;
          ran = rw (n.set, found.ran) all.ran;
          valid = all.valid;
          bound = omega (arith, all.bound, n.bound, t.room, little, found.room, n.rooms);
          slots =
              Slots-SameCores 0 (slotted inodes).cursor out (numbered inodes) (all.cores ∙ n.cores)
                n.slots;
          inside = omega (arith, onward, all.onward);
          cores = all.cores;
          same_numbers = all.cores ∙ n.cores;
          placed = all.placed;
          covers = λ k y at dir.
              let (x, at', same_core) = inode_at-SameCores xs out k y (sym all.cores) at in
              let is_dir : IsDirectory x.data_ = from_core-IsDirectory x.data_ (
                subst (λ (i : InodeInfo). IsDirectory i.data_) (sym same_core)
                  (to_core-IsDirectory y.data_ dir)) in
              let sum : 0 + k ≡ k = omega arith in
              subst (λ (j : ℕ). HasIndex j found.infos) sum (found.covers k x at' is_dir);
        },
      )
