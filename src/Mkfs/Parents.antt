-- ===== src/Mkfs/Parents.antt =====
-- `set_parent_nids` returns, and changes nothing but the parents of directories.
use erofs_utils_rust.Base.{
  ℕ, ◌<◌, ◌≡◌, refl, sym, ap, ◌∙◌, [], ◌∷◌, List, All, length, ◌==◌, Bool-cases, inl, inr, IsU64,
  ok,
}
use mathlib.Core.Path.{subst}
use erofs_utils_rust.Metadata.Consts.{erofs_ft_dir}
use erofs_utils_rust.Build.Inode.{
  DirEntry, InodeInfo, InodeData, regular_file, directory, symlink, special_dev, special_no_data,
}
use erofs_utils_rust.Mkfs.{
  update_at, with_parent, set_parent, child_dir_idxs, child_dirs, parent_infos, set_parents,
  set_all_parents, set_parent_nids,
}
use erofs_utils_rust.Mkfs.Cores.{
  core_data, core_size, core, SameCores, length-SameCores, All-SameCores, inode_at-ok, inode_at-All,
  update_at-SameCores, update_at-All,
}

-- The children of a directory are inodes of the list.
abbrev pub HasChildren : ℕ → InodeData → Type 0
HasChildren n (directory children startblk dir_data_size parent_nid) =
    All (λ (de : DirEntry). de.inode_idx < n) children
HasChildren n (regular_file cis) = Unit
HasChildren n (symlink target) = Unit
HasChildren n (special_dev rdev) = Unit
HasChildren n special_no_data = Unit

-- The parent is a word.
abbrev pub HasParent : InodeData → Type 0
HasParent (directory children startblk dir_data_size parent_nid) = IsU64 parent_nid
HasParent (regular_file cis) = Unit
HasParent (symlink target) = Unit
HasParent (special_dev rdev) = Unit
HasParent special_no_data = Unit

with_parent-HasParent : (nid : ℕ) (d : InodeData) → IsU64 nid → HasParent (with_parent nid d)
unfolding with_parent
with_parent-HasParent nid (directory children startblk dir_data_size parent_nid) h = h
with_parent-HasParent nid (regular_file cis) h = tt
with_parent-HasParent nid (symlink target) h = tt
with_parent-HasParent nid (special_dev rdev) h = tt
with_parent-HasParent nid special_no_data h = tt

set_parent-core : (nid : ℕ) (i : InodeInfo) → core (set_parent nid i) ≡ core i
unfolding with_parent
set_parent-core nid i =
    ap (λ (p : InodeData × ℕ). record i { data_ = p.0; size = p.1 }) (same i.data_)
  where
    same :
        (d : InodeData)
        → ◌≡◌ {A = InodeData × ℕ}
            (core_data (with_parent nid d), core_size (with_parent nid d) i.size)
            (core_data d, core_size d i.size)
    same (directory children startblk dir_data_size parent_nid) = refl
    same (regular_file cis) = refl
    same (symlink target) = refl
    same (special_dev rdev) = refl
    same special_no_data = refl

pub to_core-HasChildren : (n : ℕ) (d : InodeData) → HasChildren n d → HasChildren n (core_data d)
to_core-HasChildren n (directory children startblk dir_data_size parent_nid) h = h
to_core-HasChildren n (regular_file cis) h = tt
to_core-HasChildren n (symlink target) h = tt
to_core-HasChildren n (special_dev rdev) h = tt
to_core-HasChildren n special_no_data h = tt

pub from_core-HasChildren : (n : ℕ) (d : InodeData) → HasChildren n (core_data d) → HasChildren n d
from_core-HasChildren n (directory children startblk dir_data_size parent_nid) h = h
from_core-HasChildren n (regular_file cis) h = tt
from_core-HasChildren n (symlink target) h = tt
from_core-HasChildren n (special_dev rdev) h = tt
from_core-HasChildren n special_no_data h = tt

abbrev InRange : ℕ → List ℕ → Type 0
InRange n = All (λ (k : ℕ). k < n)

child_dir_idxs-InRange :
    (n : ℕ) (children : List DirEntry)
    → All (λ (de : DirEntry). de.inode_idx < n) children
    → InRange n (child_dir_idxs children)
unfolding child_dir_idxs
child_dir_idxs-InRange n [] a = tt
child_dir_idxs-InRange n (de ∷ children) (h, a) = elim (Bool-cases (de.file_type == erofs_ft_dir)) [
  | inl is_dir ↦ rw is_dir (h, child_dir_idxs-InRange n children a)
  | inr other ↦ rw other (child_dir_idxs-InRange n children a)
]

child_dirs-InRange : (n : ℕ) (d : InodeData) → HasChildren n d → InRange n (child_dirs d)
unfolding child_dirs
child_dirs-InRange n (directory children startblk dir_data_size parent_nid) h =
    child_dir_idxs-InRange n children h
child_dirs-InRange n (regular_file cis) h = tt
child_dirs-InRange n (symlink target) h = tt
child_dirs-InRange n (special_dev rdev) h = tt
child_dirs-InRange n special_no_data h = tt

-- Nids that are words, with children in range.
abbrev InfoInRange : ℕ → ℕ × List ℕ → Type 0
InfoInRange n (nid, idxs) = IsU64 nid × InRange n idxs

parent_infos-InRange :
    (n : ℕ) (xs : List InodeInfo)
    → All (λ (i : InodeInfo). HasChildren n i.data_) xs
    → All (λ (i : InodeInfo). IsU64 i.nid) xs
    → All (InfoInRange n) (parent_infos xs)
unfolding parent_infos
parent_infos-InRange n [] a w = tt
parent_infos-InRange n (x ∷ xs) (h, a) (word, w) =
    by_dirs (child_dirs x.data_) (child_dirs-InRange n x.data_ h) (parent_infos-InRange n xs a w)
  where
    by_dirs :
        (idxs : List ℕ)
        → InRange n idxs
        → All (InfoInRange n) (parent_infos xs)
        → All (InfoInRange n) (elim idxs [
          | [] ↦ parent_infos xs
          | idx ∷ more ↦ (x.nid, idx ∷ more) ∷ parent_infos xs
        ])
    by_dirs [] r rest = rest
    by_dirs (idx ∷ more) r rest = ((word, r), rest)

-- What a pass over `xs` leaves.
pub record Kept (xs ys : List InodeInfo) : Type 0 where
  pub cores : SameCores ys xs
  pub parents : All (λ (i : InodeInfo). HasParent i.data_) ys

one_parent :
    (nid k : ℕ) (xs : List InodeInfo)
    → IsU64 nid
    → k < length xs
    → All (λ (i : InodeInfo). HasParent i.data_) xs
    → (ys : List InodeInfo) × (update_at k (set_parent nid) xs ≡ ok ys) × Kept xs ys
one_parent nid k xs word inside parents =
    let (x, at) = inode_at-ok xs k inside in
    let (ys, ran, cores, now, kept) =
      update_at-SameCores k (set_parent nid) xs x at (set_parent-core nid x) in
    (
      ys,
      ran,
      record {
        cores = cores;
        parents =
            update_at-All (λ (i : InodeInfo). HasParent i.data_) k (set_parent nid) xs ys
              (λ i h. with_parent-HasParent nid i.data_ word) parents ran;
      },
    )

set_parents-Kept :
    (nid : ℕ) (idxs : List ℕ) (xs : List InodeInfo)
    → IsU64 nid
    → InRange (length xs) idxs
    → All (λ (i : InodeInfo). HasParent i.data_) xs
    → (ys : List InodeInfo) × (set_parents nid idxs xs ≡ ok ys) × Kept xs ys
unfolding set_parents
set_parents-Kept nid [] xs word inside parents =
    (xs, refl, record { cores = refl; parents = parents })
set_parents-Kept nid (k ∷ idxs) xs word (first, inside) parents =
    let (ys, ran, one) = one_parent nid k xs word first parents in
    let (zs, more, rest) =
      set_parents-Kept nid idxs ys word
        (subst (λ (n : ℕ). InRange n idxs) (sym (length-SameCores ys xs one.cores)) inside)
        one.parents in
    (zs, rw ran more, record { cores = rest.cores ∙ one.cores; parents = rest.parents })

set_all_parents-Kept :
    (infos : List (ℕ × List ℕ)) (xs : List InodeInfo)
    → All (InfoInRange (length xs)) infos
    → All (λ (i : InodeInfo). HasParent i.data_) xs
    → (ys : List InodeInfo) × (set_all_parents infos xs ≡ ok ys) × Kept xs ys
unfolding set_all_parents
set_all_parents-Kept [] xs inside parents = (xs, refl, record { cores = refl; parents = parents })
set_all_parents-Kept ((nid, idxs) ∷ infos) xs ((word, first), inside) parents =
    let (ys, ran, one) = set_parents-Kept nid idxs xs word first parents in
    let (zs, more, rest) =
      set_all_parents-Kept infos ys
        (subst (λ (n : ℕ). All (InfoInRange n) infos) (sym (length-SameCores ys xs one.cores))
          inside)
        one.parents in
    (zs, rw ran more, record { cores = rest.cores ∙ one.cores; parents = rest.parents })

pub set_parent_nids-Kept :
    (xs : List InodeInfo)
    → 0 < length xs
    → All (λ (i : InodeInfo). HasChildren (length xs) i.data_) xs
    → All (λ (i : InodeInfo). IsU64 i.nid) xs
    → All (λ (i : InodeInfo). HasParent i.data_) xs
    → (ys : List InodeInfo) × (set_parent_nids xs ≡ ok ys) × Kept xs ys
unfolding set_parent_nids
set_parent_nids-Kept xs some_there children words parents =
    let (root, at) = inode_at-ok xs 0 some_there in
    let (ys, ran, one) =
      one_parent root.nid 0 xs (inode_at-All (λ (i : InodeInfo). IsU64 i.nid) xs 0 root words at)
        some_there parents in
    let children' : All (λ (i : InodeInfo). HasChildren (length ys) i.data_) ys =
      subst (λ (n : ℕ). All (λ (i : InodeInfo). HasChildren n i.data_) ys)
        (sym (length-SameCores ys xs one.cores))
        (All-SameCores (λ (i : InodeInfo). HasChildren (length xs) i.data_)
          (λ i. to_core-HasChildren (length xs) i.data_)
          (λ i. from_core-HasChildren (length xs) i.data_) ys xs one.cores children) in
    let words' : All (λ (i : InodeInfo). IsU64 i.nid) ys =
      All-SameCores (λ (i : InodeInfo). IsU64 i.nid) (λ i h. h) (λ i h. h) ys xs one.cores words in
    let (zs, more, rest) =
      set_all_parents-Kept (parent_infos ys) ys
        (parent_infos-InRange (length ys) ys children' words') one.parents in
    (zs, rw (at, ran) more, record { cores = rest.cores ∙ one.cores; parents = rest.parents })
