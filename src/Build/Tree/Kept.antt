-- ===== src/Build/Tree/Kept.antt =====
-- What the steps of `build_tree` keep of the inodes and the table of hard links.
use erofs_utils_rust.Base.{
  ℕ, zero, suc, ◌+◌, ◌≤◌, ◌<◌, ◌≡◌, inl, inr, refl, sym, ap, ◌∙◌, arith, [], ◌∷◌, ◌++◌, List, All,
  length, length-append, Bool-cases, some, none, u32, if◌then◌else◌, ◌==◌, ◌&&◌, IoResult, ok,
}
use mathlib.Core.Path.{subst}
use erofs_utils_rust.Build.BlobChunk.{BlobWriter}
use erofs_utils_rust.Build.Inode.{
  DirEntry, InodeInfo, InodeData, regular_file, directory, symlink, special_dev, special_no_data,
}
use erofs_utils_rust.Build.Tree.{
  FileMeta, is_linked, Building, get_link, push_inode, with_children, set_children, existing_link,
  insert_link,
}
use erofs_utils_rust.Mkfs.{update_at}
use erofs_utils_rust.Mkfs.Parents.{HasChildren}

abbrev pub InRange : ℕ → List DirEntry → Type 0
InRange n = All (λ (de : DirEntry). de.inode_idx < n)

-- The numbers count up from `k`, in 32 bits.
abbrev pub Numbers : ℕ → List InodeInfo → Type 0
Numbers k [] = Unit
Numbers k (i ∷ is) = (i.ino ≡ u32 k) × Numbers (k + 1) is

-- The children of directories and the targets of hard links are inodes of the list, and the inodes
-- are numbered from 1 in their order.
pub record IsBuilt (s : Building) : Type 0 where
  pub children : All (λ (i : InodeInfo). HasChildren (length s.inodes) i.data_) s.inodes
  pub links : All (λ (l : (ℕ × ℕ) × ℕ). l.1 < length s.inodes) s.hardlink_map
  pub numbers : Numbers 1 s.inodes
  pub counter : s.ino_counter ≡ u32 (length s.inodes)

All-map :
    {A : Type 0} (P Q : A → Type 0) → ((x : A) → P x → Q x) → (xs : List A) → All P xs → All Q xs
All-map P Q f [] a = tt
All-map P Q f (x ∷ xs) (p, a) = (f x p, All-map P Q f xs a)

All-append :
    {A : Type 0} (P : A → Type 0) (xs : List A) (x : A) → All P xs → P x → All P (xs ++ (x ∷ []))
All-append P [] x a p = (p, tt)
All-append P (y ∷ xs) x (q, a) p = (q, All-append P xs x a p)

HasChildren-le : (m n : ℕ) (d : InodeData) → m ≤ n → HasChildren m d → HasChildren n d
HasChildren-le m n (directory children startblk dir_data_size parent_nid) le h =
    All-map (λ (de : DirEntry). de.inode_idx < m) (λ (de : DirEntry). de.inode_idx < n)
      (λ de lt. omega arith) children h
HasChildren-le m n (regular_file cis) le h = tt
HasChildren-le m n (symlink target) le h = tt
HasChildren-le m n (special_dev rdev) le h = tt
HasChildren-le m n special_no_data le h = tt

Numbers-append :
    (k : ℕ) (is : List InodeInfo) (i : InodeInfo)
    → Numbers k is
    → i.ino ≡ u32 (k + length is)
    → Numbers k (is ++ (i ∷ []))
Numbers-append k [] i n e = (e ∙ omega arith, tt)
Numbers-append k (j ∷ is) i (first, n) e = (first, Numbers-append (k + 1) is i n (e ∙ omega arith))

pub push_inode-IsBuilt :
    (w : BlobWriter) (i : InodeInfo) (s : Building)
    → IsBuilt s
    → HasChildren (length s.inodes + 1) i.data_
    → i.ino ≡ u32 (s.ino_counter + 1)
    → IsBuilt (push_inode w i s) × (length (push_inode w i s).inodes ≡ length s.inodes + 1)
unfolding push_inode
push_inode-IsBuilt w i s b h e =
    let long : length (s.inodes ++ (i ∷ [])) ≡ length s.inodes + 1 =
      length-append s.inodes (i ∷ []) in
    (
      record {
        children =
            subst (λ (n : ℕ). All (λ (j : InodeInfo). HasChildren n j.data_) (s.inodes ++ (i ∷ [])))
              (sym long)
              (All-append (λ (j : InodeInfo). HasChildren (length s.inodes + 1) j.data_) s.inodes i
                (All-map (λ (j : InodeInfo). HasChildren (length s.inodes) j.data_)
                  (λ (j : InodeInfo). HasChildren (length s.inodes + 1) j.data_)
                  (λ j.
                    HasChildren-le (length s.inodes) (length s.inodes + 1) j.data_ (omega arith))
                  s.inodes b.children)
                h);
        links =
            All-map (λ (l : (ℕ × ℕ) × ℕ). l.1 < length s.inodes)
              (λ (l : (ℕ × ℕ) × ℕ). l.1 < length (s.inodes ++ (i ∷ [])))
              (λ l lt. omega (arith, long)) s.hardlink_map b.links;
        numbers = Numbers-append 1 s.inodes i b.numbers (e ∙ omega (arith, b.counter));
        counter = omega (arith, b.counter, long);
      },
      long,
    )

with_children-HasChildren :
    (n : ℕ) (cs : List DirEntry) (d : InodeData)
    → InRange n cs
    → HasChildren n d
    → HasChildren n (with_children cs d)
unfolding with_children
with_children-HasChildren n cs (directory children startblk dir_data_size parent_nid) a h = a
with_children-HasChildren n cs (regular_file cis) a h = tt
with_children-HasChildren n cs (symlink target) a h = tt
with_children-HasChildren n cs (special_dev rdev) a h = tt
with_children-HasChildren n cs special_no_data a h = tt

-- Setting the children of an inode that is there.
pub record SetChildren (is : List InodeInfo) (m : IoResult (List InodeInfo)) (n k : ℕ)
    : Type 0 where
  pub inodes : List InodeInfo
  pub ran : m ≡ ok inodes
  pub long : length inodes ≡ length is
  pub children : All (λ (j : InodeInfo). HasChildren n j.data_) inodes
  pub numbers : Numbers k inodes

pub update_at-SetChildren :
    (i n k : ℕ) (cs : List DirEntry) (is : List InodeInfo)
    → i < length is
    → InRange n cs
    → All (λ (j : InodeInfo). HasChildren n j.data_) is
    → Numbers k is
    → SetChildren is (update_at i (set_children cs) is) n k
unfolding update_at
update_at-SetChildren i n k cs [] lt range a b = absurd (omega arith)
update_at-SetChildren zero n k cs (j ∷ is) lt range (h, a) (first, b) = record {
  inodes = set_children cs j ∷ is;
  ran = refl;
  long = refl;
  children = (with_children-HasChildren n cs j.data_ range h, a);
  numbers = (first, b);
}
update_at-SetChildren (suc i) n k cs (j ∷ is) lt range (h, a) (first, b) =
    let rest = update_at-SetChildren i n (k + 1) cs is (omega arith) range a b in
    record {
      inodes = j ∷ rest.inodes;
      ran = rw rest.ran refl;
      long = ap suc rest.long;
      children = (h, rest.children);
      numbers = (first, rest.numbers);
    }

get_link-lt :
    (n : ℕ) (key : ℕ × ℕ) (links : List ((ℕ × ℕ) × ℕ)) (idx : ℕ)
    → All (λ (l : (ℕ × ℕ) × ℕ). l.1 < n) links
    → get_link key links ≡ some idx
    → idx < n
unfolding get_link
get_link-lt n key [] idx a e = cc
get_link-lt n key ((other, i) ∷ links) idx (lt, a) e =
    elim (Bool-cases ((other.0 == key.0) && (other.1 == key.1))) [
      | inl same ↦
          let found : some i ≡ some idx =
            subst (λ b. (if b then some i else get_link key links) ≡ some idx) same e in
          let index : i ≡ idx = cc in omega arith
      | inr different ↦
          get_link-lt n key links idx a
            (subst (λ b. (if b then some i else get_link key links) ≡ some idx) different e)
    ]

pub existing_link-lt :
    (n : ℕ) (meta : FileMeta) (links : List ((ℕ × ℕ) × ℕ)) (idx : ℕ)
    → All (λ (l : (ℕ × ℕ) × ℕ). l.1 < n) links
    → existing_link meta links ≡ some idx
    → idx < n
unfolding existing_link
existing_link-lt n meta links idx a e = elim (Bool-cases (is_linked meta)) [
  | inl linked ↦
      get_link-lt n (meta.dev, meta.ino) links idx a
        (subst (λ b. (if b then get_link (meta.dev, meta.ino) links else none) ≡ some idx) linked e)
  | inr single ↦
      let none_there : none ≡ some idx =
        subst (λ b. (if b then get_link (meta.dev, meta.ino) links else none) ≡ some idx) single
          e in
      cc
]

pub insert_link-IsBuilt :
    (meta : FileMeta) (idx : ℕ) (s : Building)
    → idx < length s.inodes
    → IsBuilt s
    → IsBuilt (insert_link meta idx s) × (length (insert_link meta idx s).inodes ≡ length s.inodes)
unfolding insert_link
insert_link-IsBuilt meta idx s lt b = elim (Bool-cases (is_linked meta)) [
  | inl linked ↦ rw linked (
    record {
      children = b.children;
      links = (lt, b.links);
      numbers = b.numbers;
      counter = b.counter;
    },
    refl,
  )
  | inr single ↦ rw single (b, refl)
]
