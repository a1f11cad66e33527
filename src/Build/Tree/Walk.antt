-- ===== src/Build/Tree/Walk.antt =====
-- What the walk of `build_tree` keeps.
use erofs_utils_rust.Base.{
  ℕ, ◌+◌, ◌≤◌, ◌<◌, ◌≡◌, inl, inr, refl, sym, ap, ◌∙◌, arith, [], ◌∷◌, List, Bytes, All, length,
  Bool-cases, Option-cases, some, u32, ◌||◌, IoResult, ok, ok_first, ◌>>=◌,
}
use mathlib.Core.Path.{subst}
use erofs_utils_rust.Build.BlobChunk.{BlobWriter, write_file_chunks}
use erofs_utils_rust.Build.Inode.{
  DirEntry, InodeInfo, InodeData, regular_file, directory, symlink, special_dev, special_no_data,
}
use erofs_utils_rust.Build.Tree.{
  FileMeta, Answers, Node, gone, node, Entries, nil, entry, sorted, is_dir, is_kind, Building,
  new_inode, push_inode, set_children, existing_link, insert_link, unless_linked,
  read_xattrs_from_path, leaf_data, build_tree_recursive, build_children, build_tree,
}
use erofs_utils_rust.Mkfs.{update_at}
use erofs_utils_rust.Mkfs.Parents.{HasChildren}
use erofs_utils_rust.Build.Tree.Kept.{
  InRange, Numbers, IsBuilt, push_inode-IsBuilt, update_at-SetChildren, existing_link-lt,
  insert_link-IsBuilt,
}

-- The walk of a file adds its inode at the end, and inodes below it behind that.
record Walked (s s' : Building) (idx : ℕ) : Type 0 where
  valid : IsBuilt s'
  index : idx ≡ length s.inodes
  grows : length s.inodes < length s'.inodes

record WalkedAll (s s' : Building) (children : List DirEntry) : Type 0 where
  valid : IsBuilt s'
  grows : length s.inodes ≤ length s'.inodes
  range : InRange (length s'.inodes) children

pair_eq :
    {A B : Type 0} {a a' : A} {b b' : B}
    → ◌≡◌ {A = IoResult (A × B)} (ok (a, b)) (ok (a', b'))
    → (a ≡ a') × (b ≡ b')
pair_eq h = (cc, cc)

push_inode-Walked :
    (w : BlobWriter) (i : InodeInfo) (s s' : Building) (idx : ℕ)
    → IsBuilt s
    → HasChildren (length s.inodes + 1) i.data_
    → i.ino ≡ u32 (s.ino_counter + 1)
    → ◌≡◌ {A = IoResult (Building × ℕ)} (ok (push_inode w i s, length s.inodes)) (ok (s', idx))
    → Walked s s' idx
push_inode-Walked w i s s' idx b h e last =
    let (same, same_idx) = pair_eq last in
    let (pushed, one) = push_inode-IsBuilt w i s b h e in
    record {
      valid = subst IsBuilt same pushed;
      index = sym same_idx;
      grows = subst (λ (x : Building). length s.inodes < length x.inodes) same (omega (arith, one));
    }

set_children-Walked :
    (children : List DirEntry) (s s₁ s' : Building) (idx : ℕ)
    → IsBuilt s₁
    → length s.inodes < length s₁.inodes
    → InRange (length s₁.inodes) children
    → ◌>>=◌ {B = Building × ℕ}
        (update_at (length s.inodes) (set_children children) s₁.inodes)
        (λ (inodes : List InodeInfo). ok (record s₁ { inodes = inodes }, length s.inodes))
      ≡ ok (s', idx)
    → Walked s s' idx
set_children-Walked children s s₁ s' idx b lt range ran =
    let set =
      update_at-SetChildren (length s.inodes) (length s₁.inodes) 1 children s₁.inodes lt range
        b.children b.numbers in
    let (same, same_idx) = pair_eq (
      subst
        (λ (m : IoResult (List InodeInfo)).
          ◌>>=◌ {B = Building × ℕ} m
            (λ (inodes : List InodeInfo). ok (record s₁ { inodes = inodes }, length s.inodes))
          ≡ ok (s', idx))
        set.ran ran) in
    record {
      valid = subst IsBuilt same (record {
        children =
            subst (λ (n : ℕ). All (λ (j : InodeInfo). HasChildren n j.data_) set.inodes)
              (sym set.long) set.children;
        links =
            subst (λ (n : ℕ). All (λ (l : (ℕ × ℕ) × ℕ). l.1 < n) s₁.hardlink_map) (sym set.long)
              b.links;
        numbers = set.numbers;
        counter = b.counter ∙ ap u32 (sym set.long);
      });
      index = sym same_idx;
      grows =
          subst (λ (x : Building). length s.inodes < length x.inodes) same
            (omega (arith, set.long));
    }

-- A child that is walked, or linked to.
record HasChild (s s' : Building) (idx : ℕ) : Type 0 where
  valid : IsBuilt s'
  grows : length s.inodes ≤ length s'.inodes
  inside : idx < length s'.inodes

insert_link-HasChild :
    (meta : FileMeta) (s s₁ s' : Building) (i idx : ℕ)
    → Walked s s₁ i
    → ◌≡◌ {A = IoResult (Building × ℕ)} (ok (insert_link meta i s₁, i)) (ok (s', idx))
    → HasChild s s' idx
insert_link-HasChild meta s s₁ s' i idx one last =
    let (same, same_idx) = pair_eq last in
    let (linked, long) =
      insert_link-IsBuilt meta i s₁ (omega (arith, one.index, one.grows)) one.valid in
    record {
      valid = subst IsBuilt same linked;
      grows =
          subst (λ (x : Building). length s.inodes ≤ length x.inodes) same
            (omega (arith, long, one.grows));
      inside =
          subst (λ (x : Building). idx < length x.inodes) same
            (omega (arith, long, one.grows, one.index, same_idx));
    }

existing_link-HasChild :
    (meta : FileMeta) (s s' : Building) (i idx : ℕ)
    → IsBuilt s
    → existing_link meta s.hardlink_map ≡ some i
    → ◌≡◌ {A = IoResult (Building × ℕ)} (ok (s, i)) (ok (s', idx))
    → HasChild s s' idx
existing_link-HasChild meta s s' i idx b linked last =
    let (same, same_idx) = pair_eq last in
    let lt = existing_link-lt (length s.inodes) meta s.hardlink_map i b.links linked in
    record {
      valid = subst IsBuilt same b;
      grows = subst (λ (x : Building). length s.inodes ≤ length x.inodes) same (omega arith);
      inside = subst (λ (x : Building). idx < length x.inodes) same (omega (arith, lt, same_idx));
    }

child_then_rest :
    (de : DirEntry) (s s₁ s₂ s' : Building) (rest children : List DirEntry)
    → HasChild s s₁ de.inode_idx
    → WalkedAll s₁ s₂ rest
    → ◌≡◌ {A = IoResult (Building × List DirEntry)} (ok (s₂, de ∷ rest)) (ok (s', children))
    → WalkedAll s s' children
child_then_rest de s s₁ s₂ s' rest children one all last =
    let (same, same_children) = pair_eq last in
    record {
      valid = subst IsBuilt same all.valid;
      grows =
          subst (λ (x : Building). length s.inodes ≤ length x.inodes) same
            (omega (arith, one.grows, all.grows));
      range =
          subst (λ (x : Building). InRange (length x.inodes) children) same
            (subst (InRange (length s₂.inodes)) same_children
              (omega (arith, one.inside, all.grows), all.range));
    }

module _ (hash : Bytes → Bytes) (lossy : Bytes → Bytes) where
  -- A file that is no directory has no children.
  leaf_data-HasChildren :
      (n : ℕ) (meta : FileMeta) (answers : Answers) (w w' : BlobWriter) (d : InodeData) (size : ℕ)
      → leaf_data hash lossy meta answers w ≡ ok (w', d, size)
      → HasChildren n d
  unfolding leaf_data
  leaf_data-HasChildren n meta answers w w' d size = elim (Bool-cases (is_kind 0o100000 meta)) [
    | inl file ↦ rw file (λ ran.
        let ((w₁, cis), wrote, last) =
          ok_first _ (write_file_chunks hash w answers.opened meta.size) ran in
        let same : regular_file cis ≡ d = cc in subst (HasChildren n) same tt)
    | inr other ↦ rw other (elim (Bool-cases (is_kind 0o120000 meta)) [
      | inl link ↦ rw link (λ ran.
          let (target, read, last) = ok_first _ answers.link ran in
          let same : symlink target ≡ d = cc in subst (HasChildren n) same tt)
      | inr special ↦
          rw special (elim (Bool-cases (is_kind 0o020000 meta || is_kind 0o060000 meta)) [
            | inl device ↦ rw device (λ ran.
                let same : special_dev (u32 meta.rdev) ≡ d = cc in subst (HasChildren n) same tt)
            | inr plain ↦
                rw plain
                  (λ ran. let same : special_no_data ≡ d = cc in subst (HasChildren n) same tt)
          ])
    ])
  ]

  mutual
    unfolding build_tree_recursive new_inode unless_linked

    build_tree_recursive-Walked :
        (file : Node) (s s' : Building) (idx : ℕ)
        → IsBuilt s
        → build_tree_recursive hash lossy file s ≡ ok (s', idx)
        → Walked s s' idx
    build_tree_recursive-Walked (gone e) s s' idx b = λ ran. cc
    build_tree_recursive-Walked (node meta answers entries) s s' idx b =
        elim (Bool-cases (is_dir meta)) [
          | inl dir ↦ rw dir (λ ran.
              let (done, listed, walking) = ok_first _ answers.listed ran in
              let (pushed, one) =
                push_inode-IsBuilt s.blob_writer
                  (new_inode meta (read_xattrs_from_path answers.xattrs) (u32 (s.ino_counter + 1))
                    (directory [] 0 0 0) 0)
                  s b tt refl in
              let ((s₁, children), walked, next) = ok_first _ _ walking in
              let all = build_children-WalkedAll entries _ s₁ children pushed walked in
              set_children-Walked children s s₁ s' idx all.valid (omega (arith, one, all.grows))
                all.range next)
          | inr other ↦ rw other (λ ran.
              let ((w, d, size), leaf, last) =
                ok_first _ (leaf_data hash lossy meta answers s.blob_writer) ran in
              push_inode-Walked w _ s s' idx b
                (leaf_data-HasChildren (length s.inodes + 1) meta answers s.blob_writer w d size
                  leaf)
                refl last)
        ]

    build_children-WalkedAll :
        (entries : Entries) (s s' : Building) (children : List DirEntry)
        → IsBuilt s
        → build_children hash lossy entries s ≡ ok (s', children)
        → WalkedAll s s' children
    build_children-WalkedAll nil s s' children b = λ ran.
        let (same, none_there) = pair_eq ran in
        record {
          valid = subst IsBuilt same b;
          grows = subst (λ (x : Building). length s.inodes ≤ length x.inodes) same (omega arith);
          range = subst (InRange (length s'.inodes)) none_there tt;
        }
    build_children-WalkedAll (entry name (gone e) entries) s s' children b = λ ran. cc
    build_children-WalkedAll (entry name (node meta answers inside) entries) s s' children b =
        λ ran.
          let ((s₁, child_idx), found, next) =
            ok_first _ (unless_linked (existing_link meta s.hardlink_map) s _) ran in
          let ((s₂, rest), others, last) = ok_first _ (build_children hash lossy entries s₁) next in
          let child : (unless_linked (existing_link meta s.hardlink_map) s (
                  build_tree_recursive hash lossy (node meta answers inside) s
                  >>= λ (x : Building × ℕ). ok (insert_link meta x.1 x.0, x.1))
                ≡ ok (s₁, child_idx))
              → HasChild s s₁ child_idx =
            elim (Option-cases (existing_link meta s.hardlink_map)) [
              | inl new ↦ rw new (λ there.
                  let ((built, idx), walked, last) =
                    ok_first _ (build_tree_recursive hash lossy (node meta answers inside) s)
                      there in
                  let one =
                    build_tree_recursive-Walked (node meta answers inside) s built idx b walked in
                  insert_link-HasChild meta s built s₁ idx child_idx one last)
              | inr (idx, linked) ↦
                  rw linked (λ there. existing_link-HasChild meta s s₁ idx child_idx b linked there)
            ] in
          let one = child found in
          let all = build_children-WalkedAll entries s₁ s₂ rest one.valid others in
          child_then_rest _ s s₁ s₂ s' rest children one all last

  -- For any hash, any way to make names UTF-8 and any tree of files, if `build_tree` returns
  -- inodes, then there is at least one, every child of every directory, whether it was walked or
  -- found in the table of hard links, is the index of one of them, and they are numbered from 1 in
  -- their order, in 32 bits.
  pub build_tree-IsBuilt :
      (source : Node) (w w' : BlobWriter) (inodes : List InodeInfo)
      → build_tree hash lossy source w ≡ ok (w', inodes)
      → (0 < length inodes)
        × All (λ (i : InodeInfo). HasChildren (length inodes) i.data_) inodes
        × Numbers 1 inodes
  unfolding build_tree
  build_tree-IsBuilt source w w' inodes ran =
      let ((s, root), walked, last) =
        ok_first _ (build_tree_recursive hash lossy (sorted source) _) ran in
      let one =
        build_tree_recursive-Walked (sorted source)
          (record { blob_writer = w; inodes = []; ino_counter = 0; hardlink_map = [] }) s root
          (record { children = tt; links = tt; numbers = tt; counter = refl }) walked in
      let (same, same_inodes) = pair_eq last in
      subst
        (λ (is : List InodeInfo).
          (0 < length is)
          × All (λ (i : InodeInfo). HasChildren (length is) i.data_) is
          × Numbers 1 is)
        same_inodes (omega (arith, one.grows), one.valid.children, one.valid.numbers)
