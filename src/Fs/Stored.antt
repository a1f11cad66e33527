-- ===== src/Fs/Stored.antt =====
-- Reading an inode that an image holds as the builder serialized it: its fields, its xattrs, and
-- the target of a symbolic link.
pub mod Chunks
pub mod Files
use erofs_utils_rust.Base.{
  ℕ, ◌+◌, ◌-◌, ◌*◌, ◌^◌, ◌≤◌, ◌<◌, ◌≡◌, refl, sym, ap, ◌∙◌, arith, [], ◌∷◌, ◌++◌, append_assoc,
  append-nil, List, map, Bytes, take, drop, length, length-append, take-append_front, All,
  Bool-cases, inl, inr, true, false, ◌==◌, ◌&&◌, ltb, if◌then◌else◌, add64, IoResult, ok, ◌>>=◌,
}
use mathlib.Core.Path.{subst}
use erofs_utils_rust.Metadata.Inode
use erofs_utils_rust.Metadata.Inode.{ErofsInode}
use erofs_utils_rust.Metadata.Xattr.{Xattr, xattr_ibody_size}
use erofs_utils_rust.Metadata.Xattr.Sizes.{total_size, xattr_ibody_size-cons}
use erofs_utils_rust.Build.Inode.{InodeInfo, InodeData, symlink, base_size, serialize_inode}
use erofs_utils_rust.Build.Inode.XattrBody.{body_bytes, length-body_bytes}
use erofs_utils_rust.Build.Inode.Image.{
  Kind, kind_of, header_bytes, tail_bytes, icount_of, inode_bytes, length-header_bytes,
  serialize_inode-eq,
}
use erofs_utils_rust.Build.Inode.RoundTrip.{
  IsInode, Reads, view_of, cast-header_bytes, view_of-Reads,
}
use erofs_utils_rust.Fs.Reader.{ErofsReader, nid_to_offset, inode, mmap_slice}
use erofs_utils_rust.Fs.Reader.Holds.{Holds, split-Holds, part-Holds, mmap_slice-Holds}
use erofs_utils_rust.Fs.Reader.Open.{checked_slice-ok}
use erofs_utils_rust.Fs.Flat.{
  blocks_size_of, spans, read_flat_data_vec, read_flat_data, read_inline_layout, inline_region,
  full_header_size, read_symlink,
}
use erofs_utils_rust.Fs.Xattrs.{read_body, read_xattrs}
use erofs_utils_rust.Fs.Xattrs.RoundTrip.{IsXattr, listed, read_body-body_bytes}

xattr_ibody_size-nil : xattr_ibody_size [] ≡ 0
unfolding xattr_ibody_size
xattr_ibody_size-nil = refl

-- The image of a reader holds the bytes at the place of the nid, and 64 bytes can be read there.
pub record IsStored (r : ErofsReader) (nid : ℕ) (bytes : Bytes) : Type 0 where
  pub offset : ℕ
  pub located : nid_to_offset r nid ≡ ok offset
  pub held : Holds r.mmap offset bytes
  pub wide : offset + 64 ≤ length r.mmap
  pub small : length r.mmap < 2 ^ 64

ok-injective : {A : Type 0} {x y : A} → ok x ≡ ok y → x ≡ y
ok-injective h = cc

-- The inline data of an inode that is shorter than a block.
no_blocks : (n : ℕ) → n < 4096 → blocks_size_of n ≡ 0
unfolding blocks_size_of
no_blocks n h = ground arith

inline_data :
    (r : ErofsReader) (nid offset : ℕ) (v : ErofsInode) (bytes : Bytes)
    → nid_to_offset r nid ≡ ok offset
    → Inode.data_layout v ≡ 2
    → Inode.size v ≡ length bytes
    → length bytes < 4096
    → Holds r.mmap (offset + (Inode.header_size v + Inode.xattr_size v)) bytes
    → length r.mmap < 2 ^ 64
    → read_symlink r nid v ≡ ok bytes
unfolding read_symlink read_flat_data_vec read_flat_data read_inline_layout inline_region
    full_header_size spans
inline_data r nid offset v bytes located layout size short held small =
    let place : add64 (add64 offset (Inode.header_size v + Inode.xattr_size v)) 0
        ≡ offset + (Inode.header_size v + Inode.xattr_size v) =
      omega (arith, held.room) in
    rw (layout, size, no_blocks (length bytes) short, located, place)
      (mmap_slice-Holds r bytes _ (length bytes) held small refl)

module _ (r : ErofsReader) (nid c epoch : ℕ) (info : InodeInfo) (valid : IsInode info)
    (few : c < 32) (stored : IsStored r nid (inode_bytes info epoch (12 + c))) where
  abbrev k_of : Kind
  k_of = kind_of info (12 + c) info.data_

  length-header : length (header_bytes info epoch k_of (icount_of info)) ≤ 64
  unfolding base_size
  length-header = elim (Bool-cases info.is_extended) [
    | inl wide ↦
        let size : base_size info ≡ 64 = rw wide refl in
        omega (arith, length-header_bytes info epoch k_of (icount_of info))
    | inr narrow ↦
        let size : base_size info ≡ 32 = rw narrow refl in
        omega (arith, length-header_bytes info epoch k_of (icount_of info))
  ]

  pub inode-stored : inode r nid ≡ ok (view_of info epoch (12 + c))
  unfolding inode mmap_slice
  inode-stored = rw stored.located (
      ap (λ (m : IoResult Bytes). m >>= Inode.cast)
        (checked_slice-ok r.mmap stored.offset 64 stored.wide
            (omega (arith, stored.wide, stored.small))
          ∙ ap ok (
              ap (take 64) (
                split-Holds r.mmap (inode_bytes info epoch (12 + c)) stored.offset stored.held
                ∙ append_assoc (header_bytes info epoch k_of (icount_of info)) _ _)
              ∙ take-append_front (header_bytes info epoch k_of (icount_of info)) _ 64
                  length-header))
      ∙ cast-header_bytes c few info valid epoch _)

  abbrev v_of : ErofsInode
  v_of = view_of info epoch (12 + c)

  reads : Reads (view_of info epoch (12 + c)) info k_of
  reads = view_of-Reads c few info valid epoch

  -- Where the parts behind the header stand.
  body_at : Holds r.mmap (stored.offset + base_size info) (body_bytes info.xattrs)
  body_at =
      subst (λ (n : ℕ). Holds r.mmap (stored.offset + n) (body_bytes info.xattrs))
        (length-header_bytes info epoch k_of (icount_of info))
        (part-Holds r.mmap (header_bytes info epoch k_of (icount_of info)) (body_bytes info.xattrs)
          (tail_bytes info.data_) stored.offset stored.held)

  pub tail_at :
      Holds r.mmap
        (stored.offset + (base_size info + xattr_ibody_size info.xattrs))
        (tail_bytes info.data_)
  tail_at =
      subst (λ (n : ℕ). Holds r.mmap (stored.offset + n) (tail_bytes info.data_))
        (omega (
          arith,
          length-append (header_bytes info epoch k_of (icount_of info)) (body_bytes info.xattrs),
          length-header_bytes info epoch k_of (icount_of info),
          length-body_bytes info.xattrs (omega (arith, valid.xattrs_fit)),
        ))
        (part-Holds r.mmap (header_bytes info epoch k_of (icount_of info) ++ body_bytes info.xattrs)
          (tail_bytes info.data_) [] stored.offset
          (subst (Holds r.mmap stored.offset) (simp (append_assoc, append-nil)) stored.held))

  -- `read_xattrs` lists the xattrs of the inode.
  pub read_xattrs-stored :
      All IsXattr info.xattrs → read_xattrs r nid v_of ≡ ok (map listed info.xattrs)
  unfolding read_xattrs
  read_xattrs-stored fit = by_list info.xattrs body_at fit valid.xattrs_fit reads.xattr_size
    where
      by_list :
          (xattrs : List Xattr)
          → Holds r.mmap (stored.offset + base_size info) (body_bytes xattrs)
          → All IsXattr xattrs
          → 12 + total_size xattrs ≤ 8 + 4 * 65535
          → Inode.xattr_size (view_of info epoch (12 + c)) ≡ xattr_ibody_size xattrs
          → read_xattrs r nid (view_of info epoch (12 + c)) ≡ ok (map listed xattrs)
      by_list [] at fit small size =
          let none_there : Inode.xattr_size (view_of info epoch (12 + c)) ≡ 0 =
            size ∙ xattr_ibody_size-nil in
          rw none_there refl
      by_list (x ∷ xattrs) at fit small size =
          let long : length (body_bytes (x ∷ xattrs)) ≡ xattr_ibody_size (x ∷ xattrs) =
            length-body_bytes (x ∷ xattrs) (omega arith) in
          let sum : xattr_ibody_size (x ∷ xattrs) ≡ 12 + total_size (x ∷ xattrs) =
            xattr_ibody_size-cons x xattrs (omega arith) in
          let some_there : (Inode.xattr_size (view_of info epoch (12 + c)) == 0) ≡ false =
            ground (arith, size, sum) in
          let place : add64 stored.offset (Inode.header_size (view_of info epoch (12 + c)))
              ≡ stored.offset + base_size info =
            omega (arith, reads.header_size, at.room, stored.small) in
          rw (some_there, stored.located, place)
            (ap (λ (m : IoResult Bytes). m >>= read_body)
                (mmap_slice-Holds r (body_bytes (x ∷ xattrs)) (stored.offset + base_size info) _ at
                  stored.small (size ∙ sym long))
              ∙ read_body-body_bytes x xattrs (omega arith) fit)

  -- A symbolic link is read as its target, if that is shorter than a block and the size is its
  -- length.
  pub read_symlink-stored :
      (target : Bytes)
      → info.data_ ≡ symlink target
      → info.size ≡ length target
      → length target < 4096
      → read_symlink r nid v_of ≡ ok target
  read_symlink-stored target e long short =
      let size : Inode.size (view_of info epoch (12 + c)) ≡ length target =
        reads.size ∙ ap (λ (d : InodeData). Kind.size (kind_of info (12 + c) d)) e ∙ long in
      let layout : Inode.data_layout (view_of info epoch (12 + c)) ≡ 2 =
        reads.data_layout ∙ ap (λ (d : InodeData). Kind.datalayout (kind_of info (12 + c) d)) e in
      let held : Holds r.mmap (stored.offset + (base_size info + xattr_ibody_size info.xattrs))
          target =
        subst
          (λ (d : InodeData).
            Holds r.mmap (stored.offset + (base_size info + xattr_ibody_size info.xattrs))
              (tail_bytes d))
          e tail_at in
      inline_data r nid stored.offset _ target stored.located layout size short
        (subst (λ (n : ℕ). Holds r.mmap (stored.offset + n) target)
          (omega (arith, reads.header_size, reads.xattr_size)) held)
        stored.small

-- The same for whatever `serialize_inode` returned.
pub IsStored-bytes :
    (r : ErofsReader) (nid c epoch : ℕ) (info : InodeInfo) (b : Bytes)
    → IsInode info
    → serialize_inode info epoch (12 + c) ≡ ok b
    → IsStored r nid b
    → IsStored r nid (inode_bytes info epoch (12 + c))
IsStored-bytes r nid c epoch info b valid made stored =
    subst (IsStored r nid)
      (ok-injective
        (sym made ∙ serialize_inode-eq info epoch (omega (arith, valid.xattrs_fit)) (12 + c)))
      stored

-- If an image below 2^64 bytes holds an inode, whose values fit its fields and each of whose xattrs
-- has a suffix below 256 bytes and a value below 65536 bytes, at its nid as `serialize_inode` wrote
-- it, with 64 bytes to read there, then reading the inode and its xattrs returns exactly the
-- inode's xattrs in their order, each with its full name and its value.
pub read_xattrs-serialize_inode :
    (r : ErofsReader) (nid c epoch : ℕ) (info : InodeInfo) (b : Bytes)
    → c < 32
    → IsInode info
    → All IsXattr info.xattrs
    → serialize_inode info epoch (12 + c) ≡ ok b
    → IsStored r nid b
    → (inode r nid >>= read_xattrs r nid) ≡ ok (map listed info.xattrs)
read_xattrs-serialize_inode r nid c epoch info b few valid fit made stored =
    let there = IsStored-bytes r nid c epoch info b valid made stored in
    ap (λ (m : IoResult ErofsInode). m >>= read_xattrs r nid)
      (inode-stored r nid c epoch info valid few there)
    ∙ read_xattrs-stored r nid c epoch info valid few there fit

-- If an image below 2^64 bytes holds the inode of a symbolic link, whose values fit its fields and
-- whose size is the length of a target shorter than a block, at its nid as `serialize_inode` wrote
-- it, with 64 bytes to read there, then reading the inode and the link returns the target.
pub read_symlink-serialize_inode :
    (r : ErofsReader) (nid c epoch : ℕ) (info : InodeInfo) (b target : Bytes)
    → c < 32
    → IsInode info
    → info.data_ ≡ symlink target
    → info.size ≡ length target
    → length target < 4096
    → serialize_inode info epoch (12 + c) ≡ ok b
    → IsStored r nid b
    → (inode r nid >>= read_symlink r nid) ≡ ok target
read_symlink-serialize_inode r nid c epoch info b target few valid e long short made stored =
    let there = IsStored-bytes r nid c epoch info b valid made stored in
    ap (λ (m : IoResult ErofsInode). m >>= read_symlink r nid)
      (inode-stored r nid c epoch info valid few there)
    ∙ read_symlink-stored r nid c epoch info valid few there target e long short
