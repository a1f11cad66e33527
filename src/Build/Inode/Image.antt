-- ===== src/Build/Inode/Image.antt =====
-- The bytes of a serialized inode: the header with its xattr count, the xattr body, and the chunk
-- indexes or the target of a symbolic link.
use erofs_utils_rust.Base.{
  ℕ, ◌+◌, ◌-◌, ◌*◌, ◌^◌, ◌≤◌, ◌<◌, ◌≡◌, refl, sym, ap, ◌∙◌, arith, [], ◌∷◌, ◌++◌, append_assoc,
  append-nil, List, Bytes, zeros, drop, length, length-append, Bool, true, false, Bool-cases, inl,
  inr, ltb, ltb_false→le, if◌then◌else◌, u16, u32, sub64, shr, copy_at, copy_at-zeros,
  copy_at-zeros_then, copy_at-middle, IoResult, ok, ◌>>=◌,
}
use erofs_utils_rust.Metadata.Consts.{erofs_blkszbits}
use erofs_utils_rust.Metadata.LeBytes.{set_u16}
use erofs_utils_rust.Metadata.Chunk
use erofs_utils_rust.Metadata.Inode.{compact_i_format, extended_i_format}
use erofs_utils_rust.Metadata.Inode.RoundTrip.{compact_with, extended_with}
use erofs_utils_rust.Metadata.InodeCompact
use erofs_utils_rust.Metadata.InodeCompact.{ErofsInodeCompact}
use erofs_utils_rust.Metadata.InodeExtended
use erofs_utils_rust.Metadata.InodeExtended.{ErofsInodeExtended}
use erofs_utils_rust.Metadata.Xattr.{Xattr, xattr_ibody_size, xattr_icount}
use erofs_utils_rust.Metadata.Xattr.Sizes.{total_size}
use erofs_utils_rust.Build.BlobChunk.{ChunkIndex}
use erofs_utils_rust.Build.Inode.{
  InodeInfo, InodeData, regular_file, directory, symlink, special_dev, special_no_data, base_size,
  tail_size, inode_meta_size, chunk_format, serialize_xattrs, write_header, write_chunk_indexes,
  write_inode, serialize_inode,
}
use erofs_utils_rust.Build.Inode.XattrBody.{body_bytes, length-body_bytes, serialize_xattrs-eq}

-- What the header holds besides the fields of every inode.
pub record Kind : Type 0 where
  pub datalayout : ℕ
  pub nlink_1 : Bool
  pub nb : ℕ
  pub size : ℕ
  pub i_u : ℕ

-- By the kind of file: regular files are chunk-based, directories start at a block, symbolic links
-- are inline, and devices carry their number.
abbrev pub kind_of : InodeInfo → ℕ → InodeData → Kind
kind_of inode chunkbits (regular_file chunk_indexes) = record {
  datalayout = 4;
  nlink_1 = true;
  nb = 0;
  size = inode.size;
  i_u = chunk_format chunkbits erofs_blkszbits;
}
kind_of inode chunkbits (directory children startblk dir_data_size parent_nid) = record {
  datalayout = 0;
  nlink_1 = false;
  nb = u16 (shr startblk 32);
  size = inode.size;
  i_u = u32 startblk;
}
kind_of inode chunkbits (symlink target) = record {
  datalayout = 2;
  nlink_1 = true;
  nb = 0;
  size = inode.size;
  i_u = 0;
}
kind_of inode chunkbits (special_dev rdev) = record {
  datalayout = 0;
  nlink_1 = true;
  nb = 0;
  size = 0;
  i_u = rdev;
}
kind_of inode chunkbits special_no_data = record {
  datalayout = 0;
  nlink_1 = true;
  nb = 0;
  size = 0;
  i_u = 0;
}

abbrev pub compact_of : InodeInfo → ℕ → Kind → ErofsInodeCompact
compact_of inode epoch k =
    InodeCompact.new (compact_i_format k.datalayout k.nlink_1) inode.mode k.nb (u32 k.size)
      (u32 (sub64 inode.mtime epoch)) k.i_u inode.ino (u16 inode.uid) (u16 inode.gid)

abbrev pub extended_of : InodeInfo → Kind → ErofsInodeExtended
extended_of inode k =
    InodeExtended.new (extended_i_format k.datalayout) inode.mode k.nb k.size k.i_u inode.ino
      inode.uid inode.gid inode.mtime inode.mtime_nsec inode.nlink

-- The header with a count of xattr words.
abbrev pub header_bytes : InodeInfo → ℕ → Kind → ℕ → Bytes
header_bytes inode epoch k icount =
    if inode.is_extended
    then InodeExtended.as_bytes (extended_with (extended_of inode k) icount)
    else InodeCompact.as_bytes (compact_with (compact_of inode epoch k) icount)

abbrev pub index_bytes : List ChunkIndex → Bytes
index_bytes [] = []
index_bytes (ci ∷ chunk_indexes) =
    Chunk.as_bytes (Chunk.new ci.blkaddr ci.device_id) ++ index_bytes chunk_indexes

abbrev pub tail_bytes : InodeData → Bytes
tail_bytes (regular_file chunk_indexes) = index_bytes chunk_indexes
tail_bytes (directory children startblk dir_data_size parent_nid) = []
tail_bytes (symlink target) = target
tail_bytes (special_dev rdev) = []
tail_bytes special_no_data = []

abbrev pub icount_of : InodeInfo → ℕ
icount_of inode = xattr_icount (xattr_ibody_size inode.xattrs)

-- The whole inode.
abbrev pub inode_bytes : InodeInfo → ℕ → ℕ → Bytes
inode_bytes inode epoch chunkbits =
    header_bytes inode epoch (kind_of inode chunkbits inode.data_) (icount_of inode)
    ++ (body_bytes inode.xattrs ++ tail_bytes inode.data_)

pub length-header_bytes :
    (inode : InodeInfo) (epoch : ℕ) (k : Kind) (icount : ℕ)
    → length (header_bytes inode epoch k icount) ≡ base_size inode
unfolding base_size InodeCompact.as_bytes InodeCompact.new InodeExtended.as_bytes InodeExtended.new
length-header_bytes inode epoch k icount = elim (Bool-cases inode.is_extended) [
  | inl wide ↦ rw wide refl
  | inr narrow ↦ rw narrow refl
]

pub length-index_bytes : (cis : List ChunkIndex) → length (index_bytes cis) ≡ length cis * 8
length-index_bytes [] = refl
length-index_bytes (ci ∷ cis) = omega (
  arith,
  length-append (Chunk.as_bytes (Chunk.new ci.blkaddr ci.device_id)) (index_bytes cis),
  Chunk.length-as_bytes ci.blkaddr ci.device_id,
  length-index_bytes cis,
)

pub length-tail_bytes : (d : InodeData) → length (tail_bytes d) ≡ tail_size d
unfolding tail_size
length-tail_bytes (regular_file cis) = length-index_bytes cis
length-tail_bytes (directory children startblk dir_data_size parent_nid) = refl
length-tail_bytes (symlink target) = refl
length-tail_bytes (special_dev rdev) = refl
length-tail_bytes special_no_data = refl

write_chunk_indexes-eq :
    (front : Bytes) (off i room : ℕ) (cis : List ChunkIndex)
    → off + i * 8 ≡ length front
    → room ≡ length cis * 8
    → write_chunk_indexes (front ++ zeros room) off i cis ≡ ok (front ++ index_bytes cis)
unfolding write_chunk_indexes
write_chunk_indexes-eq front off i room [] at fits = ap ok (ap (λ (n : ℕ). front ++ zeros n) fits)
write_chunk_indexes-eq front off i room (ci ∷ cis) at fits =
    copy_at-zeros_then front piece (off + i * 8) room _ at (omega (arith, long))
    ∙ write_chunk_indexes-eq (front ++ piece) off (i + 1) (room - length piece) cis
        (omega (arith, length-append front piece, long)) (omega (arith, long))
    ∙ ap ok (append_assoc front piece (index_bytes cis))
  where
    piece : Bytes
    piece = Chunk.as_bytes (Chunk.new ci.blkaddr ci.device_id)

    long : length piece ≡ 8
    long = Chunk.length-as_bytes ci.blkaddr ci.device_id

copy_at_end :
    (front target : Bytes) (off : ℕ)
    → off ≡ length front
    → copy_at (front ++ zeros (length target)) off target ≡ ok (front ++ target)
copy_at_end front target off at =
    let none_left : length target - length target ≡ 0 = omega arith in
    copy_at-zeros front target off (length target) at (omega arith)
    ∙ ap ok (ap (λ (n : ℕ). (front ++ target) ++ zeros n) none_left ∙ append-nil (front ++ target))

-- A header at the front and the xattr body behind it, in a buffer of zeros.
with_header-eq :
    (h : Bytes) (base room : ℕ) (xattrs : List Xattr)
    → base ≡ length h
    → base + length (body_bytes xattrs) ≤ room
    → 12 + total_size xattrs < 2 ^ 63
    → (copy_at (zeros room) 0 h >>= λ (b : Bytes). serialize_xattrs b base xattrs)
      ≡ ok ((h ++ body_bytes xattrs) ++ zeros (room - base - length (body_bytes xattrs)))
with_header-eq h base room xattrs at fits small =
    copy_at-zeros_then [] h 0 room (λ (b : Bytes). serialize_xattrs b base xattrs) refl
      (omega arith)
    ∙ serialize_xattrs-eq h base (room - length h) xattrs at small (omega arith)
    ∙ ap (λ (n : ℕ). ok ((h ++ body_bytes xattrs) ++ zeros n)) (omega arith)

module _ (inode : InodeInfo) (epoch : ℕ) (small : 12 + total_size inode.xattrs < 2 ^ 63) where
  write_header-eq :
      (k : Kind) (room : ℕ)
      → base_size inode + length (body_bytes inode.xattrs) ≤ room
      → write_header (zeros room) inode epoch k.datalayout k.nlink_1 k.nb k.size k.i_u
        ≡ ok (
            (header_bytes inode epoch k 0 ++ body_bytes inode.xattrs)
            ++ zeros (room - base_size inode - length (body_bytes inode.xattrs)))
  unfolding write_header base_size InodeCompact.as_bytes InodeCompact.new InodeExtended.as_bytes
      InodeExtended.new
  write_header-eq k room fits = elim (Bool-cases inode.is_extended) [
    | inl wide ↦
        let b : base_size inode ≡ 64 = rw wide refl in
        rw wide (
          with_header-eq (InodeExtended.as_bytes (extended_of inode k)) 64 room inode.xattrs refl
            (omega arith) small)
    | inr narrow ↦
        let b : base_size inode ≡ 32 = rw narrow refl in
        rw narrow (
          with_header-eq (InodeCompact.as_bytes (compact_of inode epoch k)) 32 room inode.xattrs
            refl (omega arith) small)
  ]

  -- Where nothing follows the xattrs.
  no_tail :
      (k : Kind)
      → write_header
          (zeros (base_size inode + xattr_ibody_size inode.xattrs + 0))
          inode
          epoch
          k.datalayout
          k.nlink_1
          k.nb
          k.size
          k.i_u
        ≡ ok (header_bytes inode epoch k 0 ++ (body_bytes inode.xattrs ++ []))
  no_tail k =
      let room : base_size inode
            + xattr_ibody_size inode.xattrs
            + 0
            - base_size inode
            - length (body_bytes inode.xattrs)
          ≡ 0 =
        omega (arith, length-body_bytes inode.xattrs small) in
      write_header-eq k _ (omega (arith, length-body_bytes inode.xattrs small))
      ∙ ap ok (
          ap (λ (n : ℕ). (header_bytes inode epoch k 0 ++ body_bytes inode.xattrs) ++ zeros n) room
          ∙ append_assoc (header_bytes inode epoch k 0) (body_bytes inode.xattrs) [])

  -- Where `next` fills the rest of the buffer.
  with_tail :
      (k : Kind) (n : ℕ) (t : Bytes) (next : Bytes → IoResult Bytes)
      → ((front : Bytes)
          → length front ≡ base_size inode + xattr_ibody_size inode.xattrs
          → next (front ++ zeros n) ≡ ok (front ++ t))
      → (write_header
            (zeros (base_size inode + xattr_ibody_size inode.xattrs + n))
            inode
            epoch
            k.datalayout
            k.nlink_1
            k.nb
            k.size
            k.i_u
          >>= next)
        ≡ ok (header_bytes inode epoch k 0 ++ (body_bytes inode.xattrs ++ t))
  with_tail k n t next fill =
      let front : Bytes = header_bytes inode epoch k 0 ++ body_bytes inode.xattrs in
      let room : base_size inode
            + xattr_ibody_size inode.xattrs
            + n
            - base_size inode
            - length (body_bytes inode.xattrs)
          ≡ n =
        omega (arith, length-body_bytes inode.xattrs small) in
      ap (λ (m : IoResult Bytes). m >>= next)
        (write_header-eq k _ (omega (arith, length-body_bytes inode.xattrs small)))
      ∙ ap (λ (m : ℕ). next (front ++ zeros m)) room
      ∙ fill front (
          omega (
            arith,
            length-append (header_bytes inode epoch k 0) (body_bytes inode.xattrs),
            length-header_bytes inode epoch k 0,
            length-body_bytes inode.xattrs small,
          ))
      ∙ ap ok (append_assoc (header_bytes inode epoch k 0) (body_bytes inode.xattrs) t)

  write_inode-eq :
      (chunkbits : ℕ) (d : InodeData)
      → write_inode
          (zeros (base_size inode + xattr_ibody_size inode.xattrs + tail_size d))
          inode
          epoch
          chunkbits
          d
        ≡ ok (
            header_bytes inode epoch (kind_of inode chunkbits d) 0
            ++ (body_bytes inode.xattrs ++ tail_bytes d))
  unfolding write_inode tail_size
  write_inode-eq chunkbits (regular_file cis) =
      with_tail (kind_of inode chunkbits (regular_file cis)) (length cis * 8) (index_bytes cis) _
        (λ front at. write_chunk_indexes-eq front _ 0 (length cis * 8) cis (omega arith) refl)
  write_inode-eq chunkbits (directory children startblk dir_data_size parent_nid) =
      no_tail (kind_of inode chunkbits (directory children startblk dir_data_size parent_nid))
  write_inode-eq chunkbits (symlink target) =
      with_tail (kind_of inode chunkbits (symlink target)) (length target) target _
        (λ front at. copy_at_end front target _ (sym at))
  write_inode-eq chunkbits (special_dev rdev) = no_tail (kind_of inode chunkbits (special_dev rdev))
  write_inode-eq chunkbits special_no_data = no_tail (kind_of inode chunkbits special_no_data)

  -- The count goes over the two zeros of the header.
  set_count :
      (k : Kind) (icount : ℕ) (rest : Bytes)
      → copy_at (header_bytes inode epoch k 0 ++ rest) 2 (set_u16 icount)
        ≡ ok (header_bytes inode epoch k icount ++ rest)
  unfolding InodeCompact.as_bytes InodeCompact.new InodeExtended.as_bytes InodeExtended.new
  set_count k icount rest = elim (Bool-cases inode.is_extended) [
    | inl wide ↦ rw wide (
        copy_at-middle (set_u16 (extended_i_format k.datalayout)) (zeros 2)
          (drop 4 (InodeExtended.as_bytes (extended_of inode k) ++ rest)) (set_u16 icount) 2 refl
          refl)
    | inr narrow ↦ rw narrow (
        copy_at-middle (set_u16 (compact_i_format k.datalayout k.nlink_1)) (zeros 2)
          (drop 4 (InodeCompact.as_bytes (compact_of inode epoch k) ++ rest)) (set_u16 icount) 2
          refl refl)
  ]

  counted :
      (k : Kind) (icount : ℕ) (rest : Bytes)
      → (if ltb 0 icount
          then copy_at (header_bytes inode epoch k 0 ++ rest) 2 (set_u16 icount)
          else ok (header_bytes inode epoch k 0 ++ rest))
        ≡ ok (header_bytes inode epoch k icount ++ rest)
  counted k icount rest = elim (Bool-cases (ltb 0 icount)) [
    | inl more ↦ rw more (set_count k icount rest)
    | inr done ↦
        let nothing : 0 ≡ icount = omega (arith, ltb_false→le 0 icount done) in
        rw done (ap (λ (c : ℕ). ok (header_bytes inode epoch k c ++ rest)) nothing)
  ]

  -- `serialize_inode` does not panic, and fills its buffer with the header, the xattrs and the tail.
  pub serialize_inode-eq :
      (chunkbits : ℕ)
      → serialize_inode inode epoch chunkbits ≡ ok (inode_bytes inode epoch chunkbits)
  unfolding serialize_inode inode_meta_size
  serialize_inode-eq chunkbits =
      ap
        (λ (m : IoResult Bytes). m >>= λ (b : Bytes).
          if ltb 0 (icount_of inode) then copy_at b 2 (set_u16 (icount_of inode)) else ok b)
        (write_inode-eq chunkbits inode.data_)
      ∙ counted (kind_of inode chunkbits inode.data_) (icount_of inode) _

  pub length-inode_bytes :
      (chunkbits : ℕ) → length (inode_bytes inode epoch chunkbits) ≡ inode_meta_size inode
  unfolding inode_meta_size
  length-inode_bytes chunkbits = omega (
    arith,
    length-append header (body_bytes inode.xattrs ++ tail_bytes inode.data_),
    length-append (body_bytes inode.xattrs) (tail_bytes inode.data_),
    length-header_bytes inode epoch (kind_of inode chunkbits inode.data_) (icount_of inode),
    length-body_bytes inode.xattrs small,
    length-tail_bytes inode.data_,
  )
    where
      header : Bytes
      header = header_bytes inode epoch (kind_of inode chunkbits inode.data_) (icount_of inode)
