-- ===== src/Build/Inode/RoundTrip.antt =====
-- The reader's view of a serialized inode.
use erofs_utils_rust.Base.{
  ℕ, ◌+◌, ◌*◌, ◌^◌, ◌≤◌, ◌<◌, ◌≡◌, refl, sym, ap, ◌∙◌, arith, ◌++◌, append_assoc, append-nil, [],
  Bytes, false, Bool-cases, inl, inr, if◌then◌else◌, IsU16, IsU32, IsU64, u16, u32, sub64, add64,
  bit_or, IoResult, ok, map_ok, ◌>>=◌,
}
use erofs_utils_rust.Base.Bits.{bit_or_sum}
use erofs_utils_rust.Metadata.LeBytes.{get_u32-set_u32}
use erofs_utils_rust.Metadata.Inode
use erofs_utils_rust.Metadata.Inode.{ErofsInode, compact, extended}
use erofs_utils_rust.Metadata.Inode.RoundTrip.{
  compact_with, extended_with, cast-compact, compact_fields, cast-extended, extended_fields,
}
use erofs_utils_rust.Metadata.InodeCompact
use erofs_utils_rust.Metadata.Xattr.{xattr_ibody_size, xattr_icount}
use erofs_utils_rust.Metadata.Xattr.Sizes.{total_size, xattr_size-xattr_icount}
use erofs_utils_rust.Build.Inode.{
  InodeInfo, InodeData, regular_file, directory, symlink, special_dev, special_no_data, base_size,
  chunk_format, serialize_inode,
}
use erofs_utils_rust.Build.Inode.Image.{
  Kind, kind_of, compact_of, extended_of, header_bytes, icount_of, inode_bytes, serialize_inode-eq,
}

-- The format of a chunk-based file, for chunks of up to 2^31 blocks.
pub chunk_format-eq : (c : ℕ) → c < 32 → chunk_format (12 + c) 12 ≡ 32 + c
unfolding chunk_format
chunk_format-eq c h =
    let shift : u16 (sub64 (12 + c) 12) ≡ c = omega arith in
    ap (bit_or 0x20) shift ∙ bit_or_sum 5 1 c (omega arith)

abbrev pub IsData : InodeData → Type 0
IsData (regular_file chunk_indexes) = Unit
IsData (directory children startblk dir_data_size parent_nid) = startblk < 2 ^ 48
IsData (symlink target) = Unit
IsData (special_dev rdev) = IsU32 rdev
IsData special_no_data = Unit

-- An inode whose values fit the fields of its format.
pub record IsInode (inode : InodeInfo) : Type 0 where
  pub mode_word : IsU16 inode.mode
  pub uid_word : IsU32 inode.uid
  pub gid_word : IsU32 inode.gid
  pub size_word : IsU64 inode.size
  pub mtime_word : IsU64 inode.mtime
  pub nsec_word : IsU32 inode.mtime_nsec
  pub nlink_word : IsU32 inode.nlink
  pub ino_word : IsU32 inode.ino
  pub data_fits : IsData inode.data_
  pub xattrs_fit : 12 + total_size inode.xattrs ≤ 8 + 4 * 65535
  pub narrow_fits : inode.is_extended ≡ false → IsU32 inode.size × IsU16 inode.uid × IsU16 inode.gid

-- What the reader's accessors return.
pub record Reads (v : ErofsInode) (inode : InodeInfo) (k : Kind) : Type 0 where
  pub mode : Inode.mode v ≡ inode.mode
  pub uid : Inode.uid v ≡ inode.uid
  pub gid : Inode.gid v ≡ inode.gid
  pub ino : Inode.ino v ≡ inode.ino
  pub size : Inode.size v ≡ k.size
  pub data_layout : Inode.data_layout v ≡ k.datalayout
  pub nb : Inode.nb v ≡ k.nb
  pub i_u : Inode.i_u v ≡ k.i_u
  pub header_size : Inode.header_size v ≡ base_size inode
  pub xattr_size : Inode.xattr_size v ≡ xattr_ibody_size inode.xattrs

abbrev pub view_of : InodeInfo → ℕ → ℕ → ErofsInode
view_of inode epoch chunkbits =
    let k = kind_of inode chunkbits inode.data_ in
    if inode.is_extended
    then extended (extended_with (extended_of inode k) (icount_of inode))
    else compact (compact_with (compact_of inode epoch k) (icount_of inode))

icount-IsU16 : (inode : InodeInfo) → IsU16 (icount_of inode)
unfolding xattr_icount
icount-IsU16 inode = ground arith

module _ (c : ℕ) (few : c < 32) (inode : InodeInfo) (valid : IsInode inode) where
  abbrev k_of : Kind
  k_of = kind_of inode (12 + c) inode.data_

  -- The fields of the kind fit, whatever the kind is.
  kind_fits :
      (d : InodeData)
      → IsData d
      → ((kind_of inode (12 + c) d).datalayout < 8)
        × IsU16 (kind_of inode (12 + c) d).nb
        × IsU64 (kind_of inode (12 + c) d).size
        × IsU32 (kind_of inode (12 + c) d).i_u
        × ((kind_of inode (12 + c) d).size ≤ inode.size)
  kind_fits (regular_file cis) h =
      (omega arith, omega arith, valid.size_word, omega (arith, chunk_format-eq c few), omega arith)
  kind_fits (directory children startblk dir_data_size parent_nid) h =
      (omega arith, omega arith, valid.size_word, omega arith, omega arith)
  kind_fits (symlink target) h =
      (omega arith, omega arith, valid.size_word, omega arith, omega arith)
  kind_fits (special_dev rdev) h = (omega arith, omega arith, omega arith, h, omega arith)
  kind_fits special_no_data h = (omega arith, omega arith, omega arith, omega arith, omega arith)

  pub cast-header_bytes :
      (epoch : ℕ) (rest : Bytes)
      → Inode.cast (header_bytes inode epoch k_of (icount_of inode) ++ rest)
        ≡ ok (view_of inode epoch (12 + c))
  cast-header_bytes epoch rest =
      let (layout, nb, size, u, le) = kind_fits inode.data_ valid.data_fits in
      elim (Bool-cases inode.is_extended) [
        | inl wide ↦ rw wide (
            cast-extended k_of.datalayout layout inode.mode k_of.nb k_of.size k_of.i_u inode.ino
              inode.uid inode.gid inode.mtime inode.mtime_nsec inode.nlink (icount_of inode) _)
        | inr narrow ↦ rw narrow (
            cast-compact k_of.datalayout layout k_of.nlink_1 inode.mode k_of.nb (u32 k_of.size)
              (u32 (sub64 inode.mtime epoch)) k_of.i_u inode.ino (u16 inode.uid) (u16 inode.gid)
              (icount_of inode) _)
      ]

  pub cast-inode_bytes :
      (epoch : ℕ) (rest : Bytes)
      → Inode.cast (inode_bytes inode epoch (12 + c) ++ rest) ≡ ok (view_of inode epoch (12 + c))
  cast-inode_bytes epoch rest =
      ap Inode.cast (append_assoc (header_bytes inode epoch k_of (icount_of inode)) _ rest)
      ∙ cast-header_bytes epoch _

  pub view_of-Reads : (epoch : ℕ) → Reads (view_of inode epoch (12 + c)) inode k_of
  unfolding base_size Inode.header_size
  view_of-Reads epoch =
      let (layout, nb, size, u, le) = kind_fits inode.data_ valid.data_fits in
      elim (Bool-cases inode.is_extended) [
        | inl wide ↦
            let (l, m, s, i, x, g, iu, ic, n, t, ns, nl) =
              extended_fields k_of.datalayout layout inode.mode k_of.nb k_of.size k_of.i_u inode.ino
                inode.uid inode.gid inode.mtime inode.mtime_nsec inode.nlink (icount_of inode)
                valid.mode_word nb size u valid.ino_word valid.uid_word valid.gid_word
                valid.mtime_word valid.nsec_word valid.nlink_word (icount-IsU16 inode) in
            rw wide (record {
              mode = m;
              uid = x;
              gid = g;
              ino = i;
              size = s;
              data_layout = l;
              nb = n;
              i_u = iu;
              header_size = refl;
              xattr_size = xattr_size-xattr_icount _ inode.xattrs ic valid.xattrs_fit;
            })
        | inr narrow ↦
            let (s32, x16, g16) = valid.narrow_fits narrow in
            let (l, m, s, i, x, g, iu, ic, n) =
              compact_fields k_of.datalayout layout k_of.nlink_1 inode.mode k_of.nb (u32 k_of.size)
                (u32 (sub64 inode.mtime epoch)) k_of.i_u inode.ino (u16 inode.uid) (u16 inode.gid)
                (icount_of inode) valid.mode_word nb (omega arith) u valid.ino_word (omega arith)
                (omega arith) (icount-IsU16 inode) in
            rw narrow (record {
              mode = m;
              uid = x ∙ omega arith;
              gid = g ∙ omega arith;
              ino = i;
              size = s ∙ omega arith;
              data_layout = l;
              nb = n;
              i_u = iu;
              header_size = refl;
              xattr_size = xattr_size-xattr_icount _ inode.xattrs ic valid.xattrs_fit;
            })
      ]

-- For an inode whose values fit the fields of its format and for chunks of 2^(12 + c) bytes with c
-- below 32, `serialize_inode` does not panic, and `ErofsInode::cast` on its bytes, with any bytes
-- behind them, gives a header whose accessors return the mode, owner and inode number of the inode,
-- the size of its header and of its xattrs, and the size, data layout, nb and union of its kind of
-- file.
pub cast-serialize_inode :
    (c : ℕ) (inode : InodeInfo) (epoch : ℕ) (rest : Bytes)
    → c < 32
    → IsInode inode
    → (b : Bytes) × (v : ErofsInode) × (serialize_inode inode epoch (12 + c) ≡ ok b)
      × (Inode.cast (b ++ rest) ≡ ok v)
      × Reads v inode (kind_of inode (12 + c) inode.data_)
cast-serialize_inode c inode epoch rest few valid = (
  inode_bytes inode epoch (12 + c),
  view_of inode epoch (12 + c),
  serialize_inode-eq inode epoch (omega (arith, valid.xattrs_fit)) (12 + c),
  cast-inode_bytes c few inode valid epoch rest,
  view_of-Reads c few inode valid epoch,
)

-- The time of modification, which a compact header keeps as a 32-bit distance from the epoch.
mtime-compact_of :
    (inode : InodeInfo) (epoch : ℕ) (k : Kind) (icount : ℕ)
    → Inode.mtime (compact (compact_with (compact_of inode epoch k) icount)) epoch
      ≡ add64 epoch (u32 (sub64 inode.mtime epoch))
unfolding Inode.mtime InodeCompact.mtime_delta InodeCompact.new
mtime-compact_of inode epoch k icount =
    ap (add64 epoch) (get_u32-set_u32 (u32 (sub64 inode.mtime epoch)) (omega arith))

-- What the reader takes for the time of modification.
abbrev pub mtime_read : InodeInfo → ℕ → ℕ → IoResult ℕ
mtime_read inode epoch chunkbits =
    map_ok (λ (v : ErofsInode). Inode.mtime v epoch)
      (serialize_inode inode epoch chunkbits >>= Inode.cast)

mtime_read-compact :
    (c : ℕ) (inode : InodeInfo) (epoch : ℕ)
    → c < 32
    → IsInode inode
    → inode.is_extended ≡ false
    → mtime_read inode epoch (12 + c) ≡ ok (add64 epoch (u32 (sub64 inode.mtime epoch)))
mtime_read-compact c inode epoch few valid narrow =
    ap (λ (m : IoResult Bytes). map_ok (λ (v : ErofsInode). Inode.mtime v epoch) (m >>= Inode.cast))
      (serialize_inode-eq inode epoch (omega (arith, valid.xattrs_fit)) (12 + c)
        ∙ ap ok (sym (append-nil (inode_bytes inode epoch (12 + c)))))
    ∙ ap (map_ok (λ (v : ErofsInode). Inode.mtime v epoch))
        (cast-inode_bytes c few inode valid epoch [])
    ∙ ap ok (
        rw narrow
          (mtime-compact_of inode epoch (kind_of inode (12 + c) inode.data_) (icount_of inode)))

-- A file that was changed at the epoch or later, and less than 2^32 seconds later, keeps its time.
pub mtime_read-future :
    (c : ℕ) (inode : InodeInfo) (epoch : ℕ)
    → c < 32
    → IsInode inode
    → inode.is_extended ≡ false
    → epoch ≤ inode.mtime
    → inode.mtime < epoch + 2 ^ 32
    → mtime_read inode epoch (12 + c) ≡ ok inode.mtime
mtime_read-future c inode epoch few valid narrow le lt =
    mtime_read-compact c inode epoch few valid narrow ∙ ap ok (omega (arith, valid.mtime_word))

-- For a compact inode whose values fit its fields and that was changed before an epoch below 2^63,
-- by at most 2^32 seconds, with chunks of 2^(12 + c) bytes and c below 32, the time of modification
-- that is read back from what `serialize_inode` wrote is 2^32 seconds later than that of the inode.
pub mtime_read-past :
    (c : ℕ) (inode : InodeInfo) (epoch : ℕ)
    → c < 32
    → IsInode inode
    → inode.is_extended ≡ false
    → inode.mtime < epoch
    → epoch ≤ inode.mtime + 2 ^ 32
    → epoch < 2 ^ 63
    → mtime_read inode epoch (12 + c) ≡ ok (inode.mtime + 2 ^ 32)
mtime_read-past c inode epoch few valid narrow lt le small =
    mtime_read-compact c inode epoch few valid narrow ∙ ap ok (omega arith)
