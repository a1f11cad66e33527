-- ===== src/Mkfs/Made.antt =====
-- `make_image` returns an image that opens, and that holds each inode at its nid.
use erofs_utils_rust.Base.{
  ℕ, zero, suc, inr, ◌+◌, ◌-◌, ◌*◌, ◌^◌, ◌≤◌, ◌<◌, ◌≡◌, sym, ap, ◌∙◌, arith, [], ◌∷◌, ◌++◌, List,
  Bytes, Option, All, length, length-take, take, drop, take-append-drop, le→leb, leb, true, u16,
  IsU64, ok,
}
use mathlib.Core.Path.{subst}
use erofs_utils_rust.Metadata.Layout
use erofs_utils_rust.Metadata.Layout.{MetadataLayout}
use erofs_utils_rust.Metadata.Xattr.Sizes.{total_size}
use erofs_utils_rust.Build.Image.{superblock_of}
use erofs_utils_rust.Build.Image.Opens.{IsImage, open_reader-write_image, nid_to_offset-IsImage}
use erofs_utils_rust.Build.Inode.{InodeInfo, inode_meta_size}
use erofs_utils_rust.Build.Inode.Image.{inode_bytes}
use erofs_utils_rust.Build.Inode.RoundTrip.{IsInode}
use erofs_utils_rust.Fs.Reader.{ErofsReader, open_reader}
use erofs_utils_rust.Fs.Reader.Holds.{Holds, split-Holds, part-Holds}
use erofs_utils_rust.Fs.Stored.{IsStored}
use erofs_utils_rust.Mkfs.{inode_at, make_image}
use erofs_utils_rust.Mkfs.Slots.{
  Slots, Slots-le, inodes_room, Written, HasBody, write_inodes-Written,
}
use erofs_utils_rust.Mkfs.Cores.{core, inode_at-SameCores, inode_at-All}
use erofs_utils_rust.Mkfs.Infos.{IsDirectory, All-HasIndex}
use erofs_utils_rust.Mkfs.Placed.{Placed}
use erofs_utils_rust.Mkfs.Trees.{
  IsTree, at_slot, SameFile, alloc_inodes-All, alloc_inodes-at, alloc_inodes-root, HasStart,
  directory-HasStart, from_core-IsDirectory, to_core-IsDirectory, core-IsInode, All-at,
}
use erofs_utils_rust.Mkfs.LaidOut.{LaidOut, numbered, lay_out-LaidOut}

inside-Holds :
    (mmap buf : Bytes) (o p : ℕ) (b : Bytes)
    → Holds mmap o buf
    → Holds buf p b
    → Holds mmap (o + p) b
inside-Holds mmap buf o p b outer inner =
    let long : p ≡ length (take p buf) = omega (arith, length-take p buf, inner.room) in
    let split : buf ≡ take p buf ++ (b ++ drop (length b) (drop p buf)) =
      sym (take-append-drop p buf)
      ∙ ap (λ (x : Bytes). take p buf ++ x) (split-Holds buf b p inner) in
    subst (λ (n : ℕ). Holds mmap (o + n) b) (sym long)
      (part-Holds mmap (take p buf) b (drop (length b) (drop p buf)) o
        (subst (Holds mmap o) split outer))

Slots-at :
    (start end : ℕ) (is : List InodeInfo) (k : ℕ) (y : InodeInfo)
    → Slots start end is
    → inode_at is k ≡ ok y
    → (y.nid * 32 ≡ y.meta_offset) × (y.meta_offset + inode_meta_size y ≤ end)
unfolding inode_at
Slots-at start end [] k y s at = cc
Slots-at start end (i ∷ is) zero y (from, number, rest) at =
    let same : i ≡ y = cc in
    subst
      (λ (z : InodeInfo). (z.nid * 32 ≡ z.meta_offset) × (z.meta_offset + inode_meta_size z ≤ end))
      same (number, Slots-le (i.meta_offset + inode_meta_size i) end is rest)
Slots-at start end (i ∷ is) (suc k) y (from, number, rest) at =
    Slots-at (i.meta_offset + inode_meta_size i) end is k y rest at

Written-at :
    (epoch chunkbits : ℕ) (buf : Bytes) (is : List InodeInfo) (k : ℕ) (y : InodeInfo)
    → Written epoch chunkbits buf is
    → inode_at is k ≡ ok y
    → Holds buf y.meta_offset (inode_bytes y epoch chunkbits)
unfolding inode_at
Written-at epoch chunkbits buf [] k y w at = cc
Written-at epoch chunkbits buf (i ∷ is) zero y (here, rest) at =
    let same : i ≡ y = cc in
    subst (λ (z : InodeInfo). Holds buf z.meta_offset (inode_bytes z epoch chunkbits)) same here
Written-at epoch chunkbits buf (i ∷ is) (suc k) y (here, rest) at =
    Written-at epoch chunkbits buf is k y rest at

length-inodes_room : (is : List InodeInfo) → length is ≤ inodes_room is
length-inodes_room [] = omega arith
length-inodes_room (i ∷ is) = omega (arith, length-inodes_room is)

at_slot-IsInode : (o n : ℕ) (x : InodeInfo) → IsInode x → IsInode (at_slot o n x)
at_slot-IsInode o n x v = record {
  mode_word = v.mode_word;
  uid_word = v.uid_word;
  gid_word = v.gid_word;
  size_word = v.size_word;
  mtime_word = v.mtime_word;
  nsec_word = v.nsec_word;
  nlink_word = v.nlink_word;
  ino_word = v.ino_word;
  data_fits = v.data_fits;
  xattrs_fit = v.xattrs_fit;
  narrow_fits = v.narrow_fits;
}

-- The inode that the image has of an inode of the tree.
pub record Final (out : List InodeInfo) (k : ℕ) (x : InodeInfo) : Type 0 where
  pub final : InodeInfo
  pub at : inode_at out k ≡ ok final
  pub same : SameFile final x
  pub valid : IsInode final

module _ (inodes : List InodeInfo) (t : IsTree inodes) (l : MetadataLayout) (out : List InodeInfo)
    (laid : LaidOut inodes l out) where
  pub all-Placed :
      (k : ℕ) (y : InodeInfo)
      → inode_at out k ≡ ok y
      → IsDirectory y.data_
      → (d : _) × (p : Placed laid.xs l.buf out laid.first d) × (p.inode ≡ y)
  all-Placed k y at dir =
      let (d, p, same) =
        All-HasIndex (Placed laid.xs l.buf out laid.first) k laid.infos laid.placed
          (laid.covers k y at dir) in
      (d, p, cc)

  -- A directory starts in the metadata area.
  starts : (k : ℕ) (y : InodeInfo) → inode_at out k ≡ ok y → HasStart y.data_
  starts k y at = directory-HasStart y.data_ (λ dir.
      let (d, p, same) = all-Placed k y at dir in
      subst HasStart (sym (ap (λ (i : InodeInfo). i.data_) (sym same) ∙ p.is_dir))
        (omega (arith, p.held.room, p.filled, laid.valid.ends, laid.bound)))

  sizes : (k : ℕ) (y : InodeInfo) → inode_at out k ≡ ok y → IsDirectory y.data_ → y.size < 2 ^ 32
  sizes k y at dir =
      let (d, p, same) = all-Placed k y at dir in
      let long : y.size ≡ length p.dir_data = ap (λ (i : InodeInfo). i.size) (sym same) ∙ p.size in
      omega (arith, long, p.short)

  pub lay_out-Final : (k : ℕ) (x : InodeInfo) → inode_at inodes k ≡ ok x → Final out k x
  lay_out-Final k x at =
      let (o, n, slot) = alloc_inodes-at Layout.new inodes k x at in
      let (y, at', same) =
        inode_at-SameCores out (numbered inodes) k (at_slot o n x) laid.same_numbers slot in
      record {
        final = y;
        at = at';
        same =
            same
            ∙ ap (λ (m : ℕ). core (at_slot m n x))
                (ap (λ (i : InodeInfo). i.meta_offset) (sym same))
            ∙ ap (λ (m : ℕ). core (at_slot y.meta_offset m x))
                (ap (λ (i : InodeInfo). i.nid) (sym same));
        valid =
            core-IsInode y (at_slot o n x) same
              (at_slot-IsInode o n x (inode_at-All IsInode inodes k x t.values at)) (starts k y at')
              (sizes k y at');
      }

  -- Every inode of the layout is one of the tree.
  bodies : (epoch chunkbits : ℕ) → All (HasBody epoch chunkbits) out
  bodies epoch chunkbits = All-at (HasBody epoch chunkbits) out (λ k y at.
      let (x, slot, same) =
        inode_at-SameCores (numbered inodes) out k y (sym laid.same_numbers) at in
      let fits : 12 + total_size x.xattrs ≤ 8 + 4 * 65535 =
        inode_at-All (λ (i : InodeInfo). 12 + total_size i.xattrs ≤ 8 + 4 * 65535) (numbered inodes)
          k x
          (alloc_inodes-All (λ (i : InodeInfo). 12 + total_size i.xattrs ≤ 8 + 4 * 65535)
            (λ o n i h. h) Layout.new inodes
            (All-at (λ (i : InodeInfo). 12 + total_size i.xattrs ≤ 8 + 4 * 65535) inodes
              (λ j z here. IsInode.xattrs_fit (inode_at-All IsInode inodes j z t.values here))))
          slot in
      let same_xattrs : x.xattrs ≡ y.xattrs = ap (λ (i : InodeInfo). i.xattrs) same in
      omega (arith, fits, ap total_size same_xattrs))

  -- The directory data of the root stands behind the inodes.
  a_block : laid.first + 4096 ≤ l.cursor
  a_block =
      let f = lay_out-Final 0 t.root t.root_at in
      let dir : IsDirectory f.final.data_ = from_core-IsDirectory f.final.data_ (
        subst (λ (i : InodeInfo). IsDirectory i.data_) (sym f.same)
          (to_core-IsDirectory t.root.data_ t.root_dir)) in
      let (d, p, same) = all-Placed 0 f.final f.at dir in
      omega (arith, p.held.room, p.filled, p.behind, laid.valid.ends)

  pub root_out : (y : InodeInfo) × (inode_at out 0 ≡ ok y) × (y.nid ≡ 0)
  root_out =
      let (z, slot, first) = alloc_inodes-root inodes t.root t.root_at in
      let (y, at, same) = inode_at-SameCores out (numbered inodes) 0 z laid.same_numbers slot in
      (y, at, ap (λ (i : InodeInfo). i.nid) same ∙ first)

-- What is in the image and in its reader.
pub record IsMade (inodes : List InodeInfo) (c epoch blob_blocks : ℕ) (uuid : Bytes)
    (blob : Option Bytes) : Type 0 where
  pub img : Bytes
  pub r : ErofsReader
  pub l : MetadataLayout
  pub out : List InodeInfo
  pub laid : LaidOut inodes l out
  pub ran : make_image epoch (12 + c) blob_blocks uuid inodes ≡ ok img
  pub opens : open_reader img blob ≡ ok r
  pub mapped : r.mmap ≡ img
  pub blob_kept : r.blob_mmap ≡ blob
  pub buf : Bytes
  pub super : IsImage r buf 0 (length inodes) epoch (superblock_of buf 0 (length inodes) epoch uuid)
  pub small : length r.mmap < 2 ^ 58
  pub stored :
      (k : ℕ) (y : InodeInfo)
      → inode_at out k ≡ ok y
      → IsStored r y.nid (inode_bytes y epoch (12 + c))
  pub dir_data : (o : ℕ) (b : Bytes) → laid.first ≤ o → Holds l.buf o b → Holds r.mmap (4096 + o) b

module _ (inodes : List InodeInfo) (t : IsTree inodes) (c epoch blob_blocks : ℕ) (uuid : Bytes)
    (wide : length uuid ≡ 16) (epoch_word : IsU64 epoch) (blob : Option Bytes) where
  pub make_image-IsMade : IsMade inodes c epoch blob_blocks uuid blob
  unfolding make_image
  make_image-IsMade =
      let (l, out, laid) = lay_out-LaidOut inodes t in
      let (l', wrote, valid, same, written, frame) =
        write_inodes-Written epoch (12 + c) l out 0 laid.first laid.valid laid.slots laid.inside
          (bodies inodes t l out laid epoch (12 + c)) in
      let (root, root_at, root_nid) = root_out inodes t l out laid in
      let (img, r, image, opens, mmap, blob_kept, super) =
        open_reader-write_image l'.buf 0 (length inodes) epoch blob_blocks uuid wide blob
          (omega arith) (omega (arith, length-inodes_room inodes, t.room)) epoch_word in
      let fits : leb root.nid (2 ^ 16 - 1) ≡ true =
        le→leb root.nid (2 ^ 16 - 1) (omega (arith, root_nid)) in
      let number : u16 root.nid ≡ 0 = omega (arith, root_nid) in
      let long : length l'.buf < 2 ^ 57 = omega (arith, valid.ends, same, laid.bound) in
      record {
        img = img;
        r = r;
        l = l;
        out = out;
        laid = laid;
        ran = rw (laid.ran, wrote, root_at, fits, number) image;
        opens = opens;
        mapped = mmap;
        blob_kept = blob_kept;
        buf = l'.buf;
        super = super;
        small = omega (arith, super.no_more, long);
        stored = λ k y at.
            let (nid, end) = Slots-at 0 laid.first out k y laid.slots at in
            let held = Written-at epoch (12 + c) l'.buf out k y written at in
            let place : 4096 + y.meta_offset ≡ 4096 + y.nid * 32 = omega (arith, nid) in
            record {
              offset = 4096 + y.nid * 32;
              located =
                  nid_to_offset-IsImage r l'.buf 0 (length inodes) epoch y.nid
                    (superblock_of l'.buf 0 (length inodes) epoch uuid) super
                    (omega (arith, nid, end, laid.inside, laid.bound));
              held =
                  subst (λ (n : ℕ). Holds r.mmap n (inode_bytes y epoch (12 + c))) place
                    (inside-Holds r.mmap l'.buf 4096 y.meta_offset (inode_bytes y epoch (12 + c))
                      super.metadata held);
              wide = omega (
                arith,
                nid,
                end,
                a_block inodes t l out laid,
                super.metadata.room,
                valid.ends,
                same,
              );
              small = omega (arith, super.no_more, long);
            };
        dir_data = λ o b behind held.
            inside-Holds r.mmap l'.buf 4096 o b super.metadata (frame o b (inr behind) held);
      }
