-- ===== src/Mkfs/Serves.antt =====
-- Reading the image that `make_image` returns: the inodes with their xattrs, the directories, the
-- links and the files of the tree.
use erofs_utils_rust.Base.{
  ℕ, ◌+◌, ◌-◌, ◌*◌, ◌%◌, ◌^◌, ◌<◌, ◌≡◌, sym, ap, ap₂, ◌∙◌, arith, ◌++◌, List, map, Bytes, Option,
  some, All, length, take, drop, IsU64, IoResult, ok, ◌>>=◌,
}
use mathlib.Core.Path.{subst}
use erofs_utils_rust.Metadata.Layout.{MetadataLayout}
use erofs_utils_rust.Metadata.Superblock
use erofs_utils_rust.Metadata.Superblock.{ErofsSuperblock}
use erofs_utils_rust.Metadata.Inode
use erofs_utils_rust.Metadata.Inode.{ErofsInode}
use erofs_utils_rust.Metadata.Xattr.{Xattr}
use erofs_utils_rust.Build.BlobChunk.{ChunkIndex, BlobWriter, write_file_chunks}
use erofs_utils_rust.Build.BlobChunk.Store.{IsBlob}
use erofs_utils_rust.Build.BlobChunk.Files.{IsCut}
use erofs_utils_rust.Build.Dir.{DirChild, entries_of}
use erofs_utils_rust.Build.Image.{superblock_of}
use erofs_utils_rust.Build.Inode.{DirEntry, InodeInfo, InodeData, regular_file, directory, symlink}
use erofs_utils_rust.Build.Inode.Image.{Kind, kind_of, inode_bytes, serialize_inode-eq}
use erofs_utils_rust.Build.Inode.RoundTrip.{view_of, view_of-Reads}
use erofs_utils_rust.Fs.Reader.{ErofsReader, open_reader, sb, inode}
use erofs_utils_rust.Fs.Reader.Holds.{Holds}
use erofs_utils_rust.Fs.Flat.{read_symlink}
use erofs_utils_rust.Fs.FileData.{read_file_data_sync}
use erofs_utils_rust.Fs.ReadDir.{read_dir_cached}
use erofs_utils_rust.Fs.ReadDir.Listing.{cached}
use erofs_utils_rust.Fs.ReadDir.Image.{read_dir_cached-serialize_directory}
use erofs_utils_rust.Fs.Xattrs.{read_xattrs}
use erofs_utils_rust.Fs.Xattrs.RoundTrip.{IsXattr, listed}
use erofs_utils_rust.Fs.Stored.{inode-stored, read_xattrs-stored, read_symlink-serialize_inode}
use erofs_utils_rust.Fs.Stored.Files.{read_file_data_sync-write_file_chunks}
use erofs_utils_rust.Mkfs.{inode_at, children_of, lay_out, make_image}
use erofs_utils_rust.Mkfs.Cores.{core_data, core_size}
use erofs_utils_rust.Mkfs.Infos.{IsDirectory}
use erofs_utils_rust.Mkfs.Trees.{IsTree, children_of-SameCores}
use erofs_utils_rust.Mkfs.Kinds.{same_file, same_link, same_dir, startblk-split}
use erofs_utils_rust.Mkfs.Made.{lay_out-Final, all-Placed, root_out, IsMade, make_image-IsMade}

module _ (inodes : List InodeInfo) (t : IsTree inodes) (c epoch blob_blocks : ℕ) (uuid : Bytes)
    (blob : Option Bytes) (few : c < 32) (wide : length uuid ≡ 16) (epoch_word : IsU64 epoch) where
  made : IsMade inodes c epoch blob_blocks uuid blob
  made = make_image-IsMade inodes t c epoch blob_blocks uuid wide epoch_word blob

  -- For a tree whose first inode is a directory, whose directories each list fewer than 2^20 - 2
  -- inodes of the tree under names with no NUL that fit a block, whose values fit their fields, and
  -- whose inodes and directory data take less than 2^57 bytes, and for a uuid of 16 bytes, an epoch
  -- of 64 bits and chunks of 2^(12 + c) bytes with c below 32: `lay_out` and `make_image` return,
  -- the reader opens the image with any blob, and if each xattr of the inode at an index has a
  -- suffix below 256 bytes and a value below 65536 bytes, then reading the inode at the nid it was
  -- given returns its mode, owner, group and number, and `read_xattrs` its xattrs in their order,
  -- each with its full name and its value.
  pub inode-make_image :
      (k : ℕ) (x : InodeInfo)
      → inode_at inodes k ≡ ok x
      → All IsXattr x.xattrs
      → (img : Bytes) × (r : ErofsReader) × (l : MetadataLayout) × (out : List InodeInfo)
        × (y : InodeInfo) × (v : ErofsInode) × (make_image epoch (12 + c) blob_blocks uuid inodes
            ≡ ok img)
        × (open_reader img blob ≡ ok r)
        × (lay_out inodes ≡ ok (l, out))
        × (inode_at out k ≡ ok y)
        × (inode r y.nid ≡ ok v)
        × (Inode.mode v ≡ x.mode)
        × (Inode.uid v ≡ x.uid)
        × (Inode.gid v ≡ x.gid)
        × (Inode.ino v ≡ x.ino)
        × (read_xattrs r y.nid v ≡ ok (map listed x.xattrs))
  inode-make_image k x at fit =
      let m = made in
      let f = lay_out-Final inodes t m.l m.out m.laid k x at in
      let y = f.final in
      let reads = view_of-Reads c few y f.valid epoch in
      let stored = m.stored k y f.at in
      let same_xattrs : y.xattrs ≡ x.xattrs = ap (λ (i : InodeInfo). i.xattrs) f.same in
      (
        m.img,
        m.r,
        m.l,
        m.out,
        y,
        view_of y epoch (12 + c),
        m.ran,
        m.opens,
        m.laid.ran,
        f.at,
        inode-stored m.r y.nid c epoch y f.valid few stored,
        reads.mode ∙ ap (λ (i : InodeInfo). i.mode) f.same,
        reads.uid ∙ ap (λ (i : InodeInfo). i.uid) f.same,
        reads.gid ∙ ap (λ (i : InodeInfo). i.gid) f.same,
        reads.ino ∙ ap (λ (i : InodeInfo). i.ino) f.same,
        read_xattrs-stored m.r y.nid c epoch y f.valid few stored
              (subst (All IsXattr) (sym same_xattrs) fit)
            ∙ ap (λ (xs : List Xattr). ok (map listed xs)) same_xattrs,
      )

  -- For a tree whose first inode is a directory, whose directories each list fewer than 2^20 - 2
  -- inodes of the tree under names with no NUL that fit a block, whose values fit their fields, and
  -- whose inodes and directory data take less than 2^57 bytes, and for a uuid of 16 bytes, an epoch
  -- of 64 bits and chunks of 2^(12 + c) bytes with c below 32: `lay_out` and `make_image` return,
  -- the reader opens the image with any blob, and if the inode at an index is a directory, then
  -- reading the inode at the nid it was given and `read_dir_cached` list "." with that nid, ".."
  -- with the parent nid that the layout gave it, and the children in their order, each with its
  -- name, its file type and the nid that the layout gave it.
  pub read_dir_cached-make_image :
      (k : ℕ) (x : InodeInfo) (children : List DirEntry) (startblk dir_data_size parent_nid : ℕ)
      → inode_at inodes k ≡ ok x
      → x.data_ ≡ directory children startblk dir_data_size parent_nid
      → (img : Bytes) × (r : ErofsReader) × (l : MetadataLayout) × (out : List InodeInfo)
        × (y : InodeInfo) × (cs : List DirChild) × (start : ℕ) × (size : ℕ) × (parent : ℕ)
        × (make_image epoch (12 + c) blob_blocks uuid inodes ≡ ok img)
        × (open_reader img blob ≡ ok r)
        × (lay_out inodes ≡ ok (l, out))
        × (inode_at out k ≡ ok y)
        × (y.data_ ≡ directory children start size parent)
        × (children_of out children ≡ ok cs)
        × ((inode r y.nid >>= read_dir_cached r y.nid)
            ≡ ok (map cached (entries_of cs y.nid parent)))
  read_dir_cached-make_image k x children startblk dir_data_size parent_nid at is_dir =
      let m = made in
      let f = lay_out-Final inodes t m.l m.out m.laid k x at in
      let y = f.final in
      let (s, n, parent, filled) =
        same_dir y.data_ {children = children}
          (ap (λ (i : InodeInfo). i.data_) f.same ∙ ap core_data is_dir) in
      let (d, p, same) =
        all-Placed inodes t m.l m.out m.laid k y f.at (subst IsDirectory (sym filled) tt) in
      let placed_data : y.data_
          ≡ directory p.info.children p.startblk (length p.dir_data) d.parent_nid =
        ap (λ (i : InodeInfo). i.data_) (sym same) ∙ p.is_dir in
      let parts : directory children s n parent
          ≡ directory p.info.children p.startblk (length p.dir_data) d.parent_nid =
        sym filled ∙ placed_data in
      let same_parent : d.parent_nid ≡ parent = cc in
      let same_children : p.info.children ≡ children = cc in
      let same_nid : d.self_nid ≡ y.nid = sym p.self ∙ ap (λ (i : InodeInfo). i.nid) same in
      let listed_there : children_of m.out children ≡ ok d.dir_children =
        children_of-SameCores m.out m.laid.xs children d.dir_children m.laid.cores (
          subst (λ (cs : List DirEntry). children_of m.laid.xs cs ≡ ok d.dir_children) same_children
            p.info.listed) in
      let reads = view_of-Reads c few y f.valid epoch in
      let kind : kind_of y (12 + c) y.data_
          ≡ kind_of y (12 + c)
              (directory p.info.children p.startblk (length p.dir_data) d.parent_nid) =
        ap (kind_of y (12 + c)) placed_data in
      let v = view_of y epoch (12 + c) in
      let start : Inode.startblk v ≡ p.startblk =
        startblk-split v p.startblk
          (omega (arith, p.held.room, p.filled, m.laid.valid.ends, m.laid.bound))
          (reads.nb ∙ ap (λ (q : Kind). q.nb) kind) (reads.i_u ∙ ap (λ (q : Kind). q.i_u) kind) in
      let place : 4096 + (p.startblk * 4096 - 4096) ≡ Inode.startblk v * 4096 =
        omega (arith, start, p.behind) in
      (
        m.img,
        m.r,
        m.l,
        m.out,
        y,
        d.dir_children,
        s,
        n,
        parent,
        m.ran,
        m.opens,
        m.laid.ran,
        f.at,
        filled,
        listed_there,
        ap (λ (i : IoResult ErofsInode). i >>= read_dir_cached m.r y.nid)
              (inode-stored m.r y.nid c epoch y f.valid few (m.stored k y f.at))
            ∙ read_dir_cached-serialize_directory m.r y.nid v d.dir_children d.self_nid d.parent_nid
                p.dir_data p.info.entries p.info.self_word p.info.parent_word p.made
                (reads.data_layout ∙ ap (λ (q : Kind). q.datalayout) kind)
                (reads.size
                  ∙ ap (λ (q : Kind). q.size) kind
                  ∙ ap (λ (i : InodeInfo). i.size) (sym same)
                  ∙ p.size)
                (omega (arith, m.small))
                (subst (λ (o : ℕ). Holds m.r.mmap o p.dir_data) place
                  (m.dir_data (p.startblk * 4096 - 4096) p.dir_data (omega (arith, p.behind))
                    p.held))
            ∙ ap (λ (q : ℕ × ℕ). ok (map cached (entries_of d.dir_children q.0 q.1)))
                (ap₂ (λ (a b : ℕ). (a, b)) same_nid same_parent),
      )

  -- For a tree whose first inode is a directory, whose directories each list fewer than 2^20 - 2
  -- inodes of the tree under names with no NUL that fit a block, whose values fit their fields, and
  -- whose inodes and directory data take less than 2^57 bytes, and for a uuid of 16 bytes, an epoch
  -- of 64 bits and chunks of 2^(12 + c) bytes with c below 32: `lay_out` and `make_image` return,
  -- the reader opens the image with any blob, and if the inode at an index is a symbolic link with
  -- the size of its target, which is shorter than a block, then reading the inode at the nid it was
  -- given and the link returns the target.
  pub read_symlink-make_image :
      (k : ℕ) (x : InodeInfo) (target : Bytes)
      → inode_at inodes k ≡ ok x
      → x.data_ ≡ symlink target
      → x.size ≡ length target
      → length target < 4096
      → (img : Bytes) × (r : ErofsReader) × (l : MetadataLayout) × (out : List InodeInfo)
        × (y : InodeInfo) × (make_image epoch (12 + c) blob_blocks uuid inodes ≡ ok img)
        × (open_reader img blob ≡ ok r)
        × (lay_out inodes ≡ ok (l, out))
        × (inode_at out k ≡ ok y)
        × ((inode r y.nid >>= read_symlink r y.nid) ≡ ok target)
  read_symlink-make_image k x target at is_link long short =
      let m = made in
      let f = lay_out-Final inodes t m.l m.out m.laid k x at in
      let y = f.final in
      let filled : y.data_ ≡ symlink target =
        same_link y.data_ (ap (λ (i : InodeInfo). i.data_) f.same ∙ ap core_data is_link) in
      let size : y.size ≡ x.size =
        ap (λ (d : InodeData). core_size d y.size) (sym filled)
        ∙ ap (λ (i : InodeInfo). i.size) f.same
        ∙ ap (λ (d : InodeData). core_size d x.size) is_link in
      (
        m.img,
        m.r,
        m.l,
        m.out,
        y,
        m.ran,
        m.opens,
        m.laid.ran,
        f.at,
        read_symlink-serialize_inode m.r y.nid c epoch y (inode_bytes y epoch (12 + c)) target few
            f.valid filled (size ∙ long) short
            (serialize_inode-eq y epoch (omega (arith, f.valid.xattrs_fit)) (12 + c))
            (m.stored k y f.at),
      )

  -- For a tree whose first inode is a directory, whose directories each list fewer than 2^20 - 2
  -- inodes of the tree under names with no NUL that fit a block, whose values fit their fields, and
  -- whose inodes and directory data take less than 2^57 bytes, and for a uuid of 16 bytes, an epoch
  -- of 64 bits and chunks of 2^(12 + c) bytes with c below 32: `lay_out` and `make_image` return,
  -- the reader opens the image with any blob, and if the inode at an index is a regular file with
  -- the size and the chunk indexes that `write_file_chunks` returned for its contents, and the blob
  -- of less than 2^60 bytes is what it wrote, with more behind it or not, then reading the inode at
  -- the nid it was given and `read_file_data_sync` at any offset and size return the contents from
  -- that offset on, as many bytes as asked for or as there are. The hash tells all pieces of files
  -- apart, and the table of the writer agreed with its blob of less than 2^58 blocks.
  pub read_file_data_sync-make_image :
      (hash : Bytes → Bytes) (IsPiece : Bytes → Type 0) (w w' : BlobWriter) (content later : Bytes)
      (cis : List ChunkIndex) (k : ℕ) (x : InodeInfo) (offset size : ℕ)
      → ((a b : Bytes) → IsPiece a → IsPiece b → hash a ≡ hash b → a ≡ b)
      → IsBlob hash IsPiece w
      → w.chunksize ≡ 2 ^ (12 + c)
      → IsCut hash IsPiece (2 ^ (12 + c)) content
      → w.next_blkaddr + length content < 2 ^ 58
      → write_file_chunks hash w (ok content) (length content) ≡ ok (w', cis)
      → blob ≡ some (w'.file ++ later)
      → length (w'.file ++ later) < 2 ^ 60
      → inode_at inodes k ≡ ok x
      → x.data_ ≡ regular_file cis
      → x.size ≡ length content
      → (img : Bytes) × (r : ErofsReader) × (l : MetadataLayout) × (out : List InodeInfo)
        × (y : InodeInfo) × (make_image epoch (12 + c) blob_blocks uuid inodes ≡ ok img)
        × (open_reader img blob ≡ ok r)
        × (lay_out inodes ≡ ok (l, out))
        × (inode_at out k ≡ ok y)
        × ((inode r y.nid >>= λ v. read_file_data_sync r y.nid v offset size)
            ≡ ok (take size (drop offset content)))
  read_file_data_sync-make_image hash IsPiece w w' content later cis k x offset size apart
        blob_valid sized cut room wrote mapped small at is_file long =
      let m = made in
      let f = lay_out-Final inodes t m.l m.out m.laid k x at in
      let y = f.final in
      let filled : y.data_ ≡ regular_file cis =
        same_file y.data_ (ap (λ (i : InodeInfo). i.data_) f.same ∙ ap core_data is_file) in
      let same_size : y.size ≡ x.size =
        ap (λ (d : InodeData). core_size d y.size) (sym filled)
        ∙ ap (λ (i : InodeInfo). i.size) f.same
        ∙ ap (λ (d : InodeData). core_size d x.size) is_file in
      (
        m.img,
        m.r,
        m.l,
        m.out,
        y,
        m.ran,
        m.opens,
        m.laid.ran,
        f.at,
        read_file_data_sync-write_file_chunks hash IsPiece w w' content cis m.r _ y.nid c epoch y
            (inode_bytes y epoch (12 + c)) later offset size apart blob_valid few sized cut room
            wrote f.valid filled (same_size ∙ long)
            (serialize_inode-eq y epoch (omega (arith, f.valid.xattrs_fit)) (12 + c))
            (m.stored k y f.at) m.super.super m.super.block_bits (m.blob_kept ∙ mapped) small,
      )

  -- For a tree whose first inode is a directory, whose directories each list fewer than 2^20 - 2
  -- inodes of the tree under names with no NUL that fit a block, whose values fit their fields, and
  -- whose inodes and directory data take less than 2^57 bytes, and for a uuid of 16 bytes, an epoch
  -- of 64 bits and chunks of 2^(12 + c) bytes with c below 32: `lay_out` and `make_image` return,
  -- the reader opens the image with any blob, and its superblock has as its root nid the nid that
  -- the first inode was given, the number of inodes and the epoch; the image is a whole number of
  -- blocks.
  pub root-make_image :
      (img : Bytes) × (r : ErofsReader) × (s : ErofsSuperblock) × (l : MetadataLayout) × (out : List
        InodeInfo)
      × (y : InodeInfo) × (make_image epoch (12 + c) blob_blocks uuid inodes ≡ ok img)
      × (open_reader img blob ≡ ok r)
      × (sb r ≡ ok s)
      × (lay_out inodes ≡ ok (l, out))
      × (inode_at out 0 ≡ ok y)
      × (Superblock.root_nid s ≡ y.nid)
      × (Superblock.inos s ≡ length inodes)
      × (Superblock.epoch s ≡ epoch)
      × (length img % 4096 ≡ 0)
  root-make_image =
      let m = made in
      let (y, at, root_nid) = root_out inodes t m.l m.out m.laid in
      (
        m.img,
        m.r,
        superblock_of m.buf 0 (length inodes) epoch uuid,
        m.l,
        m.out,
        y,
        m.ran,
        m.opens,
        m.super.super,
        m.laid.ran,
        at,
        m.super.root ∙ sym root_nid,
        m.super.inos,
        m.super.time,
        ap (λ (b : Bytes). length b % 4096) (sym m.mapped) ∙ m.super.whole,
      )
