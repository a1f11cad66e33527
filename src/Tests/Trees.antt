-- ===== src/Tests/Trees.antt =====
-- Making the image of a small tree, and reading it.
use erofs_utils_rust.Base.{
  ◌+◌, ◌<◌, ◌^◌, ◌≡◌, ◌≢◌, refl, arith, [], ◌∷◌, ◌++◌, List, map, Bytes, bytes_of, length, take,
  drop, some, none, ℕ, ok, ◌>>=◌, ◌%◌,
}
use erofs_utils_rust.Metadata.Layout.{MetadataLayout}
use erofs_utils_rust.Metadata.Superblock
use erofs_utils_rust.Metadata.Superblock.{ErofsSuperblock}
use erofs_utils_rust.Metadata.Inode
use erofs_utils_rust.Metadata.Inode.{ErofsInode}
use erofs_utils_rust.Metadata.Xattr.{xattr_ibody_size}
use erofs_utils_rust.Metadata.Xattr.Sizes.{xattr_ibody_size-cons}
use erofs_utils_rust.Build.Dir.{DirChild, entries_of}
use erofs_utils_rust.Build.Inode.{
  DirEntry, InodeInfo, directory, base_size, tail_size, inode_meta_size,
}
use erofs_utils_rust.Build.Inode.RoundTrip.{IsInode}
use erofs_utils_rust.Fs.Reader.{ErofsReader, sb, inode, open_reader}
use erofs_utils_rust.Fs.Flat.{read_symlink}
use erofs_utils_rust.Fs.FileData.{read_file_data_sync}
use erofs_utils_rust.Fs.ReadDir.{read_dir_cached}
use erofs_utils_rust.Fs.ReadDir.Listing.{cached}
use erofs_utils_rust.Fs.Xattrs.{read_xattrs}
use erofs_utils_rust.Fs.Xattrs.RoundTrip.{listed}
use erofs_utils_rust.Mkfs.{inode_at, children_of, lay_out, make_image}
use erofs_utils_rust.Mkfs.Slots.{inodes_room}
use erofs_utils_rust.Mkfs.Infos.{dirs_room}
use erofs_utils_rust.Mkfs.Trees.{IsTree}
use erofs_utils_rust.Mkfs.Serves.{
  inode-make_image, read_dir_cached-make_image, read_symlink-make_image,
  read_file_data_sync-make_image, root-make_image,
}
use erofs_utils_rust.Tests.Data.{uuid}
use erofs_utils_rust.Tests.Build.{
  link, link-IsInode, link_xattrs-fit, content, digest, Any, blob, blob-IsBlob, indexes_of, filled,
  file_written, greeting, greeting-IsInode,
}

-- A root with a link, a file and a directory.
abbrev root_children : List DirEntry
root_children =
    record { name = bytes_of "link"; file_type = 7; inode_idx = 1 }
    ∷ record { name = bytes_of "greeting"; file_type = 1; inode_idx = 2 }
    ∷ record { name = bytes_of "sub"; file_type = 2; inode_idx = 3 }
    ∷ []

abbrev root : InodeInfo
root = record link { mode = 0o040755; size = 0; data_ = directory root_children 0 0 0; xattrs = [] }

abbrev sub : InodeInfo
sub = record link { mode = 0o040755; size = 0; data_ = directory [] 0 0 0; xattrs = [] }

abbrev tree : List InodeInfo
tree = root ∷ link ∷ greeting ∷ sub ∷ []

root-IsInode : IsInode root
root-IsInode = record {
  mode_word = omega arith;
  uid_word = omega arith;
  gid_word = omega arith;
  size_word = omega arith;
  mtime_word = omega arith;
  nsec_word = omega arith;
  nlink_word = omega arith;
  ino_word = omega arith;
  data_fits = omega arith;
  xattrs_fit = omega arith;
  narrow_fits = λ narrow. (omega arith, omega arith, omega arith);
}

sub-IsInode : IsInode sub
sub-IsInode = record {
  mode_word = omega arith;
  uid_word = omega arith;
  gid_word = omega arith;
  size_word = omega arith;
  mtime_word = omega arith;
  nsec_word = omega arith;
  nlink_word = omega arith;
  ino_word = omega arith;
  data_fits = omega arith;
  xattrs_fit = omega arith;
  narrow_fits = λ narrow. (omega arith, omega arith, omega arith);
}

tree_room : inodes_room tree + dirs_room tree + 4096 < 2 ^ 57
unfolding inode_meta_size base_size tail_size xattr_ibody_size
tree_room =
    omega (arith, xattr_ibody_size-cons (1, bytes_of "tag", bytes_of "xyz") [] (omega arith))

byte_pos : {b : ℕ} → 0 < b → b ≢ 0
byte_pos h = λ e. omega arith

tree-IsTree : IsTree tree
unfolding inode_at
tree-IsTree = record {
  root = root;
  root_at = refl;
  root_dir = tt;
  children = ((omega arith, (omega arith, (omega arith, tt))), (tt, (tt, (tt, tt))));
  parents = (omega arith, (tt, (tt, (omega arith, tt))));
  names = (
    (
      (
        record { pos = omega arith; no_nul = ground arith; fits = omega arith },
        (
          record { pos = omega arith; no_nul = ground arith; fits = omega arith },
          (record { pos = omega arith; no_nul = ground arith; fits = omega arith }, tt),
        ),
      ),
      omega arith,
    ),
    (tt, (tt, ((tt, omega arith), tt))),
  );
  values = (root-IsInode, (link-IsInode, (greeting-IsInode, (sub-IsInode, tt))));
  room = tree_room;
}

inode-make_image_example :
    (img : Bytes) × (r : ErofsReader) × (l : MetadataLayout) × (out : List InodeInfo)
    × (y : InodeInfo) × (v : ErofsInode) × (make_image 1700000000 12 1 uuid tree ≡ ok img)
    × (open_reader img none ≡ ok r)
    × (lay_out tree ≡ ok (l, out))
    × (inode_at out 1 ≡ ok y)
    × (inode r y.nid ≡ ok v)
    × (Inode.mode v ≡ link.mode)
    × (Inode.uid v ≡ link.uid)
    × (Inode.gid v ≡ link.gid)
    × (Inode.ino v ≡ link.ino)
    × (read_xattrs r y.nid v ≡ ok (map listed link.xattrs))
unfolding inode_at
inode-make_image_example =
    inode-make_image tree tree-IsTree 0 1700000000 1 uuid none (omega arith) refl (omega arith) 1
      link refl link_xattrs-fit

read_dir_cached-make_image_example :
    (img : Bytes) × (r : ErofsReader) × (l : MetadataLayout) × (out : List InodeInfo)
    × (y : InodeInfo) × (cs : List DirChild) × (start : ℕ) × (size : ℕ) × (parent : ℕ) × (make_image
          1700000000 12 1 uuid tree
        ≡ ok img)
    × (open_reader img none ≡ ok r)
    × (lay_out tree ≡ ok (l, out))
    × (inode_at out 0 ≡ ok y)
    × (y.data_ ≡ directory root_children start size parent)
    × (children_of out root_children ≡ ok cs)
    × ((inode r y.nid >>= read_dir_cached r y.nid) ≡ ok (map cached (entries_of cs y.nid parent)))
unfolding inode_at
read_dir_cached-make_image_example =
    read_dir_cached-make_image tree tree-IsTree 0 1700000000 1 uuid none (omega arith) refl
      (omega arith) 0 root root_children 0 0 0 refl refl

read_symlink-make_image_example :
    (img : Bytes) × (r : ErofsReader) × (l : MetadataLayout) × (out : List InodeInfo)
    × (y : InodeInfo) × (make_image 1700000000 12 1 uuid tree ≡ ok img)
    × (open_reader img none ≡ ok r)
    × (lay_out tree ≡ ok (l, out))
    × (inode_at out 1 ≡ ok y)
    × ((inode r y.nid >>= read_symlink r y.nid) ≡ ok (bytes_of "motd"))
unfolding inode_at
read_symlink-make_image_example =
    read_symlink-make_image tree tree-IsTree 0 1700000000 1 uuid none (omega arith) refl
      (omega arith) 1 link (bytes_of "motd") refl refl refl (omega arith)

read_file_data_sync-make_image_example :
    (img : Bytes) × (r : ErofsReader) × (l : MetadataLayout) × (out : List InodeInfo)
    × (y : InodeInfo) × (make_image 1700000000 12 1 uuid tree ≡ ok img)
    × (open_reader img (some (filled.file ++ [])) ≡ ok r)
    × (lay_out tree ≡ ok (l, out))
    × (inode_at out 2 ≡ ok y)
    × ((inode r y.nid >>= λ v. read_file_data_sync r y.nid v 1 3) ≡ ok (take 3 (drop 1 content)))
unfolding inode_at
read_file_data_sync-make_image_example =
    read_file_data_sync-make_image tree tree-IsTree 0 1700000000 1 uuid (some (filled.file ++ []))
      (omega arith) refl (omega arith) digest Any blob filled content [] indexes_of 2 greeting 1 3
      (λ a b seen_a seen_b same. same) blob-IsBlob refl (λ k. tt) (omega arith) file_written refl
      (omega arith) refl refl refl

root-make_image_example :
    (img : Bytes) × (r : ErofsReader) × (s : ErofsSuperblock) × (l : MetadataLayout) × (out : List
      InodeInfo)
    × (y : InodeInfo) × (make_image 1700000000 12 1 uuid tree ≡ ok img)
    × (open_reader img none ≡ ok r)
    × (sb r ≡ ok s)
    × (lay_out tree ≡ ok (l, out))
    × (inode_at out 0 ≡ ok y)
    × (Superblock.root_nid s ≡ y.nid)
    × (Superblock.inos s ≡ 4)
    × (Superblock.epoch s ≡ 1700000000)
    × (length img % 4096 ≡ 0)
root-make_image_example =
    root-make_image tree tree-IsTree 0 1700000000 1 uuid none (omega arith) refl (omega arith)
