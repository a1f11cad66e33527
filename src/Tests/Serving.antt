-- ===== src/Tests/Serving.antt =====
-- The xattr calls on the link of Tests/Build.antt, and `readdirplus` on the root directory.
use erofs_utils_rust.Base.{
  ℕ, ◌+◌, ◌≡◌, ◌≢◌, All, ◌>>=◌, refl, arith, [], ◌∷◌, ◌++◌, List, map, Bytes, bytes_of, none,
  length, u32, IoResult, ok, err, os, inl,
}
use erofs_utils_rust.Metadata.Superblock
use erofs_utils_rust.Fs.Xattrs.{full_name}
use erofs_utils_rust.Fs.Xattrs.RoundTrip.{listed}
use erofs_utils_rust.Metadata.Xattr.{erofs_xattr_prefix}
use erofs_utils_rust.Fs.Fuse.{Stat, to_nid, to_ino}
use erofs_utils_rust.Fs.Fuse.Inodes.{to_nid-to_ino}
use erofs_utils_rust.Fs.Fuse.Handles.{FuseDirEntry, readdir, readdirplus}
use erofs_utils_rust.Fs.Fuse.Plus.{with_getattr, readdirplus-readdir}
use erofs_utils_rust.Fs.Fuse.Xattrs.{count, value, names, getxattr, listxattr}
use erofs_utils_rust.Fs.Fuse.Xattrs.Replies.{
  getxattr-serialize_inode, getxattr_errors, listxattr-serialize_inode, split_names, NoNul,
}
use erofs_utils_rust.Tests.Data.{superblock}
use erofs_utils_rust.Tests.Reader.{reader_sb}
use erofs_utils_rust.Tests.Handles.{opened, root_listing, stands}
use erofs_utils_rust.Tests.Build.{
  link, link_bytes, link_reader, link-IsInode, link_xattrs-fit, link_serialized, link-IsStored,
  reader_with-sb,
}

link_numbered : to_nid link_reader 1 ≡ ok 36
unfolding to_nid Superblock.root_nid Superblock.new
link_numbered = rw (reader_with-sb link_bytes none) refl

link_xattrs : map listed link.xattrs ≡ [] ++ (bytes_of "user.tag", bytes_of "xyz") ∷ []
unfolding full_name erofs_xattr_prefix
link_xattrs = refl

getxattr-serialize_inode_example :
    (getxattr link_reader 1 (bytes_of "user.tag") 0 ≡ ok (count (u32 3)))
    × (getxattr link_reader 1 (bytes_of "user.tag") (3 + 61) ≡ ok (value (bytes_of "xyz")))
getxattr-serialize_inode_example =
    getxattr-serialize_inode link_reader 1 36 0 1700000000 link link_bytes link_numbered
      (omega arith) link-IsInode link_xattrs-fit link_serialized link-IsStored (bytes_of "user.tag")
      (bytes_of "xyz") [] [] 61 link_xattrs tt (omega arith)

no_such_xattr : All (λ (x : Bytes × Bytes). x.0 ≢ bytes_of "user.other") (map listed link.xattrs)
unfolding full_name erofs_xattr_prefix
no_such_xattr = (λ e. cc e, tt)

getxattr_errors_example :
    (getxattr link_reader 1 (bytes_of "user.tag") 2 ≡ err (os 34))
    × (getxattr link_reader 1 (bytes_of "user.other") 2 ≡ err (os 61))
getxattr_errors_example =
    getxattr_errors link_reader 1 36 0 1700000000 link link_bytes link_numbered (omega arith)
      link-IsInode link_xattrs-fit link_serialized link-IsStored (bytes_of "user.tag")
      (bytes_of "user.other") (bytes_of "xyz") [] [] 2 link_xattrs tt no_such_xattr (omega arith)
      (omega arith)

link_names-NoNul : All (λ (x : Bytes × Bytes). NoNul x.0) (map listed link.xattrs)
unfolding full_name erofs_xattr_prefix
link_names-NoNul = omega arith

listxattr-serialize_inode_example :
    (buf : Bytes) × (listxattr link_reader 1 0 ≡ ok (count (u32 (length buf))))
    × (listxattr link_reader 1 (length buf + 56) ≡ ok (names buf))
    × (split_names [] buf ≡ map (λ (x : Bytes × Bytes). x.0) (map listed link.xattrs))
listxattr-serialize_inode_example =
    listxattr-serialize_inode link_reader 1 36 0 1700000000 link link_bytes link_numbered
      (omega arith) link-IsInode link_xattrs-fit link_serialized link-IsStored 55 link_names-NoNul

-- A page of entries with the sizes of the files.
abbrev page_of : List (Bytes × ℕ) → FuseDirEntry → ℕ × Stat → IoResult (List (Bytes × ℕ) × ℕ)
page_of page entry (ino, st) = ok ((entry.name, st.st_size) ∷ page, 1)

root_back : (to_ino opened.reader 36 >>= to_nid opened.reader) ≡ ok 36
root_back = to_nid-to_ino opened.reader superblock 36 reader_sb (inl (omega arith)) (omega arith)

readdirplus-readdir_example :
    readdirplus page_of opened 1 1 [] ≡ readdir (with_getattr page_of opened.reader) opened 1 1 []
readdirplus-readdir_example =
    readdirplus-readdir page_of opened superblock 1 1 root_listing [] reader_sb stands
      (root_back, (root_back, tt))
