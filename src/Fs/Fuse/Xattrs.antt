-- ===== src/Fs/Fuse/Xattrs.antt =====
-- src/fs/fuse.rs: `getxattr` and `listxattr`.
pub mod Replies
use erofs_utils_rust.Base.{
  ℕ, [], ◌∷◌, ◌++◌, List, Bytes, length, ltb, ◌==◌, if◌then◌else◌, u32, bytes_eq, IoResult, ok, err,
  os, ◌>>=◌,
}
use erofs_utils_rust.Fs.Reader.{ErofsReader, inode}
use erofs_utils_rust.Fs.Xattrs.{read_xattrs}
use erofs_utils_rust.Fs.Fuse.{to_nid}

-- `GetxattrReply` and `ListxattrReply`.
pub data XattrReply : Type 0 where
  count : ℕ → XattrReply
  value : Bytes → XattrReply
  names : Bytes → XattrReply

-- A size of 0 asks for the length. ERANGE is 34.
unfoldable pub sized_reply : (Bytes → XattrReply) → ℕ → Bytes → IoResult XattrReply
sized_reply reply size bytes =
    if size == 0
    then ok (count (u32 (length bytes)))
    else if ltb size (length bytes)
    then err (os 34)
    else ok (reply bytes)

-- The `for` loop of `getxattr`. ENODATA is 61.
unfoldable pub find_xattr : Bytes → ℕ → List (Bytes × Bytes) → IoResult XattrReply
find_xattr name size [] = err (os 61)
find_xattr name size ((xname, xvalue) ∷ xattrs) =
    let rest = find_xattr name size xattrs in
    if bytes_eq xname name then sized_reply value size xvalue else rest

unfoldable pub getxattr : ErofsReader → ℕ → Bytes → ℕ → IoResult XattrReply
getxattr r ino name size = do
  nid ← to_nid r ino
  vi ← inode r nid
  xattrs ← read_xattrs r nid vi
  find_xattr name size xattrs

-- The names, each with a NUL behind it.
unfoldable pub names_buf : List (Bytes × Bytes) → Bytes
names_buf [] = []
names_buf ((xname, xvalue) ∷ xattrs) = xname ++ (0 ∷ names_buf xattrs)

unfoldable pub listxattr : ErofsReader → ℕ → ℕ → IoResult XattrReply
listxattr r ino size = do
  nid ← to_nid r ino
  vi ← inode r nid
  xattrs ← read_xattrs r nid vi
  sized_reply names size (names_buf xattrs)
