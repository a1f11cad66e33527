-- ===== src/Metadata/Inode.antt =====
-- src/metadata/inode.rs: `ErofsInode`, the view of an inode of either format, and the helpers for
-- `i_format`.
pub mod RoundTrip
use erofs_utils_rust.Base.{
  ℕ, ◌+◌, ◌*◌, [], ◌∷◌, Bytes, length, ltb, ◌==◌, if◌then◌else◌, Bool, true, false, bit_or, bit_and,
  shl16, shr, shl64, u16, add64, index, IoResult, ok, err, unexpected_eof, ◌>>=◌, from_le_bytes,
  map_ok,
}
use erofs_utils_rust.Metadata.Consts.{
  erofs_inode_compact_size, erofs_inode_extended_size, erofs_inode_layout_compact,
  erofs_inode_layout_extended, erofs_i_version_bit, erofs_i_datalayout_bit, erofs_i_nlink_1_bit,
}
use erofs_utils_rust.Metadata.InodeCompact
use erofs_utils_rust.Metadata.InodeCompact.{ErofsInodeCompact}
use erofs_utils_rust.Metadata.InodeExtended
use erofs_utils_rust.Metadata.InodeExtended.{ErofsInodeExtended}

pub data ErofsInode : Type 0 where
  compact : ErofsInodeCompact → ErofsInode
  extended : ErofsInodeExtended → ErofsInode

-- `(i_format >> EROFS_I_VERSION_BIT) & 1 == EROFS_INODE_LAYOUT_COMPACT`.
unfoldable pub is_compact_format : ℕ → Bool
is_compact_format i_format =
    bit_and (shr i_format erofs_i_version_bit) 1 == erofs_inode_layout_compact

-- The part of `cast` behind the two bytes of `i_format`.
unfoldable pub cast_as : Bool → Bytes → IoResult ErofsInode
cast_as is_compact b =
    if is_compact
    then (if ltb (length b) erofs_inode_compact_size
        then err unexpected_eof
        else map_ok compact (InodeCompact.cast_ref b))
    else (if ltb (length b) erofs_inode_extended_size
        then err unexpected_eof
        else map_ok extended (InodeExtended.cast_ref b))

unfoldable pub cast : Bytes → IoResult ErofsInode
unfolding cast_as is_compact_format
cast b = if ltb (length b) 2 then err unexpected_eof else (do
  b0 ← index b 0
  b1 ← index b 1
  cast_as (is_compact_format (from_le_bytes (b0 ∷ b1 ∷ []))) b)

unfoldable pub format : ErofsInode → ℕ
format (compact c) = InodeCompact.format c
format (extended e) = InodeExtended.format e

unfoldable pub data_layout : ErofsInode → ℕ
unfolding format
data_layout v = bit_and (shr (format v) erofs_i_datalayout_bit) 7

unfoldable pub is_compact : ErofsInode → Bool
is_compact (compact c) = true
is_compact (extended e) = false

unfoldable pub header_size : ErofsInode → ℕ
header_size (compact c) = erofs_inode_compact_size
header_size (extended e) = erofs_inode_extended_size

unfoldable pub xattr_icount : ErofsInode → ℕ
xattr_icount (compact c) = InodeCompact.xattr_icount c
xattr_icount (extended e) = InodeExtended.xattr_icount e

-- `cnt` is a `u16`, so the sum does not wrap.
unfoldable pub xattr_size : ErofsInode → ℕ
unfolding xattr_icount
xattr_size v = let cnt = xattr_icount v in if cnt == 0 then 0 else cnt * 4 + 8

unfoldable pub mode : ErofsInode → ℕ
mode (compact c) = InodeCompact.mode c
mode (extended e) = InodeExtended.mode e

unfoldable pub size : ErofsInode → ℕ
size (compact c) = InodeCompact.size c
size (extended e) = InodeExtended.size e

unfoldable pub mtime : ErofsInode → ℕ → ℕ
mtime (compact c) epoch = add64 epoch (InodeCompact.mtime_delta c)
mtime (extended e) epoch = InodeExtended.mtime e

unfoldable pub mtime_nsec : ErofsInode → ℕ
mtime_nsec (compact c) = 0
mtime_nsec (extended e) = InodeExtended.mtime_nsec e

unfoldable pub nlink : ErofsInode → ℕ
nlink (compact c) = 1
nlink (extended e) = InodeExtended.nlink e

unfoldable pub uid : ErofsInode → ℕ
uid (compact c) = InodeCompact.uid c
uid (extended e) = InodeExtended.uid e

unfoldable pub gid : ErofsInode → ℕ
gid (compact c) = InodeCompact.gid c
gid (extended e) = InodeExtended.gid e

unfoldable pub ino : ErofsInode → ℕ
ino (compact c) = InodeCompact.ino c
ino (extended e) = InodeExtended.ino e

unfoldable pub i_u : ErofsInode → ℕ
i_u (compact c) = InodeCompact.i_u c
i_u (extended e) = InodeExtended.i_u e

unfoldable pub nb : ErofsInode → ℕ
nb (compact c) = InodeCompact.nb c
nb (extended e) = InodeExtended.nb e

unfoldable pub rdev : ErofsInode → ℕ
unfolding i_u
rdev v = i_u v

unfoldable pub chunk_format : ErofsInode → ℕ
unfolding i_u
chunk_format v = u16 (i_u v)

-- `(self.nb() as u64) << 32 | self.i_u() as u64`.
unfoldable pub startblk : ErofsInode → ℕ
unfolding nb i_u
startblk v = bit_or (shl64 (nb v) 32) (i_u v)

unfoldable pub compact_i_format : ℕ → Bool → ℕ
compact_i_format datalayout nlink_1 =
    let fmt =
      bit_or (shl16 erofs_inode_layout_compact erofs_i_version_bit)
        (shl16 datalayout erofs_i_datalayout_bit) in
    if nlink_1 then bit_or fmt (shl16 1 erofs_i_nlink_1_bit) else fmt

unfoldable pub extended_i_format : ℕ → ℕ
extended_i_format datalayout =
    bit_or (shl16 erofs_inode_layout_extended erofs_i_version_bit)
      (shl16 datalayout erofs_i_datalayout_bit)
