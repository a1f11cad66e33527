-- ===== src/Metadata/InodeExtended.antt =====
-- src/metadata/inode.rs: `ErofsInodeExtended`, 64 bytes.
use erofs_utils_rust.Base.{ℕ, ◌++◌, Bytes, zeros, length, leb, ok, IoResult, assert, ◌>>◌}
use erofs_utils_rust.Metadata.Consts.{erofs_inode_extended_size}
use erofs_utils_rust.Metadata.LeBytes.{get_u16, get_u32, get_u64, set_u16, set_u32, set_u64, field}

pub record ErofsInodeExtended : Type 0 where
  pub i_format : Bytes
  pub i_xattr_icount : Bytes
  pub i_mode : Bytes
  pub i_nb : Bytes
  pub i_size : Bytes
  pub i_u : Bytes
  pub i_ino : Bytes
  pub i_uid : Bytes
  pub i_gid : Bytes
  pub i_mtime : Bytes
  pub i_mtime_nsec : Bytes
  pub i_nlink : Bytes
  pub i_reserved2 : Bytes

unfoldable pub format : ErofsInodeExtended → ℕ
format e = get_u16 e.i_format

unfoldable pub xattr_icount : ErofsInodeExtended → ℕ
xattr_icount e = get_u16 e.i_xattr_icount

unfoldable pub mode : ErofsInodeExtended → ℕ
mode e = get_u16 e.i_mode

unfoldable pub nb : ErofsInodeExtended → ℕ
nb e = get_u16 e.i_nb

unfoldable pub size : ErofsInodeExtended → ℕ
size e = get_u64 e.i_size

unfoldable pub i_u : ErofsInodeExtended → ℕ
i_u e = get_u32 e.i_u

unfoldable pub ino : ErofsInodeExtended → ℕ
ino e = get_u32 e.i_ino

unfoldable pub uid : ErofsInodeExtended → ℕ
uid e = get_u32 e.i_uid

unfoldable pub gid : ErofsInodeExtended → ℕ
gid e = get_u32 e.i_gid

unfoldable pub mtime : ErofsInodeExtended → ℕ
mtime e = get_u64 e.i_mtime

unfoldable pub mtime_nsec : ErofsInodeExtended → ℕ
mtime_nsec e = get_u32 e.i_mtime_nsec

unfoldable pub nlink : ErofsInodeExtended → ℕ
nlink e = get_u32 e.i_nlink

unfoldable pub new : ℕ → ℕ → ℕ → ℕ → ℕ → ℕ → ℕ → ℕ → ℕ → ℕ → ℕ → ErofsInodeExtended
new i_format i_mode i_nb i_size i_u i_ino i_uid i_gid i_mtime i_mtime_nsec i_nlink = record {
  i_format = set_u16 i_format;
  i_xattr_icount = zeros 2;
  i_mode = set_u16 i_mode;
  i_nb = set_u16 i_nb;
  i_size = set_u64 i_size;
  i_u = set_u32 i_u;
  i_ino = set_u32 i_ino;
  i_uid = set_u32 i_uid;
  i_gid = set_u32 i_gid;
  i_mtime = set_u64 i_mtime;
  i_mtime_nsec = set_u32 i_mtime_nsec;
  i_nlink = set_u32 i_nlink;
  i_reserved2 = zeros 16;
}

unfoldable pub as_bytes : ErofsInodeExtended → Bytes
as_bytes e =
    e.i_format
    ++ (e.i_xattr_icount
        ++ (e.i_mode
            ++ (e.i_nb
                ++ (e.i_size
                    ++ (e.i_u
                        ++ (e.i_ino
                            ++ (e.i_uid
                                ++ (e.i_gid
                                    ++ (e.i_mtime
                                        ++ (e.i_mtime_nsec ++ (e.i_nlink ++ e.i_reserved2)))))))))))

-- The view of the first 64 bytes.
unfoldable pub view : Bytes → ErofsInodeExtended
view b = record {
  i_format = field b 0 2;
  i_xattr_icount = field b 2 2;
  i_mode = field b 4 2;
  i_nb = field b 6 2;
  i_size = field b 8 8;
  i_u = field b 16 4;
  i_ino = field b 20 4;
  i_uid = field b 24 4;
  i_gid = field b 28 4;
  i_mtime = field b 32 8;
  i_mtime_nsec = field b 40 4;
  i_nlink = field b 44 4;
  i_reserved2 = field b 48 16;
}

unfoldable pub cast_ref : Bytes → IoResult ErofsInodeExtended
cast_ref b = assert (leb erofs_inode_extended_size (length b)) >> ok (view b)
