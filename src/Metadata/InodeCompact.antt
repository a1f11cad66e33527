-- ===== src/Metadata/InodeCompact.antt =====
-- src/metadata/inode.rs: `ErofsInodeCompact`, 32 bytes.
use erofs_utils_rust.Base.{ℕ, ◌++◌, Bytes, zeros, length, leb, ok, IoResult, assert, ◌>>◌}
use erofs_utils_rust.Metadata.Consts.{erofs_inode_compact_size}
use erofs_utils_rust.Metadata.LeBytes.{get_u16, get_u32, set_u16, set_u32, field}

pub record ErofsInodeCompact : Type 0 where
  pub i_format : Bytes
  pub i_xattr_icount : Bytes
  pub i_mode : Bytes
  pub i_nb : Bytes
  pub i_size : Bytes
  pub i_mtime : Bytes
  pub i_u : Bytes
  pub i_ino : Bytes
  pub i_uid : Bytes
  pub i_gid : Bytes
  pub i_reserved : Bytes

unfoldable pub format : ErofsInodeCompact → ℕ
format c = get_u16 c.i_format

unfoldable pub xattr_icount : ErofsInodeCompact → ℕ
xattr_icount c = get_u16 c.i_xattr_icount

unfoldable pub mode : ErofsInodeCompact → ℕ
mode c = get_u16 c.i_mode

unfoldable pub nb : ErofsInodeCompact → ℕ
nb c = get_u16 c.i_nb

unfoldable pub size : ErofsInodeCompact → ℕ
size c = get_u32 c.i_size

unfoldable pub mtime_delta : ErofsInodeCompact → ℕ
mtime_delta c = get_u32 c.i_mtime

unfoldable pub i_u : ErofsInodeCompact → ℕ
i_u c = get_u32 c.i_u

unfoldable pub ino : ErofsInodeCompact → ℕ
ino c = get_u32 c.i_ino

unfoldable pub uid : ErofsInodeCompact → ℕ
uid c = get_u16 c.i_uid

unfoldable pub gid : ErofsInodeCompact → ℕ
gid c = get_u16 c.i_gid

unfoldable pub new : ℕ → ℕ → ℕ → ℕ → ℕ → ℕ → ℕ → ℕ → ℕ → ErofsInodeCompact
new i_format i_mode i_nb i_size i_mtime i_u i_ino i_uid i_gid = record {
  i_format = set_u16 i_format;
  i_xattr_icount = zeros 2;
  i_mode = set_u16 i_mode;
  i_nb = set_u16 i_nb;
  i_size = set_u32 i_size;
  i_mtime = set_u32 i_mtime;
  i_u = set_u32 i_u;
  i_ino = set_u32 i_ino;
  i_uid = set_u16 i_uid;
  i_gid = set_u16 i_gid;
  i_reserved = zeros 4;
}

unfoldable pub as_bytes : ErofsInodeCompact → Bytes
as_bytes c =
    c.i_format
    ++ (c.i_xattr_icount
        ++ (c.i_mode
            ++ (c.i_nb
                ++ (c.i_size
                    ++ (c.i_mtime
                        ++ (c.i_u ++ (c.i_ino ++ (c.i_uid ++ (c.i_gid ++ c.i_reserved)))))))))

-- The view of the first 32 bytes.
unfoldable pub view : Bytes → ErofsInodeCompact
view b = record {
  i_format = field b 0 2;
  i_xattr_icount = field b 2 2;
  i_mode = field b 4 2;
  i_nb = field b 6 2;
  i_size = field b 8 4;
  i_mtime = field b 12 4;
  i_u = field b 16 4;
  i_ino = field b 20 4;
  i_uid = field b 24 2;
  i_gid = field b 26 2;
  i_reserved = field b 28 4;
}

unfoldable pub cast_ref : Bytes → IoResult ErofsInodeCompact
cast_ref b = assert (leb erofs_inode_compact_size (length b)) >> ok (view b)
