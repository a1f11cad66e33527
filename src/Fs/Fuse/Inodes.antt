-- ===== src/Fs/Fuse/Inodes.antt =====
-- FUSE inode numbers and nids.
use erofs_utils_rust.Base.{ℕ, ◌+◌, ◌^◌, ◌<◌, ◌≡◌, ◌≢◌, ◌⊎◌, arith, ok, ◌>>=◌}
use erofs_utils_rust.Metadata.Superblock
use erofs_utils_rust.Metadata.Superblock.{ErofsSuperblock}
use erofs_utils_rust.Fs.Reader.{ErofsReader, sb}
use erofs_utils_rust.Fs.Fuse.{to_nid, to_ino}

-- With a readable superblock, the FUSE number given to a nid leads back to the nid, unless the
-- nid is 0 and is not the root, or is the last 64-bit number.
pub to_nid-to_ino :
    (r : ErofsReader) (s : ErofsSuperblock) (nid : ℕ)
    → sb r ≡ ok s
    → (nid ≢ 0) ⊎ (Superblock.root_nid s ≡ 0)
    → nid + 1 < 2 ^ 64
    → (to_ino r nid >>= to_nid r) ≡ ok nid
unfolding to_nid to_ino
to_nid-to_ino r s nid e free h = rw e (ground (arith, e))
