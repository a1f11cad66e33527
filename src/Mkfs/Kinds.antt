-- ===== src/Mkfs/Kinds.antt =====
-- What an inode of the image has in common with that of the tree, by its kind, and the start block of
-- a directory.
use erofs_utils_rust.Base.{
  ℕ, ◌*◌, ◌/◌, ◌%◌, ◌^◌, ◌<◌, ◌≡◌, ap, ◌∙◌, arith, List, Bytes, u16, u32, shl64, shr,
}
use erofs_utils_rust.Base.Bits.{bit_or_sum}
use erofs_utils_rust.Metadata.Inode
use erofs_utils_rust.Metadata.Inode.{ErofsInode}
use erofs_utils_rust.Build.BlobChunk.{ChunkIndex}
use erofs_utils_rust.Build.Inode.{
  DirEntry, InodeData, regular_file, directory, symlink, special_dev, special_no_data,
}
use erofs_utils_rust.Mkfs.Cores.{core_data}

pub same_file :
    (d : InodeData) {cis : List ChunkIndex} → core_data d ≡ regular_file cis → d ≡ regular_file cis
same_file (regular_file cis) e = e
same_file (directory children startblk dir_data_size parent_nid) e = cc
same_file (symlink target) e = cc
same_file (special_dev rdev) e = cc
same_file special_no_data e = cc

pub same_link : (d : InodeData) {target : Bytes} → core_data d ≡ symlink target → d ≡ symlink target
same_link (symlink target) e = e
same_link (regular_file cis) e = cc
same_link (directory children startblk dir_data_size parent_nid) e = cc
same_link (special_dev rdev) e = cc
same_link special_no_data e = cc

pub same_dir :
    (d : InodeData) {children : List DirEntry}
    → core_data d ≡ directory children 0 0 0
    → (s : ℕ) × (n : ℕ) × (p : ℕ) × (d ≡ directory children s n p)
same_dir (directory children s n p) e =
    let same : children ≡ _ = cc in (s, n, p, ap (λ (x : List DirEntry). directory x s n p) same)
same_dir (regular_file cis) e = cc
same_dir (symlink target) e = cc
same_dir (special_dev rdev) e = cc
same_dir special_no_data e = cc

-- The start block of a directory is read back.
pub startblk-split :
    (v : ErofsInode) (s : ℕ)
    → s < 2 ^ 48
    → Inode.nb v ≡ u16 (shr s 32)
    → Inode.i_u v ≡ u32 s
    → Inode.startblk v ≡ s
unfolding Inode.startblk
startblk-split v s small nb i_u =
    let high : shl64 (Inode.nb v) 32 ≡ (s / 2 ^ 32) * 2 ^ 32 = omega (arith, nb) in
    let low : Inode.i_u v ≡ s % 2 ^ 32 = omega (arith, i_u) in
    rw (high, low) (bit_or_sum 32 (s / 2 ^ 32) (s % 2 ^ 32) (omega arith) ∙ omega arith)
