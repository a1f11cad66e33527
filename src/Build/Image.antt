-- ===== src/Build/Image.antt =====
-- src/build/image.rs: `write_image`. The image is the bytes that were written; the writer takes all
-- that it is given.
pub mod Opens
use erofs_utils_rust.Base.{
  ℕ, ◌+◌, ◌-◌, ◌/◌, ◌%◌, ◌++◌, Bytes, zeros, length, ◌==◌, if◌then◌else◌, div_ceil, u16, bit_or,
  copy_at, IoResult, ok, ◌>>=◌,
}
use erofs_utils_rust.Metadata.Consts.{
  erofs_block_size, erofs_feature_compat_mtime, erofs_feature_incompat_chunked_file,
  erofs_feature_incompat_device_table, erofs_super_offset, erofs_sb_base_size,
  erofs_deviceslot_size,
}
use erofs_utils_rust.Metadata.Superblock
use erofs_utils_rust.Metadata.Superblock.{ErofsSuperblock}
use erofs_utils_rust.Metadata.DeviceSlot

abbrev pub meta_blkaddr : ℕ
meta_blkaddr = 1

-- The superblock of the image.
unfoldable pub superblock_of : Bytes → ℕ → ℕ → ℕ → Bytes → ErofsSuperblock
superblock_of metadata_buf root_nid total_inodes epoch uuid =
    let total_blocks = 1 + div_ceil (length metadata_buf) erofs_block_size in
    let feature_incompat =
      bit_or erofs_feature_incompat_chunked_file erofs_feature_incompat_device_table in
    let devt_slotoff = u16 (erofs_super_offset + erofs_sb_base_size) / erofs_deviceslot_size in
    Superblock.new erofs_feature_compat_mtime feature_incompat root_nid total_inodes epoch
      total_blocks meta_blkaddr 1 devt_slotoff uuid

unfoldable pub write_image : Bytes → ℕ → ℕ → ℕ → ℕ → Bytes → IoResult Bytes
unfolding superblock_of
write_image metadata_buf root_nid total_inodes epoch blob_blocks uuid = do
  let sb = superblock_of metadata_buf root_nid total_inodes epoch uuid
  with_sb ← copy_at (zeros erofs_block_size) erofs_super_offset (Superblock.as_bytes sb)
  let devslot_offset = erofs_super_offset + erofs_sb_base_size
  block0 ← copy_at with_sb devslot_offset (DeviceSlot.as_bytes (DeviceSlot.new blob_blocks))
  let written = block0 ++ metadata_buf
  let remainder = length metadata_buf % erofs_block_size
  ok (if remainder == 0 then written else written ++ zeros (erofs_block_size - remainder))
