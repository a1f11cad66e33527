-- ===== src/Metadata/Consts.antt =====
-- src/metadata/mod.rs: the constants of the format.
use erofs_utils_rust.Base.{ℕ, ◌-◌, ◌^◌}

abbrev pub erofs_super_magic_v1 : ℕ
erofs_super_magic_v1 = 0xE0F5_E1E2

abbrev pub erofs_super_offset : ℕ
erofs_super_offset = 1024

abbrev pub erofs_block_size : ℕ
erofs_block_size = 4096

abbrev pub erofs_blkszbits : ℕ
erofs_blkszbits = 12

abbrev pub erofs_slotsize : ℕ
erofs_slotsize = 2 ^ 5

abbrev pub erofs_feature_compat_sb_chksum : ℕ
erofs_feature_compat_sb_chksum = 1

abbrev pub erofs_feature_compat_mtime : ℕ
erofs_feature_compat_mtime = 2

abbrev pub erofs_feature_incompat_chunked_file : ℕ
erofs_feature_incompat_chunked_file = 4

abbrev pub erofs_feature_incompat_device_table : ℕ
erofs_feature_incompat_device_table = 8

abbrev pub erofs_inode_flat_plain : ℕ
erofs_inode_flat_plain = 0

abbrev pub erofs_inode_flat_inline : ℕ
erofs_inode_flat_inline = 2

abbrev pub erofs_inode_chunk_based : ℕ
erofs_inode_chunk_based = 4

abbrev pub erofs_inode_layout_compact : ℕ
erofs_inode_layout_compact = 0

abbrev pub erofs_inode_layout_extended : ℕ
erofs_inode_layout_extended = 1

abbrev pub erofs_i_version_bit : ℕ
erofs_i_version_bit = 0

abbrev pub erofs_i_datalayout_bit : ℕ
erofs_i_datalayout_bit = 1

abbrev pub erofs_i_nlink_1_bit : ℕ
erofs_i_nlink_1_bit = 4

abbrev pub erofs_chunk_format_indexes : ℕ
erofs_chunk_format_indexes = 0x20

abbrev pub erofs_ft_reg_file : ℕ
erofs_ft_reg_file = 1

abbrev pub erofs_ft_dir : ℕ
erofs_ft_dir = 2

abbrev pub erofs_ft_chrdev : ℕ
erofs_ft_chrdev = 3

abbrev pub erofs_ft_blkdev : ℕ
erofs_ft_blkdev = 4

abbrev pub erofs_ft_fifo : ℕ
erofs_ft_fifo = 5

abbrev pub erofs_ft_sock : ℕ
erofs_ft_sock = 6

abbrev pub erofs_ft_symlink : ℕ
erofs_ft_symlink = 7

abbrev pub erofs_null_addr : ℕ
erofs_null_addr = 2 ^ 64 - 1

abbrev pub erofs_xattr_ibody_header_size : ℕ
erofs_xattr_ibody_header_size = 12

abbrev pub erofs_xattr_entry_header_size : ℕ
erofs_xattr_entry_header_size = 4

abbrev pub erofs_sb_base_size : ℕ
erofs_sb_base_size = 128

abbrev pub erofs_inode_compact_size : ℕ
erofs_inode_compact_size = 32

abbrev pub erofs_inode_extended_size : ℕ
erofs_inode_extended_size = 64

abbrev pub erofs_chunk_index_size : ℕ
erofs_chunk_index_size = 8

abbrev pub erofs_dirent_size : ℕ
erofs_dirent_size = 12

abbrev pub erofs_deviceslot_size : ℕ
erofs_deviceslot_size = 128
