-- ===== src/Metadata.antt =====
-- src/metadata: the on-disk format that the builder and the reader share.
pub mod Consts
pub mod RoundUp
pub mod LeBytes
pub mod Dirent
pub mod Chunk
pub mod DeviceSlot
pub mod InodeCompact
pub mod InodeExtended
pub mod Inode
pub mod Superblock
pub mod Xattr
pub mod Layout
