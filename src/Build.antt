-- ===== src/Build.antt =====
-- src/build: the creation of an image.
pub mod Dir
pub mod BlobChunk
pub mod Inode
pub mod Image
pub mod Tree
