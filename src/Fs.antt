-- ===== src/Fs.antt =====
-- src/fs: the reader of an image.
pub mod DirEntries
pub mod Reader
pub mod Flat
pub mod Chunks
pub mod FileData
pub mod ReadDir
pub mod Fuse
pub mod Xattrs
pub mod Stored
