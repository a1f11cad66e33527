-- ===== src/Lib.antt =====
-- erofs-utils-rust: building, reading and serving EROFS images.
--
-- The program has three parts. `metadata` is the on-disk format: records of little-endian fields
-- and an allocator for the metadata area. `build` writes an image from a directory tree. `fs` maps
-- an image and a blob, and serves them over FUSE. The builder and the reader meet in the bytes of
-- the format: what `build` and `metadata` serialize is what `fs` casts and parses.
--
-- The files:
--   Base.antt, Base/: byte strings, machine words and `io::Result`. `IoResult` has a value, an
--     error kind, or `panic` for a failed assertion or an index out of range.
--   Metadata/RoundUp, LeBytes, Consts, Xattr: src/metadata/mod.rs (`round_up`, `get_u16` to
--     `set_u64`, `cast_ref`, the constants, xattr names and sizes).
--   Metadata/Superblock: src/metadata/superblock.rs. Metadata/InodeCompact, InodeExtended, Inode:
--     src/metadata/inode.rs. Metadata/Dirent: src/metadata/dir.rs. Metadata/Chunk, DeviceSlot:
--     src/metadata/chunk.rs. A record of the format has a field of bytes per array of the struct;
--     the lengths of the arrays are those that `new` and the casts give.
--   Metadata/Layout: src/metadata/layout.rs. The state of `MetadataLayout` is passed explicitly; an
--     allocation returns the new state, the offset and the nid or the start block.
--   Build/Dir: `serialize_directory` of src/build/dir.rs, a function per loop.
--   Build/BlobChunk: `BlobWriter` of src/build/blobchunk.rs. The hash of the blake3 crate is a
--     parameter, and the `HashMap` of the digests is an association list.
--   Build/Inode: `InodeInfo`, `inode_meta_size` and `serialize_inode` of src/build/inode.rs.
--     Build/Tree: `build_tree` and `read_xattrs_from_path` of the same file. The files of the system
--     are a tree with what the system answers for each; `Building` is what the recursion passes on.
--     Build/Image: `write_image` of src/build/image.rs.
--   Mkfs: the passes of src/bin/erofs-mkfs.rs from the list of inodes to the image. `inode_at` and
--     `update_at` stand for `inodes[i]`. Mkfs/Slots to Mkfs/LaidOut show where the passes put
--     things, Mkfs/Made and Mkfs/Serves what the reader finds there.
--   Fs/Reader: `ErofsReader` of src/fs/mod.rs, on the bytes of the two mappings.
--   Fs/DirEntries, ReadDir: `parse_dir_entries`, `for_each_dir_entry` and `read_dir_cached` of
--     src/fs/meta.rs. A callback is a function on the state that the closure captures.
--   Fs/Flat, Chunks, FileData: reading files, src/fs/data.rs and the flat reads of src/fs/meta.rs.
--   Fs/Xattrs: `read_xattrs` of src/fs/meta.rs.
--   Fs/Stored: images that hold an inode as the builder wrote it, and what reading it returns.
--   Fs/Fuse, Fuse/Handles, Fuse/Plus, Fuse/Xattrs: src/fs/fuse.rs. The handles are an association
--     list that stands for the `HashMap` behind the mutex, which each operation holds for its own
--     step on the table. Fuse/Handles/Resume has a client that reads a directory to its end
--     (`read_all`), and is no code of the repository.
--   Tests/: the theorems on concrete inputs, among them an image with a root directory.
--
-- Numbers are natural numbers with the wrap-around of a release build written out (`add64`, `sub64`,
-- `mul64`, `shl64`), on a target with 64-bit `usize`. Sums of lengths of objects that are in memory
-- do not wrap. Shifts by 64 or more are masked, as a release build masks them.
--
-- Loops that do not follow the structure of their data run on fuel, and `panic` stands for its end:
-- `serialize_blocks` has as many rounds as entries, and each round takes one at least;
-- `parse_blocks` has a round per block and one more; the chunk loops have a round per byte asked
-- for, and each round reads one at least. The round trips show that the first two do not run out,
-- and Fs/Chunks/Complete that the last do not. `read_entries` of the xattrs has a round per byte of
-- the body, and each entry takes four at least. `write_chunks` is a `for` loop with a round per chunk
-- of the file, and `trailing_zeros` has a round per bit of a `u32`. `read_all` has as many calls as it
-- is given, and a call more than there are entries is enough.
--
-- A writer is the bytes that were written to it, and takes all that it is given. A name is its
-- bytes. The text of an error is dropped, and its kind is kept.
--
-- Not modelled: mapping files into memory and the other calls of the system; arguments, messages
-- and the clock of src/bin/erofs-mkfs.rs, and src/bin/erofs-fuse.rs, which mounts and serves through
-- the fuse crate; `init`, which asks for a constant set of options; the async forms of the
-- operations, which call the sync ones or repeat their code; `read_dir`, whose names are made lossy.
pub mod Base
pub mod Metadata
pub mod Build
pub mod Mkfs
pub mod Fs
pub mod Tests
