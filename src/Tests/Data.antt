-- ===== src/Tests/Data.antt =====
-- An image with a root directory, as the tests use it: the superblock at 1024, and behind it the
-- root's inode with its directory inline.
use erofs_utils_rust.Base.{arith, [], ◌∷◌, ◌++◌, List, Bytes, bytes_of, zeros, false, none, All}
use erofs_utils_rust.Metadata.Superblock
use erofs_utils_rust.Metadata.Superblock.{ErofsSuperblock}
use erofs_utils_rust.Metadata.InodeCompact
use erofs_utils_rust.Metadata.InodeExtended
use erofs_utils_rust.Metadata.Inode.{ErofsInode, extended, compact_i_format, extended_i_format}
use erofs_utils_rust.Metadata.Dirent
use erofs_utils_rust.Build.Dir.{DirChild}
use erofs_utils_rust.Build.Dir.Block.{IsEntry}
use erofs_utils_rust.Fs.Reader.{ErofsReader}

abbrev pub uuid : Bytes
uuid = zeros 16

-- The metadata area begins at block 0, and the root is nid 36.
abbrev pub superblock : ErofsSuperblock
superblock = Superblock.new 0 0 36 1 0 1 0 0 0 uuid

abbrev pub etc : DirChild
etc = record { name = bytes_of "etc"; nid = 40; file_type = 2 }

abbrev pub vmlinuz : DirChild
vmlinuz = record { name = bytes_of "vmlinuz"; nid = 50; file_type = 1 }

abbrev pub two_children : List DirChild
two_children = etc ∷ vmlinuz ∷ []

pub etc-IsEntry : IsEntry etc
etc-IsEntry = record {
  name_pos = omega arith;
  no_nul = ground arith;
  name_fits = omega arith;
  nid_word = omega arith;
}

pub vmlinuz-IsEntry : IsEntry vmlinuz
vmlinuz-IsEntry = record {
  name_pos = omega arith;
  no_nul = ground arith;
  name_fits = omega arith;
  nid_word = omega arith;
}

pub two_children-IsEntry : All IsEntry two_children
two_children-IsEntry = (etc-IsEntry, (vmlinuz-IsEntry, tt))

-- A directory of 27 bytes, laid out inline.
abbrev pub root_inode : Bytes
root_inode =
    InodeCompact.as_bytes (InodeCompact.new (compact_i_format 2 false) 0o040755 0 27 0 0 36 0 0)

abbrev pub root_entries : Bytes
root_entries =
    Dirent.as_bytes (Dirent.new 36 24 2)
    ++ (Dirent.as_bytes (Dirent.new 36 25 2) ++ (bytes_of "." ++ bytes_of ".."))

abbrev pub image : Bytes
image = zeros 1024 ++ (Superblock.as_bytes superblock ++ (root_inode ++ (root_entries ++ zeros 64)))

abbrev pub reader : ErofsReader
reader = record { mmap = image; blob_mmap = none; sb_offset = 1024 }

-- A file of 5000 bytes, one block of which stands at block 1 and the rest inline.
abbrev pub file : ErofsInode
file = extended (InodeExtended.new (extended_i_format 2) 0o100644 0 5000 1 40 0 0 0 0 1)

-- A file of 8192 bytes in chunks.
abbrev pub chunked_file : ErofsInode
chunked_file = extended (InodeExtended.new (extended_i_format 4) 0o100644 0 8192 0 41 0 0 0 0 1)
