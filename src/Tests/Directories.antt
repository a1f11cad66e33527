-- ===== src/Tests/Directories.antt =====
-- A directory with two children, written and read.
use erofs_utils_rust.Base.{
  zeros, copy_at, ◌++◌, ◌<◌, ◌^◌, ◌*◌, refl, arith, [], Bytes, bytes_of, length, map, none, ok,
  map_ok, ◌>>=◌, ◌≡◌, List, Bool,
}
use erofs_utils_rust.Metadata.Dirent
use erofs_utils_rust.Metadata.InodeExtended
use erofs_utils_rust.Metadata.Inode
use erofs_utils_rust.Metadata.Inode.{ErofsInode, extended, extended_i_format}
use erofs_utils_rust.Fs.Reader.{ErofsReader}
use erofs_utils_rust.Fs.ReadDir.{read_dir_cached}
use erofs_utils_rust.Fs.Reader.Holds.{middle-Holds}
use erofs_utils_rust.Fs.ReadDir.Image.{read_dir_cached-serialize_directory}
use erofs_utils_rust.Build.Dir.{
  serialize_blocks, count_block, write_entries, entries_of, serialize_directory,
}
use erofs_utils_rust.Fs.DirEntries.{parse_dir_entries}
use erofs_utils_rust.Fs.DirEntries.Visit.{visit}
use erofs_utils_rust.Fs.DirEntries.RoundTrip.{parse_dir_entries-serialize_directory}
use erofs_utils_rust.Fs.ReadDir.{CachedDirEntry, push_entry}
use erofs_utils_rust.Fs.ReadDir.Listing.{cached}
use erofs_utils_rust.Fs.Fuse.{find_name}
use erofs_utils_rust.Fs.Fuse.Lookup.{first_named, find_name-serialize_directory}
use erofs_utils_rust.Tests.Data.{two_children, two_children-IsEntry}

parse_dir_entries-serialize_directory_example :
    (serialize_directory two_children 36 36 >>= λ (dir_data : Bytes).
    parse_dir_entries push_entry dir_data (length dir_data) [])
    ≡ map_ok
        (λ (x : List CachedDirEntry × Bool). x.0)
        (visit push_entry (entries_of two_children 36 36) [])
parse_dir_entries-serialize_directory_example =
    parse_dir_entries-serialize_directory push_entry two_children 36 36 [] two_children-IsEntry
      (omega arith) (omega arith)

find_name-serialize_directory_example :
    (serialize_directory two_children 36 36 >>= λ (dir_data : Bytes).
    parse_dir_entries (find_name (bytes_of "vmlinuz")) dir_data (length dir_data) none)
    ≡ ok (first_named (bytes_of "vmlinuz") (entries_of two_children 36 36))
find_name-serialize_directory_example =
    find_name-serialize_directory (bytes_of "vmlinuz") two_children 36 36 two_children-IsEntry
      (omega arith) (omega arith)

-- The block that the two children make, and an image that holds it at block 1.
abbrev root_block : Bytes
root_block =
    Dirent.as_bytes (Dirent.new 36 48 2)
    ++ (Dirent.as_bytes (Dirent.new 36 49 2)
        ++ (Dirent.as_bytes (Dirent.new 40 51 2)
            ++ (Dirent.as_bytes (Dirent.new 50 54 1)
                ++ (bytes_of "."
                    ++ (bytes_of ".." ++ (bytes_of "etc" ++ (bytes_of "vmlinuz" ++ zeros 4035)))))))

abbrev two_blocks : ErofsReader
two_blocks = record { mmap = zeros 4096 ++ (root_block ++ []); blob_mmap = none; sb_offset = 1024 }

abbrev dir_inode : ErofsInode
dir_inode = extended (InodeExtended.new (extended_i_format 0) 0o040755 0 4096 1 36 0 0 0 0 2)

root_block_made : serialize_directory two_children 36 36 ≡ ok root_block
unfolding serialize_directory serialize_blocks count_block write_entries copy_at Dirent.as_bytes
    Dirent.new
root_block_made = refl

root_block_size : Inode.size dir_inode ≡ length root_block
unfolding Inode.size InodeExtended.size InodeExtended.new Dirent.as_bytes Dirent.new
root_block_size = refl

dir_inode_plain : Inode.data_layout dir_inode ≡ 0
unfolding Inode.data_layout InodeExtended.format InodeExtended.new extended_i_format
dir_inode_plain = refl

dir_inode_start : Inode.startblk dir_inode * 4096 ≡ length (zeros 4096)
unfolding Inode.startblk Inode.i_u InodeExtended.i_u InodeExtended.new InodeExtended.nb
dir_inode_start = refl

two_blocks_small : length two_blocks.mmap < 2 ^ 64
unfolding Dirent.as_bytes Dirent.new
two_blocks_small = omega arith

read_dir_cached-serialize_directory_example :
    read_dir_cached two_blocks 36 dir_inode ≡ ok (map cached (entries_of two_children 36 36))
read_dir_cached-serialize_directory_example =
    read_dir_cached-serialize_directory two_blocks 36 dir_inode two_children 36 36 root_block
      two_children-IsEntry (omega arith) (omega arith) root_block_made dir_inode_plain
      root_block_size two_blocks_small (middle-Holds (zeros 4096) root_block [] _ dir_inode_start)
