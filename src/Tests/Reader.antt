-- ===== src/Tests/Reader.antt =====
-- The reader on the image of Tests/Data.antt.
use erofs_utils_rust.Base.{
  ◌<◌, ◌^◌, ◌≡◌, ◌≢◌, refl, arith, inl, drop, slice_from, [], none, ok, panic, map_ok, ◌>>=◌,
}
use erofs_utils_rust.Metadata.Superblock
use erofs_utils_rust.Metadata.InodeCompact
use erofs_utils_rust.Metadata.Dirent
use erofs_utils_rust.Metadata.Inode.{compact_i_format}
use erofs_utils_rust.Fs.Reader.{open_reader, superblock_from, sb, checked_slice}
use erofs_utils_rust.Fs.Reader.Open.{open_reader-sb, checked_slice-ne-panic}
use erofs_utils_rust.Fs.FileData.{write_file_data_to, read_file_data_sync}
use erofs_utils_rust.Fs.FileData.Equivalence.{served, write_file_data_to-read_file_data_sync}
use erofs_utils_rust.Fs.Fuse.{to_nid, to_ino}
use erofs_utils_rust.Fs.Fuse.Inodes.{to_nid-to_ino}
use erofs_utils_rust.Metadata.Inode
use erofs_utils_rust.Metadata.InodeExtended
use erofs_utils_rust.Fs.FileData.NoPanic.{read_file_data_sync-ne-panic}
use erofs_utils_rust.Tests.Data.{image, reader, superblock, file, chunked_file}

pub image_opens : open_reader image none ≡ ok reader
unfolding open_reader superblock_from Superblock.cast_ref slice_from Superblock.view Superblock.new
    Superblock.as_bytes InodeCompact.as_bytes InodeCompact.new compact_i_format Dirent.as_bytes
    Dirent.new Superblock.magic
image_opens = refl

pub reader_sb : sb reader ≡ ok superblock
unfolding sb Superblock.cast_ref slice_from Superblock.view Superblock.new Superblock.as_bytes
    InodeCompact.as_bytes InodeCompact.new compact_i_format Dirent.as_bytes Dirent.new
reader_sb = refl

open_reader-sb_example :
    (reader.mmap ≡ image)
    × (reader.blob_mmap ≡ none)
    × (sb reader ≡ ok (Superblock.view (drop 1024 image)))
    × (Superblock.magic (Superblock.view (drop 1024 image)) ≡ 0xE0F5_E1E2)
open_reader-sb_example = open_reader-sb image none reader image_opens

checked_slice-ne-panic_example : checked_slice image 18446744073709551615 1 ≢ panic
checked_slice-ne-panic_example = checked_slice-ne-panic image 18446744073709551615 1

to_nid-to_ino_example : (to_ino reader 36 >>= to_nid reader) ≡ ok 36
to_nid-to_ino_example =
    to_nid-to_ino reader superblock 36 reader_sb (inl (omega arith)) (omega arith)

write_file_data_to-read_file_data_sync_example :
    write_file_data_to reader 40 file 0 8192 []
    ≡ map_ok (served file 0 8192 []) (read_file_data_sync reader 40 file 0 8192)
write_file_data_to-read_file_data_sync_example =
    write_file_data_to-read_file_data_sync reader 40 file 0 8192 []

chunked_file_small : Inode.size chunked_file < 2 ^ 58
unfolding Inode.size InodeExtended.size InodeExtended.new
chunked_file_small = omega arith

read_file_data_sync-ne-panic_example : read_file_data_sync reader 41 chunked_file 100 4096 ≢ panic
read_file_data_sync-ne-panic_example =
    read_file_data_sync-ne-panic reader superblock 41 chunked_file 100 4096 reader_sb
      chunked_file_small
