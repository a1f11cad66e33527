-- ===== src/Tests/Handles.antt =====
-- Opening, reading and releasing the root directory of the image.
use erofs_utils_rust.Base.{
  slice, slice_from, ℕ, ◌≡◌, ◌≢◌, refl, arith, [], ◌∷◌, List, bytes_of, ok, err, os, take, drop,
  map, map_ok,
}
use erofs_utils_rust.Metadata.Superblock
use erofs_utils_rust.Metadata.InodeCompact
use erofs_utils_rust.Metadata.Dirent
use erofs_utils_rust.Metadata.Inode
use erofs_utils_rust.Metadata.Inode.{compact_i_format}
use erofs_utils_rust.Fs.Reader
use erofs_utils_rust.Fs.Flat
use erofs_utils_rust.Fs.ReadDir
use erofs_utils_rust.Fs.DirEntries
use erofs_utils_rust.Fs.Fuse
use erofs_utils_rust.Fs.Reader.{sb}
use erofs_utils_rust.Fs.ReadDir.{CachedDirEntry}
use erofs_utils_rust.Fs.Fuse.Handles.{
  get, insert, remove, create_dir_handle, ErofsFs, new, opendir, releasedir, readdir,
  get_dir_handle,
}
use erofs_utils_rust.Fs.Fuse.Handles.Table.{
  IsFs, Opened, new-IsFs, opendir-Opened, releasedir-get_dir_handle,
}
use erofs_utils_rust.Fs.Fuse.Handles.Pages.{Page, fill_page, numbered, readdir-fill_page}
use erofs_utils_rust.Fs.Fuse.Handles.Resume.{delivered, listed_as, read_all, readdir_resume}
use erofs_utils_rust.Tests.Data.{reader, superblock}
use erofs_utils_rust.Tests.Reader.{reader_sb}

abbrev pub root_listing : List CachedDirEntry
root_listing =
    record { nid = 36; file_type = 2; name = bytes_of "." }
    ∷ record { nid = 36; file_type = 2; name = bytes_of ".." }
    ∷ []

abbrev pub opened : ErofsFs
opened = record { reader = reader; dir_handles = (1, root_listing) ∷ []; next_dir_handle = 2 }

root_opens : opendir (new reader) 1 ≡ ok (opened, 1)
unfolding opendir create_dir_handle Fuse.to_nid new Reader.inode Reader.sb Reader.nid_to_offset
    Reader.mmap_slice Reader.checked_slice slice slice_from Superblock.cast_ref Superblock.view
    Superblock.new Superblock.as_bytes Superblock.root_nid Superblock.meta_blkaddr
    InodeCompact.as_bytes InodeCompact.new InodeCompact.cast_ref InodeCompact.view InodeCompact.mode
    InodeCompact.size InodeCompact.format InodeCompact.xattr_icount compact_i_format Dirent.as_bytes
    Dirent.new Dirent.cast_ref Dirent.nid Dirent.nameoff Dirent.file_type Inode.cast Inode.cast_as
    Inode.is_compact_format Inode.mode Inode.size Inode.data_layout Inode.header_size
    Inode.xattr_size Inode.xattr_icount Flat.read_flat_data Flat.read_inline_layout
    Flat.blocks_size_of Flat.full_header_size Flat.inline_region ReadDir.dir_data_of
    ReadDir.for_each_dir_entry ReadDir.read_dir_cached ReadDir.push_entry
    DirEntries.parse_dir_entries DirEntries.parse_blocks DirEntries.parse_block
    DirEntries.name_end_of DirEntries.scan_name insert remove
root_opens = refl

opened-IsFs : IsFs opened
unfolding new
opened-IsFs =
    Opened.valid (opendir-Opened (new reader) 1 opened 1 (new-IsFs reader) (omega arith) root_opens)

pub stands : get_dir_handle opened 1 ≡ ok root_listing
unfolding get_dir_handle get
stands = refl

opendir-Opened_example : Opened (new reader) 1 opened 1
unfolding new
opendir-Opened_example =
    opendir-Opened (new reader) 1 opened 1 (new-IsFs reader) (omega arith) root_opens

releasedir-get_dir_handle_example :
    (get_dir_handle (releasedir opened 1) 1 ≡ err (os 9))
    × ((h : ℕ) → h ≢ 1 → get_dir_handle (releasedir opened 1) h ≡ get_dir_handle opened h)
    × IsFs (releasedir opened 1)
releasedir-get_dir_handle_example = releasedir-get_dir_handle opened 1 opened-IsFs

readdir-fill_page_example :
    map_ok (λ (p : Page). p.1) (readdir fill_page opened 1 1 (5, []))
    ≡ ok (take 5 (drop 1 (numbered superblock 0 root_listing)))
readdir-fill_page_example = readdir-fill_page opened superblock 1 1 5 root_listing reader_sb stands

-- One entry per call.
readdir_resume_example :
    map_ok (map delivered) (read_all opened 1 (λ n. 1) 3 0)
    ≡ ok (map (listed_as superblock) (drop 0 root_listing))
readdir_resume_example =
    readdir_resume opened superblock 1 (λ n. 1) root_listing reader_sb stands (λ n. omega arith) 3 0
      (omega arith)
