-- ===== src/Tests/Build.antt =====
-- Building inodes, blobs and images, and reading them back.
use erofs_utils_rust.Base.{
  All, ◌+◌, ◌<◌, ◌^◌, ◌≡◌, ◌≢◌, refl, arith, [], ◌∷◌, ◌++◌, List, map, Bytes, bytes_of, zeros,
  length, length-append, drop-append, append_assoc, ap, ◌∙◌, slice_from_lem, take, drop, false,
  Option, none, some, IoResult, ok, panic, ◌>>=◌,
}
use erofs_utils_rust.Metadata.Superblock
use erofs_utils_rust.Metadata.Superblock.{ErofsSuperblock}
use erofs_utils_rust.Metadata.Inode
use erofs_utils_rust.Metadata.Inode.{ErofsInode}
use erofs_utils_rust.Metadata.InodeExtended
use erofs_utils_rust.Metadata.Xattr.{xattr_ibody_size}
use erofs_utils_rust.Metadata.Xattr.Sizes.{xattr_ibody_size-cons}
use erofs_utils_rust.Build.BlobChunk.{BlobWriter, ChunkIndex, write_file_chunks}
use erofs_utils_rust.Build.BlobChunk
use erofs_utils_rust.Build.BlobChunk.Store.{IsBlob}
use erofs_utils_rust.Build.BlobChunk.Files.{IsFilled, write_file_chunks-IsFilled}
use erofs_utils_rust.Build.Inode.{
  InodeInfo, symlink, regular_file, serialize_inode, base_size, tail_size, inode_meta_size,
}
use erofs_utils_rust.Build.Inode.Image.{
  kind_of, inode_bytes, serialize_inode-eq, length-inode_bytes,
}
use erofs_utils_rust.Build.Inode.RoundTrip.{
  IsInode, Reads, cast-serialize_inode, mtime_read, mtime_read-past,
}
use erofs_utils_rust.Build.Image.{write_image, superblock_of}
use erofs_utils_rust.Build.Image.Opens.{IsImage, open_reader-write_image}
use erofs_utils_rust.Fs.Reader.{ErofsReader, sb, inode, nid_to_offset, open_reader}
use erofs_utils_rust.Metadata.Superblock.RoundTrip.{cast_ref-as_bytes, length-as_bytes}
use erofs_utils_rust.Fs.Reader.Holds.{middle-Holds}
use erofs_utils_rust.Fs.Flat.{read_symlink}
use erofs_utils_rust.Fs.FileData.{read_file_data_sync}
use erofs_utils_rust.Fs.Xattrs.{read_xattrs}
use erofs_utils_rust.Fs.Xattrs.RoundTrip.{IsXattr, listed}
use erofs_utils_rust.Fs.Xattrs.NoPanic.{read_xattrs-ne-panic}
use erofs_utils_rust.Fs.Stored.{IsStored, read_xattrs-serialize_inode, read_symlink-serialize_inode}
use erofs_utils_rust.Fs.Stored.Files.{read_file_data_sync-write_file_chunks}
use erofs_utils_rust.Tests.Data.{reader, superblock, uuid, chunked_file}
use erofs_utils_rust.Tests.Reader.{reader_sb}

-- A symbolic link with an xattr, changed before the epoch.
abbrev pub link : InodeInfo
link = record {
  mode = 0o120777;
  uid = 1000;
  gid = 100;
  size = 4;
  mtime = 1600000000;
  mtime_nsec = 0;
  nlink = 1;
  ino = 2;
  nid = 36;
  meta_offset = 0;
  is_extended = false;
  data_ = symlink (bytes_of "motd");
  xattrs = (1, bytes_of "tag", bytes_of "xyz") ∷ [];
}

pub link-IsInode : IsInode link
link-IsInode = record {
  mode_word = omega arith;
  uid_word = omega arith;
  gid_word = omega arith;
  size_word = omega arith;
  mtime_word = omega arith;
  nsec_word = omega arith;
  nlink_word = omega arith;
  ino_word = omega arith;
  data_fits = tt;
  xattrs_fit = omega arith;
  narrow_fits = λ narrow. (omega arith, omega arith, omega arith);
}

pub link_serialized : serialize_inode link 1700000000 12 ≡ ok (inode_bytes link 1700000000 12)
link_serialized = serialize_inode-eq link 1700000000 (omega arith) 12

cast-serialize_inode_example :
    (b : Bytes) × (v : ErofsInode) × (serialize_inode link 1700000000 12 ≡ ok b)
    × (Inode.cast (b ++ zeros 40) ≡ ok v)
    × Reads v link (kind_of link 12 link.data_)
cast-serialize_inode_example =
    cast-serialize_inode 0 link 1700000000 (zeros 40) (omega arith) link-IsInode

mtime_read-past_example : mtime_read link 1700000000 12 ≡ ok (1600000000 + 2 ^ 32)
mtime_read-past_example =
    mtime_read-past 0 link 1700000000 (omega arith) link-IsInode refl (omega arith) (omega arith)
      (omega arith)

-- The image has the superblock at 1024 and the inode behind it, at nid 36.
abbrev pub image_with : Bytes → Bytes
image_with bytes = (zeros 1024 ++ Superblock.as_bytes superblock) ++ (bytes ++ zeros 64)

abbrev pub reader_with : Bytes → Option Bytes → ErofsReader
reader_with bytes blob = record { mmap = image_with bytes; blob_mmap = blob; sb_offset = 1024 }

super_bytes-length : length (Superblock.as_bytes superblock) ≡ 128
super_bytes-length = length-as_bytes 0 0 36 1 0 1 0 0 0 uuid refl

image_with-length : (bytes : Bytes) → length (image_with bytes) ≡ 1152 + length bytes + 64
image_with-length bytes = omega (
  arith,
  super_bytes-length,
  length-append (zeros 1024 ++ Superblock.as_bytes superblock) (bytes ++ zeros 64),
  length-append (zeros 1024) (Superblock.as_bytes superblock),
  length-append bytes (zeros 64),
)

pub reader_with-sb :
    (bytes : Bytes) (blob : Option Bytes) → sb (reader_with bytes blob) ≡ ok superblock
unfolding sb
reader_with-sb bytes blob =
    ap (λ (m : IoResult Bytes). m >>= Superblock.cast_ref)
      (slice_from_lem (image_with bytes) 1024 (omega (arith, image_with-length bytes))
        ∙ ap ok (
            ap (drop 1024)
              (append_assoc (zeros 1024) (Superblock.as_bytes superblock) (bytes ++ zeros 64))
            ∙ drop-append (zeros 1024) _ 1024 refl))
    ∙ cast_ref-as_bytes 0 0 36 1 0 1 0 0 0 uuid (bytes ++ zeros 64) refl

reader_with-IsStored :
    (bytes : Bytes) (blob : Option Bytes)
    → length bytes < 2 ^ 32
    → IsStored (reader_with bytes blob) 36 bytes
unfolding nid_to_offset Superblock.meta_blkaddr Superblock.new
reader_with-IsStored bytes blob short = record {
  offset = 1152;
  located = rw (reader_with-sb bytes blob) refl;
  held = middle-Holds (zeros 1024 ++ Superblock.as_bytes superblock) bytes (zeros 64) 1152 (
      omega
        (arith, super_bytes-length, length-append (zeros 1024) (Superblock.as_bytes superblock)));
  wide = omega (arith, image_with-length bytes);
  small = omega (arith, image_with-length bytes);
}

abbrev pub link_bytes : Bytes
link_bytes = inode_bytes link 1700000000 12

abbrev pub link_reader : ErofsReader
link_reader = reader_with link_bytes none

link_bytes-short : length link_bytes < 2 ^ 32
unfolding inode_meta_size base_size tail_size
link_bytes-short = omega (
  arith,
  length-inode_bytes link 1700000000 (omega arith) 12,
  xattr_ibody_size-cons (1, bytes_of "tag", bytes_of "xyz") [] (omega arith),
)

pub link-IsStored : IsStored link_reader 36 link_bytes
link-IsStored = reader_with-IsStored link_bytes none link_bytes-short

pub link_xattrs-fit : All IsXattr link.xattrs
link_xattrs-fit = ((omega arith, omega arith), tt)

read_xattrs-serialize_inode_example :
    (inode link_reader 36 >>= read_xattrs link_reader 36) ≡ ok (map listed link.xattrs)
read_xattrs-serialize_inode_example =
    read_xattrs-serialize_inode link_reader 36 0 1700000000 link link_bytes (omega arith)
      link-IsInode ((omega arith, omega arith), tt) link_serialized
      (reader_with-IsStored link_bytes none link_bytes-short)

read_symlink-serialize_inode_example :
    (inode link_reader 36 >>= read_symlink link_reader 36) ≡ ok (bytes_of "motd")
read_symlink-serialize_inode_example =
    read_symlink-serialize_inode link_reader 36 0 1700000000 link link_bytes (bytes_of "motd")
      (omega arith) link-IsInode refl refl (omega arith) link_serialized
      (reader_with-IsStored link_bytes none link_bytes-short)

chunked_file_xattrs : Inode.xattr_size chunked_file < 2 ^ 32
unfolding Inode.xattr_size Inode.xattr_icount InodeExtended.xattr_icount InodeExtended.new
chunked_file_xattrs = omega arith

read_xattrs-ne-panic_example : read_xattrs reader 41 chunked_file ≢ panic
read_xattrs-ne-panic_example =
    read_xattrs-ne-panic reader superblock 41 chunked_file reader_sb chunked_file_xattrs

-- A blob with chunks of a block, a hash that is the chunk itself, and a file of 5 bytes.
abbrev pub content : Bytes
content = bytes_of "hello"

abbrev pub digest : Bytes → Bytes
digest piece = piece

abbrev pub Any : Bytes → Type 0
Any piece = Unit {0}

abbrev pub blob : BlobWriter
blob = record { file = []; chunksize = 4096; next_blkaddr = 0; dedup = []; saved_by_dedup = 0 }

pub blob-IsBlob : IsBlob digest Any blob
blob-IsBlob = record { aligned = refl; entries = tt }

write_file_chunks-IsFilled_example :
    (w' : BlobWriter) × (indexes : List ChunkIndex) × (write_file_chunks digest blob (ok content) 5
      ≡ ok (w', indexes))
    × IsFilled digest Any blob content w' indexes
write_file_chunks-IsFilled_example =
    write_file_chunks-IsFilled digest Any 4096 (omega arith) (λ a b seen_a seen_b same. same) blob
      content refl blob-IsBlob (λ k. tt) (omega arith)

abbrev pub indexes_of : List ChunkIndex
indexes_of = record { blkaddr = 0; device_id = 1 } ∷ []

abbrev pub filled : BlobWriter
filled = record {
  file = content ++ zeros 4091;
  chunksize = 4096;
  next_blkaddr = 1;
  dedup = (content, record { blkaddr = 0 }) ∷ [];
  saved_by_dedup = 0;
}

pub file_written : write_file_chunks digest blob (ok content) 5 ≡ ok (filled, indexes_of)
unfolding write_file_chunks BlobChunk.write_chunks BlobChunk.write_chunk BlobChunk.get
file_written = refl

abbrev pub greeting : InodeInfo
greeting = record link { mode = 0o100644; size = 5; data_ = regular_file indexes_of; xattrs = [] }

pub greeting-IsInode : IsInode greeting
greeting-IsInode = record {
  mode_word = omega arith;
  uid_word = omega arith;
  gid_word = omega arith;
  size_word = omega arith;
  mtime_word = omega arith;
  nsec_word = omega arith;
  nlink_word = omega arith;
  ino_word = omega arith;
  data_fits = tt;
  xattrs_fit = omega arith;
  narrow_fits = λ narrow. (omega arith, omega arith, omega arith);
}

greeting_serialized :
    serialize_inode greeting 1700000000 12 ≡ ok (inode_bytes greeting 1700000000 12)
greeting_serialized = serialize_inode-eq greeting 1700000000 (omega arith) 12

abbrev greeting_bytes : Bytes
greeting_bytes = inode_bytes greeting 1700000000 12

greeting_bytes-short : length greeting_bytes < 2 ^ 32
unfolding inode_meta_size base_size tail_size xattr_ibody_size
greeting_bytes-short = omega (arith, length-inode_bytes greeting 1700000000 (omega arith) 12)

abbrev greeting_reader : ErofsReader
greeting_reader = reader_with greeting_bytes (some (filled.file ++ []))

read_file_data_sync-write_file_chunks_example :
    (inode greeting_reader 36 >>= λ v. read_file_data_sync greeting_reader 36 v 1 3)
    ≡ ok (take 3 (drop 1 content))
unfolding Superblock.new
read_file_data_sync-write_file_chunks_example =
    read_file_data_sync-write_file_chunks digest Any blob filled content indexes_of greeting_reader
      superblock 36 0 1700000000 greeting greeting_bytes [] 1 3 (λ a b seen_a seen_b same. same)
      blob-IsBlob (omega arith) refl (λ k. tt) (omega arith) file_written greeting-IsInode refl refl
      greeting_serialized
      (reader_with-IsStored greeting_bytes (some (filled.file ++ [])) greeting_bytes-short)
      (reader_with-sb greeting_bytes (some (filled.file ++ []))) refl refl (omega arith)

-- An image of one metadata block that is not full.
open_reader-write_image_example :
    (img : Bytes) × (r : ErofsReader) × (write_image link_bytes 0 1 1700000000 1 uuid ≡ ok img)
    × (open_reader img (some filled.file) ≡ ok r)
    × (r.mmap ≡ img)
    × (r.blob_mmap ≡ some filled.file)
    × IsImage r link_bytes 0 1 1700000000 (superblock_of link_bytes 0 1 1700000000 uuid)
open_reader-write_image_example =
    open_reader-write_image link_bytes 0 1 1700000000 1 uuid refl (some filled.file) (omega arith)
      (omega arith) (omega arith)
