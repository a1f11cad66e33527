-- ===== src/Tests/Walk.antt =====
-- Walking a directory with two names for one file.
use erofs_utils_rust.Base.{
  ◌<◌, ◌≡◌, refl, [], ◌∷◌, List, bytes_of, length, All, true, false, none, ok,
}
use erofs_utils_rust.Build.BlobChunk.{write_file_chunks}
use erofs_utils_rust.Build.Inode.{InodeInfo, directory, regular_file, mode_to_file_type}
use erofs_utils_rust.Build.Tree.{FileMeta, Answers, Node, node, nil, entry, build_tree}
use erofs_utils_rust.Build.Tree
use erofs_utils_rust.Build.Tree.Kept.{Numbers}
use erofs_utils_rust.Build.Tree.Walk.{build_tree-IsBuilt}
use erofs_utils_rust.Mkfs.{update_at}
use erofs_utils_rust.Mkfs.Parents.{HasChildren}
use erofs_utils_rust.Tests.Build.{digest, blob}

abbrev dir_meta : FileMeta
dir_meta = record {
  mode = 0o040755;
  uid = 0;
  gid = 0;
  size = 4096;
  mtime = 1600000000;
  mtime_nsec = 0;
  nlink = 1;
  rdev = 0;
  dev = 1;
  ino = 6;
}

abbrev file_meta : FileMeta
file_meta = record dir_meta { mode = 0o100644; size = 0; nlink = 2; ino = 7 }

abbrev answers : Answers
answers = record { xattrs = none; opened = ok []; link = ok []; listed = ok tt }

abbrev source : Node
source = node dir_meta answers (
    entry (bytes_of "b") (node file_meta answers nil)
      (entry (bytes_of "a") (node file_meta answers nil) nil))

abbrev found : List InodeInfo
found =
    record {
      mode = 0o040755;
      uid = 0;
      gid = 0;
      size = 0;
      mtime = 1600000000;
      mtime_nsec = 0;
      nlink = 1;
      ino = 1;
      nid = 0;
      meta_offset = 0;
      is_extended = false;
      data_ =
          directory
            (record { name = bytes_of "a"; file_type = 1; inode_idx = 1 }
              ∷ record { name = bytes_of "b"; file_type = 1; inode_idx = 1 }
              ∷ [])
            0 0 0;
      xattrs = [];
    }
    ∷ record {
      mode = 0o100644;
      uid = 0;
      gid = 0;
      size = 0;
      mtime = 1600000000;
      mtime_nsec = 0;
      nlink = 2;
      ino = 2;
      nid = 0;
      meta_offset = 0;
      is_extended = true;
      data_ = regular_file [];
      xattrs = [];
    }
    ∷ []

source_walked : build_tree digest (λ name. name) source blob ≡ ok (blob, found)
unfolding build_tree Tree.sorted Tree.insert_entry Tree.name_lt Tree.build_tree_recursive
    Tree.is_kind Tree.existing_link Tree.get_link Tree.insert_link Tree.unless_linked Tree.leaf_data
    Tree.push_inode Tree.new_inode Tree.with_children Tree.read_xattrs_from_path update_at
    write_file_chunks mode_to_file_type
source_walked = refl

build_tree-IsBuilt_example :
    (0 < length found)
    × All (λ (i : InodeInfo). HasChildren (length found) i.data_) found
    × Numbers 1 found
build_tree-IsBuilt_example =
    build_tree-IsBuilt digest (λ name. name) source blob blob found source_walked
