-- ===== src/Tests/Metadata.antt =====
-- The records of the format, the allocator and the xattrs.
use erofs_utils_rust.Base.{
  List, ◌+◌, ◌-◌, ◌*◌, ◌%◌, ◌^◌, ◌<◌, ◌≤◌, ◌≡◌, refl, arith, [], ◌∷◌, ◌++◌, bytes_of, zeros, false,
  some, ok, u32,
}
use mathlib.Core.Option
use erofs_utils_rust.Metadata.LeBytes.{get_u16}
use erofs_utils_rust.Metadata.Consts.{erofs_super_magic_v1, erofs_blkszbits}
use erofs_utils_rust.Metadata.RoundUp.{round_up, round_up-IsLeast}
use erofs_utils_rust.Metadata.Chunk
use erofs_utils_rust.Metadata.Chunk.{blkaddr-new, blkaddr-lt, IsChunkIndex}
use erofs_utils_rust.Metadata.InodeCompact
use erofs_utils_rust.Metadata.Inode
use erofs_utils_rust.Metadata.Inode.{compact, extended}
use erofs_utils_rust.Metadata.Inode.RoundTrip.{compact_header}
use erofs_utils_rust.Metadata.Superblock
use erofs_utils_rust.Metadata.Superblock.RoundTrip
use erofs_utils_rust.Metadata.Layout.{MetadataLayout, alloc_inode, alloc_dir_data}
use erofs_utils_rust.Metadata.Layout.Invariant.{
  IsLayout, Extends, alloc_inode-Extends, alloc_dir_data-Extends,
}
use erofs_utils_rust.Metadata.Layout.Writes.{WritesTo, write_at-WritesTo}
use erofs_utils_rust.Metadata.Xattr.{
  Xattr, strip_prefix, ibody_size_loop, entry_size, erofs_xattr_prefix, erofs_xattr_name_split,
  xattr_ibody_size, xattr_icount,
}
use erofs_utils_rust.Metadata.Xattr.Names.{prefix-name_split, name_split-prefix}
use erofs_utils_rust.Metadata.Xattr.Sizes.{xattr_size-xattr_icount}
use erofs_utils_rust.Tests.Data.{uuid, superblock}

round_up-IsLeast_example :
    (4097 ≤ round_up 4097 (2 ^ 12))
    × (round_up 4097 (2 ^ 12) < 4097 + 2 ^ 12)
    × (round_up 4097 (2 ^ 12) % 2 ^ 12 ≡ 0)
round_up-IsLeast_example = round_up-IsLeast 12 (omega arith) 4097 (omega arith)

null_IsChunkIndex : IsChunkIndex (Chunk.new (2 ^ 64 - 1) 0)
unfolding Chunk.new
null_IsChunkIndex = record {
  hi_length = refl;
  lo_length = refl;
  hi_bytes = ground arith;
  lo_bytes = ground arith;
}

blkaddr-lt_example : Chunk.blkaddr (Chunk.new (2 ^ 64 - 1) 0) < 2 ^ 48
blkaddr-lt_example = blkaddr-lt (Chunk.new (2 ^ 64 - 1) 0) null_IsChunkIndex

cast_ref-as_bytes_example :
    Superblock.cast_ref (Superblock.as_bytes superblock ++ (1 ∷ [])) ≡ ok superblock
cast_ref-as_bytes_example = RoundTrip.cast_ref-as_bytes 0 0 36 1 0 1 0 0 0 uuid (1 ∷ []) refl

fields_new_example :
    let sb = Superblock.new 7 0 36 1 5 (2 ^ 32 + 1) 1 0 9 uuid in
    (Superblock.magic sb ≡ erofs_super_magic_v1)
    × (Superblock.feature_compat sb ≡ 6)
    × (Superblock.feature_incompat sb ≡ 0)
    × (Superblock.root_nid sb ≡ 36)
    × (Superblock.inos sb ≡ 1)
    × (Superblock.epoch sb ≡ 5)
    × (Superblock.blocks sb ≡ u32 (2 ^ 32 + 1))
    × (Superblock.meta_blkaddr sb ≡ 1)
    × (Superblock.extra_devices sb ≡ 0)
    × (sb.blkszbits ≡ erofs_blkszbits)
    × (get_u16 sb.devt_slotoff ≡ 9)
    × (sb.uuid ≡ uuid)
fields_new_example =
    RoundTrip.fields_new 7 0 36 1 5 (2 ^ 32 + 1) 1 0 9 uuid (omega arith) (omega arith)
      (omega arith) (omega arith) (omega arith) (omega arith) (omega arith) (omega arith)

-- A layout that holds one slot.
abbrev one_slot : MetadataLayout
one_slot = record { buf = zeros 32; cursor = 32; meta_blkaddr = 1 }

one_slot-IsLayout : IsLayout one_slot
one_slot-IsLayout = record { ends = refl; on_slot = refl; area = refl }

alloc_inode-Extends_example :
    Extends one_slot 51 (alloc_inode one_slot 51)
    × ((alloc_inode one_slot 51).number * 32 ≡ (alloc_inode one_slot 51).offset)
alloc_inode-Extends_example =
    alloc_inode-Extends one_slot 51 one_slot-IsLayout (omega arith) (omega arith)

alloc_dir_data-Extends_example :
    Extends one_slot 5000 (alloc_dir_data one_slot 5000)
    × ((alloc_dir_data one_slot 5000).number * 4096 ≡ 4096 + (alloc_dir_data one_slot 5000).offset)
alloc_dir_data-Extends_example =
    alloc_dir_data-Extends one_slot 5000 one_slot-IsLayout (omega arith) (omega arith)

write_at-WritesTo_example :
    WritesTo one_slot (alloc_inode one_slot 51) 32 (7 ∷ 8 ∷ [])
    × WritesTo one_slot (alloc_dir_data one_slot 51) 32 (7 ∷ 8 ∷ [])
write_at-WritesTo_example =
    write_at-WritesTo one_slot 51 32 (7 ∷ 8 ∷ []) one_slot-IsLayout (omega arith) (omega arith)

user_split : erofs_xattr_name_split (bytes_of "user.mime") ≡ some (1, bytes_of "mime")
unfolding erofs_xattr_name_split strip_prefix
user_split = refl

prefix-name_split_example :
    Option.map (λ p. p ++ bytes_of "mime") (erofs_xattr_prefix 1) ≡ some (bytes_of "user.mime")
prefix-name_split_example = prefix-name_split (bytes_of "user.mime") 1 (bytes_of "mime") user_split

name_split-prefix_example :
    erofs_xattr_name_split (bytes_of "trusted." ++ bytes_of "x") ≡ some (4, bytes_of "x")
name_split-prefix_example = name_split-prefix 4 (bytes_of "trusted.") (bytes_of "x") known
  where
    known : erofs_xattr_prefix 4 ≡ some (bytes_of "trusted.")
    known = unfold erofs_xattr_prefix in refl

abbrev one_xattr : List Xattr
one_xattr = (1, bytes_of "mime", bytes_of "text") ∷ []

one_counted :
    Inode.xattr_icount
      (compact (compact_header 2 (omega arith) false 0o100644 0 12 0 0 7 1000 100 4))
    ≡ xattr_icount (xattr_ibody_size one_xattr)
unfolding Inode.xattr_icount InodeCompact.xattr_icount InodeCompact.new xattr_icount
    xattr_ibody_size ibody_size_loop entry_size round_up
one_counted = refl

xattr_size-xattr_icount_example :
    Inode.xattr_size (compact (compact_header 2 (omega arith) false 0o100644 0 12 0 0 7 1000 100 4))
    ≡ xattr_ibody_size one_xattr
xattr_size-xattr_icount_example =
    xattr_size-xattr_icount
      (compact (compact_header 2 (omega arith) false 0o100644 0 12 0 0 7 1000 100 4)) one_xattr
      one_counted (omega arith)
