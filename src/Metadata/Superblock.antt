-- ===== src/Metadata/Superblock.antt =====
-- src/metadata/superblock.rs: `ErofsSuperblock`, 128 bytes.
pub mod RoundTrip
use erofs_utils_rust.Base.{
  ℕ, ◌-◌, ◌^◌, ◌∷◌, ◌++◌, Bytes, zeros, length, leb, get_or, ok, IoResult, assert, ◌>>◌, u32,
  bit_and,
}
use erofs_utils_rust.Metadata.Consts.{
  erofs_super_magic_v1, erofs_feature_compat_sb_chksum, erofs_blkszbits, erofs_sb_base_size,
}
use erofs_utils_rust.Metadata.LeBytes.{get_u16, get_u32, get_u64, set_u16, set_u32, set_u64, field}

pub record ErofsSuperblock : Type 0 where
  pub magic : Bytes
  pub checksum : Bytes
  pub feature_compat : Bytes
  pub blkszbits : ℕ
  pub sb_extslots : ℕ
  pub rootnid_2b : Bytes
  pub inos : Bytes
  pub epoch : Bytes
  pub fixed_nsec : Bytes
  pub blocks_lo : Bytes
  pub meta_blkaddr : Bytes
  pub xattr_blkaddr : Bytes
  pub uuid : Bytes
  pub volume_name : Bytes
  pub feature_incompat : Bytes
  pub compr_or_distance : Bytes
  pub extra_devices : Bytes
  pub devt_slotoff : Bytes
  pub dirblkbits : ℕ
  pub xattr_prefix_count : ℕ
  pub xattr_prefix_start : Bytes
  pub packed_nid : Bytes
  pub xattr_filter_reserved : ℕ
  pub reserved2 : Bytes
  pub build_time : Bytes
  pub rootnid_8b : Bytes
  pub reserved3 : Bytes

unfoldable pub magic : ErofsSuperblock → ℕ
magic sb = get_u32 sb.magic

unfoldable pub feature_compat : ErofsSuperblock → ℕ
feature_compat sb = get_u32 sb.feature_compat

unfoldable pub feature_incompat : ErofsSuperblock → ℕ
feature_incompat sb = get_u32 sb.feature_incompat

unfoldable pub root_nid : ErofsSuperblock → ℕ
root_nid sb = get_u16 sb.rootnid_2b

unfoldable pub inos : ErofsSuperblock → ℕ
inos sb = get_u64 sb.inos

unfoldable pub epoch : ErofsSuperblock → ℕ
epoch sb = get_u64 sb.epoch

unfoldable pub blocks : ErofsSuperblock → ℕ
blocks sb = get_u32 sb.blocks_lo

unfoldable pub meta_blkaddr : ErofsSuperblock → ℕ
meta_blkaddr sb = get_u32 sb.meta_blkaddr

unfoldable pub extra_devices : ErofsSuperblock → ℕ
extra_devices sb = get_u16 sb.extra_devices

unfoldable pub new : ℕ → ℕ → ℕ → ℕ → ℕ → ℕ → ℕ → ℕ → ℕ → Bytes → ErofsSuperblock
new feature_compat feature_incompat root_nid inos epoch blocks meta_blkaddr extra_devices
      devt_slotoff uuid =
    record {
      magic = set_u32 erofs_super_magic_v1;
      checksum = zeros 4;
      feature_compat =
          set_u32 (bit_and feature_compat (2 ^ 32 - 1 - erofs_feature_compat_sb_chksum));
      blkszbits = erofs_blkszbits;
      sb_extslots = 0;
      rootnid_2b = set_u16 root_nid;
      inos = set_u64 inos;
      epoch = set_u64 epoch;
      fixed_nsec = zeros 4;
      blocks_lo = set_u32 (u32 blocks);
      meta_blkaddr = set_u32 meta_blkaddr;
      xattr_blkaddr = zeros 4;
      uuid = uuid;
      volume_name = zeros 16;
      feature_incompat = set_u32 feature_incompat;
      compr_or_distance = zeros 2;
      extra_devices = set_u16 extra_devices;
      devt_slotoff = set_u16 devt_slotoff;
      dirblkbits = 0;
      xattr_prefix_count = 0;
      xattr_prefix_start = zeros 4;
      packed_nid = zeros 8;
      xattr_filter_reserved = 0;
      reserved2 = zeros 3;
      build_time = zeros 8;
      rootnid_8b = zeros 8;
      reserved3 = zeros 4;
    }

-- The fields in their order, in two halves.
low_half : ErofsSuperblock → Bytes → Bytes
low_half sb rest =
    sb.magic
    ++ (sb.checksum
        ++ (sb.feature_compat
            ++ (sb.blkszbits
                ∷ sb.sb_extslots
                ∷ (sb.rootnid_2b
                    ++ (sb.inos
                        ++ (sb.epoch
                            ++ (sb.fixed_nsec
                                ++ (sb.blocks_lo
                                    ++ (sb.meta_blkaddr ++ (sb.xattr_blkaddr ++ rest))))))))))

unfoldable pub as_bytes : ErofsSuperblock → Bytes
unfolding low_half
as_bytes sb = low_half sb (
    sb.uuid
    ++ (sb.volume_name
        ++ (sb.feature_incompat
            ++ (sb.compr_or_distance
                ++ (sb.extra_devices
                    ++ (sb.devt_slotoff
                        ++ (sb.dirblkbits
                            ∷ sb.xattr_prefix_count
                            ∷ (sb.xattr_prefix_start
                                ++ (sb.packed_nid
                                    ++ (sb.xattr_filter_reserved
                                        ∷ (sb.reserved2
                                            ++ (sb.build_time
                                                ++ (sb.rootnid_8b ++ sb.reserved3)))))))))))))

-- The view of the first 128 bytes.
unfoldable pub view : Bytes → ErofsSuperblock
view b = record {
  magic = field b 0 4;
  checksum = field b 4 4;
  feature_compat = field b 8 4;
  blkszbits = get_or b 12 0;
  sb_extslots = get_or b 13 0;
  rootnid_2b = field b 14 2;
  inos = field b 16 8;
  epoch = field b 24 8;
  fixed_nsec = field b 32 4;
  blocks_lo = field b 36 4;
  meta_blkaddr = field b 40 4;
  xattr_blkaddr = field b 44 4;
  uuid = field b 48 16;
  volume_name = field b 64 16;
  feature_incompat = field b 80 4;
  compr_or_distance = field b 84 2;
  extra_devices = field b 86 2;
  devt_slotoff = field b 88 2;
  dirblkbits = get_or b 90 0;
  xattr_prefix_count = get_or b 91 0;
  xattr_prefix_start = field b 92 4;
  packed_nid = field b 96 8;
  xattr_filter_reserved = get_or b 104 0;
  reserved2 = field b 105 3;
  build_time = field b 108 8;
  rootnid_8b = field b 116 8;
  reserved3 = field b 124 4;
}

unfoldable pub cast_ref : Bytes → IoResult ErofsSuperblock
cast_ref b = assert (leb erofs_sb_base_size (length b)) >> ok (view b)
