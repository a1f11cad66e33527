-- ===== src/Metadata/DeviceSlot.antt =====
-- src/metadata/chunk.rs: `ErofsDeviceSlot`, 128 bytes.
use erofs_utils_rust.Base.{ℕ, ◌≡◌, refl, ◌++◌, Bytes, zeros, length, u32, shr}
use erofs_utils_rust.Metadata.Consts.{erofs_deviceslot_size}
use erofs_utils_rust.Metadata.LeBytes.{set_u32}

pub record ErofsDeviceSlot : Type 0 where
  pub tag : Bytes
  pub blocks_lo : Bytes
  pub uniaddr_lo : Bytes
  pub blocks_hi : Bytes
  pub uniaddr_hi : Bytes
  pub reserved : Bytes

unfoldable pub new : ℕ → ErofsDeviceSlot
new blocks = record {
  tag = zeros 64;
  blocks_lo = set_u32 (u32 blocks);
  uniaddr_lo = zeros 4;
  blocks_hi = set_u32 (u32 (shr blocks 32));
  uniaddr_hi = zeros 2;
  reserved = zeros 50;
}

unfoldable pub as_bytes : ErofsDeviceSlot → Bytes
as_bytes d =
    d.tag ++ (d.blocks_lo ++ (d.uniaddr_lo ++ (d.blocks_hi ++ (d.uniaddr_hi ++ d.reserved))))

pub length-as_bytes : (blocks : ℕ) → length (as_bytes (new blocks)) ≡ erofs_deviceslot_size
unfolding as_bytes new
length-as_bytes blocks = refl
