-- ===== src/Metadata/Layout.antt =====
-- src/metadata/layout.rs: `MetadataLayout`, the allocator of the metadata area.
pub mod Invariant
pub mod Writes
use erofs_utils_rust.Base.{
  ℕ, ◌/◌, ◌-◌, [], ◌++◌, Bytes, zeros, length, ltb, if◌then◌else◌, add64, IoResult, map_ok, copy_at,
}
use erofs_utils_rust.Metadata.Consts.{erofs_slotsize, erofs_block_size}
use erofs_utils_rust.Metadata.RoundUp.{round_up}

pub record MetadataLayout : Type 0 where
  pub buf : Bytes
  pub cursor : ℕ
  pub meta_blkaddr : ℕ

unfoldable pub new : MetadataLayout
new = record { buf = []; cursor = 0; meta_blkaddr = 1 }

-- `if buf.len() < n { buf.resize(n, 0) }`.
unfoldable pub grow : Bytes → ℕ → Bytes
grow buf n = if ltb (length buf) n then buf ++ zeros (n - length buf) else buf

-- The cursor moves, and the buffer is made to reach it.
abbrev pub move_cursor : MetadataLayout → ℕ → MetadataLayout
move_cursor l cursor = record l { buf = grow l.buf cursor; cursor = cursor }

-- An allocation returns the new state, the offset in the buffer, and a number of its own.
pub record Alloc : Type 0 where
  pub layout : MetadataLayout
  pub offset : ℕ
  pub number : ℕ

-- The number is the nid.
unfoldable pub alloc_inode : MetadataLayout → ℕ → Alloc
alloc_inode l size = record {
  layout = move_cursor l (add64 l.cursor (round_up size erofs_slotsize));
  offset = l.cursor;
  number = l.cursor / erofs_slotsize;
}

unfoldable pub pad_to_block : MetadataLayout → MetadataLayout
pad_to_block l = move_cursor l (round_up l.cursor erofs_block_size)

-- The number is the start block.
unfoldable pub alloc_dir_data : MetadataLayout → ℕ → Alloc
alloc_dir_data l size =
    let offset = round_up l.cursor erofs_block_size in
    record {
      layout = move_cursor l (add64 offset (round_up size erofs_block_size));
      offset = offset;
      number = add64 l.meta_blkaddr (offset / erofs_block_size);
    }

unfoldable pub write_at : MetadataLayout → ℕ → Bytes → IoResult MetadataLayout
write_at l offset new = map_ok (λ b. record l { buf = b }) (copy_at l.buf offset new)

unfoldable pub total_blocks : MetadataLayout → ℕ
total_blocks l = round_up (length l.buf) erofs_block_size / erofs_block_size
