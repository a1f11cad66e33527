-- ===== src/Metadata/Chunk.antt =====
-- src/metadata/chunk.rs: `ErofsChunkIndex`, 8 bytes.
use erofs_utils_rust.Base.{
  ℕ, ◌/◌, ◌%◌, ◌^◌, ◌<◌, ◌≡◌, ap, arith, ◌∷◌, [], ◌++◌, Bytes, length, leb, ok, IoResult, assert,
  ◌>>◌, IsU16, IsBytes, u16, u32, shr, shl64, bit_or, ◌==◌, if◌then◌else◌, from_le_bytes-lt,
}
use erofs_utils_rust.Base.Bits.{bit_or_sum}
use erofs_utils_rust.Metadata.Consts.{erofs_chunk_index_size, erofs_null_addr}
use erofs_utils_rust.Metadata.LeBytes.{
  get_u16, get_u32, set_u16, set_u32, field, get_u16-set_u16, get_u32-set_u32,
}

pub record ErofsChunkIndex : Type 0 where
  pub startblk_hi : Bytes
  pub device_id : Bytes
  pub startblk_lo : Bytes

-- `hi << 32 | lo`.
unfoldable pub blkaddr : ErofsChunkIndex → ℕ
blkaddr c = bit_or (shl64 (get_u16 c.startblk_hi) 32) (get_u32 c.startblk_lo)

unfoldable pub device_id : ErofsChunkIndex → ℕ
device_id c = get_u16 c.device_id

unfoldable pub new : ℕ → ℕ → ErofsChunkIndex
new blkaddr device_id =
    if blkaddr == erofs_null_addr
    then record {
      startblk_hi = 0xFF ∷ 0xFF ∷ [];
      device_id = 0xFF ∷ 0xFF ∷ [];
      startblk_lo = 0xFF ∷ 0xFF ∷ 0xFF ∷ 0xFF ∷ [];
    }
    else record {
      startblk_hi = set_u16 (u16 (shr blkaddr 32));
      device_id = set_u16 device_id;
      startblk_lo = set_u32 (u32 blkaddr);
    }

unfoldable pub as_bytes : ErofsChunkIndex → Bytes
as_bytes c = c.startblk_hi ++ (c.device_id ++ c.startblk_lo)

unfoldable pub cast_ref : Bytes → IoResult ErofsChunkIndex
cast_ref b = do
  assert (leb erofs_chunk_index_size (length b))
  ok (record { startblk_hi = field b 0 2; device_id = field b 2 2; startblk_lo = field b 4 4 })

-- The arrays of the struct have the lengths of their types and hold bytes.
pub record IsChunkIndex (c : ErofsChunkIndex) : Type 0 where
  pub hi_length : length c.startblk_hi ≡ 2
  pub lo_length : length c.startblk_lo ≡ 4
  pub hi_bytes : IsBytes c.startblk_hi
  pub lo_bytes : IsBytes c.startblk_lo

pub length-as_bytes : (a d : ℕ) → length (as_bytes (new a d)) ≡ erofs_chunk_index_size
unfolding as_bytes new
length-as_bytes a d = ground arith

pub cast_ref-as_bytes :
    (a d : ℕ) (rest : Bytes) → cast_ref (as_bytes (new a d) ++ rest) ≡ ok (new a d)
unfolding cast_ref as_bytes new
cast_ref-as_bytes a d rest = ground arith

-- A block address below 2^48 and a device id of 16 bits are read back from the chunk index made
-- of them.
pub blkaddr-new :
    (a d : ℕ) → a < 2 ^ 48 → IsU16 d → (blkaddr (new a d) ≡ a) × (device_id (new a d) ≡ d)
unfolding blkaddr device_id new
blkaddr-new a d ha hd = ground (
  arith,
  get_u16-set_u16 (u16 (shr a 32)),
  get_u16-set_u16 d,
  get_u32-set_u32 (u32 a),
  bit_or_sum 32 (a / 2 ^ 32) (a % 2 ^ 32),
)

-- The address of every chunk index is below 2^48, so that none is the 64-bit null address that
-- the readers test for.
pub blkaddr-lt : (c : ErofsChunkIndex) → IsChunkIndex c → blkaddr c < 2 ^ 48
unfolding blkaddr
blkaddr-lt c h = ground (
  arith,
  from_le_bytes-lt c.startblk_hi h.hi_bytes,
  from_le_bytes-lt c.startblk_lo h.lo_bytes,
  ap (λ (n : ℕ). 256 ^ n) h.hi_length,
  ap (λ (n : ℕ). 256 ^ n) h.lo_length,
  bit_or_sum 32 (get_u16 c.startblk_hi) (get_u32 c.startblk_lo),
)
