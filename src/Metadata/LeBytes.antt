-- ===== src/Metadata/LeBytes.antt =====
-- src/metadata/mod.rs: the little-endian helpers and the cast of a byte slice to a packed struct.
use erofs_utils_rust.Base.{
  ℕ, ◌≡◌, Bytes, drop, take, to_le_bytes, from_le_bytes, from_le_bytes-to_le_bytes, IsU16, IsU32,
  IsU64,
}

abbrev pub get_u16 : Bytes → ℕ
get_u16 b = from_le_bytes b

abbrev pub get_u32 : Bytes → ℕ
get_u32 b = from_le_bytes b

abbrev pub get_u64 : Bytes → ℕ
get_u64 b = from_le_bytes b

-- The array that the setter leaves behind.
abbrev pub set_u16 : ℕ → Bytes
set_u16 v = to_le_bytes 2 v

abbrev pub set_u32 : ℕ → Bytes
set_u32 v = to_le_bytes 4 v

abbrev pub set_u64 : ℕ → Bytes
set_u64 v = to_le_bytes 8 v

-- The array field of `len` bytes at `off` in a packed struct.
abbrev pub field : Bytes → ℕ → ℕ → Bytes
field b off len = take len (drop off b)

pub get_u16-set_u16 : (v : ℕ) → IsU16 v → get_u16 (set_u16 v) ≡ v
get_u16-set_u16 v h = from_le_bytes-to_le_bytes 2 v h

pub get_u32-set_u32 : (v : ℕ) → IsU32 v → get_u32 (set_u32 v) ≡ v
get_u32-set_u32 v h = from_le_bytes-to_le_bytes 4 v h

pub get_u64-set_u64 : (v : ℕ) → IsU64 v → get_u64 (set_u64 v) ≡ v
get_u64-set_u64 v h = from_le_bytes-to_le_bytes 8 v h
