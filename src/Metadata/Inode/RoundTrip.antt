-- ===== src/Metadata/Inode/RoundTrip.antt =====
-- An inode header that the builder wrote, read back through `ErofsInode::cast` and its accessors.
use erofs_utils_rust.Base.{
  ℕ, ◌+◌, ◌*◌, ◌/◌, ◌%◌, ◌<◌, ◌≡◌, refl, ◌∙◌, ap, arith, ◌++◌, Bytes, Bool, true, false,
  if◌then◌else◌, IsU16, IsU32, IsU64, ok, bit_and, shr, length, ◌≤◌, [], ◌∷◌, from_le_bytes,
}
use erofs_utils_rust.Base.Bits.{bit_and_low, agree_below, agree_below→eq}
use erofs_utils_rust.Metadata.LeBytes.{set_u16, get_u16-set_u16, get_u32-set_u32, get_u64-set_u64}
use erofs_utils_rust.Metadata.InodeCompact
use erofs_utils_rust.Metadata.InodeCompact.{ErofsInodeCompact}
use erofs_utils_rust.Metadata.InodeExtended
use erofs_utils_rust.Metadata.InodeExtended.{ErofsInodeExtended}
use erofs_utils_rust.Metadata.Inode.{
  compact, extended, cast, is_compact_format, cast_as, data_layout, mode, size, mtime, mtime_nsec,
  nlink, uid, gid, ino, xattr_icount, nb, i_u, compact_i_format, extended_i_format,
}

pub compact_i_format-eq :
    (dl : ℕ) (nlink_1 : Bool)
    → dl < 8
    → compact_i_format dl nlink_1 ≡ dl * 2 + (if nlink_1 then 16 else 0)
unfolding compact_i_format agree_below
compact_i_format-eq dl true h =
    agree_below→eq (λ d. compact_i_format d true) (λ d. d * 2 + 16) 8 refl dl h
compact_i_format-eq dl false h =
    agree_below→eq (λ d. compact_i_format d false) (λ d. d * 2 + 0) 8 refl dl h

pub extended_i_format-eq : (dl : ℕ) → dl < 8 → extended_i_format dl ≡ dl * 2 + 1
unfolding extended_i_format agree_below
extended_i_format-eq dl h = agree_below→eq extended_i_format (λ d. d * 2 + 1) 8 refl dl h

-- The header with the two bytes of `i_xattr_icount` that `serialize_inode` writes at the end.
abbrev pub compact_with : ErofsInodeCompact → ℕ → ErofsInodeCompact
compact_with c icount = record c { i_xattr_icount = set_u16 icount }

abbrev pub extended_with : ErofsInodeExtended → ℕ → ErofsInodeExtended
extended_with e icount = record e { i_xattr_icount = set_u16 icount }

compact_format_bit : (dl : ℕ) (n : Bool) → dl < 8 → is_compact_format (compact_i_format dl n) ≡ true
unfolding is_compact_format
compact_format_bit dl n h =
    ground (arith, compact_i_format-eq dl n h, bit_and_low 1 (compact_i_format dl n))

extended_format_bit : (dl : ℕ) → dl < 8 → is_compact_format (extended_i_format dl) ≡ false
unfolding is_compact_format
extended_format_bit dl h =
    ground (arith, extended_i_format-eq dl h, bit_and_low 1 (extended_i_format dl))

compact_format-lt : (dl : ℕ) (n : Bool) → dl < 8 → IsU16 (compact_i_format dl n)
compact_format-lt dl n h = ground (arith, compact_i_format-eq dl n h)

-- The cast of a buffer, by the version bit of its first byte.
pub cast_by_compact :
    (b0 b1 : ℕ) (tail : Bytes)
    → is_compact_format (from_le_bytes (b0 ∷ b1 ∷ [])) ≡ true
    → 32 ≤ length (b0 ∷ b1 ∷ tail)
    → cast (b0 ∷ b1 ∷ tail) ≡ ok (compact (InodeCompact.view (b0 ∷ b1 ∷ tail)))
unfolding cast_as InodeCompact.cast_ref
cast_by_compact b0 b1 tail e h = cast_step b0 b1 tail h ∙ rw e (ground arith)
  where
    cast_step :
        (b0 b1 : ℕ) (tail : Bytes)
        → 32 ≤ length (b0 ∷ b1 ∷ tail)
        → cast (b0 ∷ b1 ∷ tail)
          ≡ cast_as (is_compact_format (from_le_bytes (b0 ∷ b1 ∷ []))) (b0 ∷ b1 ∷ tail)
    cast_step b0 b1 tail h = unfold cast in ground arith

pub cast_by_extended :
    (b0 b1 : ℕ) (tail : Bytes)
    → is_compact_format (from_le_bytes (b0 ∷ b1 ∷ [])) ≡ false
    → 64 ≤ length (b0 ∷ b1 ∷ tail)
    → cast (b0 ∷ b1 ∷ tail) ≡ ok (extended (InodeExtended.view (b0 ∷ b1 ∷ tail)))
unfolding cast_as InodeExtended.cast_ref
cast_by_extended b0 b1 tail e h = cast_step b0 b1 tail h ∙ rw e (ground arith)
  where
    cast_step :
        (b0 b1 : ℕ) (tail : Bytes)
        → 64 ≤ length (b0 ∷ b1 ∷ tail)
        → cast (b0 ∷ b1 ∷ tail)
          ≡ cast_as (is_compact_format (from_le_bytes (b0 ∷ b1 ∷ []))) (b0 ∷ b1 ∷ tail)
    cast_step b0 b1 tail h = unfold cast in ground arith

version_bytes : (f : ℕ) → IsU16 f → from_le_bytes (f % 256 ∷ f / 256 % 256 ∷ []) ≡ f
version_bytes f h = get_u16-set_u16 f h

module _ (dl : ℕ) (hdl : dl < 8) (n : Bool) (m b s t u i x g icount : ℕ) where
  abbrev pub compact_header : ErofsInodeCompact
  compact_header = compact_with (InodeCompact.new (compact_i_format dl n) m b s t u i x g) icount

  -- For a data layout below 8, ErofsInode::cast on the bytes of a compact header, with any bytes
  -- behind it, recognises a compact inode and gives back that header.
  pub cast-compact :
      (rest : Bytes)
      → cast (InodeCompact.as_bytes compact_header ++ rest) ≡ ok (compact compact_header)
  unfolding InodeCompact.as_bytes InodeCompact.new InodeCompact.view
  cast-compact rest =
      cast_by_compact _ _ _
        (ap is_compact_format (version_bytes _ (compact_format-lt dl n hdl))
          ∙ compact_format_bit dl n hdl)
        (omega arith)

  -- For values that fit their fields, the accessors of ErofsInode on a compact header return the
  -- data layout, mode, size, inode number, owner, union, xattr count and nb that the header was
  -- made of.
  pub compact_fields :
      IsU16 m
      → IsU16 b
      → IsU32 s
      → IsU32 u
      → IsU32 i
      → IsU16 x
      → IsU16 g
      → IsU16 icount
      → let v = compact compact_header in
        (data_layout v ≡ dl)
        × (mode v ≡ m)
        × (size v ≡ s)
        × (ino v ≡ i)
        × (uid v ≡ x)
        × (gid v ≡ g)
        × (i_u v ≡ u)
        × (xattr_icount v ≡ icount)
        × (nb v ≡ b)
  unfolding data_layout mode size ino uid gid i_u nb xattr_icount InodeCompact.format
      InodeCompact.mode InodeCompact.size InodeCompact.ino InodeCompact.uid InodeCompact.gid
      InodeCompact.i_u InodeCompact.nb InodeCompact.xattr_icount InodeCompact.new
  compact_fields hm hb hs hu hi hx hg hc = (
    layout,
    get_u16-set_u16 m hm,
    get_u32-set_u32 s hs,
    get_u32-set_u32 i hi,
    get_u16-set_u16 x hx,
    get_u16-set_u16 g hg,
    get_u32-set_u32 u hu,
    get_u16-set_u16 icount hc,
    get_u16-set_u16 b hb,
  )
    where
      layout : data_layout (compact compact_header) ≡ dl
      layout =
          ap (λ (f : ℕ). bit_and (shr f 1) 7) (version_bytes _ (compact_format-lt dl n hdl))
          ∙ ground
              (arith, bit_and_low 3 (shr (compact_i_format dl n) 1), compact_i_format-eq dl n hdl)

extended_format-lt : (dl : ℕ) → dl < 8 → IsU16 (extended_i_format dl)
extended_format-lt dl h = ground (arith, extended_i_format-eq dl h)

module _ (dl : ℕ) (hdl : dl < 8) (m b s u i x g t ns nl icount : ℕ) where
  abbrev pub extended_header : ErofsInodeExtended
  extended_header =
      extended_with (InodeExtended.new (extended_i_format dl) m b s u i x g t ns nl) icount

  -- For a data layout below 8, ErofsInode::cast on the bytes of an extended header, with any
  -- bytes behind it, recognises an extended inode and gives back that header.
  pub cast-extended :
      (rest : Bytes)
      → cast (InodeExtended.as_bytes extended_header ++ rest) ≡ ok (extended extended_header)
  unfolding InodeExtended.as_bytes InodeExtended.new InodeExtended.view
  cast-extended rest =
      cast_by_extended _ _ _
        (ap is_compact_format (version_bytes _ (extended_format-lt dl hdl))
          ∙ extended_format_bit dl hdl)
        (omega arith)

  -- For values that fit their fields, the accessors of ErofsInode on an extended header return
  -- the data layout, mode, size, inode number, owner, union, xattr count, nb, times and link
  -- count that the header was made of.
  pub extended_fields :
      IsU16 m
      → IsU16 b
      → IsU64 s
      → IsU32 u
      → IsU32 i
      → IsU32 x
      → IsU32 g
      → IsU64 t
      → IsU32 ns
      → IsU32 nl
      → IsU16 icount
      → let v = extended extended_header in
        (data_layout v ≡ dl)
        × (mode v ≡ m)
        × (size v ≡ s)
        × (ino v ≡ i)
        × (uid v ≡ x)
        × (gid v ≡ g)
        × (i_u v ≡ u)
        × (xattr_icount v ≡ icount)
        × (nb v ≡ b)
        × ((epoch : ℕ) → mtime v epoch ≡ t)
        × (mtime_nsec v ≡ ns)
        × (nlink v ≡ nl)
  unfolding data_layout mode size ino uid gid i_u nb xattr_icount mtime mtime_nsec nlink
      InodeExtended.format InodeExtended.mode InodeExtended.size InodeExtended.ino InodeExtended.uid
      InodeExtended.gid InodeExtended.i_u InodeExtended.nb InodeExtended.xattr_icount
      InodeExtended.mtime InodeExtended.mtime_nsec InodeExtended.nlink InodeExtended.new
  extended_fields hm hb hs hu hi hx hg ht hns hnl hc = (
    layout,
    get_u16-set_u16 m hm,
    get_u64-set_u64 s hs,
    get_u32-set_u32 i hi,
    get_u32-set_u32 x hx,
    get_u32-set_u32 g hg,
    get_u32-set_u32 u hu,
    get_u16-set_u16 icount hc,
    get_u16-set_u16 b hb,
    (λ epoch. get_u64-set_u64 t ht),
    get_u32-set_u32 ns hns,
    get_u32-set_u32 nl hnl,
  )
    where
      layout : data_layout (extended extended_header) ≡ dl
      layout =
          ap (λ (f : ℕ). bit_and (shr f 1) 7) (version_bytes _ (extended_format-lt dl hdl))
          ∙ ground
              (arith, bit_and_low 3 (shr (extended_i_format dl) 1), extended_i_format-eq dl hdl)
