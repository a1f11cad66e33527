-- ===== src/Mkfs/Slots.antt =====
-- The slots of the inodes: they stand behind each other, and writing the inodes into them fills each
-- and changes nothing in front of them or behind them.
use erofs_utils_rust.Base.{
  ℕ, ◌+◌, ◌*◌, ◌^◌, ◌≤◌, ◌<◌, ◌≡◌, ◌⊎◌, inl, inr, refl, arith, [], ◌∷◌, List, Bytes, All, length,
  patch, ok,
}
use erofs_utils_rust.Metadata.Layout.{MetadataLayout, alloc_inode}
use erofs_utils_rust.Metadata.Layout.Invariant.{
  IsLayout, alloc_inode-Extends, cursor-alloc_inode, write_at-IsLayout,
}
use erofs_utils_rust.Metadata.Xattr.Sizes.{total_size}
use erofs_utils_rust.Build.Inode.{InodeInfo, base_size, inode_meta_size}
use erofs_utils_rust.Build.Inode.Image.{inode_bytes, serialize_inode-eq, length-inode_bytes}
use erofs_utils_rust.Fs.Reader.Holds.{Holds}
use erofs_utils_rust.Mkfs.{alloc_inodes, write_inodes}
use erofs_utils_rust.Mkfs.Buffers.{patch-Holds_itself, patch-Holds_front, patch-Holds_behind}

-- Slots of 32 bytes, from `start` to `end`.
abbrev pub Slots : ℕ → ℕ → List InodeInfo → Type 0
Slots start end [] = start ≤ end
Slots start end (i ∷ is) =
    (start ≤ i.meta_offset)
    × (i.nid * 32 ≡ i.meta_offset)
    × Slots (i.meta_offset + inode_meta_size i) end is

pub Slots-le : (start end : ℕ) (is : List InodeInfo) → Slots start end is → start ≤ end
Slots-le start end [] s = s
Slots-le start end (i ∷ is) (from, number, rest) =
    omega (arith, Slots-le (i.meta_offset + inode_meta_size i) end is rest)

pub Slots-from :
    (start start' end : ℕ) (is : List InodeInfo)
    → start' ≤ start
    → Slots start end is
    → Slots start' end is
Slots-from start start' end [] le s = omega arith
Slots-from start start' end (i ∷ is) le (from, number, rest) = (omega arith, number, rest)

-- What the allocations take at most.
abbrev pub inodes_room : List InodeInfo → ℕ
inodes_room [] = 0
inodes_room (i ∷ is) = inode_meta_size i + 31 + inodes_room is

pub alloc_inodes-Slots :
    (l : MetadataLayout) (is : List InodeInfo)
    → IsLayout l
    → l.cursor + inodes_room is < 2 ^ 61
    → IsLayout (alloc_inodes l is).0
      × Slots l.cursor (alloc_inodes l is).0.cursor (alloc_inodes l is).1
      × ((alloc_inodes l is).0.cursor ≤ l.cursor + inodes_room is)
unfolding alloc_inodes inode_meta_size base_size
alloc_inodes-Slots l [] v small = (v, omega arith, omega arith)
alloc_inodes-Slots l (i ∷ is) v small =
    let (one, number) = alloc_inode-Extends l (inode_meta_size i) v (omega arith) (omega arith) in
    let most = cursor-alloc_inode l (inode_meta_size i) (omega arith) (omega arith) in
    let (valid, slots, bound) =
      alloc_inodes-Slots (alloc_inode l (inode_meta_size i)).layout is one.valid
        (omega (arith, most)) in
    (
      valid,
      (
        one.behind,
        number,
        Slots-from _ _ _ (alloc_inodes (alloc_inode l (inode_meta_size i)).layout is).1 one.inside
            slots,
      ),
      omega (arith, bound, most),
    )

module _ (epoch chunkbits : ℕ) where
  -- The buffer holds each inode at its offset.
  abbrev pub Written : Bytes → List InodeInfo → Type 0
  Written buf [] = Unit
  Written buf (i ∷ is) = Holds buf i.meta_offset (inode_bytes i epoch chunkbits) × Written buf is

  abbrev pub HasBody : InodeInfo → Type 0
  HasBody i = 12 + total_size i.xattrs < 2 ^ 63

  pub write_inodes-Written :
      (l : MetadataLayout) (is : List InodeInfo) (start end : ℕ)
      → IsLayout l
      → Slots start end is
      → end ≤ l.cursor
      → All HasBody is
      → (l' : MetadataLayout) × (write_inodes epoch chunkbits l is ≡ ok l')
        × IsLayout l'
        × (l'.cursor ≡ l.cursor)
        × Written l'.buf is
        × ((o : ℕ) (b : Bytes)
            → (o + length b ≤ start) ⊎ (end ≤ o)
            → Holds l.buf o b
            → Holds l'.buf o b)
  unfolding write_inodes
  write_inodes-Written l [] start end v s inside bodies =
      (l, refl, v, refl, tt, λ o b apart held. held)
  write_inodes-Written l (i ∷ is) start end v (from, number, rest) inside (body, bodies) =
      let (wrote, valid) = write_at-IsLayout l i.meta_offset bytes v (omega (arith, fits)) in
      let (l', ran, valid', same, written, kept) =
        write_inodes-Written (record l { buf = patch l.buf i.meta_offset bytes }) is
          (i.meta_offset + inode_meta_size i) end valid rest inside bodies in
      (
        l',
        rw (serialize_inode-eq i epoch body chunkbits, wrote) ran,
        valid',
        same,
        (
          kept i.meta_offset bytes (inl (omega (arith, long)))
              (patch-Holds_itself l.buf bytes i.meta_offset room),
          written,
        ),
        frame l' kept,
      )
    where
      bytes : Bytes
      bytes = inode_bytes i epoch chunkbits

      long : length bytes ≡ inode_meta_size i
      long = length-inode_bytes i epoch body chunkbits

      fits : i.meta_offset + length bytes ≤ end
      fits = omega (arith, long, Slots-le (i.meta_offset + inode_meta_size i) end is rest)

      room : i.meta_offset + length bytes ≤ length l.buf
      room = omega (arith, fits, v.ends)

      frame :
          (l' : MetadataLayout)
          → ((o : ℕ) (b : Bytes)
              → (o + length b ≤ i.meta_offset + inode_meta_size i) ⊎ (end ≤ o)
              → Holds (patch l.buf i.meta_offset bytes) o b
              → Holds l'.buf o b)
          → (o : ℕ) (b : Bytes) → (o + length b ≤ start) ⊎ (end ≤ o)
          → Holds l.buf o b
          → Holds l'.buf o b
      frame l' kept o b (inl before) held =
          kept o b (inl (omega arith))
            (patch-Holds_front l.buf bytes i.meta_offset room o b (omega arith) held)
      frame l' kept o b (inr after) held =
          kept o b (inr after)
            (patch-Holds_behind l.buf bytes i.meta_offset room o b (omega (arith, fits)) held)
