-- ===== src/Metadata/Layout/Writes.antt =====
-- What a write to the metadata area does to each byte of the buffer.
use erofs_utils_rust.Base.{
  ℕ, zero, suc, zeros, some, none, ◌+◌, ◌-◌, ◌≤◌, ◌<◌, ◌≡◌, ◌⊎◌, inl, inr, refl, ap, ◌∙◌, arith, [],
  ◌∷◌, ◌++◌, Bytes, Option, get_elem?, length, take, drop, patch, copy_at, ltb, leb, ◌&&◌,
  if◌then◌else◌, Bool-cases, leb→le, ok, panic,
}
use erofs_utils_rust.Metadata.Layout.{MetadataLayout, Alloc, alloc_inode, alloc_dir_data, write_at}
use erofs_utils_rust.Metadata.Layout.Invariant.{
  IsLayout, IsSmall, Extends, alloc_inode-Extends, alloc_dir_data-Extends, write_at-IsLayout,
}

-- The byte at `k` where `new` is written over a buffer at `offset`.
abbrev pub byte_at : Bytes → ℕ → Bytes → ℕ → Option ℕ
byte_at buf offset new k =
    if leb offset k && ltb k (offset + length new)
    then get_elem? new (k - offset)
    else get_elem? buf k

front_byte :
    (new buf : Bytes) (k : ℕ)
    → length new ≤ length buf
    → get_elem? (new ++ drop (length new) buf) k
      ≡ (if ltb k (length new) then get_elem? new k else get_elem? buf k)
front_byte [] buf k h = ground arith
front_byte (x ∷ new) [] k h = absurd (omega arith)
front_byte (x ∷ new) (b ∷ buf) zero h = ground arith
front_byte (x ∷ new) (b ∷ buf) (suc k) h = ground (arith, front_byte new buf k (omega arith))

patch_byte :
    (buf : Bytes) (offset : ℕ) (new : Bytes) (k : ℕ)
    → offset + length new ≤ length buf
    → get_elem? (patch buf offset new) k ≡ byte_at buf offset new k
patch_byte buf zero new k h =
    let sum : 0 + length new ≡ length new = omega arith in
    let index : k - 0 ≡ k = omega arith in
    ap (λ (n : ℕ). get_elem? (new ++ drop n buf) k) sum
    ∙ front_byte new buf k (omega arith)
    ∙ rw (sum, index) (ground arith)
patch_byte [] (suc offset) new k h = absurd (omega arith)
patch_byte (b ∷ buf) (suc offset) new zero h = ground arith
patch_byte (b ∷ buf) (suc offset) new (suc k) h =
    let sum : suc offset + length new ≡ suc (offset + length new) = omega arith in
    let index : suc k - suc offset ≡ k - offset = omega arith in
    ap (λ (n : ℕ). get_elem? (take offset buf ++ (new ++ drop n (b ∷ buf))) k) sum
    ∙ patch_byte buf offset new k (omega arith)
    ∙ rw index (ground arith)

-- What `write_at` does, by the place of the bytes.
write_at_bytes :
    (l : MetadataLayout) (offset : ℕ) (new : Bytes)
    → IsLayout l
    → ((l.cursor < offset + length new) × (write_at l offset new ≡ panic))
      ⊎ ((offset + length new ≤ l.cursor)
          × (l' : MetadataLayout) × (write_at l offset new ≡ ok l')
          × IsLayout l'
          × (l'.cursor ≡ l.cursor)
          × ((k : ℕ) → get_elem? l'.buf k ≡ byte_at l.buf offset new k))
unfolding write_at copy_at
write_at_bytes l offset new v = elim (Bool-cases (leb (offset + length new) l.cursor)) [
  | inl inside ↦
      let room : offset + length new ≤ l.cursor = leb→le (offset + length new) l.cursor inside in
      let (wrote, valid) = write_at-IsLayout l offset new v room in
      inr (
        room,
        record l { buf = patch l.buf offset new },
        wrote,
        valid,
        refl,
        λ k. patch_byte l.buf offset new k (omega (arith, v.ends)),
      )
  | inr outside ↦ inl (ground arith, ground (arith, v.ends))
]

zeros_byte : (n k : ℕ) → get_elem? (zeros n) k ≡ (if ltb k n then some 0 else none)
zeros_byte zero k = ground arith
zeros_byte (suc n) zero = ground arith
zeros_byte (suc n) (suc k) = ground (arith, zeros_byte n k)

grown_byte :
    (buf : Bytes) (n k : ℕ)
    → get_elem? (buf ++ zeros n) k ≡ (
        if ltb k (length buf)
        then get_elem? buf k
        else if ltb k (length buf + n)
        then some 0
        else none)
grown_byte [] n k = zeros_byte n k ∙ ground arith
grown_byte (b ∷ buf) n zero = ground arith
grown_byte (b ∷ buf) n (suc k) = ground (arith, grown_byte buf n k)

-- The byte at `k` of the buffer behind an allocation that moved the cursor to `cursor`: what was
-- allocated before, then zeros.
abbrev pub allocated_byte : MetadataLayout → ℕ → ℕ → Option ℕ
allocated_byte l cursor k =
    if ltb k l.cursor then get_elem? l.buf k else if ltb k cursor then some 0 else none

-- `write_at` behind an allocation `a`: it panics where the bytes do not end before the cursor, and
-- otherwise each byte of the buffer is the one that is written there, or the one before the write.
abbrev pub WritesTo : MetadataLayout → Alloc → ℕ → Bytes → Type 0
WritesTo l a offset new =
    ((a.layout.cursor < offset + length new) × (write_at a.layout offset new ≡ panic))
    ⊎ ((offset + length new ≤ a.layout.cursor)
        × (l' : MetadataLayout) × (write_at a.layout offset new ≡ ok l')
        × IsLayout l'
        × (l'.cursor ≡ a.layout.cursor)
        × ((k : ℕ)
            → get_elem? l'.buf k ≡ (
                if leb offset k && ltb k (offset + length new)
                then get_elem? new (k - offset)
                else allocated_byte l a.layout.cursor k)))

Extends-byte :
    (l : MetadataLayout) (size : ℕ) (a : Alloc) (k : ℕ)
    → IsLayout l
    → Extends l size a
    → get_elem? a.layout.buf k ≡ allocated_byte l a.layout.cursor k
Extends-byte l size a k v e =
    let sum : l.cursor + (a.layout.cursor - l.cursor) ≡ a.layout.cursor =
      omega (arith, e.behind, e.inside) in
    ap (λ (b : Bytes). get_elem? b k) e.kept
    ∙ grown_byte l.buf (a.layout.cursor - l.cursor) k
    ∙ rw (v.ends, sum) refl

Extends-WritesTo :
    (l : MetadataLayout) (size : ℕ) (a : Alloc) (offset : ℕ) (new : Bytes)
    → IsLayout l
    → Extends l size a
    → WritesTo l a offset new
Extends-WritesTo l size a offset new v e = elim (write_at_bytes a.layout offset new e.valid) [
  | inl out ↦ inl out
  | inr (room, l', wrote, valid, same, bytes) ↦ inr (
    room,
    l',
    wrote,
    valid,
    same,
    λ k.
        bytes k
        ∙ ap
            (λ (b : Option ℕ).
              if leb offset k && ltb k (offset + length new) then get_elem? new (k - offset) else b)
            (Extends-byte l size a k v e),
  )
]

-- In a valid layout, behind an allocation of an inode or of directory data, with the cursor and the
-- size below 2^61, a `write_at` of any bytes at any offset panics if they end behind the cursor,
-- and otherwise gives a valid layout with the same cursor, in which each byte of the buffer is the
-- one written there or, outside of what is written, the one that stood there before the allocation,
-- or 0 in the new range.
pub write_at-WritesTo :
    (l : MetadataLayout) (size offset : ℕ) (new : Bytes)
    → IsLayout l
    → IsSmall l.cursor
    → IsSmall size
    → WritesTo l (alloc_inode l size) offset new × WritesTo l (alloc_dir_data l size) offset new
write_at-WritesTo l size offset new v small fits = (
  Extends-WritesTo l size (alloc_inode l size) offset new v
      (alloc_inode-Extends l size v small fits).0,
  Extends-WritesTo l size (alloc_dir_data l size) offset new v
      (alloc_dir_data-Extends l size v small fits).0,
)
