-- ===== src/Metadata/Xattr/Sizes.antt =====
-- The size of the xattr body against the count in the inode.
use erofs_utils_rust.Base.{
  ℕ, ◌+◌, ◌*◌, ◌/◌, ◌%◌, ◌^◌, ◌≤◌, ◌<◌, ◌≡◌, refl, ap, ◌∙◌, arith, [], ◌∷◌, List, Bytes, length,
  add64, ◌==◌, if◌then◌else◌,
}
use erofs_utils_rust.Metadata.Inode
use erofs_utils_rust.Metadata.Inode.{ErofsInode}
use erofs_utils_rust.Metadata.RoundUp.{round_up, round_up-eq}
use erofs_utils_rust.Metadata.Xattr.{
  Xattr, entry_size, ibody_size_loop, xattr_ibody_size, xattr_icount,
}

-- The sizes with no machine words: an entry padded to 4 bytes, and all entries.
abbrev pub padded_size : Bytes → Bytes → ℕ
padded_size suffix value = (4 + length suffix + length value + 3) / 4 * 4

abbrev pub total_size : List Xattr → ℕ
total_size [] = 0
total_size ((_, suffix, value) ∷ xattrs) = padded_size suffix value + total_size xattrs

pub round_up_four : (n : ℕ) → n + 4 ≤ 2 ^ 64 → round_up n 4 ≡ (n + 3) / 4 * 4
round_up_four n h = round_up-eq 2 (omega arith) n h

pub entry_size-eq :
    (suffix value : Bytes)
    → padded_size suffix value < 2 ^ 63
    → entry_size suffix value ≡ padded_size suffix value
unfolding entry_size
entry_size-eq suffix value h =
    ap (λ (n : ℕ). round_up n 4) sum
    ∙ round_up_four (4 + length suffix + length value) (omega arith)
  where
    sum : add64 (add64 4 (length suffix)) (length value) ≡ 4 + length suffix + length value
    sum = omega arith

ibody_size_loop-eq :
    (size : ℕ) (xattrs : List Xattr)
    → size + total_size xattrs < 2 ^ 63
    → ibody_size_loop size xattrs ≡ size + total_size xattrs
unfolding ibody_size_loop
ibody_size_loop-eq size [] h = omega arith
ibody_size_loop-eq size ((i, suffix, value) ∷ xattrs) h =
    ap (λ (n : ℕ). ibody_size_loop n xattrs) step
    ∙ ibody_size_loop-eq (size + padded_size suffix value) xattrs (omega arith)
    ∙ omega arith
  where
    step : add64 size (entry_size suffix value) ≡ size + padded_size suffix value
    step = omega (arith, entry_size-eq suffix value (omega arith))

-- The body of a list that is not empty: the header of 12 bytes and the padded entries.
pub xattr_ibody_size-cons :
    (x : Xattr) (xattrs : List Xattr)
    → 12 + total_size (x ∷ xattrs) < 2 ^ 63
    → xattr_ibody_size (x ∷ xattrs) ≡ 12 + total_size (x ∷ xattrs)
unfolding xattr_ibody_size
xattr_ibody_size-cons x xattrs h = ibody_size_loop-eq 12 (x ∷ xattrs) h

total_size-mod : (xattrs : List Xattr) → total_size xattrs % 4 ≡ 0
total_size-mod [] = omega arith
total_size-mod ((i, suffix, value) ∷ xattrs) = omega (arith, total_size-mod xattrs)

-- The reader's size for a count: `4 * cnt + 8`, or 0 where there is no body.
abbrev pub size_of_count : ℕ → ℕ
size_of_count cnt = if cnt == 0 then 0 else cnt * 4 + 8

size_of_count-xattr_icount :
    (xattrs : List Xattr)
    → 12 + total_size xattrs ≤ 8 + 4 * 65535
    → size_of_count (xattr_icount (xattr_ibody_size xattrs)) ≡ xattr_ibody_size xattrs
unfolding xattr_icount
size_of_count-xattr_icount [] h = unfold xattr_ibody_size in refl
size_of_count-xattr_icount (x ∷ xattrs) h =
    rw (xattr_ibody_size-cons x xattrs (omega arith))
      (ground (arith, round_up_four (12 + total_size (x ∷ xattrs)), total_size-mod (x ∷ xattrs)))

-- If the count in an inode is the one that the builder computes from its xattrs, and their body
-- is no larger than a 16-bit count can tell, the `xattr_size` of the reader is the size of the
-- body that the builder lays out.
pub xattr_size-xattr_icount :
    (v : ErofsInode) (xattrs : List Xattr)
    → Inode.xattr_icount v ≡ xattr_icount (xattr_ibody_size xattrs)
    → 12 + total_size xattrs ≤ 8 + 4 * 65535
    → Inode.xattr_size v ≡ xattr_ibody_size xattrs
unfolding Inode.xattr_size
xattr_size-xattr_icount v xattrs e h = ap size_of_count e ∙ size_of_count-xattr_icount xattrs h
