-- ===== src/Build/Inode/XattrBody.antt =====
-- The bytes of the xattr body, and that `serialize_xattrs` writes them.
use erofs_utils_rust.Base.{
  ℕ, ◌+◌, ◌-◌, ◌^◌, ◌≤◌, ◌<◌, ◌≡◌, refl, sym, ap, ◌∙◌, arith, [], ◌∷◌, ◌++◌, append_assoc,
  append-nil, List, Bytes, zeros, zeros_add, length, length-append, length-replicate, u8, u16,
  copy_at-zeros, copy_at-zeros_then, IoResult, ok,
}
use erofs_utils_rust.Metadata.LeBytes.{set_u16}
use erofs_utils_rust.Metadata.Xattr.{Xattr, xattr_ibody_size}
use erofs_utils_rust.Metadata.Xattr.Sizes.{
  padded_size, total_size, entry_size-eq, xattr_ibody_size-cons,
}
use erofs_utils_rust.Build.Inode.{write_xattr, write_xattrs, serialize_xattrs}

-- What fills an entry up to 4 bytes.
abbrev pub padding : Bytes → Bytes → ℕ
padding suffix value = padded_size suffix value - (4 + length suffix + length value)

abbrev pub entry_bytes : Xattr → Bytes
entry_bytes (index, suffix, value) =
    u8 (length suffix)
    ∷ index
    ∷ (set_u16 (u16 (length value)) ++ (suffix ++ (value ++ zeros (padding suffix value))))

abbrev pub entries_bytes : List Xattr → Bytes
entries_bytes [] = []
entries_bytes (x ∷ xattrs) = entry_bytes x ++ entries_bytes xattrs

abbrev pub body_bytes : List Xattr → Bytes
body_bytes [] = []
body_bytes (x ∷ xattrs) = zeros 12 ++ entries_bytes (x ∷ xattrs)

pub length-entry_bytes :
    (index : ℕ) (suffix value : Bytes)
    → length (entry_bytes (index, suffix, value)) ≡ padded_size suffix value
length-entry_bytes index suffix value = omega (
  arith,
  length-append suffix (value ++ zeros (padding suffix value)),
  length-append value (zeros (padding suffix value)),
  length-replicate {A = ℕ} (padding suffix value) 0,
)

pub length-entries_bytes : (xattrs : List Xattr) → length (entries_bytes xattrs) ≡ total_size xattrs
length-entries_bytes [] = refl
length-entries_bytes ((index, suffix, value) ∷ xattrs) = omega (
  arith,
  length-append (entry_bytes (index, suffix, value)) (entries_bytes xattrs),
  length-entry_bytes index suffix value,
  length-entries_bytes xattrs,
)

-- The size that the builder reserves is that of the body.
pub length-body_bytes :
    (xattrs : List Xattr)
    → 12 + total_size xattrs < 2 ^ 63
    → length (body_bytes xattrs) ≡ xattr_ibody_size xattrs
length-body_bytes [] h = unfold xattr_ibody_size in refl
length-body_bytes (x ∷ xattrs) h =
    omega (
      arith,
      length-append (zeros 12) (entries_bytes (x ∷ xattrs)),
      length-entries_bytes (x ∷ xattrs),
    )
    ∙ sym (xattr_ibody_size-cons x xattrs h)

write_xattr-eq :
    (front : Bytes) (pos room index : ℕ) (suffix value : Bytes)
    → pos ≡ length front
    → padded_size suffix value ≤ room
    → write_xattr (front ++ zeros room) pos (index, suffix, value)
      ≡ ok
          ((front ++ entry_bytes (index, suffix, value)) ++ zeros (room - padded_size suffix value))
unfolding write_xattr
write_xattr-eq front pos room index suffix value at fits =
    copy_at-zeros_then front name_len pos room _ at (omega arith)
    ∙ copy_at-zeros_then with_len (index ∷ []) (pos + 1) (room - 1) _
        (omega (arith, length-append front name_len)) (omega arith)
    ∙ copy_at-zeros_then with_index value_size (pos + 2) (room - 1 - 1) _
        (omega (arith, length-append front name_len, length-append with_len (index ∷ [])))
        (omega arith)
    ∙ copy_at-zeros_then with_size suffix (pos + 4) (room - 1 - 1 - 2) _ long (omega arith)
    ∙ copy_at-zeros (with_size ++ suffix) value (pos + 4 + length suffix)
        (room - 1 - 1 - 2 - length suffix) (omega (arith, length-append with_size suffix, long))
        (omega arith)
    ∙ ap ok whole
  where
    name_len : Bytes
    name_len = u8 (length suffix) ∷ []

    with_len : Bytes
    with_len = front ++ name_len

    with_index : Bytes
    with_index = with_len ++ (index ∷ [])

    value_size : Bytes
    value_size = set_u16 (u16 (length value))

    with_size : Bytes
    with_size = with_index ++ value_size

    long : pos + 4 ≡ length with_size
    long = omega (
      arith,
      length-append front name_len,
      length-append with_len (index ∷ []),
      length-append with_index value_size,
    )

    left :
        room - 1 - 1 - 2 - length suffix - length value
        ≡ padding suffix value + (room - padded_size suffix value)
    left = omega arith

    whole :
        ((with_size ++ suffix) ++ value) ++ zeros (room - 1 - 1 - 2 - length suffix - length value)
        ≡ (front ++ entry_bytes (index, suffix, value)) ++ zeros (room - padded_size suffix value)
    whole =
        ap (λ (n : ℕ). ((with_size ++ suffix) ++ value) ++ zeros n) left
        ∙ ap (λ (z : Bytes). ((with_size ++ suffix) ++ value) ++ z)
            (zeros_add (padding suffix value) (room - padded_size suffix value))
        ∙ simp append_assoc

unchanged :
    (front : Bytes) (room : ℕ)
    → ◌≡◌ {A = IoResult Bytes} (ok (front ++ zeros room)) (ok ((front ++ []) ++ zeros (room - 0)))
unchanged front room =
    let same : room ≡ room - 0 = omega arith in
    ap ok (rw append-nil (ap (λ (n : ℕ). front ++ zeros n) same))

pub write_xattrs-eq :
    (front : Bytes) (pos room : ℕ) (xattrs : List Xattr)
    → pos ≡ length front
    → total_size xattrs ≤ room
    → total_size xattrs < 2 ^ 63
    → write_xattrs (front ++ zeros room) pos xattrs
      ≡ ok ((front ++ entries_bytes xattrs) ++ zeros (room - total_size xattrs))
unfolding write_xattrs
write_xattrs-eq front pos room [] at fits small = unchanged front room
write_xattrs-eq front pos room ((index, suffix, value) ∷ xattrs) at fits small =
    rw
      (
        write_xattr-eq front pos room index suffix value at (omega arith),
        entry_size-eq suffix value (omega arith),
      )
      (write_xattrs-eq (front ++ entry_bytes (index, suffix, value))
          (pos + padded_size suffix value) (room - padded_size suffix value) xattrs
          (omega (
            arith,
            length-append front (entry_bytes (index, suffix, value)),
            length-entry_bytes index suffix value,
          ))
          (omega arith) (omega arith)
        ∙ ap ok (
            rw (append_assoc front) (
              ap (λ (n : ℕ). (front ++ entries_bytes ((index, suffix, value) ∷ xattrs)) ++ zeros n)
                (omega arith))))

-- Behind a header the xattrs become the body, and the rest of the buffer stays zero.
pub serialize_xattrs-eq :
    (front : Bytes) (offset room : ℕ) (xattrs : List Xattr)
    → offset ≡ length front
    → 12 + total_size xattrs < 2 ^ 63
    → length (body_bytes xattrs) ≤ room
    → serialize_xattrs (front ++ zeros room) offset xattrs
      ≡ ok ((front ++ body_bytes xattrs) ++ zeros (room - length (body_bytes xattrs)))
unfolding serialize_xattrs
serialize_xattrs-eq front offset room [] at small fits = unchanged front room
serialize_xattrs-eq front offset room (x ∷ xattrs) at small fits =
    ap (λ (b : Bytes). write_xattrs b (offset + 12) (x ∷ xattrs)) header
    ∙ write_xattrs-eq (front ++ zeros 12) (offset + 12) (room - 12) (x ∷ xattrs)
        (omega (arith, length-append front (zeros 12))) (omega (arith, long)) (omega arith)
    ∙ ap ok (
        rw (append_assoc front)
          (ap (λ (n : ℕ). (front ++ body_bytes (x ∷ xattrs)) ++ zeros n) (omega (arith, long))))
  where
    long : length (body_bytes (x ∷ xattrs)) ≡ 12 + total_size (x ∷ xattrs)
    long = omega (
      arith,
      length-append (zeros 12) (entries_bytes (x ∷ xattrs)),
      length-entries_bytes (x ∷ xattrs),
    )

    sum : room ≡ 12 + (room - 12)
    sum = omega (arith, long)

    header : front ++ zeros room ≡ (front ++ zeros 12) ++ zeros (room - 12)
    header =
        ap (λ (z : Bytes). front ++ z) (ap zeros sum ∙ zeros_add 12 (room - 12))
        ∙ sym (append_assoc front (zeros 12) (zeros (room - 12)))
