-- ===== src/Fs/Xattrs/RoundTrip.antt =====
-- The xattrs that the builder serialized are those that the reader lists.
use erofs_utils_rust.Base.{
  ℕ, zero, suc, ◌+◌, ◌%◌, ◌^◌, ◌≤◌, ◌<◌, ◌≡◌, refl, sym, ap, ◌∙◌, arith, [], ◌∷◌, ◌++◌,
  append_assoc, append-nil, List, map, Bytes, zeros, All, IsU8, IsU16, u8, u16, length,
  length-append, lt→leb_false, le→leb, le→ltb_false, index, index-append, slice, slice-middle,
  from_le_bytes, ok,
}
use erofs_utils_rust.Metadata.LeBytes.{set_u16, get_u16-set_u16}
use erofs_utils_rust.Metadata.RoundUp.{round_up}
use erofs_utils_rust.Metadata.Xattr.{Xattr}
use erofs_utils_rust.Metadata.Xattr.Sizes.{padded_size, total_size, round_up_four}
use erofs_utils_rust.Build.Inode.XattrBody.{
  padding, entry_bytes, entries_bytes, body_bytes, length-entry_bytes, length-entries_bytes,
}
use erofs_utils_rust.Fs.Xattrs.{full_name, read_entries, read_body}

-- An entry that the format can hold.
abbrev pub IsXattr : Xattr → Type 0
IsXattr (index, suffix, value) = IsU8 (length suffix) × IsU16 (length value)

-- What the reader shows of an entry.
abbrev pub listed : Xattr → Bytes × Bytes
listed (index, suffix, value) = (full_name index suffix, value)

-- The reads of the loop at an entry behind `front`.
module _ (front : Bytes) (index_ : ℕ) (suffix value rest : Bytes) (pos : ℕ)
    (at : pos ≡ length front) where
  abbrev head : Bytes
  head = u8 (length suffix) ∷ index_ ∷ set_u16 (u16 (length value))

  length-front-head : pos + 4 ≡ length (front ++ head)
  length-front-head = omega (arith, length-append front head)

  suffix_slice :
      slice
        (front ++ (entry_bytes (index_, suffix, value) ++ rest))
        (pos + 4)
        (pos + 4 + length suffix)
      ≡ ok suffix
  suffix_slice =
      ap (λ (d : Bytes). slice d (pos + 4) (pos + 4 + length suffix)) (simp append_assoc)
      ∙ slice-middle (front ++ head) suffix (value ++ (zeros (padding suffix value) ++ rest))
          (pos + 4) (pos + 4 + length suffix) length-front-head refl

  value_slice :
      slice
        (front ++ (entry_bytes (index_, suffix, value) ++ rest))
        (pos + 4 + length suffix)
        (pos + 4 + length suffix + length value)
      ≡ ok value
  value_slice =
      ap (λ (d : Bytes). slice d (pos + 4 + length suffix) (pos + 4 + length suffix + length value))
        (simp append_assoc)
      ∙ slice-middle ((front ++ head) ++ suffix) value (zeros (padding suffix value) ++ rest)
          (pos + 4 + length suffix) (pos + 4 + length suffix + length value)
          (omega (arith, length-append (front ++ head) suffix, length-front-head)) refl

-- A round of the loop on any data, from what its reads return.
read_step :
    (fuel : ℕ) (d : Bytes) (pos : ℕ) (result : List (Bytes × Bytes))
    (name_len index_ low high value_size : ℕ) (suffix value : Bytes)
    → pos + 4 ≤ length d
    → index d pos ≡ ok name_len
    → index d (pos + 1) ≡ ok index_
    → index d (pos + 2) ≡ ok low
    → index d (pos + 3) ≡ ok high
    → from_le_bytes (low ∷ high ∷ []) ≡ value_size
    → pos + 4 + name_len + value_size ≤ length d
    → slice d (pos + 4) (pos + 4 + name_len) ≡ ok suffix
    → slice d (pos + 4 + name_len) (pos + 4 + name_len + value_size) ≡ ok value
    → read_entries (suc fuel) d pos result
      ≡ read_entries fuel d
          (round_up (pos + 4 + name_len + value_size) 4)
          (result ++ ((full_name index_ suffix, value) ∷ []))
unfolding read_entries
read_step fuel d pos result name_len index_ low high value_size suffix value room i0 i1 i2 i3 size
      inside s1 s2 =
    rw (
      le→leb (pos + 4) (length d) room,
      i0,
      i1,
      i2,
      i3,
      size,
      le→ltb_false (length d) (pos + 4 + name_len + value_size) inside,
      s1,
      s2,
    )

read_entries-end :
    (fuel : ℕ) (d : Bytes) (pos : ℕ) (result : List (Bytes × Bytes))
    → length d ≤ pos
    → read_entries fuel d pos result ≡ ok result
unfolding read_entries
read_entries-end zero d pos result h = rw (lt→leb_false (pos + 4) (length d) (omega arith))
read_entries-end (suc fuel) d pos result h = rw (lt→leb_false (pos + 4) (length d) (omega arith))

pub read_entries-eq :
    (fuel : ℕ) (front : Bytes) (pos : ℕ) (xattrs : List Xattr) (result : List (Bytes × Bytes))
    → pos ≡ length front
    → pos % 4 ≡ 0
    → total_size xattrs ≤ fuel
    → pos + total_size xattrs < 2 ^ 32
    → All IsXattr xattrs
    → read_entries fuel (front ++ entries_bytes xattrs) pos result
      ≡ ok (result ++ map listed xattrs)
read_entries-eq fuel front pos [] result at slot enough small fit =
    read_entries-end fuel (front ++ []) pos result (omega (arith, ap length (append-nil front)))
    ∙ ap ok (sym (append-nil result))
read_entries-eq zero front pos ((i, s, v) ∷ xattrs) result at slot enough small fit =
    absurd (omega arith)
read_entries-eq (suc fuel) front pos ((i, s, v) ∷ xattrs) result at slot enough small
      ((hs, hv), fit) =
    read_step fuel d pos result (length s) i _ _ (length v) s v (omega (arith, long))
      (index-append front behind pos 0 (omega arith) ∙ ap ok (omega arith))
      (index-append front behind (pos + 1) 1 (omega arith))
      (index-append front behind (pos + 2) 2 (omega arith))
      (index-append front behind (pos + 3) 3 (omega arith))
      (get_u16-set_u16 (u16 (length v)) (omega arith) ∙ omega arith) (omega (arith, long))
      (suffix_slice front i s v (entries_bytes xattrs) pos at)
      (value_slice front i s v (entries_bytes xattrs) pos at)
    ∙ ap (λ (n : ℕ). read_entries fuel d n (result ++ (listed (i, s, v) ∷ [])))
        (round_up_four (pos + 4 + length s + length v) (omega arith) ∙ omega arith)
    ∙ ap
        (λ (b : Bytes).
          read_entries fuel b (pos + padded_size s v) (result ++ (listed (i, s, v) ∷ [])))
        (sym (append_assoc front (entry_bytes (i, s, v)) (entries_bytes xattrs)))
    ∙ read_entries-eq fuel (front ++ entry_bytes (i, s, v)) (pos + padded_size s v) xattrs
        (result ++ (listed (i, s, v) ∷ []))
        (omega (arith, length-append front (entry_bytes (i, s, v)), length-entry_bytes i s v))
        (omega arith) (omega arith) (omega arith) fit
    ∙ ap ok (append_assoc result (listed (i, s, v) ∷ []) (map listed xattrs))
  where
    behind : Bytes
    behind = entry_bytes (i, s, v) ++ entries_bytes xattrs

    d : Bytes
    d = front ++ behind

    long : length d ≡ pos + padded_size s v + total_size xattrs
    long = omega (
      arith,
      length-append front behind,
      length-append (entry_bytes (i, s, v)) (entries_bytes xattrs),
      length-entry_bytes i s v,
      length-entries_bytes xattrs,
    )

-- The body that the builder lays out is read as its list of xattrs.
pub read_body-body_bytes :
    (x : Xattr) (xattrs : List Xattr)
    → 12 + total_size (x ∷ xattrs) < 2 ^ 32
    → All IsXattr (x ∷ xattrs)
    → read_body (body_bytes (x ∷ xattrs)) ≡ ok (map listed (x ∷ xattrs))
unfolding read_body
read_body-body_bytes x xattrs small fit =
    rw
      (
        le→ltb_false (length d) 12 (omega (arith, long)),
        lt→leb_false (length d) 12 (omega (arith, long)),
      )
      (read_entries-eq (length d) (zeros 12) 12 (x ∷ xattrs) [] refl (omega arith)
        (omega (arith, long)) small fit)
  where
    d : Bytes
    d = body_bytes (x ∷ xattrs)

    long : length d ≡ 12 + total_size (x ∷ xattrs)
    long = omega (
      arith,
      length-append (zeros 12) (entries_bytes (x ∷ xattrs)),
      length-entries_bytes (x ∷ xattrs),
    )
