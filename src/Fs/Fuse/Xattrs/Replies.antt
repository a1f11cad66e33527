-- ===== src/Fs/Fuse/Xattrs/Replies.antt =====
-- The replies of `getxattr` and `listxattr` on an inode that the builder serialized.
use erofs_utils_rust.Base.{
  ℕ, suc, >>=-assoc, bytes_eq_refl, append-nil, append_assoc, ◌+◌, ◌<◌, ◌≤◌, ◌≡◌, ◌≢◌, refl, sym,
  ap, ◌∙◌, arith, [], ◌∷◌, ◌++◌, List, map, Bytes, All, length, ◌==◌, if◌then◌else◌, u32, bytes_eq,
  bytes_eq→eq, Bool-cases, inl, inr, false, IoResult, ok, err, os, ◌>>=◌,
}
use erofs_utils_rust.Build.Inode.{InodeInfo, serialize_inode}
use erofs_utils_rust.Build.Inode.RoundTrip.{IsInode}
use erofs_utils_rust.Fs.Reader.{ErofsReader, inode}
use erofs_utils_rust.Fs.Xattrs.{read_xattrs}
use erofs_utils_rust.Fs.Xattrs.RoundTrip.{IsXattr, listed}
use erofs_utils_rust.Fs.Stored.{IsStored, read_xattrs-serialize_inode}
use erofs_utils_rust.Fs.Fuse.{to_nid}
use erofs_utils_rust.Fs.Fuse.Xattrs.{
  XattrReply, count, value, names, sized_reply, find_xattr, getxattr, names_buf, listxattr,
}

sized_reply-room :
    (reply : Bytes → XattrReply) (size : ℕ) (bytes : Bytes)
    → 0 < size
    → length bytes ≤ size
    → sized_reply reply size bytes ≡ ok (reply bytes)
unfolding sized_reply
sized_reply-room reply size bytes positive enough = ground arith

sized_reply-small :
    (reply : Bytes → XattrReply) (size : ℕ) (bytes : Bytes)
    → 0 < size
    → size < length bytes
    → sized_reply reply size bytes ≡ err (os 34)
unfolding sized_reply
sized_reply-small reply size bytes positive less = ground arith

find_xattr-missing :
    (name : Bytes) (size : ℕ) (xattrs : List (Bytes × Bytes))
    → All (λ (x : Bytes × Bytes). x.0 ≢ name) xattrs
    → find_xattr name size xattrs ≡ err (os 61)
unfolding find_xattr
find_xattr-missing name size [] none = refl
find_xattr-missing name size ((xname, xvalue) ∷ xattrs) (other, none) =
    elim (Bool-cases (bytes_eq xname name)) [
      | inl same ↦ absurd (other (bytes_eq→eq xname name same))
      | inr differs ↦ rw differs (find_xattr-missing name size xattrs none)
    ]

find_xattr-first :
    (name xvalue : Bytes) (size : ℕ) (before after : List (Bytes × Bytes))
    → All (λ (x : Bytes × Bytes). x.0 ≢ name) before
    → find_xattr name size (before ++ (name, xvalue) ∷ after) ≡ sized_reply value size xvalue
unfolding find_xattr
find_xattr-first name xvalue size [] after none = rw (bytes_eq_refl name) refl
find_xattr-first name xvalue size ((xname, other_value) ∷ before) after (other, none) =
    elim (Bool-cases (bytes_eq xname name)) [
      | inl same ↦ absurd (other (bytes_eq→eq xname name same))
      | inr differs ↦ rw differs (find_xattr-first name xvalue size before after none)
    ]

-- The names that stand in a buffer, each with a NUL behind it.
unfoldable pub split_names : Bytes → Bytes → List Bytes
split_names name [] = []
split_names name (c ∷ bytes) =
    let rest = split_names [] bytes in
    let longer = split_names (name ++ (c ∷ [])) bytes in if c == 0 then name ∷ rest else longer

-- A byte string without NUL.
abbrev pub NoNul : Bytes → Type 0
NoNul = All (λ (c : ℕ). 0 < c)

split_names-name :
    (front name rest : Bytes)
    → NoNul name
    → split_names front (name ++ (0 ∷ rest)) ≡ (front ++ name) ∷ split_names [] rest
unfolding split_names
split_names-name front [] rest clean =
    ap (λ (n : Bytes). n ∷ split_names [] rest) (sym (append-nil front))
split_names-name front (c ∷ name) rest (positive, clean) =
    let other : (c == 0) ≡ false = ground arith in
    rw other (
      split_names-name (front ++ (c ∷ [])) name rest clean
      ∙ ap (λ (n : Bytes). n ∷ split_names [] rest) (append_assoc front (c ∷ []) name))

split_names-names_buf :
    (xattrs : List (Bytes × Bytes))
    → All (λ (x : Bytes × Bytes). NoNul x.0) xattrs
    → split_names [] (names_buf xattrs) ≡ map (λ (x : Bytes × Bytes). x.0) xattrs
unfolding names_buf split_names
split_names-names_buf [] clean = refl
split_names-names_buf ((xname, xvalue) ∷ xattrs) (first, clean) =
    split_names-name [] xname (names_buf xattrs) first
    ∙ ap (λ (ns : List Bytes). xname ∷ ns) (split_names-names_buf xattrs clean)

module _ (r : ErofsReader) (ino nid c epoch : ℕ) (info : InodeInfo) (b : Bytes)
    (numbered : to_nid r ino ≡ ok nid) (few : c < 32) (valid : IsInode info)
    (fit : All IsXattr info.xattrs) (made : serialize_inode info epoch (12 + c) ≡ ok b)
    (stored : IsStored r nid b) where
  getxattr-listed :
      (name : Bytes) (size : ℕ)
      → getxattr r ino name size ≡ find_xattr name size (map listed info.xattrs)
  unfolding getxattr
  getxattr-listed name size = rw numbered (
      sym (>>=-assoc (inode r nid) (read_xattrs r nid) (find_xattr name size))
      ∙ ap (λ (m : IoResult (List (Bytes × Bytes))). m >>= find_xattr name size)
          (read_xattrs-serialize_inode r nid c epoch info b few valid fit made stored))

  listxattr-listed :
      (size : ℕ)
      → listxattr r ino size ≡ sized_reply names size (names_buf (map listed info.xattrs))
  unfolding listxattr
  listxattr-listed size = rw numbered (
      sym (
        >>=-assoc (inode r nid) (read_xattrs r nid)
          (λ (xs : List (Bytes × Bytes)). sized_reply names size (names_buf xs)))
      ∙ ap
          (λ (m : IoResult (List (Bytes × Bytes))).
            m >>= λ (xs : List (Bytes × Bytes)). sized_reply names size (names_buf xs))
          (read_xattrs-serialize_inode r nid c epoch info b few valid fit made stored))

  -- If a FUSE number stands for a nid at which an image below 2^64 bytes holds an inode as
  -- `serialize_inode` wrote it, with 64 bytes to read there, whose values and xattrs fit their
  -- fields, and an xattr of the inode is the first with its full name, then `getxattr` of that name
  -- with size 0 returns the length of the value as 32 bits, and with a size that is not 0 and has
  -- room for the value returns the value.
  pub getxattr-serialize_inode :
      (name xvalue : Bytes) (before after : List (Bytes × Bytes)) (more : ℕ)
      → map listed info.xattrs ≡ before ++ (name, xvalue) ∷ after
      → All (λ (x : Bytes × Bytes). x.0 ≢ name) before
      → 0 < length xvalue + more
      → (getxattr r ino name 0 ≡ ok (count (u32 (length xvalue))))
        × (getxattr r ino name (length xvalue + more) ≡ ok (value xvalue))
  unfolding sized_reply
  getxattr-serialize_inode name xvalue before after more split first positive = (
    found 0,
    found (length xvalue + more) ∙ sized_reply-room value _ xvalue positive (omega arith),
  )
    where
      found : (size : ℕ) → getxattr r ino name size ≡ sized_reply value size xvalue
      found size =
          getxattr-listed name size
          ∙ ap (find_xattr name size) split
          ∙ find_xattr-first name xvalue size before after first

  -- If a FUSE number stands for a nid at which an image below 2^64 bytes holds an inode as
  -- `serialize_inode` wrote it, with 64 bytes to read there, whose values and xattrs fit their
  -- fields, and an xattr of the inode is the first with its full name, then `getxattr` of that name
  -- with a size that is not 0 and is less than the length of the value fails with ERANGE, and
  -- `getxattr` of a name that no xattr of the inode has fails with ENODATA at that size.
  pub getxattr_errors :
      (name absent xvalue : Bytes) (before after : List (Bytes × Bytes)) (size : ℕ)
      → map listed info.xattrs ≡ before ++ (name, xvalue) ∷ after
      → All (λ (x : Bytes × Bytes). x.0 ≢ name) before
      → All (λ (x : Bytes × Bytes). x.0 ≢ absent) (map listed info.xattrs)
      → 0 < size
      → size < length xvalue
      → (getxattr r ino name size ≡ err (os 34)) × (getxattr r ino absent size ≡ err (os 61))
  getxattr_errors name absent xvalue before after size split first none positive less = (
    getxattr-listed name size
        ∙ ap (find_xattr name size) split
        ∙ find_xattr-first name xvalue size before after first
        ∙ sized_reply-small value size xvalue positive less,
    getxattr-listed absent size ∙ find_xattr-missing absent size _ none,
  )

  -- If a FUSE number stands for a nid at which an image below 2^64 bytes holds an inode as
  -- `serialize_inode` wrote it, with 64 bytes to read there, whose values and xattrs fit their
  -- fields, and the names of its xattrs have no NUL, then `listxattr` with size 0 returns the
  -- length of a buffer as 32 bits, with any larger size than that length returns the buffer, and
  -- cutting the buffer behind each NUL gives the full names of the inode's xattrs in their order.
  pub listxattr-serialize_inode :
      (more : ℕ)
      → All (λ (x : Bytes × Bytes). NoNul x.0) (map listed info.xattrs)
      → (buf : Bytes) × (listxattr r ino 0 ≡ ok (count (u32 (length buf))))
        × (listxattr r ino (length buf + suc more) ≡ ok (names buf))
        × (split_names [] buf ≡ map (λ (x : Bytes × Bytes). x.0) (map listed info.xattrs))
  unfolding sized_reply
  listxattr-serialize_inode more clean = (
    names_buf (map listed info.xattrs),
    listxattr-listed 0,
    listxattr-listed _
        ∙ sized_reply-room names (length (names_buf (map listed info.xattrs)) + suc more)
            (names_buf (map listed info.xattrs)) (omega arith) (omega arith),
    split_names-names_buf (map listed info.xattrs) clean,
  )
