-- ===== src/Fs/Xattrs/NoPanic.antt =====
-- Reading xattrs returns a list or an error, whatever the image holds.
use erofs_utils_rust.Base.{
  ℕ, zero, suc, ◌+◌, ◌*◌, ◌^◌, ◌≤◌, ◌<◌, ◌≡◌, ◌≢◌, refl, arith, List, Bytes, Bool-cases, inl, inr,
  length, ltb, leb, leb→le, ltb_false→le, ◌==◌, index_lem, slice_lem, from_le_bytes, IoResult, ok,
  err, panic, ◌>>=◌, [], ◌∷◌, false,
}
use erofs_utils_rust.Metadata.RoundUp.{round_up}
use erofs_utils_rust.Metadata.Xattr.Sizes.{round_up_four}
use erofs_utils_rust.Metadata.Inode
use erofs_utils_rust.Metadata.Inode.{ErofsInode}
use erofs_utils_rust.Metadata.Superblock.{ErofsSuperblock}
use erofs_utils_rust.Fs.Reader.{ErofsReader, sb, mmap_slice}
use erofs_utils_rust.Fs.Reader.Open.{length-checked_slice}
use erofs_utils_rust.Fs.Chunks.NoPanic.{mmap_slice-ne-panic, nid_to_offset-ok}
use erofs_utils_rust.Fs.Xattrs.{read_entries, read_body, read_xattrs}

read_entries-ne-panic :
    (fuel : ℕ) (d : Bytes) (pos : ℕ) (result : List (Bytes × Bytes))
    → length d ≤ pos + fuel
    → length d < 2 ^ 32
    → read_entries fuel d pos result ≢ panic
unfolding read_entries
read_entries-ne-panic zero d pos result enough small =
    let done : leb (pos + 4) (length d) ≡ false = ground arith in rw done (λ e. cc)
read_entries-ne-panic (suc fuel) d pos result enough small =
    elim (Bool-cases (leb (pos + 4) (length d))) [
      | inr done ↦ rw done (λ e. cc)
      | inl more ↦
          let room : pos + 4 ≤ length d = leb→le (pos + 4) (length d) more in
          let (name_len, i0) = index_lem d pos (omega arith) in
          let (name_index, i1) = index_lem d (pos + 1) (omega arith) in
          let (low, i2) = index_lem d (pos + 2) (omega arith) in
          let (high, i3) = index_lem d (pos + 3) (omega arith) in
          let value_end : ℕ = pos + 4 + name_len + from_le_bytes (low ∷ high ∷ []) in
          elim (Bool-cases (ltb (length d) value_end)) [
            | inl cut ↦ rw (more, i0, i1, i2, i3, cut) (λ e. cc)
            | inr whole ↦
                let le : value_end ≤ length d = ltb_false→le (length d) value_end whole in
                rw
                  (
                    more,
                    i0,
                    i1,
                    i2,
                    i3,
                    whole,
                    slice_lem d (pos + 4) (pos + 4 + name_len) (omega arith) (omega arith),
                    slice_lem d (pos + 4 + name_len) value_end (omega arith) le,
                  )
                  (read_entries-ne-panic fuel d (round_up value_end 4) _
                    (omega (arith, round_up_four value_end (omega arith))) small)
          ]
    ]

read_body-ne-panic : (d : Bytes) → length d < 2 ^ 32 → read_body d ≢ panic
unfolding read_body
read_body-ne-panic d small = elim (Bool-cases (ltb (length d) 12)) [
  | inl short ↦ rw short (λ e. cc)
  | inr long ↦
      let (shared, i4) = index_lem d 4 (omega (arith, ltb_false→le (length d) 12 long)) in
      elim (Bool-cases (leb (length d) (12 + shared * 4))) [
        | inl over ↦ rw (long, i4, over) (λ e. cc)
        | inr inside ↦
            rw (long, i4, inside)
              (read_entries-ne-panic (length d) d (12 + shared * 4) [] (omega arith) small)
      ]
]

-- If the superblock can be read and the xattrs of an inode take less than 2^32 bytes by its header,
-- `read_xattrs` returns a list or an error, whatever the image holds: no index is out of range, and
-- its loop ends within its rounds.
pub read_xattrs-ne-panic :
    (r : ErofsReader) (s : ErofsSuperblock) (nid : ℕ) (inode : ErofsInode)
    → sb r ≡ ok s
    → Inode.xattr_size inode < 2 ^ 32
    → read_xattrs r nid inode ≢ panic
unfolding read_xattrs mmap_slice
read_xattrs-ne-panic r s nid inode readable small =
    elim (Bool-cases (Inode.xattr_size inode == 0)) [
      | inl bare ↦ rw bare (λ e. cc)
      | inr some_bytes ↦
          rw (some_bytes, nid_to_offset-ok r s readable nid)
            (sliced _ (λ d h. length-checked_slice r.mmap _ _ d h) (mmap_slice-ne-panic r _ _))
    ]
  where
    sliced :
        (x : IoResult Bytes)
        → ((d : Bytes) → x ≡ ok d → length d ≡ Inode.xattr_size inode)
        → x ≢ panic
        → (x >>= read_body) ≢ panic
    sliced (ok d) long good = read_body-ne-panic d (omega (arith, long d refl))
    sliced (err e) long good = λ same. cc
    sliced panic long good = absurd (good refl)
