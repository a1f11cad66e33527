-- ===== src/Fs/Reader/Holds.antt =====
-- Bytes that stand at an offset of a mapping, and the slices that return them.
use erofs_utils_rust.Base.{
  ℕ, ◌+◌, ◌^◌, ◌≤◌, ◌<◌, ◌≡◌, refl, sym, ap, ◌∙◌, arith, ◌++◌, append_assoc, Bytes, length,
  length-append, length-drop, take, drop, drop-drop, drop-append, drop-append_front, take-append,
  take-append_part, take-append-drop, ok,
}
use erofs_utils_rust.Fs.Reader.{ErofsReader, checked_slice, mmap_slice}
use erofs_utils_rust.Fs.Reader.Open.{checked_slice-ok}

-- An image holds bytes at an offset.
pub record Holds (mmap : Bytes) (offset : ℕ) (bytes : Bytes) : Type 0 where
  pub room : offset + length bytes ≤ length mmap
  pub there : take (length bytes) (drop offset mmap) ≡ bytes

pub middle-Holds :
    (xs ys zs : Bytes) (offset : ℕ) → offset ≡ length xs → Holds (xs ++ (ys ++ zs)) offset ys
middle-Holds xs ys zs offset e = record {
  room = omega (arith, length-append xs (ys ++ zs), length-append ys zs);
  there =
      ap (take (length ys)) (drop-append xs (ys ++ zs) offset e)
      ∙ take-append ys zs (length ys) refl;
}

-- Bytes behind the image change nothing.
pub append-Holds :
    (mmap more : Bytes) (offset : ℕ) (bytes : Bytes)
    → Holds mmap offset bytes
    → Holds (mmap ++ more) offset bytes
append-Holds mmap more offset bytes h = record {
  room = omega (arith, h.room, length-append mmap more);
  there =
      ap (take (length bytes)) (drop-append_front mmap more offset (omega (arith, h.room)))
      ∙ take-append_part (drop offset mmap) more (length bytes)
          (omega (arith, h.room, length-drop offset mmap))
      ∙ h.there;
}

-- What stands behind the offset.
pub split-Holds :
    (mmap bytes : Bytes) (offset : ℕ)
    → Holds mmap offset bytes
    → drop offset mmap ≡ bytes ++ drop (length bytes) (drop offset mmap)
split-Holds mmap bytes offset h =
    sym (take-append-drop (length bytes) (drop offset mmap))
    ∙ ap (λ (b : Bytes). b ++ drop (length bytes) (drop offset mmap)) h.there

-- A part of what is held.
pub part-Holds :
    (mmap xs ys zs : Bytes) (offset : ℕ)
    → Holds mmap offset (xs ++ (ys ++ zs))
    → Holds mmap (offset + length xs) ys
part-Holds mmap xs ys zs offset h = record {
  room = omega (arith, h.room, length-append xs (ys ++ zs), length-append ys zs);
  there =
      ap (take (length ys)) (
        sym (drop-drop (length xs) offset mmap)
        ∙ ap (drop (length xs)) (split-Holds mmap (xs ++ (ys ++ zs)) offset h ∙ simp append_assoc)
        ∙ drop-append xs (ys ++ (zs ++ behind)) (length xs) refl)
      ∙ take-append ys (zs ++ behind) (length ys) refl;
}
  where
    behind : Bytes
    behind = drop (length (xs ++ (ys ++ zs))) (drop offset mmap)

-- The slice of what is held.
pub checked_slice-Holds :
    (mmap bytes : Bytes) (offset n : ℕ)
    → Holds mmap offset bytes
    → length mmap < 2 ^ 64
    → n ≡ length bytes
    → checked_slice mmap offset n ≡ ok bytes
checked_slice-Holds mmap bytes offset n h small e =
    ap (checked_slice mmap offset) e
    ∙ checked_slice-ok mmap offset (length bytes) h.room (omega (arith, h.room))
    ∙ ap ok h.there

pub mmap_slice-Holds :
    (r : ErofsReader) (bytes : Bytes) (offset n : ℕ)
    → Holds r.mmap offset bytes
    → length r.mmap < 2 ^ 64
    → n ≡ length bytes
    → mmap_slice r offset n ≡ ok bytes
unfolding mmap_slice
mmap_slice-Holds r bytes offset n h small e = checked_slice-Holds r.mmap bytes offset n h small e
