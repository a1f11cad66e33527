-- ===== src/Mkfs/Buffers.antt =====
-- What a buffer holds after a part of it is overwritten.
use erofs_utils_rust.Base.{
  ℕ, ◌+◌, ◌-◌, ◌≤◌, ◌≡◌, sym, ap, ◌∙◌, arith, ◌++◌, append_assoc, Bytes, length, length-append,
  length-take, length-drop, length-patch, patch, take, drop, drop-drop, drop-append,
  drop-append_front, take-append_part, take-drop-take,
}
use erofs_utils_rust.Fs.Reader.Holds.{Holds, middle-Holds}

module _ (buf new : Bytes) (off : ℕ) (room : off + length new ≤ length buf) where
  long_front : off ≡ length (take off buf)
  long_front = omega (arith, length-take off buf)

  pub patch-Holds_itself : Holds (patch buf off new) off new
  patch-Holds_itself = middle-Holds (take off buf) new (drop (off + length new) buf) off long_front

  -- In front of what is written.
  pub patch-Holds_front :
      (o : ℕ) (b : Bytes) → o + length b ≤ off → Holds buf o b → Holds (patch buf off new) o b
  patch-Holds_front o b before held = record {
    room = omega (arith, held.room, length-patch buf off new room);
    there =
        ap (take (length b)) (
          drop-append_front (take off buf) (new ++ drop (off + length new) buf) o
            (omega (arith, long_front)))
        ∙ take-append_part (drop o (take off buf)) (new ++ drop (off + length new) buf) (length b)
            (omega (arith, long_front, length-drop o (take off buf)))
        ∙ take-drop-take (length b) o off buf before
        ∙ held.there;
  }

  -- Behind what is written.
  pub patch-Holds_behind :
      (o : ℕ) (b : Bytes) → off + length new ≤ o → Holds buf o b → Holds (patch buf off new) o b
  patch-Holds_behind o b after held = record {
    room = omega (arith, held.room, length-patch buf off new room);
    there = ap (take (length b)) same ∙ held.there;
  }
    where
      rest : Bytes
      rest = drop (off + length new) buf

      long : off + length new ≡ length (take off buf ++ new)
      long = omega (arith, long_front, length-append (take off buf) new)

      same : drop o (patch buf off new) ≡ drop o buf
      same =
          let sum : o ≡ (off + length new) + (o - (off + length new)) = omega arith in
          ap (drop o) (sym (append_assoc (take off buf) new rest))
          ∙ ap (λ (n : ℕ). drop n ((take off buf ++ new) ++ rest)) sum
          ∙ sym (
              drop-drop (o - (off + length new)) (off + length new) ((take off buf ++ new) ++ rest))
          ∙ ap (drop (o - (off + length new)))
              (drop-append (take off buf ++ new) rest (off + length new) long)
          ∙ drop-drop (o - (off + length new)) (off + length new) buf
          ∙ ap (λ (n : ℕ). drop n buf) (sym sum)
