-- ===== src/Base/ByteStrings.antt =====
-- Byte strings: little-endian numbers, slices, and writes into a buffer. A `[u8]` is a list of
-- numbers below 256.
use Prim.Native.Nat.{ℕ, zero, suc, ◌+◌, ◌-◌, ◌*◌, ◌/◌, ◌%◌, ◌^◌, ◌≤◌, ◌<◌}
use Prim.Native.Char.{code}
use Prim.Native.String.{String}
use mathlib.Core.Path.{◌≡◌, refl, sym, ap, ap₂, ◌∙◌}
use mathlib.Core.Bool.{Bool, true, false, ◌&&◌}
use mathlib.Core.List.{List, [], ◌∷◌, ◌++◌, append_assoc}
use native.Mathlib.Nat.{pow-suc}
use native.Mathlib.Omega.{arith}
use erofs_utils_rust.Base.Tests.{leb, ◌==◌, if◌then◌else◌}
use erofs_utils_rust.Base.Lists.{
  length, take, drop, replicate, All, length-replicate, length-append, length-take, length-drop,
  take-append, drop-append,
}
use erofs_utils_rust.Base.Results.{IoResult, ok, panic, ◌>>=◌}

abbrev pub Bytes : Type 0
Bytes = List ℕ

abbrev pub IsByte : ℕ → Type 0
IsByte b = b < 256

abbrev pub IsBytes : Bytes → Type 0
IsBytes = All IsByte

-- The bytes of an ASCII literal, such as `b"user."`.
abbrev pub bytes_of : String → Bytes
bytes_of String.[] = []
bytes_of (String.◌∷◌ c s) = code c ∷ bytes_of s

-- `v.to_le_bytes()` at a width of n bytes, and `from_le_bytes`.
abbrev pub to_le_bytes : ℕ → ℕ → Bytes
to_le_bytes zero v = []
to_le_bytes (suc n) v = v % 256 ∷ to_le_bytes n (v / 256)

abbrev pub from_le_bytes : Bytes → ℕ
from_le_bytes [] = 0
from_le_bytes (b ∷ bs) = b + 256 * from_le_bytes bs

-- `vec![0u8; n]`.
abbrev pub zeros : ℕ → Bytes
zeros n = replicate n 0

-- `xs[i]`, `&xs[a..b]` and `&xs[a..]`, which panic out of range.
abbrev pub index : Bytes → ℕ → IoResult ℕ
index [] i = panic
index (x ∷ xs) zero = ok x
index (x ∷ xs) (suc i) = index xs i

unfoldable pub slice : Bytes → ℕ → ℕ → IoResult Bytes
slice xs a b = if leb a b && leb b (length xs) then ok (take (b - a) (drop a xs)) else panic

unfoldable pub slice_from : Bytes → ℕ → IoResult Bytes
slice_from xs a = if leb a (length xs) then ok (drop a xs) else panic

-- The buffer with `new` in place of what stood at `off`.
abbrev pub patch : Bytes → ℕ → Bytes → Bytes
patch buf off new = take off buf ++ (new ++ drop (off + length new) buf)

-- `buf[off..off + new.len()].copy_from_slice(new)`.
unfoldable pub copy_at : Bytes → ℕ → Bytes → IoResult Bytes
copy_at buf off new = if leb (off + length new) (length buf) then ok (patch buf off new) else panic

-- `a == b` on byte strings.
unfoldable pub bytes_eq : Bytes → Bytes → Bool
bytes_eq [] [] = true
bytes_eq (x ∷ xs) (y ∷ ys) = x == y && bytes_eq xs ys
bytes_eq _ _ = false

pub bytes_eq_refl : (a : Bytes) → bytes_eq a a ≡ true
unfolding bytes_eq
bytes_eq_refl [] = refl
bytes_eq_refl (x ∷ xs) = ground (arith, bytes_eq_refl xs)

pub bytes_eq→eq : (a b : Bytes) → bytes_eq a b ≡ true → a ≡ b
unfolding bytes_eq
bytes_eq→eq (x ∷ a) (y ∷ b) h = ground (arith, bytes_eq→eq a b)
bytes_eq→eq [] [] h = refl
bytes_eq→eq [] (y ∷ b) h = cc
bytes_eq→eq (x ∷ a) [] h = cc

pub length-to_le_bytes : (n v : ℕ) → length (to_le_bytes n v) ≡ n
length-to_le_bytes zero v = refl
length-to_le_bytes (suc n) v = ap suc (length-to_le_bytes n (v / 256))

pub to_le_bytes-IsBytes : (n v : ℕ) → IsBytes (to_le_bytes n v)
to_le_bytes-IsBytes zero v = tt
to_le_bytes-IsBytes (suc n) v = (omega arith, to_le_bytes-IsBytes n (v / 256))

pub from_le_bytes-to_le_bytes : (n v : ℕ) → v < 256 ^ n → from_le_bytes (to_le_bytes n v) ≡ v
from_le_bytes-to_le_bytes zero v h = omega arith
from_le_bytes-to_le_bytes (suc n) v h =
    omega (arith, from_le_bytes-to_le_bytes n (v / 256) (omega (arith, pow-suc 256 n)))

pub from_le_bytes-lt : (bs : Bytes) → IsBytes bs → from_le_bytes bs < 256 ^ length bs
from_le_bytes-lt [] h = omega arith
from_le_bytes-lt (b ∷ bs) h = omega (arith, from_le_bytes-lt bs h.1, h.0, pow-suc 256 (length bs))

pub slice_lem :
    (xs : Bytes) (a b : ℕ) → a ≤ b → b ≤ length xs → slice xs a b ≡ ok (take (b - a) (drop a xs))
unfolding slice
slice_lem xs a b h k = ground arith

pub slice_from_lem : (xs : Bytes) (a : ℕ) → a ≤ length xs → slice_from xs a ≡ ok (drop a xs)
unfolding slice_from
slice_from_lem xs a h = ground arith

pub copy_at_lem :
    (buf : Bytes) (off : ℕ) (new : Bytes)
    → off + length new ≤ length buf
    → copy_at buf off new ≡ ok (patch buf off new)
unfolding copy_at
copy_at_lem buf off new h = ground arith

pub length-patch :
    (buf : Bytes) (off : ℕ) (new : Bytes)
    → off + length new ≤ length buf
    → length (patch buf off new) ≡ length buf
length-patch buf off new h = omega (
  arith,
  length-append (take off buf) (new ++ drop (off + length new) buf),
  length-append new (drop (off + length new) buf),
  length-take off buf,
  length-drop (off + length new) buf,
)

-- A slice of the middle of three parts, by the parts' lengths.
pub slice-middle :
    (xs ys zs : Bytes) (a b : ℕ)
    → a ≡ length xs
    → b ≡ a + length ys
    → slice (xs ++ (ys ++ zs)) a b ≡ ok ys
slice-middle xs ys zs a b p q =
    slice_lem (xs ++ (ys ++ zs)) a b (omega arith) bound
    ∙ ap ok (
        ap (take (b - a)) (drop-append xs (ys ++ zs) a p) ∙ take-append ys zs (b - a) (omega arith))
  where
    bound : b ≤ length (xs ++ (ys ++ zs))
    bound = omega (arith, length-append xs (ys ++ zs), length-append ys zs)

-- A write over the middle of three parts replaces that part.
pub copy_at-middle :
    (xs ys zs new : Bytes) (off : ℕ)
    → off ≡ length xs
    → length new ≡ length ys
    → copy_at (xs ++ (ys ++ zs)) off new ≡ ok (xs ++ (new ++ zs))
copy_at-middle xs ys zs new off p q =
    copy_at_lem (xs ++ (ys ++ zs)) off new bound
    ∙ ap ok (ap₂ ◌++◌ (take-append xs (ys ++ zs) off p) (ap (λ (t : Bytes). new ++ t) rest))
  where
    bound : off + length new ≤ length (xs ++ (ys ++ zs))
    bound = omega (arith, length-append xs (ys ++ zs), length-append ys zs)

    whole : drop (off + length new) ((xs ++ ys) ++ zs) ≡ zs
    whole = drop-append (xs ++ ys) zs (off + length new) (omega (arith, length-append xs ys))

    rest : drop (off + length new) (xs ++ (ys ++ zs)) ≡ zs
    rest = ap (drop (off + length new)) (sym (append_assoc xs ys zs)) ∙ whole

-- A buffer of zeros as the front that is written next and what is left.
pub zeros_add : (m n : ℕ) → zeros (m + n) ≡ zeros m ++ zeros n
zeros_add zero n = ap zeros (omega arith)
zeros_add (suc m) n =
    let sum : m + n ≡ m + n = refl in
    let e : suc m + n ≡ suc (m + n) = omega arith in ap zeros e ∙ ap (◌∷◌ 0) (zeros_add m n)

-- A write at the seam between what was written and the zeros that are left.
pub copy_at-zeros :
    (pre piece : Bytes) (off room : ℕ)
    → off ≡ length pre
    → length piece ≤ room
    → copy_at (pre ++ zeros room) off piece ≡ ok ((pre ++ piece) ++ zeros (room - length piece))
copy_at-zeros pre piece off room at fits =
    ap (λ (z : Bytes). copy_at (pre ++ z) off piece) (ap zeros sum ∙ zeros_add (length piece) left)
    ∙ copy_at-middle pre (zeros (length piece)) (zeros left) piece off at
        (sym (length-replicate {A = ℕ} (length piece) 0))
    ∙ ap ok (sym (append_assoc pre piece (zeros left)))
  where
    left : ℕ
    left = room - length piece

    sum : room ≡ length piece + left
    sum = omega arith

-- The same in a chain.
pub copy_at-zeros_then :
    (pre piece : Bytes) (off room : ℕ) (next : Bytes → IoResult Bytes)
    → off ≡ length pre
    → length piece ≤ room
    → (copy_at (pre ++ zeros room) off piece >>= next)
      ≡ next ((pre ++ piece) ++ zeros (room - length piece))
copy_at-zeros_then pre piece off room next at fits =
    ap (λ (m : IoResult Bytes). m >>= next) (copy_at-zeros pre piece off room at fits)

-- An index behind the front of two parts.
pub index-append : (xs ys : Bytes) (n j : ℕ) → n ≡ length xs + j → index (xs ++ ys) n ≡ index ys j
index-append [] ys n j e = let same : n ≡ j = omega arith in ap (index ys) same
index-append (x ∷ xs) ys zero j e = absurd (omega arith)
index-append (x ∷ xs) ys (suc n) j e = index-append xs ys n j (omega arith)

-- An index in range has a byte.
pub index_lem : (xs : Bytes) (i : ℕ) → i < length xs → (b : ℕ) × (index xs i ≡ ok b)
index_lem [] i h = absurd (omega arith)
index_lem (x ∷ xs) zero h = (x, refl)
index_lem (x ∷ xs) (suc i) h = index_lem xs i (omega arith)
