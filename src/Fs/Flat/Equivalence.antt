-- ===== src/Fs/Flat/Equivalence.antt =====
-- Writing flat data writes what reading it returns.
use erofs_utils_rust.Base.{
  ℕ, ◌++◌, ◌≡◌, refl, ap, Bytes, Bool-cases, inl, inr, append_assoc, IoResult, ok, err, panic,
  map_ok, ◌>>=◌,
}
use erofs_utils_rust.Metadata.Inode.{ErofsInode}
use erofs_utils_rust.Fs.Reader.{ErofsReader}
use erofs_utils_rust.Fs.Flat.{read_flat_data_vec, write_flat_data_to, spans}

abbrev counted : Bytes → ℕ → IoResult (Bytes × ℕ)
counted w size = ok (w, size)

two_pieces :
    (a b : IoResult Bytes) (w : Bytes) (size : ℕ)
    → (a >>= λ x. b >>= λ y. counted ((w ++ x) ++ y) size)
      ≡ map_ok (λ (v : Bytes). (w ++ v, size)) (a >>= λ x. b >>= λ y. ok (x ++ y))
two_pieces (ok x) (ok y) w size = ap (λ (v : Bytes). ok (v, size)) (append_assoc w x y)
two_pieces (ok x) (err e) w size = refl
two_pieces (ok x) panic w size = refl
two_pieces (err e) b w size = refl
two_pieces panic b w size = refl

one_piece :
    (a : IoResult Bytes) (w : Bytes) (size : ℕ)
    → (a >>= λ x. counted (w ++ x) size) ≡ map_ok (λ (v : Bytes). (w ++ v, size)) a
one_piece (ok x) w size = refl
one_piece (err e) w size = refl
one_piece panic w size = refl

pub write_flat_data_to-read :
    (r : ErofsReader) (nid : ℕ) (inode : ErofsInode) (offset size : ℕ) (w : Bytes)
    → write_flat_data_to r nid inode offset size w
      ≡ map_ok (λ (v : Bytes). (w ++ v, size)) (read_flat_data_vec r nid inode offset size)
unfolding write_flat_data_to read_flat_data_vec
write_flat_data_to-read r nid inode offset size w = elim (Bool-cases (spans inode offset size)) [
  | inl e ↦ rw e (two_pieces _ _ w size)
  | inr e ↦ rw e (one_piece _ w size)
]
