-- ===== src/Build/Dir/Block.antt =====
-- One directory block: the dirents, the names, and zeros up to the block's end.
use erofs_utils_rust.Base.{
  ℕ, suc, ◌+◌, ◌-◌, ◌*◌, ◌^◌, ◌≤◌, ◌<◌, ◌≡◌, refl, sym, ap, ap₂, ◌∙◌, arith, [], ◌∷◌, ◌++◌, List,
  Bytes, zeros, zeros_add, length, length-append, length-replicate, append_assoc, u16, copy_at,
  copy_at-middle, ok, ◌≢◌, All, IsU64,
}
use native.Mathlib.Nat.{zero-add}
use erofs_utils_rust.Metadata.Dirent
use erofs_utils_rust.Build.Dir.{DirChild, write_entries}

abbrev pub dirent_bytes : DirChild → ℕ → Bytes
dirent_bytes e off = Dirent.as_bytes (Dirent.new e.nid off e.file_type)

-- An entry that the format can hold: a name with a byte and no NUL, that fits a block.
pub record IsEntry (e : DirChild) : Type 0 where
  pub name_pos : 0 < length e.name
  pub no_nul : All (λ b. b ≢ 0) e.name
  pub name_fits : 12 + length e.name ≤ 4096
  pub nid_word : IsU64 e.nid

-- The dirents of the entries whose names stand from `off` on, and the names.
pub dirents : ℕ → List DirChild → Bytes
dirents off [] = []
dirents off (e ∷ es) = dirent_bytes e off ++ dirents (off + length e.name) es

pub names : List DirChild → Bytes
names [] = []
names (e ∷ es) = e.name ++ names es

pub dirents-cons :
    (off : ℕ) (e : DirChild) (es : List DirChild)
    → dirents off (e ∷ es) ≡ dirent_bytes e off ++ dirents (off + length e.name) es
unfolding dirents
dirents-cons off e es = refl

pub dirents-nil : (off : ℕ) → dirents off [] ≡ []
unfolding dirents
dirents-nil off = refl

pub names-cons : (e : DirChild) (es : List DirChild) → names (e ∷ es) ≡ e.name ++ names es
unfolding names
names-cons e es = refl

pub names-nil : names [] ≡ []
unfolding names
names-nil = refl

pub length-dirents : (off : ℕ) (es : List DirChild) → length (dirents off es) ≡ 12 * length es
unfolding dirents
length-dirents off [] = omega arith
length-dirents off (e ∷ es) = omega (
  arith,
  length-append (dirent_bytes e off) (dirents (off + length e.name) es),
  Dirent.length-as_bytes e.nid off e.file_type,
  length-dirents (off + length e.name) es,
)

-- One round of the loop: the dirent goes over the first 12 zeros behind `done`, and the name over
-- the zeros behind `named`.
module _ (done named : Bytes) (e : DirChild) (k i off r : ℕ) (at : length done ≡ i * 12)
    (name_at : off ≡ length done + 12 * suc k + length named) (fits : off < 2 ^ 16) where
  abbrev dirent : Bytes
  dirent = dirent_bytes e off

  twelve : zeros (12 * suc k) ≡ zeros 12 ++ zeros (12 * k)
  twelve = let e12 : 12 * suc k ≡ 12 + 12 * k = omega arith in ap zeros e12 ∙ zeros_add 12 (12 * k)

  length-dirent : length dirent ≡ 12
  length-dirent = Dirent.length-as_bytes e.nid off e.file_type

  write_dirent :
      (rest : Bytes)
      → copy_at (done ++ (zeros (12 * suc k) ++ rest)) (i * 12) dirent
        ≡ ok (done ++ (dirent ++ (zeros (12 * k) ++ rest)))
  write_dirent rest =
      ap (λ (b : Bytes). copy_at b (i * 12) dirent)
        (ap (λ (z : Bytes). done ++ (z ++ rest)) twelve
          ∙ ap (λ (b : Bytes). done ++ b) (append_assoc (zeros 12) (zeros (12 * k)) rest))
      ∙ copy_at-middle done (zeros 12) (zeros (12 * k) ++ rest) dirent (i * 12) (omega arith)
          (omega (arith, length-dirent))

  abbrev front : Bytes
  front = ((done ++ dirent) ++ zeros (12 * k)) ++ named

  length-front : off ≡ length front
  length-front = omega (
    arith,
    length-append ((done ++ dirent) ++ zeros (12 * k)) named,
    length-append (done ++ dirent) (zeros (12 * k)),
    length-append done dirent,
    length-dirent,
    length-replicate {A = ℕ} (12 * k) 0,
  )

  write_name :
      copy_at
        (done ++ (dirent ++ (zeros (12 * k) ++ (named ++ zeros (length e.name + r)))))
        off
        e.name
      ≡ ok ((done ++ dirent) ++ (zeros (12 * k) ++ ((named ++ e.name) ++ zeros r)))
  write_name =
      ap (λ (b : Bytes). copy_at b off e.name)
        (rw (zeros_add (length e.name) r) (simp append_assoc))
      ∙ copy_at-middle front (zeros (length e.name)) (zeros r) e.name off length-front
          (sym (length-replicate {A = ℕ} (length e.name) 0))
      ∙ ap ok (simp append_assoc)

-- The loop at entry `i`: `done` holds the dirents before it, `named` their names.
write_entries-eq :
    (es : List DirChild) (done named : Bytes) (i off pad : ℕ)
    → length done ≡ i * 12
    → off ≡ length done + 12 * length es + length named
    → off + length (names es) < 2 ^ 16
    → write_entries
        (done ++ (zeros (12 * length es) ++ (named ++ zeros (length (names es) + pad))))
        i
        off
        es
      ≡ ok (done ++ (dirents off es ++ (named ++ (names es ++ zeros pad))))
unfolding write_entries dirents names
write_entries-eq [] done named i off pad hd ho hf =
    ap (λ (n : ℕ). ok (done ++ (named ++ zeros n))) (zero-add pad)
write_entries-eq (e ∷ es) done named i off pad hd ho hf =
    rw (small, room)
      (rw
        (write_dirent done named e (length es) i off r hd ho fits
          (named ++ zeros (length e.name + r)))
        (rw (write_name done named e (length es) i off r hd ho fits) (
          write_entries-eq es (done ++ dirent_bytes e off) (named ++ e.name) (i + 1)
            (off + length e.name) pad (omega (arith, done_length))
            (omega (arith, done_length, length-append named e.name))
            (omega (arith, length-append e.name (names es)))
          ∙ ap ok (simp append_assoc))))
  where
    r : ℕ
    r = length (names es) + pad

    fits : off < 2 ^ 16
    fits = omega (arith, length-append e.name (names es))

    small : u16 off ≡ off
    small = omega (arith, fits)

    room : length (e.name ++ names es) + pad ≡ length e.name + r
    room = omega (arith, length-append e.name (names es))

    done_length : length (done ++ dirent_bytes e off) ≡ length done + 12
    done_length = omega (
      arith,
      length-append done (dirent_bytes e off),
      Dirent.length-as_bytes e.nid off e.file_type,
    )

-- A block of entries that fit: the code makes it from zeros.
unfoldable pub block_of : List DirChild → Bytes
block_of es =
    dirents (12 * length es) es ++ (names es ++ zeros (4096 - 12 * length es - length (names es)))

pub write_block :
    (es : List DirChild)
    → 12 * length es + length (names es) ≤ 4096
    → write_entries (zeros 4096) 0 (length es * 12) es ≡ ok (block_of es)
unfolding block_of
write_block es h =
    ap₂ (λ (b : Bytes) (n : ℕ). write_entries b 0 n es) split times
    ∙ write_entries-eq es [] [] 0 (12 * length es) pad (omega arith) (omega arith) (omega arith)
  where
    pad : ℕ
    pad = 4096 - 12 * length es - length (names es)

    times : length es * 12 ≡ 12 * length es
    times = omega arith

    split : zeros 4096 ≡ zeros (12 * length es) ++ zeros (length (names es) + pad)
    split =
        let sum : 4096 ≡ 12 * length es + (length (names es) + pad) = omega arith in
        ap zeros sum ∙ zeros_add (12 * length es) (length (names es) + pad)

pub length-block_of :
    (es : List DirChild) → 12 * length es + length (names es) ≤ 4096 → length (block_of es) ≡ 4096
unfolding block_of
length-block_of es h = omega (
  arith,
  length-append (dirents (12 * length es) es) (names es ++ zeros pad),
  length-append (names es) (zeros pad),
  length-replicate {A = ℕ} pad 0,
  length-dirents (12 * length es) es,
)
  where
    pad : ℕ
    pad = 4096 - 12 * length es - length (names es)
