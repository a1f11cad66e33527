-- ===== src/Mkfs/Cores.antt =====
-- What the passes leave alone of an inode: all but where a directory's data stands, how large it is,
-- and who its parent is.
use erofs_utils_rust.Base.{
  ℕ, zero, suc, ◌+◌, ◌<◌, ◌≡◌, ◌≢◌, refl, sym, ap, ◌∙◌, arith, [], ◌∷◌, List, map, All, length,
  length-map, ok, map_ok, map_ok-eq-ok,
}
use mathlib.Core.Path.{subst}
use erofs_utils_rust.Build.Inode.{
  InodeInfo, InodeData, regular_file, directory, symlink, special_dev, special_no_data, base_size,
  tail_size, inode_meta_size,
}
use erofs_utils_rust.Mkfs.{inode_at, update_at}
use erofs_utils_rust.Mkfs.Slots.{Slots}

abbrev pub core_data : InodeData → InodeData
core_data (directory children startblk dir_data_size parent_nid) = directory children 0 0 0
core_data (regular_file cis) = regular_file cis
core_data (symlink target) = symlink target
core_data (special_dev rdev) = special_dev rdev
core_data special_no_data = special_no_data

abbrev pub core_size : InodeData → ℕ → ℕ
core_size (directory children startblk dir_data_size parent_nid) size = 0
core_size (regular_file cis) size = size
core_size (symlink target) size = size
core_size (special_dev rdev) size = size
core_size special_no_data size = size

abbrev pub core : InodeInfo → InodeInfo
core i = record i { data_ = core_data i.data_; size = core_size i.data_ i.size }

-- Lists that agree up to these fields.
abbrev pub SameCores : List InodeInfo → List InodeInfo → Type 0
SameCores ys xs = map core ys ≡ map core xs

tail_size-core_data : (d : InodeData) → tail_size (core_data d) ≡ tail_size d
unfolding tail_size
tail_size-core_data (directory children startblk dir_data_size parent_nid) = refl
tail_size-core_data (regular_file cis) = refl
tail_size-core_data (symlink target) = refl
tail_size-core_data (special_dev rdev) = refl
tail_size-core_data special_no_data = refl

pub inode_meta_size-core : (i : InodeInfo) → inode_meta_size (core i) ≡ inode_meta_size i
unfolding inode_meta_size base_size
inode_meta_size-core i = rw (tail_size-core_data i.data_) refl

head_eq : {x y : InodeInfo} {xs ys : List InodeInfo} → (x ∷ xs) ≡ (y ∷ ys) → x ≡ y
head_eq e = cc

tail_eq : {x y : InodeInfo} {xs ys : List InodeInfo} → (x ∷ xs) ≡ (y ∷ ys) → xs ≡ ys
tail_eq e = cc

pub length-SameCores : (ys xs : List InodeInfo) → SameCores ys xs → length ys ≡ length xs
length-SameCores ys xs e = sym (length-map ys core) ∙ ap length e ∙ length-map xs core

pub All-SameCores :
    (P : InodeInfo → Type 0)
    → ((i : InodeInfo) → P i → P (core i))
    → ((i : InodeInfo) → P (core i) → P i)
    → (ys xs : List InodeInfo) → SameCores ys xs
    → All P xs
    → All P ys
All-SameCores P to from [] xs e a = tt
All-SameCores P to from (y ∷ ys) [] e a = cc
All-SameCores P to from (y ∷ ys) (x ∷ xs) e (p, a) =
    (from y (subst P (sym (head_eq e)) (to x p)), All-SameCores P to from ys xs (tail_eq e) a)

pub Slots-SameCores :
    (start end : ℕ) (ys xs : List InodeInfo)
    → SameCores ys xs
    → Slots start end xs
    → Slots start end ys
Slots-SameCores start end [] [] e s = s
Slots-SameCores start end [] (x ∷ xs) e s = cc
Slots-SameCores start end (y ∷ ys) [] e s = cc
Slots-SameCores start end (y ∷ ys) (x ∷ xs) e (from, number, rest) =
    let offset : y.meta_offset ≡ x.meta_offset =
      ap (λ (i : InodeInfo). i.meta_offset) (head_eq e) in
    let nid : y.nid ≡ x.nid = ap (λ (i : InodeInfo). i.nid) (head_eq e) in
    let size : inode_meta_size y ≡ inode_meta_size x =
      sym (inode_meta_size-core y) ∙ ap inode_meta_size (head_eq e) ∙ inode_meta_size-core x in
    (
      omega arith,
      omega arith,
      Slots-SameCores (y.meta_offset + inode_meta_size y) end ys xs (tail_eq e)
          (subst (λ (n : ℕ). Slots n end xs) (omega arith) rest),
    )

pub inode_at-SameCores :
    (ys xs : List InodeInfo) (k : ℕ) (x : InodeInfo)
    → SameCores ys xs
    → inode_at xs k ≡ ok x
    → (y : InodeInfo) × (inode_at ys k ≡ ok y) × (core y ≡ core x)
unfolding inode_at
inode_at-SameCores ys [] k x e at = cc
inode_at-SameCores [] (x' ∷ xs) k x e at = cc
inode_at-SameCores (y ∷ ys) (x' ∷ xs) zero x e at =
    let same : x' ≡ x = cc in (y, refl, head_eq e ∙ ap core same)
inode_at-SameCores (y ∷ ys) (x' ∷ xs) (suc k) x e at = inode_at-SameCores ys xs k x (tail_eq e) at

pub inode_at-ok :
    (xs : List InodeInfo) (k : ℕ) → k < length xs → (x : InodeInfo) × (inode_at xs k ≡ ok x)
unfolding inode_at
inode_at-ok [] k h = absurd (omega arith)
inode_at-ok (x ∷ xs) zero h = (x, refl)
inode_at-ok (x ∷ xs) (suc k) h = inode_at-ok xs k (omega arith)

pub inode_at-lt :
    (xs : List InodeInfo) (k : ℕ) (x : InodeInfo) → inode_at xs k ≡ ok x → k < length xs
unfolding inode_at
inode_at-lt [] k x at = cc
inode_at-lt (x' ∷ xs) zero x at = omega arith
inode_at-lt (x' ∷ xs) (suc k) x at = omega (arith, inode_at-lt xs k x at)

pub inode_at-All :
    (P : InodeInfo → Type 0) (xs : List InodeInfo) (k : ℕ) (x : InodeInfo)
    → All P xs
    → inode_at xs k ≡ ok x
    → P x
unfolding inode_at
inode_at-All P [] k x a at = cc
inode_at-All P (x' ∷ xs) zero x (p, a) at = let same : x' ≡ x = cc in subst P same p
inode_at-All P (x' ∷ xs) (suc k) x (p, a) at = inode_at-All P xs k x a at

-- A change of one inode that leaves its core alone.
pub update_at-SameCores :
    (k : ℕ) (change : InodeInfo → InodeInfo) (xs : List InodeInfo) (x : InodeInfo)
    → inode_at xs k ≡ ok x
    → core (change x) ≡ core x
    → (ys : List InodeInfo) × (update_at k change xs ≡ ok ys)
      × SameCores ys xs
      × (inode_at ys k ≡ ok (change x))
      × ((j : ℕ) → j ≢ k → inode_at ys j ≡ inode_at xs j)
unfolding update_at inode_at
update_at-SameCores k change [] x at same = cc
update_at-SameCores zero change (x' ∷ xs) x at same =
    let e : x' ≡ x = cc in
    (
      change x' ∷ xs,
      refl,
      ap (λ (i : InodeInfo). i ∷ map core xs)
          (ap (λ (i : InodeInfo). core (change i)) e ∙ same ∙ ap core (sym e)),
      ap (λ (i : InodeInfo). ok (change i)) e,
      others,
    )
  where
    others : (j : ℕ) → j ≢ 0 → inode_at (change x' ∷ xs) j ≡ inode_at (x' ∷ xs) j
    others zero apart = absurd (apart refl)
    others (suc j) apart = refl
update_at-SameCores (suc k) change (x' ∷ xs) x at same =
    let (ys, ran, cores, now, kept) = update_at-SameCores k change xs x at same in
    (
      x' ∷ ys,
      ap (map_ok (λ (rest : List InodeInfo). x' ∷ rest)) ran,
      ap (λ (l : List InodeInfo). core x' ∷ l) cores,
      now,
      others ys kept,
    )
  where
    others :
        (ys : List InodeInfo)
        → ((j : ℕ) → j ≢ k → inode_at ys j ≡ inode_at xs j)
        → (j : ℕ) → j ≢ suc k
        → inode_at (x' ∷ ys) j ≡ inode_at (x' ∷ xs) j
    others ys kept zero apart = refl
    others ys kept (suc j) apart = kept j (λ e. apart (ap suc e))

pub update_at-All :
    (P : InodeInfo → Type 0) (k : ℕ) (change : InodeInfo → InodeInfo) (xs ys : List InodeInfo)
    → ((i : InodeInfo) → P i → P (change i))
    → All P xs
    → update_at k change xs ≡ ok ys
    → All P ys
unfolding update_at
update_at-All P k change [] ys keep a ran = cc
update_at-All P zero change (x ∷ xs) ys keep (p, a) ran =
    let e : (change x ∷ xs) ≡ ys = cc in subst (All P) e (keep x p, a)
update_at-All P (suc k) change (x ∷ xs) ys keep (p, a) ran =
    let (rest, inner, e) =
      map_ok-eq-ok (λ (l : List InodeInfo). x ∷ l) (update_at k change xs) ran in
    subst (All P) e (p, update_at-All P k change xs rest keep a inner)
