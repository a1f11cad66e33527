-- ===== src/Fs/Fuse/Plus.antt =====
-- `readdirplus` against `readdir` and `getattr`.
use erofs_utils_rust.Base.{
  ℕ, zero, suc, ◌+◌, ◌≡◌, refl, sym, ap, ◌∙◌, [], ◌∷◌, List, All, ◌==◌, true, false, drop, IoResult,
  ok, err, panic, ◌>>=◌, >>=-assoc,
}
use mathlib.Core.Path.{fun_ext}
use erofs_utils_rust.Metadata.Inode.{ErofsInode}
use erofs_utils_rust.Metadata.Superblock.{ErofsSuperblock}
use erofs_utils_rust.Fs.Reader.{ErofsReader, sb, inode}
use erofs_utils_rust.Fs.ReadDir.{CachedDirEntry}
use erofs_utils_rust.Fs.Fuse.{Stat, to_nid, to_ino, getattr, make_entry, make_stat, erofs_ft_to_dt}
use erofs_utils_rust.Fs.Fuse.Handles.{
  ErofsFs, FuseDirEntry, AddEntry, get_dir_handle, readdir_loop, readdir, readdirplus_loop,
  readdirplus,
}

-- A nid whose FUSE number leads back to it.
abbrev pub HasIno : ErofsReader → CachedDirEntry → Type 0
HasIno r entry = (to_ino r entry.nid >>= to_nid r) ≡ ok entry.nid

-- What is handed on of the entry at the index `idx`.
abbrev entry_at : ℕ → ℕ → CachedDirEntry → FuseDirEntry
entry_at idx ino entry = record {
  ino = ino;
  offset = idx + 1;
  type_ = erofs_ft_to_dt entry.file_type;
  name = entry.name;
}

drop-All :
    (P : CachedDirEntry → Type 0) (n : ℕ) (xs : List CachedDirEntry) → All P xs → All P (drop n xs)
drop-All P zero xs a = a
drop-All P (suc n) [] a = a
drop-All P (suc n) (x ∷ xs) (p, a) = drop-All P n xs a

module _ {T : Type 0} (plus : T → FuseDirEntry → ℕ × Stat → IoResult (T × ℕ)) where
  -- What `readdir` calls, followed by a `getattr` of the entry.
  abbrev pub with_getattr : ErofsReader → AddEntry T
  with_getattr r t d = do st ← getattr r d.ino; plus t d (d.ino, st)

  to_ino-ok :
      (r : ErofsReader) (s : ErofsSuperblock) (nid : ℕ)
      → sb r ≡ ok s
      → (ino : ℕ) × (to_ino r nid ≡ ok ino)
  unfolding to_ino
  to_ino-ok r s nid readable = rw readable (_, refl)

  -- The attributes are read before the number or behind it.
  swap :
      (ino : ℕ) (m : IoResult ErofsInode) (stat : ErofsInode → IoResult Stat)
      (k : ℕ × Stat → IoResult T)
      → (m >>= λ v. (stat v >>= λ st. ok (ino, st)) >>= k) ≡ ((m >>= stat) >>= λ st. k (ino, st))
  swap ino (ok v) stat k = >>=-assoc (stat v) (λ st. ok (ino, st)) k
  swap ino (err e) stat k = refl
  swap ino panic stat k = refl

  abbrev kept : (T → IoResult T) → T × ℕ → IoResult T
  kept f (t', size) = elim (size == 0) [ true ↦ ok t' | false ↦ f t' ]

  one_entry :
      (r : ErofsReader) (idx : ℕ) (entry : CachedDirEntry) (ino : ℕ) (t : T)
      → to_ino r entry.nid ≡ ok ino
      → to_nid r ino ≡ ok entry.nid
      → (f g : T → IoResult T) → f ≡ g
      → (do
        v ← inode r entry.nid
        e ← make_entry r entry.nid v
        i ← to_ino r entry.nid
        (t', size) ← plus t (entry_at idx i entry) e
        elim (size == 0) [ true ↦ ok t' | false ↦ f t' ])
        ≡ (do
          i ← to_ino r entry.nid
          (t', size) ← with_getattr r t (entry_at idx i entry)
          elim (size == 0) [ true ↦ ok t' | false ↦ g t' ])
  unfolding make_entry getattr
  one_entry r idx entry ino t there leads f g same =
      rw (there, leads)
        (swap ino (inode r entry.nid) (make_stat r entry.nid)
            (λ (e : ℕ × Stat). plus t (entry_at idx ino entry) e >>= kept f)
          ∙ sym (
              >>=-assoc (inode r entry.nid >>= make_stat r entry.nid)
                (λ (st : Stat). plus t (entry_at idx ino entry) (ino, st)) (kept f))
          ∙ ap
              (λ (h : T → IoResult T).
                ((inode r entry.nid >>= make_stat r entry.nid) >>= λ (st : Stat).
                plus t (entry_at idx ino entry) (ino, st))
                >>= kept h)
              same)

  readdirplus_loop-eq :
      (r : ErofsReader) (s : ErofsSuperblock) (idx : ℕ) (entries : List CachedDirEntry) (t : T)
      → sb r ≡ ok s
      → All (HasIno r) entries
      → readdirplus_loop plus r idx entries t ≡ readdir_loop (with_getattr r) r idx entries t
  unfolding readdirplus_loop readdir_loop
  readdirplus_loop-eq r s idx [] t readable back = refl
  readdirplus_loop-eq r s idx (entry ∷ entries) t readable (first, back) =
      let (ino, there) = to_ino-ok r s entry.nid readable in
      let leads : to_nid r ino ≡ ok entry.nid = rw there at first in
      one_entry r idx entry ino t there leads _ _
        (fun_ext (λ t'. readdirplus_loop-eq r s (idx + 1) entries t' readable back))

  -- For a reader with a readable superblock and a handle that stands for a listing, each nid of
  -- which its FUSE number leads back to, `readdirplus` at an offset with any callback returns,
  -- fails and panics as `readdir` at that offset does with a callback that first calls `getattr` on
  -- the number of the entry and hands on what it returns.
  pub readdirplus-readdir :
      (fs : ErofsFs) (s : ErofsSuperblock) (handle offset : ℕ) (entries : List CachedDirEntry)
      (t : T)
      → sb fs.reader ≡ ok s
      → get_dir_handle fs handle ≡ ok entries
      → All (HasIno fs.reader) entries
      → readdirplus plus fs handle offset t ≡ readdir (with_getattr fs.reader) fs handle offset t
  unfolding readdirplus readdir
  readdirplus-readdir fs s handle offset entries t readable open_there back = rw open_there (
      readdirplus_loop-eq fs.reader s offset (drop offset entries) t readable
        (drop-All (HasIno fs.reader) offset entries back))
