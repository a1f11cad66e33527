-- ===== src/Fs/Fuse/Handles/Table.antt =====
-- The table of directory handles: what a handle stands for, and for how long.
use erofs_utils_rust.Base.{
  ℕ, ◌+◌, ◌<◌, ◌≤◌, ◌^◌, ◌≡◌, ◌≢◌, refl, ap, ◌∙◌, arith, [], ◌∷◌, List, none, some, ◌==◌, ==_refl,
  if◌then◌else◌, add64, IoResult, ok, err, os, ◌>>=◌, ok_first, Bool-cases, inl, inr,
}
use mathlib.Core.Path.{subst}
use erofs_utils_rust.Metadata.Inode
use erofs_utils_rust.Metadata.Inode.{ErofsInode}
use erofs_utils_rust.Fs.Reader.{ErofsReader, inode}
use erofs_utils_rust.Fs.ReadDir.{CachedDirEntry, read_dir_cached}
use erofs_utils_rust.Fs.Fuse.{to_nid, file_type_bits}
use erofs_utils_rust.Fs.Fuse.Handles.{
  ErofsFs, new, get, remove, insert, create_dir_handle, get_dir_handle, opendir, releasedir,
}

module _ {ℓ} {V : Type ℓ} where
  get-remove :
      (j k : ℕ) (m : List (ℕ × V)) → get j (remove k m) ≡ (if k == j then none else get j m)
  unfolding get remove
  get-remove j k [] = ground arith
  get-remove j k ((i, v) ∷ m) = ground (arith, get-remove j k m)

  get-insert :
      (j k : ℕ) (v : V) (m : List (ℕ × V))
      → get j (insert k v m) ≡ (if k == j then some v else get j m)
  unfolding get insert
  get-insert j k v m = ground (arith, get-remove j k m)

-- Every handle in the table was handed out before the next one.
pub record IsFs (fs : ErofsFs) : Type 0 where
  pub handed_out : (h : ℕ) → fs.next_dir_handle ≤ h → get h fs.dir_handles ≡ none

pub new-IsFs : (r : ErofsReader) → IsFs (new r)
unfolding new get
new-IsFs r = record { handed_out = λ h p. refl }

-- The listing of a directory by its FUSE number.
abbrev pub listing : ErofsReader → ℕ → IoResult (List CachedDirEntry)
listing r ino = do nid ← to_nid r ino; vi ← inode r nid; read_dir_cached r nid vi

-- What a successful `opendir` did.
pub record Opened (fs : ErofsFs) (ino : ℕ) (fs' : ErofsFs) (handle : ℕ) : Type 0 where
  pub entries : List CachedDirEntry
  pub listed : listing fs.reader ino ≡ ok entries
  pub stands_for : get_dir_handle fs' handle ≡ ok entries
  pub fresh : get_dir_handle fs handle ≡ err (os 9)
  pub others : (h : ℕ) → h ≢ handle → get_dir_handle fs' h ≡ get_dir_handle fs h
  pub valid : IsFs fs'

abbrev fs_of : ErofsFs → List CachedDirEntry → ErofsFs
fs_of fs entries = record fs {
  dir_handles = insert fs.next_dir_handle entries fs.dir_handles;
  next_dir_handle = add64 fs.next_dir_handle 1;
}

inserted :
    (fs : ErofsFs) (ino : ℕ) (entries : List CachedDirEntry)
    → IsFs fs
    → fs.next_dir_handle + 1 < 2 ^ 64
    → listing fs.reader ino ≡ ok entries
    → Opened fs ino (fs_of fs entries) fs.next_dir_handle
unfolding get_dir_handle
inserted fs ino entries v h listed = record {
  entries = entries;
  listed = listed;
  stands_for = rw (
    get_dir_handle,
    get-insert fs.next_dir_handle fs.next_dir_handle entries fs.dir_handles,
    ==_refl fs.next_dir_handle,
  );
  fresh = rw (get_dir_handle, v.handed_out fs.next_dir_handle (omega arith));
  others = λ k ne. ground (arith, get-insert k fs.next_dir_handle entries fs.dir_handles);
  valid = record {
    handed_out = λ k le. ground (
      arith,
      get-insert k fs.next_dir_handle entries fs.dir_handles,
      v.handed_out k (omega arith),
    );
  };
}

create_dir_handle-Opened :
    (fs : ErofsFs) (ino : ℕ) (fs' : ErofsFs) (handle : ℕ)
    → IsFs fs
    → fs.next_dir_handle + 1 < 2 ^ 64
    → create_dir_handle fs ino ≡ ok (fs', handle)
    → Opened fs ino fs' handle
unfolding create_dir_handle
create_dir_handle-Opened fs ino fs' handle v h e =
    let (nid, e1, k1) = ok_first _ (to_nid fs.reader ino) e in
    let (vi, e2, k2) = ok_first _ (inode fs.reader nid) k1 in
    let (entries, e3, k3) = ok_first _ (read_dir_cached fs.reader nid vi) k2 in
    let listed : listing fs.reader ino ≡ ok entries =
      ap
        (λ (m : IoResult ℕ).
          m >>= λ (n : ℕ). inode fs.reader n >>= λ (i : ErofsInode). read_dir_cached fs.reader n i)
        e1
      ∙ ap (λ (m : IoResult ErofsInode). m >>= read_dir_cached fs.reader nid) e2
      ∙ e3 in
    let done : (fs_of fs entries, fs.next_dir_handle) ≡ (fs', handle) = cc in
    subst (λ (x : ErofsFs × ℕ). Opened fs ino (x.0) (x.1)) done (inserted fs ino entries v h listed)

-- From a table whose handles were all handed out before the next one, and unless the counter
-- wraps, a successful `opendir` returns a handle that stood for nothing before, stands for the
-- listing of the directory afterwards, leaves every other handle as it was, and keeps the
-- invariant.
pub opendir-Opened :
    (fs : ErofsFs) (ino : ℕ) (fs' : ErofsFs) (handle : ℕ)
    → IsFs fs
    → fs.next_dir_handle + 1 < 2 ^ 64
    → opendir fs ino ≡ ok (fs', handle)
    → Opened fs ino fs' handle
unfolding opendir
opendir-Opened fs ino fs' handle v h e =
    let (nid, e1, k1) = ok_first _ (to_nid fs.reader ino) e in
    let (vi, e2, k2) = ok_first _ (inode fs.reader nid) k1 in
    elim (Bool-cases (file_type_bits (Inode.mode vi) == 0o040000)) [
      | inl dir ↦ create_dir_handle-Opened fs ino fs' handle v h (ground (arith, dir, k2))
      | inr other ↦ ground (arith, other, k2)
    ]

-- `releasedir` makes its handle stand for nothing, so that its use fails with EBADF, leaves
-- every other handle as it was, and keeps the invariant of the table.
pub releasedir-get_dir_handle :
    (fs : ErofsFs) (handle : ℕ)
    → IsFs fs
    → (get_dir_handle (releasedir fs handle) handle ≡ err (os 9))
      × ((h : ℕ) → h ≢ handle → get_dir_handle (releasedir fs handle) h ≡ get_dir_handle fs h)
      × IsFs (releasedir fs handle)
unfolding releasedir get_dir_handle
releasedir-get_dir_handle fs handle v = (
  rw (get_dir_handle, get-remove handle handle fs.dir_handles, ==_refl handle),
  (λ h ne. ground (arith, get-remove h handle fs.dir_handles)),
  record {
    handed_out = λ h le. ground (arith, get-remove h handle fs.dir_handles, v.handed_out h le);
  },
)
