-- ===== src/Fs/Fuse/Handles/Pages.antt =====
-- Reading a directory in pages: what one call of `readdir` delivers, and where the next goes on.
use erofs_utils_rust.Base.{
  ℕ, zero, suc, ◌+◌, ◌≡◌, refl, sym, ap, ◌∙◌, arith, [], ◌∷◌, ◌++◌, append_assoc, append-nil, List,
  ◌==◌, if◌then◌else◌, take, take-nil, drop, IoResult, ok, add64, map_ok,
}
use erofs_utils_rust.Metadata.Superblock
use erofs_utils_rust.Metadata.Superblock.{ErofsSuperblock}
use erofs_utils_rust.Fs.Reader.{ErofsReader, sb}
use erofs_utils_rust.Fs.ReadDir.{CachedDirEntry}
use erofs_utils_rust.Fs.Fuse.{to_ino, erofs_ft_to_dt, fuse_root_id}
use erofs_utils_rust.Fs.Fuse.Handles.{
  ErofsFs, FuseDirEntry, AddEntry, readdir_loop, readdir, get_dir_handle,
}

-- A buffer with room for a number of entries, and the entries that it holds.
abbrev pub Page : Type 0
Page = ℕ × List FuseDirEntry

abbrev pub fill_page : AddEntry Page
fill_page (zero, entries) e = ok ((0, entries), 0)
fill_page (suc room, entries) e = ok ((room, entries ++ (e ∷ [])), 1)

module _ (s : ErofsSuperblock) where
  abbrev pub ino_of : ℕ → ℕ
  ino_of nid = if nid == Superblock.root_nid s then fuse_root_id else add64 nid fuse_root_id

  -- The entries as the kernel sees them, counted from `idx` on.
  abbrev pub numbered : ℕ → List CachedDirEntry → List FuseDirEntry
  numbered idx [] = []
  numbered idx (e ∷ es) =
      record {
        ino = ino_of e.nid;
        offset = idx + 1;
        type_ = erofs_ft_to_dt e.file_type;
        name = e.name;
      }
      ∷ numbered (idx + 1) es

  pub drop-numbered :
      (n idx : ℕ) (es : List CachedDirEntry)
      → drop n (numbered idx es) ≡ numbered (idx + n) (drop n es)
  drop-numbered zero idx es = let e : idx ≡ idx + 0 = omega arith in ap (λ (i : ℕ). numbered i es) e
  drop-numbered (suc n) idx [] = refl
  drop-numbered (suc n) idx (x ∷ es) =
      let e : idx + 1 + n ≡ idx + suc n = omega arith in
      drop-numbered n (idx + 1) es ∙ ap (λ (i : ℕ). numbered i (drop n es)) e

  fill_loop :
      (r : ErofsReader) (es : List CachedDirEntry) (idx room : ℕ) (held : List FuseDirEntry)
      → sb r ≡ ok s
      → map_ok (λ (p : Page). p.1) (readdir_loop fill_page r idx es (room, held))
        ≡ ok (held ++ take room (numbered idx es))
  unfolding readdir_loop to_ino
  fill_loop r [] idx room held e =
      ap ok
        (sym (append-nil held) ∙ ap (λ (l : List FuseDirEntry). held ++ l) (sym (take-nil room)))
  fill_loop r (x ∷ es) idx zero held e = rw e (ap ok (sym (append-nil held)))
  fill_loop r (x ∷ es) idx (suc room) held e =
      rw e (fill_loop r es (idx + 1) room _ e ∙ ap ok (append_assoc held _ _))

-- For a reader with a readable superblock and a handle that stands for a listing, `readdir` at
-- an offset fills a page with the entries of the listing from that offset on, as many as there
-- is room for, each with its FUSE number, its type and the offset behind it.
pub readdir-fill_page :
    (fs : ErofsFs) (s : ErofsSuperblock) (handle offset room : ℕ) (entries : List CachedDirEntry)
    → sb fs.reader ≡ ok s
    → get_dir_handle fs handle ≡ ok entries
    → map_ok (λ (p : Page). p.1) (readdir fill_page fs handle offset (room, []))
      ≡ ok (take room (drop offset (numbered s 0 entries)))
unfolding readdir
readdir-fill_page fs s handle offset room entries e g = rw g (
    fill_loop s fs.reader (drop offset entries) offset room [] e
    ∙ ap (λ (l : List FuseDirEntry). ok (take room l))
        (sym (
          drop-numbered s offset 0 entries
          ∙ ap (λ (i : ℕ). numbered s i (drop offset entries)) (zero_add offset))))
  where
    zero_add : (n : ℕ) → 0 + n ≡ n
    zero_add n = omega arith

-- The page that `readdir` returns.
abbrev pub page : ErofsFs → ℕ → ℕ → ℕ → IoResult (List FuseDirEntry)
page fs handle offset room =
    map_ok (λ (p : Page). p.1) (readdir fill_page fs handle offset (room, []))
