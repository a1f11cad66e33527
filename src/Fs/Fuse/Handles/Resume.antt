-- ===== src/Fs/Fuse/Handles/Resume.antt =====
-- Reading a directory to its end: a client of `readdir` that goes on where it was told.
use erofs_utils_rust.Base.{
  ℕ, zero, suc, ◌+◌, ◌-◌, ◌<◌, ◌≡◌, refl, sym, ap, ◌∙◌, arith, [], ◌∷◌, ◌++◌, List, Bytes, map,
  length, length-drop, take, drop, take-nil, drop-drop, min, take-append-drop, IoResult, ok, panic,
  ◌>>=◌, map_ok,
}
use erofs_utils_rust.Metadata.Superblock.{ErofsSuperblock}
use erofs_utils_rust.Fs.Reader.{sb}
use erofs_utils_rust.Fs.ReadDir.{CachedDirEntry}
use erofs_utils_rust.Fs.Fuse.{erofs_ft_to_dt}
use erofs_utils_rust.Fs.Fuse.Handles.{ErofsFs, FuseDirEntry, get_dir_handle}
use erofs_utils_rust.Fs.Fuse.Handles.Pages.{
  ino_of, numbered, drop-numbered, page, readdir-fill_page,
}

-- The offset that came with the last entry.
abbrev pub last_offset : ℕ → List FuseDirEntry → ℕ
last_offset offset [] = offset
last_offset offset (e ∷ es) = last_offset e.offset es

-- What was delivered, in front of the rest; a call that delivers nothing is the last.
abbrev pub then_rest :
    List FuseDirEntry → IoResult (List FuseDirEntry) → IoResult (List FuseDirEntry)
then_rest [] rest = ok []
then_rest (e ∷ es) rest = map_ok (λ (r : List FuseDirEntry). (e ∷ es) ++ r) rest

-- Each call has room for some entries and starts at the offset that came with the last entry of the
-- call before. `panic` stands for the end of the calls.
unfoldable pub read_all : ErofsFs → ℕ → (ℕ → ℕ) → ℕ → ℕ → IoResult (List FuseDirEntry)
read_all fs handle rooms zero offset = panic
read_all fs handle rooms (suc calls) offset = do
  entries ← page fs handle offset (rooms calls)
  then_rest entries (read_all fs handle rooms calls (last_offset offset entries))

-- An entry without its offset, as the kernel sees it and as the listing has it.
abbrev pub delivered : FuseDirEntry → ℕ × ℕ × Bytes
delivered e = (e.ino, e.type_, e.name)

abbrev pub listed_as : ErofsSuperblock → CachedDirEntry → ℕ × ℕ × Bytes
listed_as s e = (ino_of s e.nid, erofs_ft_to_dt e.file_type, e.name)

delivered-numbered :
    (s : ErofsSuperblock) (idx : ℕ) (es : List CachedDirEntry)
    → map delivered (numbered s idx es) ≡ map (listed_as s) es
delivered-numbered s idx [] = refl
delivered-numbered s idx (e ∷ es) = ap (◌∷◌ (listed_as s e)) (delivered-numbered s (idx + 1) es)

last_offset-numbered :
    (s : ErofsSuperblock) (room idx : ℕ) (es : List CachedDirEntry)
    → last_offset idx (take room (numbered s idx es)) ≡ idx + min room (length es)
last_offset-numbered s zero idx es = omega arith
last_offset-numbered s (suc room) idx [] = omega arith
last_offset-numbered s (suc room) idx (e ∷ es) =
    last_offset-numbered s room (idx + 1) es ∙ omega arith

length-numbered :
    (s : ErofsSuperblock) (idx : ℕ) (es : List CachedDirEntry)
    → length (numbered s idx es) ≡ length es
length-numbered s idx [] = refl
length-numbered s idx (e ∷ es) = ap suc (length-numbered s (idx + 1) es)

drop-min : {A : Type 0} (n : ℕ) (xs : List A) → drop (min n (length xs)) xs ≡ drop n xs
drop-min zero xs = let e : min zero (length xs) ≡ 0 = omega arith in rw e refl
drop-min (suc n) [] = let e : min (suc n) 0 ≡ 0 = omega arith in rw e refl
drop-min (suc n) (x ∷ xs) =
    let e : min (suc n) (length (x ∷ xs)) ≡ suc (min n (length xs)) = omega arith in
    rw e (drop-min n xs)

module _ (fs : ErofsFs) (s : ErofsSuperblock) (handle : ℕ) (rooms : ℕ → ℕ)
    (entries : List CachedDirEntry) (super : sb fs.reader ≡ ok s)
    (stands : get_dir_handle fs handle ≡ ok entries) (some_room : (n : ℕ) → 0 < rooms n) where
  page_at :
      (offset room : ℕ) (es : List CachedDirEntry)
      → drop offset entries ≡ es
      → page fs handle offset room ≡ ok (take room (numbered s offset es))
  page_at offset room es left =
      readdir-fill_page fs s handle offset room entries super stands
      ∙ ap (λ (l : List FuseDirEntry). ok (take room l))
          (drop-numbered s offset 0 entries
            ∙ ap (λ (i : ℕ). numbered s i (drop offset entries)) zero_sum
            ∙ ap (numbered s offset) left)
    where
      zero_sum : 0 + offset ≡ offset
      zero_sum = omega arith

  read_all-numbered :
      (calls offset : ℕ) (es : List CachedDirEntry)
      → drop offset entries ≡ es
      → length es < calls
      → read_all fs handle rooms calls offset ≡ ok (numbered s offset es)
  unfolding read_all
  read_all-numbered zero offset es left few = absurd (omega arith)
  read_all-numbered (suc calls) offset [] left few =
      rw (page_at offset (rooms calls) [] left, take-nil (rooms calls)) refl
  read_all-numbered (suc calls) offset (e ∷ es) left few =
      let r = rooms calls - 1 in
      let more : rooms calls ≡ suc r = omega (arith, some_room calls) in
      let m = min r (length es) in
      let x : FuseDirEntry = record {
        ino = ino_of s e.nid;
        offset = offset + 1;
        type_ = erofs_ft_to_dt e.file_type;
        name = e.name;
      } in
      let rest =
        read_all-numbered calls (offset + 1 + m) (drop m es)
          (sym (drop-drop m (offset + 1) entries)
            ∙ ap (drop m) (sym (drop-drop 1 offset entries) ∙ ap (drop 1) left))
          (omega (arith, length-drop m es)) in
      ap
        (λ (n : ℕ).
          ◌>>=◌ {B = List FuseDirEntry} (page fs handle offset n) (λ (p : List FuseDirEntry).
            then_rest p (read_all fs handle rooms calls (last_offset offset p))))
        more
      ∙ rw (page_at offset (suc r) (e ∷ es) left, last_offset-numbered s r (offset + 1) es, rest)
          (ap (λ (l : List FuseDirEntry). ok (x ∷ l)) (split r (offset + 1) es))
    where
      split :
          (r idx : ℕ) (es : List CachedDirEntry)
          → take r (numbered s idx es)
              ++ numbered s (idx + min r (length es)) (drop (min r (length es)) es)
            ≡ numbered s idx es
      split r idx es =
          ap (λ (l : List FuseDirEntry). take r (numbered s idx es) ++ l)
            (sym (drop-numbered s (min r (length es)) idx es)
              ∙ ap (λ (n : ℕ). drop (min r n) (numbered s idx es)) (sym (length-numbered s idx es))
              ∙ drop-min r (numbered s idx es))
          ∙ take-append-drop r (numbered s idx es)

  -- For a reader with a readable superblock and a handle that stands for a listing, a client that
  -- calls `readdir` again and again, each time with room for at least one entry and at the offset
  -- that `readdir` gave with the last entry it delivered, until a call delivers nothing, is done
  -- within one call more than there are entries, and was delivered the listing from the offset it
  -- began at: each entry once and in order, with its FUSE number, its type and its name.
  pub readdir_resume :
      (calls offset : ℕ)
      → length entries < calls
      → map_ok (map delivered) (read_all fs handle rooms calls offset)
        ≡ ok (map (listed_as s) (drop offset entries))
  readdir_resume calls offset enough =
      ap (map_ok (map delivered)) (
        read_all-numbered calls offset (drop offset entries) refl
          (omega (arith, length-drop offset entries)))
      ∙ ap ok (delivered-numbered s offset (drop offset entries))
