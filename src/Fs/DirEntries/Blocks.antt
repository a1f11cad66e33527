-- ===== src/Fs/DirEntries/Blocks.antt =====
-- The walk over all blocks of a directory that the builder wrote.
use mathlib.Core.Path.{subst}
use erofs_utils_rust.Base.{
  ℕ, zero, suc, ◌+◌, ◌-◌, ◌*◌, ◌/◌, ◌≤◌, ◌≡◌, refl, sym, ap, ◌∙◌, arith, [], ◌∷◌, ◌++◌, List, Bytes,
  zeros, length, length-append, append_assoc, All, Bool, true, false, take, drop, take-append-drop,
  slice, slice-middle, length-drop, IoResult, ok, err, panic, map_ok, ◌>>=◌, min, lt→ltb,
  le→ltb_false,
}
use erofs_utils_rust.Metadata.Dirent
use erofs_utils_rust.Build.Dir.{DirChild, count_block}
use erofs_utils_rust.Build.Dir.Block.{
  IsEntry, dirent_bytes, names, dirents-cons, block_of, length-block_of,
}
use erofs_utils_rust.Build.Dir.Blocks.{
  IsGroup, first-IsGroup, blocks, blocks-cons, blocks-nil, All-drop, All-take,
}
use erofs_utils_rust.Fs.DirEntries.{Callback, parse_block, parse_blocks}
use erofs_utils_rust.Fs.DirEntries.Visit.{visit, visit_rest, visit-append}
use erofs_utils_rust.Fs.DirEntries.Block.{parse_block-visit}

-- The first dirent of a block tells how many there are.
module _ (e : DirChild) (es : List DirChild)
    (fit : 12 * length (e ∷ es) + length (names (e ∷ es)) ≤ 4096) where
  first_dirent : slice (block_of (e ∷ es)) 0 12 ≡ ok (dirent_bytes e (12 * length (e ∷ es)))
  unfolding block_of
  first_dirent =
      ap (λ (d : Bytes). slice (d ++ (names (e ∷ es) ++ zeros pad)) 0 12) (dirents-cons _ e es)
      ∙ ap (λ (b : Bytes). slice b 0 12) (append_assoc (dirent_bytes e (12 * length (e ∷ es))) _ _)
      ∙ slice-middle [] (dirent_bytes e (12 * length (e ∷ es))) _ 0 12 refl
          (omega (arith, Dirent.length-as_bytes e.nid (12 * length (e ∷ es)) e.file_type))
    where
      pad : ℕ
      pad = 4096 - 12 * length (e ∷ es) - length (names (e ∷ es))

  count_back :
      Dirent.nameoff (Dirent.new e.nid (12 * length (e ∷ es)) e.file_type) / 12 ≡ length (e ∷ es)
  count_back =
      let off : ℕ = 12 * length (e ∷ es) in
      omega (arith, fit, Dirent.nameoff-new e.nid off e.file_type (omega (arith, fit)))

-- The next block of the directory data, with the entries in it: the first and `k` more.
record NextGroup (e : DirChild) (es : List DirChild) (rounds : ℕ) (done dir_data : Bytes)
    : Type 0 where
  k : ℕ
  shape : dir_data ≡ done ++ (block_of (e ∷ take k es) ++ blocks rounds (drop k es))
  fit : 12 * length (e ∷ take k es) + length (names (e ∷ take k es)) ≤ 4096
  whole : length (block_of (e ∷ take k es)) ≡ 4096
  long : length done + 4096 ≤ length dir_data

next_group :
    (e : DirChild) (es : List DirChild) (rounds : ℕ) (done dir_data : Bytes)
    → All IsEntry (e ∷ es)
    → dir_data ≡ done ++ blocks (suc rounds) (e ∷ es)
    → NextGroup e es rounds done dir_data
next_group e es rounds done dir_data v shape = record {
  k = c - 1;
  shape = split;
  fit = fits;
  whole = full;
  long = omega (
    arith,
    ap length split,
    length-append done (block_of (e ∷ take (c - 1) es) ++ blocks rounds (drop (c - 1) es)),
    length-append (block_of (e ∷ take (c - 1) es)) (blocks rounds (drop (c - 1) es)),
    full,
  );
}
  where
    c : ℕ
    c = count_block (e ∷ es) 0 0

    g : IsGroup e es c
    g = first-IsGroup e es v.0

    same : c ≡ suc (c - 1)
    same = omega (arith, g.pos)

    split : dir_data ≡ done ++ (block_of (e ∷ take (c - 1) es) ++ blocks rounds (drop (c - 1) es))
    split =
        shape
        ∙ ap (λ (b : Bytes). done ++ b)
            (blocks-cons rounds e es
              ∙ ap (λ (n : ℕ). block_of (take n (e ∷ es)) ++ blocks rounds (drop n (e ∷ es))) same)

    fits : 12 * length (e ∷ take (c - 1) es) + length (names (e ∷ take (c - 1) es)) ≤ 4096
    fits =
        subst (λ (n : ℕ). 12 * length (take n (e ∷ es)) + length (names (take n (e ∷ es))) ≤ 4096)
          same (omega (arith, g.fit, g.size))

    full : length (block_of (e ∷ take (c - 1) es)) ≡ 4096
    full = length-block_of (e ∷ take (c - 1) es) fits

-- The callback's answer decides whether the walk goes on to the next block.
module _ {S : Type 0} (cb : Callback S) where
  abbrev go_on : (S → IoResult S) → S × Bool → IoResult S
  go_on f (s, more) = elim more [ true ↦ f s | false ↦ ok s ]

  parse_blocks-suc :
      (fuel : ℕ) (e : DirChild) (es : List DirChild) (done rest : Bytes) (pos size : ℕ) (s : S)
      → 12 * length (e ∷ es) + length (names (e ∷ es)) ≤ 4096
      → All IsEntry (e ∷ es)
      → pos ≡ length done
      → size ≡ pos + 4096 + length rest
      → parse_blocks cb (suc fuel) (done ++ (block_of (e ∷ es) ++ rest)) size pos s ≡ (
          visit cb (e ∷ es) s
          >>= go_on (parse_blocks cb fuel (done ++ (block_of (e ∷ es) ++ rest)) size (pos + 4096)))
  unfolding parse_blocks
  parse_blocks-suc fuel e es done rest pos size s fit v at total =
      rw
        (
          lt→ltb pos size (omega arith),
          block_end,
          slice-middle done (block_of g) rest pos (pos + 4096) at (omega (arith, whole)),
          le→ltb_false (length (block_of g)) 12 (omega (arith, whole)),
          first_dirent e es fit,
          Dirent.cast_ref_self e.nid (12 * length g) e.file_type,
          count_back e es fit,
          walk,
        )
        refl
    where
      g : List DirChild
      g = e ∷ es

      whole : length (block_of g) ≡ 4096
      whole = length-block_of g fit

      block_end : min (pos + 4096) size ≡ pos + 4096
      block_end = omega arith

      walk : parse_block cb (length g) (block_of g) (length g) 0 s ≡ visit cb g s
      walk =
          parse_block-visit cb g [] [] 0 (length g) (12 * length g)
            (4096 - 12 * length g - length (names g)) s (block_of g) (unfold block_of in refl) whole
            (omega arith) (omega arith) (omega arith) v

  -- Both continuations at the same answer, the second a visit of what is left.
  go_on-visit :
      (f : S → IoResult S) (ys : List DirChild) (r : IoResult (S × Bool))
      → ((t : S) → f t ≡ map_ok (λ (x : S × Bool). x.0) (visit cb ys t))
      → (r >>= go_on f) ≡ map_ok (λ (x : S × Bool). x.0) (r >>= visit_rest cb ys)
  go_on-visit f ys (ok (t, true)) h = h t
  go_on-visit f ys (ok (t, false)) h = refl
  go_on-visit f ys (err x) h = refl
  go_on-visit f ys panic h = refl

  parse_blocks-end :
      (fuel pos size : ℕ) (s : S) (dir_data : Bytes)
      → size ≤ pos
      → parse_blocks cb fuel dir_data size pos s ≡ ok s
  unfolding parse_blocks
  parse_blocks-end zero pos size s dir_data h = rw (le→ltb_false pos size h)
  parse_blocks-end (suc fuel) pos size s dir_data h = rw (le→ltb_false pos size h)

-- The walk over the blocks from `pos` on is the visit of their entries.
module _ {S : Type 0} (cb : Callback S) where
  pub parse_blocks-visit :
      (fuel rounds : ℕ) (es : List DirChild) (done : Bytes) (pos size : ℕ) (s : S)
      (dir_data : Bytes)
      → dir_data ≡ done ++ blocks rounds es
      → length es ≤ rounds
      → All IsEntry es
      → pos ≡ length done
      → size ≡ length dir_data
      → size ≤ pos + 4096 * fuel
      → parse_blocks cb fuel dir_data size pos s ≡ map_ok (λ (x : S × Bool). x.0) (visit cb es s)
  parse_blocks-visit fuel rounds [] done pos size s dir_data shape hr v at total enough =
      parse_blocks-end cb fuel pos size s dir_data (
        omega (
          arith,
          ap length shape,
          length-append done (blocks rounds []),
          ap length (blocks-nil rounds),
        ))
      ∙ unfold visit in refl
  parse_blocks-visit fuel zero (e ∷ es) done pos size s dir_data shape hr v at total enough =
      absurd (omega arith)
  parse_blocks-visit zero (suc rounds) (e ∷ es) done pos size s dir_data shape hr v at total
        enough =
      absurd (omega (arith, (next_group e es rounds done dir_data v shape).long))
  parse_blocks-visit (suc fuel) (suc rounds) (e ∷ es) done pos size s dir_data shape hr v at total
        enough =
      rw n.shape (
        parse_blocks-suc cb fuel e (take n.k es) done rest pos size s n.fit
          (v.0, All-take n.k es v.1) at
          (omega (
            arith,
            n.long,
            ap length n.shape,
            length-append done (block_of (e ∷ take n.k es) ++ rest),
            length-append (block_of (e ∷ take n.k es)) rest,
            n.whole,
          ))
        ∙ go_on-visit cb _ (drop n.k es) (visit cb (e ∷ take n.k es) s) (λ t.
          parse_blocks-visit fuel rounds (drop n.k es) (done ++ block_of (e ∷ take n.k es))
            (pos + 4096) size t _ (sym (append_assoc done (block_of (e ∷ take n.k es)) rest))
            (omega (arith, length-drop n.k es)) (All-drop n.k es v.1)
            (omega (arith, length-append done (block_of (e ∷ take n.k es)), n.whole))
            (total ∙ ap length n.shape) (omega arith))
        ∙ ap (map_ok (λ (x : S × Bool). x.0)) (
            sym (visit-append cb (e ∷ take n.k es) (drop n.k es) s)
            ∙ ap (λ (l : List DirChild). visit cb (e ∷ l) s) (take-append-drop n.k es)))
    where
      n : NextGroup e es rounds done dir_data
      n = next_group e es rounds done dir_data v shape

      rest : Bytes
      rest = blocks rounds (drop n.k es)
