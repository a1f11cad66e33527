-- ===== src/Fs/DirEntries/Block.antt =====
-- The walk over one block that the builder wrote.
use erofs_utils_rust.Base.{
  ℕ, zero, suc, ◌+◌, ◌*◌, ◌≤◌, ◌≡◌, ◌≢◌, refl, sym, ap, ap₂, ◌∙◌, arith, [], ◌∷◌, ◌++◌, List, Bytes,
  zeros, length, length-append, append_assoc, append-nil, All, Bool, true, false, slice,
  slice-middle, slice_from_lem, drop, drop-append, IoResult, ok, err, panic, ◌>>=◌, ltb,
  le→ltb_false, lt→ltb, lt→leb_false,
}
use erofs_utils_rust.Metadata.Dirent
use erofs_utils_rust.Build.Dir.{DirChild}
use erofs_utils_rust.Build.Dir.Block.{
  IsEntry, dirent_bytes, dirents, names, dirents-cons, names-cons, names-nil, length-dirents,
}
use erofs_utils_rust.Fs.DirEntries.{Callback, scan_name, name_end_of, parse_block}
use erofs_utils_rust.Fs.DirEntries.Visit.{visit, visit_rest}

-- The scan stops behind a name with no NUL that zeros or the block's end follow.
scan_name-zeros :
    (name : Bytes) (pad off : ℕ)
    → All (λ b. b ≢ 0) name
    → scan_name (name ++ zeros pad) off ≡ off + length name
unfolding scan_name
scan_name-zeros [] zero off h = omega arith
scan_name-zeros [] (suc pad) off h = omega arith
scan_name-zeros (b ∷ name) pad off h = ground (arith, scan_name-zeros name pad (off + 1) h.1)

-- The block at the entry `e`, with `es` behind it, `done` the dirents before and `named` their names.
abbrev at_entry : Bytes → Bytes → DirChild → List DirChild → ℕ → ℕ → Bytes
at_entry done named e es off pad =
    done
    ++ (dirent_bytes e off
        ++ (dirents (off + length e.name) es ++ (named ++ (e.name ++ (names es ++ zeros pad)))))

module _ (done named : Bytes) (e : DirChild) (es : List DirChild) (i off pad : ℕ)
    (place : length done ≡ i * 12) (name_at : off ≡ 12 * (i + suc (length es)) + length named)
    (whole : length (at_entry done named e es off pad) ≡ 4096) where
  abbrev block : Bytes
  block = at_entry done named e es off pad

  length-dirent : length (dirent_bytes e off) ≡ 12
  length-dirent = Dirent.length-as_bytes e.nid off e.file_type

  read_dirent : slice block (i * 12) (i * 12 + 12) ≡ ok (dirent_bytes e off)
  read_dirent =
      slice-middle done (dirent_bytes e off) _ _ _ (omega arith) (omega (arith, length-dirent))

  cast_dirent : Dirent.cast_ref (dirent_bytes e off) ≡ ok (Dirent.new e.nid off e.file_type)
  cast_dirent =
      ap Dirent.cast_ref (sym (append-nil (dirent_bytes e off)))
      ∙ Dirent.cast_ref-as_bytes e.nid off e.file_type []

  abbrev front : Bytes
  front = (done ++ (dirent_bytes e off ++ dirents (off + length e.name) es)) ++ named

  length-front : off ≡ length front
  length-front = omega (
    arith,
    length-append (done ++ (dirent_bytes e off ++ dirents (off + length e.name) es)) named,
    length-append done (dirent_bytes e off ++ dirents (off + length e.name) es),
    length-append (dirent_bytes e off) (dirents (off + length e.name) es),
    length-dirents (off + length e.name) es,
    length-dirent,
  )

  regroup : block ≡ front ++ (e.name ++ (names es ++ zeros pad))
  regroup = simp append_assoc

  name_inside : off + length e.name ≤ 4096
  name_inside = omega (
    arith,
    whole,
    ap length regroup,
    length-append front (e.name ++ (names es ++ zeros pad)),
    length-append e.name (names es ++ zeros pad),
    length-front,
  )

  read_name : slice block off (off + length e.name) ≡ ok e.name
  read_name =
      ap (λ (b : Bytes). slice b off (off + length e.name)) regroup
      ∙ slice-middle front e.name (names es ++ zeros pad) _ _ length-front (omega arith)

-- Where the name ends: at the next dirent's name, or at the zeros behind the last one.
name_end_of-eq :
    (done named : Bytes) (e : DirChild) (es : List DirChild) (i off pad : ℕ)
    → length done ≡ i * 12
    → off ≡ 12 * (i + suc (length es)) + length named
    → length (at_entry done named e es off pad) ≡ 4096
    → All (λ b. b ≢ 0) e.name
    → name_end_of (at_entry done named e es off pad) (i + suc (length es)) i off
      ≡ ok (off + length e.name)
unfolding name_end_of
name_end_of-eq done named e [] i off pad place name_at whole no_nul =
    rw (le→ltb_false (i + 1) (i + 1) (omega arith))
      (ap ok (ap (λ (b : Bytes). scan_name b off) tail ∙ scan_name-zeros e.name pad off no_nul))
  where
    tail : drop off (at_entry done named e [] off pad) ≡ e.name ++ zeros pad
    tail =
        ap (drop off) (regroup done named e [] i off pad place name_at whole)
        ∙ drop-append (front done named e [] i off pad place name_at whole) _ off
            (length-front done named e [] i off pad place name_at whole)
        ∙ ap (λ (b : Bytes). e.name ++ (b ++ zeros pad)) names-nil
name_end_of-eq done named e (x ∷ es) i off pad place name_at whole no_nul =
    rw (lt→ltb (i + 1) (i + suc (suc (length es))) (omega arith)) (
      rw (slice_from_lem block' ((i + 1) * 12) inside) (
        rw
          (
            tail,
            dirents-cons off' x es,
            append_assoc,
            Dirent.cast_ref-as_bytes x.nid off' x.file_type,
          )
          (ap ok (Dirent.nameoff-new x.nid off' x.file_type (omega (arith, name_ends))))))
  where
    off' : ℕ
    off' = off + length e.name

    name_ends : off + length e.name ≤ 4096
    name_ends = name_inside done named e (x ∷ es) i off pad place name_at whole

    block' : Bytes
    block' = at_entry done named e (x ∷ es) off pad

    rest : Bytes
    rest = named ++ (e.name ++ (names (x ∷ es) ++ zeros pad))

    two_parts : block' ≡ (done ++ dirent_bytes e off) ++ (dirents off' (x ∷ es) ++ rest)
    two_parts = sym (append_assoc done (dirent_bytes e off) _)

    next_at : (i + 1) * 12 ≡ length (done ++ dirent_bytes e off)
    next_at = omega (
      arith,
      length-append done (dirent_bytes e off),
      Dirent.length-as_bytes e.nid off e.file_type,
    )

    inside : (i + 1) * 12 ≤ length block'
    inside = omega (
      arith,
      next_at,
      ap length two_parts,
      length-append (done ++ dirent_bytes e off) (dirents off' (x ∷ es) ++ rest),
    )

    tail : drop ((i + 1) * 12) block' ≡ dirents off' (x ∷ es) ++ rest
    tail =
        ap (drop ((i + 1) * 12)) two_parts
        ∙ drop-append (done ++ dirent_bytes e off) _ ((i + 1) * 12) next_at

-- One round of the loop at a well-formed entry: nothing panics, no `break` is taken, and the
-- callback gets the entry.
module _ {S : Type 0} (cb : Callback S) (done named : Bytes) (e : DirChild) (es : List DirChild)
    (i off pad : ℕ) (place : length done ≡ i * 12)
    (name_at : off ≡ 12 * (i + suc (length es)) + length named)
    (whole : length (at_entry done named e es off pad) ≡ 4096) (he : IsEntry e) where
  abbrev bytes : Bytes
  bytes = at_entry done named e es off pad

  ends : off + length e.name ≤ 4096
  ends = name_inside done named e es i off pad place name_at whole

  dirent_fits : ltb (length bytes) (i * 12 + 12) ≡ false
  dirent_fits = le→ltb_false (length bytes) (i * 12 + 12) (omega (arith, ends))

  fields_back :
      let de = Dirent.new e.nid off e.file_type in
      (Dirent.nid de ≡ e.nid) × (Dirent.nameoff de ≡ off) × (Dirent.file_type de ≡ e.file_type)
  fields_back = Dirent.accessors-new e.nid off e.file_type he.nid_word (omega (arith, ends))

  abbrev continue : ℕ → ℕ → S × Bool → IoResult (S × Bool)
  continue rounds count (t, more) = elim more [
    | true ↦ parse_block cb rounds bytes count (i + 1) t
    | false ↦ ok (t, false)
  ]

  parse_block-suc :
      (rounds count : ℕ) (s : S)
      → count ≡ i + suc (length es)
      → parse_block cb (suc rounds) bytes count i s
        ≡ (cb s e.nid e.file_type e.name >>= continue rounds count)
  unfolding parse_block
  parse_block-suc rounds count s hc =
      rw
        (
          dirent_fits,
          read_dirent done named e es i off pad place name_at whole,
          cast_dirent done named e es i off pad place name_at whole,
          fields_back.1,
          fields_back.0,
          fields_back.2,
          ap (λ (c : ℕ). name_end_of bytes c i off) hc
              ∙ name_end_of-eq done named e es i off pad place name_at whole he.no_nul,
          lt→leb_false (length bytes) off (omega (arith, he.name_pos, ends)),
          le→ltb_false (length bytes) (off + length e.name) (omega (arith, ends)),
          read_name done named e es i off pad place name_at whole,
        )
        refl

-- The loop over the entries that are left is the visit of those entries.
module _ {S : Type 0} (cb : Callback S) where
  after :
      (f : S → IoResult (S × Bool)) (es : List DirChild) (r : IoResult (S × Bool))
      → ((t : S) → f t ≡ visit cb es t)
      → (r >>= λ (x : S × Bool). elim x.1 [ true ↦ f x.0 | false ↦ ok (x.0, false) ])
        ≡ (r >>= visit_rest cb es)
  after f es (ok (t, true)) h = h t
  after f es (ok (t, false)) h = refl
  after f es (err x) h = refl
  after f es panic h = refl

  pub parse_block-visit :
      (es : List DirChild) (done named : Bytes) (i count off pad : ℕ) (s : S) (bytes : Bytes)
      → bytes ≡ done ++ (dirents off es ++ (named ++ (names es ++ zeros pad)))
      → length bytes ≡ 4096
      → length done ≡ i * 12
      → count ≡ i + length es
      → off ≡ 12 * count + length named
      → All IsEntry es
      → parse_block cb (length es) bytes count i s ≡ visit cb es s
  parse_block-visit [] done named i count off pad s bytes eb hb hd hc ho hs =
      unfold parse_block visit in refl
  parse_block-visit (e ∷ es) done named i count off pad s bytes eb hb hd hc ho (he, hs) = rw shape (
      parse_block-suc cb done named e es i off pad hd (omega arith) (rw (← shape) hb) he (length es)
        count s hc
      ∙ after (parse_block cb (length es) block' count (i + 1)) es (cb s e.nid e.file_type e.name)
          (λ t.
            parse_block-visit es (done ++ dirent_bytes e off) (named ++ e.name) (i + 1) count
              (off + length e.name) pad t block' (simp append_assoc) (rw (← shape) hb) next_place
              (omega arith) (omega (arith, length-append named e.name)) hs)
      ∙ unfold visit in refl)
    where
      block' : Bytes
      block' = at_entry done named e es off pad

      shape : bytes ≡ block'
      shape =
          eb
          ∙ ap₂ (λ (d n : Bytes). done ++ (d ++ (named ++ (n ++ zeros pad))))
              (dirents-cons off e es) (names-cons e es)
          ∙ simp append_assoc

      next_place : length (done ++ dirent_bytes e off) ≡ (i + 1) * 12
      next_place = omega (
        arith,
        length-append done (dirent_bytes e off),
        Dirent.length-as_bytes e.nid off e.file_type,
      )
