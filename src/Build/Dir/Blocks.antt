-- ===== src/Build/Dir/Blocks.antt =====
-- The directory as a sequence of blocks: how many entries go into each, and what the loop makes.
use erofs_utils_rust.Base.{
  ℕ, zero, suc, ◌+◌, ◌*◌, ◌≤◌, ◌<◌, ◌≡◌, refl, sym, ap, ◌∙◌, arith, [], ◌∷◌, ◌++◌, List, Bytes,
  length, length-append, append_assoc, append-nil, take, drop, All, ltb, Bool-cases, inl, inr,
  lt→ltb, ltb_false→le, zeros, ok, length-take, length-drop,
}
use erofs_utils_rust.Build.Dir.{DirChild, count_block, write_entries, serialize_blocks}
use erofs_utils_rust.Build.Dir.Block.{
  IsEntry, names, names-cons, names-nil, block_of, write_block, length-block_of,
}

-- The count adds `k` entries to those taken before: they are there, and they fit the block.
pub record Counted (es : List DirChild) (taken name_area count : ℕ) : Type 0 where
  pub k : ℕ
  pub total : count ≡ taken + k
  pub there : k ≤ length es
  pub fit : 12 * count + (name_area + length (names (take k es))) ≤ 4096

count_block-Counted :
    (es : List DirChild) (taken name_area : ℕ)
    → 12 * taken + name_area ≤ 4096
    → Counted es taken name_area (count_block es taken name_area)
unfolding count_block
count_block-Counted [] taken name_area h = record {
  k = 0;
  total = omega arith;
  there = omega arith;
  fit = rw names-nil (omega arith);
}
count_block-Counted (e ∷ es) taken name_area h =
    elim (Bool-cases (ltb 4096 ((taken + 1) * 12 + (name_area + length e.name)))) [
      | inl full ↦ rw full (record {
        k = 0;
        total = omega arith;
        there = omega arith;
        fit = rw names-nil (omega arith);
      })
      | inr room ↦ rw room (
          one_more (
            count_block-Counted es (taken + 1) (name_area + length e.name) (
              omega
                (arith, ltb_false→le 4096 ((taken + 1) * 12 + (name_area + length e.name)) room))))
    ]
  where
    one_more :
        {c : ℕ}
        → Counted es (taken + 1) (name_area + length e.name) c
        → Counted (e ∷ es) taken name_area c
    one_more r = record {
      k = suc r.k;
      total = omega (arith, r.total);
      there = omega (arith, r.there);
      fit = rw names-cons (omega (arith, r.fit, length-append e.name (names (take r.k es))));
    }

-- An entry that fits a block by itself is counted.
count_block_pos :
    (e : DirChild) (es : List DirChild) → 12 + length e.name ≤ 4096 → 0 < count_block (e ∷ es) 0 0
unfolding count_block
count_block_pos e es h = ground (arith, (rest h).total)
  where
    rest :
        12 + length e.name ≤ 4096 → Counted es 1 (length e.name) (count_block es 1 (length e.name))
    rest h = count_block-Counted es 1 (length e.name) (omega arith)

-- The group of entries that go into the next block, and those behind it.
pub record IsGroup (e : DirChild) (es : List DirChild) (count : ℕ) : Type 0 where
  pub pos : 0 < count
  pub there : count ≤ suc (length es)
  pub size : length (take count (e ∷ es)) ≡ count
  pub fit : 12 * count + length (names (take count (e ∷ es))) ≤ 4096

pub first-IsGroup :
    (e : DirChild) (es : List DirChild) → IsEntry e → IsGroup e es (count_block (e ∷ es) 0 0)
first-IsGroup e es h =
    let r = count_block-Counted (e ∷ es) 0 0 (omega arith) in
    let same : count_block (e ∷ es) 0 0 ≡ r.k = omega (arith, r.total) in
    record {
      pos = count_block_pos e es h.name_fits;
      there = omega (arith, r.there, same);
      size = length-take (count_block (e ∷ es) 0 0) (e ∷ es) ∙ omega (arith, r.there, same);
      fit = rw same (omega (arith, rw same at r.fit));
    }

-- The blocks of a directory.
pub blocks : ℕ → List DirChild → Bytes
blocks fuel [] = []
blocks zero (e ∷ es) = []
blocks (suc fuel) (e ∷ es) =
    let count = count_block (e ∷ es) 0 0 in
    block_of (take count (e ∷ es)) ++ blocks fuel (drop count (e ∷ es))

pub All-drop : (n : ℕ) (es : List DirChild) → All IsEntry es → All IsEntry (drop n es)
All-drop zero es h = h
All-drop (suc n) [] h = tt
All-drop (suc n) (e ∷ es) h = All-drop n es h.1

pub All-take : (n : ℕ) (es : List DirChild) → All IsEntry es → All IsEntry (take n es)
All-take zero es h = tt
All-take (suc n) [] h = tt
All-take (suc n) (e ∷ es) h = (h.0, All-take n es h.1)

-- With a round for each entry the loop returns the blocks behind what it had.
pub serialize_blocks-eq :
    (fuel : ℕ) (es : List DirChild) (result : Bytes)
    → length es ≤ fuel
    → All IsEntry es
    → serialize_blocks fuel es result ≡ ok (result ++ blocks fuel es)
unfolding serialize_blocks blocks
serialize_blocks-eq fuel [] result h v = ap ok (sym (append-nil result))
serialize_blocks-eq zero (e ∷ es) result h v = absurd (omega arith)
serialize_blocks-eq (suc fuel) (e ∷ es) result h v = rw (lt→ltb 0 c g.pos) (
    rw written (
      serialize_blocks-eq fuel (drop c (e ∷ es)) (result ++ block_of group)
        (omega (arith, length-drop c (e ∷ es), g.pos)) (All-drop c (e ∷ es) v)
      ∙ ap ok (append_assoc result (block_of group) _)))
  where
    c : ℕ
    c = count_block (e ∷ es) 0 0

    g : IsGroup e es c
    g = first-IsGroup e es v.0

    group : List DirChild
    group = take c (e ∷ es)

    written : write_entries (zeros 4096) 0 (c * 12) group ≡ ok (block_of group)
    written =
        ap (λ (n : ℕ). write_entries (zeros 4096) 0 (n * 12) group) (sym g.size)
        ∙ write_block group (omega (arith, g.fit, g.size))

pub blocks-nil : (fuel : ℕ) → blocks fuel [] ≡ []
unfolding blocks
blocks-nil fuel = refl

pub blocks-cons :
    (fuel : ℕ) (e : DirChild) (es : List DirChild)
    → let count = count_block (e ∷ es) 0 0 in
      blocks (suc fuel) (e ∷ es)
      ≡ block_of (take count (e ∷ es)) ++ blocks fuel (drop count (e ∷ es))
unfolding blocks
blocks-cons fuel e es = refl

pub length-blocks-le :
    (fuel : ℕ) (es : List DirChild) → All IsEntry es → length (blocks fuel es) ≤ length es * 4096
unfolding blocks
length-blocks-le fuel [] v = omega arith
length-blocks-le zero (e ∷ es) v = omega arith
length-blocks-le (suc fuel) (e ∷ es) v =
    let c = count_block (e ∷ es) 0 0 in
    let g = first-IsGroup e es v.0 in
    omega (
      arith,
      length-append (block_of (take c (e ∷ es))) (blocks fuel (drop c (e ∷ es))),
      length-block_of (take c (e ∷ es)) (omega (arith, g.fit, g.size)),
      length-blocks-le fuel (drop c (e ∷ es)) (All-drop c (e ∷ es) v),
      length-drop c (e ∷ es),
      g.pos,
    )

-- A directory with an entry has a block.
pub length-blocks_pos :
    (fuel : ℕ) (e : DirChild) (es : List DirChild)
    → IsEntry e
    → 4096 ≤ length (blocks (suc fuel) (e ∷ es))
unfolding blocks
length-blocks_pos fuel e es v =
    let c = count_block (e ∷ es) 0 0 in
    let g = first-IsGroup e es v in
    omega (
      arith,
      length-append (block_of (take c (e ∷ es))) (blocks fuel (drop c (e ∷ es))),
      length-block_of (take c (e ∷ es)) (omega (arith, g.fit, g.size)),
    )
