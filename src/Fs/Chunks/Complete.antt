-- ===== src/Fs/Chunks/Complete.antt =====
-- Inside the file the loops read all that was asked for: no `break`, no fuel missing.
use native.Mathlib.Nat.{div-add-mod, one-le-pow}
use erofs_utils_rust.Base.{
  ℕ, zero, suc, ◌+◌, ◌-◌, ◌/◌, ◌%◌, ◌^◌, ◌≤◌, ◌<◌, ◌≡◌, refl, sym, ap, ◌∙◌, arith, [], ◌++◌, Bytes,
  zeros, append_assoc, append-nil, length, length-append, length-replicate, Bool-cases, inl, inr,
  if◌then◌else◌, ltb, leb, ◌==◌, min, false, ap₂, IoResult, ok, err, panic, map_ok, ◌>>=◌, ltb→lt,
  ltb_false→le, lt→leb_false,
}
use erofs_utils_rust.Metadata.Chunk
use erofs_utils_rust.Metadata.Chunk.{ErofsChunkIndex}
use erofs_utils_rust.Metadata.Inode
use erofs_utils_rust.Metadata.Inode.{ErofsInode}
use erofs_utils_rust.Fs.Reader.{ErofsReader}
use erofs_utils_rust.Fs.Chunks.{
  nchunks_of, chunksize_of, chunkbits, chunk_indexes, chunk_slice, chunk_index_at, write_zeros,
  write_loop, read_loop, read_chunk_data_sync, write_chunk_data_to,
}
use erofs_utils_rust.Fs.Chunks.Equivalence.{write_zeros-eq, length-chunk_slice, loops_agree}

abbrev ok_pair : Bytes → ℕ → IoResult (Bytes × ℕ)
ok_pair w n = ok (w, n)

abbrev counted : ℕ → Bytes → Bytes → Bytes × ℕ
counted size w v = (w ++ v, size)

-- What stays in front, and what a vector holds behind what was read.
abbrev shift : Bytes → Bytes × ℕ → Bytes × ℕ
shift w (x, remaining) = (w ++ x, remaining)

abbrev pad : Bytes × ℕ → Bytes
pad (x, remaining) = x ++ zeros remaining

-- A position inside the file lies in one of its chunks.
pub chunk_idx-lt :
    (pos size chunksize : ℕ)
    → pos < size
    → 0 < chunksize
    → pos / chunksize < nchunks_of size chunksize
unfolding nchunks_of
chunk_idx-lt pos size chunksize h hc =
    grind (arith, div-add-mod pos chunksize, div-add-mod size chunksize)

module _ (r : ErofsReader) (ci_data : Bytes) (chunksize nchunks : ℕ) where
  -- What was written before stays in front.
  abbrev shifted : Bytes → Bytes × ℕ → Bytes × ℕ
  shifted w (x, remaining) = (w ++ x, remaining)

  index_shift :
      (fuel remaining pos off n : ℕ) (w v : Bytes) (ci : IoResult ErofsChunkIndex)
      → ((b : Bytes)
          → write_loop r ci_data chunksize nchunks fuel remaining pos (w ++ b)
            ≡ map_ok (shifted w) (write_loop r ci_data chunksize nchunks fuel remaining pos b))
      → (ci >>= λ c.
          if Chunk.blkaddr c == 2 ^ 64 - 1
          then write_loop r ci_data chunksize nchunks fuel remaining pos (write_zeros n n (w ++ v))
          else (chunk_slice r c off n >>= λ b.
              write_loop r ci_data chunksize nchunks fuel remaining pos ((w ++ v) ++ b)))
        ≡ map_ok (shifted w) (
            ci >>= λ c.
            if Chunk.blkaddr c == 2 ^ 64 - 1
            then write_loop r ci_data chunksize nchunks fuel remaining pos (write_zeros n n v)
            else (chunk_slice r c off n >>= λ b.
                write_loop r ci_data chunksize nchunks fuel remaining pos (v ++ b)))
  index_shift fuel remaining pos off n w v (ok c) ih =
      elim (Bool-cases (Chunk.blkaddr c == 2 ^ 64 - 1)) [
        | inl hole ↦
            rw
              (
                hole,
                write_zeros-eq n n (w ++ v) (omega arith),
                write_zeros-eq n n v (omega arith),
                append_assoc,
              )
              (ih (v ++ zeros n))
        | inr stored ↦ rw stored (piece (chunk_slice r c off n))
      ]
    where
      piece :
          (p : IoResult Bytes)
          → (p >>= λ b. write_loop r ci_data chunksize nchunks fuel remaining pos ((w ++ v) ++ b))
            ≡ map_ok
                (shifted w)
                (p >>= λ b. write_loop r ci_data chunksize nchunks fuel remaining pos (v ++ b))
      piece (ok b) = rw append_assoc (ih (v ++ b))
      piece (err e) = refl
      piece panic = refl
  index_shift fuel remaining pos off n w v (err e) ih = refl
  index_shift fuel remaining pos off n w v panic ih = refl

  write_loop-append :
      (fuel remaining pos : ℕ) (w v : Bytes)
      → write_loop r ci_data chunksize nchunks fuel remaining pos (w ++ v)
        ≡ map_ok (shifted w) (write_loop r ci_data chunksize nchunks fuel remaining pos v)
  unfolding write_loop
  write_loop-append zero remaining pos w v = elim (Bool-cases (ltb 0 remaining)) [
    | inl more ↦ rw more
    | inr done ↦ rw done
  ]
  write_loop-append (suc fuel) remaining pos w v = elim (Bool-cases (ltb 0 remaining)) [
    | inl more ↦ elim (Bool-cases (leb nchunks (pos / chunksize))) [
      | inl behind ↦ rw (more, behind)
      | inr inside ↦
          rw (more, inside)
            (index_shift fuel _ _ (pos % chunksize) (min remaining (chunksize - pos % chunksize)) w
              v (chunk_index_at ci_data (pos / chunksize)) (λ b. write_loop-append fuel _ _ w b))
    ]
    | inr done ↦ rw done
  ]

-- A property of the value that a result carries, if it carries one.
abbrev Ensures {ℓ} : {A : Type ℓ} → (A → Type 0) → IoResult A → Type 0
Ensures P (ok a) = P a
Ensures P (err e) = Unit
Ensures P panic = Unit

-- All of `remaining` is written behind `w`.
abbrev IsComplete : ℕ → Bytes → Bytes × ℕ → Type 0
IsComplete remaining w (x, left) = (left ≡ 0) × (length x ≡ length w + remaining)

weaken :
    (n remaining : ℕ) (w v : Bytes) (x : IoResult (Bytes × ℕ))
    → n ≤ remaining
    → length v ≡ length w + n
    → Ensures (IsComplete (remaining - n) v) x
    → Ensures (IsComplete remaining w) x
weaken n remaining w v (ok (x, left)) h e (a, b) = (a, omega arith)
weaken n remaining w v (err x) h e p = tt
weaken n remaining w v panic h e p = tt

module _ (r : ErofsReader) (ci_data : Bytes) (size chunksize : ℕ) (pos_chunk : 0 < chunksize) where
  abbrev loop : ℕ → ℕ → ℕ → Bytes → IoResult (Bytes × ℕ)
  loop = write_loop r ci_data chunksize (nchunks_of size chunksize)

  index-IsComplete :
      (fuel remaining pos off n : ℕ) (w : Bytes) (ci : IoResult ErofsChunkIndex)
      → n ≤ remaining
      → ((b : Bytes)
          → Ensures (IsComplete (remaining - n) b) (loop fuel (remaining - n) (pos + n) b))
      → Ensures (IsComplete remaining w) (
          ci >>= λ c.
          if Chunk.blkaddr c == 2 ^ 64 - 1
          then loop fuel (remaining - n) (pos + n) (write_zeros n n w)
          else (chunk_slice r c off n >>= λ b. loop fuel (remaining - n) (pos + n) (w ++ b)))
  index-IsComplete fuel remaining pos off n w (ok c) h ih =
      elim (Bool-cases (Chunk.blkaddr c == 2 ^ 64 - 1)) [
        | inl hole ↦
            rw (hole, write_zeros-eq n n w (omega arith))
              (weaken n remaining w (w ++ zeros n) _ h
                (omega (arith, length-append w (zeros n), length-replicate {A = ℕ} n 0))
                (ih (w ++ zeros n)))
        | inr stored ↦ rw stored (piece (chunk_slice r c off n) (length-chunk_slice r c off n))
      ]
    where
      piece :
          (p : IoResult Bytes)
          → ((b : Bytes) → p ≡ ok b → length b ≡ n)
          → Ensures
              (IsComplete remaining w)
              (p >>= λ b. loop fuel (remaining - n) (pos + n) (w ++ b))
      piece (ok b) long =
          weaken n remaining w (w ++ b) _ h (omega (arith, length-append w b, long b refl))
            (ih (w ++ b))
      piece (err e) long = tt
      piece panic long = tt
  index-IsComplete fuel remaining pos off n w (err e) h ih = tt
  index-IsComplete fuel remaining pos off n w panic h ih = tt

  write_loop-IsComplete :
      (fuel remaining pos : ℕ) (w : Bytes)
      → pos + remaining ≤ size
      → Ensures (IsComplete remaining w) (loop fuel remaining pos w)
  unfolding write_loop
  write_loop-IsComplete zero remaining pos w h = elim (Bool-cases (ltb 0 remaining)) [
    | inl more ↦ rw more tt
    | inr done ↦ rw done (omega (arith, ltb_false→le 0 remaining done))
  ]
  write_loop-IsComplete (suc fuel) remaining pos w h = elim (Bool-cases (ltb 0 remaining)) [
    | inl more ↦
        let inside : leb (nchunks_of size chunksize) (pos / chunksize) ≡ false =
          lt→leb_false _ _
            (chunk_idx-lt pos size chunksize (omega (arith, ltb→lt 0 remaining more)) pos_chunk) in
        rw (more, inside)
          (index-IsComplete fuel remaining pos (pos % chunksize)
            (min remaining (chunksize - pos % chunksize)) w
            (chunk_index_at ci_data (pos / chunksize)) (omega arith)
            (λ b. write_loop-IsComplete fuel _ _ b (omega arith)))
    | inr done ↦ rw done (omega (arith, ltb_false→le 0 remaining done))
  ]

-- The two operations on a chunk-based file, inside the file.
pub chunksize_pos : (bits : ℕ) → 0 < chunksize_of bits
unfolding chunksize_of
chunksize_pos bits = one-le-pow (bits % 64) 2 (omega arith)

pub write_chunk_data_to-read :
    (r : ErofsReader) (nid : ℕ) (inode : ErofsInode) (offset size : ℕ) (w : Bytes)
    → offset + size ≤ Inode.size inode
    → write_chunk_data_to r nid inode offset size w
      ≡ map_ok (counted size w) (read_chunk_data_sync r nid inode offset size)
unfolding write_chunk_data_to read_chunk_data_sync
write_chunk_data_to-read r nid inode offset size w h =
    by_bits (chunkbits r inode) (chunk_indexes r nid inode)
  where
    finish :
        (x : IoResult (Bytes × ℕ))
        → Ensures (IsComplete size []) x
        → (map_ok (shift w) x >>= λ p. ok_pair p.0 (size - p.1))
          ≡ map_ok (counted size w) (map_ok pad x)
    finish (ok (x, left)) (none_left, long) =
        rw none_left (ap₂ ok_pair (ap (λ (v : Bytes). w ++ v) (sym (append-nil x))) (omega arith))
    finish (err e) c = refl
    finish panic c = refl

    by_bits :
        (bits : IoResult ℕ) (ci : IoResult Bytes)
        → (bits >>= λ b. ci >>= λ d.
            write_loop r d
              (chunksize_of b)
              (nchunks_of (Inode.size inode) (chunksize_of b))
              size
              size
              offset
              w
            >>= λ p. ok_pair p.0 (size - p.1))
          ≡ map_ok (counted size w) (
              bits >>= λ b. ci >>= λ d.
              read_loop r d
                (chunksize_of b)
                (nchunks_of (Inode.size inode) (chunksize_of b))
                size
                size
                offset
                0
                (zeros size))
    by_bits (ok b) (ok d) =
        let chunksize : ℕ = chunksize_of b in
        let nchunks : ℕ = nchunks_of (Inode.size inode) chunksize in
        rw (loops_agree r d chunksize nchunks size size offset [] 0 refl) (
          ap
            (λ (b : Bytes).
              write_loop r d chunksize nchunks size size offset b >>= λ p. ok_pair p.0 (size - p.1))
            (sym (append-nil w))
          ∙ rw (write_loop-append r d chunksize nchunks size size offset w []) (
              finish _ (
                write_loop-IsComplete r d (Inode.size inode) chunksize (chunksize_pos b) size size
                  offset [] h)))
    by_bits (ok b) (err e) = refl
    by_bits (ok b) panic = refl
    by_bits (err e) ci = refl
    by_bits panic ci = refl
