-- ===== src/Fs/Chunks/Equivalence.antt =====
-- The vector that the reading loop fills and the writer of the writing loop hold the same bytes.
use erofs_utils_rust.Base.{
  ℕ, zero, suc, ◌+◌, ◌-◌, ◌/◌, ◌%◌, ◌^◌, ◌≤◌, ◌≡◌, refl, sym, ap, ◌∙◌, arith, ◌++◌, Bytes, zeros,
  zeros_add, length, length-append, length-replicate, append_assoc, append-nil, Bool-cases, inl,
  inr, if◌then◌else◌, ltb, leb, ◌==◌, min, copy_at, copy_at-middle, IoResult, ok, err, panic,
  map_ok, ◌>>=◌, ltb→lt, ltb_false→le,
}
use erofs_utils_rust.Metadata.Chunk
use erofs_utils_rust.Metadata.Chunk.{ErofsChunkIndex}
use erofs_utils_rust.Fs.Reader.{ErofsReader, mmap_slice}
use erofs_utils_rust.Fs.Reader.Open.{length-checked_slice, length-blob_mmap_slice}
use erofs_utils_rust.Fs.Chunks.{
  chunk_slice, data_offset, chunk_index_at, write_zeros, read_loop, write_loop,
}

-- The zeros of a hole, in pieces of a block.
pub write_zeros-eq :
    (fuel left : ℕ) (w : Bytes) → left ≤ fuel → write_zeros fuel left w ≡ w ++ zeros left
unfolding write_zeros
write_zeros-eq zero left w h =
    let none_left : 0 ≡ left = omega arith in
    sym (append-nil w) ∙ ap (λ (n : ℕ). w ++ zeros n) none_left
write_zeros-eq (suc fuel) left w h = elim (Bool-cases (ltb 0 left)) [
  | inl more ↦
      let n : ℕ = min left 4096 in
      let sum : n + (left - n) ≡ left = omega arith in
      rw more (
        write_zeros-eq fuel (left - n) (w ++ zeros n) (omega (arith, ltb→lt 0 left more))
        ∙ append_assoc w (zeros n) (zeros (left - n))
        ∙ ap (λ (z : Bytes). w ++ z) (sym (zeros_add n (left - n)) ∙ ap zeros sum))
  | inr done ↦
      let none_left : 0 ≡ left = omega (arith, ltb_false→le 0 left done) in
      rw done (sym (append-nil w) ∙ ap (λ (n : ℕ). w ++ zeros n) none_left)
]

-- A slice that is returned has the length that was asked for.
pub length-chunk_slice :
    (r : ErofsReader) (ci : ErofsChunkIndex) (off len : ℕ) (piece : Bytes)
    → chunk_slice r ci off len ≡ ok piece
    → length piece ≡ len
unfolding chunk_slice mmap_slice
length-chunk_slice r ci off len piece h = elim (Bool-cases (ltb 0 (Chunk.device_id ci))) [
  | inl blob ↦ length-blob_mmap_slice r (data_offset ci off) len piece (rw blob at h)
  | inr image ↦ length-checked_slice r.mmap (data_offset ci off) len piece (rw image at h)
]

module _ (r : ErofsReader) (ci_data : Bytes) (chunksize nchunks : ℕ) where
  -- What the reading loop leaves in its vector, and what the writing loop wrote and did not write.
  abbrev padded : Bytes × ℕ → Bytes
  padded (w, remaining) = w ++ zeros remaining

  zeros_split :
      (n remaining : ℕ) → n ≤ remaining → zeros remaining ≡ zeros n ++ zeros (remaining - n)
  zeros_split n remaining h =
      let sum : remaining ≡ n + (remaining - n) = omega arith in
      ap zeros sum ∙ zeros_add n (remaining - n)

  -- The write of a piece behind `pre`.
  copy_piece :
      (pre piece : Bytes) (n remaining : ℕ)
      → length piece ≡ n
      → n ≤ remaining
      → copy_at (pre ++ zeros remaining) (length pre) piece
        ≡ ok ((pre ++ piece) ++ zeros (remaining - n))
  copy_piece pre piece n remaining hl h =
      ap (λ (z : Bytes). copy_at (pre ++ z) (length pre) piece) (zeros_split n remaining h)
      ∙ copy_at-middle pre (zeros n) (zeros (remaining - n)) piece (length pre) refl
          (hl ∙ sym (length-replicate {A = ℕ} n 0))
      ∙ ap ok (sym (append_assoc pre piece (zeros (remaining - n))))

  -- One piece in both loops, at a chunk index.
  module _ (fuel remaining pos off n : ℕ) (pre : Bytes) (fits : n ≤ remaining)
      (ih : (more : Bytes)
        → length more ≡ length pre + n
        → read_loop r ci_data chunksize nchunks fuel
            (remaining - n)
            (pos + n)
            (length pre + n)
            (more ++ zeros (remaining - n))
          ≡ map_ok padded
              (write_loop r ci_data chunksize nchunks fuel (remaining - n) (pos + n) more)) where
    piece_agree :
        (piece : IoResult Bytes)
        → ((b : Bytes) → piece ≡ ok b → length b ≡ n)
        → (piece >>= λ b. copy_at (pre ++ zeros remaining) (length pre) b >>= λ filled.
            read_loop r ci_data chunksize nchunks fuel
              (remaining - n)
              (pos + n)
              (length pre + n)
              filled)
          ≡ map_ok padded (
              piece >>= λ b.
              write_loop r ci_data chunksize nchunks fuel (remaining - n) (pos + n) (pre ++ b))
    piece_agree (ok b) long =
        rw (copy_piece pre b n remaining (long b refl) fits)
          (ih (pre ++ b) (omega (arith, length-append pre b, long b refl)))
    piece_agree (err e) long = refl
    piece_agree panic long = refl

    index_agree :
        (ci : IoResult ErofsChunkIndex)
        → (ci >>= λ c.
            if Chunk.blkaddr c == 2 ^ 64 - 1
            then read_loop r ci_data chunksize nchunks fuel
                (remaining - n)
                (pos + n)
                (length pre + n)
                (pre ++ zeros remaining)
            else (chunk_slice r c off n >>= λ b.
                copy_at (pre ++ zeros remaining) (length pre) b >>= λ filled.
                read_loop r ci_data chunksize nchunks fuel
                  (remaining - n)
                  (pos + n)
                  (length pre + n)
                  filled))
          ≡ map_ok padded (
              ci >>= λ c.
              if Chunk.blkaddr c == 2 ^ 64 - 1
              then write_loop r ci_data chunksize nchunks fuel
                  (remaining - n)
                  (pos + n)
                  (write_zeros n n pre)
              else (chunk_slice r c off n >>= λ b.
                  write_loop r ci_data chunksize nchunks fuel (remaining - n) (pos + n) (pre ++ b)))
    index_agree (ok c) = elim (Bool-cases (Chunk.blkaddr c == 2 ^ 64 - 1)) [
      | inl hole ↦
          rw (hole, write_zeros-eq n n pre (omega arith))
            (ap
                (read_loop r ci_data chunksize nchunks fuel (remaining - n) (pos + n)
                  (length pre + n))
                (ap (λ (z : Bytes). pre ++ z) (zeros_split n remaining fits)
                  ∙ sym (append_assoc pre (zeros n) (zeros (remaining - n))))
              ∙ ih (pre ++ zeros n)
                  (omega (arith, length-append pre (zeros n), length-replicate {A = ℕ} n 0)))
      | inr stored ↦ rw stored (piece_agree (chunk_slice r c off n) (length-chunk_slice r c off n))
    ]
    index_agree (err e) = refl
    index_agree panic = refl

  pub loops_agree :
      (fuel remaining pos : ℕ) (pre : Bytes) (at : ℕ)
      → at ≡ length pre
      → read_loop r ci_data chunksize nchunks fuel remaining pos at (pre ++ zeros remaining)
        ≡ map_ok padded (write_loop r ci_data chunksize nchunks fuel remaining pos pre)
  unfolding read_loop write_loop
  loops_agree zero remaining pos pre at e = elim (Bool-cases (ltb 0 remaining)) [
    | inl more ↦ rw more
    | inr done ↦ rw done
  ]
  loops_agree (suc fuel) remaining pos pre at e = elim (Bool-cases (ltb 0 remaining)) [
    | inl more ↦ elim (Bool-cases (leb nchunks (pos / chunksize))) [
      | inl behind ↦ rw (more, behind)
      | inr inside ↦
          rw (more, inside, e)
            (index_agree fuel remaining pos (pos % chunksize)
              (min remaining (chunksize - pos % chunksize)) pre (omega arith)
              (λ (b : Bytes)
                  (h : length b ≡ length pre + min remaining (chunksize - pos % chunksize)).
                loops_agree fuel _ _ b _ (sym h))
              (chunk_index_at ci_data (pos / chunksize)))
    ]
    | inr done ↦ rw done
  ]
