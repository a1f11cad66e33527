-- ===== src/Build/BlobChunk/Store.antt =====
-- What the blob file holds: every chunk at the address that its index gives. `IsPiece` are the
-- chunks that are ever written; the hash keeps them apart.
use erofs_utils_rust.Base.{
  ℕ, ◌+◌, ◌-◌, ◌*◌, ◌/◌, ◌^◌, ◌≤◌, ◌<◌, ◌≡◌, refl, sym, ap, ap₂, ◌∙◌, arith, [], ◌∷◌, ◌++◌, List,
  append_assoc, append-nil, Bytes, zeros, length, length-append, length-replicate, take, drop, All,
  some, bytes_eq, bytes_eq→eq, Bool-cases, Option-cases, inl, inr, ltb, ltb_false→le, if◌then◌else◌,
  div_ceil,
}
use mathlib.Core.Path.{subst}
use erofs_utils_rust.Build.BlobChunk.{BlobChunk, ChunkIndex, BlobWriter, get, write_chunk}
use erofs_utils_rust.Fs.Reader.Holds.{Holds, middle-Holds, append-Holds}

-- The chunks of a file, each at the address of its index.
unfoldable pub Stores : Bytes → ℕ → Bytes → List ChunkIndex → Type 0
Stores file chunksize content [] = content ≡ []
Stores file chunksize content (ci ∷ indexes) =
    (0 < length content)
    × (ci.device_id ≡ 1)
    × Holds file (ci.blkaddr * 4096) (take chunksize content)
    × Stores file chunksize (drop chunksize content) indexes

-- More at the end of the file changes nothing.
pub append-Stores :
    (file more : Bytes) (chunksize : ℕ) (content : Bytes) (indexes : List ChunkIndex)
    → Stores file chunksize content indexes
    → Stores (file ++ more) chunksize content indexes
unfolding Stores
append-Stores file more chunksize content [] s = s
append-Stores file more chunksize content (ci ∷ indexes) (some_left, device, held, rest) = (
  some_left,
  device,
  append-Holds file more (ci.blkaddr * 4096) (take chunksize content) held,
  append-Stores file more chunksize (drop chunksize content) indexes rest,
)

module _ (hash : Bytes → Bytes) (IsPiece : Bytes → Type 0) where
  -- An entry of the table is the address of a chunk with that hash.
  abbrev pub IsEntry : Bytes → Bytes × BlobChunk → Type 0
  IsEntry file (h, chunk) =
      (piece : Bytes) × IsPiece piece × (hash piece ≡ h) × Holds file (chunk.blkaddr * 4096) piece

  pub record IsBlob (w : BlobWriter) : Type 0 where
    pub aligned : length w.file ≡ w.next_blkaddr * 4096
    pub entries : All (IsEntry w.file) w.dedup

  append-IsEntry :
      (file more : Bytes) (dedup : List (Bytes × BlobChunk))
      → All (IsEntry file) dedup
      → All (IsEntry (file ++ more)) dedup
  append-IsEntry file more [] a = tt
  append-IsEntry file more ((h, chunk) ∷ dedup) ((piece, seen, same, held), rest) = (
    (piece, seen, same, append-Holds file more (chunk.blkaddr * 4096) piece held),
    append-IsEntry file more dedup rest,
  )

  get-IsEntry :
      (file h : Bytes) (dedup : List (Bytes × BlobChunk)) (chunk : BlobChunk)
      → All (IsEntry file) dedup
      → get h dedup ≡ some chunk
      → IsEntry file (h, chunk)
  unfolding get
  get-IsEntry file h [] chunk a found = cc
  get-IsEntry file h ((h', first) ∷ dedup) chunk (entry, rest) found =
      elim (Bool-cases (bytes_eq h' h)) [
        | inl same ↦
            let is_first : some first ≡ some chunk = rw same at found in
            let e : first ≡ chunk = cc in
            subst (λ (p : Bytes × BlobChunk). IsEntry file p)
              (ap₂ (λ (k : Bytes) (b : BlobChunk). (k, b)) (bytes_eq→eq h' h same) e) entry
        | inr other ↦ get-IsEntry file h dedup chunk rest (rw other at found)
      ]

  -- What `write_chunk` returns for a chunk.
  pub record IsWritten (w : BlobWriter) (piece : Bytes) (w' : BlobWriter) (addr : ℕ) : Type 0 where
    pub blob : IsBlob w'
    pub same_size : w'.chunksize ≡ w.chunksize
    pub growth : w'.next_blkaddr ≤ w.next_blkaddr + length piece
    pub more : Bytes
    pub extends : w'.file ≡ w.file ++ more
    pub held : Holds w'.file (addr * 4096) piece

  -- The piece is padded with zeros up to the end of its last block.
  padding :
      (file piece : Bytes) (len : ℕ)
      → (if ltb (length piece) len
          then (file ++ piece) ++ zeros (len - length piece)
          else file ++ piece)
        ≡ file ++ (piece ++ zeros (len - length piece))
  padding file piece len = elim (Bool-cases (ltb (length piece) len)) [
    | inl short ↦ rw short (append_assoc file piece (zeros (len - length piece)))
    | inr full ↦
        let no_zeros : 0 ≡ len - length piece =
          omega (arith, ltb_false→le (length piece) len full) in
        rw full (
          ap (λ (b : Bytes). file ++ b)
            (sym (append-nil piece) ∙ ap (λ (n : ℕ). piece ++ zeros n) no_zeros))
  ]

  -- A chunk behind all others.
  new_chunk :
      (w : BlobWriter) (piece file : Bytes) (next nblocks : ℕ)
      → IsBlob w
      → IsPiece piece
      → file ≡ w.file ++ (piece ++ zeros (nblocks * 4096 - length piece))
      → next ≡ w.next_blkaddr + nblocks
      → length piece ≤ nblocks * 4096
      → nblocks ≤ length piece
      → IsWritten w piece
          (record w {
            file = file;
            next_blkaddr = next;
            dedup = (hash piece, record { blkaddr = w.next_blkaddr }) ∷ w.dedup;
          })
          w.next_blkaddr
  new_chunk w piece file next nblocks blob seen e at fits few = record {
    blob = record {
      aligned =
          ap length e
          ∙ omega (
            arith,
            blob.aligned,
            at,
            length-append w.file (piece ++ zeros pad),
            length-append piece (zeros pad),
            length-replicate {A = ℕ} pad 0,
          );
      entries = (
        (piece, seen, refl, there),
        subst (λ (f : Bytes). All (IsEntry f) w.dedup) (sym e)
            (append-IsEntry w.file (piece ++ zeros pad) w.dedup blob.entries),
      );
    };
    same_size = refl;
    growth = omega (arith, at);
    more = piece ++ zeros pad;
    extends = e;
    held = there;
  }
    where
      pad : ℕ
      pad = nblocks * 4096 - length piece

      there : Holds file (w.next_blkaddr * 4096) piece
      there =
          subst (λ (f : Bytes). Holds f (w.next_blkaddr * 4096) piece) (sym e)
            (middle-Holds w.file piece (zeros pad) (w.next_blkaddr * 4096) (sym blob.aligned))

  blocks_room : (n : ℕ) → n ≤ div_ceil n 4096 * 4096
  blocks_room n = ground arith

  few_blocks : (n : ℕ) → div_ceil n 4096 ≤ n
  few_blocks n = ground arith

  pub write_chunk-IsWritten :
      (w : BlobWriter) (piece : Bytes)
      → ((a b : Bytes) → IsPiece a → IsPiece b → hash a ≡ hash b → a ≡ b)
      → IsBlob w
      → IsPiece piece
      → w.next_blkaddr + length piece < 2 ^ 64
      → IsWritten w piece (write_chunk hash w piece).0 (write_chunk hash w piece).1
  unfolding write_chunk
  write_chunk-IsWritten w piece apart blob seen room =
      elim (Option-cases (get (hash piece) w.dedup)) [
        | inr (chunk, found) ↦
            let entry = get-IsEntry w.file (hash piece) w.dedup chunk blob.entries found in
            rw (write_chunk, found)
              (record {
                blob = record { aligned = blob.aligned; entries = blob.entries };
                same_size = refl;
                growth = omega arith;
                more = [];
                extends = sym (append-nil w.file);
                held =
                    subst (Holds w.file (chunk.blkaddr * 4096))
                      (apart entry.0 piece entry.1 seen entry.2) entry.3;
              })
        | inl missing ↦
            let blocks : div_ceil (length piece) 4096 * 4096 / 4096 ≡ div_ceil (length piece) 4096 =
              omega arith in
            rw (write_chunk, missing)
              (rw (padding w.file piece (div_ceil (length piece) 4096 * 4096), blocks)
                (new_chunk w piece _ _ (div_ceil (length piece) 4096) blob seen refl
                  (omega (arith, few_blocks (length piece))) (blocks_room (length piece))
                  (few_blocks (length piece))))
      ]
