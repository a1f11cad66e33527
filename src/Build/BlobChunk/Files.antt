-- ===== src/Build/BlobChunk/Files.antt =====
-- `write_file_chunks`: the chunks of a file in the blob, and the files that were there before.
use native.Mathlib.Nat.{suc-mul}
use erofs_utils_rust.Base.{
  ℕ, zero, suc, ◌+◌, ◌-◌, ◌*◌, ◌^◌, ◌≤◌, ◌<◌, ◌≡◌, refl, sym, ap, ◌∙◌, arith, [], ◌∷◌, ◌++◌, List,
  append_assoc, append-nil, Bytes, length, length-take, length-drop, take, drop, drop-drop,
  take-min, drop-min, ◌==◌, false, le→ltb_false, div_ceil, div_ceil_enough, div_ceil_tight, min, ok,
}
use mathlib.Core.Path.{subst}
use erofs_utils_rust.Build.BlobChunk.{
  ChunkIndex, BlobWriter, write_chunk, write_chunks, write_file_chunks,
}
use erofs_utils_rust.Build.BlobChunk.Store.{Stores, IsBlob, IsWritten, write_chunk-IsWritten}
use erofs_utils_rust.Fs.Reader.Holds.{Holds, append-Holds}

nothing_left : (xs : Bytes) → length xs ≤ 0 → xs ≡ []
nothing_left [] h = refl
nothing_left (x ∷ xs) h = absurd (omega arith)

module _ (hash : Bytes → Bytes) (IsPiece : Bytes → Type 0) where
  -- All chunks that the contents are cut into.
  abbrev pub IsCut : ℕ → Bytes → Type 0
  IsCut chunksize content = (k : ℕ) → IsPiece (take chunksize (drop (k * chunksize) content))

  -- The blob after the chunks of a file.
  pub record IsFilled (w : BlobWriter) (content : Bytes) (w' : BlobWriter)
      (indexes : List ChunkIndex) : Type 0 where
    pub blob : IsBlob hash IsPiece w'
    pub same_size : w'.chunksize ≡ w.chunksize
    pub growth : w'.next_blkaddr ≤ w.next_blkaddr + length content
    pub more : Bytes
    pub extends : w'.file ≡ w.file ++ more
    pub stored : Stores w'.file w.chunksize content indexes

  module _ (cs : ℕ) (wide : 0 < cs)
      (apart : (a b : Bytes) → IsPiece a → IsPiece b → hash a ≡ hash b → a ≡ b) where
    one_more :
        (w w₁ w₂ : BlobWriter) (content : Bytes) (addr : ℕ) (indexes : List ChunkIndex)
        → w.chunksize ≡ cs
        → 0 < length content
        → IsWritten hash IsPiece w (take cs content) w₁ addr
        → IsFilled w₁ (drop cs content) w₂ indexes
        → IsFilled w content w₂ (record { blkaddr = addr; device_id = 1 } ∷ indexes)
    unfolding Stores
    one_more w w₁ w₂ content addr indexes sized some_left one rest = record {
      blob = rest.blob;
      same_size = rest.same_size ∙ one.same_size;
      growth =
          omega (arith, one.growth, rest.growth, length-take cs content, length-drop cs content);
      more = one.more ++ rest.more;
      extends =
          rest.extends
          ∙ ap (λ (f : Bytes). f ++ rest.more) one.extends
          ∙ append_assoc w.file one.more rest.more;
      stored =
          subst
            (λ (n : ℕ).
              Stores w₂.file n content (record { blkaddr = addr; device_id = 1 } ∷ indexes))
            (sym sized) all;
    }
      where
        all : Stores w₂.file cs content (record { blkaddr = addr; device_id = 1 } ∷ indexes)
        all = (
          some_left,
          refl,
          subst (λ (f : Bytes). Holds f (addr * 4096) (take cs content)) (sym rest.extends)
              (append-Holds w₁.file rest.more (addr * 4096) (take cs content) one.held),
          subst (λ (n : ℕ). Stores w₂.file n (drop cs content) indexes) (one.same_size ∙ sized)
              rest.stored,
        )

    one_round :
        (rounds : ℕ) (w : BlobWriter) (unread : Bytes) (file_size i : ℕ) (w' : BlobWriter)
        (indexes : List ChunkIndex)
        → min (file_size - i * w.chunksize) w.chunksize ≡ min (length unread) cs
        → write_chunks hash rounds
            (write_chunk hash w (take cs unread)).0
            (drop cs unread)
            file_size
            (i + 1)
          ≡ ok (w', indexes)
        → write_chunks hash (suc rounds) w unread file_size i
          ≡ ok (
            w',
            record { blkaddr = (write_chunk hash w (take cs unread)).1; device_id = 1 } ∷ indexes,
          )
    unfolding write_chunks
    one_round rounds w unread file_size i w' indexes size ran =
        rw
          (
            size,
            le→ltb_false (length unread) (min (length unread) cs) (omega arith),
            take-min cs unread,
            drop-min cs unread,
            ran,
          )
          refl

    pub write_chunks-IsFilled :
        (rounds : ℕ) (w : BlobWriter) (unread : Bytes) (file_size i : ℕ)
        → w.chunksize ≡ cs
        → IsBlob hash IsPiece w
        → IsCut cs unread
        → length unread ≡ file_size - i * cs
        → length unread ≤ rounds * cs
        → rounds * cs < length unread + cs
        → w.next_blkaddr + length unread < 2 ^ 64
        → (w' : BlobWriter) × (indexes : List ChunkIndex) × (write_chunks hash rounds w unread
              file_size i
            ≡ ok (w', indexes))
          × IsFilled w unread w' indexes
    unfolding write_chunks Stores
    write_chunks-IsFilled zero w unread file_size i sized blob cut left enough tight room = (
      w,
      [],
      refl,
      record {
        blob = blob;
        same_size = refl;
        growth = omega arith;
        more = [];
        extends = sym (append-nil w.file);
        stored = nothing_left unread (omega arith);
      },
    )
    write_chunks-IsFilled (suc rounds) w unread file_size i sized blob cut left enough tight room =
        let size : min (file_size - i * w.chunksize) w.chunksize ≡ min (length unread) cs =
          ap (λ (n : ℕ). min (file_size - i * n) n) sized ∙ ap (λ (n : ℕ). min n cs) (sym left) in
        let some_left : 0 < length unread = omega (arith, suc-mul rounds cs) in
        let one : IsWritten hash IsPiece w (take cs unread) (write_chunk hash w (take cs unread)).0
            (write_chunk hash w (take cs unread)).1 =
          write_chunk-IsWritten hash IsPiece w (take cs unread) apart blob (first cut)
            (omega (arith, length-take cs unread)) in
        let more =
          write_chunks-IsFilled rounds (write_chunk hash w (take cs unread)).0 (drop cs unread)
            file_size (i + 1) (one.same_size ∙ sized) one.blob (others cut)
            (omega (arith, left, length-drop cs unread, suc-mul i cs))
            (omega (arith, enough, length-drop cs unread, suc-mul rounds cs))
            (omega (arith, tight, length-drop cs unread, suc-mul rounds cs))
            (omega (arith, one.growth, length-drop cs unread, length-take cs unread)) in
        (
          more.0,
          record { blkaddr = (write_chunk hash w (take cs unread)).1; device_id = 1 } ∷ more.1,
          one_round rounds w unread file_size i more.0 more.1 size more.2,
          one_more w _ more.0 unread _ more.1 sized some_left one more.3,
        )
      where
        first : IsCut cs unread → IsPiece (take cs unread)
        first h =
            let none_left : 0 * cs ≡ 0 = omega arith in
            subst (λ (n : ℕ). IsPiece (take cs (drop n unread))) none_left (h 0)

        others : IsCut cs unread → IsCut cs (drop cs unread)
        others h k =
            let sum : suc k * cs ≡ cs + k * cs = omega (arith, suc-mul k cs) in
            subst (λ (xs : Bytes). IsPiece (take cs xs))
              (ap (λ (n : ℕ). drop n unread) sum ∙ sym (drop-drop (k * cs) cs unread)) (h (suc k))

    no_chunks : (file : Bytes) (n : ℕ) → Stores file n [] []
    unfolding Stores
    no_chunks file n = refl

    filled :
        (w w' : BlobWriter) (content : Bytes) (indexes : List ChunkIndex)
        → w.chunksize ≡ cs
        → (length content == 0) ≡ false
        → write_chunks hash (div_ceil (length content) cs) w content (length content) 0
          ≡ ok (w', indexes)
        → write_file_chunks hash w (ok content) (length content) ≡ ok (w', indexes)
    unfolding write_file_chunks
    filled w w' content indexes sized some_there ran = rw some_there (
        ap (λ (n : ℕ). write_chunks hash (div_ceil (length content) n) w content (length content) 0)
          sized
        ∙ ran)

    -- If the hash tells all pieces of files apart, the chunk size is positive, the blob ends at the
    -- next block address, each entry of the table is the address of a piece with that hash, and
    -- blocks and contents together stay below 2^64: `write_file_chunks` on all the contents
    -- returns, keeps the agreement of table and blob, adds to the blob at its end only, and returns
    -- an index for each chunk, at whose address the blob holds that chunk.
    pub write_file_chunks-IsFilled :
        (w : BlobWriter) (content : Bytes)
        → w.chunksize ≡ cs
        → IsBlob hash IsPiece w
        → IsCut cs content
        → w.next_blkaddr + length content < 2 ^ 64
        → (w' : BlobWriter) × (indexes : List ChunkIndex) × (write_file_chunks hash w
              (ok content)
              (length content)
            ≡ ok (w', indexes))
          × IsFilled w content w' indexes
    unfolding write_file_chunks
    write_file_chunks-IsFilled w content sized blob cut room = by_content content cut room
      where
        by_content :
            (unread : Bytes)
            → IsCut cs unread
            → w.next_blkaddr + length unread < 2 ^ 64
            → (w' : BlobWriter) × (indexes : List ChunkIndex) × (write_file_chunks hash w
                  (ok unread)
                  (length unread)
                ≡ ok (w', indexes))
              × IsFilled w unread w' indexes
        by_content [] cut room = (
          w,
          [],
          refl,
          record {
            blob = blob;
            same_size = refl;
            growth = omega arith;
            more = [];
            extends = sym (append-nil w.file);
            stored = no_chunks w.file w.chunksize;
          },
        )
        by_content (b ∷ unread) cut room =
            let some_there : (length (b ∷ unread) == 0) ≡ false = ground arith in
            let more =
              write_chunks-IsFilled (div_ceil (length (b ∷ unread)) cs) w (b ∷ unread)
                (length (b ∷ unread)) 0 sized blob cut (omega arith)
                (div_ceil_enough (length (b ∷ unread)) cs wide)
                (div_ceil_tight (length (b ∷ unread)) cs wide) room in
            (more.0, more.1, filled w more.0 (b ∷ unread) more.1 sized some_there more.2, more.3)
