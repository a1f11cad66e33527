-- ===== src/Fs/Stored/Chunks.antt =====
-- Reading a regular file whose chunks stand in the blob.
use native.Mathlib.Nat.{suc-mul, div-add-mod, mod-lt, div-le_self}
use erofs_utils_rust.Base.{
  ℕ, zero, suc, ◌+◌, ◌-◌, ◌*◌, ◌/◌, ◌%◌, ◌^◌, ◌≤◌, ◌<◌, ◌≡◌, sym, ap, ◌∙◌, arith, [], ◌∷◌, ◌++◌,
  List, append_assoc, append-nil, Bytes, length, length-append, length-take, length-drop, take,
  drop, drop-drop, drop-append, take-drop-take, take-append-take-drop, some, ◌==◌, lt→ltb,
  lt→leb_false, false, div_ceil, div_ceil_enough, div_ceil_tight, min, mul64, slice_from_lem, ok,
}
use mathlib.Core.Path.{subst}
use erofs_utils_rust.Metadata.Chunk
use erofs_utils_rust.Build.BlobChunk.{ChunkIndex}
use erofs_utils_rust.Build.BlobChunk.Store.{Stores}
use erofs_utils_rust.Build.Inode.Image.{index_bytes}
use erofs_utils_rust.Fs.Reader.{ErofsReader, blob_mmap_slice, blob_slice}
use erofs_utils_rust.Fs.Reader.Open.{checked_slice-ok}
use erofs_utils_rust.Fs.Reader.Holds.{Holds}
use erofs_utils_rust.Fs.Chunks.{chunk_index_at, chunk_slice, data_offset, nchunks_of, write_loop}
use erofs_utils_rust.Fs.Chunks.Complete.{chunk_idx-lt}

-- The chunk k of a file, in the table and in the blob.
record IsAt (blob : Bytes) (cs : ℕ) (content : Bytes) (cis : List ChunkIndex) (k : ℕ) : Type 0 where
  blkaddr : ℕ
  behind : Bytes
  entry : drop (k * 8) (index_bytes cis) ≡ Chunk.as_bytes (Chunk.new blkaddr 1) ++ behind
  inside : k * 8 ≤ length (index_bytes cis)
  held : Holds blob (blkaddr * 4096) (take cs (drop (k * cs) content))

Stores-IsAt :
    (blob : Bytes) (cs : ℕ) (content : Bytes) (cis : List ChunkIndex) (k : ℕ)
    → Stores blob cs content cis
    → k * cs < length content
    → IsAt blob cs content cis k
unfolding Stores
Stores-IsAt blob cs content [] k empty h = absurd (omega (arith, ap length empty))
Stores-IsAt blob cs content (ci ∷ cis) zero (some_left, device, held, rest) h = record {
  blkaddr = ci.blkaddr;
  behind = index_bytes cis;
  entry = ap (λ (d : ℕ). Chunk.as_bytes (Chunk.new ci.blkaddr d) ++ index_bytes cis) device;
  inside = omega arith;
  held =
      (let start : 0 ≡ 0 * cs = omega arith in
        subst (λ (n : ℕ). Holds blob (ci.blkaddr * 4096) (take cs (drop n content))) start held);
}
Stores-IsAt blob cs content (ci ∷ cis) (suc k) (some_left, device, held, rest) h =
    let at =
      Stores-IsAt blob cs (drop cs content) cis k rest
        (omega (arith, length-drop cs content, suc-mul k cs)) in
    let long : length (Chunk.as_bytes (Chunk.new ci.blkaddr ci.device_id)) ≡ 8 =
      Chunk.length-as_bytes ci.blkaddr ci.device_id in
    let next : suc k * 8 ≡ 8 + k * 8 = omega arith in
    let past : suc k * cs ≡ cs + k * cs = omega (arith, suc-mul k cs) in
    record {
      blkaddr = at.blkaddr;
      behind = at.behind;
      entry =
          ap (λ (n : ℕ). drop n (index_bytes (ci ∷ cis))) next
          ∙ sym (drop-drop (k * 8) 8 (index_bytes (ci ∷ cis)))
          ∙ ap (drop (k * 8)) (drop-append _ (index_bytes cis) 8 (sym long))
          ∙ at.entry;
      inside = omega (
        arith,
        at.inside,
        long,
        length-append (Chunk.as_bytes (Chunk.new ci.blkaddr ci.device_id)) (index_bytes cis),
      );
      held =
          subst (λ (b : Bytes). Holds blob (at.blkaddr * 4096) (take cs b))
            (drop-drop (k * cs) cs content ∙ ap (λ (n : ℕ). drop n content) (sym past)) at.held;
    }

less_than_one : (a cs : ℕ) → a * cs < cs → a * cs ≡ 0
less_than_one zero cs h = omega arith
less_than_one (suc a) cs h = absurd (omega (arith, suc-mul a cs))

-- As many chunks as the reader computes from the size.
length-Stores :
    (blob : Bytes) (cs : ℕ) (content : Bytes) (cis : List ChunkIndex)
    → 0 < cs
    → Stores blob cs content cis
    → (length content ≤ length cis * cs) × (length cis * cs < length content + cs)
unfolding Stores
length-Stores blob cs content [] wide empty = (omega (arith, ap length empty), omega arith)
length-Stores blob cs content (ci ∷ cis) wide (some_left, device, held, rest) =
    let (enough, tight) = length-Stores blob cs (drop cs content) cis wide rest in
    let sum : length (ci ∷ cis) * cs ≡ length cis * cs + cs = suc-mul (length cis) cs in
    (
      omega (arith, enough, length-drop cs content, sum),
      grind (arith, tight, length-drop cs content, sum, less_than_one (length cis) cs),
    )

same_count : (n cs a b : ℕ) → n ≤ a * cs → a * cs < n + cs → n ≤ b * cs → b * cs < n + cs → a ≤ b
same_count n cs zero b h k h' k' = omega arith
same_count n cs (suc a) zero h k h' k' = absurd (omega (arith, suc-mul a cs))
same_count n cs (suc a) (suc b) h k h' k' = omega (
  arith,
  same_count (n - cs) cs a b (omega (arith, suc-mul a cs)) (omega (arith, suc-mul a cs))
      (omega (arith, suc-mul b cs)) (omega (arith, suc-mul b cs)),
)

pub nchunks-Stores :
    (blob : Bytes) (cs : ℕ) (content : Bytes) (cis : List ChunkIndex)
    → 0 < cs
    → Stores blob cs content cis
    → nchunks_of (length content) cs ≡ length cis
unfolding nchunks_of
nchunks-Stores blob cs content cis wide stores =
    let (enough, tight) = length-Stores blob cs content cis wide stores in
    let n = length content in
    let up : n ≤ div_ceil n cs * cs = div_ceil_enough n cs wide in
    let down : div_ceil n cs * cs < n + cs = div_ceil_tight n cs wide in
    omega (
      arith,
      same_count n cs (div_ceil n cs) (length cis) up down enough tight,
      same_count n cs (length cis) (div_ceil n cs) enough tight up down,
    )

module _ (r : ErofsReader) (blob : Bytes) (cs : ℕ) (content : Bytes) (cis : List ChunkIndex)
    (wide : 0 < cs) (stores : Stores blob cs content cis) (mapped : r.blob_mmap ≡ some blob)
    (small : length blob < 2 ^ 60) (fits : length content < 2 ^ 60) where
  -- A piece inside one chunk.
  chunk_slice-IsAt :
      (k off n : ℕ) (at : IsAt blob cs content cis k)
      → off + n ≤ cs
      → k * cs + off + n ≤ length content
      → chunk_slice r (Chunk.new at.blkaddr 1) off n ≡ ok (take n (drop (k * cs + off) content))
  unfolding chunk_slice data_offset blob_mmap_slice blob_slice
  chunk_slice-IsAt k off n at h room =
      let long = length-take cs (drop (k * cs) content) in
      let (addr, device) =
        Chunk.blkaddr-new at.blkaddr 1 (omega (arith, at.held.room)) (omega arith) in
      let place : data_offset (Chunk.new at.blkaddr 1) off ≡ at.blkaddr * 4096 + off =
        omega (arith, addr, at.held.room, long, length-drop (k * cs) content) in
      rw (device, place, mapped)
        (checked_slice-ok blob (at.blkaddr * 4096 + off) n
            (omega (arith, at.held.room, long, length-drop (k * cs) content))
            (omega (arith, at.held.room, long, length-drop (k * cs) content))
          ∙ ap ok (
              ap (take n) (sym (drop-drop off (at.blkaddr * 4096) blob))
              ∙ sym (
                  take-drop-take n off _ (drop (at.blkaddr * 4096) blob)
                    (omega (arith, long, length-drop (k * cs) content)))
              ∙ ap (λ (b : Bytes). take n (drop off b)) at.held.there
              ∙ take-drop-take n off cs (drop (k * cs) content) h
              ∙ ap (take n) (drop-drop off (k * cs) content)))

  index_at-IsAt :
      (k : ℕ) (at : IsAt blob cs content cis k)
      → k < 2 ^ 60
      → chunk_index_at (index_bytes cis) k ≡ ok (Chunk.new at.blkaddr 1)
  unfolding chunk_index_at
  index_at-IsAt k at few =
      let start : mul64 k 8 ≡ k * 8 = omega arith in
      rw (start, slice_from_lem (index_bytes cis) (k * 8) at.inside, at.entry)
        (Chunk.cast_ref-as_bytes at.blkaddr 1 at.behind)

  not_hole :
      (k : ℕ) (at : IsAt blob cs content cis k)
      → (Chunk.blkaddr (Chunk.new at.blkaddr 1) == 2 ^ 64 - 1) ≡ false
  not_hole k at = ground (
    arith,
    (Chunk.blkaddr-new at.blkaddr 1 (omega (arith, at.held.room)) (omega arith)).0,
    at.held.room,
  )

  pub write_loop-stored :
      (fuel remaining pos : ℕ) (w : Bytes)
      → remaining ≤ fuel
      → pos + remaining ≤ length content
      → write_loop r (index_bytes cis) cs (nchunks_of (length content) cs) fuel remaining pos w
        ≡ ok (w ++ take remaining (drop pos content), 0)
  unfolding write_loop
  write_loop-stored zero remaining pos w h room =
      let none_left : remaining ≡ 0 = omega arith in
      rw none_left (ap (λ (b : Bytes). ok (b, 0)) (sym (append-nil w)))
  write_loop-stored (suc fuel) zero pos w h room =
      ap (λ (b : Bytes). ok (b, 0)) (sym (append-nil w))
  write_loop-stored (suc fuel) (suc left) pos w h room =
      let k = pos / cs in
      let off = pos % cs in
      let n = min (suc left) (cs - off) in
      let whole : k * cs + off ≡ pos = omega (arith, div-add-mod pos cs) in
      let rest : off < cs = mod-lt pos wide in
      let at = Stores-IsAt blob cs content cis k stores (omega arith) in
      let few : k ≤ pos = div-le_self pos cs in
      let joined : n + (suc left - n) ≡ suc left = omega arith in
      rw
        (
          lt→ltb 0 (suc left) (omega arith),
          lt→leb_false _ k (chunk_idx-lt pos (length content) cs (omega arith) wide),
          index_at-IsAt k at (omega arith),
          not_hole k at,
          chunk_slice-IsAt k off n at (omega arith) (omega arith),
        )
        (write_loop-stored fuel (suc left - n) (pos + n) (w ++ take n (drop (k * cs + off) content))
            (omega arith) (omega arith)
          ∙ ap (λ (b : Bytes). ok (b, 0))
              (append_assoc w _ _
                ∙ ap (λ (b : Bytes). w ++ b)
                    (ap
                        (λ (m : ℕ).
                          take n (drop m content) ++ take (suc left - n) (drop (pos + n) content))
                        whole
                      ∙ ap (λ (b : Bytes). take n (drop pos content) ++ take (suc left - n) b)
                          (sym (drop-drop n pos content))
                      ∙ take-append-take-drop n (suc left - n) (drop pos content)
                      ∙ ap (λ (m : ℕ). take m (drop pos content)) joined)))
