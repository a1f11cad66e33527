-- ===== src/Build/Image/Opens.antt =====
-- The reader opens what `write_image` wrote.
use erofs_utils_rust.Base.{
  >>=-assoc, ℕ, ◌+◌, ◌-◌, ◌*◌, ◌%◌, ◌^◌, ◌≤◌, ◌<◌, ◌≡◌, refl, sym, ap, ◌∙◌, arith, ◌++◌,
  append_assoc, append-nil, Bytes, Option, zeros, zeros_add, length, length-append,
  length-replicate, drop, drop-append, copy_at, copy_at-zeros, copy_at-zeros_then, le→ltb_false,
  ◌==◌, if◌then◌else◌, Bool-cases, inl, inr, true, IsU16, IsU64, add64, mul64, slice_from,
  slice_from_lem, IoResult, ok, ◌>>=◌,
}
use erofs_utils_rust.Metadata.Superblock
use erofs_utils_rust.Metadata.Superblock.{ErofsSuperblock}
use erofs_utils_rust.Metadata.Superblock.RoundTrip.{fields_new, cast_ref-as_bytes, length-as_bytes}
use erofs_utils_rust.Metadata.DeviceSlot
use erofs_utils_rust.Build.Image.{superblock_of, write_image}
use erofs_utils_rust.Fs.Reader.{ErofsReader, superblock_from, open_reader, sb, nid_to_offset}
use erofs_utils_rust.Fs.Reader.Holds.{Holds, middle-Holds}

-- Two writes behind each other into zeros.
two_writes :
    (total off n : ℕ) (a b : Bytes)
    → off + length a ≡ n
    → n + length b ≤ total
    → (copy_at (zeros total) off a >>= λ x. copy_at x n b)
      ≡ ok (((zeros off ++ a) ++ b) ++ zeros (total - off - length a - length b))
two_writes total off n a b at fits =
    let sum : total ≡ off + (total - off) = omega arith in
    ap (λ (z : Bytes). copy_at z off a >>= λ x. copy_at x n b)
      (ap zeros sum ∙ zeros_add off (total - off))
    ∙ copy_at-zeros_then (zeros off) a off (total - off) (λ x. copy_at x n b)
        (sym (length-replicate {A = ℕ} off 0)) (omega arith)
    ∙ copy_at-zeros (zeros off ++ a) b n (total - off - length a)
        (omega (arith, length-append (zeros off) a, length-replicate {A = ℕ} off 0)) (omega arith)

-- How much the last block of the metadata is short of a block.
abbrev pad_of : ℕ → ℕ
pad_of n = if n % 4096 == 0 then 0 else 4096 - n % 4096

pad_lt : (n : ℕ) → pad_of n < 4096
pad_lt n = ground arith

pad_even : (n : ℕ) → (n + pad_of n) % 4096 ≡ 0
pad_even n = ground arith

-- What a reader of the image finds.
pub record IsImage (r : ErofsReader) (metadata_buf : Bytes) (root_nid total_inodes epoch : ℕ)
    (s : ErofsSuperblock) : Type 0 where
  pub super : sb r ≡ ok s
  pub root : Superblock.root_nid s ≡ root_nid
  pub inos : Superblock.inos s ≡ total_inodes
  pub time : Superblock.epoch s ≡ epoch
  pub area : Superblock.meta_blkaddr s ≡ 1
  pub devices : Superblock.extra_devices s ≡ 1
  pub block_bits : s.blkszbits ≡ 12
  pub metadata : Holds r.mmap 4096 metadata_buf
  pub whole : length r.mmap % 4096 ≡ 0
  pub no_more : length r.mmap < 4096 + length metadata_buf + 4096

module _ (metadata_buf : Bytes) (root_nid total_inodes epoch blob_blocks : ℕ) (uuid : Bytes)
    (wide : length uuid ≡ 16) where
  sb_of : ErofsSuperblock
  sb_of = superblock_of metadata_buf root_nid total_inodes epoch uuid

  dev_of : Bytes
  dev_of = DeviceSlot.as_bytes (DeviceSlot.new blob_blocks)

  boot : Bytes
  boot = zeros 1024

  unused : Bytes
  unfolding dev_of
  unused = zeros (4096 - 1024 - length (Superblock.as_bytes sb_of) - length dev_of)

  padding : Bytes
  padding = zeros (pad_of (length metadata_buf))

  long_sb : length (Superblock.as_bytes sb_of) ≡ 128
  unfolding sb_of superblock_of
  long_sb = length-as_bytes _ _ _ _ _ _ _ _ _ uuid wide

  long_dev : length dev_of ≡ 128
  unfolding dev_of
  long_dev = DeviceSlot.length-as_bytes blob_blocks

  long_boot : length boot ≡ 1024
  unfolding boot
  long_boot = length-replicate {A = ℕ} 1024 0

  long_unused : length unused ≡ 2816
  unfolding unused
  long_unused =
      length-replicate {A = ℕ} (4096 - 1024 - length (Superblock.as_bytes sb_of) - length dev_of) 0
      ∙ omega (arith, long_sb, long_dev)

  abbrev front : Bytes
  front = ((boot ++ Superblock.as_bytes sb_of) ++ dev_of) ++ unused

  long_front : length front ≡ 4096
  long_front = omega (
    arith,
    long_boot,
    long_sb,
    long_dev,
    long_unused,
    length-append ((boot ++ Superblock.as_bytes sb_of) ++ dev_of) unused,
    length-append (boot ++ Superblock.as_bytes sb_of) dev_of,
    length-append boot (Superblock.as_bytes sb_of),
  )

  block0 :
      (copy_at (zeros 4096) 1024 (Superblock.as_bytes sb_of) >>= λ x. copy_at x 1152 dev_of)
      ≡ ok front
  unfolding boot unused
  block0 =
      two_writes 4096 1024 1152 (Superblock.as_bytes sb_of) dev_of (omega (arith, long_sb))
        (omega (arith, long_dev))

  padded :
      (f : Bytes)
      → (if length metadata_buf % 4096 == 0
          then f ++ metadata_buf
          else (f ++ metadata_buf) ++ zeros (4096 - length metadata_buf % 4096))
        ≡ f ++ (metadata_buf ++ padding)
  unfolding padding
  padded f = elim (Bool-cases (length metadata_buf % 4096 == 0)) [
    | inl full ↦ rw full (ap (λ (b : Bytes). f ++ b) (sym (append-nil metadata_buf)))
    | inr short ↦ rw short (append_assoc f metadata_buf _)
  ]

  -- The rest of `write_image` behind block 0.
  behind : Bytes → IoResult Bytes
  behind b = ok (
      if length metadata_buf % 4096 == 0
      then b ++ metadata_buf
      else (b ++ metadata_buf) ++ zeros (4096 - length metadata_buf % 4096))

  write_image-eq :
      write_image metadata_buf root_nid total_inodes epoch blob_blocks uuid
      ≡ ok (front ++ (metadata_buf ++ padding))
  unfolding write_image sb_of dev_of behind
  write_image-eq =
      sym (
        >>=-assoc (copy_at (zeros 4096) 1024 (Superblock.as_bytes sb_of))
          (λ x. copy_at x 1152 dev_of) behind)
      ∙ ap (λ (m : IoResult Bytes). m >>= behind) block0
      ∙ ap ok (padded front)

  abbrev image : Bytes
  image = front ++ (metadata_buf ++ padding)

  long_image : length image ≡ 4096 + (length metadata_buf + length padding)
  long_image =
      length-append front (metadata_buf ++ padding)
      ∙ omega (arith, long_front, length-append metadata_buf padding)

  at_super :
      drop 1024 image
      ≡ Superblock.as_bytes sb_of ++ (dev_of ++ (unused ++ (metadata_buf ++ padding)))
  at_super =
      ap (drop 1024) {x = image}
        {y = boot
          ++ (Superblock.as_bytes sb_of ++ (dev_of ++ (unused ++ (metadata_buf ++ padding))))}
        (simp append_assoc)
      ∙ drop-append boot _ 1024 (sym long_boot)

  cast_super :
      Superblock.cast_ref
        (Superblock.as_bytes sb_of ++ (dev_of ++ (unused ++ (metadata_buf ++ padding))))
      ≡ ok sb_of
  unfolding sb_of superblock_of
  cast_super =
      cast_ref-as_bytes _ _ _ _ _ _ _ _ _ uuid (dev_of ++ (unused ++ (metadata_buf ++ padding)))
        wide

  slice_super : (slice_from image 1024 >>= Superblock.cast_ref) ≡ ok sb_of
  slice_super =
      ap (λ (m : IoResult Bytes). m >>= Superblock.cast_ref)
        (slice_from_lem image 1024 (omega (arith, long_image)) ∙ ap ok at_super)
      ∙ cast_super

  superblock_image : superblock_from image 1024 ≡ ok sb_of
  unfolding superblock_from
  superblock_image = rw (le→ltb_false (length image) 1152 (omega (arith, long_image))) slice_super

  has_magic : (Superblock.magic sb_of == 0xE0F5_E1E2) ≡ true
  unfolding sb_of superblock_of Superblock.magic Superblock.new
  has_magic = refl

  abbrev reader_of : Option Bytes → ErofsReader
  reader_of blob = record { mmap = image; blob_mmap = blob; sb_offset = 1024 }

  opens : (blob : Option Bytes) → open_reader image blob ≡ ok (reader_of blob)
  unfolding open_reader
  opens blob = rw (superblock_image, has_magic) refl

  super_of : (blob : Option Bytes) → sb (reader_of blob) ≡ ok sb_of
  unfolding sb
  super_of blob = slice_super

  long_padding : length padding ≡ pad_of (length metadata_buf)
  unfolding padding
  long_padding = length-replicate {A = ℕ} (pad_of (length metadata_buf)) 0

  short_padding : length padding < 4096
  short_padding = omega (arith, long_padding, pad_lt (length metadata_buf))

  even_padding : (length metadata_buf + length padding) % 4096 ≡ 0
  even_padding = omega (arith, long_padding, pad_even (length metadata_buf))

  is_image :
      (blob : Option Bytes)
      → IsU16 root_nid
      → IsU64 total_inodes
      → IsU64 epoch
      → IsImage (reader_of blob) metadata_buf root_nid total_inodes epoch sb_of
  unfolding sb_of superblock_of
  is_image blob root_word inos_word epoch_word =
      let (magic, compat, incompat, root, inos, time, blocks, area, devices, bits, slot, same) =
        fields_new _ _ _ _ _ _ _ _ _ uuid (omega arith) (omega arith) root_word inos_word epoch_word
          (omega arith) (omega arith) (omega arith) in
      record {
        super = super_of blob;
        root = root;
        inos = inos;
        time = time;
        area = area;
        devices = devices;
        block_bits = bits;
        metadata = middle-Holds front metadata_buf padding 4096 (sym long_front);
        whole = omega (arith, long_image, even_padding);
        no_more = omega (arith, long_image, short_padding);
      }

  -- For a uuid of 16 bytes, a root nid of 16 bits, and an inode count and an epoch of 64 bits,
  -- `write_image` does not panic, and `open` on the image succeeds with any blob: the reader finds
  -- the superblock that was written, with the root nid, the count and the epoch, 4096-byte blocks,
  -- metadata from block 1 and one device; the image holds the metadata buffer at offset 4096, and
  -- is padded to whole blocks by less than a block.
  pub open_reader-write_image :
      (blob : Option Bytes)
      → IsU16 root_nid
      → IsU64 total_inodes
      → IsU64 epoch
      → (img : Bytes) × (r : ErofsReader) × (write_image metadata_buf root_nid total_inodes epoch
            blob_blocks uuid
          ≡ ok img)
        × (open_reader img blob ≡ ok r)
        × (r.mmap ≡ img)
        × (r.blob_mmap ≡ blob)
        × IsImage r metadata_buf root_nid total_inodes epoch
            (superblock_of metadata_buf root_nid total_inodes epoch uuid)
  unfolding sb_of
  open_reader-write_image blob root_word inos_word epoch_word = (
    image,
    reader_of blob,
    write_image-eq,
    opens blob,
    refl,
    refl,
    is_image blob root_word inos_word epoch_word,
  )

-- Where the reader looks for an inode of the metadata.
pub nid_to_offset-IsImage :
    (r : ErofsReader) (metadata_buf : Bytes) (root_nid total_inodes epoch nid : ℕ)
    (s : ErofsSuperblock)
    → IsImage r metadata_buf root_nid total_inodes epoch s
    → nid < 2 ^ 58
    → nid_to_offset r nid ≡ ok (4096 + nid * 32)
unfolding nid_to_offset
nid_to_offset-IsImage r metadata_buf root_nid total_inodes epoch nid s i small =
    let place : add64 (mul64 1 4096) (mul64 nid 32) ≡ 4096 + nid * 32 = omega arith in
    rw (i.super, i.area, place) refl
