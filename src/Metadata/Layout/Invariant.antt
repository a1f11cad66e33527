-- ===== src/Metadata/Layout/Invariant.antt =====
-- The invariant of the allocator, and what each operation returns.
use erofs_utils_rust.Base.{
  ℕ, ◌+◌, ◌-◌, ◌*◌, ◌/◌, ◌%◌, ◌^◌, ◌≤◌, ◌<◌, ◌≡◌, ap, ◌∙◌, arith, ◌++◌, Bytes, zeros, length,
  length-append, length-replicate, length-patch, copy_at_lem, patch, ok, map_ok, sym, append-nil,
  ltb, Bool-cases, inl, inr,
}
use erofs_utils_rust.Metadata.RoundUp.{round_up, round_up-eq}
use erofs_utils_rust.Metadata.Layout.{
  MetadataLayout, Alloc, new, grow, alloc_inode, pad_to_block, alloc_dir_data, write_at,
}

-- The buffer ends at the cursor, which stands on a slot of 32 bytes, and the metadata area begins
-- at block 1.
pub record IsLayout (l : MetadataLayout) : Type 0 where
  pub ends : length l.buf ≡ l.cursor
  pub on_slot : l.cursor % 32 ≡ 0
  pub area : l.meta_blkaddr ≡ 1

pub new-IsLayout : IsLayout new
unfolding new
new-IsLayout = omega arith

slot_up : (n : ℕ) → n < 2 ^ 62 → round_up n 32 ≡ (n + 31) / 32 * 32
slot_up n h = round_up-eq 5 (omega arith) n (omega arith)

block_up : (n : ℕ) → n < 2 ^ 62 → round_up n 4096 ≡ (n + 4095) / 4096 * 4096
block_up n h = round_up-eq 12 (omega arith) n (omega arith)

-- Moving the cursor forward keeps what the buffer holds and adds zeros.
grow-eq : (buf : Bytes) (n : ℕ) → length buf ≤ n → grow buf n ≡ buf ++ zeros (n - length buf)
unfolding grow
grow-eq buf n h = elim (Bool-cases (ltb (length buf) n)) [
  | inl less ↦ rw less
  | inr same ↦
      let none_left : 0 ≡ n - length buf = ground arith in
      rw same (sym (append-nil buf) ∙ ap (λ (k : ℕ). buf ++ zeros k) none_left)
]

length-grow : (buf : Bytes) (n : ℕ) → length buf ≤ n → length (grow buf n) ≡ n
length-grow buf n h =
    ap length (grow-eq buf n h)
    ∙ omega (
      arith,
      length-append buf (zeros (n - length buf)),
      length-replicate {A = ℕ} (n - length buf) 0,
    )

-- An allocation of `size` bytes: the range lies behind what was allocated before and inside the
-- new buffer, the old contents stay, and the rest of the new buffer is zero.
pub record Extends (l : MetadataLayout) (size : ℕ) (a : Alloc) : Type 0 where
  pub valid : IsLayout a.layout
  pub behind : l.cursor ≤ a.offset
  pub inside : a.offset + size ≤ a.layout.cursor
  pub kept : a.layout.buf ≡ l.buf ++ zeros (a.layout.cursor - l.cursor)

-- A small state and a small request: no sum of the allocator wraps.
abbrev pub IsSmall : ℕ → Type 0
IsSmall n = n < 2 ^ 61

grow_kept :
    (l : MetadataLayout) (n : ℕ)
    → IsLayout l
    → l.cursor ≤ n
    → grow l.buf n ≡ l.buf ++ zeros (n - l.cursor)
grow_kept l n v h = grow-eq l.buf n (omega arith) ∙ ap (λ (k : ℕ). l.buf ++ zeros (n - k)) v.ends

-- From a valid layout, and for a cursor and a size below 2^61, `alloc_inode` keeps the layout
-- valid, returns a range behind all that was allocated before and inside the new buffer, keeps
-- the old contents and adds zeros; the nid counts slots of 32 bytes up to the offset.
pub alloc_inode-Extends :
    (l : MetadataLayout) (size : ℕ)
    → IsLayout l
    → IsSmall l.cursor
    → IsSmall size
    → Extends l size (alloc_inode l size)
      × ((alloc_inode l size).number * 32 ≡ (alloc_inode l size).offset)
unfolding alloc_inode
alloc_inode-Extends l size v hc hs = (
  record {
    valid = record {
      ends = length-grow l.buf _ (omega (arith, slot_up size (omega arith)));
      on_slot = omega (arith, slot_up size (omega arith));
      area = v.area;
    };
    behind = omega arith;
    inside = omega (arith, slot_up size (omega arith));
    kept = grow_kept l _ v (omega (arith, slot_up size (omega arith)));
  },
  omega arith,
)

-- From a valid layout, and for a cursor and a size below 2^61, `alloc_dir_data` keeps the layout
-- valid, returns a range behind all that was allocated before and inside the new buffer, keeps
-- the old contents and adds zeros; the start block, counted from the image, is that of the
-- offset, whose area begins at block 1.
pub alloc_dir_data-Extends :
    (l : MetadataLayout) (size : ℕ)
    → IsLayout l
    → IsSmall l.cursor
    → IsSmall size
    → Extends l size (alloc_dir_data l size)
      × ((alloc_dir_data l size).number * 4096 ≡ 4096 + (alloc_dir_data l size).offset)
unfolding alloc_dir_data
alloc_dir_data-Extends l size v hc hs = (
  record {
    valid = record {
      ends = length-grow l.buf _ (omega (arith, offset, padded));
      on_slot = omega (arith, offset, padded);
      area = v.area;
    };
    behind = omega (arith, offset);
    inside = omega (arith, offset, padded);
    kept = grow_kept l _ v (omega (arith, offset, padded));
  },
  omega (arith, offset),
)
  where
    offset : round_up l.cursor 4096 ≡ (l.cursor + 4095) / 4096 * 4096
    offset = block_up l.cursor (omega arith)

    padded : round_up size 4096 ≡ (size + 4095) / 4096 * 4096
    padded = block_up size (omega arith)

-- From a valid layout with a cursor below 2^61, `pad_to_block` keeps the layout valid, moves the
-- cursor forward by less than a block to a block boundary, and adds zeros to the contents.
pub pad_to_block-IsLayout :
    (l : MetadataLayout)
    → IsLayout l
    → IsSmall l.cursor
    → IsLayout (pad_to_block l)
      × ((pad_to_block l).cursor % 4096 ≡ 0)
      × (l.cursor ≤ (pad_to_block l).cursor)
      × ((pad_to_block l).cursor < l.cursor + 4096)
      × ((pad_to_block l).buf ≡ l.buf ++ zeros ((pad_to_block l).cursor - l.cursor))
unfolding pad_to_block
pad_to_block-IsLayout l v hc = (
  record {
    ends = length-grow l.buf _ (omega (arith, up));
    on_slot = omega (arith, up);
    area = v.area;
  },
  omega (arith, up),
  omega (arith, up),
  omega (arith, up),
  grow_kept l _ v (omega (arith, up)),
)
  where
    up : round_up l.cursor 4096 ≡ (l.cursor + 4095) / 4096 * 4096
    up = block_up l.cursor (omega arith)

-- From a valid layout, `write_at` of bytes that end before the cursor does not panic, replaces
-- the bytes at the offset and nothing else, and keeps the layout valid.
pub write_at-IsLayout :
    (l : MetadataLayout) (offset : ℕ) (new : Bytes)
    → IsLayout l
    → offset + length new ≤ l.cursor
    → (write_at l offset new ≡ ok (record l { buf = patch l.buf offset new }))
      × IsLayout (record l { buf = patch l.buf offset new })
unfolding write_at
write_at-IsLayout l offset new v h = (
  ap (map_ok (λ b. record l { buf = b })) (copy_at_lem l.buf offset new (omega arith)),
  record {
    ends = length-patch l.buf offset new (omega arith) ∙ v.ends;
    on_slot = v.on_slot;
    area = v.area;
  },
)

-- How far an allocation moves the cursor at most.
pub cursor-alloc_inode :
    (l : MetadataLayout) (size : ℕ)
    → IsSmall l.cursor
    → IsSmall size
    → (alloc_inode l size).layout.cursor ≤ l.cursor + size + 31
unfolding alloc_inode
cursor-alloc_inode l size hc hs = omega (arith, slot_up size (omega arith))

pub cursor-alloc_dir_data :
    (l : MetadataLayout) (size : ℕ)
    → IsSmall l.cursor
    → IsSmall size
    → (alloc_dir_data l size).layout.cursor ≤ l.cursor + size + 8190
unfolding alloc_dir_data
cursor-alloc_dir_data l size hc hs =
    omega (arith, block_up l.cursor (omega arith), block_up size (omega arith))
