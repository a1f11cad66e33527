-- ===== src/Metadata/Superblock/RoundTrip.antt =====
-- A superblock that the builder wrote, read back by the cast and the accessors.
use erofs_utils_rust.Base.{
  ℕ, ◌*◌, ◌/◌, ◌-◌, ◌^◌, ◌≡◌, refl, ◌∙◌, arith, [], ◌∷◌, ◌++◌, Bytes, IsU16, IsU32, IsU64, ok,
  length, u32, bit_and,
}
use erofs_utils_rust.Base.Bits.{bit_and_high}
use erofs_utils_rust.Metadata.LeBytes.{get_u16, get_u16-set_u16, get_u32-set_u32, get_u64-set_u64}
use erofs_utils_rust.Metadata.Consts.{erofs_super_magic_v1, erofs_blkszbits, erofs_sb_base_size}
use erofs_utils_rust.Metadata.Superblock.{
  magic, feature_compat, feature_incompat, root_nid, inos, epoch, blocks, meta_blkaddr,
  extra_devices, new, as_bytes, view, cast_ref,
}

-- The mask that leaves out the checksum bit.
no_chksum : (fc : ℕ) → IsU32 fc → bit_and fc (2 ^ 32 - 1 - 1) ≡ fc / 2 * 2
no_chksum fc h = bit_and_high 1 31 fc (omega arith)

module _ (fc fi root n ep bl mb ed ds : ℕ) where
  -- For values that fit their fields, the accessors of a superblock that the builder made return
  -- the magic number and what it was made of, the compatible features without the lowest bit, that
  -- of the checksum, and the block count cut to 32 bits; its block size is 2^12, and it holds the
  -- slot offset of the devices and the uuid.
  pub fields_new :
      (uuid : Bytes)
      → IsU32 fc
      → IsU32 fi
      → IsU16 root
      → IsU64 n
      → IsU64 ep
      → IsU32 mb
      → IsU16 ed
      → IsU16 ds
      → let sb = new fc fi root n ep bl mb ed ds uuid in
        (magic sb ≡ erofs_super_magic_v1)
        × (feature_compat sb ≡ fc / 2 * 2)
        × (feature_incompat sb ≡ fi)
        × (root_nid sb ≡ root)
        × (inos sb ≡ n)
        × (epoch sb ≡ ep)
        × (blocks sb ≡ u32 bl)
        × (meta_blkaddr sb ≡ mb)
        × (extra_devices sb ≡ ed)
        × (sb.blkszbits ≡ erofs_blkszbits)
        × (get_u16 sb.devt_slotoff ≡ ds)
        × (sb.uuid ≡ uuid)
  unfolding magic feature_compat feature_incompat root_nid inos epoch blocks meta_blkaddr
      extra_devices new
  fields_new uuid hfc hfi hroot hn hep hmb hed hds = (
    refl,
    get_u32-set_u32 _ (omega (arith, no_chksum fc hfc)) ∙ no_chksum fc hfc,
    get_u32-set_u32 fi hfi,
    get_u16-set_u16 root hroot,
    get_u64-set_u64 n hn,
    get_u64-set_u64 ep hep,
    get_u32-set_u32 (u32 bl) (omega arith),
    get_u32-set_u32 mb hmb,
    get_u16-set_u16 ed hed,
    refl,
    get_u16-set_u16 ds hds,
    refl,
  )

  -- For a uuid of 16 bytes, the cast of the bytes of a superblock that the builder made, with
  -- any bytes behind it, gives back that superblock.
  pub cast_ref-as_bytes :
      (uuid rest : Bytes)
      → length uuid ≡ 16
      → cast_ref (as_bytes (new fc fi root n ep bl mb ed ds uuid) ++ rest)
        ≡ ok (new fc fi root n ep bl mb ed ds uuid)
  unfolding cast_ref as_bytes new view
  cast_ref-as_bytes (a ∷ b ∷ c ∷ d ∷ e ∷ f ∷ g ∷ h ∷ i ∷ j ∷ k ∷ l ∷ m ∷ o ∷ p ∷ q ∷ []) rest e16 =
      ground arith
  cast_ref-as_bytes _ rest e16 = absurd (omega arith)

  pub length-as_bytes :
      (uuid : Bytes)
      → length uuid ≡ 16
      → length (as_bytes (new fc fi root n ep bl mb ed ds uuid)) ≡ erofs_sb_base_size
  unfolding as_bytes new
  length-as_bytes (a ∷ b ∷ c ∷ d ∷ e ∷ f ∷ g ∷ h ∷ i ∷ j ∷ k ∷ l ∷ m ∷ o ∷ p ∷ q ∷ []) e16 = refl
  length-as_bytes _ e16 = absurd (omega arith)
