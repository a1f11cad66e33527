-- ===== src/Metadata/Dirent.antt =====
-- src/metadata/dir.rs: `ErofsDirent`, 12 bytes.
use erofs_utils_rust.Base.{
  ℕ, suc, append-nil, ◌≡◌, refl, arith, ◌∷◌, [], ◌++◌, Bytes, length, leb, get_or, ok, IoResult,
  assert, ◌>>◌, IsU16, IsU64, le→leb,
}
use erofs_utils_rust.Metadata.Consts.{erofs_dirent_size}
use erofs_utils_rust.Metadata.LeBytes.{
  get_u16, get_u64, set_u16, set_u64, field, get_u16-set_u16, get_u64-set_u64,
}

pub record ErofsDirent : Type 0 where
  pub nid : Bytes
  pub nameoff : Bytes
  pub file_type : ℕ
  pub reserved : ℕ

unfoldable pub nid : ErofsDirent → ℕ
nid d = get_u64 d.nid

unfoldable pub nameoff : ErofsDirent → ℕ
nameoff d = get_u16 d.nameoff

unfoldable pub file_type : ErofsDirent → ℕ
file_type d = d.file_type

unfoldable pub new : ℕ → ℕ → ℕ → ErofsDirent
new nid nameoff file_type = record {
  nid = set_u64 nid;
  nameoff = set_u16 nameoff;
  file_type = file_type;
  reserved = 0;
}

unfoldable pub as_bytes : ErofsDirent → Bytes
as_bytes d = d.nid ++ (d.nameoff ++ (d.file_type ∷ d.reserved ∷ []))

-- `cast_ref::<ErofsDirent>(data)`.
unfoldable pub cast_ref : Bytes → IoResult ErofsDirent
cast_ref b = do
  assert (leb erofs_dirent_size (length b))
  ok (record {
    nid = field b 0 8;
    nameoff = field b 8 2;
    file_type = get_or b 10 0;
    reserved = get_or b 11 0;
  })

pub length-as_bytes : (n o ft : ℕ) → length (as_bytes (new n o ft)) ≡ erofs_dirent_size
unfolding as_bytes new
length-as_bytes n o ft = refl

-- The cast reads back the entry that was written, whatever follows it.
pub cast_ref-as_bytes :
    (n o ft : ℕ) (rest : Bytes) → cast_ref (as_bytes (new n o ft) ++ rest) ≡ ok (new n o ft)
unfolding cast_ref as_bytes new
cast_ref-as_bytes n o ft rest = rw (
    le→leb erofs_dirent_size
      (suc (suc (suc (suc (suc (suc (suc (suc (suc (suc (suc (suc (length rest)))))))))))))
      (omega arith))

pub accessors-new :
    (n o ft : ℕ)
    → IsU64 n
    → IsU16 o
    → (nid (new n o ft) ≡ n) × (nameoff (new n o ft) ≡ o) × (file_type (new n o ft) ≡ ft)
unfolding nid nameoff file_type new
accessors-new n o ft hn ho = (get_u64-set_u64 n hn, get_u16-set_u16 o ho, refl)

pub nameoff-new : (n o ft : ℕ) → IsU16 o → nameoff (new n o ft) ≡ o
unfolding nameoff new
nameoff-new n o ft ho = get_u16-set_u16 o ho

pub cast_ref_self : (n o ft : ℕ) → cast_ref (as_bytes (new n o ft)) ≡ ok (new n o ft)
cast_ref_self n o ft = rw append-nil at (cast_ref-as_bytes n o ft [])
