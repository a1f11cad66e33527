-- ===== src/Metadata/Xattr/Names.antt =====
-- Splitting a name and putting the prefix back are inverse.
use mathlib.Core.Option
use erofs_utils_rust.Base.{ℕ, ◌≡◌, refl, arith, [], ◌∷◌, ◌++◌, Bytes, bytes_of, some}
use erofs_utils_rust.Metadata.Xattr.{strip_prefix, erofs_xattr_prefix, erofs_xattr_name_split}

strip_prefix-eq : (name prefix s : Bytes) → strip_prefix name prefix ≡ some s → prefix ++ s ≡ name
unfolding strip_prefix
strip_prefix-eq name [] s h = ground arith
strip_prefix-eq [] (p ∷ prefix) s h = cc
strip_prefix-eq (c ∷ name) (p ∷ prefix) s h = ground (arith, strip_prefix-eq name prefix s)

-- Where a name splits, the prefix of the index in front of the suffix is the name.
pub prefix-name_split :
    (name : Bytes) (i : ℕ) (s : Bytes)
    → erofs_xattr_name_split name ≡ some (i, s)
    → Option.map (λ p. p ++ s) (erofs_xattr_prefix i) ≡ some name
unfolding erofs_xattr_name_split erofs_xattr_prefix
prefix-name_split name i s h = ground (
  arith,
  strip_prefix-eq name (bytes_of "security.") s,
  strip_prefix-eq name (bytes_of "trusted.") s,
  strip_prefix-eq name (bytes_of "user.") s,
  strip_prefix-eq name (bytes_of "system.posix_acl_access") s,
  strip_prefix-eq name (bytes_of "system.posix_acl_default") s,
  strip_prefix-eq name (bytes_of "lustre.") s,
)

-- The six known prefixes.
split_all :
    (s : Bytes)
    → (erofs_xattr_name_split (bytes_of "user." ++ s) ≡ some (1, s))
      × (erofs_xattr_name_split (bytes_of "system.posix_acl_access" ++ s) ≡ some (2, s))
      × (erofs_xattr_name_split (bytes_of "system.posix_acl_default" ++ s) ≡ some (3, s))
      × (erofs_xattr_name_split (bytes_of "trusted." ++ s) ≡ some (4, s))
      × (erofs_xattr_name_split (bytes_of "lustre." ++ s) ≡ some (5, s))
      × (erofs_xattr_name_split (bytes_of "security." ++ s) ≡ some (6, s))
unfolding erofs_xattr_name_split strip_prefix
split_all s = (refl, refl, refl, refl, refl, refl)

-- Every known prefix in front of any suffix splits into its index and that suffix.
pub name_split-prefix :
    (i : ℕ) (p s : Bytes)
    → erofs_xattr_prefix i ≡ some p
    → erofs_xattr_name_split (p ++ s) ≡ some (i, s)
unfolding erofs_xattr_prefix
name_split-prefix i p s h =
    let (user, access, default, trusted, lustre, security) = split_all s in
    ground (arith, user, access, default, trusted, lustre, security)
