-- ===== src/Metadata/Xattr.antt =====
-- src/metadata/mod.rs: xattr names as a prefix index and a suffix, and the size of the xattr body.
pub mod Names
pub mod Sizes
use erofs_utils_rust.Base.{
  ℕ, ◌+◌, ◌/◌, [], ◌∷◌, ◌++◌, List, Bytes, bytes_of, Option, none, some, ◌==◌, if◌then◌else◌, add64,
  sub64, u16, length,
}
use erofs_utils_rust.Metadata.Consts.{erofs_xattr_ibody_header_size, erofs_xattr_entry_header_size}
use erofs_utils_rust.Metadata.RoundUp.{round_up}

-- (prefix index, name suffix, value).
abbrev pub Xattr : Type 0
Xattr = ℕ × Bytes × Bytes

abbrev pub erofs_xattr_index_user : ℕ
erofs_xattr_index_user = 1

abbrev pub erofs_xattr_index_posix_acl_access : ℕ
erofs_xattr_index_posix_acl_access = 2

abbrev pub erofs_xattr_index_posix_acl_default : ℕ
erofs_xattr_index_posix_acl_default = 3

abbrev pub erofs_xattr_index_trusted : ℕ
erofs_xattr_index_trusted = 4

abbrev pub erofs_xattr_index_lustre : ℕ
erofs_xattr_index_lustre = 5

abbrev pub erofs_xattr_index_security : ℕ
erofs_xattr_index_security = 6

unfoldable pub erofs_xattr_prefix : ℕ → Option Bytes
erofs_xattr_prefix index =
    if index == erofs_xattr_index_user
    then some (bytes_of "user.")
    else if index == erofs_xattr_index_posix_acl_access
    then some (bytes_of "system.posix_acl_access")
    else if index == erofs_xattr_index_posix_acl_default
    then some (bytes_of "system.posix_acl_default")
    else if index == erofs_xattr_index_trusted
    then some (bytes_of "trusted.")
    else if index == erofs_xattr_index_lustre
    then some (bytes_of "lustre.")
    else if index == erofs_xattr_index_security
    then some (bytes_of "security.")
    else none

-- `name.strip_prefix(prefix)` of the standard library.
unfoldable pub strip_prefix : Bytes → Bytes → Option Bytes
strip_prefix name [] = some name
strip_prefix [] (p ∷ prefix) = none
strip_prefix (c ∷ name) (p ∷ prefix) = if c == p then strip_prefix name prefix else none

unfoldable pub erofs_xattr_name_split : Bytes → Option (ℕ × Bytes)
erofs_xattr_name_split name = elim (strip_prefix name (bytes_of "security.")) [
  | some suffix ↦ some (erofs_xattr_index_security, suffix)
  | none ↦ elim (strip_prefix name (bytes_of "trusted.")) [
    | some suffix ↦ some (erofs_xattr_index_trusted, suffix)
    | none ↦ elim (strip_prefix name (bytes_of "user.")) [
      | some suffix ↦ some (erofs_xattr_index_user, suffix)
      | none ↦ elim (strip_prefix name (bytes_of "system.posix_acl_access")) [
        | some suffix ↦ some (erofs_xattr_index_posix_acl_access, suffix)
        | none ↦ elim (strip_prefix name (bytes_of "system.posix_acl_default")) [
          | some suffix ↦ some (erofs_xattr_index_posix_acl_default, suffix)
          | none ↦ elim (strip_prefix name (bytes_of "lustre.")) [
            | some suffix ↦ some (erofs_xattr_index_lustre, suffix)
            | none ↦ none
          ]
        ]
      ]
    ]
  ]
]

-- `round_up(EROFS_XATTR_ENTRY_HEADER_SIZE + suffix.len() + value.len(), 4)`.
unfoldable pub entry_size : Bytes → Bytes → ℕ
entry_size suffix value =
    round_up (add64 (add64 erofs_xattr_entry_header_size (length suffix)) (length value)) 4

-- The loop of `xattr_ibody_size`, with `size` so far.
unfoldable pub ibody_size_loop : ℕ → List Xattr → ℕ
ibody_size_loop size [] = size
ibody_size_loop size ((_, suffix, value) ∷ xattrs) =
    ibody_size_loop (add64 size (entry_size suffix value)) xattrs

unfoldable pub xattr_ibody_size : List Xattr → ℕ
xattr_ibody_size [] = 0
xattr_ibody_size (x ∷ xattrs) = ibody_size_loop erofs_xattr_ibody_header_size (x ∷ xattrs)

unfoldable pub xattr_icount : ℕ → ℕ
xattr_icount size = if size == 0 then 0 else u16 (sub64 (round_up size 4) 8 / 4)
