-- ===== src/Fs/FileData.antt =====
-- src/fs/data.rs: `write_file_data_to`, `read_file_data_sync` and `read_file_data`.
pub mod Equivalence
pub mod NoPanic
use erofs_utils_rust.Base.{
  ℕ, ◌-◌, [], Bytes, leb, ◌==◌, ◌||◌, if◌then◌else◌, min, IoResult, ok, err, invalid_data,
}
use erofs_utils_rust.Metadata.Consts.{
  erofs_inode_flat_plain, erofs_inode_flat_inline, erofs_inode_chunk_based,
}
use erofs_utils_rust.Metadata.Inode
use erofs_utils_rust.Metadata.Inode.{ErofsInode}
use erofs_utils_rust.Fs.Reader.{ErofsReader}
use erofs_utils_rust.Fs.Flat.{read_flat_data_vec, write_flat_data_to}
use erofs_utils_rust.Fs.Chunks.{read_chunk_data_sync, write_chunk_data_to}

unfoldable pub write_file_data_to :
    ErofsReader → ℕ → ErofsInode → ℕ → ℕ → Bytes → IoResult (Bytes × ℕ)
write_file_data_to r nid inode offset size w =
    if leb (Inode.size inode) offset
    then ok (w, 0)
    else (let actual_size = min size (Inode.size inode - offset) in
        let layout = Inode.data_layout inode in
        if layout == erofs_inode_flat_plain || layout == erofs_inode_flat_inline
        then write_flat_data_to r nid inode offset actual_size w
        else if layout == erofs_inode_chunk_based
        then write_chunk_data_to r nid inode offset actual_size w
        else err invalid_data)

-- `read_file_data` differs only in calling the async copy of the chunk loop.
unfoldable pub read_file_data_sync : ErofsReader → ℕ → ErofsInode → ℕ → ℕ → IoResult Bytes
read_file_data_sync r nid inode offset size =
    if leb (Inode.size inode) offset
    then ok []
    else (let actual_size = min size (Inode.size inode - offset) in
        let layout = Inode.data_layout inode in
        if layout == erofs_inode_flat_plain || layout == erofs_inode_flat_inline
        then read_flat_data_vec r nid inode offset actual_size
        else if layout == erofs_inode_chunk_based
        then read_chunk_data_sync r nid inode offset actual_size
        else err invalid_data)
