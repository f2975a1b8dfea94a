-- ===== src/Client/Write.antt =====
-- client/src/fs/write.rs: writes are kept in the handle's buffer until `release` uploads the file.
pub mod Merge
pub mod Order
pub mod Release
pub mod Sequence
use rust_remote_fs.Prelude.{
  ℕ, ◌+◌, ◌%◌, Bool, true, false, Option, none, some, List, [], ◌∷◌, ◌++◌, length, take, drop,
  is_empty, nat_eq, ltb, if◌then◌else◌,
}
use rust_remote_fs.HashMap
use rust_remote_fs.HashMap.{HashMap}
use rust_remote_fs.Radix.{u32_mod}
use rust_remote_fs.Wire.{Bytes}
use rust_remote_fs.Outcome.{reply, reply_error, reads, some_or, eio, ebadf, ◌>>=◌, ◌>>◌, add_u64}
use rust_remote_fs.Client.Platform.{Platform}
use rust_remote_fs.Client.State.{OpenWriteFile, RemoteFs, Sys, Fuse, update, cache_remove}
use rust_remote_fs.Client.Api.{get_file_content_from_server, put_file_content_to_server}
use rust_remote_fs.Client.Attr.{resized, reserve, or_empty}

-- The vector, grown by zeros if the block ends past it.
abbrev grow : ℕ → Bytes → Bytes
grow end v = if ltb (length v) end then resized end v else v

-- `new_data_vec[start..end].copy_from_slice(&data)`, after the vector is long enough.
unfoldable pub apply_block : ℕ × Bytes → Bytes → Bytes
unfolding resized
apply_block (start, block) v =
    let grown = grow (start + length block) v in
    take start grown ++ (block ++ drop (start + length block) grown)

module _ (P : Platform) where
  abbrev pub write_to : ℕ → ℕ → Bytes → Option OpenWriteFile → Fuse P ℕ
  write_to fh offset block none = reply_error ebadf
  write_to fh offset block (some open_file) = do
    update P (λ fs. record fs {
      open_files =
          HashMap.insert fh
            (record open_file { buffer = HashMap.insert offset block open_file.buffer })
            fs.open_files;
    })
    reply (length block % u32_mod)

  unfoldable pub write : (fh offset : ℕ) → Bytes → Fuse P ℕ
  write fh offset block = do
    found ← reads (λ s. HashMap.get fh s.fs.open_files)
    write_to fh offset block found

  -- The loop over the buffer. The end of a block is computed on `usize`, and the vector cannot grow
  -- past `isize::MAX`.
  unfoldable pub apply_blocks : List (ℕ × Bytes) → Bytes → Fuse P Bytes
  unfolding apply_block
  apply_blocks [] v = reply v
  apply_blocks ((start, block) ∷ blocks) v = do
    end ← add_u64 start (length block)
    reserve end v
    apply_blocks blocks (apply_block (start, block) v)

  unfoldable pub upload : ℕ → OpenWriteFile → Fuse P Unit
  unfolding apply_blocks
  upload ino open_file = do
    old_content ← get_file_content_from_server P open_file.path
    blocks ← reads (λ s. P.hash_order s.world open_file.buffer)
    new_data ← apply_blocks blocks (or_empty old_content)
    put_result ← put_file_content_to_server P open_file.path new_data
    some_or eio put_result
    cache_remove P ino

  abbrev pub release_file : ℕ → Option OpenWriteFile → Fuse P Unit
  release_file ino none = reply tt
  release_file ino (some open_file) =
      if is_empty open_file.buffer then reply tt else upload ino open_file

  -- The handle is closed in every case, also when the upload fails.
  unfoldable pub release : (ino fh : ℕ) → Fuse P Unit
  unfolding upload
  release ino fh = do
    found ← reads (λ s. HashMap.get fh s.fs.open_files)
    update P (λ fs. record fs { open_files = HashMap.remove fh fs.open_files })
    release_file ino found

  unfoldable pub flush : (ino fh : ℕ) → Fuse P Unit
  flush ino fh = reply tt
