-- ===== src/Client/Delete.antt =====
-- client/src/fs/delete.rs: `rmdir`, `unlink` and the recursive deletion of a directory.
pub mod Effects
use rust_remote_fs.Prelude.{
  ℕ, zero, suc, Bool, true, false, Option, none, some, List, [], ◌∷◌, ◌++◌, Text, bytes, is_empty,
  nat_eq, text_eq, ite, if◌then◌else◌,
}
use rust_remote_fs.HashMap
use rust_remote_fs.Wire.{RemoteEntry}
use rust_remote_fs.Outcome.{
  reply, reply_error, abort, reads, some_or, unwrap, eio, enoent, enotempty, ◌>>=◌, ◌>>◌,
}
use rust_remote_fs.Client.Attributes.{FileType, directory, regular_file}
use rust_remote_fs.Client.Cache
use rust_remote_fs.Client.Platform.{Platform}
use rust_remote_fs.Client.State.{Fuse, update, path_of, child_path}
use rust_remote_fs.Client.Api.{get_files_from_server, delete_resource}

-- `entry.kind == "directory"`
unfoldable pub is_directory : RemoteEntry → Bool
is_directory entry = ite (text_eq.dec entry.kind (bytes "directory")) true false

-- `inode_to_type.get(&inode).copied() == Some(FileType::Directory)`
unfoldable pub is_dir : Option FileType → Bool
is_dir (some directory) = true
is_dir (some regular_file) = false
is_dir none = false

-- The path of an entry below a directory that is not the root.
abbrev pub below : Text → Text → Text
below path name = path ++ (bytes "/" ++ name)

module _ (P : Platform) where
  -- The loop over the entries, with the recursive call as a parameter.
  unfoldable pub delete_entries : (Text → Fuse P Unit) → Text → List RemoteEntry → Fuse P Unit
  delete_entries recurse path [] = reply tt
  delete_entries recurse path (entry ∷ entries) = do
    if is_directory entry
        then recurse (below path entry.name)
        else (do res ← delete_resource P (below path entry.name); some_or eio res)
    delete_entries recurse path entries

  -- The depth is the number of calls that fit on the stack: past it the process is aborted.
  unfoldable pub recursive_delete : (depth : ℕ) → Text → Fuse P Unit
  unfolding delete_entries
  recursive_delete zero path = abort
  recursive_delete (suc depth) path = do
    listed ← get_files_from_server P path
    entry_list ← some_or eio listed
    delete_entries (recursive_delete depth) path entry_list
    res ← delete_resource P path
    some_or eio res

  -- What `unlink` does with the inode's maps and cache entry.
  unfoldable pub forget : ℕ → Text → Fuse P Unit
  forget inode full_path = update P (λ fs. record fs {
    attribute_cache = Cache.remove P inode fs.attribute_cache;
    path_to_inode = HashMap.remove full_path fs.path_to_inode;
    inode_to_path = HashMap.remove inode fs.inode_to_path;
    inode_to_type = HashMap.remove inode fs.inode_to_type;
  })

  unfoldable pub delete_on_server : (depth : ℕ) → Bool → Text → Fuse P Unit
  delete_on_server depth true full_path = recursive_delete depth full_path
  delete_on_server depth false full_path = do res ← delete_resource P full_path; some_or eio res

  unfoldable pub unlink : (depth parent : ℕ) → Option Text → Fuse P Unit
  unfolding delete_on_server
  unlink depth parent name = do
    parent_path ← path_of P parent
    filename ← unwrap name
    let full_path = child_path parent_path filename
    known ← reads (λ s. HashMap.get full_path s.fs.path_to_inode)
    inode ← some_or enoent known
    kind ← reads (λ s. HashMap.get inode s.fs.inode_to_type)
    delete_on_server depth (is_dir kind) full_path
    forget inode full_path

  unfoldable pub rmdir : (depth parent : ℕ) → Option Text → Fuse P Unit
  rmdir depth parent name = do
    parent_path ← path_of P parent
    dirname ← unwrap name
    listed ← get_files_from_server P (child_path parent_path dirname)
    entry_list ← some_or eio listed
    if is_empty entry_list then unlink depth parent name else reply_error enotempty
