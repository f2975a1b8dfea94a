-- ===== src/Client/Rename.antt =====
-- client/src/fs/rename.rs: a move made of copies and deletions on the server.
pub mod Effects
use rust_remote_fs.Prelude.{
  ℕ, zero, suc, Bool, true, false, Option, none, some, List, [], ◌∷◌, Text, nat_eq, text_eq,
  if◌then◌else◌,
}
use rust_remote_fs.HashMap
use rust_remote_fs.Wire.{RemoteEntry}
use rust_remote_fs.Outcome.{reply, abort, reads, some_or, unwrap, eio, enoent, ◌>>=◌, ◌>>◌}
use rust_remote_fs.Client.Cache
use rust_remote_fs.Client.Platform.{Platform}
use rust_remote_fs.Client.State.{RemoteFs, Fuse, update, path_of, child_path}
use rust_remote_fs.Client.Api.{
  get_files_from_server, get_file_content_from_server, put_file_content_to_server, delete_resource,
  create_directory,
}
use rust_remote_fs.Client.Delete.{is_directory, is_dir, below}

module _ (P : Platform) where
  -- Copy and delete, for one file.
  unfoldable pub move_file : (old_path new_path : Text) → Fuse P Unit
  move_file old_path new_path = do
    fetched ← get_file_content_from_server P old_path
    content ← some_or enoent fetched
    stored ← put_file_content_to_server P new_path content
    some_or eio stored
    deleted ← delete_resource P old_path
    some_or eio deleted

  -- The loop over the entries, with the recursive call as a parameter.
  unfoldable pub move_entries :
      (Text → Text → Fuse P Unit) → Text → Text → List RemoteEntry → Fuse P Unit
  unfolding move_file
  move_entries recurse old_path new_path [] = reply tt
  move_entries recurse old_path new_path (entry ∷ entries) = do
    if is_directory entry
        then recurse (below old_path entry.name) (below new_path entry.name)
        else move_file (below old_path entry.name) (below new_path entry.name)
    move_entries recurse old_path new_path entries

  -- The depth is the number of calls that fit on the stack: past it the process is aborted.
  unfoldable pub recursive_move_client_side : (depth : ℕ) → (old_path new_path : Text) → Fuse P Unit
  unfolding move_entries
  recursive_move_client_side zero old_path new_path = abort
  recursive_move_client_side (suc depth) old_path new_path = do
    created ← create_directory P new_path
    some_or eio created
    listed ← get_files_from_server P old_path
    entry_list ← some_or eio listed
    move_entries (recursive_move_client_side depth) old_path new_path entry_list
    deleted ← delete_resource P old_path
    some_or eio deleted

  unfoldable pub move_on_server : (depth : ℕ) → Bool → (old_path new_path : Text) → Fuse P Unit
  unfolding move_file
  move_on_server depth true old_path new_path = recursive_move_client_side depth old_path new_path
  move_on_server depth false old_path new_path = move_file old_path new_path

  -- The inode keeps its number under the new path.
  abbrev pub repath : Text → Text → Option ℕ → RemoteFs P → RemoteFs P
  repath old_path new_path none fs = fs
  repath old_path new_path (some inode) fs = record fs {
    attribute_cache = Cache.remove P inode fs.attribute_cache;
    path_to_inode = HashMap.insert new_path inode (HashMap.remove old_path fs.path_to_inode);
    inode_to_path = HashMap.insert inode new_path fs.inode_to_path;
  }

  abbrev pub uncache : Option ℕ → RemoteFs P → RemoteFs P
  uncache none fs = fs
  uncache (some inode) fs = record fs { attribute_cache = Cache.remove P inode fs.attribute_cache }

  abbrev pub uncache_path : Text → RemoteFs P → RemoteFs P
  uncache_path path fs = uncache (HashMap.get path fs.path_to_inode) fs

  -- What a successful move does to the maps and the cache.
  unfoldable pub update_maps :
      (old_path new_path old_parent_path new_parent_path : Text) → RemoteFs P → RemoteFs P
  update_maps old_path new_path old_parent_path new_parent_path fs = uncache_path new_parent_path (
      uncache_path old_parent_path
        (repath old_path new_path (HashMap.get old_path fs.path_to_inode) fs))

  unfoldable pub rename :
      (depth parent : ℕ) → Option Text → (newparent : ℕ) → Option Text → Fuse P Unit
  unfolding update_maps
  rename depth parent name newparent newname = do
    old_parent_path ← path_of P parent
    new_parent_path ← path_of P newparent
    old_name ← unwrap name
    new_name ← unwrap newname
    let old_path = child_path old_parent_path old_name
    let new_path = child_path new_parent_path new_name
    known ← reads (λ s. HashMap.get old_path s.fs.path_to_inode)
    inode ← some_or enoent known
    kind ← reads (λ s. HashMap.get inode s.fs.inode_to_type)
    move_on_server depth (is_dir kind) old_path new_path
    update P (update_maps old_path new_path old_parent_path new_parent_path)
