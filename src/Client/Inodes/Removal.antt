-- ===== src/Client/Inodes/Removal.antt =====
-- Deleting and moving: the requests leave the maps alone until the server has done its part.
use rust_remote_fs.Prelude.{
  ℕ, zero, suc, ◌≡◌, Option, some, Bool, true, false, List, [], ◌∷◌, Text, nat_eq, text_eq,
}
use rust_remote_fs.HashMap
use rust_remote_fs.Wire.{RemoteEntry}
use rust_remote_fs.Outcome.{◌>>=◌, ◌>>◌, reads, eio, enoent}
use rust_remote_fs.Outcome.Keeps.{
  Keeps, Leads, keeps_rules, Keeps-modify, Keeps-reads-bind, Leads-some_or-bind, Leads-bind,
  Keeps-bind, Keeps-reads, Keeps-unwrap, Keeps-if, Keeps-some_or,
}
use rust_remote_fs.Client.Platform.{Platform}
use rust_remote_fs.Client.State.{RemoteFs, Sys, Fuse, update}
use rust_remote_fs.Client.Delete.{
  recursive_delete, delete_entries, delete_on_server, unlink, rmdir, forget, is_dir, is_directory,
  below,
}
use rust_remote_fs.Client.Rename.{
  move_file, move_entries, recursive_move_client_side, move_on_server, rename, update_maps,
}
use rust_remote_fs.Client.Inodes.{IsConsistent}
use rust_remote_fs.Client.Inodes.Steps.{
  OnFs, Safe, safe_rules, get_files-Keeps, get_content-Keeps, put_content-Keeps,
  delete_resource-Keeps, create_directory-Keeps, forget-Leads, path_of-Safe,
  update_maps-IsConsistent,
}

-- What only requests do changes nothing of the file system's state.
module _ {P : Platform} (I : RemoteFs P → Type 0) where
  delete_entries-Keeps :
      (recurse : Text → Fuse P Unit)
      → ((path : Text) → Keeps (OnFs I) (recurse path))
      → (path : Text) (entries : List RemoteEntry)
      → Keeps (OnFs I) (delete_entries P recurse path entries)
  unfolding delete_entries
  delete_entries-Keeps recurse keep path [] = search keeps_rules
  delete_entries-Keeps recurse keep path (entry ∷ entries) =
      Keeps-bind _ _
        (Keeps-if (is_directory entry) _ _ (keep (below path entry.name)) (
          Keeps-bind _ _ (delete_resource-Keeps I (below path entry.name))
            (λ res. Keeps-some_or eio res)))
        (λ _. delete_entries-Keeps recurse keep path entries)

  pub recursive_delete-Keeps :
      (depth : ℕ) (path : Text) → Keeps (OnFs I) (recursive_delete P depth path)
  unfolding recursive_delete
  recursive_delete-Keeps zero path = search keeps_rules
  recursive_delete-Keeps (suc depth) path =
      search
        (
          keeps_rules,
          get_files-Keeps I,
          delete_resource-Keeps I,
          delete_entries-Keeps (recursive_delete P depth) (recursive_delete-Keeps depth),
        )
        depth 8

  pub delete_on_server-Keeps :
      (depth : ℕ) (dir : Bool) (path : Text) → Keeps (OnFs I) (delete_on_server P depth dir path)
  unfolding delete_on_server
  delete_on_server-Keeps depth true path = recursive_delete-Keeps depth path
  delete_on_server-Keeps depth false path = search (keeps_rules, delete_resource-Keeps I)

  move_file-Keeps : (p q : Text) → Keeps (OnFs I) (move_file P p q)
  unfolding move_file
  move_file-Keeps p q =
      search (keeps_rules, get_content-Keeps I, put_content-Keeps I, delete_resource-Keeps I) depth
        9

  move_entries-Keeps :
      (recurse : Text → Text → Fuse P Unit)
      → ((p q : Text) → Keeps (OnFs I) (recurse p q))
      → (p q : Text) (entries : List RemoteEntry)
      → Keeps (OnFs I) (move_entries P recurse p q entries)
  unfolding move_entries
  move_entries-Keeps recurse keep p q [] = search keeps_rules
  move_entries-Keeps recurse keep p q (entry ∷ entries) =
      Keeps-bind _ _
        (Keeps-if (is_directory entry) _ _ (keep (below p entry.name) (below q entry.name))
          (move_file-Keeps (below p entry.name) (below q entry.name)))
        (λ _. move_entries-Keeps recurse keep p q entries)

  pub recursive_move-Keeps :
      (depth : ℕ) (p q : Text) → Keeps (OnFs I) (recursive_move_client_side P depth p q)
  unfolding recursive_move_client_side
  recursive_move-Keeps zero p q = search keeps_rules
  recursive_move-Keeps (suc depth) p q =
      search
        (
          keeps_rules,
          create_directory-Keeps I,
          get_files-Keeps I,
          delete_resource-Keeps I,
          move_entries-Keeps (recursive_move_client_side P depth) (recursive_move-Keeps depth),
        )
        depth 10

  pub move_on_server-Keeps :
      (depth : ℕ) (dir : Bool) (p q : Text) → Keeps (OnFs I) (move_on_server P depth dir p q)
  unfolding move_on_server
  move_on_server-Keeps depth true p q = recursive_move-Keeps depth p q
  move_on_server-Keeps depth false p q = move_file-Keeps p q

module _ {P : Platform} where
  -- The part of `unlink` behind the inode's lookup.
  unlink_known-Leads :
      (depth inode : ℕ) (path : Text)
      → Leads
          (OnFs (λ fs. IsConsistent fs × (HashMap.get path fs.path_to_inode ≡ some inode)))
          (OnFs IsConsistent)
          (reads {S = Sys P} (λ s. HashMap.get inode s.fs.inode_to_type) >>= λ kind.
            delete_on_server P depth (is_dir kind) path >> forget P inode path)
  unlink_known-Leads depth inode path =
      Leads-bind (λ s h. h.0) _ _ (Keeps-reads _)
        λ kind.
          Leads-bind (λ s h. h.0) _ _
            (delete_on_server-Keeps
              (λ fs. IsConsistent fs × (HashMap.get path fs.path_to_inode ≡ some inode)) depth
              (is_dir kind) path)
            λ _. forget-Leads inode path

  pub unlink-Safe : (depth parent : ℕ) (name : Option Text) → Safe (unlink P depth parent name)
  unfolding unlink
  unlink-Safe depth parent name = Keeps-bind _ _ (path_of-Safe parent) λ parent_path.
      Keeps-bind _ _ (Keeps-unwrap name) λ filename.
        Keeps-reads-bind _ _
          (Leads-some_or-bind enoent _ _ λ inode. unlink_known-Leads depth inode _)

  pub rmdir-Safe : (depth parent : ℕ) (name : Option Text) → Safe (rmdir P depth parent name)
  unfolding rmdir
  rmdir-Safe depth parent name = search (safe_rules, unlink-Safe) depth 9

  update_maps-Safe : (p q op np : Text) → Safe (update P (update_maps P p q op np))
  update_maps-Safe p q op np = Keeps-modify _ (λ s h. update_maps-IsConsistent p q op np s.fs h)

  pub rename-Safe :
      (depth parent : ℕ) (name : Option Text) (newparent : ℕ) (newname : Option Text)
      → Safe (rename P depth parent name newparent newname)
  unfolding rename
  rename-Safe depth parent name newparent newname =
      search (safe_rules, move_on_server-Keeps IsConsistent, update_maps-Safe) depth 12
