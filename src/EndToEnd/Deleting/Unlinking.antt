-- ===== src/EndToEnd/Deleting/Unlinking.antt =====
-- `unlink` of client/src/fs/delete.rs at a directory of the server with a tree below it.
use rust_remote_fs.Prelude.{ℕ, ◌≡◌, refl, ◌≢◌, some, [], Text, nat_eq, text_eq}
use rust_remote_fs.HashMap
use rust_remote_fs.Outcome.{ok, ◌>>=◌}
use rust_remote_fs.Server.Disk.{Disk}
use rust_remote_fs.Server.Disk.Tree.{Removed, IsTree}
use rust_remote_fs.Server.Handlers.{file_path}
use rust_remote_fs.Server.Routes.{Web}
use rust_remote_fs.Client.Attributes.{directory}
use rust_remote_fs.Client.Platform.{Platform, IsLru}
use rust_remote_fs.Client.State.{Sys, path_of, child_path}
use rust_remote_fs.Client.Delete.{is_dir, forget, unlink}
use rust_remote_fs.Client.Delete.Effects.{Forgets, forget-Forgets}
use rust_remote_fs.EndToEnd.Network.{IsServed}
use rust_remote_fs.EndToEnd.Deleting.{recursive_delete-Clears}
use rust_remote_fs.EndToEnd.Deleting.Trees.{Within}

module _ {P : Platform} {D : Disk} {web : Web D} {data_dir : Text} (L : IsLru P) (T : IsTree D)
    (s : Sys P) (N : IsServed P D web data_dir s.fs.config.server_url) where
  pub unlink-Removed :
      (depth parent inode : ℕ) (parent_path name : Text)
      → HashMap.get parent s.fs.inode_to_path ≡ some parent_path
      → HashMap.get (child_path parent_path name) s.fs.path_to_inode ≡ some inode
      → HashMap.get inode s.fs.inode_to_type ≡ some directory
      → child_path parent_path name ≢ []
      → Within D data_dir N.urls.Plain depth (child_path parent_path name) (N.state s.world).disk
      → let r = unlink P depth parent (some name) s in
        (r.0 ≡ ok tt)
        × Forgets P (child_path parent_path name) inode s.fs r.1.fs
        × Removed D
            (file_path data_dir (child_path parent_path name))
            (N.state s.world).disk
            (N.state r.1.world).disk
  unfolding unlink path_of forget is_dir ◌>>=◌
  unlink-Removed depth parent inode parent_path name mapped known kind ne within =
      let path = child_path parent_path name in
      let (w, cleared, removed) = recursive_delete-Clears s.fs N T depth path s.world ne within in
      rw (mapped, known, kind, cleared)
        (refl, forget-Forgets P L path inode (record { fs = s.fs; world = w }), removed)
