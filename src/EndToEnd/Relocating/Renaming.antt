-- ===== src/EndToEnd/Relocating/Renaming.antt =====
-- `rename` of client/src/fs/rename.rs at a tree of the server's files and directories.
use rust_remote_fs.Prelude.{ℕ, ◌≡◌, refl, ◌≢◌, ◌⊎◌, inl, inr, none, some, [], Text, nat_eq, text_eq}
use rust_remote_fs.Prelude.Paths.{Under}
use rust_remote_fs.HashMap
use rust_remote_fs.Outcome.{Errno, Outcome, ok, err, ◌>>=◌}
use rust_remote_fs.Server.Disk.{Disk, IsDisk}
use rust_remote_fs.Server.Disk.Store.{IsStore}
use rust_remote_fs.Server.Handlers.{file_path}
use rust_remote_fs.Server.Routes.{Web}
use rust_remote_fs.Client.Platform.{Platform}
use rust_remote_fs.Client.State.{Sys, path_of, child_path}
use rust_remote_fs.Client.Delete.{is_dir}
use rust_remote_fs.Client.Rename.{rename}
use rust_remote_fs.EndToEnd.Network.{IsServed}
use rust_remote_fs.EndToEnd.ReadBack.{IsWhole}
use rust_remote_fs.EndToEnd.Relocating.Trees.{
  Tree, is_dir_tree, Proper, Room, AllPlain, Stands, Delivered, Delivered-Arrived, Kept,
}
use rust_remote_fs.EndToEnd.Relocating.Elsewhere.{Only, Apart}
use rust_remote_fs.EndToEnd.Relocating.{PlainPath}
use rust_remote_fs.EndToEnd.Relocating.Whole.{tree-Moves}

module _ {P : Platform} {D : Disk} {web : Web D} {data_dir : Text} (L : IsDisk D)
    (whole : IsWhole L web) (S : IsStore L) (s : Sys P)
    (N : IsServed P D web data_dir s.fs.config.server_url) where
  -- What a rename comes to: nothing has changed but in the two places. After an error each file of
  -- the tree is in one of them; after a success all are in the new one and none is in the old one.
  abbrev pub Relocates : Tree → Text → Text → Outcome (Unit {0}) × Sys P → Type 0
  Relocates t p q result =
      Only L data_dir p q (N.state s.world).disk (N.state result.1.world).disk
      × (((e : Errno) × (result.0 ≡ err e) × Kept L data_dir t p q (N.state result.1.world).disk)
          ⊎ ((result.0 ≡ ok tt)
              × Delivered L data_dir t q (N.state result.1.world).disk
              × ((r : Text)
                  → Under (file_path data_dir p) r
                  → L.content r (N.state result.1.world).disk ≡ none)))

  -- A `rename` of a known path between known parents, when the server lists a finite tree of files
  -- and directories there, of the type that the client knows, its files hold what the tree says
  -- with no write under way, its names differ in each directory and have no slash, the paths of the
  -- tree in the old and in the new place are clean and not empty and go into URLs as they are,
  -- neither place lies in the other, the stack has room for the depth of the tree, the network
  -- brings each request to the server's routes and the answer back, files without a write under way
  -- open with their content, bodies come whole, and the disk takes what it reports to take and its
  -- operations touch only their path and what is below it: nothing has changed at clean paths
  -- elsewhere on the disk, and it ends either with an error, and then each file of the tree is in
  -- the old place, or is in the new one with its content once the writes that tokio has taken for
  -- it are done without an error, or with success, and then each is in the new place in this sense
  -- and none is left in the old one.
  pub rename-Relocates :
      (t : Tree) (depth parent inode newparent : ℕ) (old_parent name new_parent newname : Text)
      → HashMap.get parent s.fs.inode_to_path ≡ some old_parent
      → HashMap.get newparent s.fs.inode_to_path ≡ some new_parent
      → HashMap.get (child_path old_parent name) s.fs.path_to_inode ≡ some inode
      → is_dir (HashMap.get inode s.fs.inode_to_type) ≡ is_dir_tree t
      → Room depth t
      → Proper t
      → AllPlain (PlainPath L whole S s.fs N) t (child_path old_parent name)
      → AllPlain (PlainPath L whole S s.fs N) t (child_path new_parent newname)
      → child_path old_parent name ≢ []
      → child_path new_parent newname ≢ []
      → Apart L data_dir (child_path old_parent name) (child_path new_parent newname)
      → Stands L data_dir t (child_path old_parent name) (N.state s.world).disk
      → Relocates t
          (child_path old_parent name)
          (child_path new_parent newname)
          (rename P depth parent (some name) newparent (some newname) s)
  unfolding rename path_of ◌>>=◌
  rename-Relocates t depth parent inode newparent old_parent name new_parent newname mapped
        new_mapped known kind room proper plain_p plain_q ne_p ne_q apart stands =
      let p = child_path old_parent name in
      let q = child_path new_parent newname in
      let (w', only, result) =
        tree-Moves L whole S s.fs N t depth p q s.world room proper plain_p plain_q ne_p ne_q apart
          stands in
      elim result [
        | inl ((e, failed, kept)) ↦
            rw (mapped, new_mapped, known, kind, failed) (only, inl (e, refl, kept))
        | inr ((done, arrived, gone)) ↦
            rw (mapped, new_mapped, known, kind, done)
              (only, inr (refl, Delivered-Arrived L data_dir t q (N.state w').disk arrived, gone))
      ]
