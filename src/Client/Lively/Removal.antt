-- ===== src/Client/Lively/Removal.antt =====
-- Deletions and moves: however they end, the counters and the buffers fit as before.
use rust_remote_fs.Prelude.{ℕ, Option, none, some, Text, inl, inr, Option-cases, text_eq, nat_eq}
use rust_remote_fs.HashMap
use rust_remote_fs.Outcome.Keeps.{Keeps, keeps_rules, Keeps-modify}
use rust_remote_fs.Client.Platform.{Platform}
use rust_remote_fs.Client.State.{RemoteFs, Fuse, update, path_of}
use rust_remote_fs.Client.Delete.{unlink, rmdir, forget}
use rust_remote_fs.Client.Rename.{rename, update_maps, uncache_path, repath}
use rust_remote_fs.Client.Inodes.Steps.{OnFs, get_files-Keeps}
use rust_remote_fs.Client.Inodes.Removal.{delete_on_server-Keeps, move_on_server-Keeps}
use rust_remote_fs.Client.Lively.{Fits}

module _ {P : Platform} (c : ℕ) where
  abbrev pub FitsFs : RemoteFs P → Type 0
  FitsFs fs = Fits c fs.next_inode fs.next_fh fs.open_files fs.config.cache_ttl_seconds

  abbrev pub Roomy : {A : Type 0} → Fuse P A → Type 0
  Roomy m = Keeps (OnFs FitsFs) m

  path_of-Roomy : (ino : ℕ) → Roomy (path_of P ino)
  unfolding path_of
  path_of-Roomy ino = search keeps_rules

  forget-Roomy : (inode : ℕ) (path : Text) → Roomy (forget P inode path)
  unfolding forget
  forget-Roomy inode path = Keeps-modify _ (λ s h. h)

  pub unlink-Roomy : (depth parent : ℕ) (name : Option Text) → Roomy (unlink P depth parent name)
  unfolding unlink
  unlink-Roomy depth parent name =
      search (keeps_rules, delete_on_server-Keeps FitsFs, forget-Roomy, path_of-Roomy) depth 12

  pub rmdir-Roomy : (depth parent : ℕ) (name : Option Text) → Roomy (rmdir P depth parent name)
  unfolding rmdir
  rmdir-Roomy depth parent name =
      search (keeps_rules, get_files-Keeps FitsFs, unlink-Roomy, path_of-Roomy) depth 9

  uncache_path-Fits : (path : Text) (fs : RemoteFs P) → FitsFs fs → FitsFs (uncache_path P path fs)
  uncache_path-Fits path fs h = elim (Option-cases (HashMap.get path fs.path_to_inode)) [
    | inl unknown ↦ rw unknown h
    | inr ((i, known)) ↦ rw known h
  ]

  repath-Fits :
      (p q : Text) (o : Option ℕ) (fs : RemoteFs P) → FitsFs fs → FitsFs (repath P p q o fs)
  repath-Fits p q none fs h = h
  repath-Fits p q (some i) fs h = h

  update_maps-Roomy : (p q op np : Text) → Roomy (update P (update_maps P p q op np))
  unfolding update_maps
  update_maps-Roomy p q op np =
      Keeps-modify _
        λ s h. uncache_path-Fits np _ (uncache_path-Fits op _ (repath-Fits p q _ s.fs h))

  pub rename-Roomy :
      (depth parent : ℕ) (name : Option Text) (newparent : ℕ) (newname : Option Text)
      → Roomy (rename P depth parent name newparent newname)
  unfolding rename
  rename-Roomy depth parent name newparent newname =
      search (keeps_rules, move_on_server-Keeps FitsFs, update_maps-Roomy, path_of-Roomy) depth 12
