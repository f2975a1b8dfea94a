-- ===== src/Client/Rename/Effects.antt =====
-- What `rename` of client/src/fs/rename.rs leaves of the client's state.
use rust_remote_fs.Prelude.{ℕ, ◌≡◌, refl, Option, none, some, Text, arith, nat_eq, text_eq, ite}
use rust_remote_fs.HashMap
use rust_remote_fs.HashMap.{get-remove, get-insert}
use rust_remote_fs.Outcome.{Outcome, ok, err, panic, resume, ◌>>=◌}
use rust_remote_fs.Client.Cache.Laws
use rust_remote_fs.Client.Cache.Laws.{answer}
use rust_remote_fs.Client.Platform.{Platform, IsLru}
use rust_remote_fs.Client.State.{RemoteFs, Sys, update, path_of, child_path}
use rust_remote_fs.Client.Delete.{is_dir}
use rust_remote_fs.Client.Rename.{repath, uncache, update_maps, move_on_server, rename}
use rust_remote_fs.Client.Inodes.Removal.{move_on_server-Keeps}

module _ (P : Platform) where
  -- The inode has gone from the old path to the new one, and all else is known as before.
  pub record Moves (old_path new_path : Text) (inode : ℕ) (fs after : RemoteFs P) : Type 0 where
    pub paths :
        (q : Text)
        → HashMap.get q after.path_to_inode
          ≡ ite
              (text_eq.dec new_path q)
              (some inode)
              (ite (text_eq.dec old_path q) none (HashMap.get q fs.path_to_inode))
    pub inodes :
        (j : ℕ)
        → HashMap.get j after.inode_to_path
          ≡ ite (nat_eq.dec inode j) (some new_path) (HashMap.get j fs.inode_to_path)
    pub no_answer : (now : ℕ) → answer P inode now after.attribute_cache ≡ none

  repath-Moves :
      IsLru P
      → (old_path new_path : Text) (inode : ℕ) (fs : RemoteFs P)
      → Moves old_path new_path inode fs (repath P old_path new_path (some inode) fs)
  repath-Moves L old_path new_path inode fs =
      let forgotten = HashMap.remove old_path fs.path_to_inode in
      record {
        paths = λ q.
            ground (
              arith,
              get-insert new_path q inode forgotten,
              get-remove old_path q fs.path_to_inode,
            );
        inodes = λ j. get-insert inode j new_path fs.inode_to_path;
        no_answer = λ now. (Laws.get-remove P L inode inode now fs.attribute_cache).0;
      }

  uncache-Moves :
      IsLru P
      → (old_path new_path : Text) (inode : ℕ) (fs after : RemoteFs P) (o : Option ℕ)
      → Moves old_path new_path inode fs after
      → Moves old_path new_path inode fs (uncache P o after)
  uncache-Moves L old_path new_path inode fs after none m = m
  uncache-Moves L old_path new_path inode fs after (some j) m = record {
    paths = m.paths;
    inodes = m.inodes;
    no_answer =
        λ now. Laws.get-remove_silent P L inode j now after.attribute_cache (m.no_answer now);
  }

  update_maps-Moves :
      IsLru P
      → (p q pp qp : Text) (inode : ℕ) (fs : RemoteFs P)
      → HashMap.get p fs.path_to_inode ≡ some inode
      → Moves p q inode fs (update_maps P p q pp qp fs)
  unfolding update_maps
  update_maps-Moves L p q pp qp inode fs known = rw known (
      uncache-Moves L p q inode fs _ _
        (uncache-Moves L p q inode fs _ _ (repath-Moves L p q inode fs)))

  abbrev pub Ends : Text → Text → ℕ → RemoteFs P → Outcome Unit → RemoteFs P → Type 0
  Ends p q inode fs (ok a) after = Moves p q inode fs after
  Ends p q inode fs (err e) after = after ≡ fs
  Ends p q inode fs panic after = after ≡ fs

  moved :
      IsLru P
      → (p q pp qp : Text) (inode : ℕ) (fs : RemoteFs P) (o : Outcome Unit) (u : Sys P) → u.fs ≡ fs
      → HashMap.get p fs.path_to_inode ≡ some inode
      → let r = resume o (λ a. update P (update_maps P p q pp qp)) u in Ends p q inode fs r.0 r.1.fs
  unfolding ◌>>=◌
  moved L p q pp qp inode fs (ok a) u same known =
      rw (← same) (update_maps-Moves L p q pp qp inode u.fs (rw (← same) at known))
  moved L p q pp qp inode fs (err e) u same known = same
  moved L p q pp qp inode fs panic u same known = same

  -- A `rename` of a known path from a known parent to a known parent, whatever the server answers:
  -- if it replies with success, the new path leads to the inode and the inode to the new path, the
  -- old path is not known unless it is the new one, no other path or inode leads elsewhere than
  -- before, and the cache answers for the inode at no time; if it replies with an error or panics,
  -- the client's state is as before. An `Lru` cache behaves as its crate documents.
  pub rename-Ends :
      IsLru P
      → (depth parent inode newparent : ℕ) (old_parent_path name new_parent_path newname : Text)
        (s : Sys P)
      → HashMap.get parent s.fs.inode_to_path ≡ some old_parent_path
      → HashMap.get newparent s.fs.inode_to_path ≡ some new_parent_path
      → HashMap.get (child_path old_parent_path name) s.fs.path_to_inode ≡ some inode
      → let r = rename P depth parent (some name) newparent (some newname) s in
        Ends
          (child_path old_parent_path name)
          (child_path new_parent_path newname)
          inode
          s.fs
          r.0
          r.1.fs
  unfolding rename path_of ◌>>=◌
  rename-Ends L depth parent inode newparent pp name qp newname s mapped new_mapped known =
      let p = child_path pp name in
      let q = child_path qp newname in
      let dir = is_dir (HashMap.get inode s.fs.inode_to_type) in
      let done = move_on_server P depth dir p q s in
      let same = (move_on_server-Keeps (λ fs. fs ≡ s.fs) depth dir p q).at s refl in
      rw (mapped, new_mapped, known) (moved L p q pp qp inode s.fs done.0 done.1 same known)
