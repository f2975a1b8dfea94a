-- ===== src/Client/Delete/Effects.antt =====
-- What `unlink` of client/src/fs/delete.rs leaves of the client's state.
use rust_remote_fs.Prelude.{ℕ, ◌≡◌, refl, none, some, Text, nat_eq, text_eq, ite}
use rust_remote_fs.HashMap
use rust_remote_fs.HashMap.{get-remove}
use rust_remote_fs.Outcome.{Outcome, ok, err, panic, resume, ◌>>=◌}
use rust_remote_fs.Client.Cache.Laws
use rust_remote_fs.Client.Cache.Laws.{answer}
use rust_remote_fs.Client.Platform.{Platform, IsLru}
use rust_remote_fs.Client.State.{RemoteFs, Sys, path_of, child_path}
use rust_remote_fs.Client.Delete.{is_dir, delete_on_server, forget, unlink}
use rust_remote_fs.Client.Inodes.Removal.{delete_on_server-Keeps}

module _ (P : Platform) where
  -- The client knows the path and its inode no more, and all else as before.
  pub record Forgets (path : Text) (inode : ℕ) (fs after : RemoteFs P) : Type 0 where
    pub paths :
        (q : Text)
        → HashMap.get q after.path_to_inode
          ≡ ite (text_eq.dec path q) none (HashMap.get q fs.path_to_inode)
    pub inodes :
        (j : ℕ)
        → HashMap.get j after.inode_to_path
          ≡ ite (nat_eq.dec inode j) none (HashMap.get j fs.inode_to_path)
    pub no_answer : (now : ℕ) → answer P inode now after.attribute_cache ≡ none

  pub forget-Forgets :
      IsLru P
      → (path : Text) (inode : ℕ) (s : Sys P) → Forgets path inode s.fs (forget P inode path s).1.fs
  unfolding forget ◌>>=◌
  forget-Forgets L path inode s = record {
    paths = λ q. get-remove path q s.fs.path_to_inode;
    inodes = λ j. get-remove inode j s.fs.inode_to_path;
    no_answer = λ now. (Laws.get-remove P L inode inode now s.fs.attribute_cache).0;
  }

  -- The state when the server has done its part, or has not.
  abbrev pub Ends : Text → ℕ → RemoteFs P → Outcome Unit → RemoteFs P → Type 0
  Ends path inode fs (ok a) after = Forgets path inode fs after
  Ends path inode fs (err e) after = after ≡ fs
  Ends path inode fs panic after = after ≡ fs

  forgotten :
      IsLru P
      → (path : Text) (inode : ℕ) (fs : RemoteFs P) (o : Outcome Unit) (u : Sys P) → u.fs ≡ fs
      → let r = resume o (λ a. forget P inode path) u in Ends path inode fs r.0 r.1.fs
  unfolding forget ◌>>=◌
  forgotten L path inode fs (ok a) u same = rw (← same) (forget-Forgets L path inode u)
  forgotten L path inode fs (err e) u same = same
  forgotten L path inode fs panic u same = same

  -- An `unlink` of a known path below a known parent, whatever the server answers and whatever it
  -- deletes on the way: if it replies with success, the path and its inode are known no more, no
  -- other path or inode leads elsewhere than before, and the cache answers for the inode at no
  -- time; if it replies with an error or panics, the client's state is as before. An `Lru` cache
  -- behaves as its crate documents.
  pub unlink-Ends :
      IsLru P
      → (depth parent inode : ℕ) (parent_path name : Text) (s : Sys P)
      → HashMap.get parent s.fs.inode_to_path ≡ some parent_path
      → HashMap.get (child_path parent_path name) s.fs.path_to_inode ≡ some inode
      → let r = unlink P depth parent (some name) s in
        Ends (child_path parent_path name) inode s.fs r.0 r.1.fs
  unfolding unlink path_of ◌>>=◌
  unlink-Ends L depth parent inode parent_path name s mapped known =
      let path = child_path parent_path name in
      let dir = is_dir (HashMap.get inode s.fs.inode_to_type) in
      let done = delete_on_server P depth dir path s in
      let same = (delete_on_server-Keeps (λ fs. fs ≡ s.fs) depth dir path).at s refl in
      rw (mapped, known) (forgotten L path inode s.fs done.0 done.1 same)
