-- ===== src/Client/Inodes/Trace.antt =====
-- The requests of a kernel, one after the other, from the state that `main` mounts.
use rust_remote_fs.Prelude.{
  ℕ, ◌≡◌, refl, Option, some, Bool, List, [], Text, nat_eq, text_eq, arith,
}
use rust_remote_fs.HashMap
use rust_remote_fs.HashMap.{get-insert}
use rust_remote_fs.Wire.{Bytes}
use rust_remote_fs.Outcome.{reply, ◌>>◌}
use rust_remote_fs.Client.Config.{Config, ConfigFile, Cli, load_config, override}
use rust_remote_fs.Client.Start.{Mount, mounts, Daemonizing, main, main-mounts}
use rust_remote_fs.Client.Platform.{Platform}
use rust_remote_fs.Client.State.{Sys, Fuse, new}
use rust_remote_fs.Client.Attr
use rust_remote_fs.Client.Read
use rust_remote_fs.Client.Read.{DirEntry}
use rust_remote_fs.Client.Write
use rust_remote_fs.Client.Create
use rust_remote_fs.Client.Delete
use rust_remote_fs.Client.Rename
use rust_remote_fs.Client.Watch.{on_text}
use rust_remote_fs.Client.Watch.Silence.{on_text_keeps}
use rust_remote_fs.Client.Inodes.{IsConsistent, MapsAgree, HandlesFresh, MapsAgree-new}
use rust_remote_fs.Client.Inodes.Steps.{Safe, safe_rules}
use rust_remote_fs.Client.Inodes.Handlers.{
  getattr-Safe, setattr-Safe, lookup-Safe, readdir-Safe, read-Safe, open-Safe, write-Safe,
  release-Safe, create-Safe, mkdir-Safe,
}
use rust_remote_fs.Client.Inodes.Removal.{unlink-Safe, rmdir-Safe, rename-Safe}

-- The methods of `Filesystem for FsWrapper` in client/src/fs/mod.rs that act on the state, with
-- their arguments. `depth` is what the stack has room for.
pub data Call : Type 0 where
  getattr : (ino : ℕ) → Call
  setattr : (ino : ℕ) (mode size : Option ℕ) → Call
  lookup : (parent : ℕ) (name : Option Text) → Call
  readdir : (full : List DirEntry → DirEntry → Bool) (ino offset : ℕ) → Call
  read : (ino offset size : ℕ) → Call
  open_ : (ino flags : ℕ) → Call
  write : (fh offset : ℕ) (block : Bytes) → Call
  release : (ino fh : ℕ) → Call
  flush : (ino fh : ℕ) → Call
  create : (uid gid parent : ℕ) (name : Option Text) (mode : ℕ) → Call
  mkdir : (parent : ℕ) (name : Option Text) (mode : ℕ) → Call
  unlink : (depth parent : ℕ) (name : Option Text) → Call
  rmdir : (depth parent : ℕ) (name : Option Text) → Call
  rename : (depth parent : ℕ) (name : Option Text) (newparent : ℕ) (newname : Option Text) → Call

module _ (P : Platform) where
  -- `FsWrapper` locks the file system and hands the call to its module. Of the reply it is kept
  -- whether there is a value, an error code or none.
  unfoldable pub answer : Call → Fuse P Unit
  answer (getattr ino) = Attr.getattr P ino >> reply tt
  answer (setattr ino mode size) = Attr.setattr P ino mode size >> reply tt
  answer (lookup parent name) = Read.lookup P parent name >> reply tt
  answer (readdir full ino offset) = Read.readdir P full ino offset >> reply tt
  answer (read ino offset size) = Read.read P ino offset size >> reply tt
  answer (open_ ino flags) = Read.open_ P ino flags >> reply tt
  answer (write fh offset block) = Write.write P fh offset block >> reply tt
  answer (release ino fh) = Write.release P ino fh
  answer (flush ino fh) = Write.flush P ino fh
  answer (create uid gid parent name mode) = Create.create P uid gid parent name mode >> reply tt
  answer (mkdir parent name mode) = Create.mkdir P parent name mode >> reply tt
  answer (unlink depth parent name) = Delete.unlink P depth parent name
  answer (rmdir depth parent name) = Delete.rmdir P depth parent name
  answer (rename depth parent name newparent newname) =
      Rename.rename P depth parent name newparent newname

  -- What the call leaves of the state.
  unfoldable pub dispatch : Call → Sys P → Sys P
  unfolding answer
  dispatch call s = (answer call s).1

  -- The states that a mounted file system can reach. Between two calls the world may change, and
  -- the watcher takes the lock to deal with a message.
  pub data Reachable (from_str : Text → Option Config) : Sys P → Type 0 where
    mounted :
        (file : ConfigFile) (cli : Cli) (d : Daemonizing) (system_now instant_now : ℕ) (m : Mount P)
        (w : P.World)
        → main P from_str file cli d system_now instant_now ≡ mounts m
        → Reachable from_str (record { fs = m.filesystem; world = w })
    called : {s : Sys P} (call : Call) → Reachable from_str s → Reachable from_str (dispatch call s)
    waited :
        {s : Sys P} (w : P.World)
        → Reachable from_str s
        → Reachable from_str (record s { world = w })
    notified :
        {s : Sys P} (me message : Text)
        → Reachable from_str s
        → Reachable from_str (record s { fs = on_text P me message s.fs })

  answer-Safe : (call : Call) → Safe (answer call)
  unfolding answer Write.flush
  answer-Safe (getattr ino) = search (safe_rules, getattr-Safe)
  answer-Safe (setattr ino mode size) = search (safe_rules, setattr-Safe)
  answer-Safe (lookup parent name) = search (safe_rules, lookup-Safe)
  answer-Safe (readdir full ino offset) = search (safe_rules, readdir-Safe)
  answer-Safe (read ino offset size) = search (safe_rules, read-Safe)
  answer-Safe (open_ ino flags) = search (safe_rules, open-Safe)
  answer-Safe (write fh offset block) = search (safe_rules, write-Safe)
  answer-Safe (release ino fh) = release-Safe ino fh
  answer-Safe (flush ino fh) = search safe_rules
  answer-Safe (create uid gid parent name mode) = search (safe_rules, create-Safe)
  answer-Safe (mkdir parent name mode) = search (safe_rules, mkdir-Safe)
  answer-Safe (unlink depth parent name) = unlink-Safe depth parent name
  answer-Safe (rmdir depth parent name) = rmdir-Safe depth parent name
  answer-Safe (rename depth parent name newparent newname) =
      rename-Safe depth parent name newparent newname

  dispatch-IsConsistent :
      (call : Call) (s : Sys P) → IsConsistent s.fs → IsConsistent (dispatch call s).fs
  unfolding dispatch
  dispatch-IsConsistent call s h = (answer-Safe call).at s h

  nothing_mapped : MapsAgree [] [] 1
  unfolding HashMap.get
  nothing_mapped = record { path_inode = λ p i e. cc; inode_fresh = λ i p e. cc }

  nothing_open : HandlesFresh [] 1
  unfolding HashMap.get
  nothing_open = record { handle_fresh = λ fh f e. cc; not_zero = refl; next_pos = omega arith }

  new-IsConsistent :
      (config : Config) (system_now instant_now : ℕ)
      → IsConsistent (new P config system_now instant_now)
  unfolding new
  new-IsConsistent config system_now instant_now = (MapsAgree-new nothing_mapped [], nothing_open)

  -- In every state that a file system reaches that `main` has mounted, with whatever settings,
  -- whatever the kernel asks, whatever the server answers or fails to answer, whatever messages
  -- reach the watcher and whichever calls panic: the inode of each known path leads back to it,
  -- every inode and every handle in use lies below its counter, and no handle is 0.
  pub Reachable-IsConsistent :
      (from_str : Text → Option Config) {s : Sys P} → Reachable from_str s → IsConsistent s.fs
  Reachable-IsConsistent from_str (mounted file cli d system_now instant_now m w started) =
      rw (main-mounts P from_str file cli d system_now instant_now m started)
        (new-IsConsistent (override cli (load_config from_str file)) system_now instant_now)
  Reachable-IsConsistent from_str (called call r) =
      dispatch-IsConsistent call _ (Reachable-IsConsistent from_str r)
  Reachable-IsConsistent from_str (waited w r) = Reachable-IsConsistent from_str r
  Reachable-IsConsistent from_str (notified {s} me message r) =
      on_text_keeps P IsConsistent (λ j fs h. h) me message s.fs (Reachable-IsConsistent from_str r)

  -- No two paths share an inode.
  pub inode_unique :
      (from_str : Text → Option Config) {s : Sys P}
      → Reachable from_str s
      → (p q : Text) (i : ℕ) → HashMap.get p s.fs.path_to_inode ≡ some i
      → HashMap.get q s.fs.path_to_inode ≡ some i
      → p ≡ q
  inode_unique from_str r p q i e f =
      let maps = (Reachable-IsConsistent from_str r).0 in
      cc (maps.path_inode p i e, maps.path_inode q i f)
