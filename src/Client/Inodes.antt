-- ===== src/Client/Inodes.antt =====
-- The inode maps and the handles of `RemoteFS`: what every handler keeps true of them.
pub mod Steps
pub mod Handlers
pub mod Removal
pub mod Trace
use rust_remote_fs.Prelude.{
  ℕ, ◌+◌, ◌<◌, ◌≡◌, refl, Option, none, some, Text, nat_eq, text_eq, arith, ite,
}
use rust_remote_fs.HashMap
use rust_remote_fs.HashMap.{HashMap, get-insert, get-remove}
use rust_remote_fs.Client.Platform.{Platform}
use rust_remote_fs.Client.State.{RemoteFs, OpenWriteFile}

-- A path's inode leads back to the path, so no two paths have one inode. Inodes in use lie below
-- the counter, so a new one is in use nowhere.
pub record MapsAgree (inode_to_path : HashMap ℕ Text) (path_to_inode : HashMap Text ℕ)
    (next_inode : ℕ) : Type 0 where
  pub path_inode :
      (p : Text) (i : ℕ)
      → HashMap.get p path_to_inode ≡ some i
      → HashMap.get i inode_to_path ≡ some p
  pub inode_fresh : (i : ℕ) (p : Text) → HashMap.get i inode_to_path ≡ some p → i < next_inode

-- Handles in use lie below the counter, and none is 0, which `open` gives to readers.
pub record HandlesFresh (open_files : HashMap ℕ OpenWriteFile) (next_fh : ℕ) : Type 0 where
  pub handle_fresh :
      (fh : ℕ) (f : OpenWriteFile) → HashMap.get fh open_files ≡ some f → fh < next_fh
  pub not_zero : HashMap.get 0 open_files ≡ none
  pub next_pos : 0 < next_fh

abbrev pub IsConsistent : {P : Platform} → RemoteFs P → Type 0
IsConsistent fs =
    MapsAgree fs.inode_to_path fs.path_to_inode fs.next_inode
    × HandlesFresh fs.open_files fs.next_fh

module _ {to_path : HashMap ℕ Text} {to_inode : HashMap Text ℕ} {next : ℕ}
    (h : MapsAgree to_path to_inode next) where
  -- A new inode for a path, known before or not.
  pub MapsAgree-new :
      (p : Text)
      → MapsAgree (HashMap.insert next p to_path) (HashMap.insert p next to_inode) (next + 1)
  MapsAgree-new p = record {
    path_inode = λ q i e. ground (
      arith,
      get-insert p q next to_inode,
      get-insert next i p to_path,
      h.path_inode q i,
      h.inode_fresh i q,
    );
    inode_fresh = λ i q e. ground (arith, get-insert next i p to_path, h.inode_fresh i q);
  }

  -- An inode number that is given up.
  pub MapsAgree-skip : MapsAgree to_path to_inode (next + 1)
  MapsAgree-skip = record {
    path_inode = h.path_inode;
    inode_fresh = λ i p e. omega (arith, h.inode_fresh i p e);
  }

  -- A path and its inode are removed.
  pub MapsAgree-forget :
      (p : Text) (i : ℕ)
      → HashMap.get p to_inode ≡ some i
      → MapsAgree (HashMap.remove i to_path) (HashMap.remove p to_inode) next
  MapsAgree-forget p i known = record {
    path_inode = λ q j e. ground (
      arith,
      get-remove p q to_inode,
      get-remove i j to_path,
      h.path_inode q j,
      h.path_inode p i known,
    );
    inode_fresh = λ j q e. ground (arith, get-remove i j to_path, h.inode_fresh j q);
  }

  -- An inode moves from one path to another, which may be in use.
  pub MapsAgree-move :
      (p q : Text) (i : ℕ)
      → HashMap.get p to_inode ≡ some i
      → MapsAgree (HashMap.insert i q to_path) (HashMap.insert q i (HashMap.remove p to_inode)) next
  MapsAgree-move p q i known = record {
    path_inode = λ r j e. ground (
      arith,
      get-insert q r i (HashMap.remove p to_inode),
      get-remove p r to_inode,
      get-insert i j q to_path,
      h.path_inode r j,
      h.path_inode p i known,
    );
    inode_fresh = λ j r e. ground (
      arith,
      get-insert i j q to_path,
      h.inode_fresh j r,
      h.inode_fresh i p (h.path_inode p i known),
    );
  }

module _ {open_files : HashMap ℕ OpenWriteFile} {next : ℕ} (h : HandlesFresh open_files next) where
  pub HandlesFresh-new :
      (f : OpenWriteFile) → HandlesFresh (HashMap.insert next f open_files) (next + 1)
  HandlesFresh-new f = record {
    handle_fresh = λ fh g e. ground (arith, get-insert next fh f open_files, h.handle_fresh fh g);
    not_zero = ground (arith, get-insert next 0 f open_files, h.not_zero, h.next_pos);
    next_pos = omega arith;
  }

  -- The buffer of a handle that is in use changes.
  pub HandlesFresh-set :
      (fh : ℕ) (f g : OpenWriteFile)
      → HashMap.get fh open_files ≡ some f
      → HandlesFresh (HashMap.insert fh g open_files) next
  HandlesFresh-set fh f g used = record {
    handle_fresh = λ k e l.
        ground (arith, get-insert fh k g open_files, h.handle_fresh k e, h.handle_fresh fh f used);
    not_zero = ground (arith, get-insert fh 0 g open_files, h.not_zero, used);
    next_pos = h.next_pos;
  }

  pub HandlesFresh-remove : (fh : ℕ) → HandlesFresh (HashMap.remove fh open_files) next
  HandlesFresh-remove fh = record {
    handle_fresh = λ k e l. ground (arith, get-remove fh k open_files, h.handle_fresh k e);
    not_zero = ground (arith, get-remove fh 0 open_files, h.not_zero);
    next_pos = h.next_pos;
  }
