-- ===== src/Client/Create.antt =====
-- client/src/fs/create.rs: `create` and `mkdir`.
pub mod Effects
use rust_remote_fs.Prelude.{ℕ, ◌%◌, Option, [], Text, nat_eq, text_eq}
use rust_remote_fs.HashMap
use rust_remote_fs.Radix.{u16_mod}
use rust_remote_fs.Outcome.{reply, reads, some_or, unwrap, eio, ◌>>=◌, ◌>>◌}
use rust_remote_fs.Client.Attributes.{FileType, directory, regular_file, FileAttr}
use rust_remote_fs.Client.Platform.{Platform}
use rust_remote_fs.Client.State.{
  Fuse, update, path_of, fresh_inode, fresh_fh, cache_put, cache_remove, child_path,
}
use rust_remote_fs.Client.Api.{put_file_content_to_server, create_directory}

-- The attributes of what was created at `ts`.
abbrev stub : (ino size blocks ts : ℕ) → FileType → (perm nlink uid gid : ℕ) → FileAttr
stub ino size blocks ts kind perm nlink uid gid = record {
  ino = ino;
  size = size;
  blocks = blocks;
  atime = ts;
  mtime = ts;
  ctime = ts;
  crtime = ts;
  kind = kind;
  perm = perm;
  nlink = nlink;
  uid = uid;
  gid = gid;
  rdev = 0;
  flags = 0;
  blksize = 5120;
}

module _ (P : Platform) where
  -- The three maps for a new inode.
  abbrev map_inode : ℕ → Text → FileType → Fuse P Unit
  map_inode inode full_path kind = update P (λ fs. record fs {
    inode_to_path = HashMap.insert inode full_path fs.inode_to_path;
    path_to_inode = HashMap.insert full_path inode fs.path_to_inode;
    inode_to_type = HashMap.insert inode kind fs.inode_to_type;
  })

  -- The identifiers of a new file, its maps and its write buffer.
  unfoldable pub new_file : Text → Fuse P (ℕ × ℕ)
  new_file full_path = do
    inode ← fresh_inode P
    fh ← fresh_fh P
    map_inode inode full_path regular_file
    update P (λ fs. record fs {
      open_files = HashMap.insert fh (record { path = full_path; buffer = [] }) fs.open_files;
    })
    reply (inode, fh)

  -- The inode of a new directory, and its maps.
  unfoldable pub new_directory : Text → Fuse P ℕ
  new_directory full_path = do
    inode ← fresh_inode P
    map_inode inode full_path directory
    reply inode

  -- `uid` and `gid` are the request's. The reply holds the attributes and the file handle.
  unfoldable pub create : (uid gid parent : ℕ) → Option Text → (mode : ℕ) → Fuse P (FileAttr × ℕ)
  create uid gid parent name mode = do
    parent_path ← path_of P parent
    filename ← unwrap name
    let full_path = child_path parent_path filename
    created ← put_file_content_to_server P full_path []
    some_or eio created
    made ← new_file full_path
    ts ← reads (λ s. P.system_now s.world)
    let attrs = stub made.0 0 0 ts regular_file (mode % u16_mod) 1 uid gid
    cache_put P made.0 attrs
    cache_remove P parent
    reply (attrs, made.1)

  unfoldable pub mkdir : (parent : ℕ) → Option Text → (mode : ℕ) → Fuse P FileAttr
  mkdir parent name mode = do
    parent_path ← path_of P parent
    dirname ← unwrap name
    let full_path = child_path parent_path dirname
    created ← create_directory P full_path
    some_or eio created
    inode ← new_directory full_path
    ts ← reads (λ s. P.system_now s.world)
    let attrs = stub inode 4096 8 ts directory (mode % u16_mod) 2 501 20
    cache_put P inode attrs
    cache_remove P parent
    reply attrs
