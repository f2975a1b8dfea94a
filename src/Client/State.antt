-- ===== src/Client/State.antt =====
-- `RemoteFS` and `OpenWriteFile` of client/src/fs/mod.rs, and what every handler begins with.
use rust_remote_fs.Prelude.{
  ℕ, Option, [], ◌++◌, Text, bytes, is_empty, nat_eq, text_eq, if◌then◌else◌,
}
use rust_remote_fs.HashMap
use rust_remote_fs.HashMap.{HashMap}
use rust_remote_fs.Radix.{print}
use rust_remote_fs.Wire.{Bytes}
use rust_remote_fs.Outcome.{
  Outcome, panic, Handler, enoent, reply, reads, some_or, modify, ◌>>=◌, ◌>>◌, add_u64,
}
use rust_remote_fs.Client.Attributes.{FileType, directory, FileAttr, root_dir_attr}
use rust_remote_fs.Client.Cache
use rust_remote_fs.Client.Cache.{AttributeCache}
use rust_remote_fs.Client.Config.{Config}
use rust_remote_fs.Client.Platform.{Platform}

-- The blocks are keyed by the 64-bit pattern of their `i64` offset.
pub record OpenWriteFile : Type 0 where
  pub path : Text
  pub buffer : HashMap ℕ Bytes

pub record RemoteFs (P : Platform) : Type 0 where
  pub client_id : Text
  pub inode_to_path : HashMap ℕ Text
  pub path_to_inode : HashMap Text ℕ
  pub inode_to_type : HashMap ℕ FileType
  pub next_inode : ℕ
  pub attribute_cache : AttributeCache P
  pub config : Config
  pub open_files : HashMap ℕ OpenWriteFile
  pub next_fh : ℕ

-- A handler runs with the file system locked, and acts on the world by its requests.
pub record Sys (P : Platform) : Type 0 where
  pub fs : RemoteFs P
  pub world : P.World

abbrev pub Fuse : Platform → Type 0 → Type 0
Fuse P A = Handler (Sys P) A

module _ (P : Platform) where
  -- `RemoteFS::new`, at the two times that it reads from the clocks, where its `put` does not
  -- panic.
  unfoldable pub new : Config → (system_now instant_now : ℕ) → RemoteFs P
  new config system_now instant_now = record {
    client_id = bytes "client-" ++ print 10 system_now;
    inode_to_path = HashMap.insert 1 [] [];
    path_to_inode = HashMap.insert [] 1 [];
    inode_to_type = HashMap.insert 1 directory [];
    next_inode = 2;
    attribute_cache =
        Cache.put P 1 root_dir_attr config.cache_ttl_seconds instant_now (Cache.new P config);
    config = config;
    open_files = [];
    next_fh = 1;
  }

  abbrev pub update : (RemoteFs P → RemoteFs P) → Fuse P Unit
  update f = modify (λ s. record s { fs = f s.fs })

  -- `fs.inode_to_path.get(&ino)`, with `ENOENT` for an unknown inode.
  unfoldable pub path_of : ℕ → Fuse P Text
  path_of ino = do path ← reads (λ s. HashMap.get ino s.fs.inode_to_path); some_or enoent path

  -- `fs.attribute_cache.put`, with the configured time to live.
  unfoldable pub cache_put : ℕ → FileAttr → Fuse P Unit
  cache_put ino attr s =
      let ttl = s.fs.config.cache_ttl_seconds in
      let now = P.instant_now s.world in
      let cache = Cache.put P ino attr ttl now s.fs.attribute_cache in
      if Cache.overflows P ttl now s.fs.attribute_cache
      then (panic, s)
      else (Outcome.ok tt, record s { fs = record s.fs { attribute_cache = cache } })

  unfoldable pub cache_remove : ℕ → Fuse P Unit
  cache_remove ino =
      update (λ fs. record fs { attribute_cache = Cache.remove P ino fs.attribute_cache })

  unfoldable pub cache_get : ℕ → Fuse P (Option FileAttr)
  cache_get ino s =
      let found = Cache.get P ino (P.instant_now s.world) s.fs.attribute_cache in
      (Outcome.ok found.0, record s { fs = record s.fs { attribute_cache = found.1 } })

  -- `fs.next_inode`, and its increment.
  abbrev pub fresh_inode : Fuse P ℕ
  fresh_inode = do
    inode ← reads (λ s. s.fs.next_inode)
    next ← add_u64 inode 1
    update (λ fs. record fs { next_inode = next })
    reply inode

  abbrev pub fresh_fh : Fuse P ℕ
  fresh_fh = do
    fh ← reads (λ s. s.fs.next_fh)
    next ← add_u64 fh 1
    update (λ fs. record fs { next_fh = next })
    reply fh

-- The path of a name below a directory, as each handler writes it out. The root's path is empty.
abbrev pub child_path : Text → Text → Text
child_path parent name = if is_empty parent then name else parent ++ (bytes "/" ++ name)
