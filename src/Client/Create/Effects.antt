-- ===== src/Client/Create/Effects.antt =====
-- What `create` of client/src/fs/create.rs makes, and the `getattr` that follows.
use rust_remote_fs.Prelude.{
  ℕ, ◌+◌, ◌%◌, ◌<◌, ◌≡◌, refl, ◌≢◌, ◌∙◌, some, false, [], Text, arith, nat_eq, text_eq,
}
use rust_remote_fs.HashMap
use rust_remote_fs.HashMap.{get-remove, get-insert}
use rust_remote_fs.Radix.{u64_mod, u16_mod}
use rust_remote_fs.Outcome.{ok, ◌>>=◌}
use rust_remote_fs.Client.Attributes.{FileAttr, regular_file}
use rust_remote_fs.Client.Cache
use rust_remote_fs.Client.Cache.{AttributeCache}
use rust_remote_fs.Client.Cache.Laws
use rust_remote_fs.Client.Cache.Laws.{answer, lives}
use rust_remote_fs.Client.Platform.{Platform, IsLru}
use rust_remote_fs.Client.State.{
  RemoteFs, Sys, path_of, child_path, cache_put, cache_remove, cache_get,
}
use rust_remote_fs.Client.Api.{put_file_content_to_server}
use rust_remote_fs.Client.Attr.{getattr, fetch_and_cache_attributes}
use rust_remote_fs.Client.Create.{stub, new_file, create}
use rust_remote_fs.Client.Inodes.{IsConsistent}

module _ (P : Platform) where
  -- A cache that answers gives its answer to `getattr`, and no request is sent.
  getattr-cached :
      (ino : ℕ) (a : FileAttr) (t : Sys P)
      → ino ≢ 1
      → answer P ino (P.instant_now t.world) t.fs.attribute_cache ≡ some a
      → ((getattr P ino t).0 ≡ ok a) × ((getattr P ino t).1.world ≡ t.world)
  unfolding getattr fetch_and_cache_attributes cache_get ◌>>=◌
  getattr-cached ino a t ne found = ground arith

  module _ (L : IsLru P) (uid gid parent mode : ℕ) (parent_path name : Text) (s : Sys P)
      (w : P.World) where
    full_path : Text
    full_path = child_path parent_path name

    attrs : FileAttr
    attrs = stub s.fs.next_inode 0 0 (P.system_now w) regular_file (mode % u16_mod) 1 uid gid

    created : RemoteFs P
    unfolding full_path attrs
    created = record s.fs {
      inode_to_path = HashMap.insert s.fs.next_inode full_path s.fs.inode_to_path;
      path_to_inode = HashMap.insert full_path s.fs.next_inode s.fs.path_to_inode;
      inode_to_type = HashMap.insert s.fs.next_inode regular_file s.fs.inode_to_type;
      next_inode = s.fs.next_inode + 1;
      next_fh = s.fs.next_fh + 1;
      open_files =
          HashMap.insert s.fs.next_fh (record { path = full_path; buffer = [] }) s.fs.open_files;
      attribute_cache = Cache.remove P parent (
          Cache.put P s.fs.next_inode attrs s.fs.config.cache_ttl_seconds (P.instant_now w)
            s.fs.attribute_cache);
    }

    create-created :
        HashMap.get parent s.fs.inode_to_path ≡ some parent_path
        → put_file_content_to_server P (child_path parent_path name) [] s
          ≡ (ok (some tt), record s { world = w })
        → s.fs.next_inode + 1 < u64_mod
        → s.fs.next_fh + 1 < u64_mod
        → Cache.overflows P s.fs.config.cache_ttl_seconds (P.instant_now w) s.fs.attribute_cache
          ≡ false
        → create P uid gid parent (some name) mode s
          ≡ (ok (attrs, s.fs.next_fh), record { fs = created; world = w })
    unfolding created create new_file path_of cache_put cache_remove ◌>>=◌
    create-created mapped stored room room_fh in_time =
        let inode_fits : s.fs.next_inode + 1 < u64_mod = room in
        let fh_fits : s.fs.next_fh + 1 < u64_mod = room_fh in
        rw (mapped, stored) (ground (arith, in_time))

    -- A `create` at a known parent, in a consistent state with inodes above 1 and room in both
    -- counters below 2^64, when the server takes the empty file, the time to live does not overflow
    -- the clock and the cache keeps what is put for it at that moment: it replies with attributes
    -- and a handle, the new path leads to the attributes' inode, the handle is open on the path
    -- with an empty buffer, and the `getattr` that follows replies with the same attributes without
    -- a request. An `Lru` cache behaves as its crate documents.
    pub create-getattr :
        IsConsistent s.fs
        → 1 < s.fs.next_inode
        → HashMap.get parent s.fs.inode_to_path ≡ some parent_path
        → put_file_content_to_server P (child_path parent_path name) [] s
          ≡ (ok (some tt), record s { world = w })
        → s.fs.next_inode + 1 < u64_mod
        → s.fs.next_fh + 1 < u64_mod
        → Cache.overflows P s.fs.config.cache_ttl_seconds (P.instant_now w) s.fs.attribute_cache
          ≡ false
        → ((now : ℕ) (a : FileAttr)
            → lives P L s.fs.attribute_cache s.fs.config.cache_ttl_seconds now now a ≡ some a)
        → let r = create P uid gid parent (some name) mode s in
          (a : FileAttr) × (fh : ℕ) × (r.0 ≡ ok (a, fh))
          × (HashMap.get (child_path parent_path name) r.1.fs.path_to_inode ≡ some a.ino)
          × (HashMap.get fh r.1.fs.open_files
              ≡ some (record { path = child_path parent_path name; buffer = [] }))
          × ((getattr P a.ino r.1).0 ≡ ok a)
          × ((getattr P a.ino r.1).1.world ≡ w)
    unfolding created attrs
    create-getattr consistent above_root mapped stored room room_fh in_time keeps =
        let path = child_path parent_path name in
        let n = s.fs.next_inode in
        let older = consistent.0.inode_fresh parent parent_path mapped in
        let now = P.instant_now w in
        let cached = Cache.put P n attrs s.fs.config.cache_ttl_seconds now s.fs.attribute_cache in
        let other : parent ≢ n = λ e. omega arith in
        let found =
          (Laws.get-remove P L parent n now cached).1 other
          ∙ Laws.get-put_self P L n s.fs.config.cache_ttl_seconds now now attrs s.fs.attribute_cache
          ∙ keeps now attrs in
        let asked =
          getattr-cached n attrs (record { fs = created; world = w }) (λ e. omega arith) found in
        rw (create-created mapped stored room room_fh in_time) (
          attrs,
          s.fs.next_fh,
          refl,
          ground (arith, get-insert path path n s.fs.path_to_inode),
          ground (
            arith,
            get-insert s.fs.next_fh s.fs.next_fh (record { path = path; buffer = [] })
                s.fs.open_files,
          ),
          asked.0,
          asked.1,
        )
