-- ===== src/EndToEnd/Attributes.antt =====
-- `getattr` of client/src/fs/attr.rs against `list_directory_contents` of server/src/handlers.rs.
use mathlib.Core.List.{Mem, mem-cons_self, mem-cons_of_mem}
use rust_remote_fs.Prelude.{
  ℕ, ◌+◌, ◌*◌, ◌%◌, ◌^◌, ◌<◌, ◌≡◌, refl, ◌≢◌, ap, ◌∙◌, false, Option, none, some, List, [], ◌∷◌,
  ◌++◌, Text, arith, nat_eq, text_eq, ◌==◌, if◌then◌else◌,
}
use rust_remote_fs.HashMap
use rust_remote_fs.Radix.{u64_mod}
use rust_remote_fs.Outcome.{ok, ◌>>=◌}
use rust_remote_fs.Server.Disk.{Disk, DirLine, Metadata}
use rust_remote_fs.Server.Handlers.{entry_of, entries_of, file_path, list_directory_contents}
use rust_remote_fs.Server.Routes.{Web}
use rust_remote_fs.Client.Attributes.{FileAttr, directory, regular_file, nanos_per_sec}
use rust_remote_fs.Client.Cache
use rust_remote_fs.Client.Cache.Laws
use rust_remote_fs.Client.Cache.Laws.{answer}
use rust_remote_fs.Client.Platform.{Platform}
use rust_remote_fs.Client.State.{Sys, cache_get, cache_put}
use rust_remote_fs.Client.Api.{get_files_from_server}
use rust_remote_fs.Client.Inodes.Steps.{get_files-Keeps}
use rust_remote_fs.Client.Attr.{split_path, find_entry, fetch_and_cache_attributes, getattr}
use rust_remote_fs.EndToEnd.Permissions.{attributes_of-entry_of, seconds}
use rust_remote_fs.EndToEnd.Network.{IsServed, listing-Reads}

-- No line before is one of this name.
abbrev pub Unnamed : Text → List (Option DirLine) → Type 0
Unnamed name lines = (line : DirLine) → Mem (some line) lines → line.0 ≢ name

-- The client finds the first entry of a name, and passes over what cannot be read.
find_entry-entries_of :
    (name : Text) (metadata : Metadata) (before after : List (Option DirLine))
    → Unnamed name before
    → find_entry name (entries_of (before ++ (some (name, some metadata) ∷ after)))
      ≡ some (entry_of name metadata)
unfolding find_entry entries_of entry_of
find_entry-entries_of name metadata [] after other = ground arith
find_entry-entries_of name metadata (none ∷ before) after other =
    find_entry-entries_of name metadata before after (λ line m. other line (mem-cons_of_mem none m))
find_entry-entries_of name metadata (some (n, none) ∷ before) after other =
    find_entry-entries_of name metadata before after
      (λ line m. other line (mem-cons_of_mem (some (n, none)) m))
find_entry-entries_of name metadata (some (n, some d) ∷ before) after other =
    let rest =
      find_entry-entries_of name metadata before after
        (λ line m. other line (mem-cons_of_mem (some (n, some d)) m)) in
    let differs = other (n, some d) mem-cons_self in ground (arith, rest, differs)

module _ {P : Platform} {D : Disk} {web : Web D} {data_dir : Text} (s : Sys P)
    (N : IsServed P D web data_dir s.fs.config.server_url) where
  -- After a cache that does not answer, a listing is asked for.
  looked_up : ℕ → Sys P
  looked_up ino = (cache_get P ino s).1

  listing_at :
      (ino : ℕ) (dir : Text) (lines : List (Option DirLine))
      → N.urls.Plain dir
      → D.read_dir (file_path data_dir dir) (N.state s.world).disk ≡ some lines
      → let r = get_files_from_server P dir (looked_up ino) in
        (r ≡ (ok (some (entries_of lines)), r.1)) × (N.state r.1.world ≡ N.state s.world)
  unfolding looked_up cache_get list_directory_contents
  listing_at ino dir lines plain listed =
      let r = get_files_from_server P dir (looked_up ino) in
      let call = listing-Reads (looked_up ino) N dir plain in
      let found : list_directory_contents D data_dir dir (N.state s.world).disk
          ≡ some (entries_of lines) =
        rw listed refl in
      (ap (λ o. (o, r.1)) (call.0 ∙ ap (λ o. ok o) found), call.1)

  -- Neither the cache nor the listing changes whether the time to live overflows the clock.
  timely_after :
      (ino : ℕ) (dir : Text)
      → ((w : P.World)
          → Cache.overflows P s.fs.config.cache_ttl_seconds (P.instant_now w) s.fs.attribute_cache
            ≡ false)
      → (w : P.World)
      → let t = (get_files_from_server P dir (looked_up ino)).1 in
        Cache.overflows P t.fs.config.cache_ttl_seconds (P.instant_now w) t.fs.attribute_cache
        ≡ false
  unfolding looked_up cache_get
  timely_after ino dir kept =
      (get_files-Keeps
          (λ fs.
            (w : P.World)
            → Cache.overflows P fs.config.cache_ttl_seconds (P.instant_now w) fs.attribute_cache
              ≡ false)
          dir).at
        (looked_up ino)
        (λ w.
          Laws.get-overflows P ino (P.instant_now s.world) s.fs.config.cache_ttl_seconds
            (P.instant_now w) s.fs.attribute_cache
          ∙ kept w)

  -- A `getattr` at a known inode but the root's, for which the cache does not answer, when the
  -- server lists the directory of its path, which a URL carries as it is, and in the listing the
  -- first readable entry of its name has metadata with a size that has room for 511 more below 2^64
  -- and a time in seconds below 2^63, over a network that brings each request to the server's
  -- routes and the answer back, and at no time does the time to live overflow the clock: it replies
  -- with the kind, the lower nine bits of the mode, the size and the time of that metadata, and the
  -- server is as before.
  pub getattr-metadata :
      (ino : ℕ) (path dir name : Text) (metadata : Metadata) (before after : List (Option DirLine))
      → ino ≢ 1
      → answer P ino (P.instant_now s.world) s.fs.attribute_cache ≡ none
      → HashMap.get ino s.fs.inode_to_path ≡ some path
      → split_path path ≡ (dir, name)
      → N.urls.Plain dir
      → D.read_dir (file_path data_dir dir) (N.state s.world).disk
        ≡ some (before ++ (some (name, some metadata) ∷ after))
      → Unnamed name before
      → metadata.len + 511 < u64_mod
      → seconds metadata < 2 ^ 63
      → ((w : P.World)
          → Cache.overflows P s.fs.config.cache_ttl_seconds (P.instant_now w) s.fs.attribute_cache
            ≡ false)
      → let r = getattr P ino s in
        (a : FileAttr) × (r.0 ≡ ok a)
        × (a.kind ≡ (if metadata.is_dir then directory else regular_file))
        × (a.perm ≡ metadata.mode % 0o1000)
        × (a.size ≡ metadata.len)
        × (a.mtime ≡ seconds metadata * nanos_per_sec)
        × (N.state r.1.world ≡ N.state s.world)
  unfolding getattr fetch_and_cache_attributes cache_get cache_put looked_up ◌>>=◌
  getattr-metadata ino path dir name metadata before after ne missed mapped split plain listed other
        fits in_time kept =
      let lines = before ++ (some (name, some metadata) ∷ after) in
      let (e, same) = listing_at ino dir lines plain listed in
      let t = (get_files_from_server P dir (looked_up ino)).1 in
      let (a, made, kind, perm, size, mtime) =
        attributes_of-entry_of P ino name metadata t fits in_time in
      let timely = timely_after ino dir kept t.world in
      let not_root : (ino == 1) ≡ false = ground arith in
      rw
        (
          not_root,
          missed,
          mapped,
          split,
          e,
          find_entry-entries_of name metadata before after other,
          made,
          timely,
        )
        (a, refl, kind, perm, size, mtime, same)
