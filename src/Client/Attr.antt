-- ===== src/Client/Attr.antt =====
-- client/src/fs/attr.rs: `getattr` and `setattr`.
use rust_remote_fs.Prelude.{
  ℕ, ◌+◌, ◌-◌, ◌*◌, ◌/◌, ◌^◌, ◌||◌, Option, none, some, List, [], ◌∷◌, ◌++◌, Text, bytes, text_eq,
  ite, rsplit_once, eq_ignore_ascii_case, length, take, replicate, ltb, ◌==◌, if◌then◌else◌,
  is_utf8, nat_eq,
}
use rust_remote_fs.Radix.{from_str_radix, u16_mod}
use rust_remote_fs.Wire.{Bytes, RemoteEntry}
use rust_remote_fs.Outcome.{
  Handler, reply, reply_error, abort, reads, some_or, eio, enoent, ◌>>=◌, ◌>>◌, add_u64,
}
use rust_remote_fs.HashMap
use rust_remote_fs.Client.Attributes.{
  FileType, directory, regular_file, FileAttr, root_dir_attr, unix_epoch, nanos_per_sec,
}
use rust_remote_fs.Client.Platform.{Platform}
use rust_remote_fs.Client.State.{Fuse, path_of, cache_put, cache_remove, cache_get}
use rust_remote_fs.Client.Api.{
  get_files_from_server, get_file_content_from_server, put_file_content_to_server,
  update_permissions,
}

-- The directory and the name of a path.
unfoldable pub split_path : Text → Text × Text
split_path path = elim (rsplit_once (b'/' ∷ []) path) [ some (p, f) ↦ (p, f) | none ↦ ([], path) ]

-- `entries.into_iter().find(|e| e.name == name)`
unfoldable pub find_entry : Text → List RemoteEntry → Option RemoteEntry
find_entry name [] = none
find_entry name (entry ∷ entries) =
    ite (text_eq.dec entry.name name) (some entry) (find_entry name entries)

unfoldable pub kind_of : RemoteEntry → FileType
kind_of entry =
    if eq_ignore_ascii_case entry.kind (bytes "dir")
      || eq_ignore_ascii_case entry.kind (bytes "directory")
    then directory
    else regular_file

abbrev perm_or : FileType → Option ℕ → ℕ
perm_or kind (some perm) = perm
perm_or directory none = 0o755
perm_or regular_file none = 0o644

abbrev pub nlink_of : FileType → ℕ
nlink_of directory = 2
nlink_of regular_file = 1

-- What `Vec::resize` leaves in the vector, with zeros at its end.
unfoldable pub resized : ℕ → Bytes → Bytes
resized n v = take n v ++ replicate (n - length v) 0

-- `isize::MAX + 1`
abbrev pub isize_mod : ℕ
isize_mod = 2 ^ 63

module _ {S : Type 0} where
  -- A vector that would grow past `isize::MAX` bytes panics: capacity overflow.
  abbrev pub reserve : ℕ → Bytes → Handler S Unit
  reserve n v = if ltb (length v) n then (if ltb n isize_mod then reply tt else abort) else reply tt

  -- `Vec::resize` with zeros.
  unfoldable pub resize : ℕ → Bytes → Handler S Bytes
  unfolding resized ◌>>=◌
  resize n v = do reserve n v; reply (resized n v)

abbrev pub or_empty : Option Bytes → Bytes
or_empty none = []
or_empty (some content) = content

module _ (P : Platform) where
  -- `UNIX_EPOCH + Duration::from_secs(mtime as u64)`: a negative `mtime` is past the last time that
  -- a `SystemTime` can hold.
  abbrev pub time_of : ℕ → Fuse P ℕ
  time_of mtime = if ltb mtime (2 ^ 63) then reply (unix_epoch + mtime * nanos_per_sec) else abort

  unfoldable pub attributes_of : ℕ → RemoteEntry → Fuse P FileAttr
  unfolding kind_of
  attributes_of ino entry = do
    let kind = kind_of entry
    let perm = perm_or kind (from_str_radix 8 u16_mod entry.perm)
    rounded ← add_u64 entry.size 511
    time ← time_of entry.mtime
    reply (record {
      ino = ino;
      size = entry.size;
      blocks = rounded / 512;
      atime = time;
      mtime = time;
      ctime = time;
      crtime = unix_epoch;
      kind = kind;
      perm = perm;
      nlink = nlink_of kind;
      uid = 501;
      gid = 20;
      rdev = 0;
      flags = 0;
      blksize = 5120;
    })

  abbrev pub store_found : ℕ → Option RemoteEntry → Fuse P (Option FileAttr)
  store_found ino none = reply none
  store_found ino (some entry) = do
    attrs ← attributes_of ino entry
    cache_put P ino attrs
    reply (some attrs)

  abbrev pub find_in : ℕ → Text → Option (List RemoteEntry) → Fuse P (Option FileAttr)
  find_in ino file_name none = reply none
  find_in ino file_name (some entries) = store_found ino (find_entry file_name entries)

  abbrev pub fetch_path : ℕ → Option Text → Fuse P (Option FileAttr)
  fetch_path ino none = reply none
  fetch_path ino (some path) = do
    entries ← get_files_from_server P (split_path path).0
    find_in ino (split_path path).1 entries

  abbrev pub fetch_missed : ℕ → Option FileAttr → Fuse P (Option FileAttr)
  fetch_missed ino (some attr) = reply (some attr)
  fetch_missed ino none = do
    path ← reads (λ s. HashMap.get ino s.fs.inode_to_path)
    fetch_path ino path

  unfoldable pub fetch_and_cache_attributes : ℕ → Fuse P (Option FileAttr)
  unfolding attributes_of
  fetch_and_cache_attributes ino =
      if ino == 1
      then reply (some root_dir_attr)
      else do cached ← cache_get P ino; fetch_missed ino cached

  unfoldable pub getattr : ℕ → Fuse P FileAttr
  unfolding fetch_and_cache_attributes
  getattr ino = do found ← fetch_and_cache_attributes ino; some_or enoent found

  abbrev pub chmod : Text → Option ℕ → Fuse P Unit
  chmod path none = reply tt
  chmod path (some new_mode) = do res ← update_permissions P path new_mode; some_or eio res

  abbrev pub truncate : Text → Option ℕ → Fuse P Unit
  truncate path none = reply tt
  truncate path (some new_size) = do
    old_content ← get_file_content_from_server P path
    new_content ← resize new_size (or_empty old_content)
    if is_utf8 new_content
        then (do res ← put_file_content_to_server P path new_content; some_or eio res)
        else reply_error eio

  -- The other attributes are ignored.
  unfoldable pub setattr : ℕ → (mode size : Option ℕ) → Fuse P FileAttr
  unfolding fetch_and_cache_attributes resize
  setattr ino mode size = do
    path ← path_of P ino
    chmod path mode
    truncate path size
    cache_remove P ino
    found ← fetch_and_cache_attributes ino
    some_or enoent found
