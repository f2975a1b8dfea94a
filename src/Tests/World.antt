-- ===== src/Tests/World.antt =====
-- A server with one file, a clock that ticks with each request, and a cache that evicts nothing.
use mathlib.Core.List.Perm
use rust_remote_fs.Prelude.{ℕ, ◌+◌, ◌%◌, some, List, [], ◌∷◌, ◌++◌, bytes, true, nat_eq}
use rust_remote_fs.HashMap
use rust_remote_fs.HashMap.{HashMap}
use rust_remote_fs.Wire.{Bytes, RemoteEntry, Method, Request, Response, status_only}
use rust_remote_fs.Server.GetFile.{OpenFile, get_file}
use rust_remote_fs.Client.Attributes.{FileAttr}
use rust_remote_fs.Client.Config
use rust_remote_fs.Client.Config.{Config, CacheStrategy}
use rust_remote_fs.Client.Platform.{Platform, IsHashOrder}
use rust_remote_fs.Client.State.{RemoteFs, Sys, OpenWriteFile, new}

abbrev pub abcdef : OpenFile
abcdef = record { metadata_len = some 6; seek = λ n. true; content = bytes "abcdef" }

abbrev pub listed : List RemoteEntry
listed =
    record { name = bytes "a"; kind = bytes "file"; size = 6; mtime = 1; perm = bytes "644" } ∷ []

abbrev answer : Request → Response
answer request = elim request.method [
  | Method.get ↦ get_file (some abcdef) request.headers
  | _ ↦ status_only 200
]

abbrev pub here : Platform
here = record {
  World = ℕ;
  send = λ request w. (some (answer request), w + 1);
  instant_now = λ w. w % 1000000;
  system_now = λ w. w;
  decode_entries = λ body. some listed;
  encode_perm = λ perm. bytes "{\"perm\":\"" ++ (perm ++ bytes "\"}");
  LruCache = HashMap ℕ FileAttr;
  lru_new = λ n. [];
  lru_get = λ k c. (HashMap.get k c, c);
  lru_put = λ k a c. HashMap.insert k a c;
  lru_pop = λ k c. HashMap.remove k c;
  hash_order = λ w m. m;
}

abbrev pub lru_config : Config
lru_config = record Config.default { cache_strategy = CacheStrategy.lru }

-- The file "a" has inode 2, and the handle 1 has two blocks for it that stand apart.
abbrev pub blocks : HashMap ℕ Bytes
blocks = (0, bytes "XY") ∷ (7, bytes "Z") ∷ []

abbrev pub written : OpenWriteFile
written = record { path = bytes "a"; buffer = blocks }

abbrev pub mounted_fs : RemoteFs here
mounted_fs = new here Config.default 3 4

abbrev pub open_sys : Sys here
open_sys = record {
  fs = record mounted_fs {
    inode_to_path = (2, bytes "a") ∷ [];
    path_to_inode = (bytes "a", 2) ∷ [];
    open_files = (1, written) ∷ [];
  };
  world = 5;
}

pub here-IsHashOrder : IsHashOrder here
here-IsHashOrder w m = Perm.refl m
