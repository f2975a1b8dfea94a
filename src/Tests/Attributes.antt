-- ===== src/Tests/Attributes.antt =====
-- The attributes of a file in the one directory of a small disk.
use mathlib.Core.List.{not-mem-nil}
use rust_remote_fs.Prelude.{
  false, ◌*◌, ◌≡◌, refl, arith, none, some, [], ◌∷◌, bytes, nat_eq, text_eq, rsplit_once,
}
use rust_remote_fs.HashMap
use rust_remote_fs.Outcome.{ok}
use rust_remote_fs.Client.Attributes.{FileAttr, regular_file, nanos_per_sec}
use rust_remote_fs.Client.Cache
use rust_remote_fs.Client.Cache.Laws.{answer}
use rust_remote_fs.Server.Handlers.{ServerState}
use rust_remote_fs.Client.State.{Sys}
use rust_remote_fs.Client.Attr.{split_path, getattr}
use rust_remote_fs.EndToEnd.Attributes.{Unnamed, getattr-metadata}
use rust_remote_fs.Tests.Network.{wired, wired_fs, wired-IsServed, no_file}
use rust_remote_fs.Tests.Deleting.{small, full, file_metadata}

abbrev file_sys : Sys (wired small (no_file small))
file_sys = record {
  fs = record (wired_fs small (no_file small)) { inode_to_path = (3, bytes "a/b") ∷ [] };
  world = full;
}

silent : answer (wired small (no_file small)) 3 9 file_sys.fs.attribute_cache ≡ none
unfolding Cache.get
silent = refl

file_known : HashMap.get 3 file_sys.fs.inode_to_path ≡ some (bytes "a/b")
unfolding HashMap.get
file_known = ground arith

split : split_path (bytes "a/b") ≡ (bytes "a", bytes "b")
unfolding split_path rsplit_once
split = refl

listed :
    small.read_dir (bytes "/data/a") full.disk ≡ some (some (bytes "b", some file_metadata) ∷ [])
unfolding text_eq
listed = refl

none_before : Unnamed (bytes "b") []
none_before line m = absurd (not-mem-nil m)

in_time :
    (w : ServerState small)
    → Cache.overflows
        (wired small (no_file small))
        file_sys.fs.config.cache_ttl_seconds
        9
        file_sys.fs.attribute_cache
      ≡ false
unfolding Cache.overflows
in_time w = refl

getattr-metadata_example :
    let r = getattr (wired small (no_file small)) 3 file_sys in
    (a : FileAttr) × (r.0 ≡ ok a)
    × (a.kind ≡ regular_file)
    × (a.perm ≡ 0o644)
    × (a.size ≡ 6)
    × (a.mtime ≡ 7 * nanos_per_sec)
    × (r.1.world ≡ full)
getattr-metadata_example =
    getattr-metadata file_sys (wired-IsServed small (no_file small)) 3 (bytes "a/b") (bytes "a")
      (bytes "b") file_metadata [] [] (λ e. omega arith) silent file_known split tt listed
      none_before (omega arith) (omega arith) in_time
