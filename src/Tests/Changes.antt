-- ===== src/Tests/Changes.antt =====
-- A file that is created, written, renamed and unlinked, with two entries known to the client.
use rust_remote_fs.Prelude.{ℕ, ◌≡◌, refl, arith, some, [], ◌∷◌, bytes, nat_eq, text_eq}
use rust_remote_fs.HashMap
use rust_remote_fs.HashMap.{HashMap, get-insert}
use rust_remote_fs.Outcome.{ok, ◌>>=◌}
use rust_remote_fs.Client.Attr.{isize_mod}
use rust_remote_fs.Client.Attributes.{FileAttr}
use rust_remote_fs.Client.Cache
use rust_remote_fs.Client.State.{Sys, OpenWriteFile, new}
use rust_remote_fs.Client.Api.{put_file_content_to_server}
use rust_remote_fs.Client.Attr.{getattr}
use rust_remote_fs.Client.Create.{create}
use rust_remote_fs.Client.Create.Effects.{create-getattr}
use rust_remote_fs.Client.Delete.{unlink}
use rust_remote_fs.Client.Delete.Effects as Unlinked
use rust_remote_fs.Client.Delete.Effects.{unlink-Ends}
use rust_remote_fs.Client.Rename.{rename}
use rust_remote_fs.Client.Rename.Effects as Renamed
use rust_remote_fs.Client.Rename.Effects.{rename-Ends}
use rust_remote_fs.Client.Inodes.{IsConsistent}
use rust_remote_fs.Client.Inodes.Trace.{Reachable-IsConsistent}
use rust_remote_fs.Tests.Inodes.{no_toml, mounted_reached}
use mathlib.Core.List.{Mem}
use native.Mathlib.Bridge.{le_prop}
use rust_remote_fs.Prelude.{◌≢◌, ◌<◌, ◌+◌, false}
use rust_remote_fs.Outcome.{reply}
use rust_remote_fs.Server.GetFile.{get_file}
use rust_remote_fs.Client.Api.{get_file_content_from_server}
use rust_remote_fs.Client.Write.{release}
use rust_remote_fs.Client.Write.Merge.{Block, end_of}
use rust_remote_fs.Client.Write.Order.{merge}
use rust_remote_fs.Client.Write.Release.{closed, finish}
use rust_remote_fs.Client.Write.Sequence.{write_each, write_each-release}
use rust_remote_fs.Tests.Writing.{in_blocks, blocks-IsApart}
use rust_remote_fs.Tests.World.{here, mounted_fs, here-IsHashOrder, blocks}
use rust_remote_fs.Tests.Lru.{here-IsLru}

abbrev known_sys : Sys here
known_sys = record {
  fs = record mounted_fs {
    inode_to_path = (2, bytes "a") ∷ (1, []) ∷ [];
    path_to_inode = (bytes "a", 2) ∷ ([], 1) ∷ [];
  };
  world = 5;
}

root_known : HashMap.get 1 known_sys.fs.inode_to_path ≡ some []
unfolding HashMap.get
root_known = ground arith

file_known : HashMap.get (bytes "a") known_sys.fs.path_to_inode ≡ some 2
unfolding HashMap.get
file_known = ground arith

unlink-Ends_example :
    let r = unlink here 3 1 (some (bytes "a")) known_sys in
    Unlinked.Ends here (bytes "a") 2 known_sys.fs r.0 r.1.fs
unlink-Ends_example =
    unlink-Ends here here-IsLru 3 1 2 [] (bytes "a") known_sys root_known file_known

rename-Ends_example :
    let r = rename here 3 1 (some (bytes "a")) 1 (some (bytes "b")) known_sys in
    Renamed.Ends here (bytes "a") (bytes "b") 2 known_sys.fs r.0 r.1.fs
rename-Ends_example =
    rename-Ends here here-IsLru 3 1 2 1 [] (bytes "a") [] (bytes "b") known_sys root_known
      root_known file_known

abbrev at_mount : Sys here
at_mount = record { fs = mounted_fs; world = 9 }

mounted-IsConsistent : IsConsistent mounted_fs
mounted-IsConsistent = Reachable-IsConsistent here no_toml mounted_reached

root_mapped : HashMap.get 1 mounted_fs.inode_to_path ≡ some []
unfolding HashMap.get new
root_mapped = ground (arith, get-insert {K = ℕ} 1 1 (bytes "") [])

stored :
    put_file_content_to_server here (bytes "b") [] at_mount
    ≡ (ok (some tt), record { fs = mounted_fs; world = 10 })
unfolding put_file_content_to_server ◌>>=◌
stored = refl

in_time :
    Cache.overflows here mounted_fs.config.cache_ttl_seconds 10 mounted_fs.attribute_cache ≡ false
unfolding new Cache.new Cache.put Cache.overflows HashMap.insert
in_time = refl

create-getattr_example :
    let r = create here 501 20 1 (some (bytes "b")) 0o644 at_mount in
    (a : FileAttr) × (fh : ℕ) × (r.0 ≡ ok (a, fh))
    × (HashMap.get (bytes "b") r.1.fs.path_to_inode ≡ some a.ino)
    × (HashMap.get fh r.1.fs.open_files ≡ some (record { path = bytes "b"; buffer = [] }))
    × ((getattr here a.ino r.1).0 ≡ ok a)
    × ((getattr here a.ino r.1).1.world ≡ 10)
unfolding new Cache.new Cache.put
create-getattr_example =
    create-getattr here here-IsLru 501 20 1 0o644 [] (bytes "b") at_mount 10 mounted-IsConsistent
      (omega arith) root_mapped stored (omega arith) (omega arith) in_time (λ now a. ground arith)

-- The handle that has just been opened is written twice and released.
abbrev new_handle : OpenWriteFile
new_handle = record { path = bytes "a"; buffer = [] }

abbrev open_handle : Sys here
open_handle = record { fs = record mounted_fs { open_files = (1, new_handle) ∷ [] }; world = 5 }

abbrev fetched_sys : Sys here
fetched_sys = record (closed here 1 (write_each here 1 blocks open_handle)) {
  world = (write_each here 1 blocks open_handle).world + 1;
}

handle_open : HashMap.get 1 open_handle.fs.open_files ≡ some new_handle
unfolding HashMap.get
handle_open = ground arith

fetched :
    get_file_content_from_server here
      (bytes "a")
      (closed here 1 (write_each here 1 blocks open_handle))
    ≡ (ok (some (bytes "abcdef")), fetched_sys)
unfolding get_file_content_from_server ◌>>=◌ get_file reply
fetched = refl

block_fits : (b : Block) → Mem b blocks → (b.1 ≢ []) × (end_of b < isize_mod)
block_fits =
    in_blocks (λ b. (b.1 ≢ []) × (end_of b < isize_mod)) (λ b. hlevel (le_prop))
      (λ e. cc, omega arith) (λ e. cc, omega arith)

write_each-release_example :
    release here 2 1 (write_each here 1 blocks open_handle)
    ≡ finish here 2 new_handle (merge blocks (bytes "abcdef")) fetched_sys
write_each-release_example =
    write_each-release here here-IsHashOrder 2 1 blocks open_handle fetched_sys new_handle
      (some (bytes "abcdef")) handle_open refl (λ e. cc) block_fits blocks-IsApart fetched
