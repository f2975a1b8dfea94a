-- ===== src/Tests/Reading.antt =====
-- Reading at concrete ranges: positions 1 to 3 of "abcdef".
use rust_remote_fs.Prelude.{
  List, ◌∷◌, [], ◌+◌, ◌<◌, ℕ, ◌≡◌, refl, arith, some, bytes, nat_eq, none, strip_prefix, split,
  length, ◌≤◌,
}
use rust_remote_fs.HashMap
use rust_remote_fs.Radix.{u64_mod, from_str_radix}
use rust_remote_fs.Outcome.{ok, ◌>>=◌}
use rust_remote_fs.Server.GetFile.{parse_range}
use rust_remote_fs.Server.GetFile.Range.{parse_range-range_header}
use rust_remote_fs.Client.Api.{get_files_from_server, range_header}
use rust_remote_fs.Client.Read.{DirEntry, read, readdir}
use rust_remote_fs.Client.Read.Listing.{never_full, entry_names, readdir-names}
use rust_remote_fs.Client.State.{Sys, new}
use rust_remote_fs.EndToEnd.Reading.{read-get_file}
use rust_remote_fs.Tests.World.{here, listed, abcdef, open_sys}

inode_mapped : HashMap.get 2 open_sys.fs.inode_to_path ≡ some (bytes "a")
unfolding HashMap.get
inode_mapped = ground arith

read-get_file_example : read here 2 1 3 open_sys ≡ (ok (bytes "bcd"), record open_sys { world = 6 })
read-get_file_example =
    read-get_file here open_sys 2 1 3 (bytes "a") abcdef inode_mapped refl refl (λ n. refl)
      (omega arith) (omega arith)

parse_range-range_header_example : parse_range (range_header 1 3) ≡ some (1, 3)
parse_range-range_header_example = parse_range-range_header 1 3 (omega arith) (omega arith)

parsed : parse_range (bytes "bytes=1-3") ≡ some (1, 3)
unfolding parse_range strip_prefix split from_str_radix
parsed = refl

unparsed_none : parse_range (bytes "lines=1-3") ≡ none
unfolding parse_range strip_prefix
unparsed_none = refl

unparsed :
    (a b : ℕ) → parse_range (bytes "lines=1-3") ≡ some (a, b) → a ≤ b → length abcdef.content ≤ b
unparsed a b e = ground (arith, unparsed_none)

listing :
    get_files_from_server here (bytes "a") open_sys
    ≡ (ok (some listed), record open_sys { world = 6 })
unfolding get_files_from_server ◌>>=◌
listing = refl

room : open_sys.fs.next_inode + length listed < u64_mod
unfolding new
room = omega arith

readdir-names_example :
    (lines : List DirEntry) × (u : Sys here) × (readdir here never_full 2 0 open_sys
      ≡ (ok lines, u))
    × (entry_names lines ≡ bytes "." ∷ bytes ".." ∷ bytes "a" ∷ [])
readdir-names_example =
    readdir-names here 2 (bytes "a") listed open_sys (record open_sys { world = 6 }) inode_mapped
      listing room
