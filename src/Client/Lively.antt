-- ===== src/Client/Lively.antt =====
-- What a client of client/src has to meet so that none of its handlers panics: a server with
-- listings and a clock as there are, and a state whose counters are far from their end.
pub mod Steps
pub mod Handlers
pub mod Writing
pub mod Removal
pub mod Session
use rust_remote_fs.Prelude.{
  ℕ, ◌+◌, ◌*◌, ◌^◌, ◌≤◌, ◌<◌, ◌≡◌, Option, some, none, List, [], Text, nat_eq, length,
}
use mathlib.Core.List.{Mem}
use rust_remote_fs.HashMap
use rust_remote_fs.HashMap.{HashMap}
use rust_remote_fs.Radix.{u32_mod, u64_mod}
use rust_remote_fs.Wire.{RemoteEntry, Method, Request, Response}
use rust_remote_fs.Client.Attr.{isize_mod}
use rust_remote_fs.Client.Attributes.{nanos_per_sec}
use rust_remote_fs.Client.Api.{request, list_url}
use rust_remote_fs.Client.Platform.{Platform, IsHashOrder}
use rust_remote_fs.Client.State.{Sys, OpenWriteFile}
use rust_remote_fs.Client.Write.Merge.{Block, end_of}

-- A size and a time as a file can have them.
abbrev pub IsSane : RemoteEntry → Type 0
IsSane entry = (entry.size + 511 < u64_mod) × (entry.mtime < 2 ^ 63)

abbrev pub AreSane : List RemoteEntry → Type 0
AreSane entries =
    (length entries < u32_mod) × ((entry : RemoteEntry) → Mem entry entries → IsSane entry)

-- The size is one that a vector can have.
abbrev pub FitsVec : Option ℕ → Type 0
FitsVec none = Unit
FitsVec (some size) = size < isize_mod

-- What the client relies on. The server lists fewer than 2^32 entries at a time, with sizes and
-- times that fit. The clock has
-- not run for 2^62 seconds. An iteration over a `HashMap` gives each block once.
pub record IsUsual (P : Platform) : Type 0 where
  pub listings :
      (req : Request) (w : P.World) (response : Response) (entries : List RemoteEntry)
      → (P.send req w).0 ≡ some response
      → P.decode_entries response.body ≡ some entries
      → AreSane entries
  pub clock : (w : P.World) → P.instant_now w < 2 ^ 62 * nanos_per_sec
  pub order : IsHashOrder P

-- The counters are at most `c`, every written block ends below 2^63, and the time to live is below
-- 2^62 seconds.
pub record Fits (c next_inode next_fh : ℕ) (open_files : HashMap ℕ OpenWriteFile)
    (cache_ttl_seconds : ℕ) : Type 0 where
  pub inodes : next_inode ≤ c
  pub handles : next_fh ≤ c
  pub blocks :
      (fh : ℕ) (f : OpenWriteFile)
      → HashMap.get fh open_files ≡ some f
      → (b : Block) → Mem b f.buffer
      → end_of b < isize_mod
  pub time_to_live : cache_ttl_seconds < 2 ^ 62

abbrev pub FitsSys : {P : Platform} → ℕ → Sys P → Type 0
FitsSys c s = Fits c s.fs.next_inode s.fs.next_fh s.fs.open_files s.fs.config.cache_ttl_seconds
