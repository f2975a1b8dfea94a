-- ===== src/Server/Disk.antt =====
-- What the handlers of server/src/handlers.rs call of std::fs and tokio::fs. An operation that
-- fails may have changed the disk too.
pub mod Tree
pub mod Store
use rust_remote_fs.Prelude.{ℕ, ◌≡◌, ◌≢◌, Bool, true, Option, some, List, [], ◌++◌, Text}
use rust_remote_fs.Wire.{Bytes}

-- `modified` is in whole seconds since `UNIX_EPOCH`; `none` if it is not known or lies before.
pub record Metadata : Type 0 where
  pub is_dir : Bool
  pub len : ℕ
  pub mode : ℕ
  pub modified : Option ℕ

-- An entry's name, read with replacements for what is no UTF-8, and its metadata.
abbrev pub DirLine : Type 0
DirLine = Text × Option Metadata

pub record Disk : Type 1 where
  pub State : Type 0
  pub metadata : Text → State → Option Metadata
  -- `none` for an entry that cannot be read
  pub read_dir : Text → State → Option (List (Option DirLine))
  pub create : Text → State → Bool × State
  -- To the file that `create` has just opened at the path. `true` is that tokio has taken the bytes:
  -- the write itself may still be under way, or fail later.
  pub write_all : Text → Bytes → State → Bool × State
  pub create_dir_all : Text → State → Bool × State
  pub remove_dir_all : Text → State → Bool × State
  pub remove_file : Text → State → Bool × State
  pub set_permissions : Text → ℕ → State → Bool × State

-- `File::create` begins an empty file, and `write_all` appends to what was taken for it before.
pub record IsDisk (D : Disk) : Type 1 where
  -- A path without an empty or a `.` or `..` component and without a link on its way: clean paths
  -- that differ name different files.
  pub Clean : Text → Type 0
  -- The bytes that have been taken for the file since it was made, whether they have been written
  -- or not, if it is there.
  pub content : Text → D.State → Option Bytes
  -- What a reader finds in the file.
  pub stored : Text → D.State → Option Bytes
  -- All that has been taken for the file has been written without an error.
  pub Settled : Text → D.State → Type 0
  pub settled_lem : (p : Text) (s : D.State) → Settled p s → stored p s ≡ content p s
  pub create-content :
      (p : Text) (s : D.State) → (D.create p s).0 ≡ true → content p (D.create p s).1 ≡ some []
  pub write_all-content :
      (p : Text) (chunk old : Bytes) (s : D.State)
      → (D.write_all p chunk s).0 ≡ true
      → content p s ≡ some old
      → content p (D.write_all p chunk s).1 ≡ some (old ++ chunk)
  pub create-other :
      (p q : Text) (s : D.State)
      → Clean p
      → Clean q
      → p ≢ q
      → content q (D.create p s).1 ≡ content q s
  pub write_all-other :
      (p q : Text) (chunk : Bytes) (s : D.State)
      → Clean p
      → Clean q
      → p ≢ q
      → content q (D.write_all p chunk s).1 ≡ content q s
