-- ===== src/Server/Disk/Tree.antt =====
-- A disk as a tree of files and directories, as std::fs documents what it removes and lists.
use rust_remote_fs.Prelude.{◌≡◌, Bool, true, false, Option, none, some, Text}
use rust_remote_fs.Prelude.Paths.{Under, Disjoint}
use rust_remote_fs.Server.Disk.{Disk, Metadata}

abbrev pub kind_of : Option Metadata → Option Bool
kind_of none = none
kind_of (some metadata) = some metadata.is_dir

-- Whether there is a directory at the path, or a file, or nothing.
abbrev pub kind_at : (D : Disk) → Text → D.State → Option Bool
kind_at D p d = kind_of (D.metadata p d)

-- Nothing is left at a path and below it, and nothing has changed elsewhere. A directory that has no
-- part in it is listed as before.
pub record Removed (D : Disk) (p : Text) (d after : D.State) : Type 0 where
  pub gone : (q : Text) → Under p q → kind_at D q after ≡ none
  pub kinds : (q : Text) → ¬ (Under p q) → kind_at D q after ≡ kind_at D q d
  pub lists : (q : Text) → Disjoint p q → D.read_dir q after ≡ D.read_dir q d

-- A file that is there can be removed, and a directory with all that it holds.
pub record IsTree (D : Disk) : Type 0 where
  pub remove_file_lem :
      (p : Text) (d : D.State)
      → kind_at D p d ≡ some false
      → ((D.remove_file p d).0 ≡ true) × Removed D p d (D.remove_file p d).1
  pub remove_dir_all_lem :
      (p : Text) (d : D.State)
      → kind_at D p d ≡ some true
      → ((D.remove_dir_all p d).0 ≡ true) × Removed D p d (D.remove_dir_all p d).1
