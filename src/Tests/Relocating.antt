-- ===== src/Tests/Relocating.antt =====
-- A disk with a directory and a file in it, which the client moves.
use mathlib.Core.List.{append-nil}
use mathlib.Core.Logic.{if_pos, if_neg}
use rust_remote_fs.Prelude.{
  ℕ, ◌≡◌, ◌≢◌, refl, sym, ap, arith, inl, true, Option, none, some, List, [], ◌∷◌, ◌++◌, Text,
  bytes, length, text_eq, nat_eq, ite,
}
use rust_remote_fs.Prelude.Paths.{under, Under, Disjoint-siblings}
use rust_remote_fs.HashMap
use rust_remote_fs.Wire.{Bytes}
use rust_remote_fs.Server.Disk.{Disk, IsDisk, Metadata, DirLine}
use rust_remote_fs.Server.Disk.Store.{Changes, IsStore}
use rust_remote_fs.Server.Handlers.{entries_of, entry_of, list_directory_contents}
use rust_remote_fs.Server.Handlers.PutFile.{body_bytes}
use rust_remote_fs.Client.Attributes.{FileType}
use rust_remote_fs.Client.Platform.{Platform}
use rust_remote_fs.Client.State.{Sys}
use rust_remote_fs.Client.Delete.{is_dir, is_directory}
use rust_remote_fs.Client.Rename.{rename}
use rust_remote_fs.EndToEnd.ReadBack.{IsWhole}
use rust_remote_fs.EndToEnd.Relocating.Trees.{Tree, file, directory, bare, branch, Stands}
use rust_remote_fs.EndToEnd.Relocating.Elsewhere.{Apart}
use rust_remote_fs.EndToEnd.Relocating.Renaming.{Relocates, rename-Relocates}
use rust_remote_fs.Tests.Network.{Opener, web, wired, wired_fs, wired-IsServed}
use rust_remote_fs.Tests.ReadBack.{opened}
use rust_remote_fs.Tests.Storing.{or_none}
use rust_remote_fs.Tests.Deleting.{dir_metadata, file_metadata, listed_file, no_slash, plain_name}

abbrev pub Shelf : Type 0
Shelf = Text → Option Bytes

abbrev set : Text → Option Bytes → Shelf → Shelf
set p v s q = ite (text_eq.dec p q) v (s q)

abbrev clear : Text → Shelf → Shelf
clear p s q = ite (under p q) none (s q)

abbrev metadata_of : Option Bytes → Metadata
metadata_of none = dir_metadata
metadata_of (some content) = file_metadata

abbrev in_a : List (Option DirLine)
in_a = some (bytes "b", some file_metadata) ∷ []

abbrev pub shelf : Disk
shelf = record {
  State = Shelf;
  metadata = λ p s. some (metadata_of (s p));
  read_dir = λ p s. some (ite (text_eq.dec p (bytes "/data/a")) in_a []);
  create = λ p s. (true, set p (some []) s);
  write_all = λ p chunk s. (true, set p (some (or_none (s p) ++ chunk)) s);
  create_dir_all = λ p s. (true, s);
  remove_dir_all = λ p s. (true, clear p s);
  remove_file = λ p s. (true, clear p s);
  set_permissions = λ p mode s. (true, s);
}

pub shelf-IsDisk : IsDisk shelf
shelf-IsDisk = record {
  Clean = λ p. Unit;
  content = λ p s. s p;
  stored = λ p s. s p;
  Settled = λ p s. Unit;
  settled_lem = λ p s settled. refl;
  create-content = λ p s done. ground arith;
  write_all-content = λ p chunk old s done e. ground arith;
  create-other = λ p q s cp cq ne. ground arith;
  write_all-other = λ p q chunk s cp cq ne. ground arith;
}

set-Changes : (p : Text) (v : Option Bytes) (d : Shelf) → Changes shelf-IsDisk p d (set p v d)
unfolding shelf-IsDisk
set-Changes p v d = record {
  contents = λ q c h. let ne : p ≢ q = λ e. h (inl (sym e)) in ground arith;
  settled = λ q c h k. tt;
  lists = λ q c apart. refl;
}

clear-Changes : (p : Text) (d : Shelf) → Changes shelf-IsDisk p d (clear p d)
unfolding shelf-IsDisk
clear-Changes p d = record {
  contents = λ q c h. if_neg (under p q) h _ _;
  settled = λ q c h k. tt;
  lists = λ q c apart. refl;
}

cleared : (p q : Text) (d : Shelf) → Under p q → clear p d q ≡ none
cleared p q d h = if_pos (under p q) h _ _

pub shelf-IsStore : IsStore shelf-IsDisk
unfolding shelf-IsDisk
shelf-IsStore = record {
  create-Changes = λ p d clean. set-Changes p _ d;
  write_all-Changes = λ p chunk d clean. set-Changes p _ d;
  create_dir_all-Changes = λ p d clean. record {
    contents = λ q c h. refl;
    settled = λ q c h k. tt;
    lists = λ q c h. refl;
  };
  remove_file-Changes = λ p d clean. clear-Changes p d;
  remove_dir_all-Changes = λ p d clean. clear-Changes p d;
  remove_file-gone = λ p q d done h. cleared p q d h;
  remove_dir_all-gone = λ p q d done h. cleared p q d h;
}

abbrev pub reader : Opener shelf
reader p d = opened (d p)

pub reader-IsWhole : IsWhole shelf-IsDisk (web shelf reader)
unfolding body_bytes shelf-IsDisk
reader-IsWhole = record {
  open_file_lem = λ p d content settled there. (
    record { metadata_len = some (length content); seek = λ n. true; content = content },
    ap opened there,
    refl,
    λ n. refl,
    refl,
  );
  frames_of_lem = λ content. append-nil content;
}

abbrev pub net : Platform
net = wired shelf reader

-- The file stands in the directory "a".
abbrev stocked : Shelf
stocked = set (bytes "/data/a/b") (some (bytes "xy")) (λ p. none)

abbrev dir_sys : Sys net
dir_sys = record {
  fs = record (wired_fs shelf reader) {
    inode_to_path = (1, []) ∷ (2, bytes "a") ∷ [];
    path_to_inode = ([], 1) ∷ (bytes "a", 2) ∷ [];
    inode_to_type = (2, FileType.directory) ∷ [];
  };
  world = record { recent_mods = []; disk = stocked };
}

abbrev tree : Tree
tree = directory (branch (bytes "b") (file (bytes "xy")) bare)

root_known : HashMap.get 1 dir_sys.fs.inode_to_path ≡ some []
unfolding HashMap.get
root_known = ground arith

dir_known : HashMap.get (bytes "a") dir_sys.fs.path_to_inode ≡ some 2
unfolding HashMap.get text_eq
dir_known = refl

is_dir_known : is_dir (HashMap.get 2 dir_sys.fs.inode_to_type) ≡ true
unfolding HashMap.get is_dir
is_dir_known = ground arith

tree-Stands : Stands shelf-IsDisk (bytes "/data") tree (bytes "a") stocked
unfolding shelf-IsDisk list_directory_contents entries_of is_directory entry_of text_eq
tree-Stands = (tt, listed_file ∷ [], refl, (refl, refl, (tt, tt, refl), tt))

pub on_shelf : (p : Text) (s : Shelf) → shelf-IsDisk.Clean p × shelf-IsDisk.Settled p s
unfolding shelf-IsDisk
on_shelf p s = (tt, tt)

clean : (p : Text) → shelf-IsDisk.Clean p
clean p = (on_shelf p stocked).0

abbrev first : Text → ℕ
first [] = 0
first (c ∷ text) = c

a_not_c : bytes "a" ≢ bytes "c"
a_not_c e = let codes : 97 ≡ 99 = ap first e in absurd (omega (arith, codes))

apart : Apart shelf-IsDisk (bytes "/data") (bytes "a") (bytes "c")
apart =
    Disjoint-siblings (bytes "/data") (bytes "a") (bytes "c") (no_slash b'a' (λ e. omega arith))
      (no_slash b'c' (λ e. omega arith)) a_not_c

rename-Relocates_example :
    Relocates shelf-IsDisk reader-IsWhole shelf-IsStore dir_sys
      (wired-IsServed shelf reader)
      tree
      (bytes "a")
      (bytes "c")
      (rename net 2 1 (some (bytes "a")) 1 (some (bytes "c")) dir_sys)
rename-Relocates_example =
    rename-Relocates shelf-IsDisk reader-IsWhole shelf-IsStore dir_sys (wired-IsServed shelf reader)
      tree 2 1 2 1 [] (bytes "a") [] (bytes "c") root_known root_known dir_known is_dir_known
      (tt, tt) (plain_name, tt, tt, tt)
      ((tt, clean (bytes "/data/a")), ((tt, clean (bytes "/data/a/b")), tt))
      ((tt, clean (bytes "/data/c")), ((tt, clean (bytes "/data/c/b")), tt)) (λ e. cc) (λ e. cc)
      apart tree-Stands
