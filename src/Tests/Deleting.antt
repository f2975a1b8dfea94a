-- ===== src/Tests/Deleting.antt =====
-- A disk with one directory and a file in it, which the client deletes.
use rust_remote_fs.Prelude.{
  ℕ, ◌≡◌, nat_eq, ◌≢◌, refl, sym, ap, subst, ◌∙◌, arith, inl, inr, Bool, true, false, Option, none,
  some, List, [], ◌∷◌, Text, bytes, text_eq, ite, if◌then◌else◌,
}
use rust_remote_fs.Prelude.Paths.{Under, Disjoint, Simple, joined, not-Under-child}
use rust_remote_fs.Radix.{print}
use rust_remote_fs.Wire.{RemoteEntry}
use rust_remote_fs.Server.Disk.{Disk, DirLine, Metadata}
use rust_remote_fs.Server.Disk.Tree.{kind_at, Removed, IsTree}
use rust_remote_fs.Server.Handlers.{ServerState, entries_of, entry_of, list_directory_contents}
use rust_remote_fs.HashMap
use rust_remote_fs.Outcome.{ok}
use rust_remote_fs.Client.Attributes.{directory}
use rust_remote_fs.Client.Platform.{IsLru}
use rust_remote_fs.Client.State.{Sys}
use rust_remote_fs.Client.Delete.{is_directory, recursive_delete, unlink}
use rust_remote_fs.Client.Delete.Effects.{Forgets}
use rust_remote_fs.EndToEnd.Deleting.Unlinking.{unlink-Removed}
use rust_remote_fs.Tests.Lru.{here-IsLru}
use rust_remote_fs.EndToEnd.Deleting.{Clears, recursive_delete-Clears}
use rust_remote_fs.EndToEnd.Deleting.Trees.{Within}
use rust_remote_fs.Tests.Network.{wired, wired_fs, wired-IsServed, no_file}

abbrev pub dir_path : Text
dir_path = bytes "/data/a"

abbrev pub file_path : Text
file_path = bytes "/data/a/b"

abbrev pub dir_metadata : Metadata
dir_metadata = record { is_dir = true; len = 0; mode = 0o40755; modified = some 7 }

abbrev pub file_metadata : Metadata
file_metadata = record { is_dir = false; len = 6; mode = 0o100644; modified = some 7 }

-- Whether the directory and the file are there.
abbrev pub Held : Type 0
Held = Bool × Bool

abbrev pub found : Text → Held → Option Metadata
found p held =
    ite (text_eq.dec dir_path p) (if held.0 then some dir_metadata else none)
      (ite (text_eq.dec file_path p) (if held.1 then some file_metadata else none) none)

abbrev pub lines : Text → Held → Option (List (Option DirLine))
lines p held =
    ite (text_eq.dec dir_path p)
      (some (if held.1 then some (bytes "b", some file_metadata) ∷ [] else [])) none

abbrev pub removed : Text → Held → Bool × Held
removed p held = (
  true,
  ite (text_eq.dec dir_path p) (false, false) (ite (text_eq.dec file_path p) (held.0, false) held),
)

abbrev pub small : Disk
small = record {
  State = Held;
  metadata = found;
  read_dir = lines;
  create = λ p d. (false, d);
  write_all = λ p chunk d. (false, d);
  create_dir_all = λ p d. (false, d);
  remove_dir_all = removed;
  remove_file = removed;
  set_permissions = λ p mode d. (false, d);
}

file_below : file_path ≡ joined dir_path (bytes "b")
file_below = refl

off_dir : (p q : Text) → ¬ (Under p q) → dir_path ≡ p → dir_path ≢ q
off_dir p q h here there = h (inl (sym there ∙ here))

below_dir : (p q : Text) → ¬ (Under p q) → dir_path ≡ p → file_path ≢ q
below_dir p q h here there = h (inr (bytes "b", sym there ∙ ap (λ x. joined x (bytes "b")) here))

off_file : (p q : Text) → ¬ (Under p q) → file_path ≡ p → file_path ≢ q
off_file p q h here there = h (inl (sym there ∙ here))

around_file : (p q : Text) → Disjoint p q → file_path ≡ p → dir_path ≢ q
around_file p q apart here there =
    apart.1 (inr (bytes "b", sym here ∙ ap (λ x. joined x (bytes "b")) there))

not_above : (p q : Text) → Under p q → file_path ≡ p → dir_path ≢ q
not_above p q under here there =
    not-Under-child dir_path (bytes "b")
      (subst (λ x. Under x dir_path) (sym here) (subst (λ x. Under p x) (sym there) under))

removed-Removed :
    (p : Text) (d : Held) (b : Bool)
    → kind_at small p d ≡ some b
    → Removed small p d (removed p d).1
removed-Removed p d b there = record {
  gone = λ q under. ground (arith, not_above p q under);
  kinds = λ q h. ground (arith, off_dir p q h, below_dir p q h, off_file p q h);
  lists = λ q apart. ground (arith, off_dir p q apart.0, around_file p q apart);
}

small-IsTree : IsTree small
small-IsTree = record {
  remove_file_lem = λ p d there. (refl, removed-Removed p d _ there);
  remove_dir_all_lem = λ p d there. (refl, removed-Removed p d _ there);
}

abbrev pub full : ServerState small
full = record { recent_mods = []; disk = (true, true) }

pub no_slash : (c : ℕ) → c ≢ b'/' → Simple (c ∷ [])
no_slash c ne [] after same = ne cc
no_slash c ne (d ∷ []) after same = cc
no_slash c ne (d ∷ e ∷ before) after same = cc

pub plain_name : Simple (bytes "b")
plain_name = no_slash b'b' (λ e. omega arith)

abbrev pub listed_file : RemoteEntry
listed_file = record {
  name = bytes "b";
  kind = bytes "file";
  size = 6;
  mtime = 7;
  perm = print 8 0o644;
}

full-Within : Within small (bytes "/data") (λ p. Unit) 2 (bytes "a") (true, true)
unfolding list_directory_contents entries_of is_directory entry_of text_eq
full-Within = (refl, tt, listed_file ∷ [], refl, (tt, tt), ((plain_name, tt, refl), tt))

recursive_delete-Clears_example :
    Clears
      (wired_fs small (no_file small))
      (wired-IsServed small (no_file small))
      small-IsTree
      (bytes "a")
      (recursive_delete (wired small (no_file small)) 2 (bytes "a"))
      full
recursive_delete-Clears_example =
    recursive_delete-Clears (wired_fs small (no_file small)) (wired-IsServed small (no_file small))
      small-IsTree 2 (bytes "a") full (λ e. cc) full-Within

-- The client knows the root and the directory.
abbrev dir_sys : Sys (wired small (no_file small))
dir_sys = record {
  fs = record (wired_fs small (no_file small)) {
    inode_to_path = (1, []) ∷ (2, bytes "a") ∷ [];
    path_to_inode = ([], 1) ∷ (bytes "a", 2) ∷ [];
    inode_to_type = (2, directory) ∷ [];
  };
  world = full;
}

wired-IsLru : IsLru (wired small (no_file small))
wired-IsLru = record {
  peek = here-IsLru.peek;
  get-peek = here-IsLru.get-peek;
  peek-get = here-IsLru.peek-get;
  peek-put_self = here-IsLru.peek-put_self;
  peek-put_ne = here-IsLru.peek-put_ne;
  peek-pop_self = here-IsLru.peek-pop_self;
  peek-pop_ne = here-IsLru.peek-pop_ne;
  peek-new = here-IsLru.peek-new;
}

root_known : HashMap.get 1 dir_sys.fs.inode_to_path ≡ some []
unfolding HashMap.get
root_known = ground arith

dir_known : HashMap.get (bytes "a") dir_sys.fs.path_to_inode ≡ some 2
unfolding HashMap.get text_eq
dir_known = refl

is_directory_known : HashMap.get 2 dir_sys.fs.inode_to_type ≡ some directory
unfolding HashMap.get
is_directory_known = ground arith

unlink-Removed_example :
    let r = unlink (wired small (no_file small)) 2 1 (some (bytes "a")) dir_sys in
    (r.0 ≡ ok tt)
    × Forgets (wired small (no_file small)) (bytes "a") 2 dir_sys.fs r.1.fs
    × Removed small dir_path (true, true) r.1.world.disk
unlink-Removed_example =
    unlink-Removed wired-IsLru small-IsTree dir_sys (wired-IsServed small (no_file small)) 2 1 2 []
      (bytes "a") root_known dir_known is_directory_known (λ e. cc) full-Within
