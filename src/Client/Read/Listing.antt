-- ===== src/Client/Read/Listing.antt =====
-- What `readdir` of client/src/fs/read.rs replies with for a whole directory.
use mathlib.Core.List.{map, append-nil}
use rust_remote_fs.Prelude.{
  ℕ, ◌+◌, ◌<◌, ◌≤◌, ◌≡◌, refl, ap, ◌∙◌, sym, Bool, false, some, Option-cases, inl, inr, List, [],
  ◌∷◌, ◌++◌, Text, bytes, arith, length, nat_eq, text_eq,
}
use rust_remote_fs.HashMap
use rust_remote_fs.Radix.{u64_mod}
use rust_remote_fs.Wire.{RemoteEntry}
use rust_remote_fs.Outcome.{ok, ◌>>=◌}
use rust_remote_fs.Client.Attributes.{FileType, directory}
use rust_remote_fs.Client.Platform.{Platform}
use rust_remote_fs.Client.State.{Sys, path_of, child_path}
use rust_remote_fs.Client.Api.{get_files_from_server}
use rust_remote_fs.Client.Attr.{kind_of}
use rust_remote_fs.Client.Read.{
  DirEntry, parent_inode, new_inode, inode_for, set_type, list_entries, fill, readdir,
}

abbrev pub names : List RemoteEntry → List Text
names entries = map (λ e. e.name) entries

abbrev Line : Type 0
Line = ℕ × FileType × Text

abbrev line_names : List Line → List Text
line_names lines = map (λ l. l.2) lines

abbrev pub entry_names : List DirEntry → List Text
entry_names entries = map (λ e. e.name) entries

-- The kernel's buffer has room for every line.
abbrev pub never_full : List DirEntry → DirEntry → Bool
never_full added line = false

map-snoc :
    {A : Type 0} (f : A → Text) (xs : List A) (a : A) (rest : List Text)
    → map f (xs ++ (a ∷ [])) ++ rest ≡ map f xs ++ (f a ∷ rest)
map-snoc f [] a rest = refl
map-snoc f (x ∷ xs) a rest = ap (λ r. f x ∷ r) (map-snoc f xs a rest)

module _ (P : Platform) where
  inode_for-ok :
      (path : Text) (s : Sys P)
      → s.fs.next_inode + 1 < u64_mod
      → (inode : ℕ) × (t : Sys P) × (inode_for P path s ≡ (ok inode, t))
        × (t.fs.next_inode ≤ s.fs.next_inode + 1)
  unfolding inode_for new_inode ◌>>=◌
  inode_for-ok path s room = elim (Option-cases (HashMap.get path s.fs.path_to_inode)) [
    | inl unknown ↦
        let t : Sys P = record s {
          fs = record s.fs {
            next_inode = s.fs.next_inode + 1;
            inode_to_path = HashMap.insert s.fs.next_inode path s.fs.inode_to_path;
            path_to_inode = HashMap.insert path s.fs.next_inode s.fs.path_to_inode;
          };
        } in
        (s.fs.next_inode, t, ground (arith, unknown), omega arith)
    | inr ((inode, known)) ↦ (inode, s, ground (arith, known), omega arith)
  ]

  list_entries-names :
      (dir_path : Text) (entries : List RemoteEntry) (lines : List Line) (s : Sys P)
      → s.fs.next_inode + length entries < u64_mod
      → (all : List Line) × (t : Sys P) × (list_entries P dir_path entries lines s ≡ (ok all, t))
        × (line_names all ≡ line_names lines ++ names entries)
  unfolding list_entries set_type ◌>>=◌
  list_entries-names dir_path [] lines s room = (lines, s, refl, sym (append-nil _))
  list_entries-names dir_path (entry ∷ entries) lines s room =
      let (inode, t, found, small) =
        inode_for-ok (child_path dir_path entry.name) s (omega arith) in
      let kind = kind_of entry in
      let typed : Sys P = record t {
        fs = record t.fs { inode_to_type = HashMap.insert inode kind t.fs.inode_to_type };
      } in
      let (all, u, listed, named) =
        list_entries-names dir_path entries (lines ++ ((inode, kind, entry.name) ∷ [])) typed
          (omega arith) in
      (
        all,
        u,
        rw (found, listed) refl,
        named ∙ map-snoc (λ l. l.2) lines (inode, kind, entry.name) (names entries),
      )

  fill-names :
      (i : ℕ) (lines : List Line) (added : List DirEntry)
      → entry_names (fill P never_full i lines added) ≡ entry_names added ++ line_names lines
  unfolding fill
  fill-names i [] added = sym (append-nil _)
  fill-names i ((ino, kind, name) ∷ lines) added =
      let line : DirEntry = record { ino = ino; offset = i + 1; kind = kind; name = name } in
      fill-names (i + 1) lines (added ++ (line ∷ []))
      ∙ map-snoc (λ e. e.name) added line (line_names lines)

  -- A `readdir` from offset 0 at a known inode, when the server sends a listing, the kernel's
  -- buffer has room for every line, and there are as many inode numbers left below 2^64 as entries:
  -- it replies with success, and the names are ".", ".." and those of the listing in its order.
  pub readdir-names :
      (ino : ℕ) (dir_path : Text) (entries : List RemoteEntry) (s t : Sys P)
      → HashMap.get ino s.fs.inode_to_path ≡ some dir_path
      → get_files_from_server P dir_path s ≡ (ok (some entries), t)
      → t.fs.next_inode + length entries < u64_mod
      → (lines : List DirEntry) × (u : Sys P) × (readdir P never_full ino 0 s ≡ (ok lines, u))
        × (entry_names lines ≡ bytes "." ∷ bytes ".." ∷ names entries)
  unfolding readdir path_of ◌>>=◌
  readdir-names ino dir_path entries s t mapped listed room =
      let dot : List Line =
        (ino, directory, bytes ".")
        ∷ (parent_inode P s.fs ino dir_path, directory, bytes "..")
        ∷ [] in
      let (all, u, found, named) = list_entries-names dir_path entries dot t room in
      (fill P never_full 0 all [], u, rw (mapped, listed, found) refl, fill-names 0 all [] ∙ named)
