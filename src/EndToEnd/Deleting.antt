-- ===== src/EndToEnd/Deleting.antt =====
-- `recursive_delete` of client/src/fs/delete.rs against the server's listings and deletions, on a
-- disk with a tree of files and directories.
pub mod Trees
pub mod Unlinking
use rust_remote_fs.Prelude.{
  ℕ, zero, suc, ◌≡◌, refl, Option-cases, Bool-cases, subst, ◌≢◌, ap, sym, ◌∙◌, Bool, true, false,
  Option, none, some, inl, inr, List, [], ◌∷◌, ◌++◌, Text, bytes, arith, if◌then◌else◌,
}
use rust_remote_fs.Prelude.Paths.{
  joined, joined_ne, joined_assoc, Under, Disjoint, Simple, not-Under-child, Under-parent,
  Disjoint-child, Disjoint-comm, Disjoint-siblings,
}
use rust_remote_fs.Wire.{RemoteEntry, Headers}
use rust_remote_fs.Outcome.{Outcome, ok, some_or, eio, ◌>>=◌}
use rust_remote_fs.Server.Disk.{Disk, Metadata}
use rust_remote_fs.Server.Disk.Tree.{kind_at, kind_of, Removed, IsTree}
use rust_remote_fs.Server.Handlers.{ServerState, file_path, delete_file, list_directory_contents}
use rust_remote_fs.Server.Routes.{Web}
use rust_remote_fs.Client.Platform.{Platform}
use rust_remote_fs.Client.State.{RemoteFs, Sys}
use rust_remote_fs.Client.Api.{delete_resource, get_files_from_server}
use rust_remote_fs.Client.Delete.{is_directory, delete_entries, recursive_delete}
use rust_remote_fs.EndToEnd.Deleting.Trees.{
  All, All-zip, Distinct, Entry, Within, Listed, Listed-other, delete_file-Removed,
}
use rust_remote_fs.EndToEnd.Network.{IsServed, headers, succeeded, Does, api-Does, listing-Reads}

module _ {P : Platform} {D : Disk} {web : Web D} {data_dir : Text} (fs : RemoteFs P)
    (N : IsServed P D web data_dir fs.config.server_url) (T : IsTree D) where
  abbrev pub at_world : P.World → Sys P
  at_world w = record { fs = fs; world = w }

  abbrev pub disk : P.World → D.State
  disk w = (N.state w).disk

  -- The call succeeds, and the path is removed on the server.
  abbrev pub Clears : Text → (Sys P → Outcome Unit × Sys P) → P.World → Type 0
  Clears p call w =
      (w' : P.World) × (call (at_world w) ≡ (ok tt, at_world w'))
      × Removed D (file_path data_dir p) (disk w) (disk w')

  delete-Removed :
      (p : Text) (w : P.World) (b : Bool)
      → N.urls.Plain p
      → p ≢ []
      → kind_at D (file_path data_dir p) (disk w) ≡ some b
      → (w' : P.World) × (delete_resource P p (at_world w) ≡ (ok (some tt), at_world w'))
        × Removed D (file_path data_dir p) (disk w) (disk w')
  unfolding delete_resource ◌>>=◌
  delete-Removed p w b plain ne there =
      let s = at_world w in
      let call = (api-Does s N p plain ne [] 0).1 in
      let done = delete_file-Removed D T data_dir p (headers s N) (N.clock w) (N.state w) b there in
      (
        (delete_resource P p s).1.world,
        ap (λ o. (o, (delete_resource P p s).1)) (call.0 ∙ ap (λ n. ok (succeeded s N n)) done.0),
        subst (λ z. Removed D (file_path data_dir p) (disk w) z.disk) (sym call.1) done.1,
      )

  -- Below the path much may have changed, but nothing else.
  record Inside (p : Text) (d after : D.State) : Type 0 where
    kinds :
        (q : Text)
        → ((name : Text) → ¬ (Under (joined (file_path data_dir p) name) q))
        → kind_at D q after ≡ kind_at D q d
    lists : (q : Text) → Disjoint (file_path data_dir p) q → D.read_dir q after ≡ D.read_dir q d

  abbrev Deleted : ℕ → Type 0
  Deleted depth =
      (q : Text) (w : P.World)
      → q ≢ []
      → Within D data_dir N.urls.Plain depth q (disk w)
      → Clears q (recursive_delete P depth q) w

  entry_call : ℕ → Bool → Text → Sys P → Outcome Unit × Sys P
  entry_call depth b q =
      if b then recursive_delete P depth q else (do res ← delete_resource P q; some_or eio res)

  Entry-Clears :
      (depth : ℕ) (b : Bool) (q : Text) (w : P.World)
      → Deleted depth
      → q ≢ []
      → N.urls.Plain q
      → Entry D data_dir N.urls.Plain b
          (λ child. Within D data_dir N.urls.Plain depth child (disk w))
          q
          (disk w)
      → Clears q (entry_call depth b q) w
  unfolding entry_call ◌>>=◌
  Entry-Clears depth true q w deleted ne plain h = deleted q w ne h
  Entry-Clears depth false q w deleted ne plain h =
      let (w', e, removed) = delete-Removed q w false plain ne h in (w', rw e refl, removed)

  -- The entries are deleted one after the other.
  entries-Inside :
      (depth : ℕ) (p : Text) (entries : List RemoteEntry) (w : P.World)
      → Deleted depth
      → Distinct entries
      → All (Listed D data_dir N.urls.Plain depth p (disk w)) entries
      → (w' : P.World) × (delete_entries P (recursive_delete P depth) p entries (at_world w)
          ≡ (ok tt, at_world w'))
        × Inside p (disk w) (disk w')
  unfolding delete_entries entry_call ◌>>=◌
  entries-Inside depth p [] w deleted distinct all =
      (w, refl, record { kinds = λ q h. refl; lists = λ q h. refl })
  entries-Inside depth p (entry ∷ entries) w deleted distinct all =
      let fp = file_path data_dir p in
      let path = joined p entry.name in
      let (w1, e1, removed) =
        Entry-Clears depth (is_directory entry) path w deleted (joined_ne p entry.name) all.0.1
          all.0.2 in
      let rest =
        All-zip _ _ (Listed D data_dir N.urls.Plain depth p (disk w1)) entries
          (λ other ne h.
            Listed-other D data_dir N.urls.Plain depth p entry.name (disk w) (disk w1) other all.0.0
              removed ne h)
          distinct.0 all.1 in
      let (w2, e2, inside) = entries-Inside depth p entries w1 deleted distinct.1 rest in
      (
        w2,
        rw e1 e2,
        record {
          kinds = λ q h.
              inside.kinds q h
              ∙ removed.kinds q
                  (subst (λ x. ¬ (Under x q)) (joined_assoc data_dir p entry.name) (h entry.name));
          lists = λ q apart.
              inside.lists q apart
              ∙ removed.lists q (
                  subst (λ x. Disjoint x q) (joined_assoc data_dir p entry.name)
                    (Disjoint-comm q (joined fp entry.name)
                      (Disjoint-child q fp entry.name all.0.0 (Disjoint-comm fp q apart))));
        },
      )

  listing_at :
      (path : Text) (w : P.World) (entries : List RemoteEntry)
      → N.urls.Plain path
      → list_directory_contents D data_dir path (disk w) ≡ some entries
      → get_files_from_server P path (at_world w)
        ≡ (ok (some entries), at_world (get_files_from_server P path (at_world w)).1.world)
  unfolding get_files_from_server ◌>>=◌
  listing_at path w entries plain listed =
      ap (λ o. (o, (get_files_from_server P path (at_world w)).1))
        ((listing-Reads (at_world w) N path plain).0 ∙ ap (λ o. ok o) listed)

  pub recursive_delete-Clears :
      (depth : ℕ) (path : Text) (w : P.World)
      → path ≢ []
      → Within D data_dir N.urls.Plain depth path (disk w)
      → Clears path (recursive_delete P depth path) w
  unfolding recursive_delete ◌>>=◌
  recursive_delete-Clears zero path w ne h = elim h [ ]
  recursive_delete-Clears (suc depth) path w ne (dir, plain, entries, listed, distinct, all) =
      let fp = file_path data_dir path in
      let read = listing-Reads (at_world w) N path plain in
      let w1 = (get_files_from_server P path (at_world w)).1.world in
      let same : disk w1 ≡ disk w = ap (λ z. z.disk) read.1 in
      let e1 : get_files_from_server P path (at_world w) ≡ (ok (some entries), at_world w1) =
        listing_at path w entries plain listed in
      let (w2, e2, inside) =
        entries-Inside depth path entries w1 (λ q v ne h. recursive_delete-Clears depth q v ne h)
          distinct
          (subst (λ d. All (Listed D data_dir N.urls.Plain depth path d) entries) (sym same) all) in
      let there =
        inside.kinds fp (λ name. not-Under-child fp name) ∙ ap (λ d. kind_at D fp d) same ∙ dir in
      let (w3, e3, removed) = delete-Removed path w2 true plain ne there in
      (
        w3,
        rw e1 (rw e2 (rw e3 refl)),
        record {
          gone = removed.gone;
          kinds = λ q h.
              removed.kinds q h
              ∙ inside.kinds q (λ name u. h (Under-parent fp q name u))
              ∙ ap (λ d. kind_at D q d) same;
          lists = λ q apart.
              removed.lists q apart ∙ inside.lists q apart ∙ ap (λ d. D.read_dir q d) same;
        },
      )
