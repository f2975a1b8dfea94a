-- ===== src/Client/Lively/Handlers.antt =====
-- The handlers that look up, read, write and create, on a server and with calls as there are: none
-- of them panics.
use mathlib.Core.List.{Mem, mem-cons_self, mem-cons_of_mem}
use mathlib.Core.Option.{some-injective}
use rust_remote_fs.Prelude.{
  if◌then◌else◌, ℕ, ◌+◌, ◌^◌, ◌<◌, ◌≡◌, refl, Option, none, some, Bool, List, [], ◌∷◌, Text, nat_eq,
  text_eq, arith, length, true, ltb, ap,
}
use rust_remote_fs.Radix.{u32_mod, u64_mod}
use rust_remote_fs.Wire.{Bytes, RemoteEntry}
use rust_remote_fs.Outcome.{reply, abort, ◌>>=◌}
use rust_remote_fs.Outcome.Calm.{
  calm_rules, Gives-bind, Calm-reads, Calm-reply, Calm-bind, Calm-if, Spends-Calm, Spends-if,
  Spends-weaken, Spends-after, Spends-Calm_after, Spends-before, Spends-then, Calm-some_or,
  Calm-unwrap,
}
use rust_remote_fs.Client.Attributes.{FileAttr}
use rust_remote_fs.Client.Platform.{Platform}
use rust_remote_fs.Client.Attr.{
  attributes_of, store_found, find_in, find_entry, fetch_path, fetch_missed,
  fetch_and_cache_attributes, getattr, chmod, truncate, setattr, reserve, resize, isize_mod,
}
use rust_remote_fs.Client.Read.{
  or_insert_inode, inode_for, lookup, dots, list_entries, entries_or_ok, readdir, read, open_,
  DirEntry, Line,
}
use rust_remote_fs.Client.Create.{create, mkdir}
use rust_remote_fs.Client.State.{Sys}
use rust_remote_fs.Client.Lively.{IsUsual, IsSane, FitsVec}
use rust_remote_fs.Client.Lively.Steps.{
  Lives, Takes, grow, get_content-Lives, put_content-Lives, create_directory-Lives,
  update_permissions-Lives, path_of-Lives, get_files-Lives, get_chunk-Lives, cache_remove-Lives,
  cache_get-Lives, set_type-Lives, new_inode-Takes, new_directory-Takes, new_handle-Takes,
  new_file-Takes, cache_put-Lives, Usual, get_files-Gives,
}

ruleset lives_rules = (
  calm_rules, get_content-Lives, put_content-Lives, create_directory-Lives,
  update_permissions-Lives, path_of-Lives, get_files-Lives, cache_remove-Lives, cache_get-Lives,
  set_type-Lives,
)

find_entry-IsSane :
    (name : Text) (entries : List RemoteEntry)
    → ((entry : RemoteEntry) → Mem entry entries → IsSane entry)
    → (entry : RemoteEntry) → find_entry name entries ≡ some entry
    → IsSane entry
unfolding find_entry
find_entry-IsSane name [] sane entry found = cc found
find_entry-IsSane name (e ∷ entries) sane entry found = elim (text_eq.dec e.name name) [
  | yes same ↦
      let first : e ≡ entry = some-injective e entry (ground arith) in
      let sizes : e.size ≡ entry.size = ap (λ d. d.size) first in
      let times : e.mtime ≡ entry.mtime = ap (λ d. d.mtime) first in
      let known = sane e mem-cons_self in
      (omega (arith, sizes, known.0), omega (arith, times, known.1))
  | no other ↦
      find_entry-IsSane name entries (λ d m. sane d (mem-cons_of_mem e m)) entry (ground arith)
]

module _ {P : Platform} (U : IsUsual P) where
  attributes_of-Lives :
      (ino : ℕ) (entry : RemoteEntry) → IsSane entry → Lives (attributes_of P ino entry)
  unfolding attributes_of ◌>>=◌
  attributes_of-Lives ino entry sane =
      let fits : ltb (entry.size + 511) u64_mod ≡ true = ground (arith, sane.0) in
      let in_time : ltb entry.mtime (2 ^ 63) ≡ true = ground (arith, sane.1) in
      record { at = λ c s h. rw (fits, in_time) (h, tt) }

  store_found-Lives :
      (ino : ℕ) (o : Option RemoteEntry)
      → ((entry : RemoteEntry) → o ≡ some entry → IsSane entry)
      → Lives (store_found P ino o)
  store_found-Lives ino none sane = search lives_rules
  store_found-Lives ino (some entry) sane =
      Calm-bind _ _ (attributes_of-Lives ino entry (sane entry refl))
        λ attrs. search (lives_rules, cache_put-Lives U)

  find_in-Lives :
      (ino : ℕ) (name : Text) (o : Option (List RemoteEntry))
      → Usual U o
      → Lives (find_in P ino name o)
  find_in-Lives ino name none usual = search lives_rules
  find_in-Lives ino name (some entries) usual =
      store_found-Lives ino _ (find_entry-IsSane name entries usual.1)

  fetch_path-Lives : (ino : ℕ) (o : Option Text) → Lives (fetch_path P ino o)
  fetch_path-Lives ino none = search lives_rules
  fetch_path-Lives ino (some path) =
      Gives-bind _ _ (get_files-Gives U _) (λ o usual. find_in-Lives ino _ o usual)

  fetch_missed-Lives : (ino : ℕ) (o : Option FileAttr) → Lives (fetch_missed P ino o)
  fetch_missed-Lives ino none = search (lives_rules, fetch_path-Lives)
  fetch_missed-Lives ino (some attr) = search lives_rules

  fetch-Lives : (ino : ℕ) → Lives (fetch_and_cache_attributes P ino)
  unfolding fetch_and_cache_attributes
  fetch-Lives ino = search (lives_rules, fetch_missed-Lives)

  pub getattr-Lives : (ino : ℕ) → Lives (getattr P ino)
  unfolding getattr
  getattr-Lives ino = search (lives_rules, fetch-Lives)

  chmod-Lives : (path : Text) (mode : Option ℕ) → Lives (chmod P path mode)
  chmod-Lives path none = search lives_rules
  chmod-Lives path (some new_mode) = search lives_rules

  reserve-Lives : (n : ℕ) (v : Bytes) → n < isize_mod → Lives (reserve {S = Sys P} n v)
  reserve-Lives n v fits =
      let small : ltb n isize_mod ≡ true = ground (arith, fits) in
      Calm-if (ltb (length v) n) (if ltb n isize_mod then reply tt else abort) (reply tt)
        (rw small (Calm-reply tt)) (Calm-reply tt)

  resize-Lives : (n : ℕ) (v : Bytes) → n < isize_mod → Lives (resize {S = Sys P} n v)
  unfolding resize
  resize-Lives n v fits = Calm-bind _ _ (reserve-Lives n v fits) λ u. Calm-reply _

  truncate-Lives : (path : Text) (size : Option ℕ) → FitsVec size → Lives (truncate P path size)
  truncate-Lives path none fits = search lives_rules
  truncate-Lives path (some new_size) fits = Calm-bind _ _ (get_content-Lives path) λ old_content.
      Calm-bind _ _ (resize-Lives new_size _ fits) λ new_content. search lives_rules depth 7

  pub setattr-Lives :
      (ino : ℕ) (mode size : Option ℕ) → FitsVec size → Lives (setattr P ino mode size)
  unfolding setattr
  setattr-Lives ino mode size fits = Calm-bind _ _ (path_of-Lives ino) λ path.
      Calm-bind _ _ (chmod-Lives path mode) λ u.
        Calm-bind _ _ (truncate-Lives path size fits) λ u. search (lives_rules, fetch-Lives) depth 8

  or_insert_inode-Takes : (path : Text) (o : Option ℕ) → Takes 1 (or_insert_inode P path o)
  or_insert_inode-Takes path none = new_inode-Takes path
  or_insert_inode-Takes path (some inode) = Spends-Calm grow _ (Calm-reply inode)

  inode_for-Takes : (path : Text) → Takes 1 (inode_for P path)
  unfolding inode_for
  inode_for-Takes path =
      Spends-Calm_after grow _ _ (Calm-reads _) (λ known. or_insert_inode-Takes path known)

  pub lookup-Takes : (parent : ℕ) (name : Text) → Takes 1 (lookup P parent (some name))
  unfolding lookup
  lookup-Takes parent name = Spends-Calm_after grow _ _ (path_of-Lives parent) λ parent_path.
      Spends-Calm_after grow _ _ (get_files-Lives parent_path) λ listed.
        Spends-Calm_after grow _ _ (Calm-some_or _ listed) λ entry_list.
          Spends-Calm_after grow _ _ (Calm-unwrap name) λ name_str.
            Spends-Calm_after grow _ _ (Calm-some_or _ _) λ entry.
              Spends-before grow _ _ (inode_for-Takes _) λ inode. search (lives_rules, fetch-Lives)

  list_entries-Takes :
      (dir_path : Text) (entries : List RemoteEntry) (lines : List (Line P))
      → Takes (length entries) (list_entries P dir_path entries lines)
  unfolding list_entries
  list_entries-Takes dir_path [] lines = Spends-Calm grow _ (Calm-reply lines)
  list_entries-Takes dir_path (entry ∷ entries) lines =
      let one_more : length (entry ∷ entries) ≡ 1 + length entries = omega arith in
      rw one_more (
        Spends-then grow _ _ (inode_for-Takes _) λ inode.
          Spends-Calm_after grow _ _ (set_type-Lives inode _)
            λ _. list_entries-Takes dir_path entries _)

  entries_or_ok-Takes :
      (full : List DirEntry → DirEntry → Bool) (dir_path : Text) (offset : ℕ)
      (lines : List (Line P)) (o : Option (List RemoteEntry))
      → Usual U o
      → Takes u32_mod (entries_or_ok P full dir_path offset lines o)
  entries_or_ok-Takes full dir_path offset lines none usual = Spends-Calm grow _ (Calm-reply [])
  entries_or_ok-Takes full dir_path offset lines (some entry_list) usual =
      Spends-before grow _ _
        (Spends-weaken grow _ (omega (arith, usual.0))
          (list_entries-Takes dir_path entry_list lines))
        λ all. Calm-reply _

  dots-Lives : (ino : ℕ) (dir_path : Text) (offset : ℕ) → Lives (dots P ino dir_path offset)
  unfolding dots
  dots-Lives ino dir_path offset = search lives_rules

  pub readdir-Takes :
      (full : List DirEntry → DirEntry → Bool) (ino offset : ℕ)
      → Takes u32_mod (readdir P full ino offset)
  unfolding readdir
  readdir-Takes full ino offset = Spends-Calm_after grow _ _ (path_of-Lives ino) λ dir_path.
      Spends-Calm_after grow _ _ (dots-Lives ino dir_path offset) λ lines.
        Spends-if grow _ _ _
          (Spends-after grow _ _ (get_files-Gives U dir_path)
            λ listed usual. entries_or_ok-Takes full dir_path offset lines listed usual)
          (Spends-Calm grow _ (Calm-reply _))

  pub read-Lives :
      (ino offset size : ℕ) → 0 < size → offset + size < u64_mod → Lives (read P ino offset size)
  unfolding read
  read-Lives ino offset size some_bytes fits = Calm-bind _ _ (path_of-Lives ino) λ path.
      Calm-bind _ _ (get_chunk-Lives path offset size some_bytes fits)
        λ content. Calm-some_or _ content

  pub open-Takes : (ino flags : ℕ) → Takes 1 (open_ P ino flags)
  unfolding open_
  open-Takes ino flags =
      Spends-if grow _ _ _
        (Spends-Calm_after grow _ _ (path_of-Lives ino) λ path. new_handle-Takes path)
        (Spends-Calm grow _ (Calm-reply 0))

  pub create-Takes :
      (uid gid parent : ℕ) (name : Text) (mode : ℕ)
      → Takes 1 (create P uid gid parent (some name) mode)
  unfolding create
  create-Takes uid gid parent name mode =
      Spends-Calm_after grow _ _ (path_of-Lives parent) λ parent_path.
        Spends-Calm_after grow _ _ (Calm-unwrap name) λ filename.
          Spends-Calm_after grow _ _ (put_content-Lives _ []) λ created.
            Spends-Calm_after grow _ _ (Calm-some_or _ created) λ _.
              Spends-before grow _ _ (new_file-Takes _)
                λ made. search (lives_rules, cache_put-Lives U)

  pub mkdir-Takes :
      (parent : ℕ) (name : Text) (mode : ℕ) → Takes 1 (mkdir P parent (some name) mode)
  unfolding mkdir
  mkdir-Takes parent name mode = Spends-Calm_after grow _ _ (path_of-Lives parent) λ parent_path.
      Spends-Calm_after grow _ _ (Calm-unwrap name) λ dirname.
        Spends-Calm_after grow _ _ (create_directory-Lives _) λ created.
          Spends-Calm_after grow _ _ (Calm-some_or _ created) λ _.
            Spends-before grow _ _ (new_directory-Takes _)
              λ inode. search (lives_rules, cache_put-Lives U)
