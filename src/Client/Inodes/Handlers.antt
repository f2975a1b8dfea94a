-- ===== src/Client/Inodes/Handlers.antt =====
-- Every handler keeps the maps and the handles consistent, whatever the server answers and however
-- the handler ends.
use rust_remote_fs.Prelude.{ℕ, ◌≡◌, Option, none, some, Bool, List, [], ◌∷◌, Text, nat_eq, text_eq}
use rust_remote_fs.HashMap
use rust_remote_fs.Wire.{Bytes, RemoteEntry}
use rust_remote_fs.Outcome.{◌>>=◌}
use rust_remote_fs.Outcome.Keeps.{Leads, Keeps-bind, Keeps-reads, Keeps-modify, Keeps-reads-bind}
use rust_remote_fs.Client.Attributes.{FileAttr}
use rust_remote_fs.Client.Platform.{Platform}
use rust_remote_fs.Client.State.{OpenWriteFile, Sys, update}
use rust_remote_fs.Client.Attr.{
  attributes_of, store_found, find_in, fetch_path, fetch_missed, fetch_and_cache_attributes,
  getattr, chmod, truncate, setattr, resize,
}
use rust_remote_fs.Client.Read.{
  or_insert_inode, inode_for, lookup, dots, list_entries, entries_or_ok, readdir, read, open_,
  DirEntry, Line,
}
use rust_remote_fs.Client.Write.{write_to, write, apply_blocks, upload, release_file, release}
use rust_remote_fs.Client.Create.{create, mkdir}
use rust_remote_fs.Client.Inodes.{IsConsistent, HandlesFresh-set, HandlesFresh-remove}
use rust_remote_fs.Client.Inodes.Steps.{OnFs, Safe, safe_rules}

module _ {P : Platform} where
  attributes_of-Safe : (ino : ℕ) (entry : RemoteEntry) → Safe (attributes_of P ino entry)
  unfolding attributes_of
  attributes_of-Safe ino entry = search safe_rules

  store_found-Safe : (ino : ℕ) (o : Option RemoteEntry) → Safe (store_found P ino o)
  store_found-Safe ino none = search safe_rules
  store_found-Safe ino (some entry) = search (safe_rules, attributes_of-Safe)

  find_in-Safe :
      (ino : ℕ) (name : Text) (o : Option (List RemoteEntry)) → Safe (find_in P ino name o)
  find_in-Safe ino name none = search safe_rules
  find_in-Safe ino name (some entries) = store_found-Safe ino _

  fetch_path-Safe : (ino : ℕ) (o : Option Text) → Safe (fetch_path P ino o)
  fetch_path-Safe ino none = search safe_rules
  fetch_path-Safe ino (some path) = search (safe_rules, find_in-Safe)

  fetch_missed-Safe : (ino : ℕ) (o : Option FileAttr) → Safe (fetch_missed P ino o)
  fetch_missed-Safe ino none = search (safe_rules, fetch_path-Safe)
  fetch_missed-Safe ino (some attr) = search safe_rules

  fetch-Safe : (ino : ℕ) → Safe (fetch_and_cache_attributes P ino)
  unfolding fetch_and_cache_attributes
  fetch-Safe ino = search (safe_rules, fetch_missed-Safe)

  pub getattr-Safe : (ino : ℕ) → Safe (getattr P ino)
  unfolding getattr
  getattr-Safe ino = search (safe_rules, fetch-Safe)

  chmod-Safe : (path : Text) (mode : Option ℕ) → Safe (chmod P path mode)
  chmod-Safe path none = search safe_rules
  chmod-Safe path (some new_mode) = search safe_rules

  resize-Safe : (n : ℕ) (v : Bytes) → Safe (resize {S = Sys P} n v)
  unfolding resize
  resize-Safe n v = search safe_rules

  truncate-Safe : (path : Text) (size : Option ℕ) → Safe (truncate P path size)
  truncate-Safe path none = search safe_rules
  truncate-Safe path (some new_size) = search (safe_rules, resize-Safe) depth 8

  pub setattr-Safe : (ino : ℕ) (mode size : Option ℕ) → Safe (setattr P ino mode size)
  unfolding setattr
  setattr-Safe ino mode size = search (safe_rules, chmod-Safe, truncate-Safe, fetch-Safe) depth 8

  or_insert_inode-Safe : (path : Text) (o : Option ℕ) → Safe (or_insert_inode P path o)
  or_insert_inode-Safe path none = search safe_rules
  or_insert_inode-Safe path (some inode) = search safe_rules

  inode_for-Safe : (path : Text) → Safe (inode_for P path)
  unfolding inode_for
  inode_for-Safe path = search (safe_rules, or_insert_inode-Safe)

  pub lookup-Safe : (parent : ℕ) (name : Option Text) → Safe (lookup P parent name)
  unfolding lookup
  lookup-Safe parent name = search (safe_rules, inode_for-Safe, fetch-Safe) depth 9

  dots-Safe : (ino : ℕ) (dir_path : Text) (offset : ℕ) → Safe (dots P ino dir_path offset)
  unfolding dots
  dots-Safe ino dir_path offset = search safe_rules

  list_entries-Safe :
      (dir_path : Text) (entries : List RemoteEntry) (lines : List (Line P))
      → Safe (list_entries P dir_path entries lines)
  unfolding list_entries
  list_entries-Safe dir_path [] lines = search safe_rules
  list_entries-Safe dir_path (entry ∷ entries) lines =
      search (safe_rules, inode_for-Safe, list_entries-Safe dir_path entries)

  entries_or_ok-Safe :
      (full : List DirEntry → DirEntry → Bool) (dir_path : Text) (offset : ℕ)
      (lines : List (Line P)) (o : Option (List RemoteEntry))
      → Safe (entries_or_ok P full dir_path offset lines o)
  entries_or_ok-Safe full dir_path offset lines none = search safe_rules
  entries_or_ok-Safe full dir_path offset lines (some entry_list) =
      search (safe_rules, list_entries-Safe)

  pub readdir-Safe :
      (full : List DirEntry → DirEntry → Bool) (ino offset : ℕ) → Safe (readdir P full ino offset)
  unfolding readdir
  readdir-Safe full ino offset = search (safe_rules, dots-Safe, entries_or_ok-Safe) depth 8

  pub read-Safe : (ino offset size : ℕ) → Safe (read P ino offset size)
  unfolding read
  read-Safe ino offset size = search safe_rules

  pub open-Safe : (ino flags : ℕ) → Safe (open_ P ino flags)
  unfolding open_
  open-Safe ino flags = search safe_rules

  write_to-Leads :
      (fh offset : ℕ) (block : Bytes) (o : Option OpenWriteFile)
      → Leads
          (λ s. OnFs IsConsistent s × (HashMap.get fh s.fs.open_files ≡ o))
          (OnFs IsConsistent)
          (write_to P fh offset block o)
  unfolding ◌>>=◌
  write_to-Leads fh offset block none = record { to = λ s h. h.0 }
  write_to-Leads fh offset block (some f) = record {
    to = λ s h. (h.0.0, HandlesFresh-set h.0.1 fh f _ h.1);
  }

  pub write-Safe : (fh offset : ℕ) (block : Bytes) → Safe (write P fh offset block)
  unfolding write
  write-Safe fh offset block = Keeps-reads-bind _ _ (write_to-Leads fh offset block)

  apply_blocks-Safe : (blocks : List (ℕ × Bytes)) (v : Bytes) → Safe (apply_blocks P blocks v)
  unfolding apply_blocks
  apply_blocks-Safe [] v = search safe_rules
  apply_blocks-Safe ((start, block) ∷ blocks) v = search (safe_rules, apply_blocks-Safe blocks)

  upload-Safe : (ino : ℕ) (f : OpenWriteFile) → Safe (upload P ino f)
  unfolding upload
  upload-Safe ino f = search (safe_rules, apply_blocks-Safe) depth 8

  release_file-Safe : (ino : ℕ) (o : Option OpenWriteFile) → Safe (release_file P ino o)
  release_file-Safe ino none = search safe_rules
  release_file-Safe ino (some f) = search (safe_rules, upload-Safe)

  close-Safe :
      (fh : ℕ) → Safe (update P (λ fs. record fs { open_files = HashMap.remove fh fs.open_files }))
  close-Safe fh = Keeps-modify _ (λ s h. (h.0, HandlesFresh-remove h.1 fh))

  pub release-Safe : (ino fh : ℕ) → Safe (release P ino fh)
  unfolding release
  release-Safe ino fh =
      Keeps-bind _ _ (Keeps-reads _)
        λ found. Keeps-bind _ _ (close-Safe fh) λ _. release_file-Safe ino found

  pub create-Safe :
      (uid gid parent : ℕ) (name : Option Text) (mode : ℕ)
      → Safe (create P uid gid parent name mode)
  unfolding create
  create-Safe uid gid parent name mode = search safe_rules depth 12

  pub mkdir-Safe : (parent : ℕ) (name : Option Text) (mode : ℕ) → Safe (mkdir P parent name mode)
  unfolding mkdir
  mkdir-Safe parent name mode = search safe_rules depth 12
