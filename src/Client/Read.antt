-- ===== src/Client/Read.antt =====
-- client/src/fs/read.rs: `lookup`, `readdir`, `read` and `open`.
pub mod Listing
use rust_remote_fs.Prelude.{
  ℕ, ◌+◌, ◌^◌, ◌%◌, ◌/◌, Bool, ◌||◌, not, Option, none, some, List, [], ◌∷◌, ◌++◌, Text, bytes,
  drop, nat_eq, text_eq, ltb, leb, ◌==◌, if◌then◌else◌,
}
use rust_remote_fs.HashMap
use rust_remote_fs.Wire.{Bytes, RemoteEntry}
use rust_remote_fs.Outcome.{reply, reads, some_or, unwrap, eio, enoent, ◌>>=◌, ◌>>◌}
use rust_remote_fs.Client.Attributes.{FileType, directory, FileAttr}
use rust_remote_fs.Client.Platform.{Platform}
use rust_remote_fs.Client.State.{RemoteFs, Fuse, update, path_of, fresh_inode, fresh_fh, child_path}
use rust_remote_fs.Client.Api.{get_files_from_server, get_file_chunk_from_server}
use rust_remote_fs.Client.Attr.{split_path, find_entry, kind_of, fetch_and_cache_attributes}

-- A line of a directory listing: inode, the offset behind it, kind and name.
pub record DirEntry : Type 0 where
  pub ino : ℕ
  pub offset : ℕ
  pub kind : FileType
  pub name : Text

module _ (P : Platform) where
  unfoldable pub new_inode : Text → Fuse P ℕ
  new_inode full_path = do
    inode ← fresh_inode P
    update P (λ fs. record fs {
      inode_to_path = HashMap.insert inode full_path fs.inode_to_path;
      path_to_inode = HashMap.insert full_path inode fs.path_to_inode;
    })
    reply inode

  abbrev pub or_insert_inode : Text → Option ℕ → Fuse P ℕ
  or_insert_inode full_path (some inode) = reply inode
  or_insert_inode full_path none = new_inode full_path

  -- `fs.path_to_inode.entry(full_path).or_insert_with_key(…)`
  unfoldable pub inode_for : Text → Fuse P ℕ
  inode_for full_path = do
    known ← reads (λ s. HashMap.get full_path s.fs.path_to_inode)
    or_insert_inode full_path known

  -- The name is an `OsStr`, and `none` if it is no UTF-8.
  unfoldable pub lookup : ℕ → Option Text → Fuse P FileAttr
  lookup parent name = do
    parent_path ← path_of P parent
    listed ← get_files_from_server P parent_path
    entry_list ← some_or enoent listed
    name_str ← unwrap name
    entry ← some_or enoent (find_entry name_str entry_list)
    inode ← inode_for (child_path parent_path name_str)
    found ← fetch_and_cache_attributes P inode
    some_or enoent found

  abbrev root_or : Option ℕ → ℕ
  root_or none = 1
  root_or (some ino) = ino

  -- The inode of `..`; the root's if the parent is not known.
  unfoldable pub parent_inode : RemoteFs P → ℕ → Text → ℕ
  parent_inode fs ino dir_path =
      if ino == 1 then 1 else root_or (HashMap.get (split_path dir_path).0 fs.path_to_inode)

  abbrev pub Line : Type 0
  Line = ℕ × FileType × Text

  unfoldable pub dots : ℕ → Text → ℕ → Fuse P (List Line)
  unfolding parent_inode
  dots ino dir_path offset =
      if offset == 0
      then reads (λ s.
        (ino, directory, bytes ".") ∷ (parent_inode s.fs ino dir_path, directory, bytes "..") ∷ [])
      else reply []

  unfoldable pub set_type : ℕ → FileType → Fuse P Unit
  set_type inode kind =
      update P (λ fs. record fs { inode_to_type = HashMap.insert inode kind fs.inode_to_type })

  -- The loop over the server's entries, behind the lines that are there.
  unfoldable pub list_entries : Text → List RemoteEntry → List Line → Fuse P (List Line)
  unfolding inode_for
  list_entries dir_path [] lines = reply lines
  list_entries dir_path (entry ∷ entries) lines = do
    inode ← inode_for (child_path dir_path entry.name)
    let kind = kind_of entry
    set_type inode kind
    list_entries dir_path entries (lines ++ ((inode, kind, entry.name) ∷ []))

  -- `full` tells whether the kernel's buffer has no room for a line behind those in it.
  unfoldable pub fill :
      (List DirEntry → DirEntry → Bool) → ℕ → List Line → List DirEntry → List DirEntry
  fill full i [] added = added
  fill full i ((ino, kind, name) ∷ lines) added =
      let line : DirEntry = record { ino = ino; offset = i + 1; kind = kind; name = name } in
      let rest = fill full (i + 1) lines (added ++ (line ∷ [])) in
      if full added line then added else rest

  abbrev pub entries_or_ok :
      (List DirEntry → DirEntry → Bool)
      → Text
      → ℕ
      → List Line
      → Option (List RemoteEntry)
      → Fuse P (List DirEntry)
  entries_or_ok full dir_path offset lines none = reply []
  entries_or_ok full dir_path offset lines (some entry_list) = do
    all ← list_entries dir_path entry_list lines
    reply (fill full offset (drop offset all) [])

  -- `offset` is the 64-bit pattern of an `i64`: it is below 2 if it is 0, 1 or negative.
  abbrev below_two : ℕ → Bool
  below_two offset = ltb offset 2 || leb (2 ^ 63) offset

  unfoldable pub readdir : (List DirEntry → DirEntry → Bool) → ℕ → ℕ → Fuse P (List DirEntry)
  unfolding dots list_entries fill
  readdir full ino offset = do
    dir_path ← path_of P ino
    lines ← dots ino dir_path offset
    if below_two offset
        then (do
          listed ← get_files_from_server P dir_path
          entries_or_ok full dir_path offset lines listed)
        else reply (fill full offset (drop offset lines) [])

  -- `offset` is never negative in a request of the kernel.
  unfoldable pub read : ℕ → ℕ → ℕ → Fuse P Bytes
  read ino offset size = do
    file_path ← path_of P ino
    content ← get_file_chunk_from_server P file_path offset size
    some_or eio content

  -- `flags & O_WRONLY != 0 || flags & O_RDWR != 0`, which are the two lowest bits.
  abbrev write_access : ℕ → Bool
  write_access flags = not (flags % 2 == 0) || not (flags / 2 % 2 == 0)

  unfoldable pub new_handle : Text → Fuse P ℕ
  new_handle path = do
    fh ← fresh_fh P
    update P (λ fs. record fs {
      open_files = HashMap.insert fh (record { path = path; buffer = [] }) fs.open_files;
    })
    reply fh

  -- A handle for writing gets an empty buffer; one for reading is always 0.
  unfoldable pub open_ : ℕ → ℕ → Fuse P ℕ
  open_ ino flags =
      if write_access flags
      then (do relative_path ← path_of P ino; new_handle relative_path)
      else reply 0
