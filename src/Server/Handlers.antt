-- ===== src/Server/Handlers.antt =====
-- The handlers of server/src/handlers.rs that change the disk, and `list_directory_contents`.
pub mod PutFile
use rust_remote_fs.Prelude.{
  ℕ, ◌%◌, Bool, true, false, Option, none, some, List, [], ◌∷◌, ◌++◌, Text, bytes, if◌then◌else◌,
}
use rust_remote_fs.Radix.{print, from_str_radix, u32_mod}
use rust_remote_fs.Wire.{Bytes, Headers, RemoteEntry}
use rust_remote_fs.Server.Disk.{Disk, DirLine, Metadata}
use rust_remote_fs.Server.Echo.{RecentMods, record_change}

pub record ServerState (D : Disk) : Type 0 where
  pub recent_mods : RecentMods
  pub disk : D.State

-- A frame of a request's body: `none` if the stream breaks, and a frame may hold no data.
abbrev pub Frame : Type 0
Frame = Option (Option Bytes)

-- `DATA_DIR` and the path.
abbrev pub file_path : Text → Text → Text
file_path data_dir path = data_dir ++ (bytes "/" ++ path)

abbrev pub status_of : Bool → ℕ
status_of true = 200
status_of false = 500

abbrev zero_or : Option ℕ → ℕ
zero_or none = 0
zero_or (some secs) = secs

-- A file's time never lies so late that the seconds do not fit in an `i64`.
unfoldable pub entry_of : Text → Metadata → RemoteEntry
entry_of name metadata = record {
  name = name;
  kind = if metadata.is_dir then bytes "directory" else bytes "file";
  size = metadata.len;
  mtime = zero_or metadata.modified;
  perm = print 8 (metadata.mode % 0o1000);
}

-- Entries that cannot be read are passed over.
unfoldable pub entries_of : List (Option DirLine) → List RemoteEntry
entries_of [] = []
entries_of (none ∷ lines) = entries_of lines
entries_of (some (name, none) ∷ lines) = entries_of lines
entries_of (some (name, some metadata) ∷ lines) = entry_of name metadata ∷ entries_of lines

module _ (D : Disk) where
  -- The loop over the body's frames.
  unfoldable pub write_frames : Text → List Frame → D.State → ℕ × D.State
  write_frames file [] d = (200, d)
  write_frames file (none ∷ frames) d = (400, d)
  write_frames file (some none ∷ frames) d = write_frames file frames d
  write_frames file (some (some chunk) ∷ frames) d =
      let written = D.write_all file chunk d in
      let rest = write_frames file frames written.1 in if written.0 then rest else (500, written.1)

  unfoldable pub put_frames : Text → List Frame → D.State → ℕ × D.State
  unfolding write_frames
  put_frames file frames d =
      let opened = D.create file d in
      if opened.0 then write_frames file frames opened.1 else (500, opened.1)

module _ (D : Disk) (data_dir : Text) where
  abbrev pub on_disk : Bool × D.State → ServerState D → ℕ × ServerState D
  on_disk result s = (status_of result.0, record s { disk = result.1 })

  abbrev pub recorded : Text → Headers → ℕ → ServerState D → ServerState D
  recorded path headers now s = record s {
    recent_mods = record_change path headers now s.recent_mods;
  }

  unfoldable pub put_file : Text → Headers → ℕ → List Frame → ServerState D → ℕ × ServerState D
  put_file path headers now frames s =
      let stored = put_frames D (file_path data_dir path) frames s.disk in
      (stored.0, record (recorded path headers now s) { disk = stored.1 })

  abbrev remove : Text → D.State → Option Metadata → ℕ × D.State
  remove file d none = (404, d)
  remove file d (some metadata) =
      let removed = if metadata.is_dir then D.remove_dir_all file d else D.remove_file file d in
      (status_of removed.0, removed.1)

  unfoldable pub delete_file : Text → Headers → ℕ → ServerState D → ℕ × ServerState D
  delete_file path headers now s =
      let file = file_path data_dir path in
      let removed = remove file s.disk (D.metadata file s.disk) in
      (removed.0, record (recorded path headers now s) { disk = removed.1 })

  unfoldable pub mkdir : Text → Headers → ℕ → ServerState D → ℕ × ServerState D
  mkdir path headers now s =
      on_disk (D.create_dir_all (file_path data_dir path) s.disk) (recorded path headers now s)

  abbrev set_mode : Text → ℕ → ServerState D → Option Metadata → ℕ × ServerState D
  set_mode file mode s none = (404, s)
  set_mode file mode s (some metadata) = on_disk (D.set_permissions file mode s.disk) s

  abbrev parsed_mode : Text → ServerState D → Option ℕ → ℕ × ServerState D
  parsed_mode file s none = (400, s)
  parsed_mode file s (some mode) = set_mode file mode s (D.metadata file s.disk)

  -- The payload's `perm`.
  unfoldable pub patch_file : Text → Headers → ℕ → Text → ServerState D → ℕ × ServerState D
  patch_file path headers now perm s =
      parsed_mode (file_path data_dir path) (recorded path headers now s)
        (from_str_radix 8 u32_mod perm)

  abbrev listing : Option (List (Option DirLine)) → Option (List RemoteEntry)
  listing none = none
  listing (some lines) = some (entries_of lines)

  -- `none` is `NOT_FOUND`. The path of `/list` is empty.
  unfoldable pub list_directory_contents : Text → D.State → Option (List RemoteEntry)
  list_directory_contents path d = listing (D.read_dir (file_path data_dir path) d)
