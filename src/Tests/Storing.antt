-- ===== src/Tests/Storing.antt =====
-- A disk that takes everything, and what is stored on it.
use rust_remote_fs.Prelude.{
  ◌*◌, ◌≡◌, refl, arith, true, false, Option, none, some, List, [], ◌∷◌, ◌++◌, Text, bytes, text_eq,
}
use rust_remote_fs.HashMap
use rust_remote_fs.HashMap.{HashMap, get-insert}
use rust_remote_fs.Radix.{print, from_str_radix}
use rust_remote_fs.Wire.{Bytes, Headers}
use rust_remote_fs.Outcome.{ok}
use rust_remote_fs.Server.Disk.{Disk, IsDisk, Metadata}
use rust_remote_fs.Server.Handlers.{
  ServerState, Frame, put_file, put_frames, write_frames, patch_file, entry_of, recorded,
}
use rust_remote_fs.Client.Attributes.{FileAttr, regular_file, nanos_per_sec}
use rust_remote_fs.Client.Platform.{Platform}
use rust_remote_fs.Client.State.{Sys}
use rust_remote_fs.Client.Api.{update_permissions}
use rust_remote_fs.Client.Attr.{attributes_of}
use rust_remote_fs.Client.Config
use rust_remote_fs.Client.State.{new}
use rust_remote_fs.EndToEnd.Permissions.{
  attributes_of-entry_of, update_permissions-patch_file, patched, chmod_request,
}
use rust_remote_fs.Tests.World.{here, mounted_fs}

abbrev pub small_file : Metadata
small_file = record { is_dir = false; len = 6; mode = 0o100644; modified = some 7 }

abbrev pub or_none : Option Bytes → Bytes
or_none none = []
or_none (some old) = old

abbrev pub floppy : Disk
floppy = record {
  State = HashMap Text Bytes;
  metadata = λ p s. some small_file;
  read_dir = λ p s. some [];
  create = λ p s. (true, HashMap.insert p [] s);
  write_all = λ p chunk s. (true, HashMap.insert p (or_none (HashMap.get p s) ++ chunk) s);
  create_dir_all = λ p s. (true, s);
  remove_dir_all = λ p s. (true, s);
  remove_file = λ p s. (true, HashMap.remove p s);
  set_permissions = λ p mode s. (true, s);
}

unfoldable pub floppy-IsDisk : IsDisk floppy
floppy-IsDisk = record {
  Clean = λ p. Unit;
  content = λ p s. HashMap.get p s;
  stored = λ p s. HashMap.get p s;
  Settled = λ p s. Unit;
  settled_lem = λ p s settled. refl;
  create-content = λ p s done. ground (arith, get-insert p p [] s);
  write_all-content =
      λ p chunk old s done e. ground (arith, get-insert p p (or_none (HashMap.get p s) ++ chunk) s);
  create-other = λ p q s cp cq ne. ground (arith, get-insert p q [] s);
  write_all-other =
      λ p q chunk s cp cq ne. ground (arith, get-insert p q (or_none (HashMap.get p s) ++ chunk) s);
}

abbrev pub server : ServerState floppy
server = record { recent_mods = []; disk = [] }

abbrev frames : List Frame
frames = some (some (bytes "ab")) ∷ some none ∷ some (some (bytes "c")) ∷ []

abbrev headers : Headers
headers = record { range = none; client_id = some (bytes "me") }

stored : (put_file floppy (bytes "/data") (bytes "x") headers 5 frames server).0 ≡ 200
unfolding put_file put_frames write_frames
stored = refl

abbrev at_mount : Sys here
at_mount = record { fs = mounted_fs; world = 9 }

attributes_of-entry_of_example :
    (a : FileAttr) × (attributes_of here 2 (entry_of (bytes "x") small_file) at_mount
      ≡ (ok a, at_mount))
    × (a.kind ≡ regular_file)
    × (a.perm ≡ 0o644)
    × (a.size ≡ 6)
    × (a.mtime ≡ 7 * nanos_per_sec)
attributes_of-entry_of_example =
    attributes_of-entry_of here 2 (bytes "x") small_file at_mount (omega arith) (omega arith)

-- Its JSON is the permissions alone.
abbrev terse : Platform
terse = record here { encode_perm = λ perm. perm }

abbrev terse_sys : Sys terse
terse_sys = record { fs = new terse Config.default 3 4; world = 9 }

delivered :
    (terse.send
      (chmod_request terse terse_sys floppy
        (bytes "/data")
        (bytes "x")
        5
        0o100600
        server
        (λ body. body))
      9).0
    ≡ some (record {
      status =
          (patched terse terse_sys floppy
            (bytes "/data")
            (bytes "x")
            5
            0o100600
            server
            (λ body. body)).0;
      content_range = none;
      content_length = none;
      body = [];
    })
unfolding patch_file from_str_radix print
delivered = refl

update_permissions-patch_file_example :
    (patched terse terse_sys floppy (bytes "/data") (bytes "x") 5 0o100600 server (λ body. body) ≡ (
      200,
      recorded floppy
          (bytes "/data")
          (bytes "x")
          (chmod_request terse terse_sys floppy
            (bytes "/data")
            (bytes "x")
            5
            0o100600
            server
            (λ body. body)).headers
          5
          server,
    ))
    × ((update_permissions terse (bytes "x") 0o100600 terse_sys).0 ≡ ok (some tt))
update_permissions-patch_file_example =
    update_permissions-patch_file terse terse_sys floppy (bytes "/data") (bytes "x") 5 0o100600
      server (λ body. body) (λ t. refl) delivered refl

-- This disk has written what it has taken, and no two paths of it lead to one file.
pub on_floppy : (p : Text) (s : floppy.State) → floppy-IsDisk.Clean p × floppy-IsDisk.Settled p s
unfolding floppy-IsDisk
on_floppy p s = (tt, tt)
