-- ===== src/Tests/Network.antt =====
-- A server behind a network that loses nothing, with lists of numbers for its JSON.
use rust_remote_fs.Prelude.{
  ◌≡◌, ◌≢◌, refl, inr, Option, none, some, [], ◌∷◌, ◌++◌, Text, bytes, strip_prefix,
}
use rust_remote_fs.Wire.{status_only}
use rust_remote_fs.Client.Config
use rust_remote_fs.Client.Platform.{Platform}
use rust_remote_fs.Client.State.{RemoteFs, Sys}
use rust_remote_fs.Client.Cache.{AttributeCache}
use rust_remote_fs.Radix.{print}
use rust_remote_fs.Server.GetFile.{OpenFile, get_file}
use rust_remote_fs.Client.Api.{
  list_url, body_of, error_for_status, put_file_content_to_server, delete_resource,
  create_directory, update_permissions, get_files_from_server, get_file_content_from_server,
}
use rust_remote_fs.Server.Disk.{Disk}
use rust_remote_fs.Server.Handlers.{
  ServerState, put_file, delete_file, mkdir, patch_file, list_directory_contents,
}
use rust_remote_fs.Server.Routes.{Web, serve}
use rust_remote_fs.Server.Routes.Calls.{IsWeb, captured}
use rust_remote_fs.EndToEnd.Network.{IsServed, Does, Reads, headers, api-Does, listing-Reads}
use rust_remote_fs.Tests.Storing.{floppy, server}
use rust_remote_fs.Tests.World.{here}
use rust_remote_fs.Tests.Json.{code_all, count, read_body, read_all-code}

abbrev path_in : Option Text → Text
path_in none = []
path_in (some path) = path

abbrev base_url : Text
base_url = Config.default.server_url

-- How a file is opened on a disk.
abbrev pub Opener : Disk → Type 0
Opener D = Text → D.State → Option OpenFile

abbrev pub no_file : (D : Disk) → Opener D
no_file D file d = none

abbrev pub web : (D : Disk) → Opener D → Web D
web D opener = record {
  path_of_url = λ url. path_in (strip_prefix base_url url);
  capture = captured;
  upgrade = λ req. status_only 101;
  open_file = opener;
  frames_of = λ body. some (some body) ∷ [];
  json_entries = λ entries. count entries ∷ code_all entries;
  json_perm = λ body. inr body;
}

pub path_of_url_lem :
    (path : Text) → (web floppy (no_file floppy)).path_of_url (base_url ++ path) ≡ path
unfolding strip_prefix
path_of_url_lem path = refl

pub path_of_list :
    (path : Text)
    → path ≢ []
    → (web floppy (no_file floppy)).path_of_url (list_url base_url path) ≡ bytes "/list/" ++ path
path_of_list [] ne = absurd (ne refl)
path_of_list (c ∷ path) ne = path_of_url_lem (bytes "/list/" ++ (c ∷ path))

abbrev web-IsWeb : (D : Disk) (opener : Opener D) → IsWeb (web D opener) base_url
web-IsWeb D opener = record {
  Plain = λ path. Unit;
  capture_lem = λ pattern path. refl;
  path_of_files = λ path plain. path_of_url_lem (bytes "/files/" ++ path);
  path_of_mkdir = λ path plain. path_of_url_lem (bytes "/mkdir/" ++ path);
  path_of_list = λ path plain ne. path_of_list path ne;
  path_of_root = path_of_url_lem (bytes "/list");
}

abbrev pub wired : (D : Disk) → Opener D → Platform
wired D opener = record here {
  World = ServerState D;
  send = λ req w.
      let served = serve D (web D opener) (bytes "/data") req 5 w in (some served.0, served.1);
  instant_now = λ w. 9;
  system_now = λ w. 9;
  decode_entries = read_body;
  encode_perm = λ perm. perm;
  hash_order = λ w m. m;
}

abbrev pub wired_fs : (D : Disk) (opener : Opener D) → RemoteFs (wired D opener)
wired_fs D opener = record {
  client_id = bytes "me";
  inode_to_path = [];
  path_to_inode = [];
  inode_to_type = [];
  next_inode = 2;
  attribute_cache = AttributeCache.disabled;
  config = Config.default;
  open_files = [];
  next_fh = 1;
}

abbrev wired_sys : Sys (wired floppy (no_file floppy))
wired_sys = record { fs = wired_fs floppy (no_file floppy); world = server }

abbrev pub wired-IsServed :
    (D : Disk) (opener : Opener D)
    → IsServed (wired D opener) D (web D opener) (bytes "/data") base_url
wired-IsServed D opener = record {
  urls = web-IsWeb D opener;
  state = λ w. w;
  clock = λ w. 5;
  send_answer = λ req w. refl;
  send_state = λ req w. refl;
  json_entries = λ entries. read_all-code entries;
  json_empty = refl;
  json_perm = λ perm. refl;
}

named : bytes "x" ≢ []
named e = cc

api-Does_example :
    Does wired_sys
      (wired-IsServed floppy (no_file floppy))
      (put_file_content_to_server
        (wired floppy (no_file floppy))
        (bytes "x")
        (bytes "abc")
        wired_sys)
      (put_file floppy
        (bytes "/data")
        (bytes "x")
        (headers wired_sys (wired-IsServed floppy (no_file floppy)))
        5
        ((web floppy (no_file floppy)).frames_of (bytes "abc"))
        server)
    × Does wired_sys
        (wired-IsServed floppy (no_file floppy))
        (delete_resource (wired floppy (no_file floppy)) (bytes "x") wired_sys)
        (delete_file floppy
          (bytes "/data")
          (bytes "x")
          (headers wired_sys (wired-IsServed floppy (no_file floppy)))
          5
          server)
    × Does wired_sys
        (wired-IsServed floppy (no_file floppy))
        (create_directory (wired floppy (no_file floppy)) (bytes "x") wired_sys)
        (mkdir floppy
          (bytes "/data")
          (bytes "x")
          (headers wired_sys (wired-IsServed floppy (no_file floppy)))
          5
          server)
    × Does wired_sys
        (wired-IsServed floppy (no_file floppy))
        (update_permissions (wired floppy (no_file floppy)) (bytes "x") 0o100600 wired_sys)
        (patch_file floppy
          (bytes "/data")
          (bytes "x")
          (headers wired_sys (wired-IsServed floppy (no_file floppy)))
          5
          (print 8 0o600)
          server)
    × Reads wired_sys
        (wired-IsServed floppy (no_file floppy))
        (get_file_content_from_server (wired floppy (no_file floppy)) (bytes "x") wired_sys)
        (body_of (
          error_for_status
            (some (get_file none (headers wired_sys (wired-IsServed floppy (no_file floppy)))))))
api-Does_example =
    api-Does wired_sys (wired-IsServed floppy (no_file floppy)) (bytes "x") tt named (bytes "abc")
      0o100600

listing-Reads_example :
    Reads wired_sys
      (wired-IsServed floppy (no_file floppy))
      (get_files_from_server (wired floppy (no_file floppy)) (bytes "d") wired_sys)
      (list_directory_contents floppy (bytes "/data") (bytes "d") [])
listing-Reads_example =
    listing-Reads wired_sys (wired-IsServed floppy (no_file floppy)) (bytes "d") tt
