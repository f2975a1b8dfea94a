-- ===== src/Server/Routes.antt =====
-- The routes of server/src/main.rs, and what they do with a request. The matching of a path and
-- the extraction of a handler's arguments are axum's.
pub mod Calls
use rust_remote_fs.Prelude.{
  ℕ, ◌≡◌, ◌⊎◌, inl, inr, Option, none, some, List, [], ◌∷◌, Text, bytes, strip_prefix,
}
use rust_remote_fs.Wire.{Bytes, Method, Headers, Request, RemoteEntry, Response, status_only}
use rust_remote_fs.Server.Disk.{Disk}
use rust_remote_fs.Server.GetFile.{OpenFile, get_file}
use rust_remote_fs.Server.Handlers.{
  ServerState, Frame, file_path, put_file, delete_file, mkdir, patch_file, list_directory_contents,
}

-- `"/health"`, or `"/files/*path"` with what stands before the star.
pub data Pattern : Type 0 where
  exact before_rest : Text → Pattern

pub data Endpoint : Type 0 where
  health websocket_handler list_root list_path make_dir get put delete patch : Endpoint

-- `get(…)` and `post(…)`, and the chain for files.
abbrev pub get_only : Endpoint → Method → Option Endpoint
get_only endpoint Method.get = some endpoint
get_only endpoint _ = none

abbrev pub post_only : Endpoint → Method → Option Endpoint
post_only endpoint Method.post = some endpoint
post_only endpoint _ = none

abbrev pub file_methods : Method → Option Endpoint
file_methods Method.get = some get
file_methods Method.put = some put
file_methods Method.delete = some delete
file_methods Method.patch = some patch
file_methods Method.post = none

abbrev pub routes : List (Pattern × (Method → Option Endpoint))
routes =
    (exact (bytes "/health"), get_only health)
    ∷ (exact (bytes "/ws"), get_only websocket_handler)
    ∷ (exact (bytes "/list"), get_only list_root)
    ∷ (before_rest (bytes "/list/"), get_only list_path)
    ∷ (before_rest (bytes "/mkdir/"), post_only make_dir)
    ∷ (before_rest (bytes "/files/"), file_methods)
    ∷ []

-- What axum, hyper and serde_json do for the handlers.
pub record Web (D : Disk) : Type 0 where
  -- the decoded path of a URL, and what a pattern captures of a path
  pub path_of_url : Text → Text
  pub capture : Pattern → Text → Option Text
  pub upgrade : Request → Response
  -- `File::open` of a path
  pub open_file : Text → D.State → Option OpenFile
  pub frames_of : Bytes → List Frame
  pub json_entries : List RemoteEntry → Bytes
  -- the `perm` of a JSON body, or the status of its rejection
  pub json_perm : Bytes → ℕ ⊎ Text

module _ (D : Disk) (web : Web D) (data_dir : Text) where
  abbrev answered : ℕ × ServerState D → Response × ServerState D
  answered result = (status_only result.0, result.1)

  abbrev pub listed : Option (List RemoteEntry) → Response
  listed none = status_only 404
  listed (some entries) = record {
    status = 200;
    content_range = none;
    content_length = none;
    body = web.json_entries entries;
  }

  abbrev patched : ℕ ⊎ Text → Text → Headers → ℕ → ServerState D → Response × ServerState D
  patched (inl status) path headers now s = (status_only status, s)
  patched (inr perm) path headers now s = answered (patch_file D data_dir path headers now perm s)

  -- The endpoint's handler, with what the pattern has captured.
  unfoldable pub handle : Endpoint → Text → Request → ℕ → ServerState D → Response × ServerState D
  handle health path req now s =
      (record { status = 200; content_range = none; content_length = none; body = bytes "OK" }, s)
  handle websocket_handler path req now s = (web.upgrade req, s)
  handle list_root path req now s = (listed (list_directory_contents D data_dir [] s.disk), s)
  handle list_path path req now s = (listed (list_directory_contents D data_dir path s.disk), s)
  handle make_dir path req now s = answered (mkdir D data_dir path req.headers now s)
  handle get path req now s =
      (get_file (web.open_file (file_path data_dir path) s.disk) req.headers, s)
  handle put path req now s =
      answered (put_file D data_dir path req.headers now (web.frames_of req.body) s)
  handle delete path req now s = answered (delete_file D data_dir path req.headers now s)
  handle patch path req now s = patched (web.json_perm req.body) path req.headers now s

  -- A path of another method than its route's is answered by 405.
  abbrev pub routed :
      Option Endpoint → Text → Request → ℕ → ServerState D → Response × ServerState D
  routed none path req now s = (status_only 405, s)
  routed (some endpoint) path req now s = handle endpoint path req now s

  abbrev try_route :
      Option Text
      → (Method → Option Endpoint)
      → Request
      → ℕ
      → ServerState D
      → Response × ServerState D
      → Response × ServerState D
  try_route none methods req now s others = others
  try_route (some path) methods req now s others = routed (methods req.method) path req now s

  unfoldable pub route :
      List (Pattern × (Method → Option Endpoint))
      → Request
      → ℕ
      → ServerState D
      → Response × ServerState D
  unfolding handle
  route [] req now s = (status_only 404, s)
  route ((pattern, methods) ∷ others) req now s =
      try_route (web.capture pattern (web.path_of_url req.url)) methods req now s
        (route others req now s)

  unfoldable pub serve : Request → ℕ → ServerState D → Response × ServerState D
  serve req now s = route routes req now s
