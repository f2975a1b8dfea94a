-- ===== src/EndToEnd/Replaying.antt =====
-- Calls of client/src/api_client.rs by any clients, one after another, and a ledger of their
-- answers.
pub mod Content
use rust_remote_fs.Prelude.{
  Bool, true, false, Option, none, some, List, [], ◌∷◌, Text, text_eq, ite,
}
use rust_remote_fs.Prelude.Paths.{under}
use rust_remote_fs.Wire.{Bytes}
use rust_remote_fs.Outcome.{Outcome, ok, err, panic}
use rust_remote_fs.Server.Handlers.{file_path}
use rust_remote_fs.Client.Platform.{Platform}
use rust_remote_fs.Client.State.{RemoteFs, Sys}
use rust_remote_fs.Client.Api.{put_file_content_to_server, delete_resource, create_directory}

-- A call of client/src/api_client.rs that changes the server, by the client of this id.
pub data Change : Type 0 where
  put : (client_id path : Text) (bytes : Bytes) → Change
  delete : (client_id path : Text) → Change
  make_dir : (client_id path : Text) → Change

abbrev pub path_of_change : Change → Text
path_of_change (put client_id path bytes) = path
path_of_change (delete client_id path) = path
path_of_change (make_dir client_id path) = path

-- Whether the call has succeeded.
abbrev pub is_done : Outcome (Option (Unit {0})) → Bool
is_done (ok (some u)) = true
is_done (ok none) = false
is_done (err e) = false
is_done panic = false

-- What is known of the file at a path: nothing, or what it holds, if it is there.
abbrev pub Ledger : Type 0
Ledger = Text → Option (Option Bytes)

module _ (data_dir : Text) where
  -- A path is known no more when something at it or above it has been touched, but for what the
  -- call has just done.
  abbrev pub touched : Text → Option (Option Bytes) → Ledger → Ledger
  touched p v k q = ite (under (file_path data_dir p) (file_path data_dir q)) v (k q)

  abbrev pub known_if : Bool → Option Bytes → Option (Option Bytes)
  known_if true v = some v
  known_if false v = none

  unfoldable pub learn : Change → Bool → Ledger → Ledger
  learn (put client_id path bytes) done k q =
      ite (text_eq.dec path q) (known_if done (some bytes)) (touched path none k q)
  learn (delete client_id path) done k q = touched path (known_if done none) k q
  learn (make_dir client_id path) done k q = touched path none k q

module _ (P : Platform) (fs : RemoteFs P) (data_dir : Text) where
  abbrev pub as_client : Text → P.World → Sys P
  as_client client_id w = record { fs = record fs { client_id = client_id }; world = w }

  abbrev pub perform : Change → P.World → Outcome (Option (Unit {0})) × Sys P
  perform (put client_id path bytes) w =
      put_file_content_to_server P path bytes (as_client client_id w)
  perform (delete client_id path) w = delete_resource P path (as_client client_id w)
  perform (make_dir client_id path) w = create_directory P path (as_client client_id w)

  -- The calls in the order in which the server gets them, with the ledger of their answers.
  unfoldable pub replay : List Change → Ledger → P.World → Ledger × P.World
  unfolding learn
  replay [] k w = (k, w)
  replay (change ∷ changes) k w =
      let r = perform change w in replay changes (learn data_dir change (is_done r.0) k) r.1.world
