-- ===== src/Client/Watch.antt =====
-- `connect_and_watch` of client/src/main.rs: what the client does with a message of the server.
pub mod Silence
use rust_remote_fs.Prelude.{
  Bool, ◌&&◌, ◌==◌, if◌then◌else◌, true, false, Option, none, some, List, [], ◌∷◌, Text, bytes,
  text_eq, ite, rsplit_once, strip_prefix,
}
use mathlib.Core.List.{reverse}
use rust_remote_fs.Client.Attr.{split_path}
use rust_remote_fs.Client.Platform.{Platform}
use rust_remote_fs.Client.Rename.{uncache_path}
use rust_remote_fs.Client.State.{RemoteFs}

-- The message without its signature, and the signature.
abbrev unsigned : Text → Option (Text × Text) → Text × Option Text
unsigned text none = (text, none)
unsigned text (some (msg, id)) = (msg, some id)

unfoldable pub read_signature : Text → Text × Option Text
read_signature text = unsigned text (rsplit_once (bytes "|BY:") text)

abbrev is_mine : Option Text → Text → Bool
is_mine none my_client_id = false
is_mine (some id) my_client_id = ite (text_eq.dec id my_client_id) true false

-- A path from its end, without the empty and the `.` components there.
trimmed_rev : Text → Text
trimmed_rev [] = []
trimmed_rev (c ∷ []) = if c == b'/' then [] else c ∷ []
trimmed_rev (c ∷ d ∷ rest) =
    let shorter = trimmed_rev (d ∷ rest) in
    let much_shorter = trimmed_rev rest in
    if c == b'/' then shorter else (if c == b'.' && d == b'/' then much_shorter else c ∷ d ∷ rest)

trimmed : Text → Text
unfolding trimmed_rev
trimmed path = reverse (trimmed_rev (reverse path))

is_rooted : Text → Bool
is_rooted [] = false
is_rooted (c ∷ path) = c == b'/'

-- The part before the last component: of what lies right below the root, the root.
before_last : Bool → Text → Text → Text
before_last true [] (c ∷ file) = b'/' ∷ []
before_last true [] [] = []
before_last true (c ∷ dir) file = c ∷ dir
before_last false dir file = dir

-- `Path::parent`, and an empty text for a path that has none.
unfoldable pub parent : Text → Text
unfolding trimmed is_rooted before_last
parent path =
    let parts = split_path (trimmed path) in before_last (is_rooted path) (trimmed parts.0) parts.1

module _ (P : Platform) where
  -- The file's attributes and its directory's leave the cache.
  unfoldable pub invalidate : Text → RemoteFs P → RemoteFs P
  invalidate path_str fs = uncache_path P (parent path_str) (uncache_path P path_str fs)

  abbrev on_path : Option Text → RemoteFs P → RemoteFs P
  on_path none fs = fs
  on_path (some path_str) fs = invalidate path_str fs

  abbrev on_unsigned : Bool → Text → RemoteFs P → RemoteFs P
  on_unsigned true clean_text fs = fs
  on_unsigned false clean_text fs = on_path (strip_prefix (bytes "CHANGE:") clean_text) fs

  -- A text message. The client's id is taken once, when the watcher starts.
  unfoldable pub on_text : (my_client_id text : Text) → RemoteFs P → RemoteFs P
  unfolding read_signature invalidate
  on_text my_client_id text fs =
      let read = read_signature text in on_unsigned (is_mine read.1 my_client_id) read.0 fs

-- What `read.next()` gives in the loop. A binary frame, a ping or a pong is passed over.
pub data Incoming : Type 0 where
  text : Text → Incoming
  close failed other : Incoming

module _ (P : Platform) where
  -- One connection, until its stream ends: by a close or an error, or by itself.
  unfoldable pub watch : Text → List Incoming → RemoteFs P → RemoteFs P
  watch my_client_id [] fs = fs
  watch my_client_id (text t ∷ messages) fs =
      watch my_client_id messages (on_text P my_client_id t fs)
  watch my_client_id (close ∷ messages) fs = fs
  watch my_client_id (failed ∷ messages) fs = fs
  watch my_client_id (other ∷ messages) fs = watch my_client_id messages fs

  -- The outer loop, over what each attempt to connect gives: `none` if it fails.
  unfoldable pub connect_and_watch : Text → List (Option (List Incoming)) → RemoteFs P → RemoteFs P
  unfolding watch
  connect_and_watch my_client_id [] fs = fs
  connect_and_watch my_client_id (none ∷ attempts) fs = connect_and_watch my_client_id attempts fs
  connect_and_watch my_client_id (some messages ∷ attempts) fs =
      connect_and_watch my_client_id attempts (watch my_client_id messages fs)
