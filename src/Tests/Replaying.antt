-- ===== src/Tests/Replaying.antt =====
-- Three calls of two clients on a disk, and a look at what the first has stored.
use rust_remote_fs.Prelude.{
  ◌≡◌, ◌≢◌, refl, none, some, List, [], ◌∷◌, Text, bytes, text_eq, strip_prefix,
}
use rust_remote_fs.Outcome.{ok, ◌>>=◌}
use rust_remote_fs.Client.Api.{
  get_file_content_from_server, put_file_content_to_server, delete_resource, create_directory,
}
use rust_remote_fs.Client.State.{RemoteFs}
use rust_remote_fs.Server.Handlers.{ServerState, put_file, put_frames}
use rust_remote_fs.Server.Routes.{serve, route}
use rust_remote_fs.EndToEnd.Replaying.{Change, put, delete, make_dir, learn, replay, as_client}
use rust_remote_fs.EndToEnd.Replaying.Content.{replay-content}
use rust_remote_fs.Tests.Network.{wired_fs, wired-IsServed}
use rust_remote_fs.Tests.Relocating.{
  on_shelf, shelf, shelf-IsDisk, shelf-IsStore, reader, reader-IsWhole, net,
}

abbrev calls : List Change
calls =
    make_dir (bytes "you") (bytes "c")
    ∷ delete (bytes "you") (bytes "c")
    ∷ put (bytes "me") (bytes "a") (bytes "xy")
    ∷ []

abbrev empty : ServerState shelf
empty = record { recent_mods = []; disk = λ p. none }

abbrev fs : RemoteFs net
fs = wired_fs shelf reader

known :
    (replay net fs (bytes "/data") calls (λ q. none) empty).0 (bytes "a") ≡ some (some (bytes "xy"))
unfolding replay learn text_eq strip_prefix put_file_content_to_server delete_resource
    create_directory ◌>>=◌ serve route put_file put_frames
known = refl

named_a : bytes "a" ≢ []
named_a e = cc

named_c : bytes "c" ≢ []
named_c e = cc

clean : (p : Text) → shelf-IsDisk.Clean p
clean p = (on_shelf p empty.disk).0

replay-content_example :
    (get_file_content_from_server net (bytes "a") (
      as_client net fs
        (bytes "/data")
        (bytes "you")
        (replay net fs (bytes "/data") calls (λ q. none) empty).1)).0
    ≡ ok (some (bytes "xy"))
replay-content_example =
    replay-content shelf-IsDisk reader-IsWhole shelf-IsStore fs (wired-IsServed shelf reader) calls
      (bytes "you") (bytes "a") (bytes "xy") empty
      (
        (tt, clean (bytes "/data/c")),
        named_c,
        ((tt, clean (bytes "/data/c")), named_c, ((tt, clean (bytes "/data/a")), named_a, tt)),
      )
      (tt, clean (bytes "/data/a")) named_a known
      (on_shelf (bytes "/data/a") (replay net fs (bytes "/data") calls (λ q. none) empty).1.disk).1
